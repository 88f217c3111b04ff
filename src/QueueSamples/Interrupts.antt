-- ===== src/QueueSamples/Interrupts.antt =====
-- What `except Exception` lets through, in both subscribers.
use oci_iot_samples.Base.{Bool, false, ◌==◌, if◌then◌else◌}
use oci_iot_samples.Base.Exec.{Exec, Exn, other_error, pure, raise}

-- KeyboardInterrupt, which is no Exception.
unfoldable pub is_interrupt : Exn → Bool
is_interrupt (other_error s) = s == "KeyboardInterrupt"
is_interrupt _ = false

-- except Exception: what happened is logged.
abbrev pub but_interrupts : {W A : Type 0} → A → Exn → Exec W A
but_interrupts a e = if is_interrupt e then raise e else pure a
