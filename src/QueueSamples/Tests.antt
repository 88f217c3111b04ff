-- ===== src/QueueSamples/Tests.antt =====
-- The theorem on the subscriber's life at a connection whose stream is interrupted at once.
use oci_iot_samples.Base.{ℕ, none, some, [], refl}
use oci_iot_samples.Base.Exec.{Exec, ok, raised, other_error}
use oci_iot_samples.QueueSamples.{Connection, main}
use oci_iot_samples.QueueSamples.Calm.{Undisturbed}
use oci_iot_samples.QueueSamples.Tracing.{tracing}
use oci_iot_samples.QueueSamples.Lifetime.{Lives, main-Lives}

abbrev done : Exec ℕ (Unit {0})
done w = (ok tt, w)

abbrev connection : Connection ℕ
connection = record {
  connect = done;
  close = done;
  instance_of_display_name = λ name w. (ok (some (some "id")), w);
  enquote_literal = λ s w. (ok s, w);
  subscriber_type = done;
  new_id = λ w. (ok "12-34", w);
  add_subscriber = λ q name rule. done;
  remove_subscriber = λ q name. done;
  open_queue = λ q name. done;
  deqone = λ w. (raised (other_error "KeyboardInterrupt"), w);
  read_content = λ id w. (ok "hot", w);
  print = λ s. done;
  commit = done;
}

undisturbed : Undisturbed connection
undisturbed = record {
  connecting = λ w e r. cc;
  closing = λ w e r. cc;
  finding = λ name w e r. cc;
  quoting = λ s w e r. cc;
  typing = λ w e r. cc;
  naming = λ w e r. cc;
  adding = λ q name rule w e r. cc;
  removing = λ q name w e r. cc;
  reporting_interrupt = λ w. refl;
  reporting_error = λ w. refl;
}

main-Lives_example :
    Lives connection undisturbed
      (main (tracing connection) 5 "dom" none (some "device") none (0, []))
main-Lives_example = main-Lives connection undisturbed 5 "dom" none (some "device") none 0
