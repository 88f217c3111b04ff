-- ===== src/Base/Time.antt =====
-- Python's `datetime` and `timedelta`. A time is a number of microseconds since the beginning of
-- year 1. An aware datetime counts in UTC, since arithmetic and order go by the instant; a naive
-- one counts on its own clock. Results past the years 1 to 9999 raise OverflowError.
use oci_iot_samples.Base.Tests.{ltb, if◌then◌else◌}
use oci_iot_samples.Base.Exec.{Outcome, ok, raised, overflow_error}
use Prim.Native.Nat.{ℕ, ◌+◌, ◌-◌}
use mathlib.Core.Bool.{Bool, true, false}

pub data Datetime : Type 0 where
  aware naive : ℕ → Datetime

abbrev pub micros : Datetime → ℕ
micros (aware t) = t
micros (naive t) = t

abbrev pub has_tzinfo : Datetime → Bool
has_tzinfo (aware t) = true
has_tzinfo (naive t) = false

-- A datetime of the same kind at other microseconds.
abbrev pub at : Datetime → ℕ → Datetime
at (aware _) t = aware t
at (naive _) t = naive t

abbrev pub max_micros : ℕ
max_micros = 315537897599999999

abbrev pub minute_micros : ℕ
minute_micros = 60000000

abbrev pub day_micros : ℕ
day_micros = 86400000000

-- value - span and value + span, the span in microseconds
unfoldable pub minus : Datetime → ℕ → Outcome Datetime
minus d span = if ltb (micros d) span then raised overflow_error else ok (at d (micros d - span))

unfoldable pub plus : Datetime → ℕ → Outcome Datetime
plus d span =
    if ltb max_micros (micros d + span) then raised overflow_error else ok (at d (micros d + span))
