-- ===== src/ArchiveDomain/State/Laws.antt =====
-- The checkpoint that is loaded is the one that was saved.
use oci_iot_samples.Base.{String, ◌≡◌, arith, inl, inr, List, [], ◌∷◌, lookup, eq_iff, true, some}
use oci_iot_samples.Base.Exec.{ok}
use oci_iot_samples.Base.Json.{Value, get}
use oci_iot_samples.Base.Options.{Option-cases}
use oci_iot_samples.Base.Time.{Datetime}
use oci_iot_samples.ArchiveDomain.Models.{CheckpointState}
use oci_iot_samples.ArchiveDomain.State.{
  Calendar, Bucket, load_checkpoint, save_checkpoint, all_succeeded, should_advance_checkpoint,
}

-- An object that has been put is what the next read of that name gets.
abbrev pub ReadsBack : {W : Type 0} → Bucket W → Type 0
ReadsBack {W} bucket =
    (name : String) (body : Value) (w w' : W)
    → bucket.put_object name body w ≡ (ok tt, w')
    → bucket.get_object name w' ≡ (ok body, w')

-- Dates are read as they were written.
abbrev pub IsoRoundTrips : Calendar → Type 0
IsoRoundTrips cal = (t : Datetime) → cal.fromisoformat (cal.isoformat t) ≡ ok t

-- When a save of a checkpoint returns, in a bucket whose reads give what was last put, and with dates
-- that are read as they were written, then a load of that name gives the checkpoint that was saved,
-- whether it has a time or none, and changes nothing.
pub load-save_checkpoint :
    {W : Type 0} (bucket : Bucket W) (cal : Calendar) (name : String) (checkpoint : CheckpointState)
    (w w' : W)
    → ReadsBack bucket
    → IsoRoundTrips cal
    → save_checkpoint bucket cal name checkpoint w ≡ (ok tt, w')
    → load_checkpoint bucket cal name w' ≡ (ok checkpoint, w')
unfolding load_checkpoint save_checkpoint get
load-save_checkpoint bucket cal name checkpoint w w' reads iso h =
    let read = reads name _ w w' h in
    elim (Option-cases checkpoint.last_successful_run_at) [
      | inl e ↦ ground (arith, read, e)
      | inr (t, e) ↦ ground (arith, read, e, iso t)
    ]

all_succeeded-lookup :
    (d s : String) (statuses : List (String × String))
    → all_succeeded statuses ≡ true
    → lookup d statuses ≡ some s
    → s ≡ "succeeded"
unfolding all_succeeded lookup
all_succeeded-lookup d s [] all e = cc
all_succeeded-lookup d s ((j, t) ∷ rest) all e =
    ground (arith, all_succeeded-lookup d s rest, eq_iff t "succeeded")

-- The checkpoint advances over successes only.
pub should_advance-lookup :
    (d s : String) (statuses : List (String × String))
    → should_advance_checkpoint statuses ≡ true
    → lookup d statuses ≡ some s
    → s ≡ "succeeded"
unfolding should_advance_checkpoint
should_advance-lookup d s [] all e = cc
should_advance-lookup d s (t ∷ rest) all e = all_succeeded-lookup d s (t ∷ rest) all e
