-- ===== src/ArchiveDomain/State.antt =====
-- object_storage.py: the names of objects, and the checkpoint in Object Storage. The body of an
-- object is its JSON value. Python's formatting of dates is a record of parameters.
pub mod Laws
use oci_iot_samples.Base.{
  String, ◌<>◌, Bool, true, false, ◌&&◌, ◌||◌, Option, none, some, List, [], ◌∷◌, ◌==◌, ℕ, eqb,
  strip_by, is_slash, if◌then◌else◌,
}
use oci_iot_samples.Base.Exec.{
  Outcome, ok, raised, pending, Exec, Exn, service_error, after, after_try, ◌>>=◌, pure, raise,
  lift, try_then, other_error,
}
use oci_iot_samples.Base.Json.{Value, null, str, obj, Fields, end, field, get, as_fields}
use oci_iot_samples.Base.Time.{Datetime}
use oci_iot_samples.ArchiveDomain.Models.{CheckpointState}

-- `isoformat` writes UTC as Z, as the code's `replace` does, and `fromisoformat` reads that. The
-- four digits of the year and two of the month, the day and the hour, and the run id's form.
pub record Calendar : Type 0 where
  pub isoformat : Datetime → String
  pub fromisoformat : String → Outcome Datetime
  pub year : Datetime → String
  pub month : Datetime → String
  pub day : Datetime → String
  pub hour : Datetime → String
  pub run_id : Datetime → String

-- all(status == "succeeded" for status in statuses.values())
unfoldable pub all_succeeded : List (String × String) → Bool
all_succeeded [] = true
all_succeeded ((name, status) ∷ rest) = status == "succeeded" && all_succeeded rest

unfoldable pub should_advance_checkpoint : List (String × String) → Bool
unfolding all_succeeded
should_advance_checkpoint [] = false
should_advance_checkpoint (s ∷ ss) = all_succeeded (s ∷ ss)

unfoldable pub build_dataset_object_prefix :
    Calendar → String → String → String → String → String → Datetime → String
unfolding strip_by
build_dataset_object_prefix cal prefix domain_short_name zone dataset run_id run_at =
    strip_by is_slash prefix
    <> ("/domain="
        <> (domain_short_name
            <> ("/zone="
                <> (zone
                    <> ("/dataset="
                        <> (dataset
                            <> ("/year="
                                <> (cal.year run_at
                                    <> ("/month="
                                        <> (cal.month run_at
                                            <> ("/day="
                                                <> (cal.day run_at
                                                    <> ("/hour="
                                                        <> (cal.hour run_at
                                                            <> ("/run_id=" <> run_id)))))))))))))))

unfoldable pub build_manifest_object_name : String → String → String
unfolding strip_by
build_manifest_object_name manifest_prefix run_id =
    strip_by is_slash manifest_prefix <> ("/run_id=" <> (run_id <> ".json"))

unfoldable pub build_object_name : String → String → String
unfolding strip_by
build_object_name object_prefix filename = strip_by is_slash object_prefix <> ("/" <> filename)

-- `quote` is urllib's, of a text and its safe characters.
unfoldable pub build_dbms_cloud_file_uri :
    (String → String → String) → String → String → String → String → String → String
unfolding strip_by
build_dbms_cloud_file_uri quote region namespace bucket_name object_prefix basename =
    "https://objectstorage."
    <> (region
        <> (".oraclecloud.com/n/"
            <> (namespace
                <> ("/b/"
                    <> (bucket_name
                        <> ("/o/"
                            <> (quote (strip_by is_slash object_prefix) "/="
                                <> ("/" <> quote basename "-."))))))))

-- The client of the OCI SDK, at the store's namespace and bucket.
pub record Bucket (W : Type 0) : Type 0 where
  pub get_object : String → Exec W Value
  pub put_object : String → Value → Exec W (Unit {0})

-- status == 404 or code == "ObjectNotFound"
not_found : Exn → Bool
not_found (service_error status service_code _) = eqb status 404 || service_code == "ObjectNotFound"
not_found _ = false

module _ {W : Type 0} (bucket : Bucket W) (cal : Calendar) where
  unfoldable pub get_json_object : String → Exec W (Option Value)
  unfolding not_found
  get_json_object object_name =
      try_then (bucket.get_object object_name)
        (λ e s. if not_found e then (ok none, s) else (raised e, s))
        (λ payload. pure (some payload))

  unfoldable pub put_json_object : String → Value → Exec W (Unit {0})
  put_json_object object_name payload = bucket.put_object object_name payload

  -- _parse_timestamp. What is no text has no `replace`.
  unfoldable pub parse_timestamp : Option Value → Outcome (Option Datetime)
  parse_timestamp none = ok none
  parse_timestamp (some v) = elim v [
    | null ↦ ok none
    | str s ↦ elim (cal.fromisoformat s) [
      | ok t ↦ ok (some t)
      | raised e ↦ raised e
      | pending ↦ pending
    ]
    | _ ↦ raised (other_error "AttributeError")
  ]

  -- payload.get of what is no object raises.
  checkpoint_of : Option Value → Outcome CheckpointState
  unfolding parse_timestamp as_fields
  checkpoint_of none = ok (record { last_successful_run_at = none })
  checkpoint_of (some payload) = elim (as_fields payload) [
    | none ↦ raised (other_error "AttributeError")
    | some fs ↦ elim (parse_timestamp (get "last_successful_run_at" fs)) [
      | ok t ↦ ok (record { last_successful_run_at = t })
      | raised e ↦ raised e
      | pending ↦ pending
    ]
  ]

  unfoldable pub load_checkpoint : String → Exec W CheckpointState
  unfolding get_json_object checkpoint_of
  load_checkpoint object_name = do
    payload ← get_json_object object_name
    lift (checkpoint_of payload)

  abbrev pub timestamp_value : Option Datetime → Value
  timestamp_value none = null
  timestamp_value (some t) = str (cal.isoformat t)

  unfoldable pub save_checkpoint : String → CheckpointState → Exec W (Unit {0})
  unfolding put_json_object
  save_checkpoint object_name checkpoint =
      put_json_object object_name (
        obj
          (field "last_successful_run_at" (timestamp_value checkpoint.last_successful_run_at) end))
