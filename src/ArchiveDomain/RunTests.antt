-- ===== src/ArchiveDomain/RunTests.antt =====
-- The runner's theorems at concrete runs, in a world that keeps objects and a clock.
use oci_iot_samples.Base.{
  ℕ, All, zero, suc, String, ◌≡◌, refl, ap, Bool, true, false, none, some, List, [], ◌∷◌, arith,
  lookup, insert, lookup-insert, eq_refl, text_length, eqb, code, contains, select, strip_by,
  lstrip_by, rstrip_by, lower, if◌then◌else◌,
}
use oci_iot_samples.Base.Exec.{Exec, Outcome, ok, raised, service_error, value_error}
use oci_iot_samples.Base.Json.{pos, Value, num, str, obj, end, field, get, as_fields}
use oci_iot_samples.Base.Time.{Datetime, aware, naive, minus, plus}
use oci_iot_samples.ArchiveDomain.Models.{
  DatasetPlan, CheckpointState, DatasetResult, PlanResult, RunResult,
}
use oci_iot_samples.ArchiveDomain.Planner.{
  parse_datasets, plan_dataset, plan_datasets, start_of_window, minus_days, retention_of,
  join_commas, build_archive_plan,
}
use oci_iot_samples.ArchiveDomain.Retention.{
  resolve_retention_days, apply_overrides, set_int, check_missing,
}
use oci_iot_samples.ArchiveDomain.Exporters.{dataset_zone}
use oci_iot_samples.ArchiveDomain.Manifest.{build_run_manifest, result_value}
use oci_iot_samples.ArchiveDomain.State.{
  build_dataset_object_prefix, build_manifest_object_name, get_json_object, parse_timestamp,
  put_json_object, should_advance_checkpoint, Calendar, Bucket, load_checkpoint, save_checkpoint,
}
use oci_iot_samples.ArchiveDomain.State.Laws.{ReadsBack, IsoRoundTrips, load-save_checkpoint}
use oci_iot_samples.ArchiveDomain.Service.{
  Executor, ArchiveService, RunRequest, validate_export_format, resolved_export_format,
  run_datasets, run_dataset, advances, record_in, record_run, statuses_from, execute_or_fail,
  execute_planned, plan, run, stored_checkpoint,
}
use oci_iot_samples.ArchiveDomain.Service.Failures.{HasZone, counted, run_datasets-counted}
use oci_iot_samples.ArchiveDomain.Service.Advance.{IsExecuted, advanced-IsExecuted}
use oci_iot_samples.ArchiveDomain.Service.Runs.{
  dry_run-unchanged, advanced_checkpoint, consecutive_runs_abut,
}

-- A calendar that writes a time as a mark for its kind and one stroke for each microsecond.
abbrev strokes : ℕ → String
strokes zero = ""
strokes (suc n) = String.◌∷◌ "|" (strokes n)

text_length-strokes : (n : ℕ) → text_length (strokes n) ≡ n
unfolding text_length
text_length-strokes zero = refl
text_length-strokes (suc n) = ground (arith, text_length-strokes n)

abbrev write_time : Datetime → String
write_time (aware n) = String.◌∷◌ "Z" (strokes n)
write_time (naive n) = String.◌∷◌ "-" (strokes n)

abbrev read_time : String → Outcome Datetime
read_time String.[] = raised (value_error "no time")
read_time (String.◌∷◌ c s) =
    if eqb (code c) b'Z' then ok (aware (text_length s)) else ok (naive (text_length s))

abbrev calendar : Calendar
calendar = record {
  isoformat = write_time;
  fromisoformat = read_time;
  year = λ t. "2026";
  month = λ t. "01";
  day = λ t. "02";
  hour = λ t. "03";
  run_id = write_time;
}

calendar-IsoRoundTrips : IsoRoundTrips calendar
calendar-IsoRoundTrips (aware n) = ap (λ k. ok (aware k)) (text_length-strokes n)
calendar-IsoRoundTrips (naive n) = ap (λ k. ok (naive k)) (text_length-strokes n)

-- Objects and a clock.
record World : Type 0 where
  objects : List (String × Value)
  time : ℕ

abbrev bucket : Bucket World
bucket = record {
  get_object = λ name w. (
    elim (lookup name w.objects) [
      | none ↦ raised (service_error 404 "ObjectNotFound" name)
      | some v ↦ ok v
    ],
    w,
  );
  put_object =
      λ name body w. (ok tt, record { objects = insert name body w.objects; time = w.time });
}

bucket-ReadsBack : ReadsBack bucket
bucket-ReadsBack name body w w' h =
    ground (arith, lookup-insert name name body w.objects, eq_refl name)

-- Each look at the clock takes a while.
abbrev tick : Exec World Datetime
tick w = (ok (aware w.time), record { objects = w.objects; time = suc w.time })

abbrev succeeds : Executor World
succeeds dataset p mode object_prefix export_format w = (
  ok (record {
    name = dataset;
    status = "succeeded";
    export_mode = some mode;
    export_format = some export_format;
    object_prefix = some object_prefix;
    object_names = [];
    error_message = none;
  }),
  w,
)

abbrev service : ArchiveService World
service = record {
  config = record {
    export_format = "Parquet";
    retention_days = field "raw" (num (pos 0)) end;
    bootstrap_lookback_days = pos 0;
    iot_domain_short_name = "d";
    prefix = "archive";
    manifest_prefix = "manifests";
    checkpoint_object = "checkpoint.json";
  };
  retention_lookup = λ w. (ok [], w);
  state_store = some bucket;
  executor = some succeeds;
  clock = tick;
  calendar = calendar;
  error_text = λ e. "failed";
  int_of = λ v. elim v [ num z ↦ ok z | _ ↦ raised (value_error "int") ];
}

abbrev request : Bool → RunRequest
request dry = record {
  datasets = some "raw";
  mode = "scheduler";
  dry_run = dry;
  start_time = none;
  end_time = none;
}

abbrev world0 : World
world0 = record { objects = []; time = 4 }

-- A run, and the plan of the next.
two_runs :
    (r : RunResult) × (w1 : World) × (p : PlanResult) × (w2 : World) × (run service
        (request false)
        world0
      ≡ (ok r, w1))
    × (r.checkpoint_advanced ≡ true)
    × (plan service (request false) w1 ≡ (ok p, w2))
    × (lookup "raw" r.plan_result.retention_days ≡ some (pos 0))
    × (lookup "raw" p.retention_days ≡ some (pos 0))
    × (contains "raw" r.plan_result.plan.selected_datasets ≡ true)
    × (contains "raw" p.plan.selected_datasets ≡ true)
unfolding run plan parse_datasets validate_export_format stored_checkpoint load_checkpoint lookup
    resolve_retention_days apply_overrides set_int get insert build_archive_plan plan_datasets
    plan_dataset minus_days start_of_window run_datasets dataset_zone build_run_manifest
    result_value join_commas retention_of check_missing advances record_in record_run
    resolved_export_format run_dataset execute_or_fail execute_planned statuses_from
    build_dataset_object_prefix build_manifest_object_name get_json_object parse_timestamp
    put_json_object save_checkpoint should_advance_checkpoint as_fields contains select lower
    lstrip_by rstrip_by strip_by minus plus text_length
two_runs = (_, _, _, _, refl, refl, refl, refl, refl, refl, refl)

abbrev bounded : CheckpointState
bounded = record { last_successful_run_at = some (aware 5) }

abbrev saved_world : World
saved_world = record {
  objects = ("c", obj (field "last_successful_run_at" (str "Z|||||") end)) ∷ [];
  time = 4;
}

checkpoint_saved : save_checkpoint bucket calendar "c" bounded world0 ≡ (ok tt, saved_world)
unfolding save_checkpoint put_json_object insert
checkpoint_saved = refl

load-save_checkpoint_example :
    load_checkpoint bucket calendar "c" saved_world ≡ (ok bounded, saved_world)
load-save_checkpoint_example =
    load-save_checkpoint bucket calendar "c" bounded world0 saved_world bucket-ReadsBack
      calendar-IsoRoundTrips checkpoint_saved

advanced_checkpoint_example :
    stored_checkpoint service two_runs.1
    ≡ (ok (record { last_successful_run_at = some two_runs.0.plan_result.plan.now }), two_runs.1)
advanced_checkpoint_example =
    advanced_checkpoint service (request false) world0 two_runs.1 two_runs.0 bucket refl
      bucket-ReadsBack calendar-IsoRoundTrips two_runs.4 two_runs.5

consecutive_runs_abut_example :
    (a : DatasetPlan) × (b : DatasetPlan) × (lookup "raw" two_runs.0.plan_result.plan.datasets
      ≡ some a)
    × (lookup "raw" two_runs.2.plan.datasets ≡ some b)
    × (a.window_end ≡ b.window_start)
consecutive_runs_abut_example =
    consecutive_runs_abut service (request false) (request false) world0 two_runs.1 two_runs.3
      two_runs.0 two_runs.2 bucket "raw" (pos 0) refl bucket-ReadsBack calendar-IsoRoundTrips refl
      refl two_runs.4 two_runs.5 two_runs.6 two_runs.7 two_runs.8 two_runs.9 two_runs.10

dry_plan : (p : PlanResult) × (w : World) × (plan service (request true) world0 ≡ (ok p, w))
unfolding plan parse_datasets validate_export_format stored_checkpoint load_checkpoint lookup
    resolve_retention_days apply_overrides set_int get build_archive_plan plan_datasets plan_dataset
    minus_days start_of_window join_commas retention_of check_missing resolved_export_format
    get_json_object parse_timestamp contains select lower lstrip_by rstrip_by strip_by minus insert
dry_plan = (_, _, refl)

dry_run-unchanged_example : (run service (request true) world0).1 ≡ dry_plan.1
dry_run-unchanged_example =
    dry_run-unchanged service (request true) world0 dry_plan.1 dry_plan.0 refl dry_plan.2

-- A runner whose every export fails.
abbrev fails : Executor World
fails dataset p mode object_prefix export_format w = (raised (value_error "export"), w)

abbrev failing : ArchiveService World
failing = record service { executor = some fails }

abbrev two_datasets : List String
two_datasets = "raw" ∷ "historized" ∷ []

two_datasets-HasZone : All HasZone two_datasets
unfolding dataset_zone
two_datasets-HasZone = (("bronze", refl), (("silver", refl), tt))

run_datasets-counted_example :
    counted (run_datasets failing (request false) two_runs.2 two_datasets [] world0).0 ≡ some 2
run_datasets-counted_example =
    run_datasets-counted failing (request false) two_runs.2 fails refl
      (λ d p mode object_prefix export_format w h. cc) two_datasets [] world0 two_datasets-HasZone

advanced-IsExecuted_example :
    (result : DatasetResult) × (result.name ≡ "raw")
    × (result.status ≡ "succeeded")
    × IsExecuted (request false) two_runs.0.plan_result succeeds result
advanced-IsExecuted_example =
    advanced-IsExecuted service succeeds (request false) world0 two_runs.1 two_runs.0 "raw" refl
      (λ d p mode object_prefix export_format w w' r h. cc) two_runs.4 two_runs.5 two_runs.9
