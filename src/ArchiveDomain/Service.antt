-- ===== src/ArchiveDomain/Service.antt =====
-- service.py: `ArchiveService`, over a world `W` that its collaborators change.
pub mod Runs
pub mod Failures
pub mod Statuses
pub mod Advance
use oci_iot_samples.Base.{
  ℕ, String, ◌<>◌, Bool, true, false, ◌&&◌, not, Option, none, some, List, [], ◌∷◌, ◌++◌, map,
  lower, truthy, contains, lookup, insert, length, eqb, ◌==◌, if◌then◌else◌,
}
use mathlib.Core.Option
use oci_iot_samples.Base.Exec.{
  Exec, Exn, Outcome, ok, raised, pending, value_error, runtime_error, key_error, after, after_try,
  ◌>>=◌, ◌>>◌, pure, raise, lift, try_then,
}
use oci_iot_samples.Base.Json.{ℤ, Value, Fields}
use oci_iot_samples.Base.Time.{Datetime}
use oci_iot_samples.ArchiveDomain.Models.{
  DatasetPlan, ArchivePlan, CheckpointState, DatasetResult, PlanResult, RunResult,
  valid_export_formats, export_format_datapump,
}
use oci_iot_samples.ArchiveDomain.Planner.{parse_datasets, build_archive_plan, PlanRequest}
use oci_iot_samples.ArchiveDomain.Retention.{resolve_retention_days}
use oci_iot_samples.ArchiveDomain.Exporters.{dataset_zone}
use oci_iot_samples.ArchiveDomain.Manifest.{build_run_manifest}
use oci_iot_samples.ArchiveDomain.State.{
  Calendar, Bucket, should_advance_checkpoint, build_dataset_object_prefix,
  build_manifest_object_name, load_checkpoint, save_checkpoint, put_json_object,
}

-- What of the configuration the service reads. The YAML value of `retention_days` is a mapping.
pub record Config : Type 0 where
  pub export_format : String
  pub retention_days : Fields
  pub bootstrap_lookback_days : ℤ
  pub iot_domain_short_name : String
  pub prefix : String
  pub manifest_prefix : String
  pub checkpoint_object : String

-- dataset, its plan, mode, object prefix, export format
abbrev pub Executor : Type 0 → Type 0
Executor W = String → DatasetPlan → String → String → String → Exec W DatasetResult

-- What __init__ keeps. `error_text` is `str` of an exception, and `int_of` is Python's `int`.
pub record ArchiveService (W : Type 0) : Type 0 where
  pub config : Config
  pub retention_lookup : Exec W (List (String × ℤ))
  pub state_store : Option (Bucket W)
  pub executor : Option (Executor W)
  pub clock : Exec W Datetime
  pub calendar : Calendar
  pub error_text : Exn → String
  pub int_of : Value → Outcome ℤ

-- What `run` is given.
pub record RunRequest : Type 0 where
  pub datasets : Option String
  pub mode : String
  pub dry_run : Bool
  pub start_time : Option Datetime
  pub end_time : Option Datetime

-- `m`, with an exception as its result.
abbrev pub attempt : {W A : Type 0} → Exec W A → Exec W (Outcome A)
attempt m = try_then m (λ e s. (ok (raised e), s)) (λ a s. (ok (ok a), s))

module _ {W : Type 0} (service : ArchiveService W) where
  open service use {config, calendar}

  -- _load_checkpoint
  unfoldable pub stored_checkpoint : Exec W CheckpointState
  stored_checkpoint = elim service.state_store [
    | none ↦ pure (record { last_successful_run_at = none })
    | some bucket ↦ load_checkpoint bucket calendar config.checkpoint_object
  ]

  -- _resolved_export_format
  unfoldable pub resolved_export_format : String
  unfolding lower
  resolved_export_format =
      lower (if truthy config.export_format then config.export_format else "parquet")

  -- _validate_export_format
  unfoldable pub validate_export_format : List String → Outcome (Unit {0})
  unfolding resolved_export_format contains
  validate_export_format selected =
      if not (contains resolved_export_format valid_export_formats)
      then raised (value_error ("unsupported export_format: " <> resolved_export_format))
      else if resolved_export_format == export_format_datapump && not (eqb (length selected) 1)
      then raised (value_error "datapump export format requires selecting exactly one dataset")
      else ok tt

  abbrev pub plan_request : Datetime → CheckpointState → RunRequest → PlanRequest
  plan_request now checkpoint request = record {
    now = now;
    last_successful_run_at = checkpoint.last_successful_run_at;
    bootstrap_lookback_days = some config.bootstrap_lookback_days;
    explicit_start_time = request.start_time;
    explicit_end_time = request.end_time;
  }

  -- ArchiveService.plan, of the datasets and the times of a request
  unfoldable pub plan : RunRequest → Exec W PlanResult
  plan request = do
    selected ← lift (parse_datasets request.datasets)
    lift (validate_export_format selected)
    checkpoint ← stored_checkpoint
    live ← attempt service.retention_lookup
    retention ← lift (resolve_retention_days service.int_of live config.retention_days selected)
    now ← service.clock
    made ← lift (build_archive_plan selected retention (plan_request now checkpoint request))
    pure (record {
      plan = made;
      export_format = resolved_export_format;
      retention_days = retention;
      checkpoint = checkpoint;
    })

  module _ (request : RunRequest) (planned : PlanResult) where
    abbrev pub run_id : String
    run_id = calendar.run_id planned.plan.now

    abbrev outcome_of : String → String → String → Option String → DatasetResult
    outcome_of dataset status object_prefix error_message = record {
      name = dataset;
      status = status;
      export_mode = some request.mode;
      export_format = some planned.export_format;
      object_prefix = some object_prefix;
      object_names = [];
      error_message = error_message;
    }

    -- The call in the `try` of the loop, with the look-up of the dataset's plan.
    unfoldable pub execute_planned : Executor W → String → String → Exec W DatasetResult
    unfolding lookup
    execute_planned execute dataset object_prefix = elim (lookup dataset planned.plan.datasets) [
      | none ↦ raise (key_error dataset)
      | some p ↦ execute dataset p request.mode object_prefix planned.export_format
    ]

    abbrev pub no_executor : Exn
    no_executor =
        runtime_error
          "No archive executor is configured. Use --dry-run or provide a runtime executor."

    unfoldable pub execute_or_fail : Option (Executor W) → String → String → Exec W DatasetResult
    unfolding execute_planned
    execute_or_fail none dataset object_prefix = raise no_executor
    execute_or_fail (some execute) dataset object_prefix =
        try_then (execute_planned execute dataset object_prefix)
          (λ e. pure (outcome_of dataset "failed" object_prefix (some (service.error_text e)))) pure

    -- One round of the loop of `run`.
    unfoldable pub run_dataset : String → Exec W DatasetResult
    run_dataset dataset = do
      zone ← lift (dataset_zone dataset)
      let object_prefix =
          build_dataset_object_prefix calendar config.prefix config.iot_domain_short_name zone
            dataset run_id planned.plan.now
      elim request.dry_run [
        | true ↦ pure (outcome_of dataset "planned" object_prefix none)
        | false ↦ execute_or_fail service.executor dataset object_prefix
      ]

    unfoldable pub run_datasets : List String → List DatasetResult → Exec W (List DatasetResult)
    run_datasets [] results = pure results
    run_datasets (dataset ∷ rest) results = do
      result ← run_dataset dataset
      run_datasets rest (results ++ (result ∷ []))

    -- {result.name: result.status for result in dataset_results}
    unfoldable pub statuses_from :
        List (String × String) → List DatasetResult → List (String × String)
    unfolding insert
    statuses_from statuses [] = statuses
    statuses_from statuses (r ∷ rs) = statuses_from (insert r.name r.status statuses) rs

    abbrev manifest_name : String
    manifest_name = build_manifest_object_name config.manifest_prefix run_id

    abbrev manifest : List DatasetResult → Value
    manifest results =
        build_run_manifest run_id planned.plan.selected_datasets planned.retention_days
          (Option.map calendar.isoformat planned.checkpoint.last_successful_run_at) results

    -- `checkpoint_advanced`
    unfoldable pub advances : List DatasetResult → Bool
    unfolding statuses_from
    advances results =
        if request.dry_run then false else should_advance_checkpoint (statuses_from [] results)

    abbrev pub save_if : Bool → Bucket W → Exec W (Unit {0})
    save_if false bucket = pure tt
    save_if true bucket =
        save_checkpoint bucket calendar config.checkpoint_object
          (record { last_successful_run_at = some planned.plan.now })

    abbrev pub write_manifest : Bucket W → List DatasetResult → Exec W (Unit {0})
    write_manifest bucket results = put_json_object bucket calendar manifest_name (manifest results)

    -- What `run` writes to a bucket after the loop.
    unfoldable pub record_in : Bucket W → List DatasetResult → Exec W (Unit {0})
    record_in bucket results = do write_manifest bucket results; save_if (advances results) bucket

    unfoldable pub record_run : List DatasetResult → Exec W (Unit {0})
    record_run results =
        if request.dry_run
        then pure tt
        else elim service.state_store [ none ↦ pure tt | some bucket ↦ record_in bucket results ]

    abbrev pub run_result : List DatasetResult → RunResult
    run_result results = record {
      run_id = run_id;
      mode = request.mode;
      export_format = planned.export_format;
      plan_result = planned;
      dataset_results = results;
      checkpoint_advanced = advances results;
      manifest_object_name = some manifest_name;
    }

    abbrev pub finish : List DatasetResult → Exec W RunResult
    finish results = do record_run results; pure (run_result results)

    abbrev pub perform : Exec W RunResult
    perform = run_datasets planned.plan.selected_datasets [] >>= finish

  -- ArchiveService.run
  unfoldable pub run : RunRequest → Exec W RunResult
  run request = plan request >>= perform request
