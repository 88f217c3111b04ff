-- ===== src/ArchiveDomain/CliTests.antt =====
-- The command run at an archive whose database cannot be reached.
use oci_iot_samples.Base.{
  String, ◌≡◌, refl, false, some, none, [], contains, lookup, select, strip_by, lstrip_by,
  rstrip_by, lower, insert, if◌then◌else◌,
}
use oci_iot_samples.Base.Exec.{Exec, ok, raised, runtime_error, value_error}
use oci_iot_samples.Base.Json.{pos, num, end, field, get}
use oci_iot_samples.Base.Time.{aware, minus}
use oci_iot_samples.ArchiveDomain.Models.{RunResult}
use oci_iot_samples.ArchiveDomain.Planner.{
  parse_datasets, plan_dataset, plan_datasets, start_of_window, minus_days, retention_of,
  join_commas, build_archive_plan,
}
use oci_iot_samples.ArchiveDomain.Retention.{
  resolve_retention_days, apply_overrides, set_int, check_missing,
}
use oci_iot_samples.ArchiveDomain.Exporters.{dataset_zone, choose_execution_mode}
use oci_iot_samples.ArchiveDomain.State.{build_dataset_object_prefix}
use oci_iot_samples.ArchiveDomain.Executor.{
  LiveArchiveExecutor, execute_dataset, execute_sql, actual_mode, exported_text,
}
use oci_iot_samples.ArchiveDomain.Sql.{build_dataset_query, sql_of}
use oci_iot_samples.ArchiveDomain.Service.{
  ArchiveService, RunRequest, validate_export_format, resolved_export_format, run_datasets,
  run_dataset, advances, record_run, statuses_from, execute_or_fail, execute_planned, plan,
  stored_checkpoint,
}
use oci_iot_samples.ArchiveDomain.Service
use oci_iot_samples.ArchiveDomain.Cli.{
  Console, Options, exports_failed, is_failed, request_of, parse_timestamp, run,
}
use oci_iot_samples.ArchiveDomain.Cli.Exits.{live_run-exit}

abbrev World : Type 0
World = Unit {0} × Unit {0}

abbrev unreachable : {A : Type 0} → Exec (Unit {0}) A
unreachable w = (raised (runtime_error "no database"), w)

abbrev executor : LiveArchiveExecutor (Unit {0}) (Unit {0}) String
executor = record {
  database = record {
    connect = unreachable;
    close = unreachable;
    open_cursor = unreachable;
    close_cursor = unreachable;
    execute = λ statement binds. unreachable;
    description = unreachable;
    next_row = unreachable;
    read_lob = λ handle. unreachable;
  };
  put_object = λ name body. unreachable;
  gzip = λ text. text;
  formats = record {
    b64encode = λ b. "";
    utc_isoformat = λ t. "";
    utc_micros = λ t. "";
    date_isoformat = λ d. "";
    decimal_text = λ m k. "0";
    dumps = λ fields. "{}";
    quote = λ s safe. s;
  };
  region = none;
  namespace = "ns";
  bucket_name = "bucket";
  iot_domain_short_name = "dom";
  dbms_cloud_credential_name = none;
}

abbrev service : ArchiveService World
service = record {
  config = record {
    export_format = "parquet";
    retention_days = field "raw" (num (pos 0)) end;
    bootstrap_lookback_days = pos 0;
    iot_domain_short_name = "dom";
    prefix = "archive";
    manifest_prefix = "manifests";
    checkpoint_object = "checkpoint.json";
  };
  retention_lookup = λ w. (ok [], w);
  state_store = none;
  executor = some (execute_dataset executor 9);
  clock = λ w. (ok (aware 5), w);
  calendar = record {
    isoformat = λ t. "";
    fromisoformat = λ s. raised (value_error s);
    year = λ t. "2026";
    month = λ t. "01";
    day = λ t. "02";
    hour = λ t. "03";
    run_id = λ t. "r1";
  };
  error_text = λ e. "no database";
  int_of = λ v. elim v [ num z ↦ ok z | _ ↦ raised (value_error "int") ];
}

abbrev console : Console World
console = record {
  build_service = λ w. (ok service, w);
  echo = λ line w. (ok tt, w);
  utc_isoformat = λ t. "";
  fromisoformat = λ s. raised (value_error s);
  text_of_int = λ z. "0";
}

abbrev options : Options
options = record {
  datasets = "raw";
  mode = "sql";
  dry_run = false;
  start_time = none;
  end_time = none;
}

asked : (request : RunRequest) × (request_of console options (tt, tt) ≡ (ok request, (tt, tt)))
unfolding request_of parse_timestamp
asked = (_, refl)

failing_run : (r : RunResult) × (Service.run service asked.0 (tt, tt) ≡ (ok r, (tt, tt)))
unfolding Service.run asked plan parse_datasets validate_export_format stored_checkpoint lookup
    resolve_retention_days apply_overrides set_int get build_archive_plan plan_datasets plan_dataset
    minus_days start_of_window join_commas retention_of check_missing resolved_export_format
    contains select lower lstrip_by rstrip_by strip_by minus insert run_datasets run_dataset
    dataset_zone build_dataset_object_prefix execute_or_fail execute_planned execute_dataset
    actual_mode execute_sql exported_text build_dataset_query record_run request_of parse_timestamp
    choose_execution_mode sql_of
failing_run = (_, refl)

live_run-exit_example : (run console options (tt, tt)).0 ≡ (
    if failing_run.0.checkpoint_advanced
    then ok tt
    else raised (exports_failed (select is_failed failing_run.0.dataset_results)))
live_run-exit_example =
    live_run-exit console options service executor 9 asked.0 (tt, tt) (tt, tt) (tt, tt) (tt, tt)
      failing_run.0 (λ line w. refl) refl asked.1 refl refl failing_run.1
