-- ===== src/ArchiveDomain/Cli.antt =====
-- cli.py: the commands plan and run. Lines go to a console, which is a parameter as Python's formatting of
-- datetimes is.
mod Failures
pub mod Exits
use oci_iot_samples.Base.{
  String, ◌<>◌, Bool, true, false, Option, none, some, List, [], ◌∷◌, given, select, map, lookup,
  replace, ◌==◌, if◌then◌else◌,
}
use oci_iot_samples.Base.Exec.{
  Exec, Exn, Outcome, ok, raised, pending, key_error, other_error, after, ◌>>=◌, ◌>>◌, pure, raise,
  lift,
}
use oci_iot_samples.Base.Json.{ℤ}
use oci_iot_samples.Base.Time.{Datetime}
use oci_iot_samples.ArchiveDomain.Models.{DatasetPlan, DatasetResult, PlanResult, RunResult}
use oci_iot_samples.ArchiveDomain.Service.{ArchiveService, RunRequest}
use oci_iot_samples.ArchiveDomain.Service

-- `utc_isoformat` is value.astimezone(timezone.utc).isoformat(), `fromisoformat` is datetime's,
-- and `text_of_int` is `str`.
pub record Console (W : Type 0) : Type 0 where
  pub build_service : Exec W (ArchiveService W)
  pub echo : String → Exec W (Unit {0})
  pub utc_isoformat : Datetime → String
  pub fromisoformat : String → Outcome Datetime
  pub text_of_int : ℤ → String

-- The options of a command, as click gives them: the datasets have a default, and the times are texts.
pub record Options : Type 0 where
  pub datasets : String
  pub mode : String
  pub dry_run : Bool
  pub start_time : Option String
  pub end_time : Option String

-- str(value)
abbrev text_or_none : Option String → String
text_or_none none = "None"
text_or_none (some s) = s

-- "; ".join(items)
unfoldable pub join_details : List String → String
join_details [] = ""
join_details (s ∷ []) = s
join_details (s ∷ t ∷ ts) = s <> ("; " <> join_details (t ∷ ts))

-- f"{result.name}: {result.error_message or 'export failed'}"
abbrev pub detail_of : DatasetResult → String
detail_of result =
    result.name
    <> (": "
        <> (elim (given result.error_message) [ none ↦ "export failed" | some message ↦ message ]))

abbrev pub is_failed : DatasetResult → Bool
is_failed result = result.status == "failed"

-- click.ClickException
abbrev pub exports_failed : List DatasetResult → Exn
exports_failed failed_results =
    other_error
      ("One or more dataset exports failed: " <> join_details (map detail_of failed_results))

module _ {W : Type 0} (console : Console W) where
  unfoldable pub format_timestamp : Option Datetime → String
  unfolding replace
  format_timestamp none = "none"
  format_timestamp (some value) = replace "+00:00" "Z" (console.utc_isoformat value)

  unfoldable pub parse_timestamp : Option String → Outcome (Option Datetime)
  unfolding replace
  parse_timestamp none = ok none
  parse_timestamp (some value) = elim (console.fromisoformat (replace "Z" "+00:00" value)) [
    | ok t ↦ ok (some t)
    | raised e ↦ raised e
    | pending ↦ pending
  ]

  -- click's callbacks of the options, and then what the service is given
  unfoldable pub request_of : Options → Exec W RunRequest
  unfolding parse_timestamp
  request_of options = do
    start_time ← lift (parse_timestamp options.start_time)
    end_time ← lift (parse_timestamp options.end_time)
    pure (record {
      datasets = some options.datasets;
      mode = options.mode;
      dry_run = options.dry_run;
      start_time = start_time;
      end_time = end_time;
    })

  abbrev echo_window : String → Option DatasetPlan → Exec W (Unit {0})
  echo_window dataset none = raise (key_error dataset)
  echo_window dataset (some p) = console.echo (
      dataset
      <> (": "
          <> (format_timestamp (some p.window_start)
              <> (" -> "
                  <> (format_timestamp (some p.window_end)
                      <> (" (retention=" <> (console.text_of_int p.retention_days <> "d)")))))))

  unfoldable pub echo_windows : List String → List (String × DatasetPlan) → Exec W (Unit {0})
  unfolding lookup format_timestamp
  echo_windows [] datasets = pure tt
  echo_windows (dataset ∷ rest) datasets =
      echo_window dataset (lookup dataset datasets) >> echo_windows rest datasets

  -- The command `plan`
  unfoldable pub plan : Options → Exec W (Unit {0})
  unfolding format_timestamp
  plan options = do
    request ← request_of options
    service ← console.build_service
    plan_result ← Service.plan service request
    console.echo ("Checkpoint: " <> format_timestamp plan_result.checkpoint.last_successful_run_at)
    echo_windows plan_result.plan.selected_datasets plan_result.plan.datasets

  unfoldable pub echo_results : List DatasetResult → Exec W (Unit {0})
  echo_results [] = pure tt
  echo_results (result ∷ rest) = do
    console.echo (
        result.name
        <> (": "
            <> (result.status
                <> (" ("
                    <> (text_or_none result.export_mode
                        <> (", " <> (text_or_none result.export_format <> ")")))))))
    echo_results rest

  abbrev pub echo_dry : Bool → Exec W (Unit {0})
  echo_dry true = console.echo "Dry run only; no data exported."
  echo_dry false = pure tt

  -- The exception of a run with failed exports
  abbrev pub raise_failed : List DatasetResult → Exec W (Unit {0})
  raise_failed [] = pure tt
  raise_failed (f ∷ fs) = raise (exports_failed (f ∷ fs))

  -- What `run` echoes of a result
  unfoldable pub echo_run : Bool → RunResult → Exec W (Unit {0})
  echo_run dry_run run_result = do
    console.echo ("Run ID: " <> run_result.run_id)
    console.echo ("Mode: " <> run_result.mode)
    echo_dry dry_run
    echo_results run_result.dataset_results
    console.echo
        ("Checkpoint advanced: " <> (if run_result.checkpoint_advanced then "yes" else "no"))

  abbrev pub report_run : Bool → RunResult → Exec W (Unit {0})
  report_run dry_run run_result = do
    echo_run dry_run run_result
    raise_failed (select is_failed run_result.dataset_results)

  -- The command `run`
  unfoldable pub run : Options → Exec W (Unit {0})
  run options = do
    request ← request_of options
    service ← console.build_service
    run_result ← Service.run service request
    report_run options.dry_run run_result
