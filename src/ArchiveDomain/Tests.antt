-- ===== src/ArchiveDomain/Tests.antt =====
-- The planner's theorems at concrete plans.
use oci_iot_samples.Base.{
  ℕ, ◌*◌, ◌<◌, String, ◌≡◌, refl, true, false, Option, none, some, List, [], ◌∷◌, arith, contains,
  lookup, insert,
}
use oci_iot_samples.Base.Exec.{ok}
use oci_iot_samples.Base.Json.{ℤ, pos}
use oci_iot_samples.Base.Time.{Datetime, aware, micros, minus, day_micros}
use oci_iot_samples.ArchiveDomain.Models.{DatasetPlan, ArchivePlan}
use oci_iot_samples.ArchiveDomain.Planner.{
  PlanRequest, plan_dataset, plan_datasets, start_of_window, minus_days, retention_of,
  build_archive_plan,
}
use oci_iot_samples.ArchiveDomain.Planner.Windows.{Consecutive}
use oci_iot_samples.ArchiveDomain.Planner.Gaps.{unselected_gap}

-- A run at the beginning of this day, after a run at the beginning of `last`.
abbrev request_at : ℕ → Option Datetime → PlanRequest
request_at now last = record {
  now = aware (now * day_micros);
  last_successful_run_at = last;
  bootstrap_lookback_days = some (pos 7);
  explicit_start_time = none;
  explicit_end_time = none;
}

abbrev first : PlanRequest
first = request_at 100 none

abbrev second : PlanRequest
second = request_at 101 (some (aware (100 * day_micros)))

abbrev third : PlanRequest
third = request_at 102 (some (aware (101 * day_micros)))

abbrev retention : List (String × ℤ)
retention = ("raw", pos 30) ∷ ("rejected", pos 10) ∷ []

abbrev dataset_plan : String → ℕ → ℕ → ℕ → DatasetPlan
dataset_plan name days start finish = record {
  name = name;
  retention_days = pos days;
  purge_boundary = aware (finish * day_micros);
  window_start = aware (start * day_micros);
  window_end = aware (finish * day_micros);
}

abbrev plan_of : ℕ → List String → List (String × DatasetPlan) → ArchivePlan
plan_of now selected datasets = record {
  now = aware (now * day_micros);
  selected_datasets = selected;
  datasets = datasets;
}

abbrev raw : List String
raw = "raw" ∷ []

abbrev rejected : List String
rejected = "rejected" ∷ []

abbrev plan1 : ArchivePlan
plan1 = plan_of 100 raw (("raw", dataset_plan "raw" 30 63 70) ∷ [])

abbrev plan2 : ArchivePlan
plan2 = plan_of 101 raw (("raw", dataset_plan "raw" 30 70 71) ∷ [])

abbrev plan2_rejected : ArchivePlan
plan2_rejected = plan_of 101 rejected (("rejected", dataset_plan "rejected" 10 90 91) ∷ [])

abbrev plan3 : ArchivePlan
plan3 = plan_of 102 raw (("raw", dataset_plan "raw" 30 71 72) ∷ [])

built1 : build_archive_plan raw retention first ≡ ok plan1
unfolding build_archive_plan plan_datasets plan_dataset start_of_window minus_days retention_of
    lookup insert minus
built1 = refl

built2 : build_archive_plan raw retention second ≡ ok plan2
unfolding build_archive_plan plan_datasets plan_dataset start_of_window minus_days retention_of
    lookup insert minus
built2 = refl

built2_rejected : build_archive_plan rejected retention second ≡ ok plan2_rejected
unfolding build_archive_plan plan_datasets plan_dataset start_of_window minus_days retention_of
    lookup insert minus
built2_rejected = refl

built3 : build_archive_plan raw retention third ≡ ok plan3
unfolding build_archive_plan plan_datasets plan_dataset start_of_window minus_days retention_of
    lookup insert minus
built3 = refl

raw_retention : lookup "raw" retention ≡ some (pos 30)
unfolding lookup
raw_retention = refl

raw_selected : contains "raw" raw ≡ true
unfolding contains
raw_selected = refl

raw_not_selected : contains "raw" rejected ≡ false
unfolding contains
raw_not_selected = refl

consecutive12 : Consecutive first second
consecutive12 = record { no_end = refl; no_start = refl; checkpoint = refl }

consecutive23 : Consecutive second third
consecutive23 = record { no_end = refl; no_start = refl; checkpoint = refl }

unselected_gap_example :
    (p : DatasetPlan) × (q : DatasetPlan) × (lookup "raw" plan1.datasets ≡ some p)
    × (lookup "raw" plan2_rejected.datasets ≡ none)
    × (lookup "raw" plan3.datasets ≡ some q)
    × (micros p.window_end < micros q.window_start)
unselected_gap_example =
    unselected_gap first second third retention "raw" 30 raw rejected raw plan1 plan2_rejected plan3
      consecutive12 consecutive23 raw_retention (omega arith) raw_selected raw_not_selected
      raw_selected built1 built2_rejected built3

raw_planned : plan_dataset second retention "raw" ≡ ok (dataset_plan "raw" 30 70 71)
unfolding plan_dataset start_of_window minus_days retention_of lookup minus
raw_planned = refl
