-- ===== src/ArchiveDomain/Planner.antt =====
-- planner.py: the selection of datasets, and the time window of each.
pub mod Windows
pub mod Gaps
pub mod Selection
use Prim.Native.String.{compare}
use Prim.Native.Nat.{Ordering}
use oci_iot_samples.Base.{
  ℕ, suc, ◌*◌, String, ◌<>◌, Bool, true, false, not, Option, none, some, List, [], ◌∷◌, truthy,
  code, Char, eqb, is_space, strip_by, lower, contains, lookup, insert, select, map, if◌then◌else◌,
}
use oci_iot_samples.Base.Exec.{Outcome, ok, raised, Exn, value_error, key_error}
use oci_iot_samples.Base.Json.{ℤ, pos, negsuc}
use oci_iot_samples.Base.Outcomes.{◌>>=◌, ◌>>◌}
use oci_iot_samples.Base.Time.{Datetime, day_micros, minus, plus}
use oci_iot_samples.ArchiveDomain.Models.{valid_datasets, DatasetPlan, ArchivePlan}

-- The character goes to the first of the items.
push_char : Char → List String → List String
push_char c [] = String.◌∷◌ c "" ∷ []
push_char c (item ∷ items) = String.◌∷◌ c item ∷ items

-- value.split(",")
split_commas : String → List String
unfolding push_char
split_commas String.[] = "" ∷ []
split_commas (String.◌∷◌ c s) =
    let rest = split_commas s in if eqb (code c) b',' then "" ∷ rest else push_char c rest

-- sorted of a set, from its members in any order
insert_sorted : String → List String → List String
insert_sorted s [] = s ∷ []
insert_sorted s (t ∷ ts) =
    let rest = insert_sorted s ts in
    elim (compare s t) [ Ordering.lt ↦ s ∷ t ∷ ts | Ordering.eq ↦ t ∷ ts | Ordering.gt ↦ t ∷ rest ]

sorted_set : List String → List String
unfolding insert_sorted
sorted_set [] = []
sorted_set (s ∷ ss) = insert_sorted s (sorted_set ss)

-- ", ".join(items)
unfoldable pub join_commas : List String → String
join_commas [] = ""
join_commas (s ∷ []) = s
join_commas (s ∷ t ∷ ts) = s <> (", " <> join_commas (t ∷ ts))

-- {item.strip().lower() for item in value.split(",") if item.strip()}, as a list
selected_items : String → List String
unfolding split_commas select strip_by lower
selected_items value =
    map (λ item. lower (strip_by is_space item))
      (select (λ item. truthy (strip_by is_space item)) (split_commas value))

choose_datasets : List String → Outcome (List String)
unfolding sorted_set join_commas select contains
choose_datasets [] = raised (value_error "Dataset list cannot be empty")
choose_datasets (s ∷ ss) =
    let unknown = sorted_set (select (λ item. not (contains item valid_datasets)) (s ∷ ss)) in
    elim unknown [
      | [] ↦ ok (select (λ dataset. contains dataset (s ∷ ss)) valid_datasets)
      | u ∷ us ↦ raised (value_error ("Unknown datasets: " <> join_commas (u ∷ us)))
    ]

unfoldable pub parse_datasets : Option String → Outcome (List String)
unfolding choose_datasets selected_items
parse_datasets none = ok valid_datasets
parse_datasets (some value) =
    if truthy value then choose_datasets (selected_items value) else ok valid_datasets

-- value - timedelta(days=days)
unfoldable pub minus_days : Datetime → ℤ → Outcome Datetime
unfolding minus plus
minus_days t (pos n) = minus t (n * day_micros)
minus_days t (negsuc n) = plus t (suc n * day_micros)

-- retention_days[dataset]
unfoldable pub retention_of : String → List (String × ℤ) → Outcome ℤ
unfolding lookup
retention_of dataset retention_days = elim (lookup dataset retention_days) [
  | none ↦ raised (key_error dataset)
  | some days ↦ ok days
]

abbrev pub datetime_or : Option Datetime → Datetime → Datetime
datetime_or none t = t
datetime_or (some t) _ = t

abbrev pub missing_start : String
missing_start = "A checkpoint, explicit start time, or bootstrap lookback is required"

-- What build_archive_plan is given beside the datasets and their retention.
pub record PlanRequest : Type 0 where
  pub now : Datetime
  pub last_successful_run_at : Option Datetime
  pub bootstrap_lookback_days : Option ℤ
  pub explicit_start_time : Option Datetime
  pub explicit_end_time : Option Datetime

-- The branches that give `window_start`.
unfoldable pub start_of_window : PlanRequest → ℤ → Datetime → Outcome Datetime
unfolding minus_days
start_of_window request retention purge_boundary = elim request.explicit_start_time [
  | some start ↦ ok start
  | none ↦ elim request.last_successful_run_at [
    | some last ↦ minus_days last retention
    | none ↦ elim request.bootstrap_lookback_days [
      | some lookback ↦ minus_days purge_boundary lookback
      | none ↦ raised (value_error missing_start)
    ]
  ]
]

-- One round of the loop of build_archive_plan.
unfoldable pub plan_dataset : PlanRequest → List (String × ℤ) → String → Outcome DatasetPlan
unfolding retention_of
plan_dataset request retention_days dataset = do
  retention ← retention_of dataset retention_days
  purge_boundary ← minus_days request.now retention
  window_start ← start_of_window request retention purge_boundary
  ok (record {
    name = dataset;
    retention_days = retention;
    purge_boundary = purge_boundary;
    window_start = window_start;
    window_end = datetime_or request.explicit_end_time purge_boundary;
  })

unfoldable pub plan_datasets :
    PlanRequest
    → List (String × ℤ)
    → List String
    → List (String × DatasetPlan)
    → Outcome (List (String × DatasetPlan))
plan_datasets request retention_days [] datasets = ok datasets
plan_datasets request retention_days (dataset ∷ rest) datasets = do
  plan ← plan_dataset request retention_days dataset
  plan_datasets request retention_days rest (insert dataset plan datasets)

unfoldable pub build_archive_plan :
    List String → List (String × ℤ) → PlanRequest → Outcome ArchivePlan
build_archive_plan selected_datasets retention_days request = do
  datasets ← plan_datasets request retention_days selected_datasets []
  ok (record { now = request.now; selected_datasets = selected_datasets; datasets = datasets })
