-- ===== src/ArchiveDomain/Planner/Gaps.antt =====
-- The bounds of a window, and what a run of some of the datasets does to the windows of the others.
use oci_iot_samples.Base.{
  ℕ, ◌+◌, ◌*◌, ◌≤◌, ◌<◌, String, ◌≡◌, refl, ◌∙◌, true, false, Option, none, some, List, [], ◌∷◌,
  arith, contains, lookup, insert, lookup-insert, eq_iff,
}
use oci_iot_samples.Base.Exec.{ok}
use oci_iot_samples.Base.Json.{ℤ, pos}
use oci_iot_samples.Base.Outcomes.{>>=-eq-ok}
use oci_iot_samples.Base.Time.{Datetime, micros, day_micros}
use oci_iot_samples.ArchiveDomain.Models.{DatasetPlan, ArchivePlan}
use oci_iot_samples.ArchiveDomain.Planner.{
  PlanRequest, plan_dataset, plan_datasets, build_archive_plan, start_of_window,
}
use oci_iot_samples.ArchiveDomain.Planner.Windows.{planned, plan_dataset_fields, Consecutive}

-- Of a dataset with a retention that is not negative, in a plan without explicit times whose
-- checkpoint is not in the future, the window ends the retention before the plan's time and starts
-- the retention before the checkpoint, and it does not end before it starts.
window_bounds :
    (request : PlanRequest) (retention : List (String × ℤ)) (d : String) (days : ℕ)
    (last : Datetime) (p : DatasetPlan)
    → lookup d retention ≡ some (pos days)
    → request.explicit_start_time ≡ none
    → request.explicit_end_time ≡ none
    → request.last_successful_run_at ≡ some last
    → micros last ≤ micros request.now
    → plan_dataset request retention d ≡ ok p
    → (micros p.window_end + days * day_micros ≡ micros request.now)
      × (micros p.window_start + days * day_micros ≡ micros last)
      × (micros p.window_start ≤ micros p.window_end)
unfolding start_of_window
window_bounds request retention d days last p r no_start no_end checkpoint order h =
    let (boundary, start, finish) = plan_dataset_fields request retention d (pos days) p r h in
    ground arith

not_planned :
    (request : PlanRequest) (retention : List (String × ℤ)) (d : String) (ds : List String)
    (acc res : List (String × DatasetPlan))
    → plan_datasets request retention ds acc ≡ ok res
    → contains d ds ≡ false
    → lookup d res ≡ lookup d acc
unfolding plan_datasets contains
not_planned request retention d [] acc res h c = cc
not_planned request retention d (x ∷ xs) acc res h c =
    let (q, made, rest) = >>=-eq-ok (plan_dataset request retention x) _ h in
    not_planned request retention d xs (insert x q acc) res rest (ground (arith, c))
    ∙ ground (arith, c, lookup-insert x d q acc, eq_iff x d, eq_iff d x)

abbrev no_plan : Option DatasetPlan
no_plan = none

lookup-nil : (k : String) → lookup k [] ≡ no_plan
unfolding lookup
lookup-nil k = refl

-- A run of some of the datasets leaves a gap in the others. Of three plans without explicit times,
-- each with the time of the one before as its checkpoint and with one retention that is not
-- negative, the first and the third select a dataset and the second does not. If the second is
-- later than the first, then the second has no window for the dataset, and the window of the third
-- begins later than that of the first ends.
pub unselected_gap :
    (first second third : PlanRequest) (retention : List (String × ℤ)) (d : String) (days : ℕ)
    (selected1 selected2 selected3 : List String) (plan1 plan2 plan3 : ArchivePlan)
    → Consecutive first second
    → Consecutive second third
    → lookup d retention ≡ some (pos days)
    → micros first.now < micros second.now
    → contains d selected1 ≡ true
    → contains d selected2 ≡ false
    → contains d selected3 ≡ true
    → build_archive_plan selected1 retention first ≡ ok plan1
    → build_archive_plan selected2 retention second ≡ ok plan2
    → build_archive_plan selected3 retention third ≡ ok plan3
    → (p : DatasetPlan) × (q : DatasetPlan) × (lookup d plan1.datasets ≡ some p)
      × (lookup d plan2.datasets ≡ none)
      × (lookup d plan3.datasets ≡ some q)
      × (micros p.window_end < micros q.window_start)
unfolding start_of_window build_archive_plan
unselected_gap first second third retention d days selected1 selected2 selected3 plan1 plan2 plan3
      c12 c23 r later s1 s2 s3 h1 h2 h3 =
    let (p, made1, found1) = planned first retention d selected1 plan1 h1 s1 in
    let (q, made3, found3) = planned third retention d selected3 plan3 h3 s3 in
    let (boundary1, _, end1) = plan_dataset_fields first retention d (pos days) p r made1 in
    let (_, start3, _) = plan_dataset_fields third retention d (pos days) q r made3 in
    let (res, made2, e2) = >>=-eq-ok (plan_datasets second retention selected2 []) _ h2 in
    (
      p,
      q,
      found1,
      cc (e2, not_planned second retention d selected2 [] res made2 s2, lookup-nil d),
      found3,
      ground (arith, boundary1, end1, start3, c12.no_end, c23.no_start, c23.checkpoint),
    )
