-- ===== src/ArchiveDomain/Planner/Windows.antt =====
-- The plan of each dataset, and how the windows of one run and of the next lie.
use oci_iot_samples.Base.{
  String, ◌≡◌, ap, ◌∙◌, true, Bool-cases, inl, inr, none, some, List, [], ◌∷◌, arith, contains,
  lookup, insert, lookup-insert, eq_iff, ◌==◌,
}
use oci_iot_samples.Base.Exec.{ok}
use oci_iot_samples.Base.Json.{ℤ}
use oci_iot_samples.Base.Outcomes.{>>=-eq-ok}
use oci_iot_samples.ArchiveDomain.Models.{DatasetPlan, ArchivePlan}
use oci_iot_samples.ArchiveDomain.Planner.{
  PlanRequest, plan_dataset, plan_datasets, build_archive_plan, start_of_window, minus_days,
  datetime_or,
}

module _ (request : PlanRequest) (retention : List (String × ℤ)) (d : String) where
  keep-lookup :
      (ds : List String) (acc res : List (String × DatasetPlan)) (plan : DatasetPlan)
      → plan_datasets request retention ds acc ≡ ok res
      → plan_dataset request retention d ≡ ok plan
      → lookup d acc ≡ some plan
      → lookup d res ≡ some plan
  unfolding plan_datasets
  keep-lookup [] acc res plan h p l = cc
  keep-lookup (x ∷ xs) acc res plan h p l =
      let (q, made, rest) = >>=-eq-ok (plan_dataset request retention x) _ h in
      keep-lookup xs (insert x q acc) res plan rest p (
        ground (
          arith,
          made,
          p,
          l,
          lookup-insert x d q acc,
          eq_iff x d,
          ap (plan_dataset request retention),
        ))

  find-lookup :
      (ds : List String) (acc res : List (String × DatasetPlan))
      → plan_datasets request retention ds acc ≡ ok res
      → contains d ds ≡ true
      → (plan : DatasetPlan) × (plan_dataset request retention d ≡ ok plan)
        × (lookup d res ≡ some plan)
  unfolding plan_datasets contains
  find-lookup [] acc res h c = cc
  find-lookup (x ∷ xs) acc res h c =
      let (q, made, rest) = >>=-eq-ok (plan_dataset request retention x) _ h in
      elim (Bool-cases (d == x)) [
        | inl e ↦
            let same = (eq_iff d x).0 e in
            let made' = ap (plan_dataset request retention) same ∙ made in
            (
              q,
              made',
              keep-lookup xs (insert x q acc) res q rest made'
                  (ground (arith, same, lookup-insert x d q acc, eq_iff x d)),
            )
        | inr e ↦ find-lookup xs (insert x q acc) res rest (ground (arith, e, c))
      ]

  -- A plan holds, for each dataset that was selected, what the loop's round for that dataset made.
  pub planned :
      (selected : List String) (plan : ArchivePlan)
      → build_archive_plan selected retention request ≡ ok plan
      → contains d selected ≡ true
      → (p : DatasetPlan) × (plan_dataset request retention d ≡ ok p)
        × (lookup d plan.datasets ≡ some p)
  unfolding build_archive_plan
  planned selected plan h c =
      let (res, made, e) = >>=-eq-ok (plan_datasets request retention selected []) _ h in
      let (p, here, found) = find-lookup selected [] res made c in (p, here, cc (e, found))

-- The fields of a dataset's plan.
pub plan_dataset_fields :
    (request : PlanRequest) (retention : List (String × ℤ)) (d : String) (days : ℤ)
    (p : DatasetPlan)
    → lookup d retention ≡ some days
    → plan_dataset request retention d ≡ ok p
    → (minus_days request.now days ≡ ok p.purge_boundary)
      × (start_of_window request days p.purge_boundary ≡ ok p.window_start)
      × (p.window_end ≡ datetime_or request.explicit_end_time p.purge_boundary)
unfolding plan_dataset
plan_dataset_fields request retention d days p h e = ground (arith, h, e)

-- Two runs in a row, both without explicit times. The checkpoint of the second is the time of the
-- first, as a successful first run leaves it.
pub record Consecutive (first second : PlanRequest) : Type 0 where
  pub no_end : first.explicit_end_time ≡ none
  pub no_start : second.explicit_start_time ≡ none
  pub checkpoint : second.last_successful_run_at ≡ some first.now

-- The windows of two consecutive plans abut: of a dataset that both select, with the same
-- retention, both plans hold a window, and that of the second begins where that of the first ends.
-- The first has no explicit end, the second no explicit start, and its checkpoint is the time of
-- the first.
pub windows_abut :
    (first second : PlanRequest) (retention1 retention2 : List (String × ℤ))
    (selected1 selected2 : List String) (plan1 plan2 : ArchivePlan) (d : String) (days : ℤ)
    → Consecutive first second
    → lookup d retention1 ≡ some days
    → lookup d retention2 ≡ some days
    → contains d selected1 ≡ true
    → contains d selected2 ≡ true
    → build_archive_plan selected1 retention1 first ≡ ok plan1
    → build_archive_plan selected2 retention2 second ≡ ok plan2
    → (p : DatasetPlan) × (q : DatasetPlan) × (lookup d plan1.datasets ≡ some p)
      × (lookup d plan2.datasets ≡ some q)
      × (p.window_end ≡ q.window_start)
unfolding start_of_window
windows_abut first second retention1 retention2 selected1 selected2 plan1 plan2 d days c r1 r2 s1 s2
      h1 h2 =
    let (p, made1, found1) = planned first retention1 d selected1 plan1 h1 s1 in
    let (q, made2, found2) = planned second retention2 d selected2 plan2 h2 s2 in
    let (boundary1, _, end1) = plan_dataset_fields first retention1 d days p r1 made1 in
    let (_, start2, _) = plan_dataset_fields second retention2 d days q r2 made2 in
    (
      p,
      q,
      found1,
      found2,
      ground (arith, boundary1, end1, start2, c.no_end, c.no_start, c.checkpoint),
    )

-- A plan holds the time and the datasets that it was made for.
pub build_archive_plan_fields :
    (selected : List String) (retention : List (String × ℤ)) (request : PlanRequest)
    (plan : ArchivePlan)
    → build_archive_plan selected retention request ≡ ok plan
    → (plan.now ≡ request.now) × (plan.selected_datasets ≡ selected)
unfolding build_archive_plan
build_archive_plan_fields selected retention request plan h = ground arith
