-- ===== src/ArchiveDomain/Service/Advance.antt =====
-- The checkpoint advances only over data that is archived.
use oci_iot_samples.Base.{
  String, ◌≡◌, ◌≢◌, ◌⊎◌, inl, inr, refl, sym, ◌∙◌, subst, true, false, some, List, [], ◌∷◌, ◌++◌,
  map, All, arith, contains, lookup, append-nil, append_assoc,
}
use oci_iot_samples.Base.Options.{Option-cases}
use oci_iot_samples.Base.Exec.{Outcome, Exec, ok, raised, pending, after, >>=-eq-ok, pure}
use oci_iot_samples.ArchiveDomain.Models.{DatasetPlan, DatasetResult, PlanResult, RunResult}
use oci_iot_samples.ArchiveDomain.Exporters.{dataset_zone}
use oci_iot_samples.ArchiveDomain.State.{build_dataset_object_prefix, should_advance_checkpoint}
use oci_iot_samples.ArchiveDomain.State.Laws.{should_advance-lookup}
use oci_iot_samples.ArchiveDomain.Service.{
  ArchiveService, Executor, RunRequest, execute_or_fail, execute_planned, run_dataset, run_datasets,
  run, plan, perform, finish, run_result, record_run, advances, run_id,
}
use oci_iot_samples.ArchiveDomain.Service.Statuses.{
  HasStatus, name_of, no_status, statuses_of, statuses_of-HasStatus, statuses_of-found,
}

-- A result that the executor returned for the dataset's planned window.
abbrev pub IsExecuted : {W : Type 0} → RunRequest → PlanResult → Executor W → DatasetResult → Type 0
IsExecuted {W} request planned execute r =
    (p : DatasetPlan) × (object_prefix : String) × (w1 : W) × (w2 : W) × (lookup r.name
        planned.plan.datasets
      ≡ some p)
    × (execute r.name p request.mode object_prefix planned.export_format w1 ≡ (ok r, w2))

-- The executor's results have the names of their datasets.
abbrev pub NamesResults : {W : Type 0} → Executor W → Type 0
NamesResults {W} execute =
    (d : String) (p : DatasetPlan) (mode object_prefix export_format : String) (w w' : W)
    (r : DatasetResult)
    → execute d p mode object_prefix export_format w ≡ (ok r, w')
    → r.name ≡ d

module _ {W : Type 0} (service : ArchiveService W) (request : RunRequest)
    (planned : PlanResult) where
  module _ (execute : Executor W) (configured : service.executor ≡ some execute)
      (named : NamesResults execute) where
    abbrev pub IsOutcome : String → DatasetResult → Type 0
    IsOutcome d r = (r.name ≡ d) × ((r.status ≡ "failed") ⊎ IsExecuted request planned execute r)

    planned-IsOutcome :
        (d object_prefix : String) (w w' : W) (r : DatasetResult)
        → execute_planned service request planned execute d object_prefix w ≡ (ok r, w')
        → IsOutcome d r
    unfolding execute_planned
    planned-IsOutcome d object_prefix w w' r h =
        elim (Option-cases (lookup d planned.plan.datasets)) [
          | inl e ↦ let raises = rw (e, execute_planned) at h in cc (raises)
          | inr (p, e) ↦
              let ran : execute d p request.mode object_prefix planned.export_format w
                  ≡ (ok r, w') =
                rw (e, execute_planned) at h in
              let name = named d p request.mode object_prefix planned.export_format w w' r ran in
              (
                name,
                inr (
                  p,
                  object_prefix,
                  w,
                  w',
                  subst (λ n. lookup n planned.plan.datasets ≡ some p) (sym name) e,
                  subst
                      (λ n.
                        execute n p request.mode object_prefix planned.export_format w ≡ (ok r, w'))
                      (sym name) ran,
                ),
              )
        ]

    fails-IsOutcome :
        (d object_prefix : String) (w w' w'' : W) (o : Outcome DatasetResult) (r : DatasetResult)
        → execute_planned service request planned execute d object_prefix w ≡ (o, w')
        → execute_or_fail service request planned (some execute) d object_prefix w ≡ (ok r, w'')
        → IsOutcome d r
    unfolding execute_or_fail
    fails-IsOutcome d object_prefix w w' w'' (ok r') r e h =
        let same = rw e at h in
        let result : r' ≡ r = cc (same) in
        subst (IsOutcome d) result (planned-IsOutcome d object_prefix w w' r' e)
    fails-IsOutcome d object_prefix w w' w'' (raised x) r e h =
        let failed = rw e at h in (cc (failed), inl cc)
    fails-IsOutcome d object_prefix w w' w'' pending r e h = let stuck = rw e at h in cc (stuck)

    -- A round of the loop, when the zone is known.
    abbrev in_zone : String → String → Exec W DatasetResult
    in_zone d zone = execute_or_fail service request planned (some execute) d (
        build_dataset_object_prefix service.calendar service.config.prefix
          service.config.iot_domain_short_name zone d (run_id service request planned)
          planned.plan.now)

    in_zone-IsOutcome :
        (d : String) (zone : Outcome String) (w w' : W) (r : DatasetResult)
        → after zone w (in_zone d) ≡ (ok r, w')
        → IsOutcome d r
    in_zone-IsOutcome d (ok zone) w w' r h = fails-IsOutcome d _ w _ w' _ r refl h
    in_zone-IsOutcome d (raised e) w w' r h = cc
    in_zone-IsOutcome d pending w w' r h = cc

    run_dataset-IsOutcome :
        (d : String) (w w' : W) (r : DatasetResult)
        → request.dry_run ≡ false
        → run_dataset service request planned d w ≡ (ok r, w')
        → IsOutcome d r
    unfolding run_dataset execute_or_fail
    run_dataset-IsOutcome d w w' r live h =
        in_zone-IsOutcome d (dataset_zone d) w w' r (rw (live, configured) at h)

    -- The results are those given before, and then one for each dataset.
    pub run_datasets-IsOutcome :
        (ds : List String) (results : List DatasetResult) (w w' : W) (out : List DatasetResult)
        → request.dry_run ≡ false
        → run_datasets service request planned ds results w ≡ (ok out, w')
        → (more : List DatasetResult) × (out ≡ results ++ more)
          × (map name_of more ≡ ds)
          × All (λ r. IsOutcome r.name r) more
    unfolding run_datasets
    run_datasets-IsOutcome [] results w w' out live h = ([], cc (h, append-nil results), refl, tt)
    run_datasets-IsOutcome (d ∷ ds) results w w' out live h =
        let (r, w1, e, h1) =
          >>=-eq-ok (run_dataset service request planned d)
            (λ r. run_datasets service request planned ds (results ++ (r ∷ []))) {s = w} h in
        let (name, outcome) = run_dataset-IsOutcome d w w1 r live e in
        let (more, o, names, outcomes) =
          run_datasets-IsOutcome ds (results ++ (r ∷ [])) w1 w' out live h1 in
        (
          r ∷ more,
          o ∙ append_assoc results (r ∷ []) more,
          cc (name, names),
          ((refl, outcome), outcomes),
        )

    -- The result of this name and status was executed, unless the status is that of a failure.
    found-IsExecuted :
        (d s : String) (rs : List DatasetResult)
        → s ≢ "failed"
        → All (λ r. IsOutcome r.name r) rs
        → HasStatus d s rs
        → (r : DatasetResult) × (r.name ≡ d) × (r.status ≡ s) × IsExecuted request planned execute r
    found-IsExecuted d s [] ne o h = absurd h
    found-IsExecuted d s (r ∷ rs) ne ((same, inl f), outcomes) (inl (n, e)) =
        absurd (ne (sym e ∙ f))
    found-IsExecuted d s (r ∷ rs) ne ((same, inr x), outcomes) (inl (n, e)) = (r, n, e, x)
    found-IsExecuted d s (r ∷ rs) ne (o, outcomes) (inr more) =
        found-IsExecuted d s rs ne outcomes more

    advances-IsExecuted :
        (d : String) (w w' : W) (out : List DatasetResult)
        → run_datasets service request planned planned.plan.selected_datasets [] w ≡ (ok out, w')
        → advances service request planned out ≡ true
        → contains d planned.plan.selected_datasets ≡ true
        → (r : DatasetResult) × (r.name ≡ d)
          × (r.status ≡ "succeeded")
          × IsExecuted request planned execute r
    unfolding advances
    advances-IsExecuted d w w' out h adv selected =
        let live : request.dry_run ≡ false = ground arith in
        let all : should_advance_checkpoint (statuses_of service request planned [] out) ≡ true =
          ground (arith, live) in
        let (more, o, names, outcomes) =
          run_datasets-IsOutcome planned.plan.selected_datasets [] w w' out live h in
        let known : contains d (map name_of out) ≡ true = cc (o, names, selected) in
        elim (Option-cases (lookup d (statuses_of service request planned [] out))) [
          | inl none_there ↦
              absurd (statuses_of-found service request planned d [] out (inl known) none_there)
          | inr (s, there) ↦
              let good =
                should_advance-lookup d s (statuses_of service request planned [] out) all there in
              elim (statuses_of-HasStatus service request planned d s [] out there) [
                | inl n ↦ absurd (no_status d s n)
                | inr has ↦
                    let (r, n, status, ran) =
                      found-IsExecuted d s out (λ f. cc (good, f))
                        (subst (All (λ r. IsOutcome r.name r)) (sym o) outcomes) has in
                    let fine : r.status ≡ "succeeded" = cc (status, good) in (r, n, fine, ran)
              ]
        ]

-- If the executor's results have the names of their datasets, then a run that advances the
-- checkpoint has, for each dataset that it selected, a result that the executor returned for the
-- dataset's planned window, with the status of a success.
pub advanced-IsExecuted :
    {W : Type 0} (service : ArchiveService W) (execute : Executor W) (request : RunRequest)
    (w w' : W) (r : RunResult) (d : String)
    → service.executor ≡ some execute
    → NamesResults execute
    → run service request w ≡ (ok r, w')
    → r.checkpoint_advanced ≡ true
    → contains d r.plan_result.plan.selected_datasets ≡ true
    → (result : DatasetResult) × (result.name ≡ d)
      × (result.status ≡ "succeeded")
      × IsExecuted request r.plan_result execute result
unfolding run
advanced-IsExecuted service execute request w w' r d configured named h adv selected =
    let (p, w1, planned, h1) =
      >>=-eq-ok (plan service request) (perform service request) {s = w} h in
    let (results, w2, looped, h2) =
      >>=-eq-ok (run_datasets service request p p.plan.selected_datasets [])
        (finish service request p) {s = w1} h1 in
    let (_, w3, recorded, h3) =
      >>=-eq-ok (record_run service request p results)
        (λ _. pure (run_result service request p results)) {s = w2} h2 in
    let made : run_result service request p results ≡ r = cc (h3) in
    subst
      (λ x.
        x.checkpoint_advanced ≡ true
        → contains d x.plan_result.plan.selected_datasets ≡ true
        → (result : DatasetResult) × (result.name ≡ d)
          × (result.status ≡ "succeeded")
          × IsExecuted request x.plan_result execute result)
      made (advances-IsExecuted service request p execute configured named d w1 w2 results looped)
      adv selected
