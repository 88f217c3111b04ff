-- ===== src/ArchiveDomain/Cli/Exits.antt =====
-- The exit of the command run: an exception exactly where the checkpoint has not advanced.
use oci_iot_samples.Base.{
  ℕ, String, ◌≡◌, inl, inr, refl, sym, ap, ◌∙◌, subst, Bool, true, false, some, List, [], ◌∷◌, All,
  arith, select, if◌then◌else◌,
}
use oci_iot_samples.Base.Exec.{Exec, ok, raised, after, ◌>>◌, >>=-eq-ok, pure}
use oci_iot_samples.ArchiveDomain.Models.{DatasetPlan, DatasetResult, PlanResult, RunResult}
use oci_iot_samples.ArchiveDomain.Cli.Failures.{is_nil, Settled, advances-unfailed}
use oci_iot_samples.ArchiveDomain.Planner.Selection.{IsSelection, parse_datasets-IsSelection}
use oci_iot_samples.ArchiveDomain.Service.{
  ArchiveService, Executor, RunRequest, plan, perform, finish, run_result, record_run, advances,
  statuses_from, run_datasets,
}
use oci_iot_samples.ArchiveDomain.Executor.{LiveArchiveExecutor, execute_dataset}
use oci_iot_samples.ArchiveDomain.Executor.Results.{execute_dataset-Succeeds}
use oci_iot_samples.ArchiveDomain.Service
use oci_iot_samples.ArchiveDomain.Planner.{parse_datasets}
use oci_iot_samples.ArchiveDomain.Planner.Windows.{build_archive_plan_fields}
use oci_iot_samples.ArchiveDomain.Service.Advance.{NamesResults, IsOutcome, run_datasets-IsOutcome}
use oci_iot_samples.ArchiveDomain.Cli.{
  Console, Options, is_failed, exports_failed, request_of, echo_run, echo_results, report_run,
  echo_dry, run,
}

-- The executor's results are successes or failures.
abbrev pub SettlesResults : {W : Type 0} → Executor W → Type 0
SettlesResults {W} execute =
    (d : String) (p : DatasetPlan) (mode object_prefix export_format : String) (w w' : W)
    (r : DatasetResult)
    → execute d p mode object_prefix export_format w ≡ (ok r, w')
    → Settled r

module _ {W : Type 0} (service : ArchiveService W) (execute : Executor W) (request : RunRequest)
    (configured : service.executor ≡ some execute) (named : NamesResults execute)
    (settles : SettlesResults execute) (live : request.dry_run ≡ false) where
  outcomes-Settled :
      (planned : PlanResult) (rs : List DatasetResult)
      → All (λ r. IsOutcome service request planned execute configured named r.name r) rs
      → All Settled rs
  outcomes-Settled planned [] _ = tt
  outcomes-Settled planned (r ∷ rs) ((_, inl failed), os) =
      (inr failed, outcomes-Settled planned rs os)
  outcomes-Settled planned (r ∷ rs) ((_, inr (p, prefix, w1, w2, _, ran)), os) = (
    settles r.name p request.mode prefix planned.export_format w1 w2 r ran,
    outcomes-Settled planned rs os,
  )

  looped-advances :
      (planned : PlanResult) (w w' : W) (rs : List DatasetResult)
      → IsSelection planned.plan.selected_datasets
      → run_datasets service request planned planned.plan.selected_datasets [] w ≡ (ok rs, w')
      → advances service request planned rs ≡ is_nil (select is_failed rs)
  looped-advances planned w w' rs selection h =
      let (more, same, ds, outcomes) =
        run_datasets-IsOutcome service request planned execute configured named
          planned.plan.selected_datasets [] w w' rs live h in
      rw same (
        advances-unfailed service request planned more live (subst IsSelection (sym ds) selection)
          (outcomes-Settled planned more outcomes))

  plan-selected :
      (w w' : W) (p : PlanResult)
      → plan service request w ≡ (ok p, w')
      → parse_datasets request.datasets ≡ ok p.plan.selected_datasets
  unfolding plan
  plan-selected w w' p h = grind (arith, build_archive_plan_fields)

  pub run-unfailed :
      (w w' : W) (r : RunResult)
      → Service.run service request w ≡ (ok r, w')
      → r.checkpoint_advanced ≡ is_nil (select is_failed r.dataset_results)
  unfolding Service.run
  run-unfailed w w' r h =
      let (p, w1, planned, h1) =
        >>=-eq-ok (plan service request) (perform service request) {s = w} h in
      let (results, w2, looped, h2) =
        >>=-eq-ok (run_datasets service request p p.plan.selected_datasets [])
          (finish service request p) {s = w1} h1 in
      let (_, w3, recorded, h3) =
        >>=-eq-ok (record_run service request p results)
          (λ _. pure (run_result service request p results)) {s = w2} h2 in
      let made : run_result service request p results ≡ r = cc (h3) in
      subst (λ x. x.checkpoint_advanced ≡ is_nil (select is_failed x.dataset_results)) made
        (looped-advances p w1 w2 results
          (parse_datasets-IsSelection request.datasets p.plan.selected_datasets
            (plan-selected w w1 p planned))
          looped)

abbrev pub Echoes : {W : Type 0} → Console W → Type 0
Echoes {W} console = (line : String) (w : W) → (console.echo line w).0 ≡ ok tt

-- The call returns, from every state.
abbrev Completes : {W : Type 0} → Exec W (Unit {0}) → Type 0
Completes {W} m = (w : W) → (m w).0 ≡ ok tt

then-Completes :
    {W : Type 0} (m n : Exec W (Unit {0})) → Completes m → Completes n → Completes (m >> n)
then-Completes m n h k w = ap (λ o. (after o (m w).1 (λ _. n)).0) (h w) ∙ k (m w).1

module _ {W : Type 0} (console : Console W) (echoes : Echoes console) where
  echo_results-Completes : (rs : List DatasetResult) → Completes (echo_results console rs)
  unfolding echo_results
  echo_results-Completes [] = λ w. refl
  echo_results-Completes (r ∷ rs) =
      then-Completes (console.echo _) (echo_results console rs) (echoes _)
        (echo_results-Completes rs)

  echo_dry-Completes : (dry_run : Bool) → Completes (echo_dry console dry_run)
  echo_dry-Completes true = echoes _
  echo_dry-Completes false = λ w. refl

  echo_run-Completes : (dry_run : Bool) (r : RunResult) → Completes (echo_run console dry_run r)
  unfolding echo_run
  echo_run-Completes dry_run r = then-Completes (console.echo _) _ (echoes _) (
      then-Completes (console.echo _) _ (echoes _) (
        then-Completes (echo_dry console dry_run) _ (echo_dry-Completes dry_run) (
          then-Completes (echo_results console r.dataset_results) (console.echo _)
            (echo_results-Completes r.dataset_results) (echoes _))))

  raises_failed :
      (dry_run : Bool) (r : RunResult) (w : W)
      → r.checkpoint_advanced ≡ is_nil (select is_failed r.dataset_results)
      → (report_run console dry_run r w).0 ≡ (
          if r.checkpoint_advanced
          then ok tt
          else raised (exports_failed (select is_failed r.dataset_results)))
  raises_failed dry_run r w h = ground (arith, h, echo_run-Completes dry_run r w)

request_of-dry_run :
    {W : Type 0} (console : Console W) (options : Options) (w w' : W) (request : RunRequest)
    → request_of console options w ≡ (ok request, w')
    → request.dry_run ≡ options.dry_run
unfolding request_of
request_of-dry_run console options w w' request h = ground arith

run-exit :
    {W : Type 0} (console : Console W) (options : Options) (service : ArchiveService W)
    (execute : Executor W) (request : RunRequest) (w w1 w2 w3 : W) (r : RunResult)
    → Echoes console
    → options.dry_run ≡ false
    → request_of console options w ≡ (ok request, w1)
    → console.build_service w1 ≡ (ok service, w2)
    → service.executor ≡ some execute
    → NamesResults execute
    → SettlesResults execute
    → Service.run service request w2 ≡ (ok r, w3)
    → (run console options w).0 ≡ (
        if r.checkpoint_advanced
        then ok tt
        else raised (exports_failed (select is_failed r.dataset_results)))
unfolding run
run-exit console options service execute request w w1 w2 w3 r echoes live asked built configured
      named settles h =
    let advanced =
      run-unfailed service execute request configured named settles
        (request_of-dry_run console options w w1 request asked ∙ live) w2 w3 r h in
    rw (asked, built, h) (raises_failed console echoes options.dry_run r w3 advanced)

-- The command run, without --dry-run, whose options are read and whose service is built with the
-- live executor, and with a console that takes every line: when the service's run returns, the
-- command returns if the checkpoint has advanced, and else it raises, with the details of the failed
-- results.
pub live_run-exit :
    {D S Body : Type 0} (console : Console (D × S)) (options : Options)
    (service : ArchiveService (D × S)) (executor : LiveArchiveExecutor D S Body) (fuel : ℕ)
    (request : RunRequest) (w w1 w2 w3 : D × S) (r : RunResult)
    → Echoes console
    → options.dry_run ≡ false
    → request_of console options w ≡ (ok request, w1)
    → console.build_service w1 ≡ (ok service, w2)
    → service.executor ≡ some (execute_dataset executor fuel)
    → Service.run service request w2 ≡ (ok r, w3)
    → (run console options w).0 ≡ (
        if r.checkpoint_advanced
        then ok tt
        else raised (exports_failed (select is_failed r.dataset_results)))
live_run-exit console options service executor fuel request w w1 w2 w3 r echoes live asked built
      configured h =
    run-exit console options service (execute_dataset executor fuel) request w w1 w2 w3 r echoes
      live asked built configured
      (λ d p mode object_prefix export_format u u' result ran.
        (execute_dataset-Succeeds executor fuel d mode object_prefix export_format p u u' result
          ran).0)
      (λ d p mode object_prefix export_format u u' result ran.
        inl
          (execute_dataset-Succeeds executor fuel d mode object_prefix export_format p u u' result
            ran).1)
      h
