-- ===== src/ArchiveDomain/Service/Runs.antt =====
-- What a run writes, and what the next run finds.
use oci_iot_samples.Base.{
  String, ◌≡◌, refl, sym, ap, ◌∙◌, subst, true, false, none, some, List, [], ◌∷◌, arith, contains,
  lookup,
}
use oci_iot_samples.Base.Exec.{ok, after, >>=-eq-ok, bind-unchanged, pure}
use oci_iot_samples.Base.Json.{ℤ}
use oci_iot_samples.Base.Time.{Datetime}
use oci_iot_samples.ArchiveDomain.Models.{
  DatasetPlan, CheckpointState, DatasetResult, PlanResult, RunResult,
}
use oci_iot_samples.ArchiveDomain.Planner.{build_archive_plan}
use oci_iot_samples.ArchiveDomain.Planner.Windows.{build_archive_plan_fields, windows_abut}
use oci_iot_samples.ArchiveDomain.State.{Bucket, load_checkpoint, save_checkpoint}
use oci_iot_samples.ArchiveDomain.State.Laws.{ReadsBack, IsoRoundTrips, load-save_checkpoint}
use oci_iot_samples.ArchiveDomain.Service.{
  ArchiveService, RunRequest, plan, plan_request, stored_checkpoint, run, run_dataset, run_datasets,
  record_run, run_result, advances, perform, finish, record_in, write_manifest, save_if,
}

module _ {W : Type 0} (service : ArchiveService W) where
  pub plan-checkpoint :
      (request : RunRequest) (w w' : W) (p : PlanResult)
      → plan service request w ≡ (ok p, w')
      → (stored_checkpoint service w).0 ≡ ok p.checkpoint
  unfolding plan
  plan-checkpoint request w w' p h = ground arith

  -- The plan was built from the stored checkpoint, at some time.
  pub plan-built :
      (request : RunRequest) (w w' : W) (p : PlanResult)
      → plan service request w ≡ (ok p, w')
      → build_archive_plan p.plan.selected_datasets p.retention_days
          (plan_request service p.plan.now p.checkpoint request)
        ≡ ok p.plan
  unfolding plan
  plan-built request w w' p h = grind (arith, build_archive_plan_fields)

  dry_dataset :
      (request : RunRequest) (p : PlanResult) (d : String) (w : W)
      → request.dry_run ≡ true
      → (run_dataset service request p d w).1 ≡ w
  unfolding run_dataset
  dry_dataset request p d w dry = ground (arith, dry)

  dry_loop :
      (request : RunRequest) (p : PlanResult) (ds : List String) (results : List DatasetResult)
      (w : W)
      → request.dry_run ≡ true
      → (run_datasets service request p ds results w).1 ≡ w
  unfolding run_datasets
  dry_loop request p [] results w dry = refl
  dry_loop request p (d ∷ ds) results w dry =
      bind-unchanged (run_dataset service request p d) _ w (dry_dataset request p d w dry)
        λ r. dry_loop request p ds _ w dry

  dry_record :
      (request : RunRequest) (p : PlanResult) (results : List DatasetResult) (w : W)
      → request.dry_run ≡ true
      → record_run service request p results w ≡ (ok tt, w)
  unfolding record_run
  dry_record request p results w dry = ground (arith, dry)

  dry_result :
      (request : RunRequest) (w w'' : W) (r : RunResult)
      → request.dry_run ≡ true
      → run service request w ≡ (ok r, w'')
      → r.checkpoint_advanced ≡ false
  unfolding run advances
  dry_result request w w'' r dry e = ground arith

  -- A dry run whose plan succeeds leaves the world that planning left.
  pub dry_run-unchanged :
      (request : RunRequest) (w w' : W) (p : PlanResult)
      → request.dry_run ≡ true
      → plan service request w ≡ (ok p, w')
      → (run service request w).1 ≡ w'
  unfolding run
  dry_run-unchanged request w w' p dry h =
      rw (h, after)
        (bind-unchanged (run_datasets service request p p.plan.selected_datasets []) _ w'
          (dry_loop request p _ [] w' dry)
          (λ results. rw (dry_record request p results w' dry) refl))

  advances-live :
      (request : RunRequest) (p : PlanResult) (results : List DatasetResult)
      → advances service request p results ≡ true
      → request.dry_run ≡ false
  unfolding advances
  advances-live request p results adv = ground arith

  record_run-live :
      (request : RunRequest) (p : PlanResult) (results : List DatasetResult) (bucket : Bucket W)
      (w : W)
      → service.state_store ≡ some bucket
      → request.dry_run ≡ false
      → record_run service request p results w ≡ record_in service request p bucket results w
  unfolding record_run
  record_run-live request p results bucket w store live = simp (store, live)

  record_in-saves :
      (request : RunRequest) (p : PlanResult) (results : List DatasetResult) (bucket : Bucket W)
      (w w' : W)
      → record_in service request p bucket results w ≡ (ok tt, w')
      → advances service request p results ≡ true
      → (w'' : W) × (save_checkpoint bucket service.calendar service.config.checkpoint_object
            (record { last_successful_run_at = some p.plan.now })
            w''
          ≡ (ok tt, w'))
  unfolding record_in
  record_in-saves request p results bucket w w' h adv =
      let write = write_manifest service request p bucket results in
      let (_, w'', _, e) =
        >>=-eq-ok write (λ _. save_if service request p (advances service request p results) bucket)
          {s = w} h in
      (w'', rw adv at e)

  run-parts :
      (request : RunRequest) (w w' : W) (r : RunResult)
      → run service request w ≡ (ok r, w')
      → (p : PlanResult) × (results : List DatasetResult) × (w1 : W) × (w'' : W) × (plan service
            request w
          ≡ (ok p, w1))
        × (record_run service request p results w'' ≡ (ok tt, w'))
        × (run_result service request p results ≡ r)
  unfolding run
  run-parts request w w' r h =
      let (p, w1, planned, h1) =
        >>=-eq-ok (plan service request) (perform service request) {s = w} h in
      let (results, w2, _, h2) =
        >>=-eq-ok (run_datasets service request p p.plan.selected_datasets [])
          (finish service request p) {s = w1} h1 in
      let (_, w3, e3, h3) =
        >>=-eq-ok (record_run service request p results)
          (λ _. pure (run_result service request p results)) {s = w2} h2 in
      (
        p,
        results,
        w1,
        w2,
        planned,
        subst (λ x. record_run service request p results w2 ≡ (ok tt, x)) (ap (λ x. x.1) h3) e3,
        cc,
      )

  stored-in :
      (bucket : Bucket W) (w : W)
      → service.state_store ≡ some bucket
      → stored_checkpoint service w
        ≡ load_checkpoint bucket service.calendar service.config.checkpoint_object w
  unfolding stored_checkpoint
  stored-in bucket w store = ground (arith, store)

  run-built :
      (request : RunRequest) (w w' : W) (r : RunResult)
      → run service request w ≡ (ok r, w')
      → build_archive_plan r.plan_result.plan.selected_datasets r.plan_result.retention_days
          (plan_request service r.plan_result.plan.now r.plan_result.checkpoint request)
        ≡ ok r.plan_result.plan
  unfolding run
  run-built request w w' r h =
      let (p, _, w1, _, e, _, result) = run-parts request w w' r h in
      subst
        (λ p.
          build_archive_plan p.plan.selected_datasets p.retention_days
            (plan_request service p.plan.now p.checkpoint request)
          ≡ ok p.plan)
        (ap (λ r. r.plan_result) result) (plan-built request w w1 p e)

  -- When a run returns and reports the checkpoint as advanced, with a bucket as the state store
  -- whose reads give what was last put, and with dates that are read as they were written, then
  -- the checkpoint that is loaded after the run is the time of its plan.
  pub advanced_checkpoint :
      (request : RunRequest) (w w' : W) (r : RunResult) (bucket : Bucket W)
      → service.state_store ≡ some bucket
      → ReadsBack bucket
      → IsoRoundTrips service.calendar
      → run service request w ≡ (ok r, w')
      → r.checkpoint_advanced ≡ true
      → stored_checkpoint service w'
        ≡ (ok (record { last_successful_run_at = some r.plan_result.plan.now }), w')
  advanced_checkpoint request w w' r bucket store reads iso h adv =
      let (p, results, _, w1, _, e, result) = run-parts request w w' r h in
      let adv1 = ap (λ r. r.checkpoint_advanced) result ∙ adv in
      let live = advances-live request p results adv1 in
      let e1 = sym (record_run-live request p results bucket w1 store live) ∙ e in
      let (w2, e2) = record_in-saves request p results bucket w1 w' e1 adv1 in
      let read =
        load-save_checkpoint bucket service.calendar service.config.checkpoint_object _ w2 w' reads
          iso e2 in
      stored-in bucket w' store
      ∙ (read
          ∙ ap (λ r. (ok (record { last_successful_run_at = some r.plan_result.plan.now }), w'))
              result)

  loaded :
      (c : CheckpointState) (t : Datetime)
      → ok c ≡ ok (record { last_successful_run_at = some t })
      → c.last_successful_run_at ≡ some t
  loaded c t e = cc

  -- Two runs in a row, the first without an end time and the second without a start time, with a
  -- bucket as their state store whose reads give what was last put, and with dates that are read
  -- as they were written. When the first returns and reports the checkpoint as advanced, and the
  -- second is planned in the world that the first left, then a dataset that both select and retain
  -- for the same number of days has a window in both plans, and its second window begins where its
  -- first ended.
  pub consecutive_runs_abut :
      (request1 request2 : RunRequest) (w w1 w2 : W) (r : RunResult) (p : PlanResult)
      (bucket : Bucket W) (d : String) (days : ℤ)
      → service.state_store ≡ some bucket
      → ReadsBack bucket
      → IsoRoundTrips service.calendar
      → request1.end_time ≡ none
      → request2.start_time ≡ none
      → run service request1 w ≡ (ok r, w1)
      → r.checkpoint_advanced ≡ true
      → plan service request2 w1 ≡ (ok p, w2)
      → lookup d r.plan_result.retention_days ≡ some days
      → lookup d p.retention_days ≡ some days
      → contains d r.plan_result.plan.selected_datasets ≡ true
      → contains d p.plan.selected_datasets ≡ true
      → (a : DatasetPlan) × (b : DatasetPlan) × (lookup d r.plan_result.plan.datasets ≡ some a)
        × (lookup d p.plan.datasets ≡ some b)
        × (a.window_end ≡ b.window_start)
  consecutive_runs_abut request1 request2 w w1 w2 r p bucket d days store reads iso no_end no_start
        h adv h2 r1 r2 s1 s2 =
      let after_first = advanced_checkpoint request1 w w1 r bucket store reads iso h adv in
      let second = plan-checkpoint request2 w1 w2 p h2 in
      let built1 = run-built request1 w w1 r h in
      let built2 = plan-built request2 w1 w2 p h2 in
      windows_abut _ _ r.plan_result.retention_days p.retention_days _ _ _ _ d days
        (record {
          no_end = no_end;
          no_start = no_start;
          checkpoint = loaded _ _ (sym second ∙ ap (λ x. x.0) after_first);
        })
        r1 r2 s1 s2 built1 built2
