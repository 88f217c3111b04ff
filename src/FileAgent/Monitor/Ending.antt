-- ===== src/FileAgent/Monitor/Ending.antt =====
-- How the monitor ends, and when it cannot.
use oci_iot_samples.Base.{
  ◌≡◌, ◌≢◌, inl, inr, refl, ap, sym, subst, ◌∙◌, String, List, [], ◌∷◌, ◌++◌, map, length,
}
use oci_iot_samples.Base.Exec.{ok, pending}
use oci_iot_samples.FileAgent.Models.{InboundMessage, ProtocolResponse}
use oci_iot_samples.FileAgent.Processor.{
  Env, CommandWorkItem, Queued, item, stop_worker, run_command,
}
use oci_iot_samples.FileAgent.Processor.Queue.{run_command-ok}
use oci_iot_samples.FileAgent.Monitor.{
  Monitor, MainAt, looping, stopping, joining, joined, finished, WorkerAt, waiting, stopped, died,
  holding, Step, elsewhere, handles, handling_raises, ends, stops, joins, finishes, finishes_dead,
  gets, runs, run_raises, returns, Reach, here, next, started, leave,
}
use oci_iot_samples.FileAgent.Monitor.Drained.{
  left_over, IsSound, Reach-IsSound, started-IsSound, sound_at, monitor_drained,
}
use oci_iot_samples.FileAgent.Monitor.Entries.{mark_put, held, PastJoin, left_cases, after_stop}

module _ {W : Type 0} (env : Env W) where
  -- The monitor can come to its end.
  abbrev pub Finishes : Monitor W → Type 0
  Finishes s = (t : Monitor W) × Reach env s t × (t.main ≡ finished)

  Reach-trans : {s t u : Monitor W} → Reach env s t → Reach env t u → Reach env s u
  Reach-trans r here = r
  Reach-trans r (next q step) = next (Reach-trans r q) step

  Step-died : {s t : Monitor W} → Step env s t → s.worker ≡ died → t.worker ≡ died
  Step-died (elsewhere s w) h = h
  Step-died (handles s m w works at e) h = h
  Step-died (handling_raises s m x w works at e) h = h
  Step-died (ends s at) h = h
  Step-died (stops s at) h = h
  Step-died (joins s at none_left) h = h
  Step-died (finishes s at over) h = h
  Step-died (finishes_dead s at over) h = h
  Step-died (gets s q rest at e) h = cc
  Step-died (runs s work w at e) h = cc
  Step-died (run_raises s work x w at e) h = refl
  Step-died (returns s at) h = cc

  Reach-died : {s t : Monitor W} → Reach env s t → s.worker ≡ died → t.worker ≡ died
  Reach-died here h = h
  Reach-died (next r step) h = Step-died step (Reach-died r h)

  -- Once an exception has ended the worker, work_queue.join() returns in no interleaving of the
  -- steps, so that the monitor does not come to its end.
  pub died-never_joined :
      (w : W) (s t : Monitor W)
      → Reach env (started w) s
      → s.worker ≡ died
      → Reach env s t
      → PastJoin t.main
      → ⊥
  died-never_joined w s t r d q p =
      let over = monitor_drained env w t (Reach-trans r q) p in
      let dead = Reach-died q d in cc (over.1, dead)

  module _
      (responds : (m : InboundMessage) (r : ProtocolResponse) (s : W)
        → (env.responder m r s).0 ≡ ok tt)
      (runs_end : (args : List String) (s : W) → (env.run args s).0 ≢ pending) where
    run-ok :
        (work : CommandWorkItem) (w : W)
        → run_command env work.message work.upload_data w
          ≡ (ok tt, (run_command env work.message work.upload_data w).1)
    run-ok work w =
        ap (λ o. (o, (run_command env work.message work.upload_data w).1))
          (run_command-ok env responds runs_end work.message work.upload_data w)

    Step-alive : {s t : Monitor W} → Step env s t → s.worker ≢ died → t.worker ≢ died
    Step-alive (elsewhere s w) h = h
    Step-alive (handles s m w works at e) h = h
    Step-alive (handling_raises s m x w works at e) h = h
    Step-alive (ends s at) h = h
    Step-alive (stops s at) h = h
    Step-alive (joins s at none_left) h = h
    Step-alive (finishes s at over) h = h
    Step-alive (finishes_dead s at over) h = h
    Step-alive (gets s q rest at e) h = λ d. cc
    Step-alive (runs s work w at e) h = λ d. cc
    Step-alive (run_raises s work x w at e) h =
        let fine = run-ok work s.world in absurd (cc (fine, e))
    Step-alive (returns s at) h = λ d. cc

    Reach-alive : {s t : Monitor W} → Reach env s t → s.worker ≢ died → t.worker ≢ died
    Reach-alive here h = h
    Reach-alive (next r step) h = Step-alive step (Reach-alive r h)

    -- The worker works off the queue up to the stop mark.
    abbrev Drains : Monitor W → Type 0
    Drains s = (t : Monitor W) × Reach env s t × (t.main ≡ s.main) × (t.worker ≡ stopped)

    returned : (s : Monitor W) → s.worker ≡ holding stop_worker → Drains s
    returned s at = (_, next here (returns s at), refl, refl)

    works_off :
        (works : List CommandWorkItem) (s : Monitor W)
        → s.worker ≡ waiting
        → s.queue ≡ map item works ++ (stop_worker ∷ [])
        → Drains s
    works_off [] s at e =
        let (t, r, m, o) = returned (record s { queue = []; worker = holding stop_worker }) refl in
        (t, Reach-trans (next here (gets s stop_worker [] at e)) r, m, o)
    works_off (work ∷ works) s at e =
        let rest = map item works ++ (stop_worker ∷ []) in
        let taken = record s { queue = rest; worker = holding (item work) } in
        let w = (run_command env work.message work.upload_data s.world).1 in
        let (t, r, m, o) =
          works_off works (leave work waiting (record taken { world = w })) refl refl in
        (
          t,
          Reach-trans
              (next (next here (gets s (item work) rest at e))
                (runs taken work w refl (run-ok work s.world)))
              r,
          m,
          o,
        )

    holding_off :
        (works : List CommandWorkItem) (s : Monitor W) (q : Queued)
        → s.worker ≡ holding q
        → q ∷ s.queue ≡ map item works ++ (stop_worker ∷ [])
        → Drains s
    holding_off [] s q at e = returned s (cc (at, e))
    holding_off (work ∷ works) s q at e =
        let held_work : s.worker ≡ holding (item work) = cc (at, e) in
        let w = (run_command env work.message work.upload_data s.world).1 in
        let (t, r, m, o) = works_off works (leave work waiting (record s { world = w })) refl cc in
        (t, Reach-trans (next here (runs s work w held_work (run-ok work s.world))) r, m, o)

    at_worker :
        (s : Monitor W) (works : List CommandWorkItem) (v : WorkerAt)
        → s.worker ≡ v
        → v ≢ died
        → held v ++ s.queue ≡ map item works ++ (stop_worker ∷ [])
        → Drains s
    at_worker s works waiting at alive e = works_off works s at e
    at_worker s works stopped at alive e = (s, here, refl, at)
    at_worker s works died at alive e = absurd (alive refl)
    at_worker s works (holding q) at alive e = holding_off works s q at e

    joining-Drains : (s : Monitor W) → s.main ≡ joining → IsSound s → s.worker ≢ died → Drains s
    joining-Drains s at (entries, count, past) alive =
        elim (left_cases s.queued s.ran s.worker (left_over s) (cc (entries, ap mark_put at))) [
          | inl over ↦ (s, here, refl, over)
          | inr (works, e) ↦ at_worker s works s.worker refl alive e
        ]

    from_drained : (t : Monitor W) → t.main ≡ joining → t.worker ≡ stopped → IsSound t → Finishes t
    from_drained t m o h =
        let (entries, count) = sound_at t stopped t.queue o refl h in
        let empty : t.queue ≡ [] =
          after_stop t.queued t.ran t.queue (cc (entries, ap mark_put m)) in
        let none_left : t.unfinished ≡ 0 = cc (count, ap length empty) in
        (
          _,
          next (next here (joins t m none_left)) (finishes (record t { main = joined }) refl o),
          refl,
        )

    from_joining : (s : Monitor W) → s.main ≡ joining → IsSound s → s.worker ≢ died → Finishes s
    from_joining s at h alive =
        let (t, r, m, o) = joining-Drains s at h alive in
        let (u, q, f) = from_drained t (m ∙ at) o (Reach-IsSound env h r) in (u, Reach-trans r q, f)

    from_stopping : (s : Monitor W) → s.main ≡ stopping → IsSound s → s.worker ≢ died → Finishes s
    from_stopping s at h alive =
        let stop = next here (stops s at) in
        let (u, q, f) = from_joining _ refl (Reach-IsSound env h stop) alive in
        (u, Reach-trans stop q, f)

    from_main :
        (w : W) (s : Monitor W) (m : MainAt)
        → s.main ≡ m
        → Reach env (started w) s
        → s.worker ≢ died
        → Finishes s
    from_main w s looping at r alive =
        let stop = next here (ends s at) in
        let (u, q, f) =
          from_stopping _ refl (Reach-IsSound env (started-IsSound env w) (Reach-trans r stop))
            alive in
        (u, Reach-trans stop q, f)
    from_main w s stopping at r alive =
        from_stopping s at (Reach-IsSound env (started-IsSound env w) r) alive
    from_main w s joining at r alive =
        from_joining s at (Reach-IsSound env (started-IsSound env w) r) alive
    from_main w s joined at r alive =
        let over = monitor_drained env w s r (subst PastJoin (sym at) tt) in
        (_, next here (finishes s at over.1), refl)
    from_main w s finished at r alive = (s, here, at)

    -- If responses can be sent and commands end, the monitor is never stuck: from every state that
    -- it gets to, whatever the order of the steps before, there are steps to its end.
    pub monitor_ends : (w : W) (s : Monitor W) → Reach env (started w) s → Finishes s
    monitor_ends w s r = from_main w s s.main refl r (Reach-alive r (λ d. cc))
