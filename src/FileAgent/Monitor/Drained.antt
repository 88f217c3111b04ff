-- ===== src/FileAgent/Monitor/Drained.antt =====
-- The queue between the threads of the monitor: what was put is what was run and what is left.
use oci_iot_samples.Base.{
  ◌≡◌, refl, ap, sym, subst, ◌∙◌, List, [], ◌∷◌, ◌++◌, map, length, arith, append-nil, append_assoc,
}
use oci_iot_samples.FileAgent.Processor.{Env, CommandWorkItem, Queued, item, stop_worker}
use oci_iot_samples.FileAgent.Monitor.{
  Monitor, MainAt, stopping, joining, WorkerAt, waiting, stopped, died, holding, Step, elsewhere,
  handles, handling_raises, ends, stops, joins, finishes, finishes_dead, gets, runs, run_raises,
  returns, Reach, here, next, started, put_all, put_stop, leave,
}
use oci_iot_samples.FileAgent.Monitor.Entries.{
  mark_put, mark_taken, held, PastJoin, map-append, length-append, length-map, append-entries,
  PastJoin-mark_put, no_entries, same_items,
}

module _ {W : Type 0} where
  abbrev pub left_over : Monitor W → List Queued
  left_over s = held s.worker ++ s.queue

  -- Every entry that was put was run or is left over, in the order of the queue, and the count of
  -- tasks is that of the entries left over. Past the join, there are none.
  abbrev pub IsSound : Monitor W → Type 0
  IsSound s =
      (map item s.queued ++ mark_put s.main
        ≡ map item s.ran ++ (mark_taken s.worker ++ left_over s))
      × (s.unfinished ≡ length (left_over s))
      × (PastJoin s.main → s.unfinished ≡ 0)

  pub sound_at :
      (s : Monitor W) (v : WorkerAt) (l : List Queued)
      → s.worker ≡ v
      → s.queue ≡ l
      → IsSound s
      → (map item s.queued ++ mark_put s.main ≡ map item s.ran ++ (mark_taken v ++ (held v ++ l)))
        × (s.unfinished ≡ length (held v ++ l))
  sound_at s v l at e (entries, count, past) = (
    subst
        (λ x.
          map item s.queued ++ mark_put s.main ≡ map item s.ran ++ (mark_taken v ++ (held v ++ x)))
        e
        (subst
          (λ x.
            map item s.queued ++ mark_put s.main
            ≡ map item s.ran ++ (mark_taken x ++ (held x ++ s.queue)))
          at entries),
    subst (λ x. s.unfinished ≡ length (held v ++ x)) e
        (subst (λ x. s.unfinished ≡ length (held x ++ s.queue)) at count),
  )

  put_all-IsSound :
      (s : Monitor W) (works : List CommandWorkItem) (w : W) (main : MainAt)
      → mark_put s.main ≡ []
      → mark_put main ≡ []
      → (PastJoin main → ⊥)
      → IsSound s
      → IsSound (put_all works (record s { world = w; main = main }))
  put_all-IsSound s works w main before_stop no_stop open_ (entries, count, past) = (
    cc (
      map-append s.queued works,
      before_stop,
      no_stop,
      append-nil (map item s.queued),
      append-nil (map item s.queued ++ map item works),
      append-entries (map item s.queued ++ mark_put s.main) (map item s.ran) (mark_taken s.worker)
          (held s.worker) s.queue (map item works) entries,
    ),
    ground (
      arith,
      count,
      length-append (held s.worker) s.queue,
      length-append (held s.worker) (s.queue ++ map item works),
      length-append s.queue (map item works),
      length-map works,
    ),
    λ h. absurd (open_ h),
  )

  put_stop-IsSound :
      (s : Monitor W)
      → s.main ≡ stopping
      → IsSound s
      → IsSound (put_stop (record s { main = joining }))
  put_stop-IsSound s at (entries, count, past) = (
    cc (
      ap mark_put at,
      append-nil (map item s.queued),
      append-entries (map item s.queued ++ mark_put s.main) (map item s.ran) (mark_taken s.worker)
          (held s.worker) s.queue (stop_worker ∷ []) entries,
    ),
    ground (
      arith,
      count,
      length-append (held s.worker) s.queue,
      length-append (held s.worker) (s.queue ++ (stop_worker ∷ [])),
      length-append s.queue (stop_worker ∷ []),
    ),
    λ h. absurd h,
  )

  -- An item leaves the worker, which goes on or dies.
  leave-IsSound :
      (s : Monitor W) (work : CommandWorkItem) (w : W) (after : WorkerAt)
      → s.worker ≡ holding (item work)
      → held after ≡ []
      → mark_taken after ≡ []
      → IsSound s
      → IsSound (leave work after (record s { world = w }))
  leave-IsSound s work w after at nothing_held no_mark h =
      let (entries, count) = sound_at s (holding (item work)) s.queue at refl h in
      (
        cc (
          map-append s.ran (work ∷ []),
          append_assoc (map item s.ran) (item work ∷ []) s.queue,
          nothing_held,
          no_mark,
        ),
        ground (arith, count, nothing_held),
        λ p. let none_left = h.2 p in omega arith,
      )

  module _ (env : Env W) where
    Step-IsSound : {s t : Monitor W} → Step env s t → IsSound s → IsSound t
    Step-IsSound (elsewhere s w) h = h
    Step-IsSound (handles s m w works at e) h =
        put_all-IsSound s works w s.main (ap mark_put at) (ap mark_put at)
          (subst (λ m. PastJoin m → ⊥) (sym at) (λ n. n)) h
    Step-IsSound (handling_raises s m x w works at e) h =
        put_all-IsSound s works w stopping (ap mark_put at) refl (λ n. n) h
    Step-IsSound (ends s at) (entries, count, past) =
        (cc (entries, ap mark_put at), count, λ h. absurd h)
    Step-IsSound (stops s at) h = put_stop-IsSound s at h
    Step-IsSound (joins s at none_left) (entries, count, past) =
        (cc (entries, ap mark_put at), count, λ h. none_left)
    Step-IsSound (finishes s at over) (entries, count, past) =
        (cc (entries, ap mark_put at), count, λ h. past (subst PastJoin (sym at) tt))
    Step-IsSound (finishes_dead s at over) (entries, count, past) =
        (cc (entries, ap mark_put at), count, λ h. past (subst PastJoin (sym at) tt))
    Step-IsSound (gets s q rest at e) h =
        let (entries, count) = sound_at s waiting (q ∷ rest) at e h in (entries, count, h.2)
    Step-IsSound (runs s work w at e) h = leave-IsSound s work w waiting at refl refl h
    Step-IsSound (run_raises s work x w at e) h = leave-IsSound s work w died at refl refl h
    Step-IsSound (returns s at) h =
        let (entries, count) = sound_at s (holding stop_worker) s.queue at refl h in
        (entries, ground (arith, count), λ p. let none_left = h.2 p in omega arith)

    pub started-IsSound : (w : W) → IsSound (started w)
    started-IsSound w = (refl, refl, λ h. refl)

    pub Reach-IsSound : {s t : Monitor W} → IsSound s → Reach env s t → IsSound t
    Reach-IsSound h here = h
    Reach-IsSound h (next r step) = Step-IsSound step (Reach-IsSound h r)

    drained :
        (s : Monitor W) → PastJoin s.main → IsSound s → (s.ran ≡ s.queued) × (s.worker ≡ stopped)
    drained s p (entries, count, past) =
        let none_left = no_entries (left_over s) (sym (past p) ∙ count) in
        same_items s.queued s.ran s.worker
          (cc (entries, PastJoin-mark_put s.main p, none_left, append-nil (mark_taken s.worker)))

    -- In every interleaving of the steps: when work_queue.join() has returned, each command that
    -- the loop has queued was run once, in the order in which they were queued, and the worker has
    -- returned at the stop mark.
    pub monitor_drained :
        (w : W) (s : Monitor W)
        → Reach env (started w) s
        → PastJoin s.main
        → (s.ran ≡ s.queued) × (s.worker ≡ stopped)
    monitor_drained w s r p = drained s p (Reach-IsSound (started-IsSound w) r)
