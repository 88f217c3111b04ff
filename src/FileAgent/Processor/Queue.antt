-- ===== src/FileAgent/Processor/Queue.antt =====
-- The command queue between the message loop and the worker thread.
use oci_iot_samples.Base.{
  ℕ, ◌+◌, String, ◌≡◌, ◌≢◌, inl, inr, Bool-cases, lookup, Option, none, some, List, [], ◌∷◌, ◌++◌,
  length, arith,
}
use oci_iot_samples.Base.Json.{ℤ}
use oci_iot_samples.Base.Options.{Option-cases}
use oci_iot_samples.Base.Exec.{Exec, Exn, ok, raised, pending, after, ◌>>◌, pure}
use oci_iot_samples.FileAgent.Models.{InboundMessage, ProtocolResponse, UploadRequestData}
use oci_iot_samples.FileAgent.Processor.{
  Env, CommandWorkItem, Queued, item, stop_worker, handle_message, report, send, succeeded,
  run_command, run_found, command_of, command_worker,
}

-- The environment of the message loop, beside the queue that it fills.
abbrev pub Loop : Type 0 → Type 0
Loop W = W × List CommandWorkItem

module _ {W : Type 0} where
  abbrev beside : {A : Type 0} → Exec W A → Exec (Loop W) A
  beside m (w, q) = let r = m w in (r.0, (r.1, q))

  abbrev pub beside_queue : Env W → Env (Loop W)
  beside_queue env = record {
    stage_upload = λ d t ttl. beside (env.stage_upload d t ttl);
    complete_upload = λ d t. beside (env.complete_upload d t);
    responder = λ m r. beside (env.responder m r);
    run = λ args. beside (env.run args);
    commands = env.commands;
    dump_json = env.dump_json;
    lax_int = env.lax_int;
  }

  abbrev pub put : CommandWorkItem → Exec (Loop W) (Unit {0})
  put work (w, q) = (ok tt, (w, q ++ (work ∷ [])))

module _ {W : Type 0} (env : Env W) where
  -- The queued items, run one after the other.
  unfoldable pub run_items : List CommandWorkItem → Exec W (Unit {0})
  run_items [] = pure tt
  run_items (work ∷ rest) = do run_command env work.message work.upload_data; run_items rest

  -- The loop handles a message with the queue, and then the queue is worked off.
  abbrev pub deferred : InboundMessage → Exec W (Unit {0})
  deferred m w =
      let r = handle_message (beside_queue env) m (some put) (w, []) in
      after r.0 (r.1.0) (λ _. run_items r.1.1)

  -- A message whose command is queued, where the queue is worked off afterwards unless the
  -- handling raised, has the outcome, and leaves the world, of a message whose command runs at
  -- once, whatever the collaborators raise.
  pub deferred-handle_message :
      (m : InboundMessage) (w : W) → deferred m w ≡ handle_message env m none w
  unfolding handle_message report run_items
  deferred-handle_message m w = grind arith

  -- Stop after these items; the worker reads nothing behind the stop mark.
  abbrev pub then_stop : List CommandWorkItem → List Queued → List Queued
  then_stop [] rest = stop_worker ∷ rest
  then_stop (work ∷ works) rest = item work ∷ then_stop works rest

  abbrev pub then_queued : List CommandWorkItem → List Queued → List Queued
  then_queued [] rest = rest
  then_queued (work ∷ works) rest = item work ∷ then_queued works rest

  module _
      (responds : (m : InboundMessage) (r : ProtocolResponse) (s : W)
        → (env.responder m r s).0 ≡ ok tt)
      (runs_end : (args : List String) (s : W) → (env.run args s).0 ≢ pending) where
    report-ok : (m : InboundMessage) (c : Option ℤ) (w : W) → (report env m c w).0 ≡ ok tt
    unfolding report send
    report-ok m c w = elim (Bool-cases (succeeded c)) [
      | inl e ↦ rw (e, report) (responds m _ w)
      | inr e ↦ rw (e, report) (responds m _ w)
    ]

    run_found-ok :
        (m : InboundMessage) (o : Option String) (w : W) → (run_found env m o w).0 ≡ ok tt
    unfolding run_found
    run_found-ok m none w = grind (arith, responds)
    run_found-ok m (some program) w = grind (arith, responds, runs_end, report-ok)

    pub run_command-ok :
        (m : InboundMessage) (d : UploadRequestData) (w : W) → (run_command env m d w).0 ≡ ok tt
    unfolding run_command
    run_command-ok m d w = elim (Option-cases (command_of d)) [
      | inl e ↦ rw (e, run_command) (run_found-ok m none w)
      | inr (c, e) ↦ rw (e, run_command) (run_found-ok m (lookup c env.commands) w)
    ]

  -- If responses can be sent and commands end, the worker returns after the items before the stop
  -- mark, with the world that running them in the order of the queue leaves, and with each of
  -- them, and the mark, counted off the open tasks.
  command_worker_lem :
      ((m : InboundMessage) (r : ProtocolResponse) (s : W) → (env.responder m r s).0 ≡ ok tt)
      → ((args : List String) (s : W) → (env.run args s).0 ≢ pending)
      → (works : List CommandWorkItem) (rest : List Queued) (w : W) (open_tasks : ℕ)
      → command_worker env (then_stop works rest) (w, open_tasks + length works + 1)
        ≡ (ok tt, ((run_items works w).1, open_tasks))
  unfolding command_worker run_items
  command_worker_lem responds runs_end [] rest w open_tasks = ground arith
  command_worker_lem responds runs_end (work ∷ works) rest w open_tasks = ground (
    arith,
    run_command-ok responds runs_end work.message work.upload_data w,
    command_worker_lem responds runs_end works rest
        (run_command env work.message work.upload_data w).1 open_tasks,
  )

  -- When the items before it return, an item whose run raises ends the worker with that exception,
  -- and as many tasks stay open as there are entries behind it in the queue.
  pub command_worker_dies :
      (before : List CommandWorkItem) (work : CommandWorkItem) (rest : List Queued) (w : W)
      (e : Exn)
      → (run_items before w).0 ≡ ok tt
      → (run_command env work.message work.upload_data (run_items before w).1).0 ≡ raised e
      → ((command_worker env
            (then_queued before (item work ∷ rest))
            (w, length (then_queued before (item work ∷ rest)))).0
          ≡ raised e)
        × ((command_worker env
              (then_queued before (item work ∷ rest))
              (w, length (then_queued before (item work ∷ rest)))).1.1
            ≡ length rest)
  unfolding command_worker run_items
  command_worker_dies [] work rest w e h k = ground (arith, k)
  command_worker_dies (b ∷ before) work rest w e h k = ground (
    arith,
    h,
    k,
    command_worker_dies before work rest (run_command env b.message b.upload_data w).1 e,
  )
