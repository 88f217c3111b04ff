-- ===== src/FileAgent/Monitor.antt =====
-- cli.py: the two threads of `monitor`, as steps. The message loop puts commands into the queue; the
-- worker of processor.py runs them. When the loop ends, `finally` puts the stop mark, joins the
-- queue and then the worker.
pub mod Entries
pub mod Drained
pub mod Ending
use oci_iot_samples.Base.{ℕ, ◌+◌, ◌-◌, ◌≡◌, some, List, [], ◌∷◌, ◌++◌, map, length}
use oci_iot_samples.Base.Exec.{Exn, ok, raised}
use oci_iot_samples.FileAgent.Models.{InboundMessage}
use oci_iot_samples.FileAgent.Processor.{
  Env, CommandWorkItem, Queued, item, stop_worker, handle_message, run_command,
}
use oci_iot_samples.FileAgent.Processor.Queue.{beside_queue, put}

-- Where the main thread is. `joining` waits in work_queue.join(), `joined` in worker.join().
pub data MainAt : Type 0 where
  looping stopping joining joined finished : MainAt

-- Where the worker is: before `get`, with an entry, returned at the stop mark, or ended by an exception.
pub data WorkerAt : Type 0 where
  waiting stopped died : WorkerAt
  holding : Queued → WorkerAt

-- `unfinished` is the queue's count of tasks. `queued` and `ran` record what was put and what was run.
pub record Monitor (W : Type 0) : Type 0 where
  pub world : W
  pub main : MainAt
  pub queue : List Queued
  pub unfinished : ℕ
  pub worker : WorkerAt
  pub queued : List CommandWorkItem
  pub ran : List CommandWorkItem

module _ {W : Type 0} where
  abbrev pub started : W → Monitor W
  started w = record {
    world = w;
    main = looping;
    queue = [];
    unfinished = 0;
    worker = waiting;
    queued = [];
    ran = [];
  }

  -- work_queue.put and the worker's two ways to leave an item; `task_done` counts it off.
  abbrev pub put_all : List CommandWorkItem → Monitor W → Monitor W
  put_all works s = record s {
    queue = s.queue ++ map item works;
    unfinished = s.unfinished + length works;
    queued = s.queued ++ works;
  }

  abbrev pub put_stop : Monitor W → Monitor W
  put_stop s = record s { queue = s.queue ++ (stop_worker ∷ []); unfinished = s.unfinished + 1 }

  abbrev pub leave : CommandWorkItem → WorkerAt → Monitor W → Monitor W
  leave work after s = record s {
    unfinished = s.unfinished - 1;
    worker = after;
    ran = s.ran ++ (work ∷ []);
  }

module _ {W : Type 0} (env : Env W) where
  -- A message is handled, or a command run, in one step; the step `elsewhere` lets whatever else is
  -- going on change the world between two others. The loop ends at an exception, at an
  -- interrupt, or by itself.
  pub data Step : Monitor W → Monitor W → Type 0 where
    elsewhere : (s : Monitor W) (w : W) → Step s (record s { world = w })
    handles :
        (s : Monitor W) (m : InboundMessage) (w : W) (works : List CommandWorkItem)
        → s.main ≡ looping
        → handle_message (beside_queue env) m (some put) (s.world, []) ≡ (ok tt, (w, works))
        → Step s (put_all works (record s { world = w }))
    handling_raises :
        (s : Monitor W) (m : InboundMessage) (e : Exn) (w : W) (works : List CommandWorkItem)
        → s.main ≡ looping
        → handle_message (beside_queue env) m (some put) (s.world, []) ≡ (raised e, (w, works))
        → Step s (put_all works (record s { world = w; main = stopping }))
    ends : (s : Monitor W) → s.main ≡ looping → Step s (record s { main = stopping })
    stops : (s : Monitor W) → s.main ≡ stopping → Step s (put_stop (record s { main = joining }))
    joins :
        (s : Monitor W) → s.main ≡ joining → s.unfinished ≡ 0 → Step s (record s { main = joined })
    finishes :
        (s : Monitor W)
        → s.main ≡ joined
        → s.worker ≡ stopped
        → Step s (record s { main = finished })
    finishes_dead :
        (s : Monitor W) → s.main ≡ joined → s.worker ≡ died → Step s (record s { main = finished })
    gets :
        (s : Monitor W) (q : Queued) (rest : List Queued)
        → s.worker ≡ waiting
        → s.queue ≡ q ∷ rest
        → Step s (record s { queue = rest; worker = holding q })
    runs :
        (s : Monitor W) (work : CommandWorkItem) (w : W)
        → s.worker ≡ holding (item work)
        → run_command env work.message work.upload_data s.world ≡ (ok tt, w)
        → Step s (leave work waiting (record s { world = w }))
    run_raises :
        (s : Monitor W) (work : CommandWorkItem) (e : Exn) (w : W)
        → s.worker ≡ holding (item work)
        → run_command env work.message work.upload_data s.world ≡ (raised e, w)
        → Step s (leave work died (record s { world = w }))
    returns :
        (s : Monitor W)
        → s.worker ≡ holding stop_worker
        → Step s (record s { unfinished = s.unfinished - 1; worker = stopped })

  pub data Reach (s : Monitor W) : Monitor W → Type 0 where
    here : Reach s s
    next : {t u : Monitor W} → Reach s t → Step t u → Reach s u
