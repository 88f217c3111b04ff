-- ===== src/FileAgent/MonitorTests.antt =====
-- The theorems on the monitor's threads at concrete runs, in a world that counts calls.
use oci_iot_samples.Base.{ℕ, zero, suc, ◌≡◌, refl, true, none, some, [], ◌∷◌, lookup}
use oci_iot_samples.Base.Exec.{Exec, ok, raised, other_error}
use oci_iot_samples.Base.Json.{pos, str, end, field, get}
use oci_iot_samples.FileAgent.Models.{complete_upload, InboundMessage, upload_request_data}
use oci_iot_samples.FileAgent.Processor.{
  Env, CommandWorkItem, item, stop_worker, handle_message, run_command, send, after_deletion,
  start_command, run_program, report, succeeded,
}
use oci_iot_samples.FileAgent.Monitor.{
  Monitor, stopping, joining, joined, waiting, holding, stopped, died, handles, ends, stops, joins,
  gets, runs, run_raises, returns, Reach, here, next, started, put_all, put_stop, leave,
}
use oci_iot_samples.FileAgent.Monitor.Drained.{monitor_drained}
use oci_iot_samples.FileAgent.Monitor.Entries.{PastJoin}
use oci_iot_samples.FileAgent.Monitor.Ending.{Finishes, died-never_joined, monitor_ends}

abbrev env_with : Exec ℕ (Unit {0}) → Env ℕ
env_with respond = record {
  stage_upload = λ d t ttl n. (ok "https://upload", suc n);
  complete_upload = λ d t n. (ok true, suc n);
  responder = λ m r. respond;
  run = λ args n. (ok (some (pos 0)), suc n);
  commands = ("index", "/usr/bin/index") ∷ [];
  dump_json = λ m. m.request.id;
  lax_int = λ v. none;
}

abbrev env : Env ℕ
env = env_with (λ n. (ok tt, suc n))

abbrev message : InboundMessage
message = record {
  message_id = "01";
  digital_twin_instance_id = "device";
  digital_twin_display_name = "unknown";
  time_observed = "2026-01-01T00:00:00Z";
  content_path = "upload";
  request = record {
    op = complete_upload;
    id = "t1";
    request_data = field "command" (str "index") end;
  };
}

abbrev work : CommandWorkItem
work = record {
  message = message;
  upload_data = record { command = some "index"; parameters = end };
}

-- The message's command is queued.
abbrev queued_one : Monitor ℕ
queued_one = put_all (work ∷ []) (record (started 0) { world = 2 })

queues_one : Reach env (started 0) queued_one
unfolding handle_message upload_request_data get after_deletion start_command send lookup
queues_one = next here (handles (started 0) message 2 (work ∷ []) refl refl)

-- The worker takes it after the loop has ended.
abbrev taken_one : Monitor ℕ
taken_one = record (put_stop (record queued_one { main = joining })) {
  queue = stop_worker ∷ [];
  worker = holding (item work);
}

abbrev joined_all : Monitor ℕ
joined_all = record {
  world = 5;
  main = joined;
  queue = [];
  unfinished = 0;
  worker = stopped;
  queued = work ∷ [];
  ran = work ∷ [];
}

takes_one : Reach env (started 0) taken_one
takes_one =
    next
      (next (next queues_one (ends queued_one refl))
        (stops (record queued_one { main = stopping }) refl))
      (gets (put_stop (record queued_one { main = joining })) (item work) (stop_worker ∷ []) refl
        refl)

abbrev ran_one : Monitor ℕ
ran_one = leave work waiting (record taken_one { world = 5 })

runs_one : Reach env (started 0) ran_one
unfolding run_command lookup run_program report succeeded
runs_one = next takes_one (runs taken_one work 5 refl refl)

joins_all : Reach env (started 0) joined_all
joins_all =
    next
      (next (next runs_one (gets ran_one stop_worker [] refl refl))
        (returns (record ran_one { queue = []; worker = holding stop_worker }) refl))
      (joins (record joined_all { main = joining }) refl refl)

monitor_drained_example : (work ∷ [] ≡ work ∷ []) × (joined_all.worker ≡ stopped)
monitor_drained_example = monitor_drained env 0 joined_all joins_all tt

monitor_ends_example : Finishes env taken_one
monitor_ends_example = monitor_ends env (λ m r s. refl) (λ args s e. cc) 0 taken_one takes_one

-- Responses can be sent twice only.
abbrev failing_respond : Exec ℕ (Unit {0})
failing_respond zero = (ok tt, 1)
failing_respond (suc zero) = (ok tt, 2)
failing_respond n = (raised (other_error "offline"), n)

abbrev failing : Env ℕ
failing = env_with failing_respond

fails_queue : Reach failing (started 0) queued_one
unfolding handle_message upload_request_data get after_deletion start_command send lookup
fails_queue = next here (handles (started 0) message 2 (work ∷ []) refl refl)

abbrev dead_one : Monitor ℕ
dead_one = leave work died (record queued_one { queue = []; worker = holding (item work) })

dies_one : Reach failing (started 0) dead_one
unfolding run_command lookup run_program send
dies_one = next (next fails_queue (gets queued_one (item work) [] refl refl)) (
    run_raises (record queued_one { queue = []; worker = holding (item work) }) work
      (other_error "offline") 2 refl refl)

abbrev dead_stop : Monitor ℕ
dead_stop = put_stop (record dead_one { main = joining })

dead_waits : Reach failing dead_one dead_stop
dead_waits =
    next (next here (ends dead_one refl)) (stops (record dead_one { main = stopping }) refl)

died-never_joined_example : PastJoin dead_stop.main → ⊥
died-never_joined_example = died-never_joined failing 0 dead_one dead_stop dies_one refl dead_waits
