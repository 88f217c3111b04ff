-- ===== src/FileAgent/Tests.antt =====
-- The file agent's theorems at concrete messages, PARs and queues.
use oci_iot_samples.Base.{
  ℕ, suc, ◌<◌, String, ◌≡◌, ◌≢◌, ◌⊎◌, refl, true, Option, none, some, List, [], ◌∷◌, arith, map,
  All, ap, ◌++◌,
}
use oci_iot_samples.Base.Exec.{Exec, ok, pending}
use oci_iot_samples.Base.Json.{ℤ, pos, Value, null, num, str, obj, Fields, end, field}
use oci_iot_samples.FileAgent.Models.{
  prepare_upload, complete_upload, operation_text, InboundMessage, ProtocolResponse,
  protocol_request, par_request_data, validate_transaction_id, to_payload,
}
use oci_iot_samples.FileAgent.Processor.{Env, CommandWorkItem, handle_message}
use oci_iot_samples.FileAgent.Processor.Protocol.{
  OneTerminal, is_terminal_code, program_for, handle_message-answers, handle_message-runs,
}
use oci_iot_samples.FileAgent.Processor.Observed.{observed, start, codes, runs}
use oci_iot_samples.FileAgent.Processor.Queue.{deferred, deferred-handle_message}
use oci_iot_samples.FileAgent.DeviceDemo.{
  wait_for_terminal_response, is_for, has_terminal_code, prepare_upload_payload,
}
use oci_iot_samples.FileAgent.DeviceDemo.Waiting.{
  Conversation, deliver, wait_for_terminal_response_lem,
}
use oci_iot_samples.FileAgent.Agreement.{
  responses, response_of, payloads, prepare_upload_roundtrip, transaction_ends,
}

-- A world of a counter of the calls that changed something.
abbrev integers : Value → Option ℤ
integers (num z) = some z
integers _ = none

abbrev responds_ok : InboundMessage → ProtocolResponse → Exec ℕ (Unit {0})
responds_ok m r n = (ok tt, suc n)

abbrev env_with : (InboundMessage → ProtocolResponse → Exec ℕ (Unit {0})) → Env ℕ
env_with responder = record {
  stage_upload = λ d t ttl n. (ok "https://upload", suc n);
  complete_upload = λ d t n. (ok true, suc n);
  responder = responder;
  run = λ args n. (ok (some (pos 0)), suc n);
  commands = ("index", "/usr/bin/index") ∷ [];
  dump_json = λ m. m.request.id;
  lax_int = integers;
}

abbrev env : Env ℕ
env = env_with responds_ok

abbrev index_fields : Fields
index_fields = field "command" (str "index") end

abbrev message : InboundMessage
message = record {
  message_id = "01";
  digital_twin_instance_id = "device";
  digital_twin_display_name = "unknown";
  time_observed = "2026-01-01T00:00:00Z";
  content_path = "upload";
  request = record { op = complete_upload; id = "t1"; request_data = index_fields };
}

responder_returns :
    (m : InboundMessage) (r : ProtocolResponse) (s : ℕ) → (env.responder m r s).0 ≡ ok tt
responder_returns m r s = refl

staging_ends : (d t : String) (ttl s : ℕ) → (env.stage_upload d t ttl s).0 ≢ pending
staging_ends d t ttl s = λ e. cc

completion_ends : (d t : String) (s : ℕ) → (env.complete_upload d t s).0 ≢ pending
completion_ends d t s = λ e. cc

run_ends : (args : List String) (s : ℕ) → (env.run args s).0 ≢ pending
run_ends args s = λ e. cc

handle_message-answers_example :
    ((handle_message (observed env) message none (start 0)).0 ≡ ok tt)
    × OneTerminal (codes (handle_message (observed env) message none (start 0)).1.trace)
handle_message-answers_example =
    handle_message-answers env responder_returns staging_ends completion_ends run_ends message 0

abbrev commands_run : List (List String)
commands_run = runs (handle_message (observed env) message none (start 0)).1.trace

handle_message-runs_example :
    (commands_run ≡ [])
    ⊎ ((program : String) × (program_for env message ≡ some program)
        × ((message.request.op ≡ complete_upload)
            × ((env.complete_upload "device" "t1" 0).0 ≡ ok true)
            × (commands_run ≡ (program ∷ "t1" ∷ []) ∷ [])))
handle_message-runs_example = handle_message-runs env message 0

deferred-handle_message_example : deferred env message 0 ≡ handle_message env message none 0
deferred-handle_message_example = deferred-handle_message env message 0

abbrev index_work : CommandWorkItem
index_work = record {
  message = message;
  upload_data = record { command = some "index"; parameters = end };
}

valid_t1 : validate_transaction_id "t1" ≡ ok "t1"
unfolding validate_transaction_id
valid_t1 = refl

prepare_upload_roundtrip_example :
    (protocol_request (obj (prepare_upload_payload "t1" 5))
      ≡ some
          (record { op = prepare_upload; id = "t1"; request_data = field "ttl" (num (pos 5)) end }))
    × (par_request_data integers (field "ttl" (num (pos 5)) end) ≡ some (record { ttl = 5 }))
prepare_upload_roundtrip_example = prepare_upload_roundtrip integers "t1" 4 (λ n. refl) valid_t1

abbrev sent_responses : List ProtocolResponse
sent_responses = responses (handle_message (observed env) message none (start 0)).1.trace

-- Every response arrives after five ticks.
abbrev stamp : List ProtocolResponse → List (ℕ × ProtocolResponse)
stamp [] = []
stamp (r ∷ rs) = (5, r) ∷ stamp rs

map-stamp : (rs : List ProtocolResponse) → map response_of (stamp rs) ≡ rs
map-stamp [] = refl
map-stamp (r ∷ rs) = ap (λ xs. r ∷ xs) (map-stamp rs)

stamp-early : (rs : List ProtocolResponse) → All (λ a. a.0 < 100) (stamp rs)
stamp-early [] = tt
stamp-early (r ∷ rs) = (omega arith, stamp-early rs)

transaction_ends_example :
    (final : ProtocolResponse) × (earlier : List ProtocolResponse) × (sent_responses
      ≡ earlier ++ (final ∷ []))
    × ((wait_for_terminal_response "t1"
          (operation_text complete_upload)
          100
          (record { now = 0; arrivals = deliver (payloads (stamp sent_responses)) [] })).0
        ≡ ok (to_payload final))
    × (is_terminal_code final.status ≡ true)
transaction_ends_example =
    transaction_ends env responder_returns staging_ends completion_ends run_ends message 0 100 0
      (stamp sent_responses) [] (omega arith) (map-stamp sent_responses)
      (stamp-early sent_responses)

abbrev accepted : Fields
accepted = field "op" (str "complete") (field "id" (str "t1") (field "code" (num (pos 202)) end))

abbrev finished : Fields
finished = field "op" (str "complete") (field "id" (str "t1") (field "code" (num (pos 200)) end))

conversation : Conversation "t1" "complete" 100 ((5, accepted) ∷ (9, finished) ∷ []) finished
unfolding is_for has_terminal_code
conversation = (omega arith, refl, refl, (omega arith, refl, refl, refl))

wait_for_terminal_response_lem_example :
    (wait_for_terminal_response "t1" "complete" 100 (record {
      now = 0;
      arrivals = deliver ((5, accepted) ∷ (9, finished) ∷ []) ((3, null) ∷ []);
    })).0
    ≡ ok finished
wait_for_terminal_response_lem_example =
    wait_for_terminal_response_lem "t1" "complete" 100 0 ((5, accepted) ∷ (9, finished) ∷ [])
      ((3, null) ∷ []) finished (omega arith) conversation
