-- ===== src/FileAgent/Agreement.antt =====
-- The device and the backend agree: requests and responses pass between device_demo.py and
-- processor.py through models.py.
use oci_iot_samples.Base.{
  ℕ, suc, ◌+◌, ◌<◌, String, ◌≡◌, ◌≢◌, refl, sym, ap, ◌∙◌, subst, true, Option, none, some, List, [],
  ◌∷◌, map, All, arith, eq_refl, ◌++◌,
}
use oci_iot_samples.Base.Exec.{ok, pending}
use oci_iot_samples.Base.Json.{
  ℤ, pos, Value, num, str, arr, obj, nil, cons, Fields, end, field, get,
}
use oci_iot_samples.FileAgent.Models.{
  prepare_upload, complete_upload, operation_text, InboundMessage, ProtocolResponse,
  par_request_data, upload_request_data, protocol_request, to_payload, validate_transaction_id,
}
use oci_iot_samples.FileAgent.DeviceDemo.{
  prepare_upload_payload, complete_upload_payload, is_for, has_terminal_code,
  wait_for_terminal_response,
}
use oci_iot_samples.FileAgent.DeviceDemo.Waiting.{
  Conversation, deliver, wait_for_terminal_response_lem,
}
use oci_iot_samples.FileAgent.Processor.{Env, handle_message, report}
use oci_iot_samples.FileAgent.Processor.Observed.{
  Event, sent, staged, completed, ran, observed, start, codes,
}
use oci_iot_samples.FileAgent.Processor.Protocol.{
  OneTerminal, is_terminal_code, handle_message-answers,
}

-- With an id that is valid, a positive lifetime, and a reading of integers that takes numbers as
-- they are, the backend parses the device's prepare-upload message to that operation, id and
-- lifetime.
pub prepare_upload_roundtrip :
    (lax_int : Value → Option ℤ) (t : String) (ttl : ℕ)
    → ((n : ℕ) → lax_int (num (pos n)) ≡ some (pos n))
    → validate_transaction_id t ≡ ok t
    → let data_fields = field "ttl" (num (pos (suc ttl))) end in
      (protocol_request (obj (prepare_upload_payload t (suc ttl)))
        ≡ some (record { op = prepare_upload; id = t; request_data = data_fields }))
      × (par_request_data lax_int data_fields ≡ some (record { ttl = suc ttl }))
unfolding protocol_request prepare_upload_payload par_request_data
prepare_upload_roundtrip lax_int t ttl ints valid =
    (ground (arith, valid), ground (arith, ints (suc ttl)))

is_for-to_payload : (r : ProtocolResponse) → is_for r.id (operation_text r.op) (to_payload r) ≡ true
unfolding is_for to_payload
is_for-to_payload r = ground (arith, eq_refl r.id, eq_refl (operation_text r.op))

has_terminal_code-to_payload :
    (r : ProtocolResponse) → has_terminal_code (to_payload r) ≡ is_terminal_code r.status
unfolding has_terminal_code to_payload is_terminal_code get
has_terminal_code-to_payload r = refl

abbrev pub upload_fields : String → String → Fields
upload_fields command file_name =
    field "command" (str command)
      (field "parameters" (obj (field "artifacts" (arr (cons (str file_name) nil)) end)) end)

-- With an id that is valid, the backend parses the device's complete-upload message to that
-- operation and id, with the command, and the uploaded file as the one artifact.
complete_upload_roundtrip :
    (t command file_name : String)
    → validate_transaction_id t ≡ ok t
    → (protocol_request (obj (complete_upload_payload t command file_name))
        ≡ some (record {
          op = complete_upload;
          id = t;
          request_data = upload_fields command file_name;
        }))
      × (upload_request_data (upload_fields command file_name)
          ≡ some (record {
            command = some command;
            parameters = field "artifacts" (arr (cons (str file_name) nil)) end;
          }))
unfolding protocol_request complete_upload_payload upload_request_data
complete_upload_roundtrip t command file_name valid = (ground (arith, valid), refl)

-- The responses that a trace sent.
abbrev pub responses : List Event → List ProtocolResponse
responses [] = []
responses (sent m r ∷ es) = r ∷ responses es
responses (_ ∷ es) = responses es

abbrev status_of : ProtocolResponse → ℕ
status_of r = r.status

codes-responses : (es : List Event) → codes es ≡ map status_of (responses es)
codes-responses [] = refl
codes-responses (sent m r ∷ es) = ap (λ cs. r.status ∷ cs) (codes-responses es)
codes-responses (ran args ∷ es) = codes-responses es
codes-responses (staged d t n ∷ es) = codes-responses es
codes-responses (completed d t ∷ es) = codes-responses es

-- Every response carries the operation and the id of the request.
abbrev pub Echoes : InboundMessage → List ProtocolResponse → Type 0
Echoes m = All (λ r. (r.id ≡ m.request.id) × (r.op ≡ m.request.op))

handle_message-Echoes :
    {W : Type 0} (env : Env W) (m : InboundMessage) (w : W)
    → Echoes m (responses (handle_message (observed env) m none (start w)).1.trace)
unfolding handle_message report
handle_message-Echoes env m w = ground arith

-- Each response arrives at some time.
abbrev pub response_of : ℕ × ProtocolResponse → ProtocolResponse
response_of a = a.1

abbrev pub payloads : List (ℕ × ProtocolResponse) → List (ℕ × Fields)
payloads [] = []
payloads ((t, r) ∷ rest) = (t, to_payload r) ∷ payloads rest

module _ (m : InboundMessage) (deadline : ℕ) where
  abbrev Arrived : List (ℕ × ProtocolResponse) → Type 0
  Arrived = All (λ a. a.0 < deadline)

  echo_is_for :
      (r : ProtocolResponse)
      → r.id ≡ m.request.id
      → r.op ≡ m.request.op
      → is_for m.request.id (operation_text m.request.op) (to_payload r) ≡ true
  echo_is_for r e f = rw (← e, ← f) (is_for-to_payload r)

  to-Conversation :
      (arrivals : List (ℕ × ProtocolResponse))
      → Arrived arrivals
      → Echoes m (map response_of arrivals)
      → OneTerminal (map status_of (map response_of arrivals))
      → (final : ProtocolResponse) × (earlier : List ProtocolResponse) × (map response_of arrivals
          ≡ earlier ++ (final ∷ []))
        × Conversation m.request.id
            (operation_text m.request.op)
            deadline
            (payloads arrivals)
            (to_payload final)
        × (is_terminal_code final.status ≡ true)
  to-Conversation [] a e c = absurd c
  to-Conversation ((t, r) ∷ []) (early, a) ((i, o), e) c =
      (r, [], refl, (early, echo_is_for r i o, has_terminal_code-to_payload r ∙ c, refl), c)
  to-Conversation ((t, r) ∷ next ∷ rest) (early, a) ((i, o), e) (c, cs) =
      let (final, earlier, order, conversation, last) = to-Conversation (next ∷ rest) a e cs in
      (
        final,
        r ∷ earlier,
        ap (λ rs. r ∷ rs) order,
        (early, echo_is_for r i o, has_terminal_code-to_payload r ∙ c, conversation),
        last,
      )

-- A transaction ends for the device. Let the responder return, and staging, completion and
-- commands end, and let a message be handled whose command runs at once. If the responses that
-- were sent for it arrive in that order and before the deadline of a positive timeout, then the
-- device's wait for a terminal response to that request returns the payload of the last response
-- that the backend sent, whose code is terminal, whatever arrives later.
pub transaction_ends :
    {W : Type 0} (env : Env W)
    → ((m : InboundMessage) (r : ProtocolResponse) (s : W) → (env.responder m r s).0 ≡ ok tt)
    → ((d t : String) (ttl : ℕ) (s : W) → (env.stage_upload d t ttl s).0 ≢ pending)
    → ((d t : String) (s : W) → (env.complete_upload d t s).0 ≢ pending)
    → ((args : List String) (s : W) → (env.run args s).0 ≢ pending)
    → (m : InboundMessage) (w : W) (timeout now : ℕ) (arrivals : List (ℕ × ProtocolResponse))
      (later : List (ℕ × Value))
    → 0 < timeout
    → map response_of arrivals ≡ responses (handle_message (observed env) m none (start w)).1.trace
    → Arrived m (now + timeout) arrivals
    → (final : ProtocolResponse) × (earlier : List ProtocolResponse) × (responses
          (handle_message (observed env) m none (start w)).1.trace
        ≡ earlier ++ (final ∷ []))
      × ((wait_for_terminal_response m.request.id
            (operation_text m.request.op)
            timeout
            (record { now = now; arrivals = deliver (payloads arrivals) later })).0
          ≡ ok (to_payload final))
      × (is_terminal_code final.status ≡ true)
transaction_ends env responds stages completes runs m w timeout now arrivals later h sent_all
      early =
    let trace = (handle_message (observed env) m none (start w)).1.trace in
    let answered = (handle_message-answers env responds stages completes runs m w).1 in
    let (final, earlier, order, conversation, last) =
      to-Conversation m (now + timeout) arrivals early
        (subst (Echoes m) (sym sent_all) (handle_message-Echoes env m w))
        (subst OneTerminal (codes-responses trace ∙ ap (map status_of) (sym sent_all)) answered) in
    (
      final,
      earlier,
      sym sent_all ∙ order,
      wait_for_terminal_response_lem m.request.id (operation_text m.request.op) timeout now
          (payloads arrivals) later (to_payload final) h conversation,
      last,
    )
