-- ===== src/FileAgent/DeviceDemo.antt =====
-- device_demo.py: the device's side of a transaction. Times are microseconds of the monotonic
-- clock. What MQTT delivers is a list of arrivals in the order of their times.
pub mod Waiting
pub mod Demo
use oci_iot_samples.Base.{
  ℕ, zero, suc, ◌+◌, ◌-◌, ◌*◌, ◌^◌, String, ◌<>◌, Bool, true, false, ◌&&◌, ◌||◌, Option, none, some,
  List, [], ◌∷◌, max, leb, ltb, eqb, if◌then◌else◌, ◌==◌, length,
}
use oci_iot_samples.Base.Exec.{
  Exec, Exn, Outcome, ok, raised, pending, after, ◌>>=◌, gets, pure, raise, lift, runtime_error,
  timeout_error, other_error,
}
use oci_iot_samples.Base.Json.{
  ℤ, pos, Value, num, real, str, arr, obj, Items, nil, cons, Fields, end, field, get, as_fields,
}

unfoldable pub prepare_upload_payload : String → ℕ → Fields
prepare_upload_payload transaction_id ttl_minutes = field "op" (str "prepare-upload") (
    field "id" (str transaction_id)
      (field "data" (obj (field "ttl" (num (pos ttl_minutes)) end)) end))

unfoldable pub complete_upload_payload : String → String → String → Fields
complete_upload_payload transaction_id command file_name = field "op" (str "complete-upload") (
    field "id" (str transaction_id) (
      field "data"
        (obj (
          field "command" (str command) (
            field "parameters" (obj (field "artifacts" (arr (cons (str file_name) nil)) end)) end)))
        end))

-- response.get(key) == expected
has_text : String → String → Fields → Bool
unfolding get
has_text key expected fs = elim (get key fs) [ some (str s) ↦ s == expected | _ ↦ false ]

unfoldable pub is_for : String → String → Fields → Bool
unfolding has_text
is_for transaction_id operation fs = has_text "id" transaction_id fs && has_text "op" operation fs

-- The queue of responses, and the time.
pub record Mailbox : Type 0 where
  pub now : ℕ
  pub arrivals : List (ℕ × Value)

abbrev pub queue_empty : Exn
queue_empty = other_error "queue.Empty"

abbrev pub attribute_error : Exn
attribute_error = other_error "AttributeError"

abbrev pub timed_out : String → Exn
timed_out operation = timeout_error ("Timed out waiting for " <> (operation <> " response"))

-- The loop of wait_for_response, until `deadline`. `get` takes what has arrived, or waits for the
-- next arrival up to the deadline.
unfoldable pub wait_until : String → String → ℕ → List (ℕ × Value) → ℕ → Outcome Fields × Mailbox
wait_until transaction_id operation deadline [] now =
    if leb deadline now
    then (raised (timed_out operation), record { now = now; arrivals = [] })
    else (raised queue_empty, record { now = deadline; arrivals = [] })
wait_until transaction_id operation deadline ((t, v) ∷ rest) now =
    let again = wait_until transaction_id operation deadline rest (max now t) in
    let taken : Mailbox = record { now = max now t; arrivals = rest } in
    if leb deadline now
    then (raised (timed_out operation), record { now = now; arrivals = (t, v) ∷ rest })
    else if ltb deadline t
    then (raised queue_empty, record { now = deadline; arrivals = (t, v) ∷ rest })
    else elim (as_fields v) [
      | none ↦ (raised attribute_error, taken)
      | some fs ↦ if is_for transaction_id operation fs then (ok fs, taken) else again
    ]

unfoldable pub wait_for_response : String → String → ℕ → Mailbox → Outcome Fields × Mailbox
wait_for_response transaction_id operation timeout box =
    wait_until transaction_id operation (box.now + timeout) box.arrivals box.now

-- value == n, for the number n
unfoldable pub is_number : ℕ → Value → Bool
is_number n (num (pos m)) = eqb m n
is_number n (real (pos m) k) = eqb m (n * 10 ^ k)
is_number _ _ = false

unfoldable pub is_terminal : Value → Bool
unfolding is_number
is_terminal v = is_number 200 v || is_number 400 v || is_number 422 v || is_number 500 v

unfoldable pub has_terminal_code : Fields → Bool
unfolding is_terminal
has_terminal_code fs = elim (get "code" fs) [ none ↦ false | some v ↦ is_terminal v ]

-- 0.1 seconds
abbrev pub least_timeout : ℕ
least_timeout = 100000

-- The loop of wait_for_terminal_response. Every round takes an arrival or raises, so that one round
-- more than there are arrivals is enough fuel.
unfoldable pub wait_terminal_until : ℕ → String → String → ℕ → Exec Mailbox Fields
wait_terminal_until zero transaction_id operation deadline = lift pending
wait_terminal_until (suc fuel) transaction_id operation deadline = do
  box ← gets
  response ← wait_for_response transaction_id operation (max least_timeout (deadline - box.now))
  elim (has_terminal_code response) [
    | true ↦ pure response
    | false ↦ wait_terminal_until fuel transaction_id operation deadline
  ]

unfoldable pub wait_for_terminal_response : String → String → ℕ → Exec Mailbox Fields
wait_for_terminal_response transaction_id operation timeout box =
    wait_terminal_until (suc (length box.arrivals)) transaction_id operation (box.now + timeout) box

-- The text of the exception, which shows the response, is left out.
unfoldable pub require_response_code : Fields → ℕ → Outcome (Unit {0})
unfolding is_number
require_response_code response expected = elim (get "code" response) [
  | none ↦ raised (runtime_error "Unexpected response code")
  | some v ↦
      if is_number expected v then ok tt else raised (runtime_error "Unexpected response code")
]
