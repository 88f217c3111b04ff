-- ===== src/FileAgent/DeviceDemo/Waiting.antt =====
-- What the device makes of the responses that arrive in time.
use oci_iot_samples.Base.{
  ℕ, zero, suc, ◌+◌, ◌-◌, ◌≤◌, ◌<◌, String, ◌≡◌, refl, ap, ◌∙◌, true, false, List, [], ◌∷◌, length,
  max, arith, if◌then◌else◌,
}
use oci_iot_samples.Base.Exec.{ok, after}
use oci_iot_samples.Base.Json.{Value, obj, Fields, as_fields}
use oci_iot_samples.FileAgent.DeviceDemo.{
  Mailbox, is_for, wait_until, wait_for_response, has_terminal_code, wait_terminal_until,
  wait_for_terminal_response, least_timeout,
}

-- Objects that arrive, and what comes behind them.
abbrev pub deliver : List (ℕ × Fields) → List (ℕ × Value) → List (ℕ × Value)
deliver [] later = later
deliver ((t, fs) ∷ rest) later = (t, obj fs) ∷ deliver rest later

module _ (transaction_id operation : String) (deadline : ℕ) where
  arrival_step :
      (limit now t : ℕ) (fs : Fields) (rest : List (ℕ × Value))
      → now < limit
      → t ≤ limit
      → wait_until transaction_id operation limit ((t, obj fs) ∷ rest) now ≡ (
          if is_for transaction_id operation fs
          then (ok fs, record { now = max now t; arrivals = rest })
          else wait_until transaction_id operation limit rest (max now t))
  unfolding wait_until as_fields
  arrival_step limit now t fs rest h k = ground arith

  -- The responses of the transaction, all before the deadline. The last is `final`, which alone has
  -- a terminal code.
  abbrev pub Conversation : List (ℕ × Fields) → Fields → Type 0
  Conversation [] final = ⊥
  Conversation ((t, fs) ∷ []) final =
      (t < deadline)
      × (is_for transaction_id operation fs ≡ true)
      × (has_terminal_code fs ≡ true)
      × (fs ≡ final)
  Conversation ((t, fs) ∷ next ∷ rest) final =
      (t < deadline)
      × (is_for transaction_id operation fs ≡ true)
      × (has_terminal_code fs ≡ false)
      × Conversation (next ∷ rest) final

  module _ (fuel now t : ℕ) (fs : Fields) (rest : List (ℕ × Value)) (early : now < deadline)
      (in_time : t < deadline) (mine : is_for transaction_id operation fs ≡ true) where
    abbrev box : Mailbox
    box = record { now = now; arrivals = (t, obj fs) ∷ rest }

    received :
        wait_for_response transaction_id operation (max least_timeout (deadline - now)) box
        ≡ (ok fs, record { now = max now t; arrivals = rest })
    unfolding wait_for_response
    received =
        rw
          (
            arrival_step (now + max least_timeout (deadline - now)) now t fs rest (omega arith)
                (omega arith),
            mine,
          )
          refl

    last_round :
        has_terminal_code fs ≡ true
        → wait_terminal_until (suc fuel) transaction_id operation deadline box
          ≡ (ok fs, record { now = max now t; arrivals = rest })
    unfolding wait_terminal_until
    last_round e = rw received (rw (after, e))

    next_round :
        has_terminal_code fs ≡ false
        → wait_terminal_until (suc fuel) transaction_id operation deadline box
          ≡ wait_terminal_until fuel transaction_id operation deadline
              (record { now = max now t; arrivals = rest })
    unfolding wait_terminal_until
    next_round e = rw received (rw (after, e))

  conversation_lem :
      (fuel now : ℕ) (responses : List (ℕ × Fields)) (later : List (ℕ × Value)) (final : Fields)
      → now < deadline
      → length responses ≤ fuel
      → Conversation responses final
      → (wait_terminal_until fuel transaction_id operation deadline
          (record { now = now; arrivals = deliver responses later })).0
        ≡ ok final
  conversation_lem fuel now [] later final h k c = absurd c
  conversation_lem zero now (r ∷ rs) later final h k c = absurd (omega arith)
  conversation_lem (suc fuel) now ((t, fs) ∷ []) later final h k (late, mine, last, e) =
      ap (λ x. x.0) (last_round fuel now t fs later h late mine last) ∙ ap ok e
  conversation_lem (suc fuel) now ((t, fs) ∷ next ∷ rs) later final h k (late, mine, more, c) =
      ap (λ x. x.0) (next_round fuel now t fs (deliver (next ∷ rs) later) h late mine more)
      ∙ conversation_lem fuel (max now t) (next ∷ rs) later final (omega arith) (omega arith) c

length-deliver :
    (responses : List (ℕ × Fields)) (later : List (ℕ × Value))
    → length responses ≤ length (deliver responses later)
length-deliver [] later = omega arith
length-deliver (r ∷ rs) later = omega (arith, length-deliver rs later)

-- If responses for a transaction arrive before the deadline of a positive timeout, of which the
-- last has a terminal code and no other, then the device waits through the others and returns the
-- last, whatever comes later.
pub wait_for_terminal_response_lem :
    (transaction_id operation : String) (timeout now : ℕ) (responses : List (ℕ × Fields))
    (later : List (ℕ × Value)) (final : Fields)
    → 0 < timeout
    → Conversation transaction_id operation (now + timeout) responses final
    → (wait_for_terminal_response transaction_id operation timeout
        (record { now = now; arrivals = deliver responses later })).0
      ≡ ok final
unfolding wait_for_terminal_response
wait_for_terminal_response_lem transaction_id operation timeout now responses later final h c =
    conversation_lem transaction_id operation (now + timeout) _ now responses later final
      (omega arith) (omega (arith, length-deliver responses later)) c
