-- ===== src/FileAgent/Database.antt =====
-- iot_db.py: the queue subscriber and the dequeue loop, over a database that acts on a world `W`.
pub mod Loop
pub mod Rule
pub mod Connection
use oci_iot_samples.Base.{
  ℕ, zero, suc, ◌+◌, String, ◌<>◌, Bool, true, false, Option, none, some, List, [], ◌∷◌, given,
  truthy, upper, ltb, if◌then◌else◌,
}
use oci_iot_samples.Base.Exec.{
  Exec, Exn, Outcome, ok, raised, pending, value_error, after, ◌>>=◌, ◌>>◌, pure, raise,
}
use oci_iot_samples.Base.Json.{Value, Fields, get, as_fields, as_text}
use oci_iot_samples.FileAgent.Models.{InboundMessage, inbound_message}

-- A message of the queue; `msgid` is the hexadecimal text of its id.
pub record Dequeued : Type 0 where
  pub msgid : String
  pub payload : Value

-- The connection. A query gives the first column of the first row, if there is one. `deqone` waits
-- for a message and removes it, and gives `none` when the wait is over.
pub record Database (W : Type 0) : Type 0 where
  pub instance_of_display_name : String → String → Exec W (Option (Option String))
  pub display_name_of_instance : String → String → Exec W (Option (Option String))
  pub enquote_literal : String → Exec W String
  pub dbms_add_subscriber : String → String → Option String → Exec W (Unit {0})
  pub dbms_remove_subscriber : String → String → Exec W (Unit {0})
  pub deqone : Exec W (Option Dequeued)
  pub commit : Exec W (Unit {0})

-- `row and row[0]`
abbrev pub column : Option (Option String) → Option String
column none = none
column (some v) = given v

-- f"{rule} and {condition}" if rule is not None else condition
unfoldable pub and_rule : Option String → String → String
and_rule none condition = condition
and_rule (some rule) condition = rule <> (" and " <> condition)

-- _payload_instance_id
unfoldable pub payload_instance_id : Value → Option String
unfolding get as_fields as_text
payload_instance_id payload = elim (as_fields payload) [
  | none ↦ none
  | some fs ↦ elim (get "digitalTwinInstanceId" fs) [ none ↦ none | some v ↦ as_text v ]
]

module _ {W : Type 0} (db : Database W) (iot_domain_short_id : String) where
  -- The instance that the rule is about, looked up when a display name is given.
  unfoldable pub rule_instance : Option String → Option String → Exec W (Option String)
  rule_instance digital_twin_instance_id display_name = elim (given display_name) [
    | none ↦ pure (given digital_twin_instance_id)
    | some name ↦ do
      row ← db.instance_of_display_name iot_domain_short_id name
      elim (column row) [
        | none ↦ raise (value_error ("No such display name: " <> name))
        | some instance_id ↦ pure (some instance_id)
      ]
  ]

  -- One condition more, if there is a value for it.
  unfoldable pub add_condition : String → Option String → Option String → Exec W (Option String)
  unfolding and_rule
  add_condition field_ none rule = pure rule
  add_condition field_ (some v) rule = do
    quoted ← db.enquote_literal v
    pure (some (and_rule rule ("tab.user_data.\"" <> (field_ <> ("\" = " <> quoted)))))

  unfoldable pub build_subscriber_rule :
      Option String → Option String → Option String → Exec W (Option String)
  build_subscriber_rule digital_twin_instance_id display_name content_path = do
    instance_id ← rule_instance digital_twin_instance_id display_name
    rule ← add_condition "digitalTwinInstanceId" instance_id none
    add_condition "contentPath" (given content_path) rule

  unfoldable pub add_subscriber : String → String → Option String → Exec W (Unit {0})
  add_subscriber queue_name subscriber_name rule =
      db.dbms_add_subscriber queue_name subscriber_name rule

  unfoldable pub remove_subscriber : String → String → Exec W (Unit {0})
  remove_subscriber queue_name subscriber_name =
      db.dbms_remove_subscriber queue_name subscriber_name

  unfoldable pub resolve_display_name : String → Exec W (Option String)
  resolve_display_name digital_twin_instance_id = do
    row ← db.display_name_of_instance iot_domain_short_id digital_twin_instance_id
    pure (column row)

  abbrev with_id : String → Option String → InboundMessage → InboundMessage
  with_id msgid name m = record {
    message_id = msgid;
    digital_twin_instance_id = m.digital_twin_instance_id;
    digital_twin_display_name = elim name [ none ↦ m.digital_twin_display_name | some n ↦ n ];
    time_observed = m.time_observed;
    content_path = m.content_path;
    request = m.request;
  }

  module _ (put : InboundMessage → Exec W (Unit {0}))
      (invalid_message_handler : Option (String → Exec W (Unit {0}))) where
    -- if instance_id and invalid_message_handler
    abbrev report_invalid : Option String → Option (String → Exec W (Unit {0})) → Exec W (Unit {0})
    report_invalid (some instance_id) (some handler) = handler instance_id
    report_invalid _ _ = pure tt

    -- A round of the loop, after the message is there.
    unfoldable pub handle_dequeued : Dequeued → Exec W (Unit {0})
    unfolding resolve_display_name payload_instance_id
    handle_dequeued message = do
      db.commit
      elim (inbound_message message.payload) [
        | none ↦
            report_invalid (given (payload_instance_id message.payload)) invalid_message_handler
        | some inbound ↦ do
          name ← resolve_display_name inbound.digital_twin_instance_id
          put (with_id message.msgid name inbound)
      ]

    -- max_messages is None or processed < max_messages
    abbrev pub goes_on : Option ℕ → ℕ → Bool
    goes_on none processed = true
    goes_on (some n) processed = ltb processed n

    -- What follows `deqone`: another round, after a message or a wait without end.
    abbrev pub after_deqone :
        Option ℕ → Exec W (Unit {0}) → Exec W (Unit {0}) → Option Dequeued → Exec W (Unit {0})
    after_deqone none again next none = again
    after_deqone (some n) again next none = pure tt
    after_deqone max_messages again next (some message) = handle_dequeued message >> next

    -- The loop from `processed` on. Fuel bounds the rounds.
    unfoldable pub dequeue_from : ℕ → Option ℕ → ℕ → Exec W (Unit {0})
    dequeue_from zero max_messages processed = λ s. (pending, s)
    dequeue_from (suc fuel) max_messages processed =
        if goes_on max_messages processed
        then db.deqone
          >>= after_deqone max_messages (dequeue_from fuel max_messages processed)
              (dequeue_from fuel max_messages (processed + 1))
        else pure tt

    unfoldable pub dequeue_messages : ℕ → Option ℕ → Exec W (Unit {0})
    dequeue_messages fuel max_messages = dequeue_from fuel max_messages 0
