-- ===== src/QueueSamples.antt =====
-- samples/python/queues/sub-raw.py: a subscriber of raw messages that lives as long as the program. What is
-- logged is left out.
mod Interrupts
pub mod Calm
pub mod Tracing
pub mod Lifetime
pub mod Normalized
mod Tests
mod StreamTests
use oci_iot_samples.Base.{
  if◌then◌else◌, ℕ, zero, suc, String, ◌<>◌, Option, none, some, given, replace, upper,
}
use Interrupts.{is_interrupt, but_interrupts}
use oci_iot_samples.Base.Exec.{
  Exec, Exn, Outcome, ok, raised, pending, value_error, after, after_try, ◌>>=◌, ◌>>◌, pure, raise,
  lift, try_then,
}

pub record RawMessage : Type 0 where
  pub digital_twin_instance_id : String
  pub time_received : String
  pub endpoint : String
  pub content : ℕ

-- The calls of a connection. `deqone` may raise an interrupt, and then gives no message; `new_id` is a
-- random UUID, `subscriber_type` and `open_queue` find the types of the database and make what they are
-- of, and `read_content` reads and decodes the LOB of a message.
pub record Connection (W : Type 0) : Type 0 where
  pub connect : Exec W (Unit {0})
  pub close : Exec W (Unit {0})
  pub instance_of_display_name : String → Exec W (Option (Option String))
  pub enquote_literal : String → Exec W String
  pub subscriber_type : Exec W (Unit {0})
  pub new_id : Exec W String
  pub add_subscriber : String → String → Option String → Exec W (Unit {0})
  pub remove_subscriber : String → String → Exec W (Unit {0})
  pub open_queue : String → String → Exec W (Unit {0})
  pub deqone : Exec W (Option RawMessage)
  pub read_content : ℕ → Exec W String
  pub print : String → Exec W (Unit {0})
  pub commit : Exec W (Unit {0})

-- f"{rule} and {condition}" if rule is not None else condition
abbrev and_rule : Option String → String → String
and_rule none condition = condition
and_rule (some rule) condition = rule <> (" and " <> condition)

-- `row and row[0]`
abbrev pub column : Option (Option String) → Option String
column none = none
column (some v) = given v

module _ {W : Type 0} (connection : Connection W) where
  abbrev pub found_instance : String → Option String → Exec W (Option String)
  found_instance name none = raise (value_error ("No such display name: " <> name))
  found_instance name (some id) = pure (some id)

  unfoldable pub rule_instance : Option String → Option String → Exec W (Option String)
  rule_instance digital_twin_instance_id display_name = elim (given display_name) [
    | none ↦ pure (given digital_twin_instance_id)
    | some name ↦
        connection.instance_of_display_name name >>= λ row. found_instance name (column row)
  ]

  abbrev pub add_condition : String → Option String → Option String → Exec W (Option String)
  add_condition field_ none rule = pure rule
  add_condition field_ (some v) rule = do
    quoted ← connection.enquote_literal v
    pure (some (and_rule rule ("tab.user_data." <> (field_ <> (" = " <> quoted)))))

  unfoldable pub build_subscriber_rule :
      Option String → Option String → Option String → Exec W (Option String)
  unfolding rule_instance
  build_subscriber_rule digital_twin_instance_id display_name endpoint = do
    instance_id ← rule_instance digital_twin_instance_id display_name
    rule ← add_condition "digital_twin_instance_id" instance_id none
    add_condition "endpoint" (given endpoint) rule

  -- The `try` that registers the subscriber, with its name.
  unfoldable pub register : String → Option String → Exec W String
  unfolding replace
  register queue_name rule = do
    connection.subscriber_type
    id ← connection.new_id
    let name = "aq_sub_" <> replace "-" "_" id
    connection.add_subscriber queue_name name rule
    pure name

  abbrev registered : String → Option String → Exec W (Option String)
  registered queue_name rule =
      try_then (register queue_name rule) (but_interrupts none) (λ name. pure (some name))

  -- The subscriber is its name.
  unfoldable pub subscribe :
      String → Option String → Option String → Option String → Exec W (Option String)
  subscribe queue_name digital_twin_instance_id display_name endpoint =
      try_then (build_subscriber_rule digital_twin_instance_id display_name endpoint)
        (but_interrupts none) (registered queue_name)

  unfoldable pub show_message : RawMessage → Exec W (Unit {0})
  show_message message = do
    connection.print ("\nOCID         : " <> message.digital_twin_instance_id)
    connection.print ("Time received: " <> message.time_received)
    connection.print ("Endpoint     : " <> message.endpoint)
    content ← connection.read_content message.content
    connection.print ("Content      : " <> content)
    connection.commit

  abbrev shown : Option RawMessage → Exec W (Unit {0})
  shown none = connection.print "."
  shown (some message) = show_message message

  -- while True; a unit of fuel for each round.
  unfoldable pub listen : ℕ → Exec W (Unit {0})
  unfolding show_message
  listen zero = lift pending
  listen (suc fuel) = do message ← connection.deqone; shown message; listen fuel

  -- except KeyboardInterrupt, and except Exception
  abbrev pub interrupted : Exn → Exec W (Unit {0})
  interrupted e = connection.print (if is_interrupt e then "\nInterrupted" else "")

  -- An interrupt and an exception end the stream.
  unfoldable pub stream : ℕ → String → String → Exec W (Unit {0})
  unfolding is_interrupt listen
  stream fuel queue_name subscriber =
      try_then (connection.open_queue queue_name subscriber >> listen fuel) interrupted pure

  unfoldable pub unsubscribe : String → String → Exec W (Unit {0})
  unfolding is_interrupt
  unsubscribe queue_name subscriber =
      try_then (connection.remove_subscriber queue_name subscriber) (but_interrupts tt) pure

  unfoldable pub disconnect : Exec W (Unit {0})
  unfolding is_interrupt
  disconnect = try_then connection.close (but_interrupts tt) pure

  module _ (fuel : ℕ) (iot_domain_short_name : String) where
    abbrev pub queue_name : String
    queue_name = upper (iot_domain_short_name <> "__iot.raw_data_in")

    -- if subscriber: stream, then unsubscribe
    abbrev streamed : Option String → Exec W (Unit {0})
    streamed none = pure tt
    streamed (some subscriber) =
        stream fuel queue_name subscriber >> unsubscribe queue_name subscriber

    -- `main`, with the arguments --id, --display-name and --endpoint
    unfoldable pub main : Option String → Option String → Option String → Exec W (Unit {0})
    main digital_twin_instance_id display_name endpoint =
        try_then connection.connect (but_interrupts tt) (λ _. do
          subscriber ← subscribe queue_name digital_twin_instance_id display_name endpoint
          streamed subscriber
          disconnect)
