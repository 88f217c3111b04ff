-- ===== src/QueueSamples/Normalized.antt =====
-- samples/python/queues/sub-norm.py: a durable subscriber of normalized data, with a command to register it, one
-- to stream and one to remove it. What is logged is left out, and so are click's options.
pub mod Tracing
pub mod Delivery
use oci_iot_samples.Base.{
  ℕ, zero, suc, String, ◌<>◌, Bool, true, false, ◌&&◌, Option, none, some, List, [], ◌∷◌, given,
  contains, upper, ◌==◌, if◌then◌else◌,
}
use oci_iot_samples.Base.Json.{Value, Fields, get}
use oci_iot_samples.Base.Dsn.{ConnectArguments, build_dsn}
use oci_iot_samples.QueueSamples.Interrupts.{is_interrupt, but_interrupts}
use oci_iot_samples.Base.Exec.{
  Exec, Exn, Outcome, ok, raised, pending, value_error, key_error, other_error, after, after_try,
  ◌>>=◌, ◌>>◌, pure, raise, lift, try_then,
}

-- config.py
pub record Settings : Type 0 where
  pub db_connect_string : String
  pub db_token_scope : String
  pub oci_auth_type : String
  pub oci_profile : String
  pub thick_mode : Bool
  pub lib_dir : Option String
  pub iot_domain_short_name : String
  pub subscriber_name : String

-- The driver and the console. `agent_type` finds the type of a subscriber, `open_queue` makes the queue and
-- sets its options, a message is its payload, and `text_of` is `str` of a value.
pub record Driver (W : Type 0) : Type 0 where
  pub init_oracle_client : Option String → Exec W (Unit {0})
  pub connect : ConnectArguments → Exec W (Unit {0})
  pub close : Exec W (Unit {0})
  pub instance_of_display_name : String → String → Exec W (Option (Option String))
  pub enquote_literal : String → Exec W String
  pub agent_type : Exec W (Unit {0})
  pub add_subscriber : String → String → Option String → Exec W (Unit {0})
  pub remove_subscriber : String → String → Exec W (Unit {0})
  pub open_queue : String → String → Exec W (Unit {0})
  pub deqone : Exec W (Option Fields)
  pub commit : Exec W (Unit {0})
  pub print : String → Exec W (Unit {0})
  pub print_dot : Exec W (Unit {0})
  pub text_of : Value → String

-- The row's first column, where there is a row and the column is no empty text.
abbrev id_of : Option (Option String) → Option String
id_of none = none
id_of (some v) = given v

-- f"{rule} and {condition}" if rule is not None else condition
abbrev conjoined : Option String → String → String
conjoined none condition = condition
conjoined (some rule) condition = rule <> (" and " <> condition)

module _ {W : Type 0} (driver : Driver W) (config : Settings) where
  abbrev token_based_profile : Option String
  token_based_profile =
      if contains config.oci_auth_type ("ConfigFileAuthentication" ∷ "SecurityToken" ∷ [])
      then some config.oci_profile
      else none

  abbrev init_thick : Bool → Exec W (Unit {0})
  init_thick true = driver.init_oracle_client config.lib_dir
  init_thick false = pure tt

  unfoldable pub db_connect : Exec W (Unit {0})
  unfolding build_dsn contains
  db_connect = do
    dsn ← lift (build_dsn config.db_connect_string)
    init_thick config.thick_mode
    driver.connect (record {
      dsn = dsn;
      auth_type = config.oci_auth_type;
      scope = config.db_token_scope;
      profile = token_based_profile;
      externalauth = config.thick_mode;
    })

  abbrev known_instance : String → Option String → Exec W (Option String)
  known_instance display_name none = raise (value_error ("No such display name: " <> display_name))
  known_instance display_name (some id) = pure (some id)

  abbrev chosen_instance : Option String → Option String → Exec W (Option String)
  chosen_instance digital_twin_instance_id none = pure (given digital_twin_instance_id)
  chosen_instance digital_twin_instance_id (some display_name) = do
    row ← driver.instance_of_display_name config.iot_domain_short_name display_name
    known_instance display_name (id_of row)

  abbrev with_condition : String → Option String → Option String → Exec W (Option String)
  with_condition column none rule = pure rule
  with_condition column (some v) rule = do
    quoted ← driver.enquote_literal v
    pure (some (conjoined rule ("tab.user_data." <> (column <> (" = " <> quoted)))))

  unfoldable pub build_subscriber_rule :
      Option String → Option String → Option String → Exec W (Option String)
  build_subscriber_rule digital_twin_instance_id display_name content_path = do
    instance_id ← chosen_instance digital_twin_instance_id (given display_name)
    rule ← with_condition "\"digitalTwinInstanceId\"" instance_id none
    with_condition "\"contentPath\"" (given content_path) rule

  abbrev queue_name : String
  queue_name = upper (config.iot_domain_short_name <> "__iot.normalized_data")

  -- With a connection that a command keeps in its context; the result is whether there is one.
  abbrev connected : Exec W (Unit {0}) → Exec W Bool
  connected use_ = try_then db_connect (but_interrupts false) (λ _. use_ >> pure true)

  abbrev register : Option String → Exec W (Unit {0})
  register rule =
      try_then (driver.agent_type >> driver.add_subscriber queue_name config.subscriber_name rule)
        (but_interrupts tt) pure

  abbrev usage_error : Exn
  usage_error = other_error "--id and --display-name are mutually exclusive options."

  abbrev subscribe_chosen : Option String → Option String → Option String → Exec W Bool
  subscribe_chosen digital_twin_instance_id display_name content_path = connected (
      try_then (build_subscriber_rule digital_twin_instance_id display_name content_path)
        (but_interrupts tt) register)

  abbrev is_some : Option String → Bool
  is_some none = false
  is_some (some s) = true

  unfoldable pub subscribe : Option String → Option String → Option String → Exec W Bool
  unfolding build_subscriber_rule db_connect is_interrupt
  subscribe digital_twin_instance_id display_name content_path =
      if is_some (given digital_twin_instance_id) && is_some (given display_name)
      then raise usage_error
      else subscribe_chosen digital_twin_instance_id display_name content_path

  -- print(f"{label}{message.payload[key]}")
  abbrev pub print_item : String → Option Value → String → Exec W (Unit {0})
  print_item key none label = raise (key_error key)
  print_item key (some v) label = driver.print (label <> driver.text_of v)

  unfoldable pub show_message : Fields → Exec W (Unit {0})
  unfolding get
  show_message payload = do
    print_item "digitalTwinInstanceId" (get "digitalTwinInstanceId" payload) "\nOCID         : "
    print_item "timeObserved" (get "timeObserved" payload) "Time observed: "
    print_item "contentPath" (get "contentPath" payload) "Content path : "
    print_item "value" (get "value" payload) "Value        : "
    driver.commit

  abbrev pub shown : Option Fields → Exec W (Unit {0})
  shown none = driver.print_dot
  shown (some payload) = show_message payload

  -- while True; a unit of fuel for each round.
  unfoldable pub listen : ℕ → Exec W (Unit {0})
  unfolding show_message
  listen zero = lift pending
  listen (suc fuel) = do message ← driver.deqone; shown message; listen fuel

  abbrev interrupted : Exn → Exec W (Unit {0})
  interrupted e = driver.print (if is_interrupt e then "\nInterrupted" else "")

  unfoldable pub stream : ℕ → Exec W Bool
  unfolding db_connect is_interrupt
  stream fuel = connected (
      try_then (driver.open_queue queue_name config.subscriber_name >> listen fuel) interrupted
        pure)

  unfoldable pub unsubscribe : Exec W Bool
  unfolding db_connect is_interrupt
  unsubscribe = connected (
      try_then (driver.agent_type >> driver.remove_subscriber queue_name config.subscriber_name)
        (but_interrupts tt) pure)

  unfoldable pub after_command : Bool → Exec W (Unit {0})
  unfolding is_interrupt
  after_command false = pure tt
  after_command true = try_then driver.close (but_interrupts tt) pure

  -- A command, and then click's callback of its result.
  unfoldable pub cli : Exec W Bool → Exec W (Unit {0})
  cli command = command >>= after_command
