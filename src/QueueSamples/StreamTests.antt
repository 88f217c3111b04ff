-- ===== src/QueueSamples/StreamTests.antt =====
-- The stream of normalized data at two messages, the second without a value.
use oci_iot_samples.Base.{
  String, ◌≡◌, ◌⊎◌, refl, false, none, some, List, [], ◌∷◌, ◌++◌, ◌<>◌, contains, all_chars,
}
use oci_iot_samples.Base.Json.{Value, str, Fields, field, end, get}
use oci_iot_samples.Base.Dsn.{
  build_dsn, match_connect_string, match_host, match_digits, after_prefix, dsn_of,
}
use oci_iot_samples.Base.Dsn.Parts.{build_dsn-parts}
use oci_iot_samples.Base.Exec.{Exec, ok, raised, other_error}
use oci_iot_samples.QueueSamples.Interrupts.{is_interrupt}
use oci_iot_samples.QueueSamples.Normalized.{
  Driver, Settings, listen, show_message, stream, db_connect, cli, after_command,
}
use oci_iot_samples.QueueSamples.Normalized.Tracing.{Call, taken, printed, tracing}
use oci_iot_samples.QueueSamples.Normalized.Delivery.{round, rounds, IsCut, listen-delivers}

abbrev World : Type 0
World = List Fields

abbrev done : Exec World (Unit {0})
done w = (ok tt, w)

abbrev text_of : Value → String
text_of (str s) = s
text_of _ = "None"

abbrev driver : Driver World
driver = record {
  init_oracle_client = λ dir. done;
  connect = λ arguments. done;
  close = done;
  instance_of_display_name = λ domain name w. (ok none, w);
  enquote_literal = λ s w. (ok s, w);
  agent_type = done;
  add_subscriber = λ q name rule. done;
  remove_subscriber = λ q name. done;
  open_queue = λ q name. done;
  deqone = λ w. elim w [
    | [] ↦ (raised (other_error "KeyboardInterrupt"), [])
    | m ∷ ms ↦ (ok (some m), ms)
  ];
  commit = done;
  print = λ line. done;
  print_dot = done;
  text_of = text_of;
}

abbrev settings : Settings
settings = record {
  db_connect_string = "tcps:adb.example.com:1521/svc?x=1";
  db_token_scope = "scope";
  oci_auth_type = "SecurityToken";
  oci_profile = "DEFAULT";
  thick_mode = false;
  lib_dir = none;
  iot_domain_short_name = "dom";
  subscriber_name = "aq_sub";
}

abbrev message : Value → Fields
message path =
    field "digitalTwinInstanceId" (str "id")
      (field "timeObserved" (str "t") (field "contentPath" path end))

abbrev full : Fields
full = field "value" (str "7") (message (str "temperature"))

abbrev messages : World
messages = full ∷ message (str "humidity") ∷ []

listen-delivers_example :
    (ms : List Fields) × (p : List Call) × ((listen (tracing driver) settings 5 (messages, [])).1.1
      ≡ rounds driver ms ++ p)
    × ((p ≡ []) ⊎ IsCut driver settings p)
listen-delivers_example = listen-delivers driver settings 5 messages

first_committed :
    (listen (tracing driver) settings 5 (messages, [])).1.1
    ≡ round driver full
      ++ (taken (message (str "humidity"))
          ∷ printed "\nOCID         : id"
          ∷ printed "Time observed: t"
          ∷ printed "Content path : humidity"
          ∷ [])
unfolding listen show_message get
first_committed = refl

streamed : (cli driver settings (stream driver settings 5) messages).0 ≡ ok tt
unfolding cli stream db_connect listen show_message get after_command is_interrupt build_dsn
    match_connect_string match_host match_digits after_prefix contains
streamed = refl

build_dsn-parts_example :
    build_dsn
      ("tcps:" <> ("adb.example.com" <> (":" <> ("1521" <> ("/" <> ("svc" <> ("?" <> "x=1")))))))
    ≡ ok (dsn_of "adb.example.com" "1521" "svc")
unfolding all_chars
build_dsn-parts_example =
    build_dsn-parts "adb.example.com" "1521" "svc" "x=1" refl refl refl refl refl
