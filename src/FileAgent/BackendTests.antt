-- ===== src/FileAgent/BackendTests.antt =====
-- The theorems on the database queue and on the sending of responses at concrete clients.
use oci_iot_samples.Base.{
  ℕ, suc, String, ◌<>◌, ◌≡◌, ◌≢◌, ◌⊎◌, refl, true, Option, none, some, List, [], ◌∷◌, arith,
}
use oci_iot_samples.Base.Exec.{Exec, ok, raised, service_error}
use oci_iot_samples.Base.Json.{null, obj, end}
use oci_iot_samples.FileAgent.Models.{prepare_upload, InboundMessage, ProtocolResponse, to_payload}
use oci_iot_samples.FileAgent.Database.{
  Database, Dequeued, dequeue_messages, build_subscriber_rule, rule_instance, add_condition,
}
use oci_iot_samples.FileAgent.Database.Loop.{
  take, serving, put_beside, handler_beside, handle_all, dequeue_messages-take,
}
use oci_iot_samples.FileAgent.Clients.{IotClient, send_response}
use oci_iot_samples.FileAgent.Clients.Sending.{send_response_lem}

-- A database without named instances.
abbrev database : Database ℕ
database = record {
  instance_of_display_name = λ d n s. (ok none, s);
  display_name_of_instance = λ d i s. (ok none, s);
  enquote_literal = λ t s. (ok ("'" <> (t <> "'")), s);
  dbms_add_subscriber = λ q n r s. (ok tt, suc s);
  dbms_remove_subscriber = λ q n s. (ok tt, suc s);
  deqone = λ s. (ok none, s);
  commit = λ s. (ok tt, suc s);
}

abbrev keep : InboundMessage → Exec ℕ (Unit {0})
keep m s = (ok tt, suc s)

abbrev complain : String → Exec ℕ (Unit {0})
complain i s = (ok tt, suc s)

abbrev waiting : List Dequeued
waiting = record { msgid = "01"; payload = null } ∷ record { msgid = "02"; payload = obj end } ∷ []

dequeue_messages-take_example :
    let r =
      dequeue_messages
        (serving database)
        "d"
        (put_beside database "d" keep complain)
        (some (handler_beside database "d" keep complain))
        2
        (some 1)
        (waiting, 0) in
    (r.0, r.1.1) ≡ handle_all database "d" keep complain (take 1 waiting) 0
dequeue_messages-take_example =
    dequeue_messages-take database "d" keep complain 2 1 waiting 0 (omega arith)

abbrev rule_i : Option String
rule_i = some "tab.user_data.\"digitalTwinInstanceId\" = 'i'"

built : build_subscriber_rule database "d" (some "i") none none 0 ≡ (ok rule_i, 0)
unfolding build_subscriber_rule rule_instance add_condition
built = refl

-- A client that accepts every command, and counts them.
abbrev client : IotClient ℕ
client = record {
  get_iot_domain = λ d s. (raised (service_error 404 "NotAuthorizedOrNotFound" d), s);
  get_iot_domain_group = λ g s. (raised (service_error 404 "NotAuthorizedOrNotFound" g), s);
  invoke_raw_command = λ i c s. (ok (some 202), suc s);
}

abbrev prepared : ProtocolResponse
prepared = record {
  op = prepare_upload;
  id = "t1";
  response_data = end;
  status = 200;
  message = "Upload prepared";
}

send_response_lem_example :
    ((send_response client "device" "rsp" prepared 0).0 ≢ raised (service_error 404 "c" "m"))
    × (((send_response client "device" "rsp" prepared 0).0 ≢ ok true)
        ⊎ ((client.invoke_raw_command "device"
              (record {
                request_duration = "PT60M";
                request_endpoint = "rsp";
                request_data = to_payload prepared;
              })
              0).0
            ≡ ok (some 202)))
send_response_lem_example = send_response_lem client "device" "rsp" prepared 0 404 "c" "m"
