-- ===== src/FileAgent/Cli.antt =====
-- cli.py: the subscribe and unsubscribe commands, and what monitor gives to the dequeue loop and
-- the processor.
pub mod Janitor
use oci_iot_samples.Base.{String, ◌<>◌, Option, upper}
use oci_iot_samples.Base.Exec.{Exec, ◌>>=◌, pure, try_finally}
use oci_iot_samples.Base.Json.{num, pos, str, end, field}
use oci_iot_samples.FileAgent.Models.{InboundMessage, ProtocolResponse}
use oci_iot_samples.FileAgent.Database.{
  Database, build_subscriber_rule, add_subscriber, remove_subscriber,
}
use oci_iot_samples.FileAgent.Clients.{
  IotClient, IotDomainContext, derive_iot_domain_context, send_response, send_payload,
}

-- What the commands read of the configuration.
pub record IotSettings : Type 0 where
  pub domain_id : String
  pub instance_id : Option String
  pub display_name : Option String
  pub content_path : Option String
  pub subscriber_name : String
  pub response_endpoint : String

-- The connections of iot_db.py: `connect` gives one for a domain, and `disconnect` closes it.
pub record Backend (W : Type 0) : Type 0 where
  pub client : IotClient W
  pub connect : IotDomainContext → Exec W (Database W)
  pub disconnect : Exec W (Unit {0})

unfoldable pub queue_name : IotDomainContext → String
unfolding upper
queue_name domain_context = upper (domain_context.domain_short_id <> "__iot.normalized_data")

module _ {W : Type 0} (backend : Backend W) (iot : IotSettings) where
  -- try: the use of the connection; finally: db_disconnect
  abbrev with_connection : (IotDomainContext → Database W → Exec W (Unit {0})) → Exec W (Unit {0})
  with_connection use_ = do
    domain_context ← derive_iot_domain_context backend.client iot.domain_id
    db ← backend.connect domain_context
    try_finally (use_ domain_context db) backend.disconnect

  abbrev register : IotDomainContext → Database W → Exec W (Unit {0})
  register domain_context db = do
    rule ←
        build_subscriber_rule db domain_context.domain_short_id iot.instance_id iot.display_name
          iot.content_path
    add_subscriber db domain_context.domain_short_id (queue_name domain_context) iot.subscriber_name
        rule

  unfoldable pub subscribe : Exec W (Unit {0})
  subscribe = with_connection register

  unfoldable pub unsubscribe : Exec W (Unit {0})
  unsubscribe = with_connection λ domain_context db.
      remove_subscriber db domain_context.domain_short_id (queue_name domain_context)
        iot.subscriber_name

  -- The responder and the handler of invalid messages that monitor makes.
  unfoldable pub responder : InboundMessage → ProtocolResponse → Exec W (Unit {0})
  responder message response = do
    _sent ←
        send_response backend.client message.digital_twin_instance_id iot.response_endpoint response
    pure tt

  unfoldable pub invalid_message_handler : String → Exec W (Unit {0})
  invalid_message_handler digital_twin_instance_id = do
    _sent ←
        send_payload backend.client digital_twin_instance_id iot.response_endpoint
          (field "code" (num (pos 400)) (field "message" (str "Bad request") end))
    pure tt
