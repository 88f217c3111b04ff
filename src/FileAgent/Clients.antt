-- ===== src/FileAgent/Clients.antt =====
-- iot_context.py and iot_raw.py: what the agent asks of the IoT client.
pub mod Sending
use oci_iot_samples.Base.{
  ℕ, String, ◌<>◌, Bool, true, false, Option, none, some, truthy, before, eqb, if◌then◌else◌,
}
use oci_iot_samples.Base.Exec.{
  Exec, Exn, Outcome, ok, raised, pending, value_error, service_error, after, after_try, ◌>>=◌,
  pure, raise, lift, try_then,
}
use oci_iot_samples.Base.Json.{Fields}
use oci_iot_samples.FileAgent.Models.{ProtocolResponse, to_payload}

pub record IotDomainContext : Type 0 where
  pub domain_short_id : String
  pub db_connection_string : String
  pub db_token_scope : String

pub record DomainResource : Type 0 where
  pub device_host : Option String
  pub iot_domain_group_id : Option String

pub record DomainGroupResource : Type 0 where
  pub db_connection_string : Option String
  pub db_token_scope : Option String

-- InvokeRawJsonCommandDetails
pub record RawCommand : Type 0 where
  pub request_duration : String
  pub request_endpoint : String
  pub request_data : Fields

-- The IoT client; a raw command is answered by a status, if there is an answer.
pub record IotClient (W : Type 0) : Type 0 where
  pub get_iot_domain : String → Exec W DomainResource
  pub get_iot_domain_group : String → Exec W DomainGroupResource
  pub invoke_raw_command : String → RawCommand → Exec W (Option ℕ)

-- _required_attr, of the value of an attribute
unfoldable pub required_attr : Option String → String → Outcome String
required_attr none attr_name =
    raised (value_error ("Missing " <> (attr_name <> " in OCI IoT response")))
required_attr (some value) attr_name =
    if truthy value
    then ok value
    else raised (value_error ("Missing " <> (attr_name <> " in OCI IoT response")))

module _ {W : Type 0} (client : IotClient W) where
  unfoldable pub derive_iot_domain_context : String → Exec W IotDomainContext
  unfolding required_attr before
  derive_iot_domain_context iot_domain_id = do
    domain ← client.get_iot_domain iot_domain_id
    device_host ← lift (required_attr domain.device_host "device_host")
    domain_group_id ← lift (required_attr domain.iot_domain_group_id "iot_domain_group_id")
    domain_group ← client.get_iot_domain_group domain_group_id
    db_connection_string ←
        lift (required_attr domain_group.db_connection_string "db_connection_string")
    db_token_scope ← lift (required_attr domain_group.db_token_scope "db_token_scope")
    pure (record {
      domain_short_id = before b'.' device_host;
      db_connection_string = db_connection_string;
      db_token_scope = db_token_scope;
    })

  abbrev raw_command : String → Fields → RawCommand
  raw_command endpoint payload = record {
    request_duration = "PT60M";
    request_endpoint = endpoint;
    request_data = payload;
  }

  -- result and result.status == 202
  abbrev pub is_accepted : Option ℕ → Bool
  is_accepted none = false
  is_accepted (some status) = eqb status 202

  -- except ServiceError: return False
  abbrev not_sent : Exn → Exec W Bool
  not_sent (service_error status service_code message) = pure false
  not_sent e = raise e

  unfoldable pub send_payload : String → String → Fields → Exec W Bool
  send_payload digital_twin_instance_id endpoint payload =
      try_then (client.invoke_raw_command digital_twin_instance_id (raw_command endpoint payload))
        not_sent λ result. pure (is_accepted result)

  unfoldable pub send_response : String → String → ProtocolResponse → Exec W Bool
  send_response digital_twin_instance_id endpoint response =
      send_payload digital_twin_instance_id endpoint (to_payload response)
