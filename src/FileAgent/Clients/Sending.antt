-- ===== src/FileAgent/Clients/Sending.antt =====
-- What a sender of responses raises.
use oci_iot_samples.Base.{ℕ, String, ◌≡◌, ◌≢◌, ◌⊎◌, true, some, arith}
use oci_iot_samples.Base.Exec.{ok, raised, service_error}
use oci_iot_samples.FileAgent.Models.{ProtocolResponse, to_payload}
use oci_iot_samples.FileAgent.Clients.{IotClient, send_payload, send_response}

-- Sending a response never raises a ServiceError. And either it does not answer True, or the
-- client answered 202 to a raw command for that instance and endpoint that carries the response's
-- payload.
pub send_response_lem :
    {W : Type 0} (client : IotClient W) (instance_id endpoint : String)
    (response : ProtocolResponse) (w : W) (status : ℕ) (service_code text : String)
    → ((send_response client instance_id endpoint response w).0
        ≢ raised (service_error status service_code text))
      × (((send_response client instance_id endpoint response w).0 ≢ ok true)
          ⊎ ((client.invoke_raw_command instance_id
                (record {
                  request_duration = "PT60M";
                  request_endpoint = endpoint;
                  request_data = to_payload response;
                })
                w).0
              ≡ ok (some 202)))
unfolding send_response send_payload
send_response_lem client instance_id endpoint response w status service_code text =
    (ground arith, grind arith)
