-- ===== src/FileAgent/Processor.antt =====
-- processor.py: `MessageProcessor` and `command_worker`, over what __init__ is given: a PAR
-- service, the configured commands, a responder and a command runner, which act on a world `W`.
pub mod Observed
pub mod Protocol
pub mod Queue
use oci_iot_samples.Base.{
  ℕ, zero, suc, ◌-◌, String, Bool, true, false, Option, none, some, List, [], ◌∷◌, ◌++◌, truthy,
  contains, lookup, if◌then◌else◌, eqb,
}
use oci_iot_samples.Base.Exec.{
  Exec, Exn, ok, raised, pending, after, after_try, ◌>>=◌, ◌>>◌, pure, lift, try_then, key_error,
  raise,
}
use oci_iot_samples.Base.Json.{ℤ, pos, negsuc, Value, str, Fields, end, field}
use oci_iot_samples.FileAgent.Models.{
  Operation, prepare_upload, complete_upload, InboundMessage, ProtocolRequest, ProtocolResponse,
  ParRequestData, UploadRequestData, par_request_data, upload_request_data,
}

-- `run` gives the attribute `returncode` of its result, if there is one. `dump_json` is pydantic's
-- `model_dump_json(by_alias=True)`, and `lax_int` its reading of integers.
pub record Env (W : Type 0) : Type 0 where
  pub stage_upload : String → String → ℕ → Exec W String
  pub complete_upload : String → String → Exec W Bool
  pub responder : InboundMessage → ProtocolResponse → Exec W (Unit {0})
  pub run : List String → Exec W (Option ℤ)
  pub commands : List (String × String)
  pub dump_json : InboundMessage → String
  pub lax_int : Value → Option ℤ

pub record CommandWorkItem : Type 0 where
  pub message : InboundMessage
  pub upload_data : UploadRequestData

-- What stands in the command queue: a work item, or STOP_WORKER.
pub data Queued : Type 0 where
  item : CommandWorkItem → Queued
  stop_worker : Queued

-- `not command`: there is none, or it is empty.
abbrev pub command_of : UploadRequestData → Option String
command_of d = elim d.command [ none ↦ none | some c ↦ if truthy c then some c else none ]

-- getattr(result, "returncode", 1) == 0
unfoldable pub succeeded : Option ℤ → Bool
succeeded (some (pos zero)) = true
succeeded _ = false

module _ {W : Type 0} (env : Env W) where
  -- _send
  unfoldable pub send : InboundMessage → ℕ → String → Fields → Exec W (Unit {0})
  send message status text fields = env.responder message (record {
    op = message.request.op;
    id = message.request.id;
    response_data = fields;
    status = status;
    message = text;
  })

  unfoldable pub report : InboundMessage → Option ℤ → Exec W (Unit {0})
  unfolding send
  report message code =
      if succeeded code
      then send message 200 "Process completed" end
      else send message 500 "Process failed" end

  -- The name has been found among the commands, with this program.
  unfoldable pub run_program : InboundMessage → String → Exec W (Unit {0})
  unfolding send
  run_program message program = do
    send message 201 "Process started" end
    try_then (env.run (program ∷ env.dump_json message ∷ []))
        (λ e. send message 500 "Process failed" end) (report message)

  invalid_command : InboundMessage → Exec W (Unit {0})
  unfolding send
  invalid_command message = send message 422 "Invalid command" end

  run_found : InboundMessage → Option String → Exec W (Unit {0})
  unfolding invalid_command run_program
  run_found message none = invalid_command message
  run_found message (some program) = run_program message program

  unfoldable pub run_command : InboundMessage → UploadRequestData → Exec W (Unit {0})
  unfolding invalid_command run_found
  run_command message upload_data = elim (command_of upload_data) [
    | none ↦ invalid_command message
    | some command ↦ run_found message (lookup command env.commands)
  ]

  -- _handle_prepare_upload
  unfoldable pub handle_prepare_upload : InboundMessage → Exec W (Unit {0})
  unfolding send
  handle_prepare_upload message = elim (par_request_data env.lax_int message.request.request_data) [
    | none ↦ send message 400 "Bad request" end
    | some request ↦
        try_then (env.stage_upload message.digital_twin_instance_id message.request.id request.ttl)
          (λ e. send message 500 "Upload preparation failed" end)
          (λ url. send message 200 "Upload prepared" (field "upload_url" (str url) end))
  ]

  -- With no queue the command runs at once.
  dispatch : Option (CommandWorkItem → Exec W (Unit {0})) → CommandWorkItem → Exec W (Unit {0})
  unfolding run_command
  dispatch none work = run_command work.message work.upload_data
  dispatch (some put) work = put work

  -- The upload's PAR was deleted, and the request names this command.
  unfoldable pub start_command :
      Option (CommandWorkItem → Exec W (Unit {0}))
      → InboundMessage
      → UploadRequestData
      → String
      → Exec W (Unit {0})
  unfolding send dispatch invalid_command
  start_command command_queue message upload_data command = elim (lookup command env.commands) [
    | none ↦ invalid_command message
    | some program ↦ do
      send message 202 "Process queued" end
      dispatch command_queue (record { message = message; upload_data = upload_data })
  ]

  unfoldable pub after_deletion :
      Option (CommandWorkItem → Exec W (Unit {0}))
      → InboundMessage
      → UploadRequestData
      → Bool
      → Exec W (Unit {0})
  unfolding send start_command
  after_deletion command_queue message upload_data false = send message 422 "No prepared upload" end
  after_deletion command_queue message upload_data true = elim (command_of upload_data) [
    | none ↦ send message 200 "Process completed" end
    | some command ↦ start_command command_queue message upload_data command
  ]

  -- _handle_complete_upload
  unfoldable pub handle_complete_upload :
      InboundMessage → Option (CommandWorkItem → Exec W (Unit {0})) → Exec W (Unit {0})
  unfolding send after_deletion
  handle_complete_upload message command_queue =
      elim (upload_request_data message.request.request_data) [
        | none ↦ send message 400 "Bad request" end
        | some upload_data ↦
            try_then (env.complete_upload message.digital_twin_instance_id message.request.id)
              (λ e. send message 500 "PAR deletion failed" end)
              (after_deletion command_queue message upload_data)
      ]

  unfoldable pub handle_message :
      InboundMessage → Option (CommandWorkItem → Exec W (Unit {0})) → Exec W (Unit {0})
  unfolding handle_prepare_upload handle_complete_upload
  handle_message message command_queue = elim message.request.op [
    | prepare_upload ↦ handle_prepare_upload message
    | complete_upload ↦ handle_complete_upload message command_queue
  ]

  -- command_worker, over what its queue will give it and the queue's count of unfinished tasks. An
  -- item is done when it has run or raised; past the last item the worker waits for ever.
  unfoldable pub command_worker : List Queued → Exec (W × ℕ) (Unit {0})
  unfolding run_command
  command_worker [] = lift pending
  command_worker (stop_worker ∷ rest) = λ (w, n). (ok tt, (w, n - 1))
  command_worker (item work ∷ rest) = λ (w, n).
      let r = run_command work.message work.upload_data w in
      after r.0 (r.1, n - 1) (λ _. command_worker rest)
