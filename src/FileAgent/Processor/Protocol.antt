-- ===== src/FileAgent/Processor/Protocol.antt =====
-- The responses to one message, when its command runs at once.
use oci_iot_samples.Base.{
  ℕ, String, ◌≡◌, ◌≢◌, ◌⊎◌, inl, inr, Bool, true, false, Option, none, some, List, [], ◌∷◌, lookup,
  arith,
}
use oci_iot_samples.Base.Json.{num, pos}
use oci_iot_samples.FileAgent.DeviceDemo.{is_terminal}
use oci_iot_samples.Base.Options.{◌>>=◌, Option-cases}
use oci_iot_samples.Base.Exec.{ok, pending}
use oci_iot_samples.FileAgent.Models.{
  complete_upload, InboundMessage, ProtocolResponse, upload_request_data,
}
use oci_iot_samples.FileAgent.Processor.{
  Env, handle_message, handle_prepare_upload, handle_complete_upload, command_of, report,
}
use oci_iot_samples.FileAgent.Processor.Observed.{observed, start, codes, runs}

-- The device's test of a response code.
unfoldable pub is_terminal_code : ℕ → Bool
unfolding is_terminal
is_terminal_code c = is_terminal (num (pos c))

-- The last code is terminal for the device, and no earlier one is.
abbrev pub OneTerminal : List ℕ → Type 0
OneTerminal [] = ⊥
OneTerminal (c ∷ []) = is_terminal_code c ≡ true
OneTerminal (c ∷ d ∷ cs) = (is_terminal_code c ≡ false) × OneTerminal (d ∷ cs)

module _ {W : Type 0} (env : Env W)
    (responds : (m : InboundMessage) (r : ProtocolResponse) (s : W)
      → (env.responder m r s).0 ≡ ok tt)
    (staging_ends : (d t : String) (ttl : ℕ) (s : W) → (env.stage_upload d t ttl s).0 ≢ pending)
    (completion_ends : (d t : String) (s : W) → (env.complete_upload d t s).0 ≢ pending)
    (runs_end : (args : List String) (s : W) → (env.run args s).0 ≢ pending) where
  prepare_answers :
      (m : InboundMessage) (w : W)
      → ((handle_prepare_upload (observed env) m (start w)).0 ≡ ok tt)
        × OneTerminal (codes (handle_prepare_upload (observed env) m (start w)).1.trace)
  unfolding handle_prepare_upload is_terminal_code
  prepare_answers m w = grind (arith, responds, staging_ends)

  -- The complete-upload branch.
  complete_answers :
      (m : InboundMessage) (w : W)
      → ((handle_complete_upload (observed env) m none (start w)).0 ≡ ok tt)
        × OneTerminal (codes (handle_complete_upload (observed env) m none (start w)).1.trace)
  unfolding handle_complete_upload report is_terminal_code
  complete_answers m w = grind (arith, responds, completion_ends, runs_end)

  -- Every message is answered, when the responder returns, and staging, completion and commands
  -- end (they may raise): the handler, whose command runs at once, returns, the last response code
  -- is one that the device takes for terminal, and no earlier one is.
  pub handle_message-answers :
      (m : InboundMessage) (w : W)
      → ((handle_message (observed env) m none (start w)).0 ≡ ok tt)
        × OneTerminal (codes (handle_message (observed env) m none (start w)).1.trace)
  unfolding handle_message
  handle_message-answers m w = ground (arith, prepare_answers m w, complete_answers m w)

-- The program that a message asks for: its payload is valid, and names a configured command.
pub program_for : {W : Type 0} → Env W → InboundMessage → Option String
program_for env m = do
  upload_data ← upload_request_data m.request.request_data
  command ← command_of upload_data
  lookup command env.commands

module _ {W : Type 0} (env : Env W) (m : InboundMessage) (w : W) where
  abbrev commands_run : List (List String)
  commands_run = runs (handle_message (observed env) m none (start w)).1.trace

  -- A command run needs a complete-upload message and a PAR that the service has deleted.
  abbrev Permitted : String → Type 0
  Permitted program =
      (m.request.op ≡ complete_upload)
      × ((env.complete_upload m.digital_twin_instance_id m.request.id w).0 ≡ ok true)
      × (commands_run ≡ (program ∷ env.dump_json m ∷ []) ∷ [])

  runs_nothing : program_for env m ≡ none → commands_run ≡ []
  unfolding handle_message report program_for
  runs_nothing h = grind arith

  runs_program :
      (program : String)
      → program_for env m ≡ some program
      → (commands_run ≡ []) ⊎ Permitted program
  unfolding handle_message report program_for
  runs_program program h = grind arith

  -- A message whose command runs at once runs no command, or just one: then it is a
  -- complete-upload message with a valid payload that names a configured command, the service's
  -- completion of the upload answered True, and the configured program was run with the message as
  -- its one argument.
  pub handle_message-runs :
      (commands_run ≡ [])
      ⊎ ((program : String) × (program_for env m ≡ some program) × Permitted program)
  handle_message-runs = elim (Option-cases (program_for env m)) [
    | inl e ↦ inl (runs_nothing e)
    | inr (program, e) ↦ elim (runs_program program e) [
      | inl none_run ↦ inl none_run
      | inr p ↦ inr (program, e, p)
    ]
  ]
