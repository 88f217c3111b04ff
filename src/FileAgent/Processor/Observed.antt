-- ===== src/FileAgent/Processor/Observed.antt =====
-- An environment that keeps a trace of the calls that are made to it, and that otherwise behaves as
-- the one it wraps.
use oci_iot_samples.Base.{ℕ, String, List, [], ◌∷◌, ◌++◌}
use oci_iot_samples.Base.Exec.{Exec}
use oci_iot_samples.FileAgent.Models.{InboundMessage, ProtocolResponse}
use oci_iot_samples.FileAgent.Processor.{Env}

pub data Event : Type 0 where
  staged : String → String → ℕ → Event
  completed : String → String → Event
  sent : InboundMessage → ProtocolResponse → Event
  ran : List String → Event

pub record Observed (W : Type 0) : Type 0 where
  pub world : W
  pub trace : List Event

module _ {W : Type 0} where
  abbrev note : {A : Type 0} → Event → Exec W A → Exec (Observed W) A
  note e m s = let r = m s.world in (r.0, record { world = r.1; trace = s.trace ++ (e ∷ []) })

  abbrev pub observed : Env W → Env (Observed W)
  observed env = record {
    stage_upload = λ d t ttl. note (staged d t ttl) (env.stage_upload d t ttl);
    complete_upload = λ d t. note (completed d t) (env.complete_upload d t);
    responder = λ m r. note (sent m r) (env.responder m r);
    run = λ args. note (ran args) (env.run args);
    commands = env.commands;
    dump_json = env.dump_json;
    lax_int = env.lax_int;
  }

  abbrev pub start : W → Observed W
  start w = record { world = w; trace = [] }

-- The codes of the responses of a trace, and the commands that it ran.
abbrev pub codes : List Event → List ℕ
codes [] = []
codes (sent m r ∷ es) = r.status ∷ codes es
codes (_ ∷ es) = codes es

abbrev pub runs : List Event → List (List String)
runs [] = []
runs (ran args ∷ es) = args ∷ runs es
runs (_ ∷ es) = runs es
