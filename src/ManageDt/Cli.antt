-- ===== src/ManageDt/Cli.antt =====
-- cli.py: the configuration of the twins, and the commands on one of them. What a command calls of
-- mdt_iot_oci.py, and what reads a file, are parameters; so are the options of click.
pub mod Substituted
pub mod Known
use oci_iot_samples.Base.{
  ℕ, String, ◌<>◌, Bool, true, false, not, Option, none, some, List, [], ◌∷◌, contains,
  if◌then◌else◌,
}
use oci_iot_samples.Base.Exec.{
  Exec, Outcome, ok, raised, pending, key_error, other_error, Exn, after, ◌>>=◌, ◌>>◌, pure, raise,
  lift,
}
use oci_iot_samples.Base.Outcomes
use oci_iot_samples.Base.Json.{Value, str, obj, Fields, field, end, get, set, as_fields}
use oci_iot_samples.ManageDt.Templates.{safe_substitute}

-- list(d.keys())
unfoldable pub keys : Fields → List String
keys end = []
keys (field k v fs) = k ∷ keys fs

-- config[key]
unfoldable pub config_item : String → Value → Outcome Value
unfolding get as_fields
config_item key config = elim (as_fields config) [
  | none ↦ raised (other_error "TypeError")
  | some fs ↦ elim (get key fs) [ none ↦ raised (key_error key) | some v ↦ ok v ]
]

-- What has `items`, `values` or `keys`.
abbrev pub mapping : Value → Outcome Fields
mapping (obj fs) = ok fs
mapping _ = raised (other_error "AttributeError")

module _ (text_of : Value → String) (environ : Value) where
  abbrev pub text_in : Value → Outcome String
  text_in (str s) = safe_substitute text_of environ s
  text_in _ = raised (other_error "TypeError")

  -- The loop over the items of a twin.
  unfoldable pub substitute_items : Fields → Outcome Fields
  unfolding safe_substitute
  substitute_items end = ok end
  substitute_items (field key value rest) =
      Outcomes.◌>>=◌ (text_in value) (λ text.
        Outcomes.◌>>=◌ (substitute_items rest) (λ others. ok (field key (str text) others)))

  -- The loop over the twins.
  unfoldable pub substitute_twins : Fields → Outcome Fields
  unfolding substitute_items
  substitute_twins end = ok end
  substitute_twins (field name twin rest) = Outcomes.◌>>=◌ (mapping twin) (λ items.
      Outcomes.◌>>=◌ (substitute_items items) (λ substituted.
        Outcomes.◌>>=◌ (substitute_twins rest)
          (λ others. ok (field name (obj substituted) others))))

-- The configuration with its twins replaced
abbrev pub with_twins : Value → Fields → Value
with_twins (obj fs) substituted = obj (set "digital_twins" (obj substituted) fs)
with_twins config substituted = config

-- load_config, of the decoded YAML
unfoldable pub load_config : (Value → String) → Value → Outcome Value
unfolding substitute_twins config_item set as_fields
load_config text_of config = Outcomes.◌>>=◌ (config_item "environ" config) (λ environ.
    Outcomes.◌>>=◌ (config_item "digital_twins" config) (λ twins.
      Outcomes.◌>>=◌ (mapping twins) (λ fs.
        Outcomes.◌>>=◌ (substitute_twins text_of environ fs)
          (λ substituted. ok (with_twins config substituted)))))

-- click.BadParameter
abbrev pub bad_parameter : String → Exn
bad_parameter message = other_error ("BadParameter: " <> message)

-- `shown` is `str` of a list of texts.
unfoldable pub validate_digital_twin : (List String → String) → Value → String → Outcome String
unfolding config_item keys contains
validate_digital_twin shown iot_config value =
    Outcomes.◌>>=◌ (config_item "digital_twins" iot_config) (λ twins.
      Outcomes.◌>>=◌ (mapping twins) (λ fs.
        if contains value (keys fs)
        then ok value
        else raised (bad_parameter ("must be one of: " <> shown (keys fs)))))

-- The files, the SDK's configuration and the functions of mdt_iot_oci.py, which take a twin and the configuration.
pub record Tools (W : Type 0) : Type 0 where
  pub is_file : String → Exec W Bool
  pub is_readable : String → Exec W Bool
  pub read_yaml : String → Exec W Value
  pub get_oci_config : Exec W (Unit {0})
  pub create_digital_twin : String → Value → Exec W (Unit {0})
  pub query_digital_twin : ℕ → String → Value → Exec W (Unit {0})
  pub delete_digital_twin : String → Value → Exec W (Unit {0})
  pub text_of : Value → String
  pub shown : List String → String

pub data Command : Type 0 where
  create : Command
  query : ℕ → Command
  delete : Command

module _ {W : Type 0} (tools : Tools W) where
  abbrev require_file : String → String → Bool → Exec W (Unit {0})
  require_file iot_config_file problem true = pure tt
  require_file iot_config_file problem false =
      raise (bad_parameter ("File '" <> (iot_config_file <> ("' " <> problem))))

  -- The group `cli`, with the configuration that it keeps
  unfoldable pub cli : String → Exec W Value
  unfolding load_config
  cli iot_config_file = do
    there ← tools.is_file iot_config_file
    require_file iot_config_file "does not exist." there
    readable ← tools.is_readable iot_config_file
    require_file iot_config_file "is not readable." readable
    config ← tools.read_yaml iot_config_file
    iot_config ← lift (load_config tools.text_of config)
    tools.get_oci_config
    pure iot_config

  abbrev pub run_command : Command → String → Value → Exec W (Unit {0})
  run_command create twin iot_config = tools.create_digital_twin twin iot_config
  run_command (query last_minutes) twin iot_config =
      tools.query_digital_twin last_minutes twin iot_config
  run_command delete twin iot_config = tools.delete_digital_twin twin iot_config

  -- A command, with its argument's callback
  unfoldable pub main : String → Command → String → Exec W (Unit {0})
  unfolding validate_digital_twin
  main iot_config_file command digital_twin = do
    iot_config ← cli iot_config_file
    twin ← lift (validate_digital_twin tools.shown iot_config digital_twin)
    run_command command twin iot_config
