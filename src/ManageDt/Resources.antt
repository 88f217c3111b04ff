-- ===== src/ManageDt/Resources.antt =====
-- mdt_iot_oci.py: the model, the adapter and the instance of a digital twin, over the IoT client.
pub mod Deletion
pub mod Creation
use oci_iot_samples.Base.{
  ℕ, String, ◌<>◌, Bool, true, false, Option, none, some, List, [], ◌∷◌, given, eqb, if◌then◌else◌,
}
use oci_iot_samples.Base.Exec.{
  Exec, Exn, Outcome, ok, raised, pending, service_error, after, after_try, ◌>>=◌, ◌>>◌, pure,
  raise, try_then,
}
use oci_iot_samples.Base.Json.{set, Value, str, Fields}
use oci_iot_samples.ManageDt.DataAccess.{give_up, good}

-- CreateDigitalTwinModelDetails and its siblings, without the IoT domain, which is always the one.
pub record ModelDetails : Type 0 where
  pub display_name : String
  pub description : Option String
  pub spec : Fields

pub record AdapterDetails : Type 0 where
  pub display_name : String
  pub description : Option String
  pub digital_twin_model_spec_uri : String
  pub inbound_envelope : Option Fields
  pub inbound_routes : Option Fields

pub record InstanceDetails : Type 0 where
  pub display_name : String
  pub description : Option String
  pub digital_twin_adapter_id : Option String
  pub external_key : String
  pub auth_id : String

-- A response is its status and its data: the id of what was created, or the ids of the items of a
-- list. A list is of the active resources of a domain, with a spec URI that starts with a text or
-- with a display name. `Content` is what an instance's representation and content are.
pub record TwinClient (W Content : Type 0) : Type 0 where
  pub post_model : String → ModelDetails → Exec W (Option (ℕ × String))
  pub list_models : String → String → Exec W (Option (ℕ × List String))
  pub delete_model : String → Exec W (Option ℕ)
  pub post_adapter : String → AdapterDetails → Exec W (Option (ℕ × String))
  pub list_adapters : String → String → Exec W (Option (ℕ × List String))
  pub delete_adapter : String → Exec W (Option ℕ)
  pub post_instance : String → InstanceDetails → Exec W (Option (ℕ × String))
  pub list_instances : String → String → Exec W (Option (ℕ × List String))
  pub get_instance : String → Exec W (Option (ℕ × Content))
  pub get_content : String → Exec W (Option (ℕ × Content))
  pub delete_instance : String → Exec W (Option ℕ)

-- response and response.status == 204
unfoldable pub is_deleted : Option ℕ → Bool
is_deleted none = false
is_deleted (some status) = eqb status 204

-- The first of the items, and the only one.
abbrev pub first_of : List String → Option String
first_of [] = none
first_of (id ∷ ids) = some id

abbrev pub only_of : List String → Option String
only_of (id ∷ []) = some id
only_of _ = none

-- The item that a listing leads to, if its response is good and its items are enough.
unfoldable pub chosen : (List String → Option String) → Option (ℕ × List String) → Option String
chosen pick response = elim (good response) [ none ↦ none | some ids ↦ pick ids ]

module _ {W Content : Type 0} (client : TwinClient W Content) (iot_domain_id : String) where
  -- The data of a good response; a ServiceError gives None.
  abbrev pub data_of : {A : Type 0} → Exec W (Option (ℕ × A)) → Exec W (Option A)
  data_of call = try_then call give_up (λ response. pure (good response))

  -- except ServiceError: return False
  abbrev not_deleted : Exn → Exec W Bool
  not_deleted (service_error status service_code message) = pure false
  not_deleted e = raise e

  abbrev delete_with : (String → Exec W (Option ℕ)) → String → Exec W Bool
  delete_with delete id = try_then (delete id) not_deleted (λ response. pure (is_deleted response))

  abbrev delete_chosen : (String → Exec W (Option ℕ)) → Option String → Exec W Bool
  delete_chosen delete none = pure false
  delete_chosen delete (some id) = delete_with delete id

  unfoldable pub create_digital_twin_model : ModelDetails → Exec W (Option String)
  create_digital_twin_model details = data_of (client.post_model iot_domain_id details)

  unfoldable pub delete_digital_twin_model_by_spec_uri : String → Exec W Bool
  delete_digital_twin_model_by_spec_uri spec_uri = do
    response ← client.list_models iot_domain_id spec_uri
    delete_chosen client.delete_model (chosen first_of response)

  unfoldable pub create_digital_twin_adapter : AdapterDetails → Exec W (Option String)
  create_digital_twin_adapter details = data_of (client.post_adapter iot_domain_id details)

  unfoldable pub delete_digital_twin_adapter_by_name : String → Exec W Bool
  delete_digital_twin_adapter_by_name display_name = do
    response ← client.list_adapters iot_domain_id display_name
    delete_chosen client.delete_adapter (chosen only_of response)

  unfoldable pub create_digital_twin_instance : InstanceDetails → Exec W (Option String)
  create_digital_twin_instance details = data_of (client.post_instance iot_domain_id details)

  abbrev pub get_chosen : Option String → Exec W (Option Content)
  get_chosen none = pure none
  get_chosen (some id) = data_of (client.get_instance id)

  unfoldable pub get_digital_twin_instance_by_name : String → Exec W (Option Content)
  get_digital_twin_instance_by_name display_name = do
    response ← client.list_instances iot_domain_id display_name
    get_chosen (chosen only_of response)

  unfoldable pub get_digital_twin_instance_content : String → Exec W (Option Content)
  get_digital_twin_instance_content digital_twin_instance_id =
      data_of (client.get_content digital_twin_instance_id)

  unfoldable pub delete_digital_twin_instance_by_name : String → Exec W Bool
  delete_digital_twin_instance_by_name display_name = do
    response ← client.list_instances iot_domain_id display_name
    delete_chosen client.delete_instance (chosen first_of response)

-- The configuration of a twin, with every key that is read. The two file names of a custom adapter
-- come together.
pub record ModelConfig : Type 0 where
  pub model_dtdl : String
  pub model_name : String
  pub model_description : String
  pub adapter_name : String
  pub adapter_files : Option (String × String)

pub record TwinConfig : Type 0 where
  pub device_name : String
  pub external_key : String
  pub auth_id : String
  pub model : Option ModelConfig

-- `read_object` is the JSON object in a file of the data directory.
module _ {W Content : Type 0} (client : TwinClient W Content) (iot_domain_id : String)
    (read_object : String → Exec W Fields) (config : TwinConfig) where
  abbrev post_twin_instance : String → Option String → Exec W (Unit {0})
  post_twin_instance telemetry digital_twin_adapter_id = do
    _ocid ← create_digital_twin_instance client iot_domain_id (record {
      display_name = config.device_name;
      description = some (config.device_name <> (" - " <> telemetry));
      digital_twin_adapter_id = digital_twin_adapter_id;
      external_key = config.external_key;
      auth_id = config.auth_id;
    })
    pure tt

  -- if not ocid: return
  abbrev link_instance : String → Option String → Exec W (Unit {0})
  link_instance telemetry none = pure tt
  link_instance telemetry (some ocid) = post_twin_instance telemetry (some ocid)

  abbrev adapter_of : ModelConfig → Option Fields → Option Fields → AdapterDetails
  adapter_of m inbound_envelope inbound_routes = record {
    display_name = m.adapter_name;
    description = some ("Default Adapter for " <> m.model_name);
    digital_twin_model_spec_uri = m.model_name;
    inbound_envelope = inbound_envelope;
    inbound_routes = inbound_routes;
  }

  abbrev post_adapter_and_link : String → AdapterDetails → Exec W (Unit {0})
  post_adapter_and_link telemetry details = do
    ocid ← create_digital_twin_adapter client iot_domain_id details
    link_instance telemetry (given ocid)

  unfoldable pub adapt : ModelConfig → Option (String × String) → Exec W (Unit {0})
  adapt m none =
      post_adapter_and_link "Structured Telemetry with default Adapter" (adapter_of m none none)
  adapt m (some (adapter_envelope, adapter_routes)) = do
    inbound_envelope ← read_object adapter_envelope
    inbound_routes ← read_object adapter_routes
    post_adapter_and_link "Structured Telemetry with custom Adapter"
        (adapter_of m (some inbound_envelope) (some inbound_routes))

  abbrev adapt_model : ModelConfig → Option String → Exec W (Unit {0})
  adapt_model m none = pure tt
  adapt_model m (some ocid) = adapt m m.adapter_files

  unfoldable pub create_structured : ModelConfig → Exec W (Unit {0})
  create_structured m = do
    spec_dtdl ← read_object m.model_dtdl
    ocid ← create_digital_twin_model client iot_domain_id (record {
      display_name = m.model_name;
      description = some m.model_description;
      spec = set "@id" (str m.model_name) spec_dtdl;
    })
    adapt_model m (given ocid)

  unfoldable pub create_digital_twin : Exec W (Unit {0})
  create_digital_twin = elim config.model [
    | none ↦ post_twin_instance "Unstructured Telemetry" none
    | some m ↦ create_structured m
  ]

  abbrev delete_structured : Option ModelConfig → Exec W (Unit {0})
  delete_structured none = pure tt
  delete_structured (some m) = do
    _adapter ← delete_digital_twin_adapter_by_name client iot_domain_id m.adapter_name
    _model ← delete_digital_twin_model_by_spec_uri client iot_domain_id m.model_name
    pure tt

  unfoldable pub delete_digital_twin : Exec W (Unit {0})
  delete_digital_twin = do
    _instance ← delete_digital_twin_instance_by_name client iot_domain_id config.device_name
    delete_structured config.model
