-- ===== src/ManageDt/Resources/Creation.antt =====
-- The order in which the resources of a twin are created, and what links them.
use oci_iot_samples.Base.{
  ℕ, String, ◌≡◌, ◌≢◌, sym, refl, Option, none, some, List, [], ◌∷◌, ◌++◌, arith, given,
}
use oci_iot_samples.Base.Exec.{Exec, Outcome, ok, raised, pending, after, ◌>>=◌}
use oci_iot_samples.Base.Json.{Fields}
use oci_iot_samples.ManageDt.DataAccess.{good}
use oci_iot_samples.ManageDt.Resources.{
  TwinClient, TwinConfig, ModelConfig, ModelDetails, AdapterDetails, create_digital_twin,
  create_structured, adapt, link_instance, post_twin_instance, post_adapter_and_link, adapt_model,
  create_digital_twin_model, create_digital_twin_adapter, create_digital_twin_instance,
}

-- A request for a resource, with what came of it. Of an instance, the adapter that it is linked to.
pub data Made : Type 0 where
  model_made : Outcome (Option (ℕ × String)) → Made
  adapter_made : String → Outcome (Option (ℕ × String)) → Made
  instance_made : Option String → Made

-- A world with the requests so far, in order.
abbrev pub Traced : Type 0 → Type 0
Traced W = W × List Made

module _ {W : Type 0} where
  abbrev untraced : {A : Type 0} → Exec W A → Exec (Traced W) A
  untraced m (w, trace) = let r = m w in (r.0, (r.1, trace))

  abbrev traced : {A : Type 0} → (Outcome A → Made) → Exec W A → Exec (Traced W) A
  traced made m (w, trace) = let r = m w in (r.0, (r.1, trace ++ (made r.0 ∷ [])))

  -- The client, with its creations traced.
  abbrev pub tracing : {Content : Type 0} → TwinClient W Content → TwinClient (Traced W) Content
  tracing client = record {
    post_model = λ d details. traced model_made (client.post_model d details);
    list_models = λ d uri. untraced (client.list_models d uri);
    delete_model = λ id. untraced (client.delete_model id);
    post_adapter = λ d details.
        traced (adapter_made details.digital_twin_model_spec_uri) (client.post_adapter d details);
    list_adapters = λ d name. untraced (client.list_adapters d name);
    delete_adapter = λ id. untraced (client.delete_adapter id);
    post_instance = λ d details.
        traced (λ _. instance_made details.digital_twin_adapter_id)
          (client.post_instance d details);
    list_instances = λ d name. untraced (client.list_instances d name);
    get_instance = λ id. untraced (client.get_instance id);
    get_content = λ id. untraced (client.get_content id);
    delete_instance = λ id. untraced (client.delete_instance id);
  }

  abbrev pub reading : (String → Exec W Fields) → String → Exec (Traced W) Fields
  reading read_object name = untraced (read_object name)

-- The id of what was created.
abbrev pub created_id : Outcome (Option (ℕ × String)) → Option String
created_id (ok response) = given (good response)
created_id _ = none

-- Model, adapter, instance: each is asked for only after the one before was created, the adapter is of
-- the model's URI, and the instance is linked to the adapter that was created. Without a model
-- there is one request, for an instance with no adapter.
abbrev pub Linked : Option ModelConfig → List Made → Type 0
Linked none (instance_made adapter ∷ []) = adapter ≡ none
Linked (some m) [] = Unit
Linked (some m) (model_made r ∷ []) = Unit
Linked (some m) (model_made r ∷ adapter_made uri s ∷ []) =
    (created_id r ≢ none) × (uri ≡ m.model_name) × (created_id s ≡ none)
Linked (some m) (model_made r ∷ adapter_made uri s ∷ instance_made adapter ∷ []) =
    (created_id r ≢ none) × (uri ≡ m.model_name) × (created_id s ≢ none) × (adapter ≡ created_id s)
Linked _ _ = ⊥

module _ {W Content : Type 0} (client : TwinClient W Content) (domain : String)
    (read_object : String → Exec W Fields) (config : TwinConfig) where
  abbrev pub requests : W → List Made
  requests w =
      (create_digital_twin (tracing client) domain (reading read_object) config (w, [])).1.1

  -- A section's client, traced, in the functions of the creation.
  abbrev asked_instance : String → Option String → Exec (Traced W) (Unit {0})
  asked_instance = post_twin_instance (tracing client) domain (reading read_object) config

  abbrev asked_link : String → Option String → Exec (Traced W) (Unit {0})
  asked_link = link_instance (tracing client) domain (reading read_object) config

  abbrev asked_adapter : String → AdapterDetails → Exec (Traced W) (Unit {0})
  asked_adapter = post_adapter_and_link (tracing client) domain (reading read_object) config

  asked_instance-trace :
      (telemetry : String) (adapter : Option String) (w : W) (trace : List Made)
      → (asked_instance telemetry adapter (w, trace)).1.1 ≡ trace ++ (instance_made adapter ∷ [])
  unfolding create_digital_twin_instance
  asked_instance-trace telemetry adapter w trace = ground arith

  link-Linked :
      (m : ModelConfig) (r s : Outcome (Option (ℕ × String))) (telemetry : String)
      (ocid : Option String) (w : W)
      → created_id r ≢ none
      → created_id s ≡ ocid
      → Linked
          (some m)
          (asked_link telemetry ocid (w, model_made r ∷ adapter_made m.model_name s ∷ [])).1.1
  link-Linked m r s telemetry none w h e = (h, refl, e)
  link-Linked m r s telemetry (some id) w h e =
      rw
        (asked_instance-trace telemetry (some id) w
          (model_made r ∷ adapter_made m.model_name s ∷ []))
        (h, refl, (λ n. cc), sym e)

  adapter-Linked :
      (m : ModelConfig) (r s : Outcome (Option (ℕ × String))) (telemetry : String)
      (details : AdapterDetails) (w w' : W)
      → created_id r ≢ none
      → details.digital_twin_model_spec_uri ≡ m.model_name
      → client.post_adapter domain details w ≡ (s, w')
      → Linked (some m) (asked_adapter telemetry details (w, model_made r ∷ [])).1.1
  unfolding create_digital_twin_adapter
  adapter-Linked m r (ok response) telemetry details w w' h uri e =
      rw (e, uri) (link-Linked m r (ok response) telemetry (given (good response)) w' h refl)
  adapter-Linked m r (raised x) telemetry details w w' h uri e = rw (e, uri) (ground (arith, h))
  adapter-Linked m r pending telemetry details w w' h uri e = rw (e, uri) (h, refl, refl)

  -- What comes after a file is read, if it is read.
  read-Linked :
      (m : ModelConfig) (trace : List Made) (f : Fields → Exec (Traced W) (Unit {0}))
      (o : Outcome Fields) (w : W)
      → Linked (some m) trace
      → ((object : Fields) → Linked (some m) (f object (w, trace)).1.1)
      → Linked (some m) (after o (w, trace) f).1.1
  read-Linked m trace f (ok object) w h k = k object
  read-Linked m trace f (raised e) w h k = h
  read-Linked m trace f pending w h k = h

  posted-Linked :
      (m : ModelConfig) (r : Outcome (Option (ℕ × String))) (telemetry : String)
      (details : AdapterDetails) (w : W)
      → created_id r ≢ none
      → details.digital_twin_model_spec_uri ≡ m.model_name
      → Linked (some m) (asked_adapter telemetry details (w, model_made r ∷ [])).1.1
  posted-Linked m r telemetry details w h uri =
      adapter-Linked m r (client.post_adapter domain details w).0 telemetry details w
        (client.post_adapter domain details w).1 h uri refl

  adapt-Linked :
      (m : ModelConfig) (r : Outcome (Option (ℕ × String))) (files : Option (String × String))
      (w : W)
      → created_id r ≢ none
      → Linked
          (some m)
          (adapt
            (tracing client)
            domain
            (reading read_object)
            config
            m
            files
            (w, model_made r ∷ [])).1.1
  unfolding adapt
  adapt-Linked m r none w h =
      posted-Linked m r "Structured Telemetry with default Adapter" _ w h refl
  adapt-Linked m r (some (envelope, routes)) w h =
      read-Linked m (model_made r ∷ []) _ (read_object envelope w).0 (read_object envelope w).1 tt
        (λ inbound_envelope.
          let w' = (read_object envelope w).1 in
          read-Linked m (model_made r ∷ []) _ (read_object routes w').0 (read_object routes w').1 tt
            (λ inbound_routes.
              posted-Linked m r "Structured Telemetry with custom Adapter" _
                (read_object routes w').1 h refl))

  adapt_model-Linked :
      (m : ModelConfig) (r : Outcome (Option (ℕ × String))) (ocid : Option String) (w : W)
      → created_id r ≡ ocid
      → Linked
          (some m)
          (adapt_model
            (tracing client)
            domain
            (reading read_object)
            config
            m
            ocid
            (w, model_made r ∷ [])).1.1
  adapt_model-Linked m r none w e = tt
  adapt_model-Linked m r (some id) w e = adapt-Linked m r m.adapter_files w (λ n. cc)

  abbrev asked_model : ModelConfig → ModelDetails → Exec (Traced W) (Unit {0})
  asked_model m details = create_digital_twin_model (tracing client) domain details >>= λ ocid.
      adapt_model (tracing client) domain (reading read_object) config m (given ocid)

  model-Linked :
      (m : ModelConfig) (r : Outcome (Option (ℕ × String))) (details : ModelDetails) (w w' : W)
      → client.post_model domain details w ≡ (r, w')
      → Linked (some m) (asked_model m details (w, [])).1.1
  unfolding create_digital_twin_model
  model-Linked m (ok response) details w w' e =
      rw (e) (adapt_model-Linked m (ok response) (given (good response)) w' refl)
  model-Linked m (raised x) details w w' e = rw (e) (ground arith)
  model-Linked m pending details w w' e = rw (e) tt

  structured-Linked :
      (m : ModelConfig) (w : W)
      → Linked
          (some m)
          (create_structured (tracing client) domain (reading read_object) config m (w, [])).1.1
  unfolding create_structured
  structured-Linked m w =
      read-Linked m [] _ (read_object m.model_dtdl w).0 (read_object m.model_dtdl w).1 tt
        (λ spec_dtdl. model-Linked m _ _ (read_object m.model_dtdl w).1 _ refl)

  abbrev asked : Option ModelConfig → Exec (Traced W) (Unit {0})
  asked none = asked_instance "Unstructured Telemetry" none
  asked (some m) = create_structured (tracing client) domain (reading read_object) config m

  requested-Linked : (model : Option ModelConfig) (w : W) → Linked model (asked model (w, [])).1.1
  requested-Linked none w = rw (asked_instance-trace "Unstructured Telemetry" none w []) refl
  requested-Linked (some m) w = structured-Linked m w

  -- With a model in the configuration, the requests of a creation are a beginning of these: a
  -- model, an adapter of that model's URI, an instance that is linked to that adapter. Each is
  -- asked for only after the one before it was created with an id, and the instance is asked for
  -- if the adapter was. Without a model there is just one request, for an instance with no
  -- adapter.
  pub create_digital_twin-Linked : (w : W) → Linked config.model (requests w)
  unfolding create_digital_twin
  create_digital_twin-Linked w = requested-Linked config.model w
