-- ===== src/ManageDt/TwinTests.antt =====
-- The theorems on a twin's resources at a concrete client.
use oci_iot_samples.Base.{String, ◌<>◌, ◌≡◌, refl, Option, some, List, [], ◌∷◌, map, select}
use oci_iot_samples.Base.Exec.{Exec, ok}
use oci_iot_samples.Base.Json.{Fields, end}
use oci_iot_samples.ManageDt.Resources.{
  TwinClient, TwinConfig, delete_digital_twin_model_by_spec_uri,
  delete_digital_twin_adapter_by_name,
}
use oci_iot_samples.ManageDt.Resources.Deletion.{
  StoredModel, id_of, has_prefix, Deleted, IsOnly, delete_adapter-Deleted, longer_uri-deleted,
}
use oci_iot_samples.ManageDt.Resources.Creation.{Linked, requests, create_digital_twin-Linked}

abbrev long_model : StoredModel
long_model = record { id = "model2"; spec_uri = "dtmi:com:x;1" <> "0" }

abbrev short_model : StoredModel
short_model = record { id = "model1"; spec_uri = "dtmi:com:x;1" }

-- The stored models are the world. A deletion empties it.
abbrev client : TwinClient (List StoredModel) String
client = record {
  post_model = λ d details w. (ok (some (200, "model3")), w);
  list_models = λ d uri w. (ok (some (200, map id_of (select (has_prefix uri) w))), w);
  delete_model = λ id w. (ok (some 204), []);
  post_adapter = λ d details w. (ok (some (200, "adapter1")), w);
  list_adapters = λ d name w. (ok (some (200, "adapter1" ∷ [])), w);
  delete_adapter = λ id w. (ok (some 204), []);
  post_instance = λ d details w. (ok (some (200, "instance1")), w);
  list_instances = λ d name w. (ok (some (200, "instance1" ∷ [])), w);
  get_instance = λ id w. (ok (some (200, "instance")), w);
  get_content = λ id w. (ok (some (200, "content")), w);
  delete_instance = λ id w. (ok (some 204), []);
}

abbrev stored : List StoredModel
stored = long_model ∷ short_model ∷ []

abbrev config : TwinConfig
config = record {
  device_name = "device";
  external_key = "key";
  auth_id = "secret";
  model = some (record {
    model_dtdl = "model.json";
    model_name = "dtmi:com:x;1";
    model_description = "A model";
    adapter_name = "adapter";
    adapter_files = some ("envelope.json", "routes.json");
  });
}

abbrev read_object : String → Exec (List StoredModel) Fields
read_object name w = (ok end, w)

delete_adapter-Deleted_example :
    (item : Option String) × IsOnly client "domain" (some (200, "adapter1" ∷ [])) item
    × Deleted client.delete_adapter stored item
        (delete_digital_twin_adapter_by_name client "domain" "adapter" stored)
delete_adapter-Deleted_example =
    delete_adapter-Deleted client "domain" "adapter" (some (200, "adapter1" ∷ [])) stored refl

longer_uri-deleted_example :
    (delete_digital_twin_model_by_spec_uri client "domain" "dtmi:com:x;1" stored).1
    ≡ (client.delete_model "model2" stored).1
longer_uri-deleted_example =
    longer_uri-deleted client "domain" (λ w. w) "model2" "model1" "dtmi:com:x;1" "0" [] stored
      (λ uri w. refl) refl

create_digital_twin-Linked_example :
    Linked config.model (requests client "domain" read_object config stored)
create_digital_twin-Linked_example =
    create_digital_twin-Linked client "domain" read_object config stored
