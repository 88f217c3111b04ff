-- ===== src/FileAgent/StorageTests.antt =====
-- The theorems on the PAR service at a concrete object store.
use oci_iot_samples.Base.{
  inl, map, ◌<>◌, length, ◌+◌, ◌*◌, ◌≤◌, String, ◌≡◌, ◌≢◌, ◌⊎◌, refl, true, false, none, some, List,
  [], ◌∷◌, arith, if◌then◌else◌, max, ◌==◌, ends_with, rstrip_by, strip_by,
}
use oci_iot_samples.Base.Picked.{Picked}
use oci_iot_samples.Base.Exec.{Exn, ok, raised}
use oci_iot_samples.Base.Time.{aware, minute_micros, micros, max_micros, plus}
use oci_iot_samples.FileAgent.Models.{validate_transaction_id}
use oci_iot_samples.FileAgent.ObjectStorage.{
  ServiceState, Settings, StageUploadResult, stage_upload, complete_upload as complete,
  list_file_agent_pars, next_token, namespace,
}
use oci_iot_samples.FileAgent.ObjectStorage.Client.{ObjectStorageClient, ParSummary, Page}
use oci_iot_samples.FileAgent.ObjectStorage.Names.{par_name, object_prefix, upload_url}
use oci_iot_samples.FileAgent.ObjectStorage.Names.Injective.{par_name-injective}
use oci_iot_samples.FileAgent.ObjectStorage.Listing.{
  IsAgentPar, contents, Serves, HasNamespace, list_file_agent_pars_lem,
}
use oci_iot_samples.FileAgent.ObjectStorage.Lifecycle.{HasName, IsListed, complete_upload_iff}
use oci_iot_samples.FileAgent.Cli.Janitor.{
  Shown, ObjectStorageConfig, create_par_service, janitor_prune, janitor_prune_lem,
}
use oci_iot_samples.FileAgent.ObjectStorage.Janitor.{delete_ids, par_id, IsPrunable}
use oci_iot_samples.FileAgent.ObjectStorage.Staging.{stage_upload_expiry, invalid_id-untouched}

-- An object store that holds PARs and creates, lists and deletes them.
abbrev without : String → List ParSummary → List ParSummary
without id [] = []
without id (p ∷ ps) = let rest = without id ps in if p.id == id then rest else p ∷ rest

abbrev memory : ObjectStorageClient
memory = record {
  State = List ParSummary;
  endpoint = "https://store";
  now = λ s. (ok (aware 900000000), s);
  get_namespace = λ s. (ok "ns", s);
  create_preauthenticated_request = λ ns b d s. (
    ok (record { id = "p9"; access_uri = "/p/9" }),
    record { id = "p9"; name = d.name; time_created = some (aware 900000000) } ∷ s,
  );
  list_preauthenticated_requests = λ ns b page s. (ok (record { pars = s; next_page = none }), s);
  delete_preauthenticated_request = λ ns b id s. (ok tt, without id s);
}

abbrev settings : Settings
settings = record { bucket_name = "b"; max_ttl_minutes = 60; par_name_prefix = "fa" }

abbrev stored : List ParSummary
stored =
    record { id = "p1"; name = "fa:device:t1"; time_created = some (aware 60000000) }
    ∷ record { id = "p2"; name = "other"; time_created = none }
    ∷ []

abbrev service : ServiceState (List ParSummary)
service = record { store = stored; namespace_name = some "ns" }

abbrev pages : List Page
pages = record { pars = stored; next_page = none } ∷ []

known : HasNamespace service "ns"
known = (refl, λ h. cc)

served : Serves memory "ns" "b" stored none pages
served = (refl, inl (inl refl, refl))

list_file_agent_pars_lem_example :
    (pars : List ParSummary) × (list_file_agent_pars memory settings 1 service ≡ (ok pars, service))
    × Picked (IsAgentPar settings) (contents pages) pars
list_file_agent_pars_lem_example =
    list_file_agent_pars_lem memory settings service "ns" known 1 pages (omega arith) served

abbrev device : String
device = "device"

abbrev t1 : String
t1 = "t1"

par_of_t1 : par_name "fa" "device" "t1" ≡ ok "fa:device:t1"
unfolding par_name validate_transaction_id
par_of_t1 = refl

prefix_of_t1 : object_prefix "device" "t1" ≡ ok "device/t1/"
unfolding object_prefix validate_transaction_id
prefix_of_t1 = refl

par_name-injective_example : (device ≡ device) × (t1 ≡ t1)
par_name-injective_example =
    par_name-injective "fa" device device t1 t1 "fa:device:t1" par_of_t1 par_of_t1

complete_upload_iff_example :
    (((complete memory settings 1 "device" "t1" service).0 ≡ ok true)
      × HasName "fa:device:t1" (contents pages)
      × ((par : ParSummary) × IsListed par (contents pages)
          × (par.name ≡ "fa:device:t1")
          × ((complete memory settings 1 "device" "t1" service).1.store ≡ without par.id stored)))
    ⊎ ((complete memory settings 1 "device" "t1" service ≡ (ok false, service))
        × (¬ HasName "fa:device:t1" (contents pages)))
complete_upload_iff_example =
    complete_upload_iff memory settings service "ns" known 1 pages (omega arith) served "device"
      "t1" "fa:device:t1" par_of_t1 (λ id s. refl)

abbrev shown : Shown
shown = record {
  object_name = λ par. "object";
  time_created = λ par. "time";
  count_text = λ n. "1";
}

abbrev par_config : ObjectStorageConfig
par_config = record { namespace_name = some "ns"; settings = settings }

known_to_config : HasNamespace (create_par_service par_config stored) "ns"
unfolding create_par_service
known_to_config = known

janitor_prune_lem_example :
    (pars : List ParSummary) × Picked
      (IsPrunable settings (aware 900000000) 10)
      (contents pages)
      pars
    × (janitor_prune memory shown 1 (some par_config) 10 (stored, []) ≡ (
      ok tt,
      (
        delete_ids memory settings "ns" (λ id s. refl) (map par_id pars) stored,
        ("Deleted " <> (shown.count_text (length pars) <> " PAR(s)")) ∷ [],
      ),
    ))
janitor_prune_lem_example =
    janitor_prune_lem memory shown par_config "ns" (λ id s. refl) 1 10 stored [] (aware 900000000)
      pages known_to_config (omega arith) refl (omega arith) served

abbrev staged : StageUploadResult
staged = record {
  par_id = "p9";
  url = "https://store/p/9/device/t1/";
  prefix = "device/t1/";
  time_expires = aware 4500000000;
}

staging : (stage_upload memory settings "device" "t1" 90 service).0 ≡ ok staged
unfolding stage_upload par_name object_prefix validate_transaction_id plus upload_url next_token
    namespace ends_with rstrip_by strip_by
staging = refl

stage_upload_expiry_example :
    (900000000 + minute_micros ≤ micros staged.time_expires)
    × (micros staged.time_expires ≤ 900000000 + max 1 60 * minute_micros)
    × (micros staged.time_expires ≤ max_micros)
    × (object_prefix "device" "t1" ≡ ok "device/t1/")
stage_upload_expiry_example =
    stage_upload_expiry memory settings service "device" "t1" 90 (aware 900000000) stored staged
      refl staging

bad_id : (e : Exn) × (validate_transaction_id "a:b" ≡ raised e)
unfolding validate_transaction_id
bad_id = (_, refl)

invalid_id-untouched_example :
    (complete memory settings 1 "device" "a:b" service ≡ (raised bad_id.0, service))
    × ((stage_upload memory settings "device" "a:b" 90 service).1 ≡ service)
    × ((stage_upload memory settings "device" "a:b" 90 service).0 ≢ ok staged)
invalid_id-untouched_example =
    invalid_id-untouched memory settings service 1 "device" "a:b" 90 (aware 900000000) stored
      bad_id.0 staged refl bad_id.1
