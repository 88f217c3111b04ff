-- ===== src/ManageDt/ConsoleTests.antt =====
-- The theorems on the command line and on what a query prints, at a concrete twin.
use oci_iot_samples.Base.{String, ◌≡◌, refl, Option, none, some, List, [], ◌∷◌, text_length, before}
use oci_iot_samples.Base.Exec.{Outcome, ok}
use oci_iot_samples.Base.Json.{Value, num, pos, str, obj, Fields, end, field, get, set, as_fields}
use oci_iot_samples.ManageDt.Cli.{load_config, substitute_twins, substitute_items, config_item}
use oci_iot_samples.ManageDt.Cli.Substituted.{twin_at, Substituted}
use oci_iot_samples.ManageDt.Cli.Known.{load_config-item}
use oci_iot_samples.ManageDt.Templates.{
  safe_substitute, substitute_after, replacement, taken, placeholder, identifier, id_parts,
  braced_in, char_at,
}
use oci_iot_samples.ManageDt.DataAccess.{DataAccess}
use oci_iot_samples.ManageDt.RecentData.{
  DataApi, recent_query, get_recent_data, get_raw_data_by_id, with_payload, with_payloads,
  get_recent_raw_data, get_recent_historized_data, get_recent_rejected_data,
  get_raw_command_data_by_id, enriched, enrich_all, get_recent_raw_command_data,
}
use oci_iot_samples.ManageDt.DataAccess.{
  get_data_access_parameters, with_cache, renew, retrieve, with_group, endpoints_at, with_token,
}
use oci_iot_samples.ManageDt.Resources.{
  TwinClient, TwinConfig, chosen, get_digital_twin_instance_by_name,
  get_digital_twin_instance_content,
}
use oci_iot_samples.ManageDt.Query.{
  Texts, Printed, query_digital_twin, print_recent, print_table, rows_of, print_commands,
  print_panels, command_panel_of, raw_cells, historized_cells, rejected_cells,
}
use oci_iot_samples.ManageDt.Query.Found.{IsInstanceOf}
use oci_iot_samples.ManageDt.Query.Complete.{IsReportOf, query_digital_twin-reports}
use oci_iot_samples.ManageDt.Tests.{platform, access, empty_file}

abbrev text_of : Value → String
text_of (str s) = s
text_of v = "7"

abbrev twin_items : String → Fields
twin_items name = field "device_name" (str name) end

abbrev environ : Value
environ = obj (field "ID" (str "x") end)

abbrev configured : String → Fields
configured name =
    field "environ" environ
      (field "digital_twins" (obj (field "a" (obj (twin_items name)) end)) end)

loaded : load_config text_of (obj (configured "${ID}-$$")) ≡ ok (obj (configured "x-$"))
unfolding load_config config_item as_fields get set substitute_twins substitute_items
    safe_substitute substitute_after replacement taken placeholder identifier id_parts braced_in
    char_at text_length
loaded = refl

load_config-item_example :
    (used : Value) × (done : Fields) × (get "environ" (configured "${ID}-$$") ≡ some used)
    × (twin_at (obj (configured "x-$")) "a" ≡ some done)
    × Substituted text_of used (str "${ID}-$$") (get "device_name" done)
unfolding get as_fields
load_config-item_example =
    load_config-item text_of (configured "${ID}-$$") (twin_items "${ID}-$$")
      (obj (configured "x-$")) (str "${ID}-$$") "a" "device_name" loaded refl refl

abbrev client : TwinClient (Option DataAccess) String
client = record {
  post_model = λ d details w. (ok none, w);
  list_models = λ d uri w. (ok none, w);
  delete_model = λ id w. (ok none, w);
  post_adapter = λ d details w. (ok none, w);
  list_adapters = λ d name w. (ok none, w);
  delete_adapter = λ id w. (ok none, w);
  post_instance = λ d details w. (ok none, w);
  list_instances = λ d name w. (ok (some (200, "instance1" ∷ [])), w);
  get_instance = λ id w. (ok (some (200, id)), w);
  get_content = λ id w. (ok (some (200, "content")), w);
  delete_instance = λ id w. (ok none, w);
}

abbrev received : Fields
received = field "id" (num (pos 7)) (
    field "time_received" (str "t") (
      field "time_observed" (str "t") (
        field "endpoint" (str "e") (
          field "content_path" (str "p") (
            field "value" (num (pos 7))
              (field "reason_code" (num (pos 7)) (field "reason_message" (str "m") end)))))))

abbrev api : DataApi (Option DataAccess)
api = record {
  get_items = λ url token query s. (ok (200, ok (received ∷ [])), s);
  get_record = λ url token s. (ok (200, ok (field "content" (str "hot") end)), s);
  recent_time = λ minutes s. (ok "2026-01-01T00:00:00Z", s);
  text_of = λ v. "7";
}

abbrev texts : Texts
texts = record { text_of = text_of; count_text = λ n. "1"; dumps = text_of }

abbrev config : TwinConfig
config = record {
  device_name = "device";
  external_key = "key";
  auth_id = "secret";
  model = some (record {
    model_dtdl = "model.json";
    model_name = "dtmi:com:x;1";
    model_description = "A model";
    adapter_name = "adapter";
    adapter_files = none;
  });
}

abbrev queried : Outcome (Unit {0}) × (Option DataAccess × List (Printed String))
queried =
    query_digital_twin texts client platform api "domain" config (λ c. c) 100000000 5
      (empty_file, [])

queried_printed : queried ≡ (ok tt, (some access, queried.1.1))
unfolding query_digital_twin chosen get_digital_twin_instance_by_name
    get_digital_twin_instance_content print_recent print_table rows_of print_commands print_panels
    command_panel_of raw_cells historized_cells rejected_cells recent_query get_recent_data
    get_raw_data_by_id with_payload with_payloads get_recent_raw_data get_recent_historized_data
    get_recent_rejected_data get_raw_command_data_by_id enriched enrich_all
    get_recent_raw_command_data get_data_access_parameters with_cache renew retrieve with_group
    endpoints_at with_token before get set
queried_printed = refl

query_digital_twin-reports_example :
    (found : Option String) × IsInstanceOf client "domain" "device" found
    × IsReportOf texts client platform api "domain" config (λ c. c) 100000000 5 found queried.1.1
query_digital_twin-reports_example =
    query_digital_twin-reports texts client platform api "domain" config (λ c. c) 100000000 5
      empty_file (some access) queried.1.1 queried_printed
