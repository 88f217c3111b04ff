-- ===== src/ArchiveDomain/Manifest.antt =====
-- manifest.py: the JSON of a run's manifest.
use oci_iot_samples.Base.{String, Option, none, some, List, [], ◌∷◌}
use oci_iot_samples.Base.Json.{
  ℤ, Value, null, num, str, arr, obj, Items, nil, cons, Fields, end, field,
}
use oci_iot_samples.ArchiveDomain.Models.{DatasetResult}

text_items : List String → Items
text_items [] = nil
text_items (s ∷ ss) = cons (str s) (text_items ss)

number_fields : List (String × ℤ) → Fields
number_fields [] = end
number_fields ((k, n) ∷ rest) = field k (num n) (number_fields rest)

abbrev pub optional_str : Option String → Value
optional_str none = null
optional_str (some s) = str s

-- asdict of a DatasetResult; a tuple is a list in JSON
unfoldable pub result_value : DatasetResult → Value
unfolding text_items
result_value r = obj (
    field "name" (str r.name) (
      field "status" (str r.status) (
        field "export_mode" (optional_str r.export_mode) (
          field "export_format" (optional_str r.export_format) (
            field "object_prefix" (optional_str r.object_prefix) (
              field "object_names" (arr (text_items r.object_names))
                (field "error_message" (optional_str r.error_message) end)))))))

result_items : List DatasetResult → Items
unfolding result_value
result_items [] = nil
result_items (r ∷ rs) = cons (result_value r) (result_items rs)

unfoldable pub build_run_manifest :
    String → List String → List (String × ℤ) → Option String → List DatasetResult → Value
unfolding text_items number_fields result_items
build_run_manifest run_id selected_datasets retention_days checkpoint_before dataset_results = obj (
    field "run_id" (str run_id) (
      field "selected_datasets" (arr (text_items selected_datasets)) (
        field "retention_days" (obj (number_fields retention_days)) (
          field "checkpoint_before" (optional_str checkpoint_before)
            (field "dataset_results" (arr (result_items dataset_results)) end)))))
