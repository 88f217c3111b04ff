-- ===== src/ArchiveDomain/Exporters.antt =====
-- exporters.py and db.py: the format, the zone and the mode of an export.
use oci_iot_samples.Base.{
  String, List, ◌<>◌, Bool, ◌&&◌, ◌||◌, ◌==◌, lower, contains, if◌then◌else◌,
}
use oci_iot_samples.Base.Exec.{Outcome, ok, raised, pending, value_error}
use oci_iot_samples.Base.Time.{Datetime}
use oci_iot_samples.ArchiveDomain.Sql.{
  DatasetQuery, build_dataset_query, build_dbms_cloud_export_statement,
}
use oci_iot_samples.ArchiveDomain.Models.{valid_export_formats}

unfoldable pub export_format_for_dataset : String → String → Outcome String
unfolding lower contains
export_format_for_dataset dataset run_export_format =
    if contains (lower run_export_format) valid_export_formats
    then ok (lower run_export_format)
    else raised (value_error ("Unsupported export format: " <> run_export_format))

unfoldable pub dataset_zone : String → Outcome String
dataset_zone dataset =
    if dataset == "raw" || dataset == "rejected"
    then ok "bronze"
    else if dataset == "historized"
    then ok "silver"
    else raised (value_error ("Unsupported dataset: " <> dataset))

-- db.choose_execution_mode
unfoldable pub choose_execution_mode : String → Bool → Bool → String
choose_execution_mode requested_mode dbms_cloud_available has_db_export_credentials =
    if requested_mode == "sql"
    then "sql"
    else if dbms_cloud_available && has_db_export_credentials
    then "bulk"
    else "sql"

module _ (utc_micros : Datetime → String) (credential_name file_uri_list : String) where
  abbrev with_query :
      DatasetQuery
      → Outcome (String × List (String × String))
      → Outcome (DatasetQuery × String × List (String × String))
  with_query q (ok (statement, binds)) = ok (q, statement, binds)
  with_query q (raised e) = raised e
  with_query q pending = pending

  abbrev bulk_statement :
      DatasetQuery → Outcome String → Outcome (DatasetQuery × String × List (String × String))
  bulk_statement q (ok export_format) =
      with_query q
        (build_dbms_cloud_export_statement utc_micros q credential_name file_uri_list export_format)
  bulk_statement q (raised e) = raised e
  bulk_statement q pending = pending

  abbrev bulk_request :
      Outcome DatasetQuery
      → Outcome String
      → Outcome (DatasetQuery × String × List (String × String))
  bulk_request (ok q) f = bulk_statement q f
  bulk_request (raised e) f = raised e
  bulk_request pending f = pending

  unfoldable pub build_bulk_export_request :
      String
      → Datetime
      → Datetime
      → String
      → Outcome (DatasetQuery × String × List (String × String))
  build_bulk_export_request dataset window_start window_end export_format =
      bulk_request (build_dataset_query dataset window_start window_end export_format)
        (export_format_for_dataset dataset export_format)
