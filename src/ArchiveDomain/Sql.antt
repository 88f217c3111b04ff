-- ===== src/ArchiveDomain/Sql.antt =====
-- sql.py: the query of a dataset's window, and the statement that exports it.
pub mod Texts
pub mod Replacing
pub mod Windows
pub mod Rendering
use oci_iot_samples.Base.{
  ℕ, zero, suc, ◌-◌, String, ◌<>◌, Bool, true, false, not, ◌&&◌, ◌==◌, Option, none, some, List, [],
  ◌∷◌, lower, contains, replace, if◌then◌else◌,
}
use oci_iot_samples.Base.Exec.{Outcome, ok, raised, pending, value_error}
use oci_iot_samples.Base.Time.{Datetime, has_tzinfo}
use oci_iot_samples.ArchiveDomain.Models.{
  export_format_parquet, export_format_datapump, valid_export_formats,
}
use oci_iot_samples.ArchiveDomain.Sql.Texts.{
  raw_parquet_sql, raw_datapump_sql, historized_parquet_sql, historized_datapump_sql,
  rejected_parquet_sql, rejected_datapump_sql, export_statement,
}

pub record DatasetQuery : Type 0 where
  pub dataset : String
  pub sql_text : String
  pub binds : List (String × Datetime)
  pub time_column : String

unfoldable pub dataset_time_column : String → String
dataset_time_column dataset = if dataset == "historized" then "time_observed" else "time_received"

unsupported : String → String → Outcome (String × String)
unsupported dataset export_format = raised (
    value_error
      ("Unsupported dataset/export_format combination: " <> (dataset <> ("/" <> export_format))))

-- The text and the time column, of a dataset and a format that is in lower case.
unfoldable pub sql_of : String → String → String → Outcome (String × String)
unfolding unsupported
sql_of dataset normalized export_format =
    if dataset == "raw" && normalized == export_format_parquet
    then ok (raw_parquet_sql, "time_received")
    else if dataset == "raw" && normalized == export_format_datapump
    then ok (raw_datapump_sql, "time_received")
    else if dataset == "historized" && normalized == export_format_parquet
    then ok (historized_parquet_sql, "time_observed")
    else if dataset == "historized" && normalized == export_format_datapump
    then ok (historized_datapump_sql, "time_observed")
    else if dataset == "rejected" && normalized == export_format_parquet
    then ok (rejected_parquet_sql, "time_received")
    else if dataset == "rejected" && normalized == export_format_datapump
    then ok (rejected_datapump_sql, "time_received")
    else unsupported dataset export_format

abbrev query_of : String → Datetime → Datetime → Outcome (String × String) → Outcome DatasetQuery
query_of dataset window_start window_end (ok (sql_text, time_column)) = ok (record {
  dataset = dataset;
  sql_text = sql_text;
  binds = ("window_start", window_start) ∷ ("window_end", window_end) ∷ [];
  time_column = time_column;
})
query_of dataset window_start window_end (raised e) = raised e
query_of dataset window_start window_end pending = pending

-- The domain's short name, which no query uses, is left out.
unfoldable pub build_dataset_query : String → Datetime → Datetime → String → Outcome DatasetQuery
unfolding contains lower
build_dataset_query dataset window_start window_end export_format =
    let normalized = lower export_format in
    if not (contains normalized valid_export_formats)
    then raised (value_error ("Unsupported export format: " <> export_format))
    else query_of dataset window_start window_end (sql_of dataset normalized export_format)

-- `utc_micros` is value.astimezone(timezone.utc).isoformat(timespec="microseconds").
module _ (utc_micros : Datetime → String) where
  unfoldable pub oracle_timestamp_tz_literal : Datetime → Outcome String
  oracle_timestamp_tz_literal value =
      if has_tzinfo value
      then ok (
          "to_timestamp_tz('" <> (utc_micros value <> "', 'YYYY-MM-DD\"T\"HH24:MI:SS.FF6TZH:TZM')"))
      else raised (value_error "Timezone-aware timestamps are required for archive queries")

  unfoldable pub render_binds : String → List (String × Datetime) → Outcome String
  unfolding replace
  render_binds query_text [] = ok query_text
  render_binds query_text ((bind_name, bind_value) ∷ binds) =
      elim (oracle_timestamp_tz_literal bind_value) [
        | ok literal ↦ render_binds (replace (":" <> bind_name) literal query_text) binds
        | raised e ↦ raised e
        | pending ↦ pending
      ]

  -- _render_dbms_cloud_query_text
  unfoldable pub render_dbms_cloud_query_text : DatasetQuery → Outcome String
  unfolding render_binds
  render_dbms_cloud_query_text q = render_binds q.sql_text q.binds

  abbrev export_binds : String → String → String → Outcome String → Outcome (List (String × String))
  export_binds credential_name file_uri_list export_format (ok query_text) = ok (
      ("credential_name", credential_name)
      ∷ ("file_uri_list", file_uri_list)
      ∷ ("export_format", export_format)
      ∷ ("query_text", query_text)
      ∷ [])
  export_binds credential_name file_uri_list export_format (raised e) = raised e
  export_binds credential_name file_uri_list export_format pending = pending

  abbrev with_statement :
      Outcome (List (String × String)) → Outcome (String × List (String × String))
  with_statement (ok binds) = ok (export_statement, binds)
  with_statement (raised e) = raised e
  with_statement pending = pending

  unfoldable pub build_dbms_cloud_export_statement :
      DatasetQuery → String → String → String → Outcome (String × List (String × String))
  unfolding render_dbms_cloud_query_text
  build_dbms_cloud_export_statement q credential_name file_uri_list export_format =
      with_statement
        (export_binds credential_name file_uri_list export_format (render_dbms_cloud_query_text q))
