-- ===== src/ArchiveDomain/ExportTests.antt =====
-- The theorems on queries and exports at a concrete database, whose world is the rows that are left.
use oci_iot_samples.Base.{
  String, ◌<>◌, ◌≡◌, ◌⊎◌, refl, true, none, some, List, [], ◌∷◌, arith, all_chars, begins, contains,
  lower,
}
use oci_iot_samples.Base.Exec.{Exec, ok}
use oci_iot_samples.Base.Json.{pos, str, num, Fields, field, end, set}
use oci_iot_samples.Base.Time.{Datetime, aware}
use oci_iot_samples.ArchiveDomain.Models.{DatasetPlan}
use oci_iot_samples.ArchiveDomain.Sql.{
  DatasetQuery, dataset_time_column, build_dataset_query, render_dbms_cloud_query_text,
}
use oci_iot_samples.ArchiveDomain.Sql.Replacing.{no_colon}
use oci_iot_samples.ArchiveDomain.Sql.Windows.{select_window}
use oci_iot_samples.ArchiveDomain.Sql.Rendering.{literal, rendered_window}
use oci_iot_samples.ArchiveDomain.Executor.{
  Database, LiveArchiveExecutor, write_rows, execute_dataset,
}
use oci_iot_samples.ArchiveDomain.Executor.Values.{
  DbValue, plain, lob, text_data, Formats, normalize_value, record_from,
}
use oci_iot_samples.ArchiveDomain.Executor.Rows.{
  Fetches, exhausted, fetched, lines, write_rows-Fetches,
}
use oci_iot_samples.ArchiveDomain.Executor.Exports.{Kept, Stored, execute_dataset-Stored}

-- One time for all.
abbrev micros_text : Datetime → String
micros_text t = "2026-01-02T03:04:05.000006+00:00"

rendered_window_example :
    (q : DatasetQuery) × (columns : String) × (build_dataset_query "historized"
        (aware 1)
        (aware 2)
        "Parquet"
      ≡ ok q)
    × (q.time_column ≡ dataset_time_column "historized")
    × (begins columns "select" ≡ true)
    × (all_chars no_colon columns ≡ true)
    × (render_dbms_cloud_query_text micros_text q
        ≡ ok (
            select_window columns "historized" q.time_column
              (literal micros_text (aware 1))
              (literal micros_text (aware 2))))
unfolding contains lower all_chars
rendered_window_example =
    rendered_window micros_text (λ t. refl) "historized" "Parquet" 1 2 refl refl

abbrev Rows : Type 0
Rows = List (List DbValue)

abbrev nothing : Exec Rows (Unit {0})
nothing rows = (ok tt, rows)

abbrev formats : Formats
formats = record {
  b64encode = λ b. "";
  utc_isoformat = micros_text;
  utc_micros = micros_text;
  date_isoformat = λ d. "2026-01-02";
  decimal_text = λ m k. "0";
  dumps = λ fields. "{}";
  quote = λ s safe. s;
}

abbrev database : Database Rows
database = record {
  connect = nothing;
  close = nothing;
  open_cursor = nothing;
  close_cursor = nothing;
  execute = λ statement binds. nothing;
  description = λ rows. (ok ("ID" ∷ "CONTENT" ∷ []), rows);
  next_row = λ rows. elim rows [ [] ↦ (ok none, []) | row ∷ rest ↦ (ok (some row), rest) ];
  read_lob = λ handle rows. (ok (text_data "hot"), rows);
}

abbrev executor : LiveArchiveExecutor Rows (List (String × String)) String
executor = record {
  database = database;
  put_object = λ name body objects. (ok tt, (name, body) ∷ objects);
  gzip = λ text. text;
  formats = formats;
  region = none;
  namespace = "ns";
  bucket_name = "bucket";
  iot_domain_short_name = "dom";
  dbms_cloud_credential_name = none;
}

abbrev rows : Rows
rows = (plain (num (pos 7)) ∷ lob 0 ∷ []) ∷ (plain (num (pos 8)) ∷ []) ∷ []

abbrev records : List Fields
records =
    field "id" (num (pos 7)) (field "content" (str "hot") end) ∷ field "id" (num (pos 8)) end ∷ []

abbrev columns : List String
columns = "id" ∷ "content" ∷ []

rows-Fetches : Fetches executor columns rows records []
unfolding record_from normalize_value set
rows-Fetches = fetched refl refl (fetched refl refl (exhausted refl))

write_rows-Fetches_example :
    write_rows executor 3 columns "" rows ≡ (ok ("" <> lines executor records), [])
write_rows-Fetches_example = write_rows-Fetches executor columns 3 "" rows-Fetches (omega arith)

abbrev raw_plan : DatasetPlan
raw_plan = record {
  name = "raw";
  retention_days = pos 1;
  purge_boundary = aware 5;
  window_start = aware 1;
  window_end = aware 2;
}

execute_dataset-Stored_example :
    let r = execute_dataset executor 3 "raw" raw_plan "sql" "archive" "parquet" (rows, []) in
    Kept executor [] r.0 r.1.1
    ⊎ Stored executor
        (build_dataset_query "raw" (aware 1) (aware 2) "parquet")
        "archive"
        rows
        r.1.0
        []
        r.0
        r.1.1
execute_dataset-Stored_example =
    execute_dataset-Stored executor 3 "raw" "sql" "archive" "parquet" raw_plan rows []
