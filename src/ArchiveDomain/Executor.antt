-- ===== src/ArchiveDomain/Executor.antt =====
-- executor.py: `LiveArchiveExecutor`, over a world that is the database's and the Object Storage's.
pub mod Values
pub mod Rows
pub mod Exports
pub mod Results
use oci_iot_samples.Base.{
  ℕ, zero, suc, String, ◌<>◌, Bool, true, false, ◌&&◌, not, ◌==◌, Option, none, some, List, [], ◌∷◌,
  map, given, lower, if◌then◌else◌,
}
use oci_iot_samples.Base.Exec.{
  Exec, Outcome, ok, raised, pending, runtime_error, after, ◌>>=◌, ◌>>◌, pure, raise, lift,
  try_finally, run_cleanup, after_cleanup,
}
use oci_iot_samples.Base.Json.{Fields, end}
use oci_iot_samples.Base.Time.{Datetime}
use oci_iot_samples.ArchiveDomain.Models.{DatasetPlan, DatasetResult, export_format_parquet}
use oci_iot_samples.ArchiveDomain.Exporters.{
  choose_execution_mode, export_format_for_dataset, build_bulk_export_request,
}
use oci_iot_samples.ArchiveDomain.Sql.{DatasetQuery, build_dataset_query}
use oci_iot_samples.ArchiveDomain.State.{build_object_name, build_dbms_cloud_file_uri}
use oci_iot_samples.ArchiveDomain.Executor.Values.{DbValue, LobData, Formats, record_from}

pub data Bind : Type 0 where
  time_bind : Datetime → Bind
  text_bind : String → Bind

-- oracledb at a configured database. The cursor is the open one; a row is a value for each column.
pub record Database (D : Type 0) : Type 0 where
  pub connect : Exec D (Unit {0})
  pub close : Exec D (Unit {0})
  pub open_cursor : Exec D (Unit {0})
  pub close_cursor : Exec D (Unit {0})
  pub execute : String → List (String × Bind) → Exec D (Unit {0})
  pub description : Exec D (List String)
  pub next_row : Exec D (Option (List DbValue))
  pub read_lob : ℕ → Exec D LobData

-- What __init__ keeps: of the configuration, what is read. `Body` is a compressed text; `put_object` is
-- that of the client at the namespace and the bucket.
pub record LiveArchiveExecutor (D S Body : Type 0) : Type 0 where
  pub database : Database D
  pub put_object : String → Body → Exec S (Unit {0})
  pub gzip : String → Body
  pub formats : Formats
  pub region : Option String
  pub namespace : String
  pub bucket_name : String
  pub iot_domain_short_name : String
  pub dbms_cloud_credential_name : Option String

abbrev is_given : Option String → Bool
is_given o = elim (given o) [ none ↦ false | some s ↦ true ]

-- An f-string's text of an optional text.
abbrev shown : Option String → String
shown none = "None"
shown (some s) = s

abbrev time_binds : List (String × Datetime) → List (String × Bind)
time_binds = map (λ (n, t). (n, time_bind t))

abbrev text_binds : List (String × String) → List (String × Bind)
text_binds = map (λ (n, s). (n, text_bind s))

module _ {D S Body : Type 0} (executor : LiveArchiveExecutor D S Body) where
  open executor use {database, formats}

  -- A step of the database, or of the Object Storage, in the world of both.
  abbrev pub on_database : {A : Type 0} → Exec D A → Exec (D × S) A
  on_database m (d, s) = let r = m d in (r.0, (r.1, s))

  abbrev pub on_storage : {A : Type 0} → Exec S A → Exec (D × S) A
  on_storage m (d, s) = let r = m s in (r.0, (d, r.1))

  -- with connection.cursor() as cursor
  abbrev pub with_cursor : {A : Type 0} → Exec D A → Exec D A
  with_cursor m = database.open_cursor >> try_finally m database.close_cursor

  abbrev pub with_connection : {A : Type 0} → Exec D A → Exec D A
  with_connection m = database.connect >> try_finally m database.close

  unfoldable pub set_current_schema : Exec D (Unit {0})
  set_current_schema = with_cursor (
      database.execute
        ("alter session set current_schema = " <> (executor.iot_domain_short_name <> "__iot")) [])

  -- The loop over the cursor, with what is written so far. One unit of fuel for each row and one more.
  unfoldable pub write_rows : ℕ → List String → String → Exec D String
  unfolding record_from
  write_rows zero columns written = lift pending
  write_rows (suc fuel) columns written = do
    row ← database.next_row
    elim row [
      | none ↦ pure written
      | some values ↦ record_from formats database.read_lob end columns values >>= λ fields.
          write_rows fuel columns (written <> (formats.dumps fields <> "\n"))
    ]

  -- What is written of the rows of a query.
  unfoldable pub exported_text : ℕ → DatasetQuery → Exec D String
  unfolding set_current_schema write_rows lower
  exported_text fuel q = with_connection (do
    set_current_schema
    with_cursor (do
      database.execute q.sql_text (time_binds q.binds)
      names ← database.description
      write_rows fuel (map lower names) ""))

  abbrev pub sql_result : String → String → String → String → DatasetResult
  sql_result dataset object_prefix export_format object_name = record {
    name = dataset;
    status = "succeeded";
    export_mode = some "sql";
    export_format = some export_format;
    object_prefix = some object_prefix;
    object_names = object_name ∷ [];
    error_message = none;
  }

  abbrev pub part_name : String → String
  part_name object_prefix = build_object_name object_prefix "part-00000.jsonl.gz"

  unfoldable pub execute_sql :
      ℕ → String → DatasetPlan → String → String → Exec (D × S) DatasetResult
  execute_sql fuel dataset dataset_plan object_prefix export_format = do
    q ← lift (
        build_dataset_query dataset dataset_plan.window_start dataset_plan.window_end export_format)
    text ← on_database (exported_text fuel q)
    on_storage (executor.put_object (part_name object_prefix) (executor.gzip text))
    pure (sql_result dataset object_prefix export_format (part_name object_prefix))

  abbrev bulk_result : String → String → String → DatasetResult
  bulk_result dataset object_prefix export_format = record {
    name = dataset;
    status = "succeeded";
    export_mode = some "bulk";
    export_format = some export_format;
    object_prefix = some object_prefix;
    object_names = [];
    error_message = none;
  }

  abbrev run_statement : String → List (String × String) → Exec D (Unit {0})
  run_statement statement binds =
      with_connection
        (set_current_schema >> with_cursor (database.execute statement (text_binds binds)))

  unfoldable pub execute_bulk : String → DatasetPlan → String → String → Exec (D × S) DatasetResult
  unfolding build_dbms_cloud_file_uri
  execute_bulk dataset dataset_plan object_prefix export_format = do
    let file_uri_list =
        build_dbms_cloud_file_uri formats.quote (shown executor.region) executor.namespace
          executor.bucket_name object_prefix dataset
    request ← lift (
        build_bulk_export_request formats.utc_micros (shown executor.dbms_cloud_credential_name)
          file_uri_list dataset dataset_plan.window_start dataset_plan.window_end export_format)
    on_database (run_statement request.1 request.2)
    export ← lift (export_format_for_dataset dataset export_format)
    pure (bulk_result dataset object_prefix export)

  -- `actual_mode`
  unfoldable pub actual_mode : String → String
  actual_mode mode =
      choose_execution_mode mode
        (is_given executor.region && is_given executor.dbms_cloud_credential_name)
        (is_given executor.dbms_cloud_credential_name)

  unfoldable pub execute_dataset :
      ℕ → String → DatasetPlan → String → String → String → Exec (D × S) DatasetResult
  unfolding actual_mode
  execute_dataset fuel dataset dataset_plan mode object_prefix export_format =
      if actual_mode mode == "sql"
      then (if not (export_format == export_format_parquet)
          then raise (runtime_error "sql mode supports only parquet exports")
          else execute_sql fuel dataset dataset_plan object_prefix export_format)
      else if actual_mode mode == "bulk"
      then execute_bulk dataset dataset_plan object_prefix export_format
      else execute_sql fuel dataset dataset_plan object_prefix export_format
