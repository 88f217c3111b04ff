-- ===== src/ArchiveDomain/Sql/Windows.antt =====
-- The window that the text of each query selects.
use oci_iot_samples.Base.{
  String, ◌<>◌, ◌≡◌, refl, ◌⊎◌, inl, inr, true, List, [], ◌∷◌, arith, all_chars, begins, contains,
  eq_iff,
}
use oci_iot_samples.Base.Exec.{ok}
use oci_iot_samples.ArchiveDomain.Models.{valid_datasets, valid_export_formats}
use oci_iot_samples.ArchiveDomain.Sql.{dataset_time_column, sql_of}
use oci_iot_samples.ArchiveDomain.Sql.Texts.{
  join_lines, content_encoding_sql, content_representation_sql, blob_to_json_expr, raw_parquet_sql,
  raw_datapump_sql, historized_parquet_sql, historized_datapump_sql, rejected_parquet_sql,
  rejected_datapump_sql,
}
use oci_iot_samples.ArchiveDomain.Sql.Replacing.{no_colon, differ}

-- What the binds stand between.
abbrev pub Clean : String → String → String → Type 0
Clean first middle last =
    (all_chars no_colon first ≡ true)
    × (all_chars no_colon middle ≡ true)
    × (all_chars no_colon last ≡ true)
    × (differ middle "w" ≡ true)

-- The condition on the time column, from a time and before another, and the order.
abbrev pub middle_of : String → String
middle_of column = "\n              and " <> (column <> " < ")

abbrev pub last_of : String → String
last_of column = "\n            order by " <> (column <> ", id")

abbrev pub select_window : String → String → String → String → String → String
select_window columns dataset column from to =
    (columns <> ("from " <> (dataset <> ("_data\n            where " <> (column <> " >= ")))))
    <> (from <> (middle_of column <> (to <> last_of column)))

-- A query's text selects such a window, and reads nothing else of the binds.
abbrev pub Windows : String → String → String → Type 0
Windows dataset column text =
    (columns : String) × (text ≡ select_window columns dataset column ":window_start" ":window_end")
    × (begins columns "select" ≡ true)
    × (all_chars no_colon columns ≡ true)
    × (column ≡ dataset_time_column dataset)
    × Clean
        (columns <> ("from " <> (dataset <> ("_data\n            where " <> (column <> " >= ")))))
        (middle_of column) (last_of column)

-- The columns of the three datasets.
abbrev content_columns : List String
content_columns =
    ("    " <> (content_encoding_sql <> " as content_encoding,"))
    ∷ ("    " <> (content_representation_sql <> " as content_representation,"))
    ∷ ("    " <> (blob_to_json_expr <> " as content"))
    ∷ ""
    ∷ []

abbrev raw_columns : String
raw_columns = join_lines 12 (
    "select" ∷ "    id," ∷ "    digital_twin_instance_id," ∷ "    endpoint," ∷ "    time_received,"
    ∷ "    content_type," ∷ content_columns)

abbrev rejected_columns : String
rejected_columns = join_lines 12 (
    "select" ∷ "    id," ∷ "    digital_twin_instance_id," ∷ "    endpoint," ∷ "    time_received,"
    ∷ "    reason_code," ∷ "    reason_message," ∷ "    content_type," ∷ content_columns)

abbrev historized_columns : String
historized_columns = join_lines 12 (
    "select" ∷ "    id," ∷ "    digital_twin_instance_id," ∷ "    content_path,"
    ∷ "    time_observed," ∷ "    json_serialize(value returning varchar2(32767)) as value_json,"
    ∷ "    json_value(value, '$' returning number null on error) as value_number,"
    ∷ "    json_value(value, '$' returning varchar2(32767) null on error) as value_text" ∷ "" ∷ [])

abbrev all_columns : String
all_columns = join_lines 12 ("select *" ∷ "" ∷ [])

abbrev pub Found : String → String → String → Type 0
Found export_format dataset normalized =
    (text : String) × (sql_of dataset normalized export_format
      ≡ ok (text, dataset_time_column dataset))
    × Windows dataset (dataset_time_column dataset) text

pub dataset-cases :
    (d : String)
    → contains d valid_datasets ≡ true
    → (d ≡ "raw") ⊎ ((d ≡ "historized") ⊎ (d ≡ "rejected"))
unfolding contains
dataset-cases d h = ground (arith, eq_iff d "raw", eq_iff d "historized", eq_iff d "rejected", h)

pub format-cases :
    (n : String) → contains n valid_export_formats ≡ true → (n ≡ "parquet") ⊎ (n ≡ "datapump")
unfolding contains
format-cases n h = ground (arith, eq_iff n "parquet", eq_iff n "datapump", h)

pub dataset-Found :
    (f d n : String)
    → (d ≡ "raw") ⊎ ((d ≡ "historized") ⊎ (d ≡ "rejected"))
    → (n ≡ "parquet") ⊎ (n ≡ "datapump")
    → Found f d n
unfolding sql_of begins all_chars dataset_time_column join_lines content_encoding_sql
    content_representation_sql blob_to_json_expr raw_parquet_sql raw_datapump_sql
    historized_parquet_sql historized_datapump_sql rejected_parquet_sql rejected_datapump_sql
dataset-Found f d n (inl e) (inl p) =
    rw (e, p) (_, refl, (raw_columns, refl, refl, refl, refl, (refl, refl, refl, refl)))
dataset-Found f d n (inl e) (inr p) =
    rw (e, p) (_, refl, (all_columns, refl, refl, refl, refl, (refl, refl, refl, refl)))
dataset-Found f d n (inr (inl e)) (inl p) =
    rw (e, p) (_, refl, (historized_columns, refl, refl, refl, refl, (refl, refl, refl, refl)))
dataset-Found f d n (inr (inl e)) (inr p) =
    rw (e, p) (_, refl, (all_columns, refl, refl, refl, refl, (refl, refl, refl, refl)))
dataset-Found f d n (inr (inr e)) (inl p) =
    rw (e, p) (_, refl, (rejected_columns, refl, refl, refl, refl, (refl, refl, refl, refl)))
dataset-Found f d n (inr (inr e)) (inr p) =
    rw (e, p) (_, refl, (all_columns, refl, refl, refl, refl, (refl, refl, refl, refl)))
