-- ===== src/ArchiveDomain/Sql/Texts.antt =====
-- The texts of sql.py. A text of several lines is that of the source, stripped.
use oci_iot_samples.Base.{ℕ, zero, suc, String, ◌<>◌, List, [], ◌∷◌}

-- A line break, and the indentation of the source.
spaces : ℕ → String
spaces zero = ""
spaces (suc n) = " " <> spaces n

unfoldable pub join_lines : ℕ → List String → String
unfolding spaces
join_lines n [] = ""
join_lines n (s ∷ []) = s
join_lines n (s ∷ t ∷ ts) = s <> ("\n" <> (spaces n <> join_lines n (t ∷ ts)))

unfoldable pub normalized_content_type_sql : String
normalized_content_type_sql = "lower(trim(regexp_substr(content_type, '^[^;]+')))"

unfoldable pub json_candidate_sql : String
json_candidate_sql = "to_clob(utl_raw.cast_to_varchar2(dbms_lob.substr(content, 32767, 1)))"

-- _content_encoding_sql and _content_representation_sql: the outcomes for text, JSON and other content
unfoldable pub content_encoding_sql : String
unfolding normalized_content_type_sql json_candidate_sql
content_encoding_sql =
    "case when "
    <> (normalized_content_type_sql
        <> (" like 'text/%' then 'text' when "
            <> (normalized_content_type_sql
                <> (" is null or instr("
                    <> (normalized_content_type_sql
                        <> (", 'json') > 0 then   case when "
                            <> (json_candidate_sql
                                <> " is json strict then 'json' else 'base64' end else 'base64' end")))))))

unfoldable pub content_representation_sql : String
unfolding normalized_content_type_sql json_candidate_sql
content_representation_sql =
    "case when "
    <> (normalized_content_type_sql
        <> (" like 'text/%' then 'json-string' when "
            <> (normalized_content_type_sql
                <> (" is null or instr("
                    <> (normalized_content_type_sql
                        <> (", 'json') > 0 then   case when "
                            <> (json_candidate_sql
                                <> " is json strict then 'parsed-json' else 'base64-string' end else 'base64-string' end")))))))

unfoldable pub blob_to_json_expr : String
blob_to_json_expr = "blob_to_json(content, content_type)"

unfoldable pub raw_parquet_sql : String
unfolding join_lines content_encoding_sql content_representation_sql blob_to_json_expr
raw_parquet_sql = join_lines 12 (
    "select"
    ∷ "    id,"
    ∷ "    digital_twin_instance_id,"
    ∷ "    endpoint,"
    ∷ "    time_received,"
    ∷ "    content_type,"
    ∷ ("    " <> (content_encoding_sql <> " as content_encoding,"))
    ∷ ("    " <> (content_representation_sql <> " as content_representation,"))
    ∷ ("    " <> (blob_to_json_expr <> " as content"))
    ∷ "from raw_data"
    ∷ "where time_received >= :window_start"
    ∷ "  and time_received < :window_end"
    ∷ "order by time_received, id"
    ∷ [])

unfoldable pub raw_datapump_sql : String
unfolding join_lines
raw_datapump_sql = join_lines 12 (
    "select *" ∷ "from raw_data" ∷ "where time_received >= :window_start"
    ∷ "  and time_received < :window_end" ∷ "order by time_received, id" ∷ [])

unfoldable pub historized_parquet_sql : String
unfolding join_lines
historized_parquet_sql = join_lines 12 (
    "select" ∷ "    id," ∷ "    digital_twin_instance_id," ∷ "    content_path,"
    ∷ "    time_observed," ∷ "    json_serialize(value returning varchar2(32767)) as value_json,"
    ∷ "    json_value(value, '$' returning number null on error) as value_number,"
    ∷ "    json_value(value, '$' returning varchar2(32767) null on error) as value_text"
    ∷ "from historized_data" ∷ "where time_observed >= :window_start"
    ∷ "  and time_observed < :window_end" ∷ "order by time_observed, id" ∷ [])

unfoldable pub historized_datapump_sql : String
unfolding join_lines
historized_datapump_sql = join_lines 12 (
    "select *" ∷ "from historized_data" ∷ "where time_observed >= :window_start"
    ∷ "  and time_observed < :window_end" ∷ "order by time_observed, id" ∷ [])

unfoldable pub rejected_parquet_sql : String
unfolding join_lines content_encoding_sql content_representation_sql blob_to_json_expr
rejected_parquet_sql = join_lines 12 (
    "select"
    ∷ "    id,"
    ∷ "    digital_twin_instance_id,"
    ∷ "    endpoint,"
    ∷ "    time_received,"
    ∷ "    reason_code,"
    ∷ "    reason_message,"
    ∷ "    content_type,"
    ∷ ("    " <> (content_encoding_sql <> " as content_encoding,"))
    ∷ ("    " <> (content_representation_sql <> " as content_representation,"))
    ∷ ("    " <> (blob_to_json_expr <> " as content"))
    ∷ "from rejected_data"
    ∷ "where time_received >= :window_start"
    ∷ "  and time_received < :window_end"
    ∷ "order by time_received, id"
    ∷ [])

unfoldable pub rejected_datapump_sql : String
unfolding join_lines
rejected_datapump_sql = join_lines 12 (
    "select *" ∷ "from rejected_data" ∷ "where time_received >= :window_start"
    ∷ "  and time_received < :window_end" ∷ "order by time_received, id" ∷ [])

unfoldable pub export_statement : String
unfolding join_lines
export_statement = join_lines 8 (
    "begin" ∷ "  dbms_cloud.export_data(" ∷ "    credential_name => :credential_name,"
    ∷ "    file_uri_list   => :file_uri_list,"
    ∷ "    format          => json_object('type' value :export_format),"
    ∷ "    query           => :query_text" ∷ "  );" ∷ "end;" ∷ [])
