-- ===== src/ArchiveDomain/Executor/Exports.antt =====
-- What an export leaves in Object Storage.
use text.Mathlib.TextLemmas.{nil-append}
use oci_iot_samples.Base.{
  ℕ, String, ◌<>◌, ◌≡◌, refl, ap, ◌∙◌, ◌⊎◌, inl, inr, Bool, true, false, ◌==◌, not, some, List, [],
  ◌∷◌, map, lower, arith, if◌then◌else◌,
}
use oci_iot_samples.Base.Exec.{
  Exec, Outcome, ok, raised, pending, after, ◌>>=◌, ◌>>◌, pure, raise, runtime_error, try_finally,
  >>=-eq-ok, try_finally-eq-returned,
}
use oci_iot_samples.Base.Json.{Fields}
use oci_iot_samples.ArchiveDomain.Models.{DatasetPlan, DatasetResult}
use oci_iot_samples.ArchiveDomain.Sql.{DatasetQuery, build_dataset_query}
use oci_iot_samples.ArchiveDomain.Executor.{
  LiveArchiveExecutor, write_rows, exported_text, execute_sql, execute_bulk, execute_dataset,
  actual_mode, part_name, on_storage, on_database, sql_result, with_cursor, with_connection,
  set_current_schema, time_binds, time_bind,
}
use oci_iot_samples.ArchiveDomain.Executor.Rows.{Fetches, lines, write_rows-Wrote}

module _ {D S Body : Type 0} (executor : LiveArchiveExecutor D S Body) where
  open executor use {database, formats}

  -- On a cursor of its own, the statement is executed and the cursor is closed.
  abbrev pub Executed : String → D → D → Type 0
  Executed statement d d' =
      (d1 : D) × (d2 : D) × (database.open_cursor d ≡ (ok tt, d1))
      × (database.execute statement [] d1 ≡ (ok tt, d2))
      × (database.close_cursor d2 ≡ (ok tt, d'))

  -- The session of an export, from the database `d` to `d'`, and its text: the schema is set; on a second cursor the
  -- query is executed with its times, the columns are those of the description, in lower case, and the
  -- text has a line for each of the rows that the cursor gave from then on until it was exhausted.
  abbrev pub IsExport : DatasetQuery → D → D → String → Type 0
  IsExport q d d' text =
      (names : List String) × (records : List Fields) × (d1 : D) × (d2 : D) × (d3 : D) × (d4 : D)
      × (d5 : D) × (d6 : D) × (d7 : D) × (database.connect d ≡ (ok tt, d1))
      × Executed
          ("alter session set current_schema = " <> (executor.iot_domain_short_name <> "__iot")) d1
          d2
      × (database.open_cursor d2 ≡ (ok tt, d3))
      × (database.execute q.sql_text (map (λ (n, t). (n, time_bind t)) q.binds) d3 ≡ (ok tt, d4))
      × (database.description d4 ≡ (ok names, d5))
      × Fetches executor (map lower names) d5 records d6
      × (database.close_cursor d6 ≡ (ok tt, d7))
      × (database.close d7 ≡ (ok tt, d'))
      × (text ≡ lines executor records)

  abbrev rows_of : ℕ → List String → Exec D String
  rows_of fuel names = write_rows executor fuel (map lower names) ""

  abbrev queried : ℕ → DatasetQuery → Exec D String
  queried fuel q =
      database.execute q.sql_text (time_binds q.binds) >> (database.description >>= rows_of fuel)

  abbrev session : ℕ → DatasetQuery → Exec D String
  session fuel q = set_current_schema executor >> with_cursor executor (queried fuel q)

  with_cursor-ok :
      {A : Type 0} (m : Exec D A) (a : A) (d d' : D)
      → with_cursor executor m d ≡ (ok a, d')
      → (d1 : D) × (d2 : D) × (database.open_cursor d ≡ (ok tt, d1))
        × (m d1 ≡ (ok a, d2))
        × (database.close_cursor d2 ≡ (ok tt, d'))
  with_cursor-ok m a d d' h =
      let (opened, d1, e, h1) =
        >>=-eq-ok database.open_cursor (λ _. try_finally m database.close_cursor) h in
      let (d2, closed, f, g) = try_finally-eq-returned m database.close_cursor h1 in
      (d1, d2, e, f, g)

  with_connection-ok :
      {A : Type 0} (m : Exec D A) (a : A) (d d' : D)
      → with_connection executor m d ≡ (ok a, d')
      → (d1 : D) × (d2 : D) × (database.connect d ≡ (ok tt, d1))
        × (m d1 ≡ (ok a, d2))
        × (database.close d2 ≡ (ok tt, d'))
  with_connection-ok m a d d' h =
      let (opened, d1, e, h1) = >>=-eq-ok database.connect (λ _. try_finally m database.close) h in
      let (d2, closed, f, g) = try_finally-eq-returned m database.close h1 in (d1, d2, e, f, g)

  set_current_schema-Executed :
      (d d' : D)
      → set_current_schema executor d ≡ (ok tt, d')
      → Executed
          ("alter session set current_schema = " <> (executor.iot_domain_short_name <> "__iot"))
          d
          d'
  unfolding set_current_schema
  set_current_schema-Executed d d' h = with_cursor-ok (database.execute _ []) tt d d' h

  exported_text-IsExport :
      (fuel : ℕ) (q : DatasetQuery) (text : String) (d d' : D)
      → exported_text executor fuel q d ≡ (ok text, d')
      → IsExport q d d' text
  unfolding exported_text
  exported_text-IsExport fuel q text d d' h =
      let (d1, d7, connected, h1, closed) = with_connection-ok (session fuel q) text d d' h in
      let (set, d2, schema, h2) =
        >>=-eq-ok (set_current_schema executor) (λ _. with_cursor executor (queried fuel q)) h1 in
      let (d3, d6, opened, h3, ended) = with_cursor-ok (queried fuel q) text d2 d7 h2 in
      let (run, d4, executed, h4) =
        >>=-eq-ok (database.execute q.sql_text (time_binds q.binds))
          (λ _. database.description >>= rows_of fuel) h3 in
      let (names, d5, described, h5) = >>=-eq-ok database.description (rows_of fuel) h4 in
      let (records, fetches, t) =
        write_rows-Wrote executor (map lower names) fuel "" text d5 d6 h5 in
      (
        names,
        records,
        d1,
        d2,
        d3,
        d4,
        d5,
        d6,
        d7,
        connected,
        set_current_schema-Executed d1 d2 schema,
        opened,
        executed,
        described,
        fetches,
        ended,
        closed,
        t ∙ nil-append (lines executor records),
      )

  -- What comes of an export, in a storage that was `s`.
  abbrev pub Kept : S → Outcome DatasetResult → S → Type 0
  Kept s r s' =
      (s' ≡ s)
      × ((result : DatasetResult)
          → r ≡ ok result
          → (result.object_names ≡ []) × (result.export_mode ≡ some "bulk"))

  abbrev pub Stored : Outcome DatasetQuery → String → D → D → S → Outcome DatasetResult → S → Type 0
  Stored query object_prefix d d' s r s' =
      (q : DatasetQuery) × (text : String) × (query ≡ ok q)
      × IsExport q d d' text
      × ((executor.put_object (part_name executor object_prefix) (executor.gzip text) s).1 ≡ s')
      × ((result : DatasetResult)
          → r ≡ ok result
          → (result.object_names ≡ part_name executor object_prefix ∷ [])
            × ((executor.put_object (part_name executor object_prefix) (executor.gzip text) s).0
                ≡ ok tt))

  module _ (dataset object_prefix export_format : String) (s : S) where
    abbrev name : String
    name = part_name executor object_prefix

    abbrev Either : Outcome DatasetQuery → D → Outcome DatasetResult × (D × S) → Type 0
    Either query d r = Kept s r.0 r.1.1 ⊎ Stored query object_prefix d r.1.0 s r.0 r.1.1

    abbrev store_text : String → Exec (D × S) DatasetResult
    store_text text =
        on_storage executor (executor.put_object name (executor.gzip text))
        >> pure (sql_result executor dataset object_prefix export_format name)

    store_text-Stored :
        (q : DatasetQuery) (text : String) (o : Outcome (Unit {0})) (s' : S) (d d' : D)
        → IsExport q d d' text
        → executor.put_object name (executor.gzip text) s ≡ (o, s')
        → Either (ok q) d (store_text text (d', s))
    store_text-Stored q text (ok tt) s' d d' x e =
        rw (e) (inr (q, text, refl, x, ap (λ r. r.1) e, λ result h. (cc, ap (λ r. r.0) e)))
    store_text-Stored q text (raised y) s' d d' x e =
        rw (e) (inr (q, text, refl, x, ap (λ r. r.1) e, λ result h. cc))
    store_text-Stored q text pending s' d d' x e =
        rw (e) (inr (q, text, refl, x, ap (λ r. r.1) e, λ result h. cc))

    text-Either :
        (fuel : ℕ) (q : DatasetQuery) (o : Outcome String) (d d' : D)
        → exported_text executor fuel q d ≡ (o, d')
        → Either (ok q) d (after o (d', s) store_text)
    text-Either fuel q (ok text) d d' e =
        store_text-Stored q text _ _ d d' (exported_text-IsExport fuel q text d d' e) refl
    text-Either fuel q (raised y) d d' e = inl (refl, λ result h. cc)
    text-Either fuel q pending d d' e = inl (refl, λ result h. cc)

    query-Either :
        (fuel : ℕ) (o : Outcome DatasetQuery) (d : D)
        → Either o d (
            after o
              (d, s)
              (λ q. on_database executor (exported_text executor fuel q) >>= store_text))
    query-Either fuel (ok q) d = text-Either fuel q _ d _ refl
    query-Either fuel (raised y) d = inl (refl, λ result h. cc)
    query-Either fuel pending d = inl (refl, λ result h. cc)

    -- The choice of `execute_dataset`, of what its two parts keep.
    by_mode :
        (is_sql is_parquet is_bulk : Bool) (query : Outcome DatasetQuery) (d : D)
        (sql bulk : Exec (D × S) DatasetResult)
        → Either query d (sql (d, s))
        → Kept s (bulk (d, s)).0 (bulk (d, s)).1.1
        → Either query d (
            (if is_sql
                then (if not is_parquet
                    then raise (runtime_error "sql mode supports only parquet exports")
                    else sql)
                else if is_bulk
                then bulk
                else sql)
              (d, s))
    by_mode true true b query d sql bulk h k = h
    by_mode true false b query d sql bulk h k = inl (refl, λ result e. cc)
    by_mode false a true query d sql bulk h k = inl k
    by_mode false a false query d sql bulk h k = h

  execute_sql-Either :
      (fuel : ℕ) (dataset object_prefix export_format : String) (p : DatasetPlan) (d : D) (s : S)
      → Either dataset object_prefix export_format s
          (build_dataset_query dataset p.window_start p.window_end export_format)
          d
          (execute_sql executor fuel dataset p object_prefix export_format (d, s))
  unfolding execute_sql
  execute_sql-Either fuel dataset object_prefix export_format p d s =
      query-Either dataset object_prefix export_format s fuel
        (build_dataset_query dataset p.window_start p.window_end export_format) d

  execute_bulk-Kept :
      (dataset object_prefix export_format : String) (p : DatasetPlan) (d : D) (s : S)
      → let r = execute_bulk executor dataset p object_prefix export_format (d, s) in
        Kept s r.0 r.1.1
  unfolding execute_bulk
  execute_bulk-Kept dataset object_prefix export_format p d s = ground arith

  -- An export puts nothing into Object Storage, and a result is then that of a bulk export and names no
  -- object, or it puts one object. In the second case its text is that of a session of the run's own: connected, with the domain's
  -- schema set, and with the query of the dataset and its window executed, it has a line for each row
  -- that the cursor gave from the execution on until it was exhausted, in their order. A result is then given
  -- only if the object was put, and names it alone. So no part of an export is ever put.
  pub execute_dataset-Stored :
      (fuel : ℕ) (dataset mode object_prefix export_format : String) (p : DatasetPlan) (d : D)
      (s : S)
      → let r = execute_dataset executor fuel dataset p mode object_prefix export_format (d, s) in
        Kept s r.0 r.1.1
        ⊎ Stored
            (build_dataset_query dataset p.window_start p.window_end export_format)
            object_prefix
            d
            r.1.0
            s
            r.0
            r.1.1
  unfolding execute_dataset
  execute_dataset-Stored fuel dataset mode object_prefix export_format p d s =
      by_mode dataset object_prefix export_format s (actual_mode executor mode == "sql")
        (export_format == "parquet") (actual_mode executor mode == "bulk")
        (build_dataset_query dataset p.window_start p.window_end export_format) d _ _
        (execute_sql-Either fuel dataset object_prefix export_format p d s)
        (execute_bulk-Kept dataset object_prefix export_format p d s)
