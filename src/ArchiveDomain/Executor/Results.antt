-- ===== src/ArchiveDomain/Executor/Results.antt =====
-- The results of the live executor.
use oci_iot_samples.Base.{ℕ, String, ◌≡◌, Bool, true, false, arith, ◌==◌, not, if◌then◌else◌}
use oci_iot_samples.Base.Exec.{Exec, Exn, raise, ok}
use oci_iot_samples.ArchiveDomain.Models.{DatasetPlan, DatasetResult}
use oci_iot_samples.ArchiveDomain.Executor.{
  LiveArchiveExecutor, execute_dataset, execute_sql, execute_bulk, actual_mode,
}

-- The result is a success of the dataset.
abbrev pub Succeeds : String → DatasetResult → Type 0
Succeeds dataset r = (r.name ≡ dataset) × (r.status ≡ "succeeded")

module _ {D S Body : Type 0} (executor : LiveArchiveExecutor D S Body) where
  execute_sql-Succeeds :
      (fuel : ℕ) (dataset object_prefix export_format : String) (p : DatasetPlan) (w w' : D × S)
      (r : DatasetResult)
      → execute_sql executor fuel dataset p object_prefix export_format w ≡ (ok r, w')
      → Succeeds dataset r
  unfolding execute_sql
  execute_sql-Succeeds fuel dataset object_prefix export_format p w w' r h = ground arith

  execute_bulk-Succeeds :
      (dataset object_prefix export_format : String) (p : DatasetPlan) (w w' : D × S)
      (r : DatasetResult)
      → execute_bulk executor dataset p object_prefix export_format w ≡ (ok r, w')
      → Succeeds dataset r
  unfolding execute_bulk
  execute_bulk-Succeeds dataset object_prefix export_format p w w' r h = ground arith

  -- Whichever of the two is called, if one is.
  called-Succeeds :
      (sql_mode parquet bulk_mode : Bool) (dataset : String) (e : Exn)
      (sql bulk : Exec (D × S) DatasetResult) (w w' : D × S) (r : DatasetResult)
      → (sql w ≡ (ok r, w') → Succeeds dataset r)
      → (bulk w ≡ (ok r, w') → Succeeds dataset r)
      → (if sql_mode
            then (if not parquet then raise e else sql)
            else if bulk_mode
            then bulk
            else sql)
          w
        ≡ (ok r, w')
      → Succeeds dataset r
  called-Succeeds true true c dataset e sql bulk w w' r h k = h
  called-Succeeds true false c dataset e sql bulk w w' r h k = λ i. cc
  called-Succeeds false b true dataset e sql bulk w w' r h k = k
  called-Succeeds false b false dataset e sql bulk w w' r h k = h

  pub execute_dataset-Succeeds :
      (fuel : ℕ) (dataset mode object_prefix export_format : String) (p : DatasetPlan)
      (w w' : D × S) (r : DatasetResult)
      → execute_dataset executor fuel dataset p mode object_prefix export_format w ≡ (ok r, w')
      → Succeeds dataset r
  unfolding execute_dataset
  execute_dataset-Succeeds fuel dataset mode object_prefix export_format p w w' r h =
      called-Succeeds (actual_mode executor mode == "sql") (export_format == "parquet")
        (actual_mode executor mode == "bulk") dataset _
        (execute_sql executor fuel dataset p object_prefix export_format)
        (execute_bulk executor dataset p object_prefix export_format) w w' r
        (execute_sql-Succeeds fuel dataset object_prefix export_format p w w' r)
        (execute_bulk-Succeeds dataset object_prefix export_format p w w' r) h
