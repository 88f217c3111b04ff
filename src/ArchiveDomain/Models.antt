-- ===== src/ArchiveDomain/Models.antt =====
-- models.py: the data of a plan and of a run. Dicts are association lists.
use oci_iot_samples.Base.{String, Bool, Option, List, [], ◌∷◌}
use oci_iot_samples.Base.Json.{ℤ}
use oci_iot_samples.Base.Time.{Datetime}

abbrev pub valid_datasets : List String
valid_datasets = "raw" ∷ "historized" ∷ "rejected" ∷ []

abbrev pub export_format_parquet : String
export_format_parquet = "parquet"

abbrev pub export_format_datapump : String
export_format_datapump = "datapump"

abbrev pub valid_export_formats : List String
valid_export_formats = export_format_parquet ∷ export_format_datapump ∷ []

pub record DatasetPlan : Type 0 where
  pub name : String
  pub retention_days : ℤ
  pub purge_boundary : Datetime
  pub window_start : Datetime
  pub window_end : Datetime

pub record ArchivePlan : Type 0 where
  pub now : Datetime
  pub selected_datasets : List String
  pub datasets : List (String × DatasetPlan)

pub record CheckpointState : Type 0 where
  pub last_successful_run_at : Option Datetime

pub record DatasetResult : Type 0 where
  pub name : String
  pub status : String
  pub export_mode : Option String
  pub export_format : Option String
  pub object_prefix : Option String
  pub object_names : List String
  pub error_message : Option String

pub record PlanResult : Type 0 where
  pub plan : ArchivePlan
  pub export_format : String
  pub retention_days : List (String × ℤ)
  pub checkpoint : CheckpointState

pub record RunResult : Type 0 where
  pub run_id : String
  pub mode : String
  pub export_format : String
  pub plan_result : PlanResult
  pub dataset_results : List DatasetResult
  pub checkpoint_advanced : Bool
  pub manifest_object_name : Option String
