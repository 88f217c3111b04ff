-- ===== src/FileAgent/ObjectStorage/Client.antt =====
-- The Object Storage client of the OCI SDK, as far as object_storage.py calls it, over an unknown
-- state of the service.
use oci_iot_samples.Base.{String, Option, List}
use oci_iot_samples.Base.Exec.{Exec}
use oci_iot_samples.Base.Time.{Datetime}

-- A summary that has no name counts as one whose name is empty.
pub record ParSummary : Type 0 where
  pub id : String
  pub name : String
  pub time_created : Option Datetime

-- CreatePreauthenticatedRequestDetails; `access_type` is always AnyObjectWrite
pub record CreateDetails : Type 0 where
  pub name : String
  pub object_name : String
  pub time_expires : Datetime

pub record Page : Type 0 where
  pub pars : List ParSummary
  pub next_page : Option String

pub record Created : Type 0 where
  pub id : String
  pub access_uri : String

-- The namespace and the bucket come first.
pub record ObjectStorageClient : Type 1 where
  pub State : Type 0
  pub endpoint : String
  pub now : Exec State Datetime
  pub get_namespace : Exec State String
  pub create_preauthenticated_request : String → String → CreateDetails → Exec State Created
  pub list_preauthenticated_requests : String → String → Option String → Exec State Page
  pub delete_preauthenticated_request : String → String → String → Exec State (Unit {0})
