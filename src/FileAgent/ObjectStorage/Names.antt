-- ===== src/FileAgent/ObjectStorage/Names.antt =====
-- The names and URLs that object_storage.py gives to the PAR of a transaction.
pub mod Injective
use oci_iot_samples.Base.{
  String, ◌<>◌, Bool, true, false, ◌||◌, if◌then◌else◌, starts_with, ends_with, rstrip_by, strip_by,
  is_slash,
}
use oci_iot_samples.Base.Exec.{Outcome, ok, raised, pending}
use oci_iot_samples.FileAgent.Models.{validate_transaction_id}

-- Continue with the id if it is valid, and raise the ValueError otherwise.
abbrev pub with_valid_id : Outcome String → (String → String) → Outcome String
with_valid_id (ok t) f = ok (f t)
with_valid_id (raised e) f = raised e
with_valid_id pending f = pending

-- PARService.par_name
unfoldable pub par_name : String → String → String → Outcome String
par_name prefix instance_id transaction_id =
    with_valid_id (validate_transaction_id transaction_id)
      λ t. prefix <> (":" <> (instance_id <> (":" <> t)))

-- PARService.object_prefix
unfoldable pub object_prefix : String → String → Outcome String
object_prefix instance_id transaction_id =
    with_valid_id (validate_transaction_id transaction_id) λ t. instance_id <> ("/" <> (t <> "/"))

-- PARService._full_access_url, given the client's endpoint
unfoldable pub full_access_url : String → String → String
full_access_url endpoint access_uri =
    if starts_with access_uri "http://" || starts_with access_uri "https://"
    then access_uri
    else rstrip_by is_slash endpoint <> access_uri

-- PARService._upload_url
unfoldable pub upload_url : String → String → String → String
unfolding full_access_url
upload_url endpoint access_uri prefix =
    let access_url = rstrip_by is_slash (full_access_url endpoint access_uri) in
    let normalized_prefix = strip_by is_slash prefix in
    if ends_with access_url normalized_prefix
    then access_url <> "/"
    else access_url <> ("/" <> (normalized_prefix <> "/"))
