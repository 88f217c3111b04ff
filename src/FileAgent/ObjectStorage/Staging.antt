-- ===== src/FileAgent/ObjectStorage/Staging.antt =====
-- `stage_upload`: what is asked of the client, and what the device gets.
use oci_iot_samples.Base.{ℕ, ◌+◌, ◌*◌, ◌≤◌, String, ◌≡◌, ◌≢◌, arith, max}
use oci_iot_samples.Base.Exec.{Exn, ok, raised}
use oci_iot_samples.Base.Time.{Datetime, micros, max_micros, minute_micros, plus}
use oci_iot_samples.FileAgent.Models.{validate_transaction_id}
use oci_iot_samples.FileAgent.ObjectStorage.{
  ServiceState, Settings, StageUploadResult, stage_upload, ttl_minutes, complete_upload,
  find_upload_par,
}
use oci_iot_samples.FileAgent.ObjectStorage.Client.{ObjectStorageClient}
use oci_iot_samples.FileAgent.ObjectStorage.Names.{par_name, object_prefix}

-- The granted lifetime, in minutes: at least one, at most the configured maximum if that is
-- positive, and what was asked for in between.
ttl_minutes_bounds :
    (cfg : Settings) (requested : ℕ)
    → (1 ≤ ttl_minutes cfg requested)
      × (ttl_minutes cfg requested ≤ max 1 cfg.max_ttl_minutes)
      × (1 ≤ requested → requested ≤ cfg.max_ttl_minutes → ttl_minutes cfg requested ≡ requested)
unfolding ttl_minutes
ttl_minutes_bounds cfg requested = (omega arith, omega arith, λ h k. omega arith)

module _ (C : ObjectStorageClient) (cfg : Settings) (st : ServiceState C.State) where
  -- When the clock answers and a staging returns, its result expires at least one minute after the
  -- clock's time and at most the configured maximum (or one minute, if that is 0) after it,
  -- whatever lifetime was asked for; the expiry is no later than the year 9999, and the prefix is
  -- the transaction's own.
  pub stage_upload_expiry :
      (d t : String) (requested : ℕ) (now : Datetime) (s : C.State) (r : StageUploadResult)
      → C.now st.store ≡ (ok now, s)
      → (stage_upload C cfg d t requested st).0 ≡ ok r
      → (micros now + minute_micros ≤ micros r.time_expires)
        × (micros r.time_expires ≤ micros now + max 1 cfg.max_ttl_minutes * minute_micros)
        × (micros r.time_expires ≤ max_micros)
        × (object_prefix d t ≡ ok r.prefix)
  unfolding stage_upload plus
  stage_upload_expiry d t requested now s r clock h = ground (arith, clock)

  -- When the clock answers and the validation of an id raises: completing its upload raises the
  -- same and leaves the service's state as it is, and staging it does not return and leaves the
  -- state that the clock left.
  pub invalid_id-untouched :
      (fuel : ℕ) (d t : String) (requested : ℕ) (now : Datetime) (s : C.State) (e : Exn)
      (x : StageUploadResult)
      → C.now st.store ≡ (ok now, s)
      → validate_transaction_id t ≡ raised e
      → (complete_upload C cfg fuel d t st ≡ (raised e, st))
        × ((stage_upload C cfg d t requested st).1 ≡ record st { store = s })
        × ((stage_upload C cfg d t requested st).0 ≢ ok x)
  unfolding stage_upload complete_upload find_upload_par par_name object_prefix
  invalid_id-untouched fuel d t requested now s e x clock bad =
      (ground (arith, bad), ground (arith, clock, bad), ground (arith, clock, bad))
