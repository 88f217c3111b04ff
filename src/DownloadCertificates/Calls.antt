-- ===== src/DownloadCertificates/Calls.antt =====
-- The calls of the program, with what they return and write.
use oci_iot_samples.Base.{String, ◌≡◌, refl, some, []}
use oci_iot_samples.Base.Json.{Value}
use oci_iot_samples.Base.Exec.{Exec, ok}
use oci_iot_samples.DownloadCertificates.{
  System, fetch_certificate_bundle, encrypt_private_key, export_pfx,
}
use oci_iot_samples.DownloadCertificates.Writes.{
  Traced, tracing, Silent, Does, Does-weaken, Silent-Does, kept,
}
use oci_iot_samples.DownloadCertificates.Blocks.{
  Runs, same, fetch-Silent, encrypt-Silent, export-Silent, fetch-kept, encrypt-kept, export-kept,
  encryption, fetched,
}

module _ {W : Type 0} (system : System W) (runs : Runs system) where
  abbrev traced : System (Traced W)
  traced = tracing system

  pub print-Does : (message : String) → Does (traced.print message) (λ _ ws. (ws ≡ []) × Unit {0})
  print-Does message =
      Does-weaken (traced.print message) (λ a ws. (ws ≡ []) × ((w : W) × (tt ≡ a))) _
        (Silent-Does (traced.print message) (system.print message) (λ _. tt) (λ w t. refl)
          (runs.printed message))
        (λ a ws (empty, _). (empty, tt))

  -- A message, with any two states beside it.
  pub nothing-Does :
      (m : Exec (Traced W) (Unit {0})) (n : Exec W (Unit {0}))
      → Silent m n
      → ((w : W) → (n w).0 ≡ ok tt)
      → Does m (λ _ ws. (w : W) × (v : W) × (ws ≡ []))
  nothing-Does m n h k w t =
      let (a, w', ws, e, (empty, _)) = Silent-Does m n (λ _. tt) h k w t in
      (a, w', ws, e, (w, w, empty))

  pub missing-Does :
      (message : String) → Does (traced.print_error message) (λ _ ws. (w : W) × (v : W) × (ws ≡ []))
  missing-Does message =
      nothing-Does (traced.print_error message) (system.print_error message) (λ w t. refl)
        (runs.error_printed message)

  pub encrypt-Does :
      (key_pem password : String)
      → Does
          (encrypt_private_key traced key_pem password)
          (λ k ws. (ws ≡ []) × ((w : W) × (kept some (encryption system key_pem password w).0 ≡ k)))
  encrypt-Does key_pem password =
      Silent-Does (encrypt_private_key traced key_pem password)
        (encrypt_private_key system key_pem password)
        (λ w. kept some (encryption system key_pem password w).0)
        (encrypt-Silent system key_pem password) (encrypt-kept system runs key_pem password)

  pub fetch-Does :
      (ocid : Value)
      → Does
          (fetch_certificate_bundle traced ocid)
          (λ b ws. (ws ≡ []) × ((w : W) × (fetched system ocid w ≡ b)))
  fetch-Does ocid =
      Silent-Does (fetch_certificate_bundle traced ocid) (fetch_certificate_bundle system ocid)
        (fetched system ocid) (fetch-Silent system ocid) (fetch-kept system runs ocid)

  pub export-Does :
      (cn cert_pem key_pem chain_pem password : String)
      → Does (export_pfx traced cn cert_pem key_pem (some chain_pem) password) (λ b ws.
        (ws ≡ [])
        × ((w : W) × (kept same
                (export_pfx system cn cert_pem key_pem (some chain_pem) password w).0
              ≡ b)))
  export-Does cn cert_pem key_pem chain_pem password =
      Silent-Does (export_pfx traced cn cert_pem key_pem (some chain_pem) password)
        (export_pfx system cn cert_pem key_pem (some chain_pem) password)
        (λ w. kept same (export_pfx system cn cert_pem key_pem (some chain_pem) password w).0)
        (export-Silent system cn cert_pem key_pem (some chain_pem) password)
        (export-kept system runs cn cert_pem key_pem (some chain_pem) password)
