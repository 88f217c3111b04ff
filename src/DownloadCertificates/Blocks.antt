-- ===== src/DownloadCertificates/Blocks.antt =====
-- What the loop over the map writes: a block of files for each certificate.
use oci_iot_samples.Base.{
  ℕ, String, ◌≡◌, ◌≢◌, refl, Bool, true, false, Option, none, some, List, [], ◌∷◌, ◌++◌, given,
  arith, truthy, strip_by, is_space, if◌then◌else◌,
}
use oci_iot_samples.Base.Json.{Value, Fields, end, field}
use oci_iot_samples.Base.Outcomes
use oci_iot_samples.Base.Exec.{Exec, Outcome, ok, raised, pending, ◌>>=◌, lift}
use oci_iot_samples.DownloadCertificates.{
  System, Arguments, Bundle, Response, fetch_certificate_bundle, encrypt_private_key, export_pfx,
  path_of, cas_of, read_blocks, append_read,
}
use oci_iot_samples.DownloadCertificates.Writes.{
  Write, text_file, binary_file, tracing, Silent, kept,
}

-- The files and the console take what they are given, and the other calls end, as they like.
pub record Runs {W : Type 0} (system : System W) : Type 0 where
  pub printed : (message : String) (w : W) → (system.print message w).0 ≡ ok tt
  pub error_printed : (message : String) (w : W) → (system.print_error message w).0 ≡ ok tt
  pub text_written : (path content : String) (w : W) → (system.write_text path content w).0 ≡ ok tt
  pub bytes_written :
      (path : String) (content : List ℕ) (w : W) → (system.write_bytes path content w).0 ≡ ok tt
  pub fetch_ends : (ocid : Value) (w : W) → (system.get_certificate_bundle ocid w).0 ≢ pending
  pub key_ends : (pem : String) → system.load_pem_private_key pem ≢ pending
  pub certificate_ends : (pem : String) → system.load_pem_x509_certificate pem ≢ pending
  pub encryption_ends :
      (key : system.PrivateKey) (password : String) (w : W)
      → (system.private_bytes key password w).0 ≢ pending
  pub serialize_ends :
      (cn : String) (key : system.PrivateKey) (cert : system.Certificate)
      (cas : Option (List system.Certificate)) (password : String) (w : W)
      → (system.serialize cn key cert cas password w).0 ≢ pending

abbrev pub same : {A : Type 0} → A → A
same a = a

-- The body of a response that has one.
abbrev pub body_of : Option Response → Option Bundle
body_of none = none
body_of (some response) = elim response.body [ none ↦ none | some body ↦ body ]

module _ {W : Type 0} (system : System W) where
  pub fetch-Silent :
      (ocid : Value)
      → Silent
          (fetch_certificate_bundle (tracing system) ocid)
          (fetch_certificate_bundle system ocid)
  unfolding fetch_certificate_bundle
  fetch-Silent ocid w t = ground arith

  pub encrypt-Silent :
      (key_pem password : String)
      → Silent
          (encrypt_private_key (tracing system) key_pem password)
          (encrypt_private_key system key_pem password)
  unfolding encrypt_private_key
  encrypt-Silent key_pem password w t = ground arith

  pub export-Silent :
      (cn cert_pem key_pem : String) (chain_pem : Option String) (password : String)
      → Silent
          (export_pfx (tracing system) cn cert_pem key_pem chain_pem password)
          (export_pfx system cn cert_pem key_pem chain_pem password)
  unfolding export_pfx
  export-Silent cn cert_pem key_pem chain_pem password w t = ground arith

module _ {W : Type 0} (system : System W) where
  abbrev pub encryption : String → String → Exec W String
  encryption key_pem password =
      lift (system.load_pem_private_key key_pem) >>= λ key. system.private_bytes key password

  -- The bundle that a fetch from a state gives, if it gives one.
  abbrev pub fetched : Value → W → Option Bundle
  fetched ocid w = kept body_of (system.get_certificate_bundle ocid w).0

  abbrev pub text_or : String → Option String → String
  text_or plain none = plain
  text_or plain (some encrypted) = encrypted

  -- The key's text, where `w` is the state that its encryption begins in.
  abbrev pub key_text : Option String → String → W → String
  key_text none key_pem w = key_pem
  key_text (some password) key_pem w = text_or key_pem (kept some (encryption key_pem password w).0)

  module _ (args : Arguments) where
    abbrev pub pfx_file : String → Option (List ℕ) → List Write
    pfx_file cn none = []
    pfx_file cn (some []) = []
    pfx_file cn (some (b ∷ bs)) = binary_file (path_of system args cn ".pfx") (b ∷ bs) ∷ []

    -- The file of the PFX bundle, where `w` is the state that its export begins in.
    abbrev pub pfx_files : String → String → String → String → Option String → W → List Write
    pfx_files cn cert_pem chain_pem key_pem none w = []
    pfx_files cn cert_pem chain_pem key_pem (some password) w =
        pfx_file cn
          (kept same (export_pfx system cn cert_pem key_pem (some chain_pem) password w).0)

    abbrev pub files : String → Option String → Option String → Option String → W → W → List Write
    files cn (some cert_pem) (some chain_pem) (some key_pem) w v =
        text_file (path_of system args cn ".cert.pem") cert_pem
        ∷ text_file (path_of system args cn ".chain.pem") chain_pem
        ∷ text_file (path_of system args cn ".key.pem")
            (key_text (given args.key_password) key_pem w)
        ∷ pfx_files cn cert_pem chain_pem key_pem (given args.pfx_password) v
    files cn _ _ _ w v = []

    -- The writes for a certificate, by its bundle.
    abbrev pub block : String → Option Bundle → W → W → List Write
    block cn none w v = []
    block cn (some bundle) w v =
        files cn (given bundle.certificate_pem) (given bundle.cert_chain_pem)
          (given bundle.private_key_pem) w v

    -- A block for each item of the map, in its order, where `u`, `w` and `v` are the states that the fetch, the
    -- encryption and the export begin in.
    pub data Blocks : Fields → List Write → Type 0 where
      no_blocks : Blocks end []
      a_block :
          {cn : String} {ocid : Value} {rest : Fields} {ws : List Write} (u w v : W)
          → Blocks rest ws
          → Blocks (field cn ocid rest) (block cn (fetched ocid u) w v ++ ws)

module _ {W : Type 0} (system : System W) (runs : Runs system) where
  pub fetch-kept :
      (ocid : Value) (w : W)
      → (fetch_certificate_bundle system ocid w).0 ≡ ok (fetched system ocid w)
  unfolding fetch_certificate_bundle
  fetch-kept ocid w = grind (arith, runs.fetch_ends, runs.error_printed)

  pub encrypt-kept :
      (key_pem password : String) (w : W)
      → (encrypt_private_key system key_pem password w).0
        ≡ ok (kept some (encryption system key_pem password w).0)
  unfolding encrypt_private_key
  encrypt-kept key_pem password w =
      grind (arith, runs.key_ends, runs.encryption_ends, runs.error_printed)

  part-ends :
      (b : Bool) (o : Outcome system.Certificate)
      (next : List system.Certificate → Outcome (List system.Certificate))
      (cas : List system.Certificate)
      → o ≢ pending
      → ((cs : List system.Certificate) → next cs ≢ pending)
      → (if b then Outcomes.◌>>=◌ (append_read o cas) next else next cas) ≢ pending
  part-ends false o next cas h k = k cas
  part-ends true (ok c) next cas h k = k (cas ++ (c ∷ []))
  part-ends true (raised e) next cas h k = k cas
  part-ends true pending next cas h k = absurd (h refl)

  read_blocks-ends :
      (parts : List String) (cas : List system.Certificate)
      → ¬ (read_blocks system parts cas ≡ pending)
  unfolding read_blocks
  read_blocks-ends [] cas = λ h. cc
  read_blocks-ends (part ∷ parts) cas =
      part-ends (truthy (strip_by is_space part)) _ (read_blocks system parts) cas
        (runs.certificate_ends _) (read_blocks-ends parts)

  cas_of-ends : (chain_pem : Option String) → cas_of system chain_pem ≢ pending
  unfolding cas_of
  cas_of-ends chain_pem = grind (arith, read_blocks-ends)

  pub export-kept :
      (cn cert_pem key_pem : String) (chain_pem : Option String) (password : String) (w : W)
      → (export_pfx system cn cert_pem key_pem chain_pem password w).0
        ≡ ok (kept same (export_pfx system cn cert_pem key_pem chain_pem password w).0)
  unfolding export_pfx
  export-kept cn cert_pem key_pem chain_pem password w = grind (
    arith, runs.key_ends, runs.certificate_ends, runs.serialize_ends, cas_of-ends,
    runs.error_printed,
  )
