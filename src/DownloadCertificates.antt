-- ===== src/DownloadCertificates.antt =====
-- samples/terraform/iot-from-scratch/download-certs/download-certificates.py: the certificates of a map are
-- fetched, and written to files with their chains and keys.
pub mod Writes
pub mod Blocks
mod Calls
pub mod Downloads
mod Tests
use oci_iot_samples.Base.{
  ℕ, zero, suc, ◌-◌, String, ◌<>◌, Char, Bool, true, false, not, ◌||◌, Option, none, some, List, [],
  ◌∷◌, ◌++◌, truthy, given, ends_with, begins, text_length, is_space, strip_by, starts_with,
  if◌then◌else◌,
}
use oci_iot_samples.Base.Json.{Value, Fields, end, field, as_fields}
use oci_iot_samples.Base.Outcomes
use oci_iot_samples.Base.Exec.{
  Exec, Exn, Outcome, ok, raised, pending, after, after_try, ◌>>=◌, ◌>>◌, pure, raise, lift,
  try_then,
}

-- parse_args
pub record Arguments : Type 0 where
  pub cert_json : String
  pub output_dir : String
  pub key_password : Option String
  pub pfx_password : Option String

pub record Bundle : Type 0 where
  pub certificate_pem : Option String
  pub cert_chain_pem : Option String
  pub private_key_pem : Option String

-- A response may lack the attribute `data`, and its data may be None.
pub record Response : Type 0 where
  pub body : Option (Option Bundle)

-- The client of the certificates service, the library `cryptography`, the files and the console.
-- `private_bytes` encrypts a key with a password, as a PEM text, and `serialize` is
-- serialize_key_and_certificates; both draw random numbers. `load_json` opens and
-- decodes a file, `make_client` reads the configuration of the SDK, and `error_text` and `text_of` are
-- `str` of an exception and of a JSON value.
pub record System (W : Type 0) : Type 1 where
  pub PrivateKey : Type 0
  pub Certificate : Type 0
  pub get_certificate_bundle : Value → Exec W (Option Response)
  pub load_pem_private_key : String → Outcome PrivateKey
  pub is_rsa : PrivateKey → Bool
  pub private_bytes : PrivateKey → String → Exec W String
  pub load_pem_x509_certificate : String → Outcome Certificate
  pub serialize :
      String → PrivateKey → Certificate → Option (List Certificate) → String → Exec W (List ℕ)
  pub write_text : String → String → Exec W (Unit {0})
  pub write_bytes : String → List ℕ → Exec W (Unit {0})
  pub is_file : String → Exec W Bool
  pub makedirs : String → Exec W (Unit {0})
  pub load_json : String → Exec W Value
  pub make_client : Exec W (Unit {0})
  pub print : String → Exec W (Unit {0})
  pub print_error : String → Exec W (Unit {0})
  pub error_text : Exn → String
  pub text_of : Value → String

-- os.path.join, where `/` separates
unfoldable pub join_path : String → String → String
unfolding ends_with
join_path directory name =
    if starts_with name "/"
    then name
    else if not (truthy directory) || ends_with directory "/"
    then directory <> name
    else directory <> ("/" <> name)

-- The character goes to the first of the parts.
push_char : Char → List String → List String
push_char c [] = String.◌∷◌ c "" ∷ []
push_char c (part ∷ parts) = String.◌∷◌ c part ∷ parts

-- s.split(marker), with `n` characters of a marker still to be passed over
unfoldable pub split_after : ℕ → String → String → List String
unfolding begins text_length push_char
split_after n marker String.[] = "" ∷ []
split_after (suc n) marker (String.◌∷◌ c s) = split_after n marker s
split_after zero marker (String.◌∷◌ c s) = elim (begins (String.◌∷◌ c s) marker) [
  | true ↦ "" ∷ split_after (text_length marker - 1) marker s
  | false ↦ push_char c (split_after zero marker s)
]

abbrev pub end_marker : String
end_marker = "-----END CERTIFICATE-----"

abbrev or_none : {A : Type 0} → List A → Option (List A)
or_none [] = none
or_none (x ∷ xs) = some (x ∷ xs)

-- A certificate that cannot be read is passed over.
abbrev append_read : {A : Type 0} → Outcome A → List A → Outcome (List A)
append_read (ok a) cas = ok (cas ++ (a ∷ []))
append_read (raised e) cas = ok cas
append_read pending cas = pending

module _ {W : Type 0} (system : System W) where
  open system use {PrivateKey, Certificate}

  abbrev lacking : Value → Exec W (Option Bundle)
  lacking ocid = do
    system.print_error (
        "Failed to retrieve bundle for OCID="
        <> (system.text_of ocid <> ": response is None or lacks 'data'"))
    pure none

  abbrev checked_response : Value → Option Response → Exec W (Option Bundle)
  checked_response ocid none = lacking ocid
  checked_response ocid (some response) = elim response.body [
    | none ↦ lacking ocid
    | some body ↦ pure body
  ]

  -- What prints in the `try` is covered by its handler, too.
  unfoldable pub fetch_certificate_bundle : Value → Exec W (Option Bundle)
  fetch_certificate_bundle ocid =
      try_then (system.get_certificate_bundle ocid >>= checked_response ocid)
        (λ e. do
          system.print_error (
              "Failed to retrieve bundle for OCID="
              <> (system.text_of ocid <> (": " <> system.error_text e)))
          pure none)
        pure

  unfoldable pub encrypt_private_key : String → String → Exec W (Option String)
  encrypt_private_key key_pem password =
      try_then
        (lift (system.load_pem_private_key key_pem) >>= λ key. system.private_bytes key password)
        (λ e. do
          system.print_error ("Failed to encrypt private key: " <> system.error_text e)
          pure none)
        (λ encrypted_pem. pure (some encrypted_pem))

  -- The loop over the parts of a chain, with what it has read.
  unfoldable pub read_blocks : List String → List Certificate → Outcome (List Certificate)
  unfolding strip_by
  read_blocks [] cas = ok cas
  read_blocks (part ∷ parts) cas =
      let cert_block = strip_by is_space part in
      if truthy cert_block
      then Outcomes.◌>>=◌
          (append_read
            (system.load_pem_x509_certificate (cert_block <> "\n-----END CERTIFICATE-----\n")) cas)
          (read_blocks parts)
      else read_blocks parts cas

  unfoldable pub cas_of : Option String → Outcome (Option (List Certificate))
  unfolding read_blocks split_after
  cas_of chain_pem = elim (given chain_pem) [
    | none ↦ ok none
    | some chain ↦
        Outcomes.◌>>=◌ (read_blocks (split_after zero end_marker chain) [])
          (λ cas. ok (or_none cas))
  ]

  module _ (cn cert_pem : String) (chain_pem : Option String) (password : String) where
    abbrev serialized : PrivateKey → Exec W (Option (List ℕ))
    serialized private_key = do
      cert ← lift (system.load_pem_x509_certificate cert_pem)
      cas ← lift (cas_of chain_pem)
      pfx ← system.serialize cn private_key cert cas password
      pure (some pfx)

    abbrev serialized_rsa : PrivateKey → Exec W (Option (List ℕ))
    serialized_rsa private_key = elim (system.is_rsa private_key) [
      | true ↦ serialized private_key
      | false ↦ system.print_error ("Unexpected private key type for CN=" <> cn) >> pure none
    ]

  unfoldable pub export_pfx :
      String → String → String → Option String → String → Exec W (Option (List ℕ))
  unfolding cas_of
  export_pfx cn cert_pem key_pem chain_pem password =
      try_then
        (lift (system.load_pem_private_key key_pem)
          >>= serialized_rsa cn cert_pem chain_pem password)
        (λ e. do
          system.print_error
              ("Failed to generate PFX for CN=" <> (cn <> (": " <> system.error_text e)))
          pure none)
        pure

  module _ (args : Arguments) where
    abbrev pub path_of : String → String → String
    path_of cn suffix = join_path args.output_dir (cn <> suffix)

    abbrev pub encrypted_or_plain : String → String → Option String → Exec W String
    encrypted_or_plain cn key_pem (some encrypted_pem) = pure encrypted_pem
    encrypted_or_plain cn key_pem none = do
      system.print ("Private key for " <> (cn <> " NOT encrypted due to error."))
      pure key_pem

    abbrev pub key_by : String → String → Option String → Exec W String
    key_by cn key_pem none = pure key_pem
    key_by cn key_pem (some password) =
        encrypt_private_key key_pem password >>= encrypted_or_plain cn key_pem

    -- `final_key_pem`
    unfoldable pub final_key : String → String → Exec W String
    final_key cn key_pem = key_by cn key_pem (given args.key_password)

    abbrev pub write_pfx : String → Option (List ℕ) → Exec W (Unit {0})
    write_pfx cn none = pure tt
    write_pfx cn (some []) = pure tt
    write_pfx cn (some (b ∷ bs)) = system.write_bytes (path_of cn ".pfx") (b ∷ bs)

    abbrev pub write_exported :
        String → String → String → String → Option String → Exec W (Unit {0})
    write_exported cn cert_pem chain_pem key_pem none = pure tt
    write_exported cn cert_pem chain_pem key_pem (some password) =
        export_pfx cn cert_pem key_pem (some chain_pem) password >>= write_pfx cn

    unfoldable pub write_bundle : String → String → String → String → Exec W (Unit {0})
    write_bundle cn cert_pem chain_pem key_pem =
        write_exported cn cert_pem chain_pem key_pem (given args.pfx_password)

    unfoldable pub save_files : String → String → String → String → Exec W (Unit {0})
    save_files cn cert_pem chain_pem key_pem = do
      system.write_text (path_of cn ".cert.pem") cert_pem
      system.write_text (path_of cn ".chain.pem") chain_pem
      final_key_pem ← final_key cn key_pem
      system.write_text (path_of cn ".key.pem") final_key_pem
      write_bundle cn cert_pem chain_pem key_pem

    abbrev missing_fields : String → Exec W (Unit {0})
    missing_fields cn =
        system.print_error ("API response missing required PEM fields for CN=" <> cn)

    abbrev pub save_given :
        String → Option String → Option String → Option String → Exec W (Unit {0})
    save_given cn (some cert_pem) (some chain_pem) (some key_pem) =
        save_files cn cert_pem chain_pem key_pem
    save_given cn _ _ _ = missing_fields cn

    -- What follows the fetch.
    unfoldable pub save_bundle : String → Option Bundle → Exec W (Unit {0})
    save_bundle cn none = system.print ("Skipping " <> (cn <> ": could not fetch bundle"))
    save_bundle cn (some bundle) =
        save_given cn (given bundle.certificate_pem) (given bundle.cert_chain_pem)
          (given bundle.private_key_pem)

    unfoldable pub process_single_certificate : String → Value → Exec W (Unit {0})
    process_single_certificate cn ocid = do
      system.print ("Processing " <> cn)
      bundle ← fetch_certificate_bundle ocid
      save_bundle cn bundle

    -- The loop of `main` over the items of the map.
    unfoldable pub process_all : Fields → Exec W (Unit {0})
    process_all end = pure tt
    process_all (field cn ocid rest) = process_single_certificate cn ocid >> process_all rest

    abbrev exit_error : String → Exec W ℕ
    exit_error message = system.print_error message >> pure 1

    abbrev process_map : Option Fields → Exec W ℕ
    process_map none = exit_error "Input file must be a JSON object mapping CN to OCID."
    process_map (some cert_map) = do
      system.make_client
      process_all cert_map
      system.print "All available certificates processed."
      pure 0

    abbrev process_file : Bool → Exec W ℕ
    process_file false = exit_error ("Error: File " <> (args.cert_json <> " does not exist."))
    process_file true = do
      system.makedirs args.output_dir
      decoded ← system.load_json args.cert_json
      process_map (as_fields decoded)

    -- `main`, with the program's exit code
    unfoldable pub main : Exec W ℕ
    unfolding as_fields
    main = system.is_file args.cert_json >>= process_file
