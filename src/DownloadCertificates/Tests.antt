-- ===== src/DownloadCertificates/Tests.antt =====
-- The program at a map of two certificates, of which the service has one.
use oci_iot_samples.Base.{
  String, ◌≡◌, refl, ◌≢◌, ◌==◌, if◌then◌else◌, arith, true, Option, some, List, [], ◌∷◌, strip_by,
  lstrip_by, rstrip_by, begins, text_length, ends_with,
}
use oci_iot_samples.Base.Json.{Value, str, obj, Fields, end, field, as_fields}
use oci_iot_samples.Base.Exec.{Exec, ok, raised, pending, other_error, service_error}
use oci_iot_samples.DownloadCertificates.{
  System, Arguments, Response, Bundle, main, process_all, process_single_certificate, save_bundle,
  save_files, final_key, write_bundle, fetch_certificate_bundle, encrypt_private_key, export_pfx,
  cas_of, read_blocks, split_after, join_path,
}
use oci_iot_samples.DownloadCertificates.Writes.{Write, text_file, binary_file, tracing}
use oci_iot_samples.DownloadCertificates.Blocks.{Runs, Blocks}
use oci_iot_samples.DownloadCertificates.Downloads.{main-Blocks}

abbrev World : Type 0
World = Unit {0}

abbrev device_bundle : Bundle
device_bundle = record {
  certificate_pem = some "C";
  cert_chain_pem = some "A-----END CERTIFICATE-----\n";
  private_key_pem = some "K";
}

abbrev bundles : Value → Exec World (Option Response)
bundles (str ocid) w =
    if ocid == "ocid1"
    then (ok (some (record { body = some (some device_bundle) })), w)
    else (raised (service_error 404 "NotFound" "no such certificate"), w)
bundles ocid w = (raised (other_error "TypeError"), w)

abbrev sealed : String → String → Exec World String
sealed key password w =
    if password == "strong" then (ok "ENCRYPTED", w) else (raised (other_error "ValueError"), w)

abbrev cert_map : Fields
cert_map = field "lost" (str "ocid0") (field "device" (str "ocid1") end)

abbrev system : System World
system = record {
  PrivateKey = String;
  Certificate = String;
  get_certificate_bundle = bundles;
  load_pem_private_key = λ pem. ok pem;
  is_rsa = λ key. true;
  private_bytes = sealed;
  load_pem_x509_certificate = λ pem. ok pem;
  serialize = λ cn key cert cas password w. (ok (7 ∷ []), w);
  write_text = λ path content w. (ok tt, w);
  write_bytes = λ path content w. (ok tt, w);
  is_file = λ path w. (ok true, w);
  makedirs = λ path w. (ok tt, w);
  load_json = λ path w. (ok (obj cert_map), w);
  make_client = λ w. (ok tt, w);
  print = λ message w. (ok tt, w);
  print_error = λ message w. (ok tt, w);
  error_text = λ e. "error";
  text_of = λ v. "ocid";
}

abbrev pub args : Arguments
args = record {
  cert_json = "certificates.json";
  output_dir = "out";
  key_password = some "weak";
  pfx_password = some "pfx";
}

bundles-ends : (ocid : Value) (w : World) → (bundles ocid w).0 ≢ pending
bundles-ends ocid w = ground arith

sealed-ends : (key password : String) (w : World) → (sealed key password w).0 ≢ pending
sealed-ends key password w = ground arith

system-Runs : Runs system
system-Runs = record {
  printed = λ message w. refl;
  error_printed = λ message w. refl;
  text_written = λ path content w. refl;
  bytes_written = λ path content w. refl;
  fetch_ends = bundles-ends;
  key_ends = λ pem h. cc;
  certificate_ends = λ pem h. cc;
  encryption_ends = sealed-ends;
  serialize_ends = λ cn key cert cas password w h. cc;
}

main-Blocks_example :
    (w' : World) × (ws : List Write) × (main (tracing system) args (tt, []) ≡ (ok 0, (w', ws)))
    × Blocks system args cert_map ws
main-Blocks_example =
    main-Blocks system system-Runs args cert_map tt tt tt tt tt refl refl refl refl

-- Each file is in the directory, and the key is in clear text.
written : main (tracing system) args (tt, []) ≡ (
  ok 0,
  (
    tt,
    text_file "out/device.cert.pem" "C"
        ∷ text_file "out/device.chain.pem" "A-----END CERTIFICATE-----\n"
        ∷ text_file "out/device.key.pem" "K"
        ∷ binary_file "out/device.pfx" (7 ∷ [])
        ∷ [],
  ),
)
unfolding main process_all process_single_certificate save_bundle save_files final_key write_bundle
    fetch_certificate_bundle encrypt_private_key export_pfx cas_of read_blocks split_after join_path
    strip_by lstrip_by rstrip_by begins text_length ends_with as_fields
written = refl

chain_of_two :
    cas_of system (some "A-----END CERTIFICATE-----\nB\n-----END CERTIFICATE-----\n")
    ≡ ok (some ("A\n-----END CERTIFICATE-----\n" ∷ "B\n-----END CERTIFICATE-----\n" ∷ []))
unfolding cas_of read_blocks split_after strip_by lstrip_by rstrip_by begins text_length
chain_of_two = refl
