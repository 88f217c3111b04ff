-- ===== src/DownloadCertificates/Downloads.antt =====
-- The program returns, with the blocks of files of its certificates written.
use oci_iot_samples.DownloadCertificates.Calls.{
  print-Does, nothing-Does, missing-Does, encrypt-Does, fetch-Does, export-Does,
}
use oci_iot_samples.Base.{
  ℕ, String, true, ◌≡◌, refl, sym, ap, ◌∙◌, subst, Option, none, some, List, [], ◌∷◌, ◌++◌, given,
}
use oci_iot_samples.Base.Json.{Value, obj, Fields, end, field, as_fields}
use oci_iot_samples.Base.Exec.{ok, pure}
use oci_iot_samples.DownloadCertificates.{
  System, Arguments, Bundle, fetch_certificate_bundle, encrypt_private_key, export_pfx, final_key,
  write_bundle, save_files, save_bundle, process_single_certificate, process_all, main, save_given,
  write_exported, write_pfx, encrypted_or_plain, key_by,
}
use oci_iot_samples.DownloadCertificates.Writes.{
  Write, binary_file, Traced, tracing, Does, Does-bind, Does-next, Does-wrote, Does-weaken,
  pure-Does, recorded-Does, kept,
}
use oci_iot_samples.DownloadCertificates.Blocks.{
  Runs, same, key_text, text_or, encryption, fetched, pfx_file, pfx_files, files, block, Blocks,
  no_blocks, a_block,
}

module _ {W : Type 0} (system : System W) (runs : Runs system) where
  abbrev traced : System (Traced W)
  traced = tracing system

  module _ (args : Arguments) where
    plain-Does :
        (cn key_pem : String) (encrypted : Option String)
        → Does
            (encrypted_or_plain traced args cn key_pem encrypted)
            (λ k ws. (ws ≡ []) × (text_or system key_pem encrypted ≡ k))
    plain-Does cn key_pem none =
        Does-next (traced.print _) (λ _. pure key_pem) (λ _. Unit)
          (λ k ws. (ws ≡ []) × (key_pem ≡ k)) (print-Does system runs _) (λ _ _. pure-Does key_pem)
    plain-Does cn key_pem (some encrypted) = pure-Does encrypted

    key-Does :
        (cn key_pem : String) (password : Option String)
        → Does
            (key_by traced args cn key_pem password)
            (λ k ws. (ws ≡ []) × ((w : W) × (key_text system password key_pem w ≡ k)))
    key-Does cn key_pem none = λ w t.
        let (k, w', ws, e, (empty, eq)) = pure-Does key_pem w t in (k, w', ws, e, (empty, (w, eq)))
    key-Does cn key_pem (some password) =
        Does-next (encrypt_private_key traced key_pem password)
          (encrypted_or_plain traced args cn key_pem)
          (λ k. (w : W) × (kept some (encryption system key_pem password w).0 ≡ k))
          (λ k ws. (ws ≡ []) × ((w : W) × (key_text system (some password) key_pem w ≡ k)))
          (encrypt-Does system runs key_pem password)
          (λ a (u, eq).
            Does-weaken (encrypted_or_plain traced args cn key_pem a)
              (λ k ws. (ws ≡ []) × (text_or system key_pem a ≡ k)) _ (plain-Does cn key_pem a)
              (λ k ws (empty, text). (empty, (u, ap (text_or system key_pem) eq ∙ text))))

    pfx-Does :
        (cn : String) (b : Option (List ℕ))
        → Does (write_pfx traced args cn b) (λ _ ws. ws ≡ pfx_file system args cn b)
    pfx-Does cn none =
        λ w t. let (k, w', ws, e, (empty, _)) = pure-Does tt w t in (k, w', ws, e, empty)
    pfx-Does cn (some []) =
        λ w t. let (k, w', ws, e, (empty, _)) = pure-Does tt w t in (k, w', ws, e, empty)
    pfx-Does cn (some (b ∷ bs)) =
        recorded-Does (binary_file _ (b ∷ bs)) (system.write_bytes _ (b ∷ bs)) tt
          (runs.bytes_written _ (b ∷ bs))

    exported-Does :
        (cn cert_pem chain_pem key_pem : String) (password : Option String)
        → Does (write_exported traced args cn cert_pem chain_pem key_pem password) (λ _ ws.
          (v : W) × (ws ≡ pfx_files system args cn cert_pem chain_pem key_pem password v))
    exported-Does cn cert_pem chain_pem key_pem none =
        λ w t. let (k, w', ws, e, (empty, _)) = pure-Does tt w t in (k, w', ws, e, (w, empty))
    exported-Does cn cert_pem chain_pem key_pem (some password) =
        Does-next (export_pfx traced cn cert_pem key_pem (some chain_pem) password)
          (write_pfx traced args cn)
          (λ b.
            (w : W) × (kept same
                (export_pfx system cn cert_pem key_pem (some chain_pem) password w).0
              ≡ b))
          (λ _ ws.
            (v : W) × (ws ≡ pfx_files system args cn cert_pem chain_pem key_pem (some password) v))
          (export-Does system runs cn cert_pem key_pem chain_pem password)
          (λ b (v, eq).
            Does-weaken (write_pfx traced args cn b) (λ _ ws. ws ≡ pfx_file system args cn b) _
              (pfx-Does cn b) (λ _ ws e. (v, e ∙ ap (pfx_file system args cn) (sym eq))))

    save_files-Does :
        (cn cert_pem chain_pem key_pem : String)
        → Does (save_files traced args cn cert_pem chain_pem key_pem) (λ _ ws.
          (w : W) × (v : W) × (ws
            ≡ files system args cn (some cert_pem) (some chain_pem) (some key_pem) w v))
    unfolding save_files final_key write_bundle
    save_files-Does cn cert_pem chain_pem key_pem =
        Does-wrote (traced.write_text _ cert_pem) _ _ _
          (recorded-Does _ (system.write_text _ cert_pem) tt (runs.text_written _ cert_pem))
          (λ _.
            Does-wrote (traced.write_text _ chain_pem) _ _ _
              (recorded-Does _ (system.write_text _ chain_pem) tt (runs.text_written _ chain_pem))
              (λ _.
                Does-next (final_key traced args cn key_pem) _ _ _
                  (key-Does cn key_pem (given args.key_password))
                  (λ k (w, eq).
                    Does-wrote (traced.write_text _ k) _ _ _
                      (recorded-Does _ (system.write_text _ k) tt (runs.text_written _ k))
                      (λ _.
                        Does-weaken (write_bundle traced args cn cert_pem chain_pem key_pem) _ _
                          (exported-Does cn cert_pem chain_pem key_pem (given args.pfx_password))
                          (λ _ ws (v, e). (w, v, cc (eq, e)))))))

    given_fields-Does :
        (cn : String) (cert chain key : Option String)
        → Does
            (save_given traced args cn cert chain key)
            (λ _ ws. (w : W) × (v : W) × (ws ≡ files system args cn cert chain key w v))
    given_fields-Does cn (some cert) (some chain) (some key) = save_files-Does cn cert chain key
    given_fields-Does cn none chain key = missing-Does system runs _
    given_fields-Does cn (some cert) none key = missing-Does system runs _
    given_fields-Does cn (some cert) (some chain) none = missing-Does system runs _

    save_bundle-Does :
        (cn : String) (bundle : Option Bundle)
        → Does
            (save_bundle traced args cn bundle)
            (λ _ ws. (w : W) × (v : W) × (ws ≡ block system args cn bundle w v))
    unfolding save_bundle
    save_bundle-Does cn none =
        nothing-Does system runs (traced.print _) (system.print _) (λ w t. refl) (runs.printed _)
    save_bundle-Does cn (some bundle) = given_fields-Does cn _ _ _

    process-Does :
        (cn : String) (ocid : Value)
        → Does (process_single_certificate traced args cn ocid) (λ _ ws.
          (u : W) × (w : W) × (v : W) × (ws ≡ block system args cn (fetched system ocid u) w v))
    unfolding process_single_certificate
    process-Does cn ocid = Does-next (traced.print _) _ _ _ (print-Does system runs _) (λ _ _.
        Does-next (fetch_certificate_bundle traced ocid) (save_bundle traced args cn) _ _
          (fetch-Does system runs ocid)
          (λ bundle (u, eq).
            Does-weaken (save_bundle traced args cn bundle) _ _ (save_bundle-Does cn bundle)
              (λ _ ws (w, v, e). (u, w, v, e ∙ ap (λ b. block system args cn b w v) (sym eq)))))

    all-Does :
        (cert_map : Fields)
        → Does (process_all traced args cert_map) (λ _ ws. Blocks system args cert_map ws)
    unfolding process_all
    all-Does end = λ w t.
        let (k, w', ws, e, (empty, _)) = pure-Does tt w t in
        (k, w', ws, e, subst (Blocks system args end) (sym empty) no_blocks)
    all-Does (field cn ocid rest) =
        Does-bind (process_single_certificate traced args cn ocid) _ _ _ (process-Does cn ocid)
          (λ _ ws (u, w, v, e).
            Does-weaken (process_all traced args rest) _ _ (all-Does rest) (λ _ vs blocks.
              subst (λ ws. Blocks system args (field cn ocid rest) (ws ++ vs)) (sym e)
                (a_block u w v blocks)))

    -- Where the program finds its file, makes its directory, reads a JSON object from the file and
    -- makes its client, with files and a console that take what they are given and other calls that
    -- end as they like, it ends with exit code 0, and what it wrote is a block of files for each
    -- item of the object, in the object's order. By what the client, the encryption and the export
    -- give from some states, a block is: no file where there is no bundle, or one that lacks one of
    -- the three texts, and else the certificate, the chain, the key, which is in clear text where no
    -- password is given or its encryption fails, and the PFX bundle if a password is given and
    -- the export gives one.
    pub main-Blocks :
        (cert_map : Fields) (w0 w1 w2 w3 w4 : W)
        → system.is_file args.cert_json w0 ≡ (ok true, w1)
        → system.makedirs args.output_dir w1 ≡ (ok tt, w2)
        → system.load_json args.cert_json w2 ≡ (ok (obj cert_map), w3)
        → system.make_client w3 ≡ (ok tt, w4)
        → (w' : W) × (ws : List Write) × (main (tracing system) args (w0, []) ≡ (ok 0, (w', ws)))
          × Blocks system args cert_map ws
    unfolding main as_fields
    main-Blocks cert_map w0 w1 w2 w3 w4 h1 h2 h3 h4 =
        let (_, w5, ws, e, blocks) = all-Does cert_map w4 [] in
        (
          (system.print "All available certificates processed." w5).1,
          ws,
          rw (h1, h2, h3, h4, e, runs.printed) refl,
          blocks,
        )
