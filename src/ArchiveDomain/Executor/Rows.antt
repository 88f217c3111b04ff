-- ===== src/ArchiveDomain/Executor/Rows.antt =====
-- The rows of a cursor, and the lines that are written of them.
use text.Mathlib.TextLemmas.{append-nil, append_assoc}
use oci_iot_samples.Base.{
  ℕ, zero, suc, ◌<◌, String, ◌<>◌, ◌≡◌, refl, ap, ◌∙◌, Option, none, some, List, [], ◌∷◌, length,
  arith,
}
use oci_iot_samples.Base.Exec.{Exec, ok, ◌>>=◌, pure, >>=-eq-ok}
use oci_iot_samples.Base.Json.{Fields, end}
use oci_iot_samples.ArchiveDomain.Executor.{LiveArchiveExecutor, write_rows}
use oci_iot_samples.ArchiveDomain.Executor.Values.{DbValue, record_from}

module _ {D S Body : Type 0} (executor : LiveArchiveExecutor D S Body) where
  open executor use {database, formats}

  module _ (columns : List String) where
    -- The rows that are left to the cursor, as records, and the database after the last.
    pub data Fetches : D → List Fields → D → Type 0 where
      exhausted : {d d' : D} → database.next_row d ≡ (ok none, d') → Fetches d [] d'
      fetched :
          {d d1 d2 d' : D} {values : List DbValue} {fields : Fields} {records : List Fields}
          → database.next_row d ≡ (ok (some values), d1)
          → record_from formats database.read_lob end columns values d1 ≡ (ok fields, d2)
          → Fetches d2 records d'
          → Fetches d (fields ∷ records) d'

  -- A line for each record.
  abbrev pub lines : List Fields → String
  lines [] = ""
  lines (fields ∷ records) = formats.dumps fields <> ("\n" <> lines records)

  module _ (columns : List String) where
    written-lines :
        (written : String) (fields : Fields) (records : List Fields)
        → (written <> (formats.dumps fields <> "\n")) <> lines records
          ≡ written <> lines (fields ∷ records)
    written-lines written fields records =
        append_assoc written (formats.dumps fields <> "\n") (lines records)
        ∙ ap (λ x. written <> x) (append_assoc (formats.dumps fields) "\n" (lines records))

    -- With fuel for each row and one more, the loop ends after the last row, and has written a line for
    -- each row, in their order.
    pub write_rows-Fetches :
        (fuel : ℕ) (written : String) {d d' : D} {records : List Fields}
        → Fetches columns d records d'
        → length records < fuel
        → write_rows executor fuel columns written d ≡ (ok (written <> lines records), d')
    unfolding write_rows
    write_rows-Fetches zero written {d = d} {records = records} _ h = absurd (omega arith)
    write_rows-Fetches (suc fuel) written (exhausted e) h = rw (e, append-nil written) refl
    write_rows-Fetches (suc fuel) written (fetched {fields = fields} {records = records} e f more)
          h =
        let rest =
          write_rows-Fetches fuel (written <> (formats.dumps fields <> "\n")) more (omega arith) in
        rw (e, f, rest, written-lines written fields records) refl

    abbrev after_record : ℕ → String → Fields → Exec D String
    after_record fuel written fields =
        write_rows executor fuel columns (written <> (formats.dumps fields <> "\n"))

    abbrev after_row : ℕ → String → Option (List DbValue) → Exec D String
    after_row fuel written none = pure written
    after_row fuel written (some values) =
        record_from formats database.read_lob end columns values >>= after_record fuel written

    -- What was fetched, and the text that stands for it.
    abbrev Wrote : String → String → D → D → Type 0
    Wrote written text d d' =
        (records : List Fields) × Fetches columns d records d' × (text ≡ written <> lines records)

    row-Wrote :
        (fuel : ℕ) (written text : String) (row : Option (List DbValue)) (d d1 d' : D)
        → ((written text : String) (d d' : D)
            → write_rows executor fuel columns written d ≡ (ok text, d')
            → Wrote written text d d')
        → database.next_row d ≡ (ok row, d1)
        → after_row fuel written row d1 ≡ (ok text, d')
        → Wrote written text d d'
    row-Wrote fuel written text none d d1 d' rest e h =
        ([], exhausted (cc (e, h)), cc (append-nil written, h))
    row-Wrote fuel written text (some values) d d1 d' rest e h =
        let (fields, d2, f, h2) =
          >>=-eq-ok (record_from formats database.read_lob end columns values)
            (after_record fuel written) h in
        let (records, more, t) = rest _ text d2 d' h2 in
        (fields ∷ records, fetched e f more, t ∙ written-lines written fields records)

    pub write_rows-Wrote :
        (fuel : ℕ) (written text : String) (d d' : D)
        → write_rows executor fuel columns written d ≡ (ok text, d')
        → Wrote written text d d'
    unfolding write_rows
    write_rows-Wrote zero written text d d' h = cc
    write_rows-Wrote (suc fuel) written text d d' h =
        let (row, d1, e, h1) = >>=-eq-ok database.next_row (after_row fuel written) h in
        row-Wrote fuel written text row d d1 d' (write_rows-Wrote fuel) e h1
