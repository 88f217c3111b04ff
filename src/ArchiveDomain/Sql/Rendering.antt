-- ===== src/ArchiveDomain/Sql/Rendering.antt =====
-- What the rendered query of a dataset selects.
use text.Mathlib.TextLemmas.{nil-append, cons-append}
use oci_iot_samples.Base.{
  ℕ, String, ◌<>◌, ◌≡◌, refl, Bool, true, [], ◌∷◌, arith, all_chars, begins, replace, contains,
  lower,
}
use oci_iot_samples.Base.Exec.{ok}
use oci_iot_samples.Base.Time.{Datetime, aware}
use oci_iot_samples.ArchiveDomain.Models.{valid_datasets, valid_export_formats}
use oci_iot_samples.ArchiveDomain.Sql.{
  DatasetQuery, dataset_time_column, query_of, build_dataset_query, oracle_timestamp_tz_literal,
  render_binds, render_dbms_cloud_query_text,
}
use oci_iot_samples.ArchiveDomain.Sql.Replacing.{
  no_colon, no_w, replace-no_colon, replace-no_w, replace-hit, replace-other, replace-none,
  begins-differ,
}
use oci_iot_samples.ArchiveDomain.Sql.Windows.{
  Clean, middle_of, last_of, select_window, Windows, dataset-cases, format-cases, dataset-Found,
}

module _ (first middle last : String) where
  -- Two texts in the places of the binds.
  abbrev around : String → String → String
  around from to = first <> (from <> (middle <> (to <> last)))

  start-replaced :
      (a : String)
      → Clean first middle last
      → replace ":window_start" a (around ":window_start" ":window_end") ≡ around a ":window_end"
  unfolding replace all_chars
  start-replaced a (f, m, l, w) =
      rw
        (
          replace-no_colon "indow_start" a first
              (":window_start" <> (middle <> (":window_end" <> last))) f,
          replace-hit "indow_start" a (middle <> (":window_end" <> last)),
          replace-no_colon "indow_start" a middle (":window_end" <> last) m,
          replace-other "indow_start" a "indow_end" last refl refl l,
        )
        refl

  end-replaced :
      (a b : String)
      → all_chars no_w a ≡ true
      → Clean first middle last
      → replace ":window_end" b (around a ":window_end") ≡ around a b
  unfolding replace
  end-replaced a b n (f, m, l, w) =
      let rest = middle <> (":window_end" <> last) in
      rw
        (
          replace-no_colon "indow_end" b first (a <> rest) f,
          replace-no_w "indow_end" b a rest n (begins-differ middle "w" (":window_end" <> last) w),
          replace-no_colon "indow_end" b middle (":window_end" <> last) m,
          replace-hit "indow_end" b last,
          replace-none "indow_end" b last l,
        )
        refl

all_chars-append :
    (p : ℕ → Bool) (s t : String)
    → all_chars p s ≡ true
    → all_chars p t ≡ true
    → all_chars p (s <> t) ≡ true
unfolding all_chars
all_chars-append p String.[] t h k = rw (nil-append t) k
all_chars-append p (String.◌∷◌ c s) t h k =
    rw (cons-append c s t) (ground (arith, all_chars-append p s t, h, k))

abbrev format : String
format = "', 'YYYY-MM-DD\"T\"HH24:MI:SS.FF6TZH:TZM')"

-- The literal of a time.
abbrev pub literal : (Datetime → String) → Datetime → String
literal utc_micros t = "to_timestamp_tz('" <> (utc_micros t <> format)

module _ (utc_micros : Datetime → String)
    (digits : (t : Datetime) → all_chars no_w (utc_micros t) ≡ true) where
  literal-no_w : (t : Datetime) → all_chars no_w (literal utc_micros t) ≡ true
  unfolding all_chars
  literal-no_w t =
      all_chars-append no_w "to_timestamp_tz('" (utc_micros t <> format) refl
        (all_chars-append no_w (utc_micros t) format (digits t) refl)

  render-Windows :
      (dataset column text : String) (s e : ℕ)
      → (w : Windows dataset column text)
      → render_binds utc_micros text (("window_start", aware s) ∷ ("window_end", aware e) ∷ [])
        ≡ ok (
            select_window w.0 dataset column
              (literal utc_micros (aware s))
              (literal utc_micros (aware e)))
  unfolding render_binds oracle_timestamp_tz_literal
  render-Windows dataset column text s e (columns, t, b, n, c, clean) =
      rw
        (
          t,
          start-replaced _ (middle_of column) (last_of column) (literal utc_micros (aware s)) clean,
          end-replaced _ (middle_of column) (last_of column) (literal utc_micros (aware s))
              (literal utc_micros (aware e)) (literal-no_w (aware s)) clean,
        )
        refl

  -- Every query of the three datasets, in either format, is built. As it is rendered for DBMS_CLOUD, it
  -- selects from the dataset's table where the dataset's time column is at or after the literal of
  -- the start and before the literal of the end, in the order of that column. What stands before
  -- reads no bind. The condition is that a time is written without a w.
  pub rendered_window :
      (dataset export_format : String) (s e : ℕ)
      → contains dataset valid_datasets ≡ true
      → contains (lower export_format) valid_export_formats ≡ true
      → (q : DatasetQuery) × (columns : String) × (build_dataset_query dataset
            (aware s)
            (aware e)
            export_format
          ≡ ok q)
        × (q.time_column ≡ dataset_time_column dataset)
        × (begins columns "select" ≡ true)
        × (all_chars no_colon columns ≡ true)
        × (render_dbms_cloud_query_text utc_micros q
            ≡ ok (
                select_window columns dataset q.time_column
                  (literal utc_micros (aware s))
                  (literal utc_micros (aware e))))
  unfolding build_dataset_query render_dbms_cloud_query_text
  rendered_window dataset export_format s e d f =
      let found =
        dataset-Found export_format dataset (lower export_format) (dataset-cases dataset d)
          (format-cases (lower export_format) f) in
      let built : build_dataset_query dataset (aware s) (aware e) export_format
          ≡ query_of dataset (aware s) (aware e) (ok (found.0, dataset_time_column dataset)) =
        rw (f, found.1) refl in
      (
        _,
        found.2.0,
        built,
        refl,
        found.2.2,
        found.2.3,
        render-Windows dataset (dataset_time_column dataset) found.0 s e found.2,
      )
