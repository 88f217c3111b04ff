-- ===== src/ManageDt/Cli/Substituted.antt =====
-- What the loops of `load_config` do with the texts of a twin.
use oci_iot_samples.Base.{
  String, ◌≡◌, inl, inr, refl, subst, true, Option, some, contains, arith, eq_iff, eq_refl,
  Bool-cases, ◌==◌,
}
use oci_iot_samples.Base.Exec.{Outcome, ok}
use oci_iot_samples.Base.Outcomes
use oci_iot_samples.Base.Options
use oci_iot_samples.Base.Json.{
  Value, null, bool, num, real, arr, str, obj, Fields, field, end, get, set, as_fields,
}
use oci_iot_samples.ManageDt.Templates.{safe_substitute}
use oci_iot_samples.ManageDt.Cli.{keys, mapping, substitute_items, substitute_twins, text_in}

-- The items of a twin in a configuration.
abbrev pub twin_at : Value → String → Option Fields
twin_at config name = Options.◌>>=◌ (as_fields config) (λ fs.
    Options.◌>>=◌ (Options.◌>>=◌ (get "digital_twins" fs) as_fields)
      (λ twins. Options.◌>>=◌ (get name twins) as_fields))

pub get-set : (k : String) (v : Value) (fs : Fields) → get k (set k v fs) ≡ some v
unfolding get set
get-set k v end = ground (arith, eq_refl k)
get-set k v (field j u fs) = ground (arith, get-set k v fs, eq_refl k)

pub contains-keys :
    (k : String) (fs : Fields) → contains k (keys fs) ≡ true → (v : Value) × (get k fs ≡ some v)
unfolding keys contains get
contains-keys k end h = cc
contains-keys k (field j v fs) h = elim (Bool-cases (j == k)) [
  | inl e ↦ (v, rw e refl)
  | inr e ↦ rw e (contains-keys k fs (ground (arith, h, e, eq_iff j k, eq_iff k j)))
]

module _ (text_of : Value → String) (environ : Value) where
  -- The value was a text, and it was substituted.
  abbrev pub Substituted : Value → Option Value → Type 0
  Substituted v found =
      (s : String) × (t : String) × (v ≡ str s)
      × (safe_substitute text_of environ s ≡ ok t)
      × (found ≡ some (str t))

  text_in-str :
      (v : Value) (t : String) → text_in text_of environ v ≡ ok t → Substituted v (some (str t))
  text_in-str (str s) t h = (s, t, refl, h, refl)
  text_in-str null t h = cc
  text_in-str (bool b) t h = cc
  text_in-str (num z) t h = cc
  text_in-str (real z k) t h = cc
  text_in-str (arr items) t h = cc
  text_in-str (obj fs) t h = cc

  abbrev rest_after : String → Fields → String → Outcome Fields
  rest_after j fs text =
      Outcomes.◌>>=◌ (substitute_items text_of environ fs)
        (λ others. ok (field j (str text) others))

  pub substitute_items-get :
      (fs out : Fields) (key : String) (v : Value)
      → substitute_items text_of environ fs ≡ ok out
      → get key fs ≡ some v
      → Substituted v (get key out)
  unfolding substitute_items get
  substitute_items-get end out key v h g = cc
  substitute_items-get (field j u fs) out key v h g =
      let (text, e1, h1) = Outcomes.>>=-eq-ok (text_in text_of environ u) (rest_after j fs) h in
      let (others, e2, h2) =
        Outcomes.>>=-eq-ok (substitute_items text_of environ fs)
          (λ others. ok (field j (str text) others)) h1 in
      let made : field j (str text) others ≡ out = cc (h2) in
      subst (λ o. Substituted v (get key o)) made
        (elim (Bool-cases (j == key)) [
          | inl e ↦
              let found = rw e at g in
              let same : u ≡ v = cc (found) in
              rw e (subst (λ x. Substituted x (some (str text))) same (text_in-str u text e1))
          | inr e ↦ rw e (substitute_items-get fs others key v e2 (rw e at g))
        ])

  -- The same for the twins.
  abbrev twin_after : String → Fields → Fields → Outcome Fields
  twin_after name rest substituted =
      Outcomes.◌>>=◌ (substitute_twins text_of environ rest)
        (λ others. ok (field name (obj substituted) others))

  abbrev items_after : String → Fields → Fields → Outcome Fields
  items_after name rest items =
      Outcomes.◌>>=◌ (substitute_items text_of environ items) (twin_after name rest)

  pub mapping-obj : (v : Value) (fs : Fields) → mapping v ≡ ok fs → v ≡ obj fs
  mapping-obj (obj fs) gs h = cc (h)
  mapping-obj (str s) gs h = cc
  mapping-obj null gs h = cc
  mapping-obj (bool b) gs h = cc
  mapping-obj (num z) gs h = cc
  mapping-obj (real z k) gs h = cc
  mapping-obj (arr items) gs h = cc

  pub substitute_twins-get :
      (fs out items : Fields) (name : String)
      → substitute_twins text_of environ fs ≡ ok out
      → get name fs ≡ some (obj items)
      → (substituted : Fields) × (substitute_items text_of environ items ≡ ok substituted)
        × (get name out ≡ some (obj substituted))
  unfolding substitute_twins get
  substitute_twins-get end out items name h g = cc
  substitute_twins-get (field j u fs) out items name h g =
      let (us, e0, h0) = Outcomes.>>=-eq-ok (mapping u) (items_after j fs) h in
      let (done, e1, h1) =
        Outcomes.>>=-eq-ok (substitute_items text_of environ us) (twin_after j fs) h0 in
      let (others, e2, h2) =
        Outcomes.>>=-eq-ok (substitute_twins text_of environ fs)
          (λ others. ok (field j (obj done) others)) h1 in
      let made : field j (obj done) others ≡ out = cc (h2) in
      subst
        (λ o.
          (substituted : Fields) × (substitute_items text_of environ items ≡ ok substituted)
          × (get name o ≡ some (obj substituted)))
        made
        (elim (Bool-cases (j == name)) [
          | inl e ↦
              let found = rw e at g in
              let same : us ≡ items = cc (found, mapping-obj u us e0) in
              (done, subst (λ x. substitute_items text_of environ x ≡ ok done) same e1, rw e refl)
          | inr e ↦
              let (substituted, e3, e4) =
                substitute_twins-get fs others items name e2 (rw e at g) in
              (substituted, e3, rw e e4)
        ])
