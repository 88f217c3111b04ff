-- ===== src/ManageDt/Cli/Known.antt =====
-- The configuration that a command is run with.
use oci_iot_samples.Base.{String, ◌≡◌, inl, inr, refl, ap, ◌∙◌, subst, some, arith}
use oci_iot_samples.Base.Exec.{Outcome, ok}
use oci_iot_samples.Base.Outcomes
use oci_iot_samples.Base.Options
use oci_iot_samples.Base.Json.{
  Value, null, bool, num, real, arr, str, obj, Fields, get, set, as_fields,
}
use oci_iot_samples.ManageDt.Cli.Substituted.{
  twin_at, get-set, Substituted, substitute_items-get, substitute_twins-get, mapping-obj,
}
use oci_iot_samples.ManageDt.Cli.{config_item, mapping, substitute_twins, load_config, with_twins}

config_item-get :
    (k : String) (fs : Fields) (v : Value) → config_item k (obj fs) ≡ ok v → get k fs ≡ some v
unfolding config_item as_fields
config_item-get k fs v h = ground arith

as_fields-obj : (v : Value) (fs : Fields) → as_fields v ≡ some fs → v ≡ obj fs
unfolding as_fields
as_fields-obj (obj fs) gs h = cc (h)
as_fields-obj (str s) gs h = cc
as_fields-obj null gs h = cc
as_fields-obj (bool b) gs h = cc
as_fields-obj (num z) gs h = cc
as_fields-obj (real z k) gs h = cc
as_fields-obj (arr items) gs h = cc

-- A twin of a configuration is found step by step.
twin_at-found :
    (fs tw items : Fields) (name : String)
    → get "digital_twins" fs ≡ some (obj tw)
    → twin_at (obj fs) name ≡ some items
    → get name tw ≡ some (obj items)
unfolding as_fields
twin_at-found fs tw items name e h =
    let found = rw e at h in
    elim (Options.Option-cases (get name tw)) [
      | inl no_twin ↦ let empty = rw no_twin at found in cc (empty)
      | inr (v, twin) ↦ let there = rw twin at found in twin ∙ ap some (as_fields-obj v items there)
    ]

twin_at-set :
    (fs tw items : Fields) (name : String)
    → get name tw ≡ some (obj items)
    → twin_at (obj (set "digital_twins" (obj tw) fs)) name ≡ some items
unfolding as_fields
twin_at-set fs tw items name e = rw (get-set, e) refl

abbrev with_environ : (Value → String) → Value → Value → Outcome Value
with_environ text_of config environ = Outcomes.◌>>=◌ (config_item "digital_twins" config) (λ twins.
    Outcomes.◌>>=◌ (mapping twins) (λ fs.
      Outcomes.◌>>=◌ (substitute_twins text_of environ fs)
        (λ substituted. ok (with_twins config substituted))))

abbrev with_mapping : (Value → String) → Value → Value → Value → Outcome Value
with_mapping text_of config environ twins = Outcomes.◌>>=◌ (mapping twins) (λ fs.
    Outcomes.◌>>=◌ (substitute_twins text_of environ fs)
      (λ substituted. ok (with_twins config substituted)))

abbrev with_fields : (Value → String) → Value → Value → Fields → Outcome Value
with_fields text_of config environ fs =
    Outcomes.◌>>=◌ (substitute_twins text_of environ fs)
      (λ substituted. ok (with_twins config substituted))

-- When a configuration is loaded, what it has for a key of a twin was a text, and the
-- loaded configuration has there the text that the substitution by the configuration's environment
-- gives for it.
pub load_config-item :
    (text_of : Value → String) (fs items : Fields) (loaded v : Value) (name key : String)
    → load_config text_of (obj fs) ≡ ok loaded
    → twin_at (obj fs) name ≡ some items
    → get key items ≡ some v
    → (environ : Value) × (done : Fields) × (get "environ" fs ≡ some environ)
      × (twin_at loaded name ≡ some done)
      × Substituted text_of environ v (get key done)
unfolding load_config
load_config-item text_of fs items loaded v name key h twin item =
    let (environ, e0, h0) =
      Outcomes.>>=-eq-ok (config_item "environ" (obj fs)) (with_environ text_of (obj fs)) h in
    let (twins, e1, h1) =
      Outcomes.>>=-eq-ok (config_item "digital_twins" (obj fs))
        (with_mapping text_of (obj fs) environ) h0 in
    let (tw, e2, h2) =
      Outcomes.>>=-eq-ok (mapping twins) (with_fields text_of (obj fs) environ) h1 in
    let (out, e3, h3) =
      Outcomes.>>=-eq-ok (substitute_twins text_of environ tw)
        (λ substituted. ok (with_twins (obj fs) substituted)) h2 in
    let listed : get "digital_twins" fs ≡ some (obj tw) =
      config_item-get "digital_twins" fs twins e1
      ∙ ap some (mapping-obj text_of environ twins tw e2) in
    let (done, e4, e5) =
      substitute_twins-get text_of environ tw out items name e3
        (twin_at-found fs tw items name listed twin) in
    let made : obj (set "digital_twins" (obj out) fs) ≡ loaded = cc (h3) in
    (
      environ,
      done,
      config_item-get "environ" fs environ e0,
      subst (λ x. twin_at x name ≡ some done) made (twin_at-set fs out done name e5),
      substitute_items-get text_of environ items done key v e4 item,
    )
