-- ===== src/ArchiveDomain/Sql/Replacing.antt =====
-- Where the replacement of a bind's name passes over a text, and where it does not.
use text.Mathlib.TextLemmas.{nil-append, cons-append}
use oci_iot_samples.Base.{
  ℕ, zero, suc, ◌+◌, String, ◌<>◌, ◌≡◌, refl, subst, Bool, true, false, not, arith, eqb, code,
  all_chars, begins, replace_after, text_length, if◌then◌else◌,
}

abbrev pub no_colon : ℕ → Bool
no_colon c = not (eqb c b':')

abbrev pub no_w : ℕ → Bool
no_w c = not (eqb c b'w')

-- The name of a bind, with its colon and its first letter.
abbrev pub bind : String → String
bind name = String.◌∷◌ ":" (String.◌∷◌ "w" name)

begins-append : (p t : String) → begins (p <> t) p ≡ true
unfolding begins
begins-append String.[] t = refl
begins-append (String.◌∷◌ c p) t = rw (cons-append c p t) (ground (arith, begins-append p t))

-- The texts differ at a place that both have.
abbrev pub differ : String → String → Bool
differ (String.◌∷◌ c s) (String.◌∷◌ d p) =
    let rest = differ s p in if eqb (code c) (code d) then rest else true
differ _ _ = false

pub begins-differ : (s p t : String) → differ s p ≡ true → begins (s <> t) p ≡ false
unfolding begins
begins-differ String.[] String.[] t h = cc
begins-differ String.[] (String.◌∷◌ d p) t h = cc
begins-differ (String.◌∷◌ c s) String.[] t h = cc
begins-differ (String.◌∷◌ c s) (String.◌∷◌ d p) t h =
    rw (cons-append c s t) (ground (arith, begins-differ s p t, h))

skip :
    (pattern by s t : String)
    → replace_after (text_length s) pattern by (s <> t) ≡ replace_after zero pattern by t
unfolding replace_after text_length
skip pattern by String.[] t = rw (nil-append t) refl
skip pattern by (String.◌∷◌ c s) t =
    let next : text_length s + 1 ≡ suc (text_length s) = omega arith in
    rw (cons-append c s t, next) (skip pattern by s t)

-- An occurrence is replaced.
pub replace-hit :
    (name by t : String)
    → replace_after zero (bind name) by (bind name <> t) ≡ by <> replace_after zero (bind name) by t
unfolding replace_after
replace-hit name by t =
    let opened = cons-append ":" (String.◌∷◌ "w" name) t in
    let hit : begins (String.◌∷◌ ":" (String.◌∷◌ "w" name <> t)) (bind name) ≡ true =
      subst (λ x. begins x (bind name) ≡ true) opened (begins-append (bind name) t) in
    let skipped = skip (bind name) by (String.◌∷◌ "w" name) t in
    rw (opened) (ground (arith, hit, skipped))

-- A text without a colon is passed over.
pub replace-no_colon :
    (name by s t : String)
    → all_chars no_colon s ≡ true
    → replace_after zero (bind name) by (s <> t) ≡ s <> replace_after zero (bind name) by t
unfolding replace_after all_chars begins
replace-no_colon name by String.[] t h =
    rw (nil-append t, nil-append (replace_after zero (bind name) by t)) refl
replace-no_colon name by (String.◌∷◌ c s) t h =
    rw (cons-append c s t, cons-append c s (replace_after zero (bind name) by t))
      (ground (arith, replace-no_colon name by s t, h))

-- What does not begin with a w does not begin with the name.
no_w-begins :
    (name s t : String)
    → all_chars no_w s ≡ true
    → begins t "w" ≡ false
    → begins (s <> t) (String.◌∷◌ "w" name) ≡ false
unfolding all_chars begins
no_w-begins name String.[] String.[] h e = refl
no_w-begins name String.[] (String.◌∷◌ d t) h e =
    rw (nil-append (String.◌∷◌ d t)) (ground (arith, e))
no_w-begins name (String.◌∷◌ c s) t h e = rw (cons-append c s t) (ground (arith, h))

-- So is one without a w, before a text that begins with no w.
pub replace-no_w :
    (name by s t : String)
    → all_chars no_w s ≡ true
    → begins t "w" ≡ false
    → replace_after zero (bind name) by (s <> t) ≡ s <> replace_after zero (bind name) by t
unfolding replace_after all_chars begins
replace-no_w name by String.[] t h e =
    rw (nil-append t, nil-append (replace_after zero (bind name) by t)) refl
replace-no_w name by (String.◌∷◌ c s) t h e =
    rw (cons-append c s t, cons-append c s (replace_after zero (bind name) by t))
      (ground (arith, replace-no_w name by s t, no_w-begins name s t, h, e))

-- A text without a colon stays as it is.
pub replace-none :
    (name by s : String) → all_chars no_colon s ≡ true → replace_after zero (bind name) by s ≡ s
unfolding replace_after all_chars begins
replace-none name by String.[] h = refl
replace-none name by (String.◌∷◌ c s) h = ground (arith, replace-none name by s, h)

-- So does the name of another bind, before such a text.
pub replace-other :
    (name by other s : String)
    → differ other name ≡ true
    → all_chars no_colon other ≡ true
    → all_chars no_colon s ≡ true
    → replace_after zero (bind name) by (bind other <> s) ≡ bind other <> s
unfolding replace_after all_chars begins
replace-other name by other s d o h =
    let passed = replace-no_colon name by other s o in
    rw (cons-append ":" (String.◌∷◌ "w" other) s, cons-append "w" other s)
      (ground (arith, begins-differ other name s d, passed, replace-none name by s h))
