-- ===== src/ManageDt/Templates/Escaping.antt =====
-- Texts that a substitution leaves as they are meant.
use text.Mathlib.TextEquality.{Char-path}
use text.Mathlib.TextLemmas.{nil-append, cons-append}
use oci_iot_samples.Base.{
  zero, String, ◌<>◌, ◌≡◌, refl, ap, ◌∙◌, Bool, true, false, Char, code, eqb, arith,
}
use oci_iot_samples.Base.Exec.{ok}
use oci_iot_samples.Base.Json.{Value}
use oci_iot_samples.ManageDt.Templates.{
  safe_substitute, substitute_after, placeholder, taken, replacement, before_rest,
}

-- A text with each dollar sign doubled.
abbrev escape_rest : Bool → Char → String → String
escape_rest true c rest = String.◌∷◌ "$" (String.◌∷◌ "$" rest)
escape_rest false c rest = String.◌∷◌ c rest

unfoldable pub escape : String → String
escape String.[] = ""
escape (String.◌∷◌ c s) = escape_rest (eqb (code c) b'$') c (escape s)

singleton-append : (c : Char) (s : String) → String.◌∷◌ c String.[] <> s ≡ String.◌∷◌ c s
singleton-append c s = cons-append c String.[] s ∙ ap (String.◌∷◌ c) (nil-append s)

is_dollar : (c : Char) → eqb (code c) b'$' ≡ true → "$" ≡ c
is_dollar c h = Char-path "$" c (ground (arith, h))

module _ (text_of : Value → String) (environ : Value) where
  escaped-rest :
      (c : Char) (s : String) (b : Bool)
      → eqb (code c) b'$' ≡ b
      → substitute_after text_of environ zero (escape s) ≡ ok s
      → substitute_after text_of environ zero (escape_rest b c (escape s)) ≡ ok (String.◌∷◌ c s)
  unfolding substitute_after placeholder taken replacement
  escaped-rest c s true e h =
      ap (before_rest text_of environ (ok "$")) h
      ∙ ap ok (singleton-append "$" s ∙ ap (λ d. String.◌∷◌ d s) (is_dollar c e))
  escaped-rest c s false e h =
      rw e
        (ap (before_rest text_of environ (ok (String.◌∷◌ c ""))) h ∙ ap ok (singleton-append c s))

  from_start : (s : String) → substitute_after text_of environ zero (escape s) ≡ ok s
  unfolding substitute_after escape
  from_start String.[] = refl
  from_start (String.◌∷◌ c s) = escaped-rest c s (eqb (code c) b'$') refl (from_start s)

  -- A text whose dollar signs are doubled is substituted by the text, whatever the environment is.
  pub safe_substitute-escape : (s : String) → safe_substitute text_of environ (escape s) ≡ ok s
  unfolding safe_substitute
  safe_substitute-escape s = from_start s
