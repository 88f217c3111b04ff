-- ===== src/Base/Texts.antt =====
-- Python's `str` methods that the program uses, over native texts. `strip`, `lower` and `upper`
-- are those of ASCII texts.
use Prim.Native.Nat.{ℕ, zero, suc, ◌+◌, ◌-◌}
use Prim.Native.Char.{Char, code}
use Prim.Native.String.{String}
use mathlib.Core.Bool.{Bool, true, false, not, ◌&&◌, ◌||◌}
use mathlib.Core.Option.{Option, none, some}
use oci_iot_samples.Base.Tests.{eqb, leb, if◌then◌else◌}
pub use Prim.Native.String.{◌++◌ as ◌<>◌}

-- The truth of a text: it is not empty.
abbrev pub truthy : String → Bool
truthy String.[] = false
truthy (String.◌∷◌ c s) = true

-- What may be None, or an empty text: either is false.
abbrev pub given : Option String → Option String
given none = none
given (some s) = if truthy s then some s else none

-- len(s), in characters
unfoldable pub text_length : String → ℕ
text_length String.[] = 0
text_length (String.◌∷◌ c s) = text_length s + 1

unfoldable pub all_chars : (ℕ → Bool) → String → Bool
all_chars p String.[] = true
all_chars p (String.◌∷◌ c s) = p (code c) && all_chars p s

-- s.lstrip(chars) and s.rstrip(chars), for a set of characters
unfoldable pub lstrip_by : (ℕ → Bool) → String → String
lstrip_by p String.[] = String.[]
lstrip_by p (String.◌∷◌ c s) = if p (code c) then lstrip_by p s else String.◌∷◌ c s

unfoldable pub rstrip_by : (ℕ → Bool) → String → String
rstrip_by p String.[] = String.[]
rstrip_by p (String.◌∷◌ c s) =
    let rest = rstrip_by p s in
    if truthy rest || not (p (code c)) then String.◌∷◌ c rest else String.[]

unfoldable pub strip_by : (ℕ → Bool) → String → String
unfolding lstrip_by rstrip_by
strip_by p s = rstrip_by p (lstrip_by p s)

abbrev pub is_slash : ℕ → Bool
is_slash c = eqb c b'/'

abbrev pub is_space : ℕ → Bool
is_space c = eqb c 32 || leb 9 c && leb c 13

-- s.endswith(suffix)
unfoldable pub ends_with : String → String → Bool
ends_with String.[] suffix = not (truthy suffix)
ends_with (String.◌∷◌ c s) suffix =
    let rest = ends_with s suffix in
    if text.Mathlib.Text.◌==◌ (String.◌∷◌ c s) suffix then true else rest

-- The part of s before the first character c, and all of s if there is none.
unfoldable pub before : ℕ → String → String
before c String.[] = String.[]
before c (String.◌∷◌ d s) =
    let rest = before c s in if eqb (code d) c then String.[] else String.◌∷◌ d rest

-- The letter of `targets` that stands where `c` stands in `sources`, or `c` itself.
swap_letter : String → String → Char → Char
swap_letter (String.◌∷◌ a sources) (String.◌∷◌ b targets) c =
    let other = swap_letter sources targets c in if eqb (code a) (code c) then b else other
swap_letter _ _ c = c

abbrev upper_letters : String
upper_letters = "ABCDEFGHIJKLMNOPQRSTUVWXYZ"

abbrev lower_letters : String
lower_letters = "abcdefghijklmnopqrstuvwxyz"

map_chars : (Char → Char) → String → String
map_chars f String.[] = String.[]
map_chars f (String.◌∷◌ c s) = String.◌∷◌ (f c) (map_chars f s)

-- s.lower() and s.upper()
unfoldable pub lower : String → String
unfolding map_chars swap_letter
lower s = map_chars (swap_letter upper_letters lower_letters) s

unfoldable pub upper : String → String
unfolding map_chars swap_letter
upper s = map_chars (swap_letter lower_letters upper_letters) s

-- The text begins with the prefix.
unfoldable pub begins : String → String → Bool
begins s String.[] = true
begins String.[] (String.◌∷◌ d p) = false
begins (String.◌∷◌ c s) (String.◌∷◌ d p) = eqb (code c) (code d) && begins s p

-- s.replace(pattern, by), with `n` characters of an occurrence still to be passed over. The pattern
-- is not empty.
unfoldable pub replace_after : ℕ → String → String → String → String
unfolding begins text_length
replace_after n pattern by String.[] = String.[]
replace_after (suc n) pattern by (String.◌∷◌ c s) = replace_after n pattern by s
replace_after zero pattern by (String.◌∷◌ c s) = elim (begins (String.◌∷◌ c s) pattern) [
  | true ↦ by <> replace_after (text_length pattern - 1) pattern by s
  | false ↦ String.◌∷◌ c (replace_after zero pattern by s)
]

unfoldable pub replace : String → String → String → String
unfolding replace_after
replace pattern by s = replace_after zero pattern by s
