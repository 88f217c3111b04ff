-- ===== src/ManageDt/Templates.antt =====
-- Python's string.Template, whose safe_substitute cli.py applies to the configuration of the twins.
pub mod Escaping
use oci_iot_samples.Base.{
  ℕ, zero, suc, ◌+◌, String, ◌<>◌, ◌≡◌, refl, sym, ap, ◌∙◌, Bool, true, false, ◌&&◌, ◌||◌, Option,
  none, some, Char, code, eqb, leb, truthy, text_length, arith, Bool-cases, inl, inr, if◌then◌else◌,
}
use oci_iot_samples.Base.Exec.{Outcome, ok, raised, pending, other_error}
use oci_iot_samples.Base.Outcomes
use oci_iot_samples.Base.Json.{Value, obj, Fields, get}

-- [_a-z] and [_a-z0-9], with the case ignored
abbrev is_id_start : ℕ → Bool
is_id_start c = eqb c b'_' || (leb b'a' c && leb c b'z' || leb b'A' c && leb c b'Z')

abbrev is_id_part : ℕ → Bool
is_id_part c = is_id_start c || leb b'0' c && leb c b'9'

unfoldable pub id_parts : String → String
id_parts String.[] = ""
id_parts (String.◌∷◌ c s) =
    let rest = id_parts s in if is_id_part (code c) then String.◌∷◌ c rest else ""

-- The identifier that the text begins with, or the empty text.
unfoldable pub identifier : String → String
unfolding id_parts
identifier String.[] = ""
identifier (String.◌∷◌ c s) = if is_id_start (code c) then String.◌∷◌ c (id_parts s) else ""

unfoldable pub char_at : ℕ → String → Option Char
char_at n String.[] = none
char_at zero (String.◌∷◌ c s) = some c
char_at (suc n) (String.◌∷◌ c s) = char_at n s

abbrev closes : Option Char → Bool
closes none = false
closes (some c) = eqb (code c) b'}'

-- The groups of Template's pattern, after the dollar sign.
pub data Placeholder : Type 0 where
  escaped : Placeholder
  named : String → Placeholder
  braced : String → Placeholder
  invalid : Placeholder

unfoldable pub braced_in : String → Placeholder
unfolding identifier char_at text_length
braced_in s =
    let id = identifier s in
    if truthy id && closes (char_at (text_length id) s) then braced id else invalid

unfoldable pub placeholder : String → Placeholder
unfolding identifier braced_in
placeholder String.[] = invalid
placeholder (String.◌∷◌ c s) =
    let id = identifier (String.◌∷◌ c s) in
    if eqb (code c) b'$'
    then escaped
    else if truthy id
    then named id
    else if eqb (code c) b'{'
    then braced_in s
    else invalid

-- How many characters the group takes.
unfoldable pub taken : Placeholder → ℕ
unfolding text_length
taken escaped = 1
taken (named id) = text_length id
taken (braced id) = text_length id + 2
taken invalid = 0

-- `text_of` is `str`.
module _ (text_of : Value → String) (environ : Value) where
  -- str(mapping[name]), or the match where there is no such key
  abbrev value_or : String → String → Outcome String
  value_or name matched = elim environ [
    | obj fs ↦ elim (get name fs) [ none ↦ ok matched | some v ↦ ok (text_of v) ]
    | _ ↦ raised (other_error "TypeError")
  ]

  unfoldable pub replacement : Placeholder → Outcome String
  unfolding get
  replacement escaped = ok "$"
  replacement (named id) = value_or id ("$" <> id)
  replacement (braced id) = value_or id ("${" <> (id <> "}"))
  replacement invalid = ok "$"

  abbrev before_rest : Outcome String → Outcome String → Outcome String
  before_rest (ok text) (ok rest) = ok (text <> rest)
  before_rest (raised e) rest = raised e
  before_rest pending rest = pending
  before_rest (ok text) (raised e) = raised e
  before_rest (ok text) pending = pending

  -- With `n` characters of a match still to be passed over.
  unfoldable pub substitute_after : ℕ → String → Outcome String
  unfolding replacement taken placeholder
  substitute_after n String.[] = ok ""
  substitute_after (suc n) (String.◌∷◌ c s) = substitute_after n s
  substitute_after zero (String.◌∷◌ c s) =
      let next = if eqb (code c) b'$' then taken (placeholder s) else zero in
      let rest = substitute_after next s in
      if eqb (code c) b'$'
      then before_rest (replacement (placeholder s)) rest
      else before_rest (ok (String.◌∷◌ c "")) rest

  -- string.Template(value).safe_substitute(environ)
  unfoldable pub safe_substitute : String → Outcome String
  unfolding substitute_after
  safe_substitute value = substitute_after zero value
