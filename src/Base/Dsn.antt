-- ===== src/Base/Dsn.antt =====
-- The connect string of an IoT domain's database, by the regular expression tcps:(.*):(\d+)/([^?]*)(\?.*)?
-- that the samples share, and the DSN from its parts. A digit is one of ASCII.
pub mod Parts
use Prim.Native.Char.{Char, code}
use Prim.Native.String.{String}
use mathlib.Core.Bool.{Bool, true, false, ◌&&◌}
use mathlib.Core.Option.{Option, none, some}
use mathlib.Core.Option
use Prim.Native.Nat.{ℕ}
use oci_iot_samples.Base.Tests.{eqb, leb, if◌then◌else◌}
use oci_iot_samples.Base.Texts.{◌<>◌, truthy, before}
use mathlib.Core.List.{List, [], ◌∷◌}
use oci_iot_samples.Base.Exec.{Outcome, Exec, pure, ok, raised, value_error}

abbrev pub is_digit : ℕ → Bool
is_digit c = leb 48 c && leb c 57

-- (\d*)/, with what follows it
unfoldable pub match_digits : String → Option (String × String)
match_digits String.[] = none
match_digits (String.◌∷◌ c s) =
    let rest = match_digits s in
    if eqb (code c) b'/'
    then some ("", s)
    else if is_digit (code c)
    then Option.map (λ (port, t). (String.◌∷◌ c port, t)) rest
    else none

-- (\d+)/([^?]*)
abbrev port_and_service : Option (String × String) → Option (String × String)
port_and_service none = none
port_and_service (some (port, t)) = if truthy port then some (port, before b'?' t) else none

-- What `.*` takes beyond a character, where the rest has a later match.
abbrev with_char :
    Char
    → Option (String × String × String)
    → Option (String × String)
    → Option (String × String × String)
with_char c (some (hostname, port, service)) here = some (String.◌∷◌ c hostname, port, service)
with_char c none (some (port, service)) = some ("", port, service)
with_char c none none = none

-- (.*):(\d+)/([^?]*), where `.*` is greedy and stops at a line's end
unfoldable pub match_host : String → Option (String × String × String)
unfolding match_digits before
match_host String.[] = none
match_host (String.◌∷◌ c s) =
    let later = match_host s in
    if eqb (code c) 10
    then none
    else with_char c later (if eqb (code c) b':' then port_and_service (match_digits s) else none)

-- s[len(prefix):] if s starts with the prefix
unfoldable pub after_prefix : String → String → Option String
after_prefix String.[] s = some s
after_prefix (String.◌∷◌ d p) String.[] = none
after_prefix (String.◌∷◌ d p) (String.◌∷◌ c s) =
    if eqb (code c) (code d) then after_prefix p s else none

-- m.groups(), without the last
unfoldable pub match_connect_string : String → Option (String × String × String)
unfolding match_host after_prefix
match_connect_string s = elim (after_prefix "tcps:" s) [ none ↦ none | some rest ↦ match_host rest ]

abbrev pub dsn_of : String → String → String → String
dsn_of hostname port service =
    "\n        (DESCRIPTION =\n            (ADDRESS=(PROTOCOL=TCPS)(PORT="
    <> (port
        <> (")(HOST="
            <> (hostname
                <> ("))\n            (CONNECT_DATA=(SERVICE_NAME="
                    <> (service <> "))\n        )")))))

-- The DSN of a connect string, or a ValueError.
unfoldable pub build_dsn : String → Outcome String
unfolding match_connect_string
build_dsn connect_string = elim (match_connect_string connect_string) [
  | none ↦ raised (value_error "Invalid connect string")
  | some (hostname, port, service) ↦ ok (dsn_of hostname port service)
]

-- What oracledb.connect is given; `profile` is an item of extra_auth_params.
pub record ConnectArguments : Type 0 where
  pub dsn : String
  pub auth_type : String
  pub scope : String
  pub profile : Option String
  pub externalauth : Bool

-- The module oracledb.
pub record Oracle (W : Type 0) : Type 0 where
  pub init_oracle_client : Option String → Exec W (Unit {0})
  pub connect : ConnectArguments → Exec W (Unit {0})

-- The auth types that take a profile.
abbrev pub profile_types : List String
profile_types = "ConfigFileAuthentication" ∷ "SecurityToken" ∷ []

module _ {W : Type 0} (oracle : Oracle W) where
  -- if thick_mode: init_oracle_client
  abbrev pub init_thick : Bool → Option String → Exec W (Unit {0})
  init_thick true lib_dir = oracle.init_oracle_client lib_dir
  init_thick false lib_dir = pure tt
