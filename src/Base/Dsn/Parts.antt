-- ===== src/Base/Dsn/Parts.antt =====
-- A connect string is taken apart into the parts that it was put together from.
use text.Mathlib.TextLemmas.{nil-append, cons-append}
use Prim.Native.Char.{Char}
use Prim.Native.String.{String}
use mathlib.Core.Path.{◌≡◌, refl, ap, ◌∙◌}
use mathlib.Core.Bool.{true, not}
use mathlib.Core.Option.{none, some}
use Prim.Native.Nat.{ℕ}
use native.Mathlib.Omega.{arith}
use oci_iot_samples.Base.Tests.{eqb}
use oci_iot_samples.Base.Texts.{◌<>◌, truthy, before, all_chars}
use oci_iot_samples.Base.Exec.{ok}
use oci_iot_samples.Base.Dsn.{
  is_digit, match_digits, match_host, after_prefix, match_connect_string, dsn_of, build_dsn,
}

-- The character does not stand in the text.
abbrev pub Without : ℕ → String → Type 0
Without k s = all_chars (λ c. not (eqb c k)) s ≡ true

match_host-none : (t : String) → Without b':' t → match_host t ≡ none
unfolding match_host all_chars
match_host-none String.[] h = refl
match_host-none (String.◌∷◌ c t) h = ground (arith, match_host-none t)

match_digits-port :
    (port t : String)
    → all_chars is_digit port ≡ true
    → match_digits (port <> String.◌∷◌ "/" t) ≡ some (port, t)
unfolding match_digits all_chars
match_digits-port String.[] t h = rw nil-append refl
match_digits-port (String.◌∷◌ c port) t h =
    rw cons-append (ground (arith, match_digits-port port t))

match_host-port :
    (port t : String)
    → all_chars is_digit port ≡ true
    → Without b':' t
    → match_host (port <> String.◌∷◌ "/" t) ≡ none
unfolding match_host all_chars
match_host-port String.[] t h f = rw nil-append (ground (arith, match_host-none t f))
match_host-port (String.◌∷◌ c port) t h f = rw cons-append (ground (arith, match_host-port port t))

before-query :
    (service query : String)
    → Without b'?' service
    → before b'?' (service <> String.◌∷◌ "?" query) ≡ service
unfolding before all_chars
before-query String.[] query h = rw nil-append refl
before-query (String.◌∷◌ c service) query h =
    rw cons-append (ground (arith, before-query service query))

match_host-colon :
    (port service query : String)
    → all_chars is_digit port ≡ true
    → truthy port ≡ true
    → Without b':' (service <> String.◌∷◌ "?" query)
    → Without b'?' service
    → match_host (String.◌∷◌ ":" (port <> String.◌∷◌ "/" (service <> String.◌∷◌ "?" query)))
      ≡ some ("", port, service)
unfolding match_host
match_host-colon port service query digits some_port no_colon no_query = ground (
  arith,
  match_host-port port (service <> String.◌∷◌ "?" query) digits no_colon,
  match_digits-port port (service <> String.◌∷◌ "?" query) digits,
  before-query service query no_query,
)

match_host-host :
    (hostname rest port service : String)
    → Without 10 hostname
    → match_host rest ≡ some ("", port, service)
    → match_host (hostname <> rest) ≡ some (hostname, port, service)
unfolding match_host all_chars
match_host-host String.[] rest port service h e = rw nil-append e
match_host-host (String.◌∷◌ c hostname) rest port service h e =
    rw cons-append (ground (arith, match_host-host hostname rest port service, e))

singleton-append : (c : Char) (s : String) → String.◌∷◌ c String.[] <> s ≡ String.◌∷◌ c s
singleton-append c s = cons-append c String.[] s ∙ ap (String.◌∷◌ c) (nil-append s)

tcps-append : (s : String) → after_prefix "tcps:" ("tcps:" <> s) ≡ some s
unfolding after_prefix
tcps-append s =
    rw (cons-append, cons-append, cons-append, cons-append, cons-append, nil-append) refl

-- A connect string of a host without a line's end, a port of some digits, a service without a
-- question mark and a query, where service and query have no colon, gives the DSN of the three.
pub build_dsn-parts :
    (hostname port service query : String)
    → Without 10 hostname
    → all_chars is_digit port ≡ true
    → truthy port ≡ true
    → Without b'?' service
    → Without b':' (service <> ("?" <> query))
    → build_dsn ("tcps:" <> (hostname <> (":" <> (port <> ("/" <> (service <> ("?" <> query)))))))
      ≡ ok (dsn_of hostname port service)
unfolding build_dsn match_connect_string
build_dsn-parts hostname port service query line digits some_port no_query no_colon =
    let colon = singleton-append ":" (port <> ("/" <> (service <> ("?" <> query)))) in
    let slash = singleton-append "/" (service <> ("?" <> query)) in
    let mark = singleton-append "?" query in
    let free : Without b':' (service <> String.◌∷◌ "?" query) = rw mark at no_colon in
    let host =
      match_host-host hostname
        (String.◌∷◌ ":" (port <> String.◌∷◌ "/" (service <> String.◌∷◌ "?" query))) port service
        line (match_host-colon port service query digits some_port free no_query) in
    rw (build_dsn, match_connect_string, tcps-append, colon, slash, mark, host) refl
