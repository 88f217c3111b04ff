-- ===== src/ManageDt/DataAccess/Cache.antt =====
-- What the cache file is good for.
use oci_iot_samples.Base.{
  ℕ, ◌+◌, ◌*◌, ◌<◌, String, ◌≡◌, sym, ap, subst, ◌∙◌, inl, inr, Bool-cases, Option, none, some,
  arith, ◌==◌, eq_iff,
}
use oci_iot_samples.Base.Exec.{ok, after, >>=-eq-ok}
use oci_iot_samples.ManageDt.DataAccess.{
  DataAccess, Endpoints, Platform, second_micros, token_grace_seconds, is_fresh, endpoints_at,
  with_token, retrieve, renew, with_cache, with_group, get_data_access_parameters, endpoints_of,
  retrieve_and_renew, renew_found,
}

-- The cache file: reading it changes nothing, and it holds what was last written.
pub record CacheFile {W : Type 0} (platform : Platform W) : Type 0 where
  pub read_unchanged : (w : W) → (platform.read_cache w).1 ≡ w
  pub read_back :
      (a : DataAccess) (w w' : W)
      → platform.write_cache a w ≡ (ok tt, w')
      → platform.read_cache w' ≡ (ok (some a), w')

module _ {W : Type 0} (platform : Platform W) (domain_id : String) (now : ℕ) where
  -- What `renew` gives is in the cache file.
  renew-cached :
      CacheFile platform
      → (e : Endpoints) (w w' : W) (a : DataAccess)
      → renew platform domain_id now e w ≡ (ok (some a), w')
      → (platform.read_cache w' ≡ (ok (some a), w')) × (a.iot_domain_id ≡ e.iot_domain_id)
  unfolding renew with_token
  renew-cached file e w w' a h = grind (arith, file.read_back)

  retrieve-domain :
      (w w' : W) (e : Endpoints)
      → retrieve platform domain_id now w ≡ (ok (some e), w')
      → e.iot_domain_id ≡ domain_id
  unfolding retrieve with_group endpoints_at
  retrieve-domain w w' e h = ground arith

  renewed :
      CacheFile platform
      → (w w' : W) (a : DataAccess)
      → retrieve_and_renew platform domain_id now w ≡ (ok (some a), w')
      → (platform.read_cache w' ≡ (ok (some a), w')) × (a.iot_domain_id ≡ domain_id)
  renewed file w w' a h =
      let (found, w1, got, h1) =
        >>=-eq-ok (retrieve platform domain_id now) (renew_found platform domain_id now) {s = w}
          h in
      of_found found got h1
    where
      of_found :
          {w1 : W} (found : Option Endpoints)
          → retrieve platform domain_id now w ≡ (ok found, w1)
          → renew_found platform domain_id now found w1 ≡ (ok (some a), w')
          → (platform.read_cache w' ≡ (ok (some a), w')) × (a.iot_domain_id ≡ domain_id)
      of_found none got h1 = cc
      of_found {w1} (some e) got h1 =
          let (read, same) = renew-cached file e w1 w' a h1 in
          (read, same ∙ retrieve-domain w w1 e got)

  with_cache-cached :
      CacheFile platform
      → (c : Option DataAccess) (w w' : W) (a : DataAccess) → platform.read_cache w ≡ (ok c, w)
      → with_cache platform domain_id now c w ≡ (ok (some a), w')
      → (platform.read_cache w' ≡ (ok (some a), w')) × (a.iot_domain_id ≡ domain_id)
  unfolding with_cache
  with_cache-cached file none w w' a read h = renewed file w w' a h
  with_cache-cached file (some c) w w' a read h = elim (Bool-cases (c.iot_domain_id == domain_id)) [
    | inr e ↦ renewed file w w' a (ground (arith, e, h))
    | inl e ↦
        let same = (eq_iff c.iot_domain_id domain_id).0 e in
        elim (Bool-cases (is_fresh now c)) [
          | inl f ↦ (ground (arith, e, f, h, read), ground (arith, e, f, h, same))
          | inr f ↦
              let (kept, domain) =
                renew-cached file (endpoints_of c) w w' a (ground (arith, e, f, h)) in
              (kept, domain ∙ same)
        ]
  ]

  -- With a cache file whose reading changes nothing and gives what was last written: an access
  -- that a call gives is of the domain that it was asked for, and is what the cache file then
  -- holds.
  pub given-cached :
      CacheFile platform
      → (w w' : W) (a : DataAccess)
      → get_data_access_parameters platform domain_id now w ≡ (ok (some a), w')
      → (platform.read_cache w' ≡ (ok (some a), w')) × (a.iot_domain_id ≡ domain_id)
  unfolding get_data_access_parameters
  given-cached file w w' a h =
      let (c, w1, read, h1) =
        >>=-eq-ok platform.read_cache (with_cache platform domain_id now) {s = w} h in
      let same : w1 ≡ w = sym (ap (λ x. x.1) read) ∙ file.read_unchanged w in
      with_cache-cached file c w w' a (subst (λ x. platform.read_cache w ≡ (ok c, x)) same read)
        (subst (λ x. with_cache platform domain_id now c x ≡ (ok (some a), w')) same h1)

-- With a cache file whose reading changes nothing and gives what was last written: after a call
-- that gave an access, a later call for the same domain gives that access again and changes
-- nothing, at any time at which the token has more than the grace time left.
pub fresh_access-reused :
    {W : Type 0} (platform : Platform W) (domain_id : String) (now later : ℕ) (w w' : W)
    (a : DataAccess)
    → CacheFile platform
    → get_data_access_parameters platform domain_id now w ≡ (ok (some a), w')
    → later + token_grace_seconds * second_micros < a.expires * second_micros
    → get_data_access_parameters platform domain_id later w' ≡ (ok (some a), w')
unfolding get_data_access_parameters with_cache is_fresh
fresh_access-reused platform domain_id now later w w' a file h fresh =
    let (read, domain) = given-cached platform domain_id now file w w' a h in
    rw (read, after) (ground (arith, fresh, eq_iff a.iot_domain_id domain_id, domain))
