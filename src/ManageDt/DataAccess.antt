-- ===== src/ManageDt/DataAccess.antt =====
-- mdt_iot_data.py: `get_data_access_parameters`, which keeps the endpoints and the token of the data
-- API in a cache file. Times are microseconds, `expires` and `expires_in` whole seconds.
pub mod Cache
use Prim.Native.Nat.{◌/◌}
use oci_iot_samples.Base.{
  ℕ, ◌+◌, ◌*◌, String, ◌<>◌, Bool, true, false, ◌&&◌, not, Option, none, some, List, [], ◌∷◌,
  truthy, before, eqb, ltb, ◌==◌, if◌then◌else◌,
}
use oci_iot_samples.Base.Exec.{
  Exec, Exn, Outcome, ok, raised, pending, service_error, after, after_try, ◌>>=◌, ◌>>◌, pure,
  raise, lift, try_then,
}

-- The file's contents: data_access, when it is complete.
pub record DataAccess : Type 0 where
  pub iot_domain_id : String
  pub iot_data_endpoint : String
  pub oauth_endpoint : String
  pub scope : String
  pub token : String
  pub expires : ℕ

-- What data_access holds before there is a token.
pub record Endpoints : Type 0 where
  pub iot_domain_id : String
  pub iot_data_endpoint : String
  pub oauth_endpoint : String
  pub scope : String

pub record IotDomain : Type 0 where
  pub db_allowed_identity_domain_host : Option String
  pub device_host : String
  pub iot_domain_group_id : String

pub record OauthToken : Type 0 where
  pub access_token : String
  pub expires_in : ℕ

-- The clients and the cache file. A response is a status and its data. `post_token` posts the user's
-- credentials to an endpoint for a scope; its body is read only when the status is good.
-- `read_cache` is `none` where there is no file.
pub record Platform (W : Type 0) : Type 0 where
  pub get_iot_domain : String → Exec W (Option (ℕ × IotDomain))
  pub get_iot_domain_group_data_host : String → Exec W (Option (ℕ × String))
  pub post_token : String → String → Exec W (ℕ × Outcome OauthToken)
  pub read_cache : Exec W (Option DataAccess)
  pub write_cache : DataAccess → Exec W (Unit {0})

abbrev pub token_grace_seconds : ℕ
token_grace_seconds = 60

abbrev pub second_micros : ℕ
second_micros = 1000000

-- data_access["expires"] > now + TOKEN_GRACE_SECONDS
unfoldable pub is_fresh : ℕ → DataAccess → Bool
is_fresh now cached =
    ltb (now + token_grace_seconds * second_micros) (cached.expires * second_micros)

abbrev pub endpoints_of : DataAccess → Endpoints
endpoints_of a = record {
  iot_domain_id = a.iot_domain_id;
  iot_data_endpoint = a.iot_data_endpoint;
  oauth_endpoint = a.oauth_endpoint;
  scope = a.scope;
}

-- The endpoints that the hosts of a domain and of its group give.
unfoldable pub endpoints_at : String → IotDomain → String → String → Endpoints
unfolding before
endpoints_at domain_id domain identity_domain data_host =
    let short_id = before b'.' domain.device_host in
    record {
      iot_domain_id = domain_id;
      iot_data_endpoint = "https://" <> (data_host <> ("/ords/" <> (short_id <> "/20250531")));
      oauth_endpoint = "https://" <> (identity_domain <> "/oauth2/v1/token");
      scope = "/" <> (before b'.' data_host <> ("/iot/" <> short_id));
    }

-- `except ServiceError: return None`; another exception goes on.
abbrev pub give_up : {W A : Type 0} → Exn → Exec W (Option A)
give_up (service_error status service_code message) = pure none
give_up e = raise e

-- `not response or response.status != 200`
abbrev pub good : {A : Type 0} → Option (ℕ × A) → Option A
good none = none
good (some (status, data_)) = if eqb status 200 then some data_ else none

module _ {W : Type 0} (platform : Platform W) (domain_id : String) (now : ℕ) where
  -- from the request of the domain group on
  unfoldable pub with_group : IotDomain → String → Exec W (Option Endpoints)
  with_group domain identity_domain =
      try_then (platform.get_iot_domain_group_data_host domain.iot_domain_group_id) give_up
        λ response. elim (good response) [
          | none ↦ pure none
          | some data_host ↦ pure (some (endpoints_at domain_id domain identity_domain data_host))
        ]

  -- if not identity_domain: return None
  abbrev identity_of : IotDomain → Option String
  identity_of domain = elim domain.db_allowed_identity_domain_host [
    | none ↦ none
    | some host ↦ if truthy host then some host else none
  ]

  unfoldable pub retrieve : Exec W (Option Endpoints)
  unfolding with_group
  retrieve = try_then (platform.get_iot_domain domain_id) give_up λ response. elim (good response) [
    | none ↦ pure none
    | some domain ↦ elim (identity_of domain) [
      | none ↦ pure none
      | some identity_domain ↦ with_group domain identity_domain
    ]
  ]

  -- data_access, with the token and int(now + expires_in)
  unfoldable pub with_token : Endpoints → OauthToken → DataAccess
  with_token e t = record {
    iot_domain_id = e.iot_domain_id;
    iot_data_endpoint = e.iot_data_endpoint;
    oauth_endpoint = e.oauth_endpoint;
    scope = e.scope;
    token = t.access_token;
    expires = (now + t.expires_in * second_micros) / second_micros;
  }

  abbrev pub store_token : Endpoints → OauthToken → Exec W (Option DataAccess)
  store_token e t = do platform.write_cache (with_token e t); pure (some (with_token e t))

  -- from the request of the token on
  unfoldable pub renew : Endpoints → Exec W (Option DataAccess)
  renew e = do
    r ← platform.post_token e.oauth_endpoint e.scope
    if eqb r.0 200 then lift r.1 >>= store_token e else pure none

  abbrev pub renew_found : Option Endpoints → Exec W (Option DataAccess)
  renew_found none = pure none
  renew_found (some e) = renew e

  abbrev pub retrieve_and_renew : Exec W (Option DataAccess)
  retrieve_and_renew = retrieve >>= renew_found

  -- What follows the reading of the cache file.
  unfoldable pub with_cache : Option DataAccess → Exec W (Option DataAccess)
  with_cache none = retrieve_and_renew
  with_cache (some cached) =
      if is_fresh now cached && cached.iot_domain_id == domain_id
      then pure (some cached)
      else if not (cached.iot_domain_id == domain_id)
      then retrieve_and_renew
      else renew (endpoints_of cached)

  -- get_data_access_parameters, for the domain and the user of iot_config, at the time `now`
  unfoldable pub get_data_access_parameters : Exec W (Option DataAccess)
  get_data_access_parameters = platform.read_cache >>= with_cache
