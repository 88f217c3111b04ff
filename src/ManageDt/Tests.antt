-- ===== src/ManageDt/Tests.antt =====
-- The theorems on the data API's access at a concrete platform.
use oci_iot_samples.Base.{ℕ, ◌≡◌, refl, Option, none, some, List, [], ◌∷◌, arith, before}
use oci_iot_samples.Base.Exec.{ok}
use oci_iot_samples.Base.Json.{set, num, pos, str, Fields, end, field, get}
use oci_iot_samples.ManageDt.DataAccess.{
  DataAccess, Platform, get_data_access_parameters, with_cache, renew, retrieve, with_group,
  endpoints_at, with_token,
}
use oci_iot_samples.ManageDt.DataAccess.Cache.{CacheFile, given-cached, fresh_access-reused}
use oci_iot_samples.ManageDt.RecentData.{
  DataApi, get_recent_data, get_recent_raw_data, with_payloads, with_payload, get_raw_data_by_id,
}

-- A platform whose world is the cache file.
abbrev pub platform : Platform (Option DataAccess)
platform = record {
  get_iot_domain = λ d w. (
    ok (
        some (
          200,
          record {
            db_allowed_identity_domain_host = some "id.example.com";
            device_host = "dev.example.com";
            iot_domain_group_id = "g";
          },
        )),
    w,
  );
  get_iot_domain_group_data_host = λ g w. (ok (some (200, "data.example.com")), w);
  post_token =
      λ url scope w. (ok (200, ok (record { access_token = "token"; expires_in = 3600 })), w);
  read_cache = λ w. (ok w, w);
  write_cache = λ a w. (ok tt, some a);
}

platform-CacheFile : CacheFile platform
platform-CacheFile = record { read_unchanged = λ w. refl; read_back = λ a w w' h. cc }

abbrev pub access : DataAccess
access = record {
  iot_domain_id = "domain";
  iot_data_endpoint = "https://data.example.com/ords/dev/20250531";
  oauth_endpoint = "https://id.example.com/oauth2/v1/token";
  scope = "/data/iot/dev";
  token = "token";
  expires = 3700;
}

abbrev pub empty_file : Option DataAccess
empty_file = none

retrieved :
    get_data_access_parameters platform "domain" 100000000 empty_file
    ≡ (ok (some access), some access)
unfolding get_data_access_parameters with_cache renew retrieve with_group endpoints_at with_token
    before
retrieved = refl

given-cached_example :
    (platform.read_cache (some access) ≡ (ok (some access), some access))
    × (access.iot_domain_id ≡ "domain")
given-cached_example =
    given-cached platform "domain" 100000000 platform-CacheFile empty_file (some access) access
      retrieved

fresh_access-reused_example :
    get_data_access_parameters platform "domain" 200000000 (some access)
    ≡ (ok (some access), some access)
fresh_access-reused_example =
    fresh_access-reused platform "domain" 100000000 200000000 empty_file (some access) access
      platform-CacheFile retrieved (omega arith)

abbrev row : Fields
row = field "id" (num (pos 7)) end

abbrev api : DataApi ℕ
api = record {
  get_items = λ url token query s. (ok (200, ok (row ∷ [])), s);
  get_record = λ url token s. (ok (200, ok (field "content" (str "hot") end)), s);
  recent_time = λ minutes s. (ok "2026-01-01T00:00:00Z", s);
  text_of = λ v. "7";
}

abbrev detailed : List Fields
detailed = field "id" (num (pos 7)) (field "payload" (str "hot") end) ∷ []

details : get_recent_raw_data api access "device" 5 0 ≡ (ok (some detailed), 0)
unfolding get_recent_raw_data get_recent_data with_payloads with_payload get_raw_data_by_id set get
details = refl
