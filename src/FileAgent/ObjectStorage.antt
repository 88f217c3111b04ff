-- ===== src/FileAgent/ObjectStorage.antt =====
-- object_storage.py: `PARService`, over any Object Storage client. A method acts on the service's
-- state; `fuel` bounds the pages that a listing reads.
pub mod Names
pub mod Client
pub mod Listing
pub mod Lifecycle
pub mod Janitor
pub mod Staging
use oci_iot_samples.Base.{
  ℕ, zero, suc, ◌*◌, String, ◌<>◌, Bool, true, false, Option, none, some, List, [], ◌∷◌, ◌++◌, min,
  max, leb, if◌then◌else◌, ◌==◌, starts_with, truthy, select,
}
use oci_iot_samples.Base.Exec.{Exec, ok, pending, after, ◌>>=◌, ◌>>◌, pure, lift}
use oci_iot_samples.Base.Time.{Datetime, aware, naive, micros, minute_micros, plus, minus}
use Names.{par_name, object_prefix, upload_url}
use Client.{ObjectStorageClient, ParSummary, CreateDetails, Page}

-- The service looks its namespace up once, and keeps it.
pub record ServiceState (S : Type 0) : Type 0 where
  pub store : S
  pub namespace_name : Option String

pub record StageUploadResult : Type 0 where
  pub par_id : String
  pub url : String
  pub prefix : String
  pub time_expires : Datetime

-- _as_utc, of a value that is there
unfoldable pub as_utc : Datetime → Datetime
as_utc (aware t) = aware t
as_utc (naive t) = aware t

-- What __init__ keeps, without the client, its clock and the namespace.
pub record Settings : Type 0 where
  pub bucket_name : String
  pub max_ttl_minutes : ℕ
  pub par_name_prefix : String

-- A page token that is None or empty ends a listing.
unfoldable pub next_token : Option String → Option String
next_token none = none
next_token (some t) = if truthy t then some t else none

unfoldable pub ttl_minutes : Settings → ℕ → ℕ
ttl_minutes cfg requested = max 1 (min requested cfg.max_ttl_minutes)

unfoldable pub is_agent_par : Settings → ParSummary → Bool
is_agent_par cfg par = starts_with par.name (cfg.par_name_prefix <> ":")

unfoldable pub find_par : String → List ParSummary → Option ParSummary
find_par name [] = none
find_par name (par ∷ pars) =
    let rest = find_par name pars in if par.name == name then some par else rest

-- A PAR with no creation time is never old.
unfoldable pub is_stale : Datetime → ParSummary → Bool
unfolding as_utc
is_stale cutoff par = elim par.time_created [
  | none ↦ false
  | some t ↦ leb (micros (as_utc t)) (micros cutoff)
]

module _ (C : ObjectStorageClient) (cfg : Settings) where
  abbrev pub Service : Type 0 → Type 0
  Service A = Exec (ServiceState C.State) A

  -- A call of the client leaves the service's own field alone.
  abbrev pub call : {A : Type 0} → Exec C.State A → Service A
  call m s = let r = m s.store in (r.0, record s { store = r.1 })

  abbrev keep_namespace : String → Service String
  keep_namespace name s = (ok name, record s { namespace_name = some name })

  abbrev fetch_namespace : Service String
  fetch_namespace = do name ← call C.get_namespace; keep_namespace name

  -- _namespace_name
  unfoldable pub namespace : Service String
  unfolding next_token
  namespace s = elim (next_token s.namespace_name) [ none ↦ fetch_namespace s | some n ↦ (ok n, s) ]

  -- _utc_now
  abbrev utc_now : Service Datetime
  utc_now = do t ← call C.now; pure (as_utc t)

  unfoldable pub stage_upload : String → String → ℕ → Service StageUploadResult
  unfolding ttl_minutes as_utc
  stage_upload instance_id transaction_id requested = do
    now ← utc_now
    time_expires ← lift (plus now (ttl_minutes cfg requested * minute_micros))
    prefix ← lift (object_prefix instance_id transaction_id)
    name ← lift (par_name cfg.par_name_prefix instance_id transaction_id)
    ns ← namespace
    created ← call (
        C.create_preauthenticated_request ns cfg.bucket_name
          (record { name = name; object_name = prefix; time_expires = time_expires }))
    pure (record {
      par_id = created.id;
      url = upload_url C.endpoint created.access_uri prefix;
      prefix = prefix;
      time_expires = time_expires;
    })

  -- The loop of list_file_agent_pars, from a page on.
  unfoldable pub list_from : ℕ → Option String → List ParSummary → Service (List ParSummary)
  list_from zero page pars = lift pending
  list_from (suc fuel) page pars = do
    ns ← namespace
    response ← call (C.list_preauthenticated_requests ns cfg.bucket_name page)
    let found = pars ++ select (is_agent_par cfg) response.pars
    elim (next_token response.next_page) [
      | none ↦ pure found
      | some token ↦ list_from fuel (some token) found
    ]

  unfoldable pub list_file_agent_pars : ℕ → Service (List ParSummary)
  list_file_agent_pars fuel = list_from fuel none []

  unfoldable pub find_upload_par : ℕ → String → String → Service (Option ParSummary)
  find_upload_par fuel instance_id transaction_id = do
    name ← lift (par_name cfg.par_name_prefix instance_id transaction_id)
    pars ← list_file_agent_pars fuel
    pure (find_par name pars)

  abbrev delete_par : String → Service (Unit {0})
  delete_par id = do ns ← namespace; call (C.delete_preauthenticated_request ns cfg.bucket_name id)

  delete_found : Option ParSummary → Service Bool
  delete_found none = pure false
  delete_found (some par) = do delete_par par.id; pure true

  unfoldable pub complete_upload : ℕ → String → String → Service Bool
  unfolding delete_found
  complete_upload fuel instance_id transaction_id = do
    par ← find_upload_par fuel instance_id transaction_id
    delete_found par

  -- The loop of prune; `pruned` are the ids deleted so far.
  unfoldable pub prune_all : Datetime → List ParSummary → List String → Service (List String)
  prune_all cutoff [] pruned = pure pruned
  prune_all cutoff (par ∷ pars) pruned = elim (is_stale cutoff par) [
    | true ↦ do delete_par par.id; prune_all cutoff pars (pruned ++ (par.id ∷ []))
    | false ↦ prune_all cutoff pars pruned
  ]

  unfoldable pub prune : ℕ → ℕ → Service (List String)
  prune fuel min_age_minutes = do
    now ← utc_now
    cutoff ← lift (minus now (min_age_minutes * minute_micros))
    pars ← list_file_agent_pars fuel
    prune_all cutoff pars []
