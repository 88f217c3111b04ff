-- ===== src/FileAgent/ObjectStorage/Listing.antt =====
-- `list_file_agent_pars` against the pages that the client serves.
use oci_iot_samples.Base.{
  ℕ, zero, suc, ◌≤◌, String, ◌<>◌, ◌≡◌, ◌≢◌, ◌⊎◌, refl, ◌↔◌, true, ◌∙◌, Option, none, some, List,
  [], ◌∷◌, ◌++◌, append-nil, append_assoc, select, select-append, length, inl, inr, arith,
}
use text.Mathlib.TextBridge.{IsPrefix}
use text.Mathlib.TextEquality.{starts_with_iff}
use oci_iot_samples.Base.Picked.{Picked, select-Picked}
use oci_iot_samples.Base.Exec.{ok, after}
use oci_iot_samples.FileAgent.ObjectStorage.{
  ServiceState, Settings, next_token, is_agent_par, namespace, list_from, list_file_agent_pars,
}
use oci_iot_samples.FileAgent.ObjectStorage.Client.{ObjectStorageClient, ParSummary, Page}

-- The PARs on all pages, in order.
abbrev pub contents : List Page → List ParSummary
contents [] = []
contents (page ∷ pages) = page.pars ++ contents pages

-- A page without a token, or with an empty one, is the last.
abbrev IsLast : Option String → Type 0
IsLast next_page = (next_page ≡ none) ⊎ (next_page ≡ some "")

module _ (C : ObjectStorageClient) (ns bucket : String) (s : C.State) where
  -- In the state `s` the listing from `page` on consists of the pages of the list, and reading it
  -- changes nothing.
  abbrev pub Serves : Option String → List Page → Type 0
  Serves page [] = ⊥
  Serves page (response ∷ rest) =
      (C.list_preauthenticated_requests ns bucket page s ≡ (ok response, s))
      × ((IsLast response.next_page × (rest ≡ []))
          ⊎ ((token : String) × (response.next_page ≡ some token)
              × (token ≢ "")
              × Serves (some token) rest))

-- The namespace is known already.
abbrev pub HasNamespace : {S : Type 0} → ServiceState S → String → Type 0
HasNamespace st ns = (st.namespace_name ≡ some ns) × (ns ≢ "")

next_token-last : (next_page : Option String) → IsLast next_page → next_token next_page ≡ none
unfolding next_token
next_token-last next_page (inl e) = rw e refl
next_token-last next_page (inr e) = rw e refl

next_token-some :
    (o : Option String) (token : String) → o ≡ some token → token ≢ "" → next_token o ≡ some token
unfolding next_token
next_token-some o String.[] e h = absurd (h refl)
next_token-some o (String.◌∷◌ c token) e h = rw e refl

module _ (C : ObjectStorageClient) (cfg : Settings) (st : ServiceState C.State) (ns : String)
    (known : HasNamespace st ns) where
  pub namespace_known : namespace C cfg st ≡ (ok ns, st)
  unfolding namespace
  namespace_known =
      let token = next_token-some st.namespace_name ns known.0 known.1 in rw (token, namespace)

  module _ (fuel : ℕ) (page : Option String) (pars : List ParSummary) (response : Page)
      (read : C.list_preauthenticated_requests ns cfg.bucket_name page st.store
        ≡ (ok response, st.store)) where
    list_from_last :
        next_token response.next_page ≡ none
        → list_from C cfg (suc fuel) page pars st
          ≡ (ok (pars ++ select (is_agent_par cfg) response.pars), st)
    unfolding list_from
    list_from_last e = ground (arith, namespace_known, read, e)

    list_from_more :
        (token : String)
        → next_token response.next_page ≡ some token
        → list_from C cfg (suc fuel) page pars st
          ≡ list_from C cfg fuel (some token) (pars ++ select (is_agent_par cfg) response.pars) st
    unfolding list_from
    list_from_more token e = rw (namespace_known, read) (rw (after, e))

  list_from_lem :
      (fuel : ℕ) (page : Option String) (pages : List Page) (pars : List ParSummary)
      → length pages ≤ fuel
      → Serves C ns cfg.bucket_name st.store page pages
      → list_from C cfg fuel page pars st
        ≡ (ok (pars ++ select (is_agent_par cfg) (contents pages)), st)
  list_from_lem fuel page [] pars h s = absurd s
  list_from_lem zero page (response ∷ rest) pars h s = absurd (omega arith)
  list_from_lem (suc fuel) page (response ∷ rest) pars h (read, inl (last, e)) =
      list_from_last fuel page pars response read (next_token-last response.next_page last)
      ∙ rw (e, append-nil) refl
  list_from_lem (suc fuel) page (response ∷ rest) pars h (read, inr (token, e, filled, more)) =
      list_from_more fuel page pars response read token
        (next_token-some response.next_page token e filled)
      ∙ list_from_lem fuel (some token) rest _ (omega arith) more
      ∙ rw (select-append, append_assoc)

  pub list_file_agent_pars-select :
      (fuel : ℕ) (pages : List Page)
      → length pages ≤ fuel
      → Serves C ns cfg.bucket_name st.store none pages
      → list_file_agent_pars C cfg fuel st ≡ (ok (select (is_agent_par cfg) (contents pages)), st)
  unfolding list_file_agent_pars
  list_file_agent_pars-select fuel pages h s = list_from_lem fuel none pages [] h s

-- The PAR's name begins with the agent's prefix and a colon.
abbrev pub IsAgentPar : Settings → ParSummary → Type 0
IsAgentPar cfg par = IsPrefix (cfg.par_name_prefix <> ":") par.name

pub is_agent_par_iff :
    (cfg : Settings) (par : ParSummary) → (is_agent_par cfg par ≡ true) ↔ IsAgentPar cfg par
unfolding is_agent_par
is_agent_par_iff cfg par = starts_with_iff par.name (cfg.par_name_prefix <> ":")

module _ (C : ObjectStorageClient) (cfg : Settings) (st : ServiceState C.State) (ns : String)
    (known : HasNamespace st ns) where
  -- With a known namespace, and pages that are served without a change and are no more than the
  -- fuel, a listing returns just the PARs of all pages whose names begin with the agent's prefix and a
  -- colon, in order, and changes nothing.
  pub list_file_agent_pars_lem :
      (fuel : ℕ) (pages : List Page)
      → length pages ≤ fuel
      → Serves C ns cfg.bucket_name st.store none pages
      → (pars : List ParSummary) × (list_file_agent_pars C cfg fuel st ≡ (ok pars, st))
        × Picked (IsAgentPar cfg) (contents pages) pars
  list_file_agent_pars_lem fuel pages h s = (
    select (is_agent_par cfg) (contents pages),
    list_file_agent_pars-select C cfg st ns known fuel pages h s,
    select-Picked (is_agent_par cfg) (IsAgentPar cfg) (is_agent_par_iff cfg) (contents pages),
  )
