-- ===== src/FileAgent/ObjectStorage/Lifecycle.antt =====
-- The life of a PAR: staged with a bounded lifetime, deleted by the completion of its upload or,
-- when it is old, by the janitor.
use text.Mathlib.TextLemmas.{prefix-append}
use text.Mathlib.TextEquality.{starts_with_iff}
use text.Mathlib.TextBridge.{IsPrefix}
use oci_iot_samples.Base.{
  ℕ, ◌≤◌, String, ◌<>◌, ◌≡◌, ◌⊎◌, refl, sym, ap, ◌∙◌, subst, true, false, none, some, List, [], ◌∷◌,
  select, length, arith, inl, inr, starts_with, eq_iff,
}
use oci_iot_samples.Base.Options.{Option-cases}
use oci_iot_samples.Base.Exec.{Outcome, ok}
use oci_iot_samples.FileAgent.ObjectStorage.{
  ServiceState, Settings, is_agent_par, find_par, find_upload_par, complete_upload,
}
use oci_iot_samples.FileAgent.ObjectStorage.Client.{ObjectStorageClient, ParSummary, Page}
use oci_iot_samples.FileAgent.ObjectStorage.Names.{par_name}
use oci_iot_samples.FileAgent.ObjectStorage.Names.Injective.{named}
use oci_iot_samples.FileAgent.ObjectStorage.Listing.{
  contents, Serves, HasNamespace, namespace_known, list_file_agent_pars-select,
}

-- The PAR is on the list.
abbrev pub IsListed : ParSummary → List ParSummary → Type 0
IsListed par [] = ⊥
IsListed par (p ∷ pars) = (p ≡ par) ⊎ IsListed par pars

-- A PAR of that name is on the list.
abbrev pub HasName : String → List ParSummary → Type 0
HasName name [] = ⊥
HasName name (par ∷ pars) = (par.name ≡ name) ⊎ HasName name pars

find_par-none :
    (name : String) (pars : List ParSummary) → find_par name pars ≡ none → ¬ HasName name pars
unfolding find_par
find_par-none name [] h = λ x. x
find_par-none name (par ∷ pars) h = ground (arith, eq_iff par.name name, find_par-none name pars)

find_par-some :
    (name : String) (pars : List ParSummary) (par : ParSummary)
    → find_par name pars ≡ some par
    → (par.name ≡ name) × IsListed par pars × HasName name pars
unfolding find_par
find_par-some name [] par h = cc
find_par-some name (p ∷ pars) par h =
    ground (arith, eq_iff p.name name, find_par-some name pars par)

named_is_agent_par :
    (cfg : Settings) (name : String) (par : ParSummary)
    → starts_with name (cfg.par_name_prefix <> ":") ≡ true
    → par.name ≡ name
    → is_agent_par cfg par ≡ true
unfolding is_agent_par
named_is_agent_par cfg name par h p =
    subst (λ x. starts_with x (cfg.par_name_prefix <> ":") ≡ true) (sym p) h

-- The filter of a listing drops no PAR of the name that is looked for.
find_par-select :
    (cfg : Settings) (name : String) (pars : List ParSummary)
    → starts_with name (cfg.par_name_prefix <> ":") ≡ true
    → find_par name (select (is_agent_par cfg) pars) ≡ find_par name pars
unfolding find_par select
find_par-select cfg name [] h = refl
find_par-select cfg name (par ∷ pars) h = ground (
  arith,
  eq_iff par.name name,
  named_is_agent_par cfg name par h,
  find_par-select cfg name pars h,
)

par_name-starts_with :
    (prefix d t n : String) → par_name prefix d t ≡ ok n → starts_with n (prefix <> ":") ≡ true
unfolding par_name
par_name-starts_with prefix d t n h = (starts_with_iff n (prefix <> ":")).1 (
    subst (λ x. IsPrefix (prefix <> ":") x)
      (text.Mathlib.TextLemmas.append_assoc prefix ":" _ ∙ sym (named _ t n h).1)
      (prefix-append (prefix <> ":") (d <> (":" <> t))))

module _ (C : ObjectStorageClient) (cfg : Settings) (st : ServiceState C.State) (ns : String)
    (known : HasNamespace st ns) (fuel : ℕ) (pages : List Page) (enough : length pages ≤ fuel)
    (served : Serves C ns cfg.bucket_name st.store none pages) where
  abbrev delete_from : String → C.State → Outcome (Unit {0}) × C.State
  delete_from id s = C.delete_preauthenticated_request ns cfg.bucket_name id s

  find_upload_par_lem :
      (d t n : String)
      → par_name cfg.par_name_prefix d t ≡ ok n
      → find_upload_par C cfg fuel d t st ≡ (ok (find_par n (contents pages)), st)
  unfolding find_upload_par
  find_upload_par_lem d t n h =
      rw (h, list_file_agent_pars-select C cfg st ns known fuel pages enough served)
        (ap (λ o. (ok o, st))
          (find_par-select cfg n (contents pages) (par_name-starts_with _ d t n h)))

  complete_upload_none :
      (d t n : String)
      → par_name cfg.par_name_prefix d t ≡ ok n
      → find_par n (contents pages) ≡ none
      → complete_upload C cfg fuel d t st ≡ (ok false, st)
  unfolding complete_upload
  complete_upload_none d t n h e = rw (find_upload_par_lem d t n h, e) refl

  complete_upload_some :
      (d t n : String) (par : ParSummary)
      → par_name cfg.par_name_prefix d t ≡ ok n
      → find_par n (contents pages) ≡ some par
      → (delete_from par.id st.store).0 ≡ ok tt
      → complete_upload C cfg fuel d t st
        ≡ (ok true, record st { store = (delete_from par.id st.store).1 })
  unfolding complete_upload
  complete_upload_some d t n par h e done =
      rw (find_upload_par_lem d t n h, e) (rw (namespace_known C cfg st ns known) (rw done))

  -- With a known namespace, a listing that changes nothing and ends within the fuel, and deletions
  -- that succeed: either a completion answers True, a PAR of the transaction's name is listed, and
  -- the store is what the deletion, by its id, of a PAR of that name on the listing left; or it answers
  -- False, no PAR of that name is listed, and nothing has changed.
  pub complete_upload_iff :
      (d t n : String)
      → par_name cfg.par_name_prefix d t ≡ ok n
      → ((id : String) (s : C.State) → (delete_from id s).0 ≡ ok tt)
      → (((complete_upload C cfg fuel d t st).0 ≡ ok true)
          × HasName n (contents pages)
          × ((par : ParSummary) × IsListed par (contents pages)
              × (par.name ≡ n)
              × ((complete_upload C cfg fuel d t st).1.store ≡ (delete_from par.id st.store).1)))
        ⊎ ((complete_upload C cfg fuel d t st ≡ (ok false, st)) × (¬ HasName n (contents pages)))
  complete_upload_iff d t n h done = elim (Option-cases (find_par n (contents pages))) [
    | inl e ↦ inr (complete_upload_none d t n h e, find_par-none n (contents pages) e)
    | inr (par, e) ↦
        let (same, listed, has) = find_par-some n (contents pages) par e in
        let r = complete_upload_some d t n par h e (done par.id st.store) in
        inl (ap (λ x. x.0) r, has, (par, listed, same, ap (λ x. x.1.store) r))
  ]
