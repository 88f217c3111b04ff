-- ===== src/FileAgent/ObjectStorage/Janitor.antt =====
-- `prune`, the janitor of old PARs, and `stage_upload`.
use oci_iot_samples.Base.{
  ℕ, ◌+◌, ◌-◌, ◌*◌, ◌≤◌, leb, refl, sym, subst, Bool, false, ◌&&◌, String, ◌≡◌, ◌↔◌, ◌∙◌, true,
  none, some, List, [], ◌∷◌, ◌++◌, map, append-nil, append_assoc, select, length, arith, inl, inr,
  Bool-cases,
}
use oci_iot_samples.Base.Options.{Option-cases}
use oci_iot_samples.Base.Picked.{Picked, select-Picked, select-select}
use oci_iot_samples.Base.Exec.{ok, after}
use oci_iot_samples.Base.Time.{Datetime, aware, naive, micros, minute_micros, minus}
use oci_iot_samples.FileAgent.ObjectStorage.{
  ServiceState, Settings, is_agent_par, is_stale, as_utc, prune_all, prune,
}
use oci_iot_samples.FileAgent.ObjectStorage.Client.{ObjectStorageClient, ParSummary, Page}
use oci_iot_samples.FileAgent.ObjectStorage.Listing.{
  IsAgentPar, is_agent_par_iff, contents, Serves, HasNamespace, namespace_known,
  list_file_agent_pars-select,
}

abbrev pub par_id : ParSummary → String
par_id par = par.id

module _ (C : ObjectStorageClient) (cfg : Settings) (ns : String)
    (deletes : (id : String) (s : C.State)
      → (C.delete_preauthenticated_request ns cfg.bucket_name id s).0 ≡ ok tt) where
  -- The store after the deletion of these ids, one after the other.
  abbrev pub delete_ids : List String → C.State → C.State
  delete_ids [] s = s
  delete_ids (id ∷ ids) s =
      delete_ids ids (C.delete_preauthenticated_request ns cfg.bucket_name id s).1

  prune_all_lem :
      (cutoff : Datetime) (pars : List ParSummary) (pruned : List String)
      (st : ServiceState C.State)
      → HasNamespace st ns
      → prune_all C cfg cutoff pars pruned st ≡ (
        ok (pruned ++ map par_id (select (is_stale cutoff) pars)),
        record st { store = delete_ids (map par_id (select (is_stale cutoff) pars)) st.store },
      )
  unfolding prune_all select
  prune_all_lem cutoff [] pruned st known = rw append-nil
  prune_all_lem cutoff (par ∷ pars) pruned st known = elim (Bool-cases (is_stale cutoff par)) [
    | inl e ↦
        rw (e, prune_all, namespace_known C cfg st ns known, after, deletes)
          (prune_all_lem cutoff pars (pruned ++ (par.id ∷ []))
              (record st {
                store = (C.delete_preauthenticated_request ns cfg.bucket_name par.id st.store).1;
              })
              known
            ∙ rw append_assoc)
    | inr e ↦ rw (e, prune_all) (prune_all_lem cutoff pars pruned st known)
  ]

  -- The ids of the agent's PARs that were created at the cutoff or before it, of a listing.
  abbrev pub stale_ids : Datetime → List Page → List String
  stale_ids cutoff pages =
      map par_id (select (is_stale cutoff) (select (is_agent_par cfg) (contents pages)))

  -- With a known namespace, a clock that leaves the store alone, a cutoff that is a date, a
  -- listing that changes nothing and ends within the fuel, and deletions that succeed: the janitor
  -- returns the ids of the agent's PARs that were created at the cutoff or before it, in the order
  -- of the listing, and the store is what deleting just these, each once and in that order,
  -- leaves.
  pub prune_lem :
      (fuel age : ℕ) (st : ServiceState C.State) (t cutoff : Datetime) (pages : List Page)
      → HasNamespace st ns
      → length pages ≤ fuel
      → C.now st.store ≡ (ok t, st.store)
      → minus (as_utc t) (age * minute_micros) ≡ ok cutoff
      → Serves C ns cfg.bucket_name st.store none pages
      → prune C cfg fuel age st ≡ (
        ok (stale_ids cutoff pages),
        record st { store = delete_ids (stale_ids cutoff pages) st.store },
      )
  unfolding prune
  prune_lem fuel age st t cutoff pages known enough clock date served =
      rw (clock, date)
        (rw (list_file_agent_pars-select C cfg st ns known fuel pages enough served)
          (prune_all_lem cutoff _ [] st known))

-- The PAR has a creation time, and is at least so many minutes old.
abbrev pub IsOld : Datetime → ℕ → ParSummary → Type 0
IsOld now age par =
    (created : Datetime) × (par.time_created ≡ some created)
    × (micros created + age * minute_micros ≤ micros now)

-- `prune`'s cutoff.
abbrev pub cutoff_of : Datetime → ℕ → Datetime
cutoff_of now age = aware (micros now - age * minute_micros)

pub cutoff_minus :
    (now : Datetime) (age : ℕ)
    → age * minute_micros ≤ micros now
    → minus (as_utc now) (age * minute_micros) ≡ ok (cutoff_of now age)
unfolding minus as_utc
cutoff_minus (aware t) age h = ground arith
cutoff_minus (naive t) age h = ground arith

created_iff :
    (created : Datetime) (n span : ℕ)
    → span ≤ n
    → (leb (micros (as_utc created)) (n - span) ≡ true) ↔ (micros created + span ≤ n)
unfolding as_utc
created_iff (aware t) n span h = ground arith
created_iff (naive t) n span h = ground arith

is_stale_iff :
    (par : ParSummary) (now : Datetime) (age : ℕ)
    → age * minute_micros ≤ micros now
    → (is_stale (cutoff_of now age) par ≡ true) ↔ IsOld now age par
unfolding is_stale
is_stale_iff par now age h = elim (Option-cases par.time_created) [
  | inl e ↦ rw e ((λ x. cc), (λ (created, same, old). cc (same)))
  | inr (created, e) ↦
      let rule = created_iff created (micros now) (age * minute_micros) h in
      rw e (
        (λ x. (created, refl, rule.0 x)),
        (λ (other, same, old).
            let equal : other ≡ created = cc (same) in
            rule.1 (subst (λ c. micros c + age * minute_micros ≤ micros now) equal old)),
      )
]

-- The agent's PARs that are that old.
abbrev pub IsPrunable : Settings → Datetime → ℕ → ParSummary → Type 0
IsPrunable cfg now age par = IsAgentPar cfg par × IsOld now age par

both_iff : {P Q : Type 0} (a b : Bool) → (a ≡ true) ↔ P → (b ≡ true) ↔ Q → (a && b ≡ true) ↔ (P × Q)
both_iff true b p q = ((λ h. (p.0 refl, q.0 h)), (λ (x, y). q.1 y))
both_iff false b p q = ((λ h. cc), (λ (x, y). p.1 x))

pub stale-Picked :
    (cfg : Settings) (now : Datetime) (age : ℕ) (pars : List ParSummary)
    → age * minute_micros ≤ micros now
    → Picked
        (IsPrunable cfg now age)
        pars
        (select (is_stale (cutoff_of now age)) (select (is_agent_par cfg) pars))
stale-Picked cfg now age pars h =
    subst (Picked (IsPrunable cfg now age) pars)
      (sym (select-select (is_stale (cutoff_of now age)) (is_agent_par cfg) pars))
      (select-Picked (λ x. is_agent_par cfg x && is_stale (cutoff_of now age) x)
        (IsPrunable cfg now age)
        (λ par.
          both_iff (is_agent_par cfg par) (is_stale (cutoff_of now age) par)
            (is_agent_par_iff cfg par) (is_stale_iff par now age h))
        pars)
