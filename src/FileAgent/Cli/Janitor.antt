-- ===== src/FileAgent/Cli/Janitor.antt =====
-- cli.py: the janitor's commands, which print lines beside the state of Object Storage.
use oci_iot_samples.Base.{
  ℕ, ◌*◌, ◌≤◌, String, ◌<>◌, ◌≡◌, refl, Option, none, some, List, [], ◌∷◌, ◌++◌, length, length-map,
  map, select,
}
use oci_iot_samples.Base.Picked.{Picked}
use oci_iot_samples.Base.Exec.{Exec, Exn, ok, other_error, ◌>>=◌, ◌>>◌, pure, raise}
use oci_iot_samples.Base.Time.{Datetime, micros, minute_micros}
use oci_iot_samples.FileAgent.ObjectStorage.Client.{ObjectStorageClient, ParSummary, Page}
use oci_iot_samples.FileAgent.ObjectStorage.{
  ServiceState, Settings, is_stale, is_agent_par, list_file_agent_pars, prune,
}
use oci_iot_samples.FileAgent.ObjectStorage.Listing.{contents, Serves, HasNamespace}
use oci_iot_samples.FileAgent.ObjectStorage.Janitor.{
  delete_ids, par_id, IsPrunable, cutoff_of, cutoff_minus, stale-Picked, prune_lem,
}

-- The part of the configuration that a PAR service is made of.
pub record ObjectStorageConfig : Type 0 where
  pub namespace_name : Option String
  pub settings : Settings

-- What getattr gives of a summary's other attributes, the time as a text, and `str` of a number.
pub record Shown : Type 0 where
  pub object_name : ParSummary → String
  pub time_created : ParSummary → String
  pub count_text : ℕ → String

-- "\t".join
abbrev par_line : Shown → ParSummary → String
par_line shown par =
    par.id
    <> ("\t" <> (par.name <> ("\t" <> (shown.object_name par <> ("\t" <> shown.time_created par)))))

-- click.ClickException
abbrev not_loaded : Exn
not_loaded = other_error "ClickException: Configuration was not loaded"

unfoldable pub create_par_service : {S : Type 0} → ObjectStorageConfig → S → ServiceState S
create_par_service config s = record { store = s; namespace_name = config.namespace_name }

module _ (C : ObjectStorageClient) (shown : Shown) where
  abbrev pub Command : Type 0 → Type 0
  Command A = Exec (C.State × List String) A

  -- click.echo
  abbrev pub echo : String → Command (Unit {0})
  echo text (s, printed) = (ok tt, (s, printed ++ (text ∷ [])))

  -- A method of a new PAR service.
  abbrev pub with_service :
      {A : Type 0} → ObjectStorageConfig → Exec (ServiceState C.State) A → Command A
  with_service config method (s, printed) =
      let r = method (create_par_service config s) in (r.0, (r.1.store, printed))

  -- _require_config
  unfoldable pub require_config : Option ObjectStorageConfig → Command ObjectStorageConfig
  require_config none = raise not_loaded
  require_config (some config) = pure config

  unfoldable pub echo_pars : List ParSummary → Command (Unit {0})
  echo_pars [] = pure tt
  echo_pars (par ∷ pars) = echo (par_line shown par) >> echo_pars pars

  unfoldable pub janitor_list : ℕ → Option ObjectStorageConfig → Command (Unit {0})
  unfolding require_config create_par_service echo_pars
  janitor_list fuel ctx = do
    config ← require_config ctx
    pars ← with_service config (list_file_agent_pars C config.settings fuel)
    echo_pars pars

  abbrev deleted_line : ℕ → String
  deleted_line n = "Deleted " <> (shown.count_text n <> " PAR(s)")

  unfoldable pub janitor_prune : ℕ → Option ObjectStorageConfig → ℕ → Command (Unit {0})
  unfolding require_config create_par_service
  janitor_prune fuel ctx min_age_minutes = do
    config ← require_config ctx
    deleted ← with_service config (prune C config.settings fuel min_age_minutes)
    echo (deleted_line (length deleted))

module _ (C : ObjectStorageClient) (shown : Shown) (config : ObjectStorageConfig) (ns : String)
    (deletes : (id : String) (s : C.State)
      → (C.delete_preauthenticated_request ns config.settings.bucket_name id s).0 ≡ ok tt) where
  -- With a configuration that has the namespace, a clock that leaves the store alone, an age that does not
  -- reach back behind the first date, a listing that changes nothing and ends within the fuel, and deletions
  -- that succeed: the janitor's prune command leaves the store that deleting just these PARs of the
  -- listing, each once and in its order, leaves, and it prints one line with their number: those whose
  -- name begins with the agent's prefix and a colon, and that have a creation time and are at least so many
  -- minutes old.
  pub janitor_prune_lem :
      (fuel age : ℕ) (s : C.State) (printed : List String) (now : Datetime) (pages : List Page)
      → HasNamespace (create_par_service config s) ns
      → length pages ≤ fuel
      → C.now s ≡ (ok now, s)
      → age * minute_micros ≤ micros now
      → Serves C ns config.settings.bucket_name s none pages
      → (pars : List ParSummary) × Picked (IsPrunable config.settings now age) (contents pages) pars
        × (janitor_prune C shown fuel (some config) age (s, printed) ≡ (
          ok tt,
          (
            delete_ids C config.settings ns deletes (map par_id pars) s,
            printed ++ (("Deleted " <> (shown.count_text (length pars) <> " PAR(s)")) ∷ []),
          ),
        ))
  unfolding janitor_prune create_par_service
  janitor_prune_lem fuel age s printed now pages known enough clock date served =
      let pars =
        select (is_stale (cutoff_of now age))
          (select (is_agent_par config.settings) (contents pages)) in
      (
        pars,
        stale-Picked config.settings now age (contents pages) date,
        rw
            (
              prune_lem C config.settings ns deletes fuel age (create_par_service config s) now
                  (cutoff_of now age) pages known enough clock (cutoff_minus now age date) served,
              length-map par_id pars,
            )
            refl,
      )
