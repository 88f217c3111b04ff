-- ===== src/ArchiveDomain/Service/Statuses.antt =====
-- The statuses of a run's results, as the dict that decides on the checkpoint.
use oci_iot_samples.Base.{
  String, ◌≡◌, ◌≢◌, ◌⊎◌, inl, inr, true, eq_iff, none, some, List, [], ◌∷◌, map, arith, contains,
  lookup, insert, lookup-insert,
}
use oci_iot_samples.ArchiveDomain.Models.{DatasetResult, PlanResult}
use oci_iot_samples.ArchiveDomain.Service.{ArchiveService, RunRequest, statuses_from}

-- Among the results is one of this name and status.
abbrev pub HasStatus : String → String → List DatasetResult → Type 0
HasStatus d s [] = ⊥
HasStatus d s (r ∷ rs) = ((r.name ≡ d) × (r.status ≡ s)) ⊎ HasStatus d s rs

abbrev pub name_of : DatasetResult → String
name_of r = r.name

pub no_status : (d s : String) → lookup d [] ≡ some s → ⊥
unfolding lookup
no_status d s h = cc

module _ {W : Type 0} (service : ArchiveService W) (request : RunRequest)
    (planned : PlanResult) where
  abbrev pub statuses_of : List (String × String) → List DatasetResult → List (String × String)
  statuses_of = statuses_from service request planned

  pub statuses_of-HasStatus :
      (d s : String) (statuses : List (String × String)) (rs : List DatasetResult)
      → lookup d (statuses_of statuses rs) ≡ some s
      → (lookup d statuses ≡ some s) ⊎ HasStatus d s rs
  unfolding statuses_from
  statuses_of-HasStatus d s statuses [] h = inl h
  statuses_of-HasStatus d s statuses (r ∷ rs) h =
      elim (statuses_of-HasStatus d s (insert r.name r.status statuses) rs h) [
        | inl e ↦ ground (arith, e, lookup-insert r.name d r.status statuses, eq_iff r.name d)
        | inr more ↦ inr (inr more)
      ]

  pub statuses_of-found :
      (d : String) (statuses : List (String × String)) (rs : List DatasetResult)
      → (contains d (map name_of rs) ≡ true) ⊎ (lookup d statuses ≢ none)
      → lookup d (statuses_of statuses rs) ≢ none
  unfolding statuses_from contains
  statuses_of-found d statuses [] (inl h) = cc
  statuses_of-found d statuses [] (inr h) = h
  statuses_of-found d statuses (r ∷ rs) h =
      statuses_of-found d (insert r.name r.status statuses) rs (
        ground
          (arith, h, lookup-insert r.name d r.status statuses, eq_iff d r.name, eq_iff r.name d))
