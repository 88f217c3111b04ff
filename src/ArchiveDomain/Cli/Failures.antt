-- ===== src/ArchiveDomain/Cli/Failures.antt =====
-- A run's statuses as pairs, and the failures among them.
use oci_iot_samples.Base.{
  String, ◌≡◌, ◌⊎◌, inl, inr, refl, sym, ap, ◌∙◌, Bool, true, false, List, [], ◌∷◌, ◌++◌, map, All,
  arith, contains, select, insert, ◌==◌, ◌||◌, eq_iff, append-nil, append_assoc,
}
use oci_iot_samples.ArchiveDomain.Models.{DatasetResult, PlanResult}
use oci_iot_samples.ArchiveDomain.State.{should_advance_checkpoint, all_succeeded}
use oci_iot_samples.ArchiveDomain.Planner.Selection.{Distinct, IsSelection}
use oci_iot_samples.ArchiveDomain.Service.{ArchiveService, RunRequest, advances, statuses_from}
use oci_iot_samples.ArchiveDomain.Service.Statuses.{name_of}
use oci_iot_samples.ArchiveDomain.Cli.{is_failed}

abbrev pair_of : DatasetResult → String × String
pair_of r = (r.name, r.status)

abbrev names : List (String × String) → List String
names [] = []
names ((k, v) ∷ d) = k ∷ names d

-- A new key goes to the end.
insert-new :
    (k v : String) (d : List (String × String))
    → contains k (names d) ≡ false
    → insert k v d ≡ d ++ ((k, v) ∷ [])
unfolding insert contains
insert-new k v [] h = refl
insert-new k v ((j, u) ∷ d) h = ground (arith, insert-new k v d, eq_iff k j, eq_iff j k)

-- None of the results has its name among the keys.
abbrev Fresh : List (String × String) → List DatasetResult → Type 0
Fresh d rs = All (λ r. contains r.name (names d) ≡ false) rs

contains-names :
    (k j v : String) (d : List (String × String))
    → contains k (names (d ++ ((j, v) ∷ []))) ≡ (contains k (names d) || k == j)
unfolding contains
contains-names k j v [] = ground arith
contains-names k j v ((i, u) ∷ d) = ground (arith, contains-names k j v d)

Fresh-append :
    (k v : String) (d : List (String × String)) (rs : List DatasetResult)
    → contains k (map name_of rs) ≡ false
    → Fresh d rs
    → Fresh (d ++ ((k, v) ∷ [])) rs
unfolding contains
Fresh-append k v d [] h f = tt
Fresh-append k v d (r ∷ rs) h (f, fs) = (
  ground (arith, contains-names r.name k v d, f, h, eq_iff r.name k, eq_iff k r.name),
  Fresh-append k v d rs (ground (arith, h)) fs,
)

abbrev pub is_nil : {A : Type 0} → List A → Bool
is_nil [] = true
is_nil (x ∷ xs) = false

-- The status is one of the two.
abbrev pub Settled : DatasetResult → Type 0
Settled r = (r.status ≡ "succeeded") ⊎ (r.status ≡ "failed")

all_succeeded-failed :
    (rs : List DatasetResult)
    → All Settled rs
    → all_succeeded (map pair_of rs) ≡ is_nil (select is_failed rs)
unfolding all_succeeded select
all_succeeded-failed [] s = refl
all_succeeded-failed (r ∷ rs) (inl e, s) = rw e (all_succeeded-failed rs s)
all_succeeded-failed (r ∷ rs) (inr e, s) = rw e refl

module _ {W : Type 0} (service : ArchiveService W) (request : RunRequest)
    (planned : PlanResult) where
  statuses-pairs :
      (d : List (String × String)) (rs : List DatasetResult)
      → Distinct (map name_of rs)
      → Fresh d rs
      → statuses_from service request planned d rs ≡ d ++ map pair_of rs
  unfolding statuses_from
  statuses-pairs d [] _ _ = sym (append-nil d)
  statuses-pairs d (r ∷ rs) (new, distinct) (f, fs) =
      ap (λ x. statuses_from service request planned x rs) (insert-new r.name r.status d f)
      ∙ (statuses-pairs (d ++ (pair_of r ∷ [])) rs distinct
            (Fresh-append r.name r.status d rs new fs)
          ∙ append_assoc d (pair_of r ∷ []) (map pair_of rs))

  Fresh-nil : (rs : List DatasetResult) → Fresh [] rs
  unfolding contains
  Fresh-nil [] = tt
  Fresh-nil (r ∷ rs) = (refl, Fresh-nil rs)

  -- A live run of some datasets, each once, advances exactly if none of its results is a failure.
  pub advances-unfailed :
      (rs : List DatasetResult)
      → request.dry_run ≡ false
      → IsSelection (map name_of rs)
      → All Settled rs
      → advances service request planned rs ≡ is_nil (select is_failed rs)
  unfolding advances should_advance_checkpoint
  advances-unfailed [] live (some_dataset, _) s = absurd (some_dataset refl)
  advances-unfailed (r ∷ rs) live (_, distinct) s =
      rw (live, statuses-pairs [] (r ∷ rs) distinct (Fresh-nil (r ∷ rs)))
        (all_succeeded-failed (r ∷ rs) s)
