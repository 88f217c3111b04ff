-- ===== src/ArchiveDomain/Service/Failures.antt =====
-- A dataset that fails does not keep the others from being archived.
use oci_iot_samples.Base.{
  ℕ, ◌+◌, String, ◌≡◌, ◌≢◌, refl, ◌∙◌, Bool, true, false, Option, none, some, List, [], ◌∷◌, ◌++◌,
  inl, inr, All, arith, length, lookup,
}
use oci_iot_samples.Base.Options.{Option-cases}
use oci_iot_samples.Base.Exec.{Outcome, ok, raised, pending, after}
use oci_iot_samples.ArchiveDomain.Models.{DatasetPlan, DatasetResult, PlanResult}
use oci_iot_samples.ArchiveDomain.Exporters.{dataset_zone}
use oci_iot_samples.ArchiveDomain.Service.{
  ArchiveService, Executor, RunRequest, execute_or_fail, execute_planned, run_dataset, run_datasets,
}

-- A dataset whose zone is known.
abbrev pub HasZone : String → Type 0
HasZone d = (zone : String) × (dataset_zone d ≡ ok zone)

length-append : {A : Type 0} (xs : List A) (y : A) → length (xs ++ (y ∷ [])) ≡ length xs + 1
length-append [] y = refl
length-append (x ∷ xs) y = omega (arith, length-append xs y)

-- How many results a loop returned, if it did.
abbrev pub counted : {A : Type 0} → Outcome (List A) → Option ℕ
counted (ok xs) = some (length xs)
counted _ = none

abbrev is_ok : {A : Type 0} → Outcome A → Bool
is_ok (ok a) = true
is_ok _ = false

returned :
    {A W : Type 0} (r : Outcome A × W) → is_ok r.0 ≡ true → (a : A) × (w : W) × (r ≡ (ok a, w))
returned (ok a, w) h = (a, w, refl)
returned (raised e, w) h = cc
returned (pending, w) h = cc

module _ {W : Type 0} (service : ArchiveService W) (request : RunRequest) (planned : PlanResult)
    (execute : Executor W) (configured : service.executor ≡ some execute)
    (ends : (d : String) (p : DatasetPlan) (mode object_prefix export_format : String) (w : W)
      → (execute d p mode object_prefix export_format w).0 ≢ pending) where
  execute_planned-ends :
      (d object_prefix : String) (w : W)
      → (execute_planned service request planned execute d object_prefix w).0 ≢ pending
  unfolding execute_planned
  execute_planned-ends d object_prefix w = elim (Option-cases (lookup d planned.plan.datasets)) [
    | inl e ↦ rw (e, execute_planned) (λ h. cc)
    | inr (p, e) ↦
        rw (e, execute_planned) (ends d p request.mode object_prefix planned.export_format w)
  ]

  execute_or_fail-returns :
      (d object_prefix : String) (w : W)
      → is_ok (execute_or_fail service request planned service.executor d object_prefix w).0 ≡ true
  unfolding execute_or_fail
  execute_or_fail-returns d object_prefix w =
      ground (arith, configured, execute_planned-ends d object_prefix w)

  run_dataset-returns :
      (d : String) (w : W) → HasZone d → is_ok (run_dataset service request planned d w).0 ≡ true
  unfolding run_dataset
  run_dataset-returns d w (zone, known) = grind (arith, known, execute_or_fail-returns)

  -- With an executor whose calls end, over datasets whose zones are known, the loop of a run
  -- returns, with one result for each of the datasets more than it began with, whatever the
  -- executor raises.
  pub run_datasets-counted :
      (ds : List String) (results : List DatasetResult) (w : W)
      → All HasZone ds
      → counted (run_datasets service request planned ds results w).0
        ≡ some (length results + length ds)
  unfolding run_datasets
  run_datasets-counted [] results w zones = ground arith
  run_datasets-counted (d ∷ ds) results w (zone, zones) =
      let (r, w1, e) =
        returned (run_dataset service request planned d w) (run_dataset-returns d w zone) in
      rw (e, after)
        (run_datasets-counted ds (results ++ (r ∷ [])) w1 zones
          ∙ ground (arith, length-append results r))
