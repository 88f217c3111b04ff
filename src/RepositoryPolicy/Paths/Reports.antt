-- ===== src/RepositoryPolicy/Paths/Reports.antt =====
-- The report of the conflicts.
use oci_iot_samples.Base.{
  String, ◌≡◌, ◌≢◌, ◌↔◌, inl, inr, refl, sym, ◌∙◌, true, false, List, [], ◌∷◌, ◌++◌, map, length,
  ltb, arith, Bool-cases,
}
use oci_iot_samples.RepositoryPolicy.Paths.{
  to_set, sorted, insert_sorted, all_paths, report_groups, by_lowercase, case_conflict_violations,
}
use oci_iot_samples.RepositoryPolicy.Paths.Conflicts.{
  crowded, crowded-by_lowercase, contains-to_set, to_set-Distinct, Unmistakable, fresh-Unmistakable,
  Unmistakable-fresh,
}

insert_sorted-nonempty : (s : String) (ts : List String) → insert_sorted s ts ≢ []
unfolding insert_sorted
insert_sorted-nonempty s [] h = cc
insert_sorted-nonempty s (t ∷ ts) h = ground arith

pub sorted_iff : (ss : List String) → (sorted ss ≡ []) ↔ (ss ≡ [])
unfolding sorted
sorted_iff [] = ((λ h. refl), (λ h. refl))
sorted_iff (s ∷ ss) = ((λ h. absurd (insert_sorted-nonempty s (sorted ss) h)), (λ h. cc))

lines-nonempty :
    (f : String → String) (ss : List String) (more : List String) → ss ≢ [] → map f ss ++ more ≢ []
lines-nonempty f [] more h = absurd (h refl)
lines-nonempty f (s ∷ ss) more h = λ e. cc

long-nonempty : (ps : List String) → ltb 1 (length ps) ≡ true → sorted ps ≢ []
long-nonempty [] h = cc
long-nonempty (p ∷ ps) h = λ e. cc ((sorted_iff (p ∷ ps)).0 e)

report_groups_iff :
    (groups : List (String × List String)) → (report_groups groups ≡ []) ↔ (crowded groups ≡ false)
unfolding report_groups
report_groups_iff [] = ((λ h. refl), (λ h. refl))
report_groups_iff ((k, ps) ∷ groups) = elim (Bool-cases (ltb 1 (length ps))) [
  | inl long ↦
      rw long ((λ h. absurd (lines-nonempty _ (sorted ps) _ (long-nonempty ps long) h)), (λ h. cc))
  | inr short ↦ rw short (report_groups_iff groups)
]

module _ (lower : String → String) where
  to_set-Unmistakable : (xs : List String) → Unmistakable lower (to_set xs) ↔ Unmistakable lower xs
  to_set-Unmistakable xs = (
    λ u a b m n. u a b (contains-to_set a xs ∙ m) (contains-to_set b xs ∙ n),
    λ u a b m n. u a b (sym (contains-to_set a xs) ∙ m) (sym (contains-to_set b xs) ∙ n),
  )

  pub case_conflict_violations_iff :
      (paths : List String)
      → (case_conflict_violations lower paths ≡ []) ↔ Unmistakable lower (all_paths paths)
  unfolding case_conflict_violations
  case_conflict_violations_iff paths =
      let ps = to_set (all_paths paths) in
      let report = report_groups_iff (by_lowercase lower ps []) in
      let keys = crowded-by_lowercase lower ps [] tt in
      let set = to_set-Unmistakable (all_paths paths) in
      (
        λ h. set.0 (fresh-Unmistakable lower (λ k. false) ps (sym keys ∙ report.0 h)),
        λ u. report.1 (
            keys
            ∙ Unmistakable-fresh lower (λ k. false) ps (to_set-Distinct (all_paths paths))
                (λ a m. refl) (set.1 u)),
      )
