-- ===== src/RepositoryPolicy/Exits.antt =====
-- The program's exit code.
use oci_iot_samples.Base.{
  ℕ, String, ◌≡◌, ◌↔◌, inl, inr, refl, true, false, Option, List, [], ◌∷◌, ◌++◌, map, select,
  contains, All, Bool-cases,
}
use oci_iot_samples.Base.Exec.{Outcome, ok}
use oci_iot_samples.RepositoryPolicy.{TrackedFile}
use oci_iot_samples.RepositoryPolicy.Compliance.{IsAccepted, append-nil_iff, content_violations_iff}
use oci_iot_samples.RepositoryPolicy.Paths.{to_set, sorted, case_conflict_violations}
use oci_iot_samples.RepositoryPolicy.Paths.Parents.{AllDiffer, AllDiffer-Unmistakable}
use oci_iot_samples.RepositoryPolicy.Paths.Reports.{sorted_iff, case_conflict_violations_iff}
use oci_iot_samples.RepositoryPolicy.Index.{
  Git, Rules, path_of, tracked_files, lfs_paths, added_paths, illegal_violations, with_contents,
  find_violations, exit_with, main,
}

to_set_iff : (xs : List String) → (to_set xs ≡ []) ↔ (xs ≡ [])
unfolding to_set contains
to_set_iff [] = ((λ h. refl), (λ h. refl))
to_set_iff (x ∷ xs) = elim (Bool-cases (contains x (to_set xs))) [
  | inl there ↦ rw there ((λ h. absurd (nothing_there (to_set xs) h there)), (λ h. cc))
  | inr new ↦ rw new ((λ h. cc), (λ h. cc))
]
  where
    nothing_there : (ys : List String) → ys ≡ [] → contains x ys ≡ true → ⊥
    nothing_there [] e h = cc
    nothing_there (y ∷ ys) e h = cc

-- The name is legal on Windows.
abbrev IsLegal : Rules → String → Type 0
IsLegal rules path = rules.is_illegal path ≡ false

illegal_iff :
    (rules : Rules) (paths : List String)
    → (illegal_violations rules paths ≡ []) ↔ All (IsLegal rules) paths
unfolding select
illegal_iff rules [] = ((λ h. tt), (λ h. refl))
illegal_iff rules (path ∷ paths) = elim (Bool-cases (rules.is_illegal path)) [
  | inl bad ↦ rw bad ((λ h. cc), (λ (h, hs). cc))
  | inr good ↦
      rw good
        ((λ h. (refl, (illegal_iff rules paths).0 h)), (λ (h, hs). (illegal_iff rules paths).1 hs))
]

module _ {W : Type 0} (git : Git W) (rules : Rules) where
  -- The program returned, with exit code 0 exactly in the one case.
  abbrev pub ExitsZero : Outcome ℕ × W → Type 0 → Type 0
  ExitsZero r Accepted = (n : ℕ) × (r.0 ≡ ok n) × ((n ≡ 0) ↔ Accepted)

  exit_with-ExitsZero :
      (violations : List String) (w : W)
      → ((line : String) (w : W) → (git.print line w).0 ≡ ok tt)
      → ExitsZero (exit_with git rules violations w) (violations ≡ [])
  exit_with-ExitsZero [] w prints = (0, refl, (λ h. refl, λ h. refl))
  exit_with-ExitsZero (v ∷ vs) w prints = (1, rw (prints _ w) refl, (λ h. cc, λ h. cc))

  module _ (blob : String → List ℕ)
      (reads : (id : String) (w : W) → git.staged_blob id w ≡ (ok (blob id), w)) where
    -- The files of an index break none of the rules.
    abbrev pub IsCompliant : List TrackedFile → List String → List String → Type 0
    IsCompliant files filtered added =
        AllDiffer rules.lower (map path_of files)
        × (All (IsLegal rules) (map path_of files)
            × All
                (IsAccepted rules.is_pointer rules.suffix rules.shown git.staged_blob filtered added
                  blob reads)
                files)

    found_iff :
        (files : List TrackedFile) (filtered added : List String) (w : W)
        → (found : List String) × (with_contents git rules files
              (case_conflict_violations rules.lower (map path_of files)
                ++ illegal_violations rules (map path_of files))
              filtered
              added
              w
            ≡ (ok found, w))
          × ((found ≡ []) ↔ IsCompliant files filtered added)
    found_iff files filtered added w =
        let paths = map path_of files in
        let (more, e, contents) =
          content_violations_iff rules.is_pointer rules.suffix rules.shown git.staged_blob filtered
            added blob reads files w in
        let conflicts = case_conflict_violations rules.lower paths in
        let illegal = illegal_violations rules paths in
        let differ = AllDiffer-Unmistakable rules.lower paths in
        let all_found = (conflicts ++ illegal) ++ more in
        (
          sorted (to_set all_found),
          rw e refl,
          (
            λ h.
                let none_found = (to_set_iff all_found).0 ((sorted_iff (to_set all_found)).0 h) in
                let (a, b) = (append-nil_iff (conflicts ++ illegal) more).0 none_found in
                let (c, d) = (append-nil_iff conflicts illegal).0 a in
                (
                  differ.0 ((case_conflict_violations_iff rules.lower paths).0 c),
                  ((illegal_iff rules paths).0 d, contents.0 b),
                ),
            λ (c, (d, b)). (sorted_iff (to_set all_found)).1 (
                (to_set_iff all_found).1 (
                  (append-nil_iff (conflicts ++ illegal) more).1 (
                    (append-nil_iff conflicts illegal).1 (
                      (case_conflict_violations_iff rules.lower paths).1 (differ.1 c),
                      (illegal_iff rules paths).1 d,
                    ),
                    contents.1 b,
                  ))),
          ),
        )

    -- When Git gives the files of the index, the paths that are kept in LFS and the paths that are
    -- new, when the staged blobs can be read, without a change, and the lines be printed, then the program
    -- returns, and its exit code is 0 exactly if: no two of the paths and their parents (a parent is what stands
    -- before a slash) differ in case alone; each path is legal on Windows; and for each file of mode
    -- 100644 or 100755, what is marked for LFS is empty or a pointer, which is a text of less than 1024 bytes;
    -- a new file that is not such has at most 65536 bytes, unless it is a .pkb file; a file of mode 100755
    -- begins with #!; and the first 1024 bytes of a file that is not in LFS are those of a text.
    pub main_iff :
        (added_since : Option String) (w w1 w2 w3 : W) (files : List TrackedFile)
        (filtered added : List String)
        → ((line : String) (w : W) → (git.print line w).0 ≡ ok tt)
        → tracked_files git w ≡ (ok files, w1)
        → lfs_paths git (map path_of files) w1 ≡ (ok filtered, w2)
        → added_paths git added_since w2 ≡ (ok added, w3)
        → ExitsZero (main git rules added_since w) (IsCompliant files filtered added)
    unfolding main find_violations
    main_iff added_since w w1 w2 w3 files filtered added prints listed marked diffed =
        let (found, e, compliant) = found_iff files filtered added w3 in
        let (n, r, zero) = exit_with-ExitsZero found w3 prints in
        (
          n,
          rw (listed, marked, diffed, e) r,
          ((λ h. compliant.0 (zero.0 h)), (λ h. zero.1 (compliant.1 h))),
        )
