-- ===== src/RepositoryPolicy/Compliance.antt =====
-- The files that the check accepts, said without the check.
use mathlib.Core.List.{append-nil}
use oci_iot_samples.Base.{
  ℕ, ◌≤◌, ◌<◌, ◌⊎◌, String, ◌≡◌, ◌≢◌, ◌↔◌, inl, inr, Bool-cases, refl, Bool, true, false, not, ◌&&◌,
  ◌==◌, eq_iff, List, [], ◌∷◌, ◌++◌, All, arith, length, contains, ltb, append_assoc,
}
use oci_iot_samples.Base.Exec.{Exec, Outcome, ok, after}
use oci_iot_samples.RepositoryPolicy.Bytes.{
  TextUpTo, any_binary_iff, BeginsWithShebang, has_shebang_iff,
}
use oci_iot_samples.RepositoryPolicy.{
  TrackedFile, is_regular, is_executable, any_binary, is_binary, has_shebang, size_kib, when,
  is_valid_lfs_content, is_lfs, file_violations, check_file, content_violations,
}

is_regular_iff :
    (f : TrackedFile) → (is_regular f ≡ true) ↔ ((f.mode ≡ "100644") ⊎ (f.mode ≡ "100755"))
unfolding is_regular
is_regular_iff f = ground (arith, eq_iff f.mode "100644", eq_iff f.mode "100755")

size_iff : (n : ℕ) → (ltb 64 (size_kib n) ≡ false) ↔ (n ≤ 65536)
unfolding size_kib
size_iff n = ground arith

when_iff : (b : Bool) (s : String) → (when b s ≡ []) ↔ (b ≡ false)
when_iff b s = ground arith

pub append-nil_iff : (xs ys : List String) → (xs ++ ys ≡ []) ↔ ((xs ≡ []) × (ys ≡ []))
append-nil_iff [] ys = ground arith
append-nil_iff (x ∷ xs) ys = ground arith

four_iff :
    (a b c d : Bool) (s t u v : String)
    → (when a s ++ (when b t ++ (when c u ++ when d v)) ≡ [])
      ↔ ((a ≡ false) × (b ≡ false) × (c ≡ false) × (d ≡ false))
four_iff a b c d s t u v = ground arith

-- The four conditions, of the answers of the tests.
lfs_iff : (has valid : Bool) → (has && not (has && valid) ≡ false) ↔ (has ≡ true → valid ≡ true)
lfs_iff true true = ground arith
lfs_iff true false = ground arith
lfs_iff false valid = ground arith

size_rule_iff :
    (lfs newly_added pkb big : Bool)
    → (not lfs && (newly_added && (not pkb && big)) ≡ false)
      ↔ (lfs ≡ false → newly_added ≡ true → pkb ≢ true → big ≡ false)
size_rule_iff true a b c = ground arith
size_rule_iff false true true c = ground arith
size_rule_iff false true false c = ground arith
size_rule_iff false false b c = ground arith

shebang_iff :
    (executable found : Bool)
    → (executable && not found ≡ false) ↔ (executable ≡ true → found ≡ true)
shebang_iff true true = ground arith
shebang_iff true false = ground arith
shebang_iff false found = ground arith

text_iff : (lfs binary : Bool) → (not lfs && binary ≡ false) ↔ (lfs ≡ false → binary ≡ false)
text_iff true binary = ground arith
text_iff false binary = ground arith

module _ (is_pointer : List ℕ → Bool) (suffix : String → String) (shown : ℕ → String) where
  -- What is empty, or a pointer: short, a text, and accepted by the pattern.
  abbrev pub IsLfsContent : List ℕ → Type 0
  IsLfsContent content =
      (content ≡ [])
      ⊎ ((length content < 1024) × (TextUpTo 1024 content × (is_pointer content ≡ true)))

  abbrev pub InLfs : Bool → List ℕ → Type 0
  InLfs has_lfs content = (has_lfs ≡ true) × IsLfsContent content

  -- What is marked for LFS is empty or a pointer. A new file that is not kept in LFS has at most 64 KiB, unless it is
  -- a .pkb file. An executable file begins with a shebang. What is not kept in LFS begins as a text.
  abbrev pub Compliant : TrackedFile → Bool → Bool → List ℕ → Type 0
  Compliant f has_lfs newly_added content =
      (has_lfs ≡ true → IsLfsContent content)
      × (¬ InLfs has_lfs content
          → newly_added ≡ true
          → suffix f.path ≢ ".pkb"
          → length content ≤ 65536)
      × (f.mode ≡ "100755" → BeginsWithShebang content)
      × (¬ InLfs has_lfs content → TextUpTo 1024 content)

  short_pointer_iff :
      (short binary pointer : Bool)
      → (short && (not binary && pointer) ≡ true)
        ↔ ((short ≡ true) × ((binary ≡ false) × (pointer ≡ true)))
  short_pointer_iff true true c = ground arith
  short_pointer_iff true false c = ground arith
  short_pointer_iff false b c = ground arith

  is_valid_iff :
      (content : List ℕ)
      → (is_valid_lfs_content is_pointer suffix shown content ≡ true) ↔ IsLfsContent content
  unfolding is_valid_lfs_content is_binary
  is_valid_iff [] = ((λ h. inl refl), (λ h. refl))
  is_valid_iff (b ∷ bytes) =
      let content = b ∷ bytes in
      let rule =
        short_pointer_iff (ltb (length content) 1024) (any_binary 1024 content)
          (is_pointer content) in
      let text = any_binary_iff 1024 content in
      (
        λ h.
            let (short, (clean, pointer)) = rule.0 h in
            inr (below_iff.0 short, (text.0 clean, pointer)),
        λ h. elim h [
          | inl e ↦ cc (e)
          | inr (short, (clean, pointer)) ↦ rule.1 (below_iff.1 short, (text.1 clean, pointer))
        ],
      )
    where
      below_iff : {n : ℕ} → (ltb n 1024 ≡ true) ↔ (n < 1024)
      below_iff = ground arith

  not-InLfs_iff :
      (has_lfs : Bool) (content : List ℕ)
      → (has_lfs && is_valid_lfs_content is_pointer suffix shown content ≡ false)
        ↔ (¬ InLfs has_lfs content)
  not-InLfs_iff false content = ((λ h (e, x). cc (e)), (λ h. refl))
  not-InLfs_iff true content = (
    λ h (e, x). let yes = (is_valid_iff content).1 x in cc (h, yes),
    λ h. elim (Bool-cases (is_valid_lfs_content is_pointer suffix shown content)) [
      | inl valid ↦ absurd (h (refl, (is_valid_iff content).0 valid))
      | inr bad ↦ bad
    ],
  )

  file_violations_iff :
      (f : TrackedFile) (has_lfs newly_added : Bool) (content : List ℕ)
      → (file_violations is_pointer suffix shown f has_lfs newly_added content ≡ [])
        ↔ Compliant f has_lfs newly_added content
  unfolding file_violations is_lfs is_executable is_binary
  file_violations_iff f has_lfs newly_added content =
      let valid = is_valid_lfs_content is_pointer suffix shown content in
      let lfs = has_lfs && valid in
      let big = ltb 64 (size_kib (length content)) in
      let pkb = suffix f.path == ".pkb" in
      let executable = f.mode == "100755" in
      let found = has_shebang content in
      let binary = any_binary 1024 content in
      let all =
        four_iff (has_lfs && not lfs) (not lfs && (newly_added && (not pkb && big)))
          (executable && not found) (not lfs && binary) _ _ _ _ in
      let out = not-InLfs_iff has_lfs content in
      (
        λ none_found.
            let (l, b, x, t) = all.0 none_found in
            (
              λ h. (is_valid_iff content).0 ((lfs_iff has_lfs valid).0 l h),
              λ no_lfs new not_pkb. (size_iff (length content)).0 (
                  (size_rule_iff lfs newly_added pkb big).0 b (out.1 no_lfs) new
                    (λ p. not_pkb ((eq_iff (suffix f.path) ".pkb").0 p))),
              λ mode.
                  (has_shebang_iff content).0
                    ((shebang_iff executable found).0 x ((eq_iff f.mode "100755").1 mode)),
              λ no_lfs. (any_binary_iff 1024 content).0 ((text_iff lfs binary).0 t (out.1 no_lfs)),
            ),
        λ (l, b, x, t). all.1 (
          (lfs_iff has_lfs valid).1 (λ h. (is_valid_iff content).1 (l h)),
          (size_rule_iff lfs newly_added pkb big).1 (λ no_lfs new not_pkb.
              (size_iff (length content)).1
                (b (out.0 no_lfs) new (λ p. not_pkb ((eq_iff (suffix f.path) ".pkb").1 p)))),
          (shebang_iff executable found).1
              (λ e. (has_shebang_iff content).1 (x ((eq_iff f.mode "100755").0 e))),
          (text_iff lfs binary).1 (λ no_lfs. (any_binary_iff 1024 content).1 (t (out.0 no_lfs))),
        ),
      )

  module _ {W : Type 0} (staged_blob : String → Exec W (List ℕ)) (lfs_paths new_paths : List String)
      (blob : String → List ℕ)
      (reads : (id : String) (w : W) → staged_blob id w ≡ (ok (blob id), w)) where
    abbrev pub IsAccepted : TrackedFile → Type 0
    IsAccepted f =
        ((f.mode ≡ "100644") ⊎ (f.mode ≡ "100755"))
        → Compliant f (contains f.path lfs_paths) (contains f.path new_paths) (blob f.object_id)

    abbrev pub Answers : Outcome (List String) × W → W → Type 0 → Type 0
    Answers r w Accepted = (found : List String) × (r ≡ (ok found, w)) × ((found ≡ []) ↔ Accepted)

    check_file-Answers :
        (f : TrackedFile) (w : W)
        → Answers
            (check_file is_pointer suffix shown staged_blob lfs_paths new_paths f w)
            w
            (IsAccepted f)
    unfolding check_file
    check_file-Answers f w = elim (Bool-cases (is_regular f)) [
      | inl e ↦
          let rule =
            file_violations_iff f (contains f.path lfs_paths) (contains f.path new_paths)
              (blob f.object_id) in
          (
            _,
            rw (e, check_file) (rw (reads f.object_id w, after) refl),
            (λ h r. rule.0 h, λ h. rule.1 (h ((is_regular_iff f).0 e))),
          )
      | inr e ↦ (
        [],
        rw (e, check_file) refl,
        (λ h r. let yes = (is_regular_iff f).1 r in cc (e, yes), λ h. refl),
      )
    ]

    loop-Answers :
        (files : List TrackedFile) (violations : List String) (w : W)
        → (more : List String) × (content_violations is_pointer suffix shown staged_blob lfs_paths
              new_paths files violations w
            ≡ (ok (violations ++ more), w))
          × ((more ≡ []) ↔ All IsAccepted files)
    unfolding content_violations
    loop-Answers [] violations w = ([], rw (append-nil violations) refl, (λ h. tt, λ h. refl))
    loop-Answers (f ∷ files) violations w =
        let (found, e, one) = check_file-Answers f w in
        let (more, l, others) = loop-Answers files (violations ++ found) w in
        (
          found ++ more,
          rw (e, after, l, append_assoc violations found more) refl,
          (
            λ h. let (a, b) = (append-nil_iff found more).0 h in (one.0 a, others.0 b),
            λ (a, b). (append-nil_iff found more).1 (one.1 a, others.1 b),
          ),
        )

    -- When the staged blobs can be read, without a change, the check returns and changes nothing, and it finds
    -- nothing exactly if every regular file complies: what is marked for LFS is empty or a pointer of less than 1024
    -- bytes; a new file that is not kept in LFS has at most 65536 bytes, unless it is a .pkb file; an
    -- executable file begins with a shebang; and the first 1024 bytes of what is not kept in LFS are those of a text.
    pub content_violations_iff :
        (files : List TrackedFile) (w : W)
        → Answers
            (content_violations is_pointer suffix shown staged_blob lfs_paths new_paths files [] w)
            w
            (All IsAccepted files)
    content_violations_iff files w = loop-Answers files [] w
