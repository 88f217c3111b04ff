-- ===== src/RepositoryPolicy.antt =====
-- The repository's own check of its files: pre_commit_hooks/repository_policy.py. Bytes are numbers.
mod Bytes
pub mod Compliance
pub mod Paths
pub mod Index
pub mod Exits
mod Tests
mod ExitTests
use oci_iot_samples.Base.{
  ℕ, zero, suc, ◌+◌, ◌/◌, String, ◌<>◌, Bool, true, false, not, ◌&&◌, ◌||◌, ◌==◌, List, [], ◌∷◌,
  ◌++◌, length, contains, eqb, leb, ltb, if◌then◌else◌,
}
use oci_iot_samples.Base.Exec.{Exec, after, ◌>>=◌, pure}

abbrev pub max_file_size_kib : ℕ
max_file_size_kib = 64

pub record TrackedFile : Type 0 where
  pub mode : String
  pub object_id : String
  pub path : String

unfoldable pub is_regular : TrackedFile → Bool
is_regular f = f.mode == "100644" || f.mode == "100755"

unfoldable pub is_executable : TrackedFile → Bool
is_executable f = f.mode == "100755"

-- byte in TEXT_BYTES
unfoldable pub is_text_byte : ℕ → Bool
is_text_byte b = leb 7 b && leb b 13 || (eqb b 27 || leb 32 b && ltb b 256)

-- any(byte not in TEXT_BYTES for byte in content[:n])
unfoldable pub any_binary : ℕ → List ℕ → Bool
any_binary zero content = false
any_binary (suc n) [] = false
any_binary (suc n) (b ∷ content) = not (is_text_byte b) || any_binary n content

unfoldable pub is_binary : List ℕ → Bool
is_binary content = any_binary 1024 content

unfoldable pub has_shebang : List ℕ → Bool
has_shebang (a ∷ b ∷ content) = eqb a b'#' && eqb b b'!'
has_shebang _ = false

abbrev is_empty : List ℕ → Bool
is_empty [] = true
is_empty (b ∷ content) = false

-- math.ceil(n / 1024)
unfoldable pub size_kib : ℕ → ℕ
size_kib n = (n + 1023) / 1024

abbrev pub when : Bool → String → List String
when true violation = violation ∷ []
when false violation = []

-- `is_pointer` is LFS_POINTER.fullmatch, `suffix` is that of PurePosixPath, and `shown` is `str`.
module _ (is_pointer : List ℕ → Bool) (suffix : String → String) (shown : ℕ → String) where
  unfoldable pub is_valid_lfs_content : List ℕ → Bool
  is_valid_lfs_content content =
      is_empty content
      || ltb (length content) 1024 && (not (is_binary content) && is_pointer content)

  -- `is_lfs` in the loop
  unfoldable pub is_lfs : Bool → List ℕ → Bool
  is_lfs has_lfs_attribute content = has_lfs_attribute && is_valid_lfs_content content

  -- What the loop appends for a regular file.
  unfoldable pub file_violations : TrackedFile → Bool → Bool → List ℕ → List String
  unfolding is_executable
  file_violations f has_lfs_attribute newly_added content =
      when (has_lfs_attribute && not (is_lfs has_lfs_attribute content))
        (f.path <> " is marked for LFS but its staged blob is not an LFS pointer")
      ++ (when
            (not (is_lfs has_lfs_attribute content)
              && (newly_added
                  && (not (suffix f.path == ".pkb")
                      && ltb max_file_size_kib (size_kib (length content)))))
            (f.path
              <> (" ("
                  <> (shown (size_kib (length content))
                      <> (" KB) exceeds " <> (shown max_file_size_kib <> " KB.")))))
          ++ (when (is_executable f && not (has_shebang content))
                (f.path <> ": marked executable but has no valid shebang")
              ++ when (not (is_lfs has_lfs_attribute content) && is_binary content)
                  (f.path <> " appears to be a non-LFS binary file")))

  -- `staged_blob` reads an object of the index.
  module _ {W : Type 0} (staged_blob : String → Exec W (List ℕ))
      (lfs_tracked_paths newly_added_paths : List String) where
    -- One round of the loop.
    unfoldable pub check_file : TrackedFile → Exec W (List String)
    unfolding is_regular file_violations
    check_file f = elim (is_regular f) [
      | false ↦ pure []
      | true ↦ staged_blob f.object_id >>= λ content. pure (
          file_violations f (contains f.path lfs_tracked_paths) (contains f.path newly_added_paths)
            content)
    ]

    unfoldable pub content_violations : List TrackedFile → List String → Exec W (List String)
    unfolding check_file
    content_violations [] violations = pure violations
    content_violations (f ∷ files) violations = do
      found ← check_file f
      content_violations files (violations ++ found)
