-- ===== src/RepositoryPolicy/Tests.antt =====
-- The theorem on the repository's check at a small index.
use oci_iot_samples.Base.{ℕ, String, ◌≡◌, refl, Bool, false, List, [], ◌∷◌, contains}
use oci_iot_samples.Base.Exec.{Exec, ok}
use oci_iot_samples.RepositoryPolicy.{
  TrackedFile, content_violations, check_file, is_regular, is_executable, file_violations, is_lfs,
  is_binary, any_binary, is_text_byte, has_shebang, size_kib, is_valid_lfs_content,
}

abbrev is_pointer : List ℕ → Bool
is_pointer content = false

abbrev suffix : String → String
suffix path = ".sh"

abbrev shown : ℕ → String
shown n = "65"

-- #!a for every object
abbrev blob : String → List ℕ
blob id = 35 ∷ 33 ∷ 97 ∷ []

abbrev staged_blob : String → Exec ℕ (List ℕ)
staged_blob id w = (ok (blob id), w)

abbrev files : List TrackedFile
files =
    record { mode = "100755"; object_id = "1"; path = "run.sh" }
    ∷ record { mode = "120000"; object_id = "2"; path = "link" }
    ∷ []

nothing_found :
    content_violations is_pointer suffix shown staged_blob [] ("run.sh" ∷ []) files [] 0
    ≡ (ok [], 0)
unfolding content_violations check_file is_regular is_executable file_violations is_lfs is_binary
    any_binary is_text_byte has_shebang size_kib is_valid_lfs_content contains
nothing_found = refl
