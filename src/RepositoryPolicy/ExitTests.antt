-- ===== src/RepositoryPolicy/ExitTests.antt =====
-- The program at an index of two files whose names differ in case alone.
use oci_iot_samples.Base.{
  ℕ, String, ◌≡◌, refl, false, none, List, [], ◌∷◌, ◌++◌, map, eqb, if◌then◌else◌, contains, lower,
  select,
}
use oci_iot_samples.Base.Exec.{ok}
use oci_iot_samples.RepositoryPolicy.{
  TrackedFile, content_violations, check_file, is_regular, is_executable, file_violations, is_lfs,
  is_binary, any_binary, is_text_byte, has_shebang, size_kib, is_valid_lfs_content,
}
use oci_iot_samples.RepositoryPolicy.Paths.{
  parents, path_and_parents, all_paths, to_set, insert_sorted, sorted, append_to, by_lowercase,
  report_groups, case_conflict_violations,
}
use oci_iot_samples.RepositoryPolicy.Index.{
  Git, Rules, path_of, split_bytes, split_words, partition_tab, lfs_fields, parse_entry,
  parse_records, tracked_files, lfs_paths, added_paths, find_violations, main,
}
use oci_iot_samples.RepositoryPolicy.Exits.{ExitsZero, IsCompliant, main_iff}

-- "m o s\ta" and "m o s\tA"
abbrev listing : List ℕ
listing =
    (109 ∷ 32 ∷ 111 ∷ 32 ∷ 115 ∷ 9 ∷ 97 ∷ 0 ∷ []) ++ (109 ∷ 32 ∷ 111 ∷ 32 ∷ 115 ∷ 9 ∷ 65 ∷ 0 ∷ [])

abbrev decode_path : List ℕ → String
decode_path [] = ""
decode_path (b ∷ bytes) = if eqb b 97 then "docs/a" else "docs/A"

abbrev blob : String → List ℕ
blob id = []

abbrev git : Git ℕ
git = record {
  ls_files = λ w. (ok listing, w);
  check_attr = λ paths w. (ok [], w);
  diff = λ arguments w. (ok [], w);
  staged_blob = λ id w. (ok (blob id), w);
  print = λ line w. (ok tt, w);
  decode_ascii = λ bytes. ok "100644 o 0";
  decode_utf8 = decode_path;
}

abbrev rules : Rules
rules = record {
  is_pointer = λ content. false;
  suffix = λ path. "";
  shown = λ n. "1";
  lower = lower;
  is_illegal = λ path. false;
}

abbrev files : List TrackedFile
files =
    record { mode = "100644"; object_id = "o"; path = "docs/a" }
    ∷ record { mode = "100644"; object_id = "o"; path = "docs/A" }
    ∷ []

listed : tracked_files git 0 ≡ (ok files, 0)
unfolding tracked_files parse_records parse_entry partition_tab split_bytes split_words
listed = refl

unmarked : lfs_paths git (map path_of files) 0 ≡ (ok [], 0)
unfolding lfs_paths lfs_fields split_bytes
unmarked = refl

nothing_added : added_paths git none 0 ≡ (ok [], 0)
unfolding added_paths split_bytes select
nothing_added = refl

main_iff_example :
    ExitsZero git rules
      (main git rules none 0)
      (IsCompliant git rules blob (λ id w. refl) files [] [])
main_iff_example =
    main_iff git rules blob (λ id w. refl) none 0 0 0 0 files [] [] (λ line w. refl) listed unmarked
      nothing_added

conflict_reported : main git rules none 0 ≡ (ok 1, 0)
unfolding main find_violations tracked_files parse_records parse_entry partition_tab split_bytes
    split_words lfs_paths lfs_fields added_paths case_conflict_violations by_lowercase append_to
    report_groups all_paths path_and_parents parents to_set sorted insert_sorted lower contains
    select content_violations check_file is_regular file_violations is_executable is_lfs is_binary
    any_binary is_text_byte has_shebang size_kib is_valid_lfs_content
conflict_reported = refl
