-- ===== src/RepositoryPolicy/Index.antt =====
-- The index of Git, all of the checks on it, and the program. The calls of Git are parameters, which give
-- what a command printed.

use oci_iot_samples.Base.{
  ℕ, String, ◌<>◌, Bool, true, false, ◌||◌, ◌&&◌, Option, none, some, given, List, [], ◌∷◌, ◌++◌,
  map, select, Char, code, leb, eqb, is_space, if◌then◌else◌,
}
use oci_iot_samples.Base.Exec.{Exec, Outcome, ok, raised, value_error, ◌>>=◌, ◌>>◌, pure, lift}
use oci_iot_samples.RepositoryPolicy.{TrackedFile, content_violations}
use oci_iot_samples.RepositoryPolicy.Paths.{case_conflict_violations, to_set, sorted}

-- bytes.split, at a byte
unfoldable pub split_bytes : ℕ → List ℕ → List (List ℕ)
split_bytes separator [] = [] ∷ []
split_bytes separator (b ∷ bs) =
    let rest = split_bytes separator bs in if eqb b separator then [] ∷ rest else push b rest
  where
    push : ℕ → List (List ℕ) → List (List ℕ)
    push b [] = (b ∷ []) ∷ []
    push b (part ∷ parts) = (b ∷ part) ∷ parts

-- record.partition(b"\t"), if there is a tab
unfoldable pub partition_tab : List ℕ → Option (List ℕ × List ℕ)
partition_tab [] = none
partition_tab (b ∷ bs) =
    let rest = partition_tab bs in if eqb b 9 then some ([], bs) else prepend b rest
  where
    prepend : ℕ → Option (List ℕ × List ℕ) → Option (List ℕ × List ℕ)
    prepend b none = none
    prepend b (some (metadata, path)) = some (b ∷ metadata, path)

-- The whitespace of str.split(), in ASCII
abbrev is_blank : ℕ → Bool
is_blank c = is_space c || leb 28 c && leb c 31

abbrev begins_word : String → Bool
begins_word String.[] = false
begins_word (String.◌∷◌ c s) = if is_blank (code c) then false else true

abbrev longer : Char → List String → List String
longer c [] = String.◌∷◌ c "" ∷ []
longer c (word ∷ words) = String.◌∷◌ c word ∷ words

-- s.split()
unfoldable pub split_words : String → List String
split_words String.[] = []
split_words (String.◌∷◌ c s) =
    let rest = split_words s in
    if is_blank (code c)
    then rest
    else if begins_word s
    then longer c rest
    else String.◌∷◌ c "" ∷ rest

-- The groups of three, without what is left over.
unfoldable pub lfs_fields : List (List ℕ) → List (List ℕ)
lfs_fields (path ∷ name ∷ value ∷ rest) =
    let others = lfs_fields rest in if is_lfs_value value then path ∷ others else others
  where
    is_lfs_value : List ℕ → Bool
    is_lfs_value (a ∷ b ∷ c ∷ []) = eqb a b'l' && (eqb b b'f' && eqb c b's')
    is_lfs_value _ = false
lfs_fields _ = []

-- "\n".join(lines)
unfoldable pub join_lines : List String → String
join_lines [] = ""
join_lines (s ∷ []) = s
join_lines (s ∷ t ∷ ts) = s <> ("\n" <> join_lines (t ∷ ts))

-- `ls_files`, `check_attr` of some paths and `diff` of arguments give the output of these commands, and `staged_blob`
-- is that of `cat-file`. `decode_ascii` and `decode_utf8`, with escapes, are bytes.decode.
pub record Git (W : Type 0) : Type 0 where
  pub ls_files : Exec W (List ℕ)
  pub check_attr : List String → Exec W (List ℕ)
  pub diff : List String → Exec W (List ℕ)
  pub staged_blob : String → Exec W (List ℕ)
  pub print : String → Exec W (Unit {0})
  pub decode_ascii : List ℕ → Outcome String
  pub decode_utf8 : List ℕ → String

-- What the checks take from libraries: LFS_POINTER.fullmatch, a path's suffix, `str` of a number,
-- str.lower, and WINDOWS_ILLEGAL_NAME.search.
pub record Rules : Type 0 where
  pub is_pointer : List ℕ → Bool
  pub suffix : String → String
  pub shown : ℕ → String
  pub lower : String → String
  pub is_illegal : String → Bool

abbrev pub path_of : TrackedFile → String
path_of f = f.path

abbrev pub illegal_violations : Rules → List String → List String
illegal_violations rules paths =
    map (λ path. "Illegal Windows filename: " <> path) (select rules.is_illegal paths)

abbrev is_filled : List ℕ → Bool
is_filled [] = false
is_filled (b ∷ bs) = true

module _ {W : Type 0} (git : Git W) where
  abbrev entry_of : List String → String → Outcome TrackedFile
  entry_of (mode ∷ object_id ∷ stage ∷ []) path =
      ok (record { mode = mode; object_id = object_id; path = path })
  entry_of _ path = raised (value_error "not enough or too many values to unpack")

  -- The metadata of a record, and its path.
  unfoldable pub parse_entry : List ℕ → List ℕ → Exec W TrackedFile
  unfolding split_words
  parse_entry metadata encoded_path = do
    text ← lift (git.decode_ascii metadata)
    lift (entry_of (split_words text) (git.decode_utf8 encoded_path))

  abbrev append_entry : Option (List ℕ × List ℕ) → List TrackedFile → Exec W (List TrackedFile)
  append_entry none entries = pure entries
  append_entry (some (metadata, encoded_path)) entries = do
    entry ← parse_entry metadata encoded_path
    pure (entries ++ (entry ∷ []))

  unfoldable pub parse_records : List (List ℕ) → List TrackedFile → Exec W (List TrackedFile)
  unfolding partition_tab parse_entry
  parse_records [] entries = pure entries
  parse_records (r ∷ records) entries = do
    more ← append_entry (partition_tab r) entries
    parse_records records more

  unfoldable pub tracked_files : Exec W (List TrackedFile)
  unfolding parse_records split_bytes
  tracked_files = do stdout ← git.ls_files; parse_records (split_bytes 0 stdout) []

  unfoldable pub lfs_paths : List String → Exec W (List String)
  unfolding lfs_fields split_bytes
  lfs_paths [] = pure []
  lfs_paths (path ∷ paths) = do
    stdout ← git.check_attr (path ∷ paths)
    pure (map git.decode_utf8 (lfs_fields (split_bytes 0 stdout)))

  abbrev diff_arguments : Option String → List String
  diff_arguments none = "--cached" ∷ []
  diff_arguments (some base_ref) = (base_ref <> "...HEAD") ∷ []

  unfoldable pub added_paths : Option String → Exec W (List String)
  unfolding split_bytes
  added_paths base_ref = do
    stdout ← git.diff (diff_arguments (given base_ref))
    pure (map git.decode_utf8 (select is_filled (split_bytes 0 stdout)))

  module _ (rules : Rules) where
    abbrev pub with_contents :
        List TrackedFile → List String → List String → List String → Exec W (List String)
    with_contents files violations filtered added = do
      more ←
          content_violations rules.is_pointer rules.suffix rules.shown git.staged_blob filtered
            added files []
      pure (sorted (to_set (violations ++ more)))

    unfoldable pub find_violations : Option String → Exec W (List String)
    unfolding tracked_files lfs_paths added_paths case_conflict_violations sorted to_set
    find_violations base_ref = do
      files ← tracked_files
      let paths = map path_of files
      filtered ← lfs_paths paths
      added ← added_paths base_ref
      with_contents files
          (case_conflict_violations rules.lower paths ++ illegal_violations rules paths) filtered
          added

    abbrev pub exit_with : List String → Exec W ℕ
    exit_with [] = pure 0
    exit_with (v ∷ vs) = git.print (join_lines (v ∷ vs)) >> pure 1

    -- `main`, with the option --added-since
    unfoldable pub main : Option String → Exec W ℕ
    main added_since = find_violations added_since >>= exit_with
