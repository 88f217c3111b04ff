-- ===== src/RepositoryPolicy/Paths.antt =====
-- Paths that collide on a file system that ignores case. A path is one of the Git index: relative, without an
-- empty part or a part `.`. A set is a list without repetitions, in some order; the order of what is
-- reported is forgotten by the sort in `find_violations`.
pub mod Conflicts
pub mod Reports
pub mod Parents
use Prim.Native.String.{compare}
use Prim.Native.Nat.{Ordering}
use oci_iot_samples.Base.{
  ℕ, String, ◌<>◌, Bool, true, false, List, [], ◌∷◌, ◌++◌, ◌==◌, map, contains, length, ltb, eqb,
  code, if◌then◌else◌,
}

-- The texts before each of the slashes: PurePosixPath(path).parents, without `.`
unfoldable pub parents : String → List String
parents String.[] = []
parents (String.◌∷◌ c s) =
    let rest = map (String.◌∷◌ c) (parents s) in if eqb (code c) b'/' then "" ∷ rest else rest

unfoldable pub path_and_parents : String → List String
unfolding parents
path_and_parents path = path ∷ parents path

-- The set of the items of a list.
unfoldable pub to_set : List String → List String
unfolding contains
to_set [] = []
to_set (x ∷ xs) = let rest = to_set xs in if contains x rest then rest else x ∷ rest

unfoldable pub insert_sorted : String → List String → List String
insert_sorted s [] = s ∷ []
insert_sorted s (t ∷ ts) =
    let rest = insert_sorted s ts in elim (compare s t) [ Ordering.gt ↦ t ∷ rest | _ ↦ s ∷ t ∷ ts ]

-- sorted(items)
unfoldable pub sorted : List String → List String
unfolding insert_sorted
sorted [] = []
sorted (s ∷ ss) = insert_sorted s (sorted ss)

unfoldable pub all_paths : List String → List String
unfolding path_and_parents
all_paths [] = []
all_paths (path ∷ paths) = path_and_parents path ++ all_paths paths

-- by_lowercase.setdefault(key, []).append(path)
unfoldable pub append_to :
    String → String → List (String × List String) → List (String × List String)
append_to key path [] = (key, path ∷ []) ∷ []
append_to key path ((k, ps) ∷ groups) =
    let rest = append_to key path groups in
    if k == key then (k, ps ++ (path ∷ [])) ∷ groups else (k, ps) ∷ rest

-- The lines for each of the groups of more than one.
unfoldable pub report_groups : List (String × List String) → List String
unfolding sorted
report_groups [] = []
report_groups ((k, ps) ∷ groups) =
    let rest = report_groups groups in
    if ltb 1 (length ps)
    then map (λ path. "Case-insensitivity conflict found: " <> path) (sorted ps) ++ rest
    else rest

-- `lower` is Python's str.lower.
module _ (lower : String → String) where
  unfoldable pub by_lowercase :
      List String → List (String × List String) → List (String × List String)
  unfolding append_to
  by_lowercase [] groups = groups
  by_lowercase (path ∷ paths) groups = by_lowercase paths (append_to (lower path) path groups)

  unfoldable pub case_conflict_violations : List String → List String
  unfolding to_set all_paths
  case_conflict_violations paths = report_groups (by_lowercase (to_set (all_paths paths)) [])
