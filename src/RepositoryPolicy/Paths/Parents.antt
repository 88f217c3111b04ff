-- ===== src/RepositoryPolicy/Paths/Parents.antt =====
-- The paths and their parents, said without the code that lists them.
use text.Mathlib.TextEquality.{Char-path}
use text.Mathlib.TextLemmas.{nil-append, cons-append}
use oci_iot_samples.Base.{
  String, ◌<>◌, ◌≡◌, ◌↔◌, ◌⊎◌, inl, inr, refl, sym, ap, ◌∙◌, subst, Bool, true, false, ◌||◌, List,
  [], ◌∷◌, ◌++◌, map, contains, arith, eq_iff, eq_refl, eqb, Char, code, Bool-cases, ◌==◌,
}
use oci_iot_samples.RepositoryPolicy.Paths.{parents, path_and_parents, all_paths}
use oci_iot_samples.RepositoryPolicy.Paths.Conflicts.{Unmistakable}

-- The path goes on behind the other with a slash.
abbrev pub IsParent : String → String → Type 0
IsParent a path = (rest : String) × (path ≡ a <> String.◌∷◌ "/" rest)

-- One of the paths, or a parent of one.
abbrev pub IsAmong : String → List String → Type 0
IsAmong a [] = ⊥
IsAmong a (path ∷ paths) = ((a ≡ path) ⊎ IsParent a path) ⊎ IsAmong a paths

contains-append :
    (a : String) (xs ys : List String) → contains a (xs ++ ys) ≡ (contains a xs || contains a ys)
unfolding contains
contains-append a [] ys = ground arith
contains-append a (x ∷ xs) ys = ground (arith, contains-append a xs ys)

or_iff : (a b : Bool) → (a || b ≡ true) ↔ ((a ≡ true) ⊎ (b ≡ true))
or_iff true b = ((λ h. inl refl), (λ h. refl))
or_iff false b = ((λ h. inr h), (λ h. elim h [ inl e ↦ cc (e) | inr e ↦ e ]))

cons-eq : (c d : Char) (s t : String) → c ≡ d → s ≡ t → String.◌∷◌ c s ≡ String.◌∷◌ d t
cons-eq c d s t e f = cc (e, f)

cons-inj : (c d : Char) (s t : String) → String.◌∷◌ c s ≡ String.◌∷◌ d t → (c ≡ d) × (s ≡ t)
cons-inj c d s t e = (cc (e), cc (e))

-- The parents that begin with the first character of the path.
contains-longer :
    (a : String) (c : Char) (xs : List String)
    → contains a (map (String.◌∷◌ c) xs) ≡ true
    → (b : String) × (a ≡ String.◌∷◌ c b) × (contains b xs ≡ true)
unfolding contains
contains-longer a c [] h = cc
contains-longer a c (x ∷ xs) h = elim (Bool-cases (a == String.◌∷◌ c x)) [
  | inl e ↦ (x, (eq_iff a (String.◌∷◌ c x)).0 e, rw (eq_refl x) refl)
  | inr e ↦
      let (b, same, m) = contains-longer a c xs (ground (arith, h, e)) in
      (b, same, ground (arith, m))
]

longer-contains :
    (b : String) (c : Char) (xs : List String)
    → contains b xs ≡ true
    → contains (String.◌∷◌ c b) (map (String.◌∷◌ c) xs) ≡ true
unfolding contains
longer-contains b c [] h = cc
longer-contains b c (x ∷ xs) h = elim (Bool-cases (b == x)) [
  | inl e ↦
      let same : String.◌∷◌ c b ≡ String.◌∷◌ c x = ap (String.◌∷◌ c) ((eq_iff b x).0 e) in
      ground (arith, (eq_iff (String.◌∷◌ c b) (String.◌∷◌ c x)).1 same)
  | inr e ↦ ground (arith, longer-contains b c xs (ground (arith, h, e)))
]

slash_of : (c : Char) → eqb (code c) b'/' ≡ true → c ≡ "/"
slash_of c h = Char-path c "/" (ground (arith, h))

longer-IsParent :
    (c : Char) (s b : String) → IsParent b s → IsParent (String.◌∷◌ c b) (String.◌∷◌ c s)
longer-IsParent c s b (rest, e) =
    (rest, ap (String.◌∷◌ c) e ∙ sym (cons-append c b (String.◌∷◌ "/" rest)))

IsParent-longer :
    (a s : String) (c : Char)
    → ((b : String) → contains b (parents s) ≡ true → IsParent b s)
    → contains a (map (String.◌∷◌ c) (parents s)) ≡ true
    → IsParent a (String.◌∷◌ c s)
IsParent-longer a s c shorter m =
    let (b, same, listed) = contains-longer a c (parents s) m in
    subst (λ a. IsParent a (String.◌∷◌ c s)) (sym same) (longer-IsParent c s b (shorter b listed))

parents-IsParent : (a s : String) → contains a (parents s) ≡ true → IsParent a s
unfolding parents contains
parents-IsParent a String.[] h = cc
parents-IsParent a (String.◌∷◌ c s) h = elim (Bool-cases (eqb (code c) b'/')) [
  | inl e ↦
      let m = rw e at h in
      elim (Bool-cases (a == "")) [
        | inl empty ↦
            let is_empty = (eq_iff a "").0 empty in
            subst (λ a. IsParent a (String.◌∷◌ c s)) (sym is_empty)
              (s, cons-eq c "/" s s (slash_of c e) refl ∙ sym (nil-append (String.◌∷◌ "/" s)))
        | inr filled ↦ IsParent-longer a s c (λ b. parents-IsParent b s) (rw filled at m)
      ]
  | inr e ↦ IsParent-longer a s c (λ b. parents-IsParent b s) (rw e at h)
]

IsParent-parents : (a s : String) → IsParent a s → contains a (parents s) ≡ true
unfolding parents contains
IsParent-parents String.[] String.[] (rest, e) =
    let impossible = e ∙ nil-append (String.◌∷◌ "/" rest) in cc (impossible)
IsParent-parents (String.◌∷◌ d a) String.[] (rest, e) =
    let impossible = e ∙ cons-append d a (String.◌∷◌ "/" rest) in cc (impossible)
IsParent-parents String.[] (String.◌∷◌ c s) (rest, e) =
    let (first, others) = cons-inj c "/" s rest (e ∙ nil-append (String.◌∷◌ "/" rest)) in
    let slash : eqb (code c) b'/' ≡ true = ap (λ c. eqb (code c) b'/') first in
    rw slash (ground (arith, eq_refl ""))
IsParent-parents (String.◌∷◌ d a) (String.◌∷◌ c s) (rest, e) =
    let (first, others) =
      cons-inj c d s (a <> String.◌∷◌ "/" rest) (e ∙ cons-append d a (String.◌∷◌ "/" rest)) in
    let listed =
      subst (λ d. contains (String.◌∷◌ d a) (map (String.◌∷◌ c) (parents s)) ≡ true) first
        (longer-contains a c (parents s) (IsParent-parents a s (rest, others))) in
    elim (Bool-cases (eqb (code c) b'/')) [
      | inl e ↦ rw e (ground (arith, listed))
      | inr e ↦ rw e listed
    ]

own_iff :
    (a path : String) → (contains a (path_and_parents path) ≡ true) ↔ ((a ≡ path) ⊎ IsParent a path)
unfolding path_and_parents contains
own_iff a path =
    let rule = or_iff (a == path) (contains a (parents path)) in
    (
      λ h. elim (rule.0 h) [
        | inl e ↦ inl ((eq_iff a path).0 e)
        | inr m ↦ inr (parents-IsParent a path m)
      ],
      λ h. elim h [
        | inl e ↦ rule.1 (inl ((eq_iff a path).1 e))
        | inr p ↦ rule.1 (inr (IsParent-parents a path p))
      ],
    )

pub all_paths_iff :
    (a : String) (paths : List String) → (contains a (all_paths paths) ≡ true) ↔ IsAmong a paths
unfolding all_paths contains
all_paths_iff a [] = ((λ h. cc), (λ x. absurd x))
all_paths_iff a (path ∷ paths) =
    let split = contains-append a (path_and_parents path) (all_paths paths) in
    let rule = or_iff (contains a (path_and_parents path)) (contains a (all_paths paths)) in
    let own = own_iff a path in
    let others = all_paths_iff a paths in
    (
      λ h. elim (rule.0 (sym split ∙ h)) [ inl m ↦ inl (own.0 m) | inr m ↦ inr (others.0 m) ],
      λ h. split ∙ elim h [ inl x ↦ rule.1 (inl (own.1 x)) | inr x ↦ rule.1 (inr (others.1 x)) ],
    )

-- No two of the paths and their parents differ in case alone.
abbrev pub AllDiffer : (String → String) → List String → Type 0
AllDiffer lower paths =
    (a b : String) → IsAmong a paths → IsAmong b paths → lower a ≡ lower b → a ≡ b

pub AllDiffer-Unmistakable :
    (lower : String → String) (paths : List String)
    → Unmistakable lower (all_paths paths) ↔ AllDiffer lower paths
AllDiffer-Unmistakable lower paths = (
  λ u a b m n e. u a b ((all_paths_iff a paths).1 m) ((all_paths_iff b paths).1 n) e,
  λ u a b m n e. u a b ((all_paths_iff a paths).0 m) ((all_paths_iff b paths).0 n) e,
)
