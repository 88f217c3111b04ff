-- ===== src/RepositoryPolicy/Paths/Conflicts.antt =====
-- No conflict is reported exactly where no two paths differ in case alone.
use oci_iot_samples.Base.{
  suc, String, ◌≡◌, ◌≢◌, inl, inr, refl, sym, ap, ◌∙◌, Bool, true, false, ◌||◌, List, [], ◌∷◌, ◌++◌,
  contains, length, ltb, arith, eq_iff, eq_refl, Bool-cases, ◌==◌,
}
use mathlib.Core.Path.{fun_ext}
use oci_iot_samples.RepositoryPolicy.Paths.{to_set, append_to, by_lowercase}

abbrev Distinct : List String → Type 0
Distinct [] = Unit
Distinct (x ∷ xs) = (contains x xs ≡ false) × Distinct xs

pub contains-to_set : (a : String) (xs : List String) → contains a (to_set xs) ≡ contains a xs
unfolding to_set contains
contains-to_set a [] = refl
contains-to_set a (x ∷ xs) = ground (arith, contains-to_set a xs, contains-to_set x xs, eq_iff a x)

pub to_set-Distinct : (xs : List String) → Distinct (to_set xs)
unfolding to_set
to_set-Distinct [] = tt
to_set-Distinct (x ∷ xs) = elim (Bool-cases (contains x (to_set xs))) [
  | inl there ↦ rw there (to_set-Distinct xs)
  | inr new ↦ rw new (new, to_set-Distinct xs)
]

-- A key of the groups, and a group of more than one.
abbrev has_key : String → List (String × List String) → Bool
has_key k [] = false
has_key k ((j, ps) ∷ groups) = k == j || has_key k groups

abbrev pub crowded : List (String × List String) → Bool
crowded [] = false
crowded ((j, ps) ∷ groups) = ltb 1 (length ps) || crowded groups

abbrev Filled : List (String × List String) → Type 0
Filled [] = Unit
Filled ((j, ps) ∷ groups) = (ps ≢ []) × Filled groups

length-snoc : (ps : List String) (p : String) → length (ps ++ (p ∷ [])) ≡ suc (length ps)
length-snoc [] p = refl
length-snoc (q ∷ ps) p = ap suc (length-snoc ps p)

has_key-append_to :
    (j k p : String) (groups : List (String × List String))
    → has_key j (append_to k p groups) ≡ (has_key j groups || j == k)
unfolding append_to
has_key-append_to j k p [] = ground arith
has_key-append_to j k p ((i, ps) ∷ groups) =
    ground (arith, has_key-append_to j k p groups, eq_iff i k, eq_iff j i, eq_iff j k)

append_to-Filled :
    (k p : String) (groups : List (String × List String))
    → Filled groups
    → Filled (append_to k p groups)
unfolding append_to
append_to-Filled k p [] f = ((λ h. cc), tt)
append_to-Filled k p ((i, ps) ∷ groups) (f, fs) = elim (Bool-cases (i == k)) [
  | inl e ↦ rw e (ground (arith, length-snoc ps p), fs)
  | inr e ↦ rw e (f, append_to-Filled k p groups fs)
]

crowded-append_to :
    (k p : String) (groups : List (String × List String))
    → Filled groups
    → crowded (append_to k p groups) ≡ (crowded groups || has_key k groups)
unfolding append_to
crowded-append_to k p [] f = refl
crowded-append_to k p ((i, []) ∷ groups) (f, fs) = absurd (f refl)
crowded-append_to k p ((i, q ∷ ps) ∷ groups) (f, fs) =
    ground (arith, crowded-append_to k p groups fs, length-snoc (q ∷ ps) p, eq_iff i k, eq_iff k i)

module _ (lower : String → String) where
  -- A key of the paths is among those before it.
  abbrev pub repeats : (String → Bool) → List String → Bool
  repeats seen [] = false
  repeats seen (p ∷ ps) = seen (lower p) || repeats (λ k. k == lower p || seen k) ps

  repeats-ext :
      (f g : String → Bool) (ps : List String)
      → ((k : String) → f k ≡ g k)
      → repeats f ps ≡ repeats g ps
  repeats-ext f g ps h = ap (λ f. repeats f ps) (fun_ext h)

  pub crowded-by_lowercase :
      (ps : List String) (groups : List (String × List String))
      → Filled groups
      → crowded (by_lowercase lower ps groups)
        ≡ (crowded groups || repeats (λ k. has_key k groups) ps)
  unfolding by_lowercase
  crowded-by_lowercase [] groups f = ground arith
  crowded-by_lowercase (p ∷ ps) groups f =
      let rest =
        crowded-by_lowercase ps (append_to (lower p) p groups)
          (append_to-Filled (lower p) p groups f) in
      let keys =
        repeats-ext (λ k. has_key k (append_to (lower p) p groups))
          (λ k. k == lower p || has_key k groups) ps
          (λ k. ground (arith, has_key-append_to k (lower p) p groups)) in
      ground (arith, rest, keys, crowded-append_to (lower p) p groups f)

  -- No two of the paths differ in case alone.
  abbrev pub Unmistakable : List String → Type 0
  Unmistakable ps =
      (a b : String) → contains a ps ≡ true → contains b ps ≡ true → lower a ≡ lower b → a ≡ b

  unseen :
      (seen : String → Bool) (ps : List String) (a : String)
      → repeats seen ps ≡ false
      → contains a ps ≡ true
      → seen (lower a) ≡ false
  unfolding contains
  unseen seen [] a h m = cc
  unseen seen (p ∷ ps) a h m = elim (Bool-cases (a == p)) [
    | inl e ↦ let same = (eq_iff a p).0 e in ground (arith, h, same)
    | inr e ↦
        let later =
          unseen (λ k. k == lower p || seen k) ps a (ground (arith, h)) (ground (arith, m, e)) in
        ground (arith, later)
  ]

  key_seen : (k j : String) (b : Bool) → k ≡ j → (k == j || b) ≡ false → ⊥
  key_seen k j b e h = ground (arith, (eq_iff k j).1 e, h)

  pub fresh-Unmistakable :
      (seen : String → Bool) (ps : List String) → repeats seen ps ≡ false → Unmistakable ps
  unfolding contains
  fresh-Unmistakable seen [] h a b m n e = cc
  fresh-Unmistakable seen (p ∷ ps) h a b m n e =
      let later : repeats (λ k. k == lower p || seen k) ps ≡ false = ground (arith, h) in
      elim (Bool-cases (a == p)) [
        | inl a_first ↦ elim (Bool-cases (b == p)) [
          | inl b_first ↦ (eq_iff a p).0 a_first ∙ sym ((eq_iff b p).0 b_first)
          | inr b_later ↦
              let key =
                unseen (λ k. k == lower p || seen k) ps b later (ground (arith, n, b_later)) in
              let same : lower b ≡ lower p = sym e ∙ ap lower ((eq_iff a p).0 a_first) in
              absurd (key_seen (lower b) (lower p) (seen (lower b)) same key)
        ]
        | inr a_later ↦ elim (Bool-cases (b == p)) [
          | inl b_first ↦
              let key =
                unseen (λ k. k == lower p || seen k) ps a later (ground (arith, m, a_later)) in
              let same : lower a ≡ lower p = e ∙ ap lower ((eq_iff b p).0 b_first) in
              absurd (key_seen (lower a) (lower p) (seen (lower a)) same key)
          | inr b_later ↦
              fresh-Unmistakable (λ k. k == lower p || seen k) ps later a b
                (ground (arith, m, a_later)) (ground (arith, n, b_later)) e
        ]
      ]

  -- The key of a path is not that of another.
  key_new :
      (p : String) (ps : List String)
      → Unmistakable (p ∷ ps)
      → contains p ps ≡ false
      → (a : String) → contains a ps ≡ true
      → (lower a == lower p) ≡ false
  unfolding contains
  key_new p ps u new a m = elim (Bool-cases (lower a == lower p)) [
    | inl e ↦
        let same =
          u a p (ground (arith, m)) (ground (arith, eq_refl p))
            ((eq_iff (lower a) (lower p)).0 e) in
        cc (ap (λ x. contains x ps) same, m, new)
    | inr ne ↦ ne
  ]

  pub Unmistakable-fresh :
      (seen : String → Bool) (ps : List String)
      → Distinct ps
      → ((a : String) → contains a ps ≡ true → seen (lower a) ≡ false)
      → Unmistakable ps
      → repeats seen ps ≡ false
  unfolding contains
  Unmistakable-fresh seen [] d f u = refl
  Unmistakable-fresh seen (p ∷ ps) (new, d) f u =
      let rest =
        Unmistakable-fresh (λ k. k == lower p || seen k) ps d
          (λ a m. ground (arith, f a (ground (arith, m)), key_new p ps u new a m))
          (λ a b m n. u a b (ground (arith, m)) (ground (arith, n))) in
      ground (arith, rest, f p (ground (arith, eq_refl p)))
