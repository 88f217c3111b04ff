-- ===== src/Base/Picked.antt =====
-- The items of a list that have a property, without a test of it.
use oci_iot_samples.Base.{
  ◌≡◌, ◌↔◌, refl, inl, inr, Bool, true, ◌&&◌, Bool-cases, List, [], ◌∷◌, select, arith,
}

-- The second list has just the items of the first with the property, each as often and in the same order.
pub data Picked {A : Type 0} (P : A → Type 0) : List A → List A → Type 0 where
  none_left : Picked P [] []
  picked : {x : A} {xs ys : List A} → P x → Picked P xs ys → Picked P (x ∷ xs) (x ∷ ys)
  passed : {x : A} {xs ys : List A} → ¬ P x → Picked P xs ys → Picked P (x ∷ xs) ys

module _ {A : Type 0} where
  pub select-Picked :
      (test : A → Bool) (P : A → Type 0)
      → ((x : A) → (test x ≡ true) ↔ P x)
      → (xs : List A) → Picked P xs (select test xs)
  unfolding select
  select-Picked test P h [] = none_left
  select-Picked test P h (x ∷ xs) = elim (Bool-cases (test x)) [
    | inl e ↦ rw e (picked ((h x).0 e) (select-Picked test P h xs))
    | inr e ↦ rw e (passed (λ p. let yes = (h x).1 p in cc (e, yes)) (select-Picked test P h xs))
  ]

  pub select-select :
      (f g : A → Bool) (xs : List A) → select f (select g xs) ≡ select (λ x. g x && f x) xs
  unfolding select
  select-select f g [] = refl
  select-select f g (x ∷ xs) = ground (arith, select-select f g xs)
