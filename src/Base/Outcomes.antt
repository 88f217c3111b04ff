-- ===== src/Base/Outcomes.antt =====
-- Chains of steps that may raise, without a state.
use mathlib.Core.Path.{◌≡◌, refl}
use oci_iot_samples.Base.Exec.{Outcome, ok, raised, pending}

module _ {ℓ κ} {A : Type ℓ} {B : Type κ} where
  infixl 5 ◌>>=◌ ◌>>◌
  abbrev pub ◌>>=◌ : Outcome A → (A → Outcome B) → Outcome B
  ok a >>= f = f a
  raised e >>= f = raised e
  pending >>= f = pending

  abbrev pub ◌>>◌ : Outcome A → Outcome B → Outcome B
  m >> n = m >>= λ _. n

  -- A chain that gave a value has passed through one.
  pub >>=-eq-ok :
      (r : Outcome A) (next : A → Outcome B) {y : B}
      → (r >>= next) ≡ ok y
      → (x : A) × (r ≡ ok x) × (next x ≡ ok y)
  >>=-eq-ok pending next e = cc
  >>=-eq-ok (raised x) next e = cc
  >>=-eq-ok (ok x) next e = (x, refl, e)
