-- ===== src/ManageDt/Query/Printing.antt =====
-- What a chain of calls has printed when it returns.
use oci_iot_samples.Base.{
  ◌≡◌, refl, sym, ap, ◌∙◌, subst, List, [], ◌∷◌, ◌++◌, append-nil, append_assoc,
}
use oci_iot_samples.Base.Exec.{Exec, Outcome, ok, ◌>>=◌, pure, lift, >>=-eq-ok}
use oci_iot_samples.ManageDt.Query.{Printed, Texts, on_services, print}

-- The call returned from some state.
abbrev pub Gave : {W A : Type 0} → Exec W A → A → Type 0
Gave {W} m a = (w : W) × (w' : W) × (m w ≡ (ok a, w'))

kept : {A : Type 0} (t t' : List A) → t ≡ t' → t' ≡ t ++ []
kept t t' e = sym e ∙ sym (append-nil t)

module _ {W Content : Type 0} where
  -- When the call returns, what it printed beside what was there, and its result, are as `P` says.
  abbrev pub Says :
      {A : Type 0}
      → Exec (W × List (Printed Content)) A
      → (A → List (Printed Content) → Type 0)
      → Type 0
  Says {A} m P =
      (w w' : W) (t t' : List (Printed Content)) (a : A)
      → m (w, t) ≡ (ok a, (w', t'))
      → (u : List (Printed Content)) × (t' ≡ t ++ u) × P a u

  pub Says-bind :
      {A B : Type 0} (m : Exec (W × List (Printed Content)) A)
      (f : A → Exec (W × List (Printed Content)) B) (P : A → List (Printed Content) → Type 0)
      (Q : B → List (Printed Content) → Type 0)
      → Says m P
      → ((a : A) (u : List (Printed Content)) → P a u → Says (f a) (λ b v. Q b (u ++ v)))
      → Says (m >>= f) Q
  Says-bind m f P Q h k w w' t t' b e =
      let (a, (w1, t1), e1, e2) = >>=-eq-ok m f {s = (w, t)} e in
      let (u, q, p) = h w w1 t t1 a e1 in
      let (v, q2, p2) = k a u p w1 w' t1 t' b e2 in
      (u ++ v, q2 ∙ (ap (λ x. x ++ v) q ∙ append_assoc t u v), p2)

  pub services-Says :
      {A : Type 0} (texts : Texts) (m : Exec W A)
      → Says (on_services texts m) (λ a u. (u ≡ []) × Gave m a)
  services-Says texts m w w' t t' a e =
      ([], kept t t' (ap (λ r. r.1.1) e), (refl, (w, w', ap (λ r. (r.0, r.1.0)) e)))

  pub print-Says : (texts : Texts) (x : Printed Content) → Says (print texts x) (λ _ u. u ≡ x ∷ [])
  print-Says texts x w w' t t' a e = (x ∷ [], cc (e), refl)

  pub pure-Says : {A : Type 0} (a : A) → Says (pure a) (λ b u. u ≡ [])
  pure-Says a w w' t t' b e = ([], kept t t' (ap (λ r. r.1.1) e), refl)

  pub lift-Says : {A : Type 0} (o : Outcome A) → Says (lift o) (λ a u. (u ≡ []) × (o ≡ ok a))
  lift-Says o w w' t t' a e = ([], kept t t' (ap (λ r. r.1.1) e), (refl, ap (λ r. r.0) e))

  pub Says-weaken :
      {A : Type 0} (m : Exec (W × List (Printed Content)) A)
      (P Q : A → List (Printed Content) → Type 0)
      → Says m P
      → ((a : A) (u : List (Printed Content)) → P a u → Q a u)
      → Says m Q
  Says-weaken m P Q h k w w' t t' a e = let (u, q, p) = h w w' t t' a e in (u, q, k a u p)

  -- The same for a first call that prints nothing.
  pub Says-next :
      {A B : Type 0} (m : Exec (W × List (Printed Content)) A)
      (f : A → Exec (W × List (Printed Content)) B) (P : A → Type 0)
      (Q : B → List (Printed Content) → Type 0)
      → Says m (λ a u. (u ≡ []) × P a)
      → ((a : A) → P a → Says (f a) Q)
      → Says (m >>= f) Q
  Says-next m f P Q h k =
      Says-bind m f (λ a u. (u ≡ []) × P a) Q h
        (λ a u (e, p). subst (λ u. Says (f a) (λ b v. Q b (u ++ v))) (sym e) (k a p))
