-- ===== src/Base/Exec.antt =====
-- Python code that may raise, over a state that it changes. The state stands beside an exception
-- too: what was changed before the raise stays changed. `pending` is a loop whose fuel ran out.
use mathlib.Core.Path.{◌≡◌, refl, sym, ap, ◌∙◌, subst}
use Prim.Native.Nat.{ℕ}
use Prim.Native.String.{String}

pub data Exn : Type 0 where
  value_error key_error runtime_error timeout_error file_not_found other_error : String → Exn
  overflow_error : Exn
  service_error : ℕ → String → String → Exn

pub data Outcome {ℓ} (A : Type ℓ) : Type ℓ where
  ok : A → Outcome A
  raised : Exn → Outcome A
  pending : Outcome A

abbrev pub Exec {ℓ} : Type ℓ → Type ℓ → Type ℓ
Exec S A = S → Outcome A × S

module _ {ℓ} {S A B : Type ℓ} where
  -- What follows a call, given how the call went.
  abbrev pub after : Outcome A → S → (A → Exec S B) → Outcome B × S
  after (ok a) s f = f a s
  after (raised e) s f = (raised e, s)
  after pending s f = (pending, s)

  infixl 5 ◌>>=◌ ◌>>◌
  abbrev pub ◌>>=◌ : Exec S A → (A → Exec S B) → Exec S B
  ◌>>=◌ m f s = let r = m s in after r.0 r.1 f

  abbrev pub ◌>>◌ : Exec S A → Exec S B → Exec S B
  m >> n = m >>= λ _. n

  -- try: a ← m, then f a; except Exception: handler. The handler covers `m` alone.
  abbrev pub after_try : Outcome A → S → (Exn → Exec S B) → (A → Exec S B) → Outcome B × S
  after_try (ok a) s handler f = f a s
  after_try (raised e) s handler f = handler e s
  after_try pending s handler f = (pending, s)

  abbrev pub try_then : Exec S A → (Exn → Exec S B) → (A → Exec S B) → Exec S B
  try_then m handler f s = let r = m s in after_try r.0 r.1 handler f

module _ {ℓ} {S A : Type ℓ} where
  abbrev pub pure : A → Exec S A
  pure a s = (ok a, s)

  abbrev pub raise : Exn → Exec S A
  raise e s = (raised e, s)

  abbrev pub lift : Outcome A → Exec S A
  lift r s = (r, s)

-- The state.
abbrev pub gets {ℓ} : {S : Type ℓ} → Exec S S
gets s = (ok s, s)

module _ {ℓ} {S A B : Type ℓ} where
  -- try: m finally: cleanup. What the cleanup raises replaces the outcome of `m`.
  abbrev pub after_cleanup : Outcome A → Outcome B → S → Outcome A × S
  after_cleanup r (ok b) s = (r, s)
  after_cleanup r (raised e) s = (raised e, s)
  after_cleanup r pending s = (pending, s)

  -- A loop without end in `m` never reaches the cleanup.
  abbrev pub run_cleanup : Outcome A → S → Exec S B → Outcome A × S
  run_cleanup pending s cleanup = (pending, s)
  run_cleanup r s cleanup = let c = cleanup s in after_cleanup r c.0 c.1

  abbrev pub try_finally : Exec S A → Exec S B → Exec S A
  try_finally m cleanup s = let r = m s in run_cleanup r.0 r.1 cleanup

-- `m` returns, whatever the state.
abbrev pub Returns {ℓ} : {S A : Type ℓ} → Exec S A → Type ℓ
Returns {S} {A} m = (s : S) → (a : A) × ((m s).0 ≡ ok a)

-- What a chain that returned has passed through.
pub >>=-eq-ok {ℓ} :
    {S A B : Type ℓ} (m : Exec S A) (f : A → Exec S B) {s s'' : S} {b : B}
    → (m >>= f) s ≡ (ok b, s'')
    → (a : A) × (s' : S) × (m s ≡ (ok a, s')) × (f a s' ≡ (ok b, s''))
>>=-eq-ok {S} {A} {B} m f {s} {s''} {b} h = go (m s) refl h
  where
    go :
        (r : Outcome A × S)
        → m s ≡ r
        → after r.0 r.1 f ≡ (ok b, s'')
        → (a : A) × (s' : S) × (m s ≡ (ok a, s')) × (f a s' ≡ (ok b, s''))
    go (ok a, s') e h' = (a, s', e, h')
    go (raised e, s') _ h' = cc
    go (pending, s') _ h' = cc

after-unchanged {ℓ} :
    {S A B : Type ℓ} (r : Outcome A) (t s : S) (f : A → Exec S B)
    → t ≡ s
    → ((a : A) → (f a s).1 ≡ s)
    → (after r t f).1 ≡ s
after-unchanged (ok a) t s f e h = subst (λ t'. (f a t').1 ≡ s) (sym e) (h a)
after-unchanged (raised x) t s f e h = e
after-unchanged pending t s f e h = e

-- A chain of steps that leave the state alone leaves it alone.
pub bind-unchanged {ℓ} :
    {S A B : Type ℓ} (m : Exec S A) (f : A → Exec S B) (s : S)
    → (m s).1 ≡ s
    → ((a : A) → (f a s).1 ≡ s)
    → ((m >>= f) s).1 ≡ s
bind-unchanged m f s e h = after-unchanged (m s).0 (m s).1 s f e h

-- What a cleanup came after, if all returned.
pub try_finally-eq-ok {ℓ} :
    {S A B : Type ℓ} (m : Exec S A) (cleanup : Exec S B) {s s'' : S} {a : A}
    → try_finally m cleanup s ≡ (ok a, s'')
    → (s' : S) × (m s ≡ (ok a, s'))
try_finally-eq-ok {S} {A} {B} m cleanup {s} {s''} {a} h = go (m s) refl h
  where
    cleaned :
        (r : Outcome A) (c : Outcome B) (s' : S) → after_cleanup r c s' ≡ (ok a, s'') → r ≡ ok a
    cleaned r (ok b) s' h' = cc
    cleaned r (raised e) s' h' = cc
    cleaned r pending s' h' = cc

    go :
        (r : Outcome A × S)
        → m s ≡ r
        → run_cleanup r.0 r.1 cleanup ≡ (ok a, s'')
        → (s' : S) × (m s ≡ (ok a, s'))
    go (ok a', s') e h' =
        (s', e ∙ ap (λ x. (x, s')) (cleaned (ok a') (cleanup s').0 (cleanup s').1 h'))
    go (raised x, s') e h' =
        (s', e ∙ ap (λ x. (x, s')) (cleaned (raised x) (cleanup s').0 (cleanup s').1 h'))
    go (pending, s') _ h' = cc

-- The same, with the return of the cleanup.
pub try_finally-eq-returned {ℓ} :
    {S A B : Type ℓ} (m : Exec S A) (cleanup : Exec S B) {s s'' : S} {a : A}
    → try_finally m cleanup s ≡ (ok a, s'')
    → (s' : S) × (b : B) × (m s ≡ (ok a, s')) × (cleanup s' ≡ (ok b, s''))
try_finally-eq-returned {S} {A} {B} m cleanup {s} {s''} {a} h =
    let (s', e) = try_finally-eq-ok m cleanup h in go s' e (cleanup s') refl (rw e at h)
  where
    go :
        (s' : S)
        → m s ≡ (ok a, s')
        → (r : Outcome B × S) → cleanup s' ≡ r
        → run_cleanup (ok a) s' cleanup ≡ (ok a, s'')
        → (s' : S) × (b : B) × (m s ≡ (ok a, s')) × (cleanup s' ≡ (ok b, s''))
    go s' e (ok b, s1) c h =
        let done = rw c at h in (s', b, e, c ∙ ap (λ x. (ok b, x)) (ap (λ r. r.1) done))
    go s' e (raised x, s1) c h = let done = rw c at h in cc (done)
    go s' e (pending, s1) c h = let done = rw c at h in cc (done)
