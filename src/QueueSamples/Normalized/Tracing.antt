-- ===== src/QueueSamples/Normalized/Tracing.antt =====
-- The calls of a driver recorded where they return, and steps that make a list of calls.
use oci_iot_samples.Base.{
  String, ◌≡◌, ◌≢◌, ◌⊎◌, inl, inr, refl, sym, ap, ◌∙◌, Option, none, some, List, [], ◌∷◌, ◌++◌,
  append_assoc,
}
use oci_iot_samples.Base.Json.{Fields}
use oci_iot_samples.Base.Exec.{Exec, Outcome, ok, raised, pending, after, ◌>>◌}
use oci_iot_samples.QueueSamples.Normalized.{Driver}

-- The calls that returned, among those that take a message, print a line and commit.
pub data Call : Type 0 where
  taken : Fields → Call
  printed : String → Call
  committed : Call

abbrev pub Traced : Type 0 → Type 0
Traced W = W × List Call

abbrev pub when_ok : {A : Type 0} → (A → List Call) → Outcome A → List Call
when_ok calls (ok a) = calls a
when_ok calls (raised e) = []
when_ok calls pending = []

abbrev pub taking : Option Fields → List Call
taking none = []
taking (some payload) = taken payload ∷ []

module _ {W : Type 0} where
  abbrev silent : {A : Type 0} → Exec W A → Exec (Traced W) A
  silent m (w, t) = let r = m w in (r.0, (r.1, t))

  abbrev pub recorded : {A : Type 0} → (A → List Call) → Exec W A → Exec (Traced W) A
  recorded calls m (w, t) = let r = m w in (r.0, (r.1, t ++ when_ok calls r.0))

  abbrev pub tracing : Driver W → Driver (Traced W)
  tracing d = record {
    init_oracle_client = λ dir. silent (d.init_oracle_client dir);
    connect = λ arguments. silent (d.connect arguments);
    close = silent d.close;
    instance_of_display_name = λ domain name. silent (d.instance_of_display_name domain name);
    enquote_literal = λ s. silent (d.enquote_literal s);
    agent_type = silent d.agent_type;
    add_subscriber = λ q name rule. silent (d.add_subscriber q name rule);
    remove_subscriber = λ q name. silent (d.remove_subscriber q name);
    open_queue = λ q name. silent (d.open_queue q name);
    deqone = recorded taking d.deqone;
    commit = recorded (λ _. committed ∷ []) d.commit;
    print = λ line. recorded (λ _. printed line ∷ []) (d.print line);
    print_dot = silent d.print_dot;
    text_of = d.text_of;
  }

-- A step from the trace `t` made all of the calls, or it did not return and made some of the first, without
-- the last.
abbrev pub Made : {W A : Type 0} → Outcome A × Traced W → List Call → List Call → Type 0
Made {W} {A} r t cs =
    ((a : A) × (r.0 ≡ ok a) × (r.1.1 ≡ t ++ cs))
    ⊎ (((a : A) → r.0 ≢ ok a)
        × ((p : List Call) × (c : Call) × (rest : List Call) × (cs ≡ p ++ (c ∷ rest))
            × (r.1.1 ≡ t ++ p)))

-- What is cut short stays so before other calls.
longer-cut :
    (p rest cs ds : List Call) (c : Call)
    → cs ≡ p ++ (c ∷ rest)
    → cs ++ ds ≡ p ++ (c ∷ (rest ++ ds))
longer-cut p rest cs ds c cut = ap (λ x. x ++ ds) cut ∙ append_assoc p (c ∷ rest) ds

module _ {W : Type 0} where
  abbrev pub Makes : {A : Type 0} → Exec (Traced W) A → List Call → Type 0
  Makes m cs = (w : W) (t : List Call) → Made (m (w, t)) t cs

  pub single-Made :
      (o : Outcome (Unit {0})) (w : W) (c : Call) (t : List Call)
      → Made (o, (w, t ++ when_ok (λ _. c ∷ []) o)) t (c ∷ [])
  single-Made (ok u) w c t = inl (u, refl, refl)
  single-Made (raised e) w c t = inr ((λ a h. cc), ([], c, [], refl, refl))
  single-Made pending w c t = inr ((λ a h. cc), ([], c, [], refl, refl))

  shift-Made :
      {A : Type 0} (r : Outcome A × Traced W) (t t' cs ds : List Call)
      → t' ≡ t ++ cs
      → Made r t' ds
      → Made r t (cs ++ ds)
  shift-Made r t t' cs ds e (inl (a, q, s)) =
      inl (a, q, s ∙ (ap (λ x. x ++ ds) e ∙ append_assoc t cs ds))
  shift-Made r t t' cs ds e (inr (n, (p, c, rest, cut, s))) = inr (
    n,
    (
      cs ++ p,
      c,
      rest,
      ap (λ x. cs ++ x) cut ∙ sym (append_assoc cs p (c ∷ rest)),
      s ∙ (ap (λ x. x ++ p) e ∙ append_assoc t cs p),
    ),
  )

  pub after-Made :
      {A B : Type 0} (o : Outcome A) (s : Traced W) (f : A → Exec (Traced W) B)
      (t cs ds : List Call)
      → Made (o, s) t cs
      → ((a : A) → Makes (f a) ds)
      → Made (after o s f) t (cs ++ ds)
  after-Made (ok a) s f t cs ds (inl (_, _, q)) k = shift-Made (f a s) t s.1 cs ds q (k a s.0 s.1)
  after-Made (ok a) s f t cs ds (inr (n, _)) k = absurd (n a refl)
  after-Made (raised e) s f t cs ds (inl (_, h, _)) k = cc
  after-Made (raised e) s f t cs ds (inr (n, (p, c, rest, cut, q))) k =
      inr ((λ a h. cc), (p, c, rest ++ ds, longer-cut p rest cs ds c cut, q))
  after-Made pending s f t cs ds (inl (_, h, _)) k = cc
  after-Made pending s f t cs ds (inr (n, (p, c, rest, cut, q))) k =
      inr ((λ a h. cc), (p, c, rest ++ ds, longer-cut p rest cs ds c cut, q))

  pub then-Makes :
      (m n : Exec (Traced W) (Unit {0})) (cs ds : List Call)
      → Makes m cs
      → Makes n ds
      → Makes (m >> n) (cs ++ ds)
  then-Makes m n cs ds h k w t =
      after-Made (m (w, t)).0 (m (w, t)).1 (λ _. n) t cs ds (h w t) (λ _. k)
