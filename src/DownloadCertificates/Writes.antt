-- ===== src/DownloadCertificates/Writes.antt =====
-- The files that the program writes: its calls with the writes recorded, and chains of calls that return.
use oci_iot_samples.Base.{
  ℕ, String, ◌≡◌, ◌≢◌, refl, sym, ap, ◌∙◌, subst, Option, none, List, [], ◌∷◌, ◌++◌, append-nil,
  append_assoc,
}
use oci_iot_samples.Base.Exec.{
  Exec, Exn, Outcome, ok, raised, pending, after, after_try, ◌>>=◌, pure, try_then,
}
use oci_iot_samples.DownloadCertificates.{System}

pub data Write : Type 0 where
  text_file : String → String → Write
  binary_file : String → List ℕ → Write

abbrev pub Traced : Type 0 → Type 0
Traced W = W × List Write

module _ {W : Type 0} where
  abbrev silent : {A : Type 0} → Exec W A → Exec (Traced W) A
  silent m (w, t) = let r = m w in (r.0, (r.1, t))

  abbrev recorded : {A : Type 0} → Write → Exec W A → Exec (Traced W) A
  recorded write m (w, t) = let r = m w in (r.0, (r.1, t ++ (write ∷ [])))

  abbrev pub tracing : System W → System (Traced W)
  tracing s = record {
    PrivateKey = s.PrivateKey;
    Certificate = s.Certificate;
    get_certificate_bundle = λ ocid. silent (s.get_certificate_bundle ocid);
    load_pem_private_key = s.load_pem_private_key;
    is_rsa = s.is_rsa;
    private_bytes = λ key password. silent (s.private_bytes key password);
    load_pem_x509_certificate = s.load_pem_x509_certificate;
    serialize = λ cn key cert cas password. silent (s.serialize cn key cert cas password);
    write_text = λ path content. recorded (text_file path content) (s.write_text path content);
    write_bytes = λ path content. recorded (binary_file path content) (s.write_bytes path content);
    is_file = λ path. silent (s.is_file path);
    makedirs = λ path. silent (s.makedirs path);
    load_json = λ path. silent (s.load_json path);
    make_client = silent s.make_client;
    print = λ message. silent (s.print message);
    print_error = λ message. silent (s.print_error message);
    error_text = s.error_text;
    text_of = s.text_of;
  }

  -- The first does what the second does, and writes nothing.
  abbrev pub Silent : {A : Type 0} → Exec (Traced W) A → Exec W A → Type 0
  Silent m n = (w : W) (t : List Write) → m (w, t) ≡ ((n w).0, ((n w).1, t))

  after-Silent :
      {A B : Type 0} (o : Outcome A) (w : W) (t : List Write) (f : A → Exec (Traced W) B)
      (g : A → Exec W B)
      → ((a : A) → Silent (f a) (g a))
      → after o (w, t) f ≡ ((after o w g).0, ((after o w g).1, t))
  after-Silent (ok a) w t f g h = h a w t
  after-Silent (raised e) w t f g h = refl
  after-Silent pending w t f g h = refl

  pub bind-Silent :
      {A B : Type 0} (m : Exec (Traced W) A) (n : Exec W A) (f : A → Exec (Traced W) B)
      (g : A → Exec W B)
      → Silent m n
      → ((a : A) → Silent (f a) (g a))
      → Silent (m >>= f) (n >>= g)
  bind-Silent m n f g h k w t =
      ap (λ r. after r.0 r.1 f) (h w t) ∙ after-Silent (n w).0 (n w).1 t f g k

  after_try-Silent :
      {A B : Type 0} (o : Outcome A) (w : W) (t : List Write) (c : Exn → Exec (Traced W) B)
      (d : Exn → Exec W B) (f : A → Exec (Traced W) B) (g : A → Exec W B)
      → ((e : Exn) → Silent (c e) (d e))
      → ((a : A) → Silent (f a) (g a))
      → after_try o (w, t) c f ≡ ((after_try o w d g).0, ((after_try o w d g).1, t))
  after_try-Silent (ok a) w t c d f g h k = k a w t
  after_try-Silent (raised e) w t c d f g h k = h e w t
  after_try-Silent pending w t c d f g h k = refl

  pub try-Silent :
      {A B : Type 0} (m : Exec (Traced W) A) (n : Exec W A) (c : Exn → Exec (Traced W) B)
      (d : Exn → Exec W B) (f : A → Exec (Traced W) B) (g : A → Exec W B)
      → Silent m n
      → ((e : Exn) → Silent (c e) (d e))
      → ((a : A) → Silent (f a) (g a))
      → Silent (try_then m c f) (try_then n d g)
  try-Silent m n c d f g h i k w t =
      ap (λ r. after_try r.0 r.1 c f) (h w t) ∙ after_try-Silent (n w).0 (n w).1 t c d f g i k

  -- The call returns, from every state, and what it returns and writes is as `P` says.
  abbrev pub Does : {A : Type 0} → Exec (Traced W) A → (A → List Write → Type 0) → Type 0
  Does {A} m P =
      (w : W) (t : List Write)
      → (a : A) × (w' : W) × (ws : List Write) × (m (w, t) ≡ (ok a, (w', t ++ ws))) × P a ws

  pub Does-bind :
      {A B : Type 0} (m : Exec (Traced W) A) (f : A → Exec (Traced W) B)
      (P : A → List Write → Type 0) (Q : B → List Write → Type 0)
      → Does m P
      → ((a : A) (ws : List Write) → P a ws → Does (f a) (λ b vs. Q b (ws ++ vs)))
      → Does (m >>= f) Q
  Does-bind m f P Q h k w t =
      let (a, w1, ws, e, p) = h w t in
      let (b, w2, vs, e2, q) = k a ws p w1 (t ++ ws) in
      (
        b,
        w2,
        ws ++ vs,
        ap (λ r. after r.0 r.1 f) e ∙ (e2 ∙ ap (λ u. (ok b, (w2, u))) (append_assoc t ws vs)),
        q,
      )

  -- The same for a first call that writes nothing.
  pub Does-next :
      {A B : Type 0} (m : Exec (Traced W) A) (f : A → Exec (Traced W) B) (P : A → Type 0)
      (Q : B → List Write → Type 0)
      → Does m (λ a ws. (ws ≡ []) × P a)
      → ((a : A) → P a → Does (f a) Q)
      → Does (m >>= f) Q
  Does-next m f P Q h k =
      Does-bind m f (λ a ws. (ws ≡ []) × P a) Q h
        (λ a ws (e, p). subst (λ ws. Does (f a) (λ b vs. Q b (ws ++ vs))) (sym e) (k a p))

  -- The same for a first call that is one write.
  pub Does-wrote :
      {A B : Type 0} (m : Exec (Traced W) A) (f : A → Exec (Traced W) B) (write : Write)
      (Q : B → List Write → Type 0)
      → Does m (λ _ ws. ws ≡ write ∷ [])
      → ((a : A) → Does (f a) (λ b vs. Q b (write ∷ vs)))
      → Does (m >>= f) Q
  Does-wrote m f write Q h k =
      Does-bind m f (λ _ ws. ws ≡ write ∷ []) Q h
        (λ a ws e. subst (λ ws. Does (f a) (λ b vs. Q b (ws ++ vs))) (sym e) (k a))

  -- What is known of a call, said in other words.
  pub Does-weaken :
      {A : Type 0} (m : Exec (Traced W) A) (P Q : A → List Write → Type 0)
      → Does m P
      → ((a : A) (ws : List Write) → P a ws → Q a ws)
      → Does m Q
  Does-weaken m P Q h k w t = let (a, w', ws, e, p) = h w t in (a, w', ws, e, k a ws p)

  returning :
      {A : Type 0} (r : Outcome A × W) (a : A) (t : List Write)
      → r.0 ≡ ok a
      → ◌≡◌ {A = Outcome A × Traced W} (r.0, (r.1, t)) (ok a, (r.1, t ++ []))
  returning r a t e = ap (λ o. (o, (r.1, t))) e ∙ ap (λ u. (ok a, (r.1, u))) (sym (append-nil t))

  -- A silent call that returns.
  pub Silent-Does :
      {A : Type 0} (m : Exec (Traced W) A) (n : Exec W A) (g : W → A)
      → Silent m n
      → ((w : W) → (n w).0 ≡ ok (g w))
      → Does m (λ a ws. (ws ≡ []) × ((w : W) × (g w ≡ a)))
  Silent-Does m n g h k w t =
      (g w, (n w).1, [], h w t ∙ returning (n w) (g w) t (k w), (refl, (w, refl)))

  pub pure-Does : {A : Type 0} (a : A) → Does (pure a) (λ b ws. (ws ≡ []) × (a ≡ b))
  pure-Does a w t = (a, w, [], ap (λ u. (ok a, (w, u))) (sym (append-nil t)), (refl, refl))

  pub recorded-Does :
      {A : Type 0} (write : Write) (m : Exec W A) (a : A)
      → ((w : W) → (m w).0 ≡ ok a)
      → Does (recorded write m) (λ b ws. ws ≡ write ∷ [])
  recorded-Does write m a h w t =
      (a, (m w).1, write ∷ [], ap (λ o. (o, ((m w).1, t ++ (write ∷ [])))) (h w), refl)

-- What a `try` gives whose handler gives None.
abbrev pub kept : {A B : Type 0} → (A → Option B) → Outcome A → Option B
kept g (ok a) = g a
kept g (raised e) = none
kept g pending = none

after_try-kept :
    {W A B : Type 0} (o : Outcome A) (w : W) (c : Exn → Exec W (Option B)) (g : A → Option B)
    → o ≢ pending
    → ((e : Exn) (w : W) → (c e w).0 ≡ ok none)
    → (after_try o w c (λ a. pure (g a))).0 ≡ ok (kept g o)
after_try-kept (ok a) w c g ends h = refl
after_try-kept (raised e) w c g ends h = h e w
after_try-kept pending w c g ends h = absurd (ends refl)

pub try-kept :
    {W A B : Type 0} (m : Exec W A) (c : Exn → Exec W (Option B)) (g : A → Option B)
    → ((w : W) → (m w).0 ≢ pending)
    → ((e : Exn) (w : W) → (c e w).0 ≡ ok none)
    → (w : W) → (try_then m c (λ a. pure (g a)) w).0 ≡ ok (kept g (m w).0)
try-kept m c g ends h w = after_try-kept (m w).0 (m w).1 c g (ends w) h
