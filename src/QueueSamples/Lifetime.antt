-- ===== src/QueueSamples/Lifetime.antt =====
-- The life of a subscriber, from its registration to its removal.
use oci_iot_samples.Base.{
  ℕ, String, ◌≡◌, refl, sym, subst, ◌<>◌, replace, Option, none, some, List, [], ◌∷◌, ◌++◌, ◌⊎◌,
  inl, inr, false, Bool-cases, ap,
}
use oci_iot_samples.Base.Exec.{
  Exec, Exn, Outcome, ok, raised, pending, after, after_try, ◌>>=◌, ◌>>◌, pure, try_then,
}
use oci_iot_samples.QueueSamples.{
  Connection, build_subscriber_rule, register, registered, subscribe, listen, stream, unsubscribe,
  disconnect, queue_name, streamed, main, interrupted,
}
use oci_iot_samples.QueueSamples.Interrupts.{is_interrupt, but_interrupts}
use oci_iot_samples.QueueSamples.Calm.{Undisturbed, build_subscriber_rule-Calm}
use oci_iot_samples.QueueSamples.Tracing.{
  Call, added, removed, closed, Traced, tracing, bind-Silent, rule-Silent, listen-Silent,
}

module _ {W : Type 0} (c : Connection W) (undisturbed : Undisturbed c) where
  -- A step goes on for ever, or returns with these calls made.
  abbrev Ends : Outcome (Unit {0}) × Traced W → List Call → Type 0
  Ends r t = (r.0 ≡ pending) ⊎ ((r.0 ≡ ok tt) × (r.1.1 ≡ t))

  abbrev caught : Exec (Traced W) (Unit {0}) → Exec (Traced W) (Unit {0})
  caught m = try_then m (but_interrupts tt) pure

  caught-Ends :
      (m : Exec (Traced W) (Unit {0})) (w : W) (t t' : List Call)
      → ((e : Exn) → (m (w, t)).0 ≡ raised e → is_interrupt e ≡ false)
      → (m (w, t)).1.1 ≡ t'
      → Ends (caught m (w, t)) t'
  caught-Ends m w t t' calm e = go (m (w, t)).0 (m (w, t)).1 calm e
    where
      go :
          (o : Outcome (Unit {0})) (s : Traced W)
          → ((e : Exn) → o ≡ raised e → is_interrupt e ≡ false)
          → s.1 ≡ t'
          → Ends (after_try o s (but_interrupts tt) pure) t'
      go (ok tt) s calm e = inr (refl, e)
      go (raised x) s calm e = rw (calm x refl) (inr (refl, e))
      go pending s calm e = inl refl

  then-Ends :
      (m n : Exec (Traced W) (Unit {0})) (w : W) (t t' t'' : List Call)
      → Ends (m (w, t)) t'
      → ((w : W) → Ends (n (w, t')) t'')
      → Ends ((m >> n) (w, t)) t''
  then-Ends m n w t t' t'' (inl p) h = rw (p) (inl refl)
  then-Ends m n w t t' t'' (inr (e, q)) h =
      rw (e) (subst (λ x. Ends (n ((m (w, t)).1.0, x)) t'') (sym q) (h (m (w, t)).1.0))

  interrupted-Ends : (x : Exn) (w : W) (t : List Call) → Ends (interrupted (tracing c) x (w, t)) t
  interrupted-Ends x w t = elim (Bool-cases (is_interrupt x)) [
    | inl e ↦ rw e (inr (undisturbed.reporting_interrupt w, refl))
    | inr e ↦ rw e (inr (undisturbed.reporting_error w, refl))
  ]

  stream-Ends :
      (fuel : ℕ) (q n : String) (w : W) (t : List Call)
      → Ends (stream (tracing c) fuel q n (w, t)) t
  unfolding stream
  stream-Ends fuel q n w t = go (streaming (w, t)).0 (streaming (w, t)).1 (
      bind-Silent ((tracing c).open_queue q n) (λ _. listen (tracing c) fuel) (λ w t. refl)
        (λ _. listen-Silent c fuel) w t)
    where
      streaming : Exec (Traced W) (Unit {0})
      streaming = (tracing c).open_queue q n >> listen (tracing c) fuel

      go :
          (o : Outcome (Unit {0})) (s : Traced W)
          → s.1 ≡ t
          → Ends (after_try o s (interrupted (tracing c)) pure) t
      go (ok tt) s e = inr (refl, e)
      go (raised x) s e =
          subst (λ t'. Ends (interrupted (tracing c) x (s.0, t')) t) (sym e)
            (interrupted-Ends x s.0 t)
      go pending s e = inl refl

  unsubscribe-Ends :
      (q n : String) (w : W) (t : List Call)
      → Ends (unsubscribe (tracing c) q n (w, t)) (t ++ (removed n ∷ []))
  unfolding unsubscribe
  unsubscribe-Ends q n w t =
      caught-Ends ((tracing c).remove_subscriber q n) w t _ (undisturbed.removing q n w) refl

  disconnect-Ends :
      (w : W) (t : List Call) → Ends (disconnect (tracing c) (w, t)) (t ++ (closed ∷ []))
  unfolding disconnect
  disconnect-Ends w t = caught-Ends (tracing c).close w t _ (undisturbed.closing w) refl

  -- What is subscribed: nothing, or by a failed or a successful registration.
  abbrev Subscribed : Outcome (Option String) × Traced W → Type 0
  Subscribed r =
      (r.0 ≡ pending)
      ⊎ (((r.0 ≡ ok none)
            × ((r.1.1 ≡ []) ⊎ ((n : String) × (e : Exn) × (r.1.1 ≡ added n (raised e) ∷ []))))
          ⊎ ((n : String) × (r.0 ≡ ok (some n)) × (r.1.1 ≡ added n (ok tt) ∷ [])))

  abbrev adds : String → String → Option String → Exec (Traced W) String
  adds q n rule = (tracing c).add_subscriber q n rule >> pure n

  adds-Subscribed :
      (q n : String) (rule : Option String) (w w' : W) (o : Outcome (Unit {0}))
      → c.add_subscriber q n rule w ≡ (o, w')
      → Subscribed (try_then (adds q n rule) (but_interrupts none) (λ n. pure (some n)) (w, []))
  adds-Subscribed q n rule w w' (ok tt) e = rw (e) (inr (inr (n, refl, refl)))
  adds-Subscribed q n rule w w' (raised x) e =
      rw (e, undisturbed.adding q n rule w x (ap (λ r. r.0) e)) (inr (inl (refl, inr (n, x, refl))))
  adds-Subscribed q n rule w w' pending e = rw (e) (inl refl)

  abbrev named : String → String
  named id = "aq_sub_" <> replace "-" "_" id

  abbrev with_id : String → Option String → Exec (Traced W) (Option String)
  with_id q rule =
      try_then ((tracing c).new_id >>= λ id. adds q (named id) rule) (but_interrupts none)
        (λ n. pure (some n))

  with_id-Subscribed :
      (q : String) (rule : Option String) (w w' : W) (o : Outcome String)
      → c.new_id w ≡ (o, w')
      → Subscribed (with_id q rule (w, []))
  with_id-Subscribed q rule w w' (ok id) e = rw (e) (adds-Subscribed q (named id) rule w' _ _ refl)
  with_id-Subscribed q rule w w' (raised x) e =
      rw (e, undisturbed.naming w x (ap (λ r. r.0) e)) (inr (inl (refl, inl refl)))
  with_id-Subscribed q rule w w' pending e = rw (e) (inl refl)

  registered-Subscribed :
      (q : String) (rule : Option String) (w w' : W) (o : Outcome (Unit {0}))
      → c.subscriber_type w ≡ (o, w')
      → Subscribed (registered (tracing c) q rule (w, []))
  unfolding register
  registered-Subscribed q rule w w' (ok tt) e = rw (e) (with_id-Subscribed q rule w' _ _ refl)
  registered-Subscribed q rule w w' (raised x) e =
      rw (e, undisturbed.typing w x (ap (λ r. r.0) e)) (inr (inl (refl, inl refl)))
  registered-Subscribed q rule w w' pending e = rw (e) (inl refl)

  subscribe-Subscribed :
      (q : String) (id name endpoint : Option String) (w : W)
      → Subscribed (subscribe (tracing c) q id name endpoint (w, []))
  unfolding subscribe
  subscribe-Subscribed q id name endpoint w =
      go (build_subscriber_rule (tracing c) id name endpoint (w, [])).0 _
        (build_subscriber_rule-Calm (tracing c) (λ name s. undisturbed.finding name s.0)
          (λ text s. undisturbed.quoting text s.0) id name endpoint (w, []))
        (rule-Silent c id name endpoint w [])
    where
      go :
          (o : Outcome (Option String)) (s : Traced W)
          → ((e : Exn) → o ≡ raised e → is_interrupt e ≡ false)
          → s.1 ≡ []
          → Subscribed (after_try o s (but_interrupts none) (registered (tracing c) q))
      go (ok rule) s calm e =
          subst (λ t. Subscribed (registered (tracing c) q rule (s.0, t))) (sym e)
            (registered-Subscribed q rule s.0 _ _ refl)
      go (raised x) s calm e = rw (calm x refl) (inr (inl (refl, inl e)))
      go pending s calm e = inl refl

  -- No subscriber was made, or it could not be added, or the one that was added was removed. Where there was a
  -- connection, it was closed last.
  abbrev pub Lived : List Call → Type 0
  Lived [] = Unit
  Lived (closed ∷ []) = Unit
  Lived (added n (raised e) ∷ closed ∷ []) = Unit
  Lived (added n (ok u) ∷ removed m ∷ closed ∷ []) = m ≡ n
  Lived _ = ⊥

  abbrev pub Lives : Outcome (Unit {0}) × Traced W → Type 0
  Lives r = (r.0 ≡ pending) ⊎ ((r.0 ≡ ok tt) × Lived r.1.1)

  Ends-Lives : (r : Outcome (Unit {0}) × Traced W) (t : List Call) → Lived t → Ends r t → Lives r
  Ends-Lives r t l (inl p) = inl p
  Ends-Lives r t l (inr (e, q)) = inr (e, subst Lived (sym q) l)

  module _ (fuel : ℕ) (domain : String) where
    abbrev q : String
    q = queue_name (tracing c) fuel domain

    abbrev used : Option String → Exec (Traced W) (Unit {0})
    used = streamed (tracing c) fuel domain

    used-Ends :
        (n : String) (w : W) (t : List Call)
        → Ends
            ((used (some n) >> disconnect (tracing c)) (w, t))
            ((t ++ (removed n ∷ [])) ++ (closed ∷ []))
    used-Ends n w t =
        then-Ends (used (some n)) (disconnect (tracing c)) w t _ _
          (then-Ends (stream (tracing c) fuel q n) (unsubscribe (tracing c) q n) w t t _
            (stream-Ends fuel q n w t) (λ w. unsubscribe-Ends q n w t))
          (λ w. disconnect-Ends w _)

    rest-Lives :
        (r : Outcome (Option String) × Traced W)
        → Subscribed r
        → Lives (after r.0 r.1 (λ n. used n >> disconnect (tracing c)))
    rest-Lives r (inl p) = rw (p) (inl refl)
    rest-Lives r (inr (inl (e, inl t))) = rw (e) (
        subst (λ x. Lives (disconnect (tracing c) (r.1.0, x))) (sym t)
          (Ends-Lives (disconnect (tracing c) (r.1.0, [])) (closed ∷ []) tt
            (disconnect-Ends r.1.0 [])))
    rest-Lives r (inr (inl (e, inr (n, x, t)))) = rw (e) (
        subst (λ y. Lives (disconnect (tracing c) (r.1.0, y))) (sym t)
          (Ends-Lives (disconnect (tracing c) (r.1.0, added n (raised x) ∷ []))
            (added n (raised x) ∷ closed ∷ []) tt
            (disconnect-Ends r.1.0 (added n (raised x) ∷ []))))
    rest-Lives r (inr (inr (n, e, t))) = rw (e) (
        subst (λ y. Lives ((used (some n) >> disconnect (tracing c)) (r.1.0, y))) (sym t)
          (Ends-Lives ((used (some n) >> disconnect (tracing c)) (r.1.0, added n (ok tt) ∷ []))
            (added n (ok tt) ∷ removed n ∷ closed ∷ []) refl
            (used-Ends n r.1.0 (added n (ok tt) ∷ []))))

    -- With the calls outside the stream raising whatever exceptions, but no interrupt, with anything
    -- raised in the stream, interrupts included, and with the two lines of its handlers printed: the
    -- program never ends by an exception. Unless it listens for ever, a subscriber that was added is removed
    -- again, by its name; and if there was a connection, the last of these calls is to close it.
    pub main-Lives :
        (id name endpoint : Option String) (w : W)
        → Lives (main (tracing c) fuel domain id name endpoint (w, []))
    unfolding main
    main-Lives id name endpoint w = go (c.connect w).0 (c.connect w).1 (undisturbed.connecting w)
      where
        go :
            (o : Outcome (Unit {0})) (w' : W)
            → ((e : Exn) → o ≡ raised e → is_interrupt e ≡ false)
            → Lives (
                after_try o
                  (w', [])
                  (but_interrupts tt)
                  (λ _. subscribe (tracing c) q id name endpoint >>= λ n.
                    used n >> disconnect (tracing c)))
        go (ok tt) w' calm = rest-Lives _ (subscribe-Subscribed q id name endpoint w')
        go (raised x) w' calm = rw (calm x refl) (inr (refl, tt))
        go pending w' calm = inl refl
