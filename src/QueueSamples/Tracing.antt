-- ===== src/QueueSamples/Tracing.antt =====
-- The calls that make and remove a subscriber and close the connection, and the steps without them.
use oci_iot_samples.Base.{
  ℕ, zero, suc, String, ◌≡◌, refl, ◌∙◌, Option, none, some, List, [], ◌∷◌, ◌++◌, arith,
}
use oci_iot_samples.Base.Exec.{Exec, Outcome, ok, raised, pending, after, ◌>>=◌, ◌>>◌}
use oci_iot_samples.QueueSamples.{
  Connection, RawMessage, rule_instance, build_subscriber_rule, show_message, shown, listen,
}

-- The calls that make, remove and close.
pub data Call : Type 0 where
  added : String → Outcome (Unit {0}) → Call
  removed : String → Call
  closed : Call

abbrev pub Traced : Type 0 → Type 0
Traced W = W × List Call

module _ {W : Type 0} where
  abbrev silent : {A : Type 0} → Exec W A → Exec (Traced W) A
  silent m (w, t) = let r = m w in (r.0, (r.1, t))

  abbrev recorded : {A : Type 0} → (Outcome A → Call) → Exec W A → Exec (Traced W) A
  recorded call m (w, t) = let r = m w in (r.0, (r.1, t ++ (call r.0 ∷ [])))

  abbrev pub tracing : Connection W → Connection (Traced W)
  tracing c = record {
    connect = silent c.connect;
    close = recorded (λ _. closed) c.close;
    instance_of_display_name = λ name. silent (c.instance_of_display_name name);
    enquote_literal = λ s. silent (c.enquote_literal s);
    subscriber_type = silent c.subscriber_type;
    new_id = silent c.new_id;
    add_subscriber = λ q name rule. recorded (added name) (c.add_subscriber q name rule);
    remove_subscriber = λ q name. recorded (λ _. removed name) (c.remove_subscriber q name);
    open_queue = λ q name. silent (c.open_queue q name);
    deqone = silent c.deqone;
    read_content = λ id. silent (c.read_content id);
    print = λ s. silent (c.print s);
    commit = silent c.commit;
  }

  -- A step that makes, removes and closes nothing.
  abbrev pub Silent : {A : Type 0} → Exec (Traced W) A → Type 0
  Silent m = (w : W) (t : List Call) → (m (w, t)).1.1 ≡ t

  after-Silent :
      {A B : Type 0} (o : Outcome A) (s : Traced W) (t : List Call) (f : A → Exec (Traced W) B)
      → s.1 ≡ t
      → ((a : A) → Silent (f a))
      → (after o s f).1.1 ≡ t
  after-Silent (ok a) s t f e h = h a s.0 s.1 ∙ e
  after-Silent (raised x) s t f e h = e
  after-Silent pending s t f e h = e

  pub bind-Silent :
      {A B : Type 0} (m : Exec (Traced W) A) (f : A → Exec (Traced W) B)
      → Silent m
      → ((a : A) → Silent (f a))
      → Silent (m >>= f)
  bind-Silent m f h k w t = after-Silent (m (w, t)).0 (m (w, t)).1 t f (h w t) k

module _ {W : Type 0} (c : Connection W) where
  pub rule-Silent :
      (id name endpoint : Option String)
      → Silent (build_subscriber_rule (tracing c) id name endpoint)
  unfolding build_subscriber_rule rule_instance
  rule-Silent id name endpoint w t = ground arith

  shown-Silent : (m : Option RawMessage) → Silent (shown (tracing c) m)
  unfolding show_message
  shown-Silent none w t = ground arith
  shown-Silent (some m) w t = ground arith

  pub listen-Silent : (fuel : ℕ) → Silent (listen (tracing c) fuel)
  unfolding listen
  listen-Silent zero w t = refl
  listen-Silent (suc fuel) w t =
      bind-Silent (tracing c).deqone
        (λ message. shown (tracing c) message >> listen (tracing c) fuel) (λ w t. refl)
        (λ m.
          bind-Silent (shown (tracing c) m) (λ _. listen (tracing c) fuel) (shown-Silent m)
            (λ _. listen-Silent fuel))
        w t
