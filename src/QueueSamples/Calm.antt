-- ===== src/QueueSamples/Calm.antt =====
-- Calls that are not interrupted.
use oci_iot_samples.Base.{String, ◌≡◌, Option, none, some, given, arith, false}
use oci_iot_samples.Base.Exec.{Exec, Exn, Outcome, ok, raised, pending, after, ◌>>=◌}
use oci_iot_samples.QueueSamples.Interrupts.{is_interrupt}
use oci_iot_samples.QueueSamples.{
  Connection, found_instance, column, rule_instance, add_condition, build_subscriber_rule,
}

-- What the call raises is no interrupt.
abbrev pub Calm : {W A : Type 0} → Exec W A → Type 0
Calm {W} m = (w : W) (e : Exn) → (m w).0 ≡ raised e → is_interrupt e ≡ false

module _ {W A B : Type 0} where
  after-Calm :
      (o : Outcome A) (w : W) (f : A → Exec W B) (e : Exn)
      → ((e : Exn) → o ≡ raised e → is_interrupt e ≡ false)
      → ((a : A) → Calm (f a))
      → (after o w f).0 ≡ raised e
      → is_interrupt e ≡ false
  after-Calm (ok a) w f e h k r = k a w e r
  after-Calm (raised x) w f e h k r = h e (cc (r))
  after-Calm pending w f e h k r = cc

  bind-Calm : (m : Exec W A) (f : A → Exec W B) → Calm m → ((a : A) → Calm (f a)) → Calm (m >>= f)
  bind-Calm m f h k w e r = after-Calm (m w).0 (m w).1 f e (h w) k r

-- The calls of a connection outside the stream are not interrupted, and the two lines that the stream's
-- handlers print can be printed.
pub record Undisturbed {W : Type 0} (c : Connection W) : Type 0 where
  pub connecting : Calm c.connect
  pub closing : Calm c.close
  pub finding : (name : String) → Calm (c.instance_of_display_name name)
  pub quoting : (s : String) → Calm (c.enquote_literal s)
  pub typing : Calm c.subscriber_type
  pub naming : Calm c.new_id
  pub adding : (q name : String) (rule : Option String) → Calm (c.add_subscriber q name rule)
  pub removing : (q name : String) → Calm (c.remove_subscriber q name)
  pub reporting_interrupt : (w : W) → (c.print "\nInterrupted" w).0 ≡ ok tt
  pub reporting_error : (w : W) → (c.print "" w).0 ≡ ok tt

module _ {W : Type 0} (c : Connection W)
    (finding : (name : String) → Calm (c.instance_of_display_name name))
    (quoting : (s : String) → Calm (c.enquote_literal s)) where
  found_instance-Calm : (name : String) (row : Option String) → Calm (found_instance c name row)
  unfolding is_interrupt
  found_instance-Calm name none w e r = let raised_it = r in ground (arith, raised_it)
  found_instance-Calm name (some id) w e r = cc

  rule_instance-Calm : (id name : Option String) → Calm (rule_instance c id name)
  unfolding rule_instance
  rule_instance-Calm id name = chosen (given name)
    where
      chosen :
          (o : Option String)
          → Calm (elim o [
            | none ↦ λ w. (ok (given id), w)
            | some name ↦
                c.instance_of_display_name name >>= λ row. found_instance c name (column row)
          ])
      chosen none = λ w e r. cc
      chosen (some name) =
          bind-Calm (c.instance_of_display_name name) (λ row. found_instance c name (column row))
            (finding name) (λ row. found_instance-Calm name (column row))

  add_condition-Calm :
      (key : String) (value rule : Option String) → Calm (add_condition c key value rule)
  add_condition-Calm key none rule = λ w e r. cc
  add_condition-Calm key (some v) rule =
      bind-Calm (c.enquote_literal v) _ (quoting v) (λ quoted w e r. cc)

  pub build_subscriber_rule-Calm :
      (id name endpoint : Option String) → Calm (build_subscriber_rule c id name endpoint)
  unfolding build_subscriber_rule
  build_subscriber_rule-Calm id name endpoint =
      bind-Calm (rule_instance c id name) _ (rule_instance-Calm id name) (λ instance_id.
        bind-Calm (add_condition c "digital_twin_instance_id" instance_id none) _
          (add_condition-Calm "digital_twin_instance_id" instance_id none)
          (λ rule. add_condition-Calm "endpoint" (given endpoint) rule))
