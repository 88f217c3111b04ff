-- ===== src/QueueSamples/Normalized/Delivery.antt =====
-- The stream of normalized data: a message is committed after it is printed, and before the next is taken.
use oci_iot_samples.Base.{
  ℕ, zero, suc, String, ◌<>◌, ◌≡◌, ◌⊎◌, inl, inr, refl, sym, ap, ◌∙◌, subst, Option, none, some,
  List, [], ◌∷◌, ◌++◌, append-nil, append_assoc,
}
use oci_iot_samples.Base.Json.{Value, Fields, get}
use oci_iot_samples.Base.Exec.{Exec, Outcome, ok, raised, pending, after, ◌>>◌}
use oci_iot_samples.QueueSamples.Normalized.Tracing.{
  taking, Call, taken, printed, committed, Traced, tracing, when_ok, Made, Makes, single-Made,
  then-Makes,
}
use oci_iot_samples.QueueSamples.Normalized.{
  Driver, Settings, show_message, shown, listen, print_item,
}

-- The text of an item, if the message has it.
abbrev item_text : {W : Type 0} → Driver W → Option Value → String
item_text d none = ""
item_text d (some v) = d.text_of v

-- The calls for a message.
abbrev pub round : {W : Type 0} → Driver W → Fields → List Call
round d payload =
    taken payload
    ∷ printed ("\nOCID         : " <> item_text d (get "digitalTwinInstanceId" payload))
    ∷ printed ("Time observed: " <> item_text d (get "timeObserved" payload))
    ∷ printed ("Content path : " <> item_text d (get "contentPath" payload))
    ∷ printed ("Value        : " <> item_text d (get "value" payload))
    ∷ committed
    ∷ []

abbrev pub rounds : {W : Type 0} → Driver W → List Fields → List Call
rounds d [] = []
rounds d (m ∷ ms) = round d m ++ rounds d ms

module _ {W : Type 0} (driver : Driver W) (config : Settings) where
  item-Makes :
      (key : String) (v : Option Value) (label : String)
      → Makes
          (print_item (tracing driver) config key v label)
          (printed (label <> item_text driver v) ∷ [])
  item-Makes key none label =
      λ w t. inr ((λ a h. cc), ([], printed (label <> ""), [], refl, sym (append-nil t)))
  item-Makes key (some v) label = λ w t.
      single-Made (driver.print (label <> driver.text_of v) w).0
        (driver.print (label <> driver.text_of v) w).1 (printed (label <> driver.text_of v)) t

  abbrev item_printed : String → Fields → String → Exec (Traced W) (Unit {0})
  item_printed key payload label = print_item (tracing driver) config key (get key payload) label

  -- The calls for a message that was taken.
  abbrev rest_of : Fields → List Call
  rest_of payload =
      printed ("\nOCID         : " <> item_text driver (get "digitalTwinInstanceId" payload))
      ∷ printed ("Time observed: " <> item_text driver (get "timeObserved" payload))
      ∷ printed ("Content path : " <> item_text driver (get "contentPath" payload))
      ∷ printed ("Value        : " <> item_text driver (get "value" payload))
      ∷ committed
      ∷ []

  show-Makes :
      (payload : Fields) → Makes (show_message (tracing driver) config payload) (rest_of payload)
  unfolding show_message
  show-Makes payload =
      then-Makes (item_printed "digitalTwinInstanceId" payload _) _ _ _
        (item-Makes "digitalTwinInstanceId" _ _)
        (then-Makes (item_printed "timeObserved" payload _) _ _ _ (item-Makes "timeObserved" _ _) (
          then-Makes (item_printed "contentPath" payload _) _ _ _ (item-Makes "contentPath" _ _) (
            then-Makes (item_printed "value" payload _) (tracing driver).commit _ (committed ∷ [])
              (item-Makes "value" _ _)
              (λ w t. single-Made (driver.commit w).0 (driver.commit w).1 committed t))))

  -- The first calls for a message, without the last of them.
  abbrev pub IsCut : List Call → Type 0
  IsCut p = (m : Fields) × (c : Call) × (rest : List Call) × (round driver m ≡ p ++ (c ∷ rest))

  -- Whole rounds were added to the trace, and then at most a part of one.
  abbrev Delivers : Outcome (Unit {0}) × Traced W → List Call → Type 0
  Delivers r t =
      (ms : List Fields) × (p : List Call) × (r.1.1 ≡ t ++ (rounds driver ms ++ p))
      × ((p ≡ []) ⊎ IsCut p)

  nothing-Delivers : (r : Outcome (Unit {0}) × Traced W) (t : List Call) → r.1.1 ≡ t → Delivers r t
  nothing-Delivers r t e = ([], [], e ∙ sym (append-nil t), inl refl)

  round-Delivers :
      (r : Outcome (Unit {0}) × Traced W) (t t' : List Call) (m : Fields)
      → t' ≡ t ++ round driver m
      → Delivers r t'
      → Delivers r t
  round-Delivers r t t' m e (ms, p, q, cut) = (
    m ∷ ms,
    p,
    q
        ∙ (ap (λ x. x ++ (rounds driver ms ++ p)) e
            ∙ append_assoc t (round driver m) (rounds driver ms ++ p)),
    cut,
  )

  -- After a message was taken in a round from the trace `t`.
  shown-Delivers :
      (m : Fields) (r : Outcome (Unit {0}) × Traced W) (t : List Call)
      (next : Exec (Traced W) (Unit {0}))
      → Made r (t ++ (taken m ∷ [])) (rest_of m)
      → ((w : W) (t : List Call) → Delivers (next (w, t)) t)
      → Delivers (after r.0 r.1 (λ _. next)) t
  shown-Delivers m (ok u, (w, t')) t next (inl (_, _, q)) k =
      round-Delivers (next (w, t')) t t' m (q ∙ append_assoc t (taken m ∷ []) (rest_of m)) (k w t')
  shown-Delivers m (ok u, s) t next (inr (n, _)) k = absurd (n u refl)
  shown-Delivers m (raised e, s) t next (inl (_, h, _)) k = cc
  shown-Delivers m (raised e, s) t next (inr (n, (p, c, rest, cut, q))) k = (
    [],
    taken m ∷ p,
    q ∙ append_assoc t (taken m ∷ []) p,
    inr (m, c, rest, ap (λ x. taken m ∷ x) cut),
  )
  shown-Delivers m (pending, s) t next (inl (_, h, _)) k = cc
  shown-Delivers m (pending, s) t next (inr (n, (p, c, rest, cut, q))) k = (
    [],
    taken m ∷ p,
    q ∙ append_assoc t (taken m ∷ []) p,
    inr (m, c, rest, ap (λ x. taken m ∷ x) cut),
  )

  idle-Delivers :
      (o : Outcome (Unit {0})) (w : W) (t : List Call) (next : Exec (Traced W) (Unit {0}))
      → ((w : W) (t : List Call) → Delivers (next (w, t)) t)
      → Delivers (after o (w, t) (λ _. next)) t
  idle-Delivers (ok u) w t next k = k w t
  idle-Delivers (raised e) w t next k = nothing-Delivers (raised e, (w, t)) t refl
  idle-Delivers pending w t next k = nothing-Delivers (pending, (w, t)) t refl

  -- From the outcome of `deqone` on.
  taken-Delivers :
      (o : Outcome (Option Fields)) (w : W) (t : List Call) (next : Exec (Traced W) (Unit {0}))
      → ((w : W) (t : List Call) → Delivers (next (w, t)) t)
      → Delivers
          (after o
            (w, t ++ when_ok taking o)
            (λ message. shown (tracing driver) config message >> next))
          t
  taken-Delivers (ok none) w t next k =
      subst (λ x. Delivers (after (driver.print_dot w).0 ((driver.print_dot w).1, x) (λ _. next)) t)
        (sym (append-nil t)) (idle-Delivers (driver.print_dot w).0 (driver.print_dot w).1 t next k)
  taken-Delivers (ok (some m)) w t next k =
      shown-Delivers m (show_message (tracing driver) config m (w, t ++ (taken m ∷ []))) t next
        (show-Makes m w (t ++ (taken m ∷ []))) k
  taken-Delivers (raised e) w t next k = nothing-Delivers (raised e, (w, t ++ [])) t (append-nil t)
  taken-Delivers pending w t next k = nothing-Delivers (pending, (w, t ++ [])) t (append-nil t)

  from-Delivers :
      (fuel : ℕ) (w : W) (t : List Call) → Delivers (listen (tracing driver) config fuel (w, t)) t
  unfolding listen
  from-Delivers zero w t = nothing-Delivers (pending, (w, t)) t refl
  from-Delivers (suc fuel) w t =
      taken-Delivers (driver.deqone w).0 (driver.deqone w).1 t (listen (tracing driver) config fuel)
        (from-Delivers fuel)

  -- However long the stream goes on, and whatever its calls raise: its calls that returned are whole
  -- rounds, in each of which a message is taken, its four lines are printed, in their order, and then
  -- it is committed, and after them at most the first calls of one more round, without its last,
  -- the commit. So no message is committed that was not printed, and there is never more
  -- than one that is taken and not committed.
  pub listen-delivers :
      (fuel : ℕ) (w : W)
      → (ms : List Fields) × (p : List Call) × ((listen (tracing driver) config fuel (w, [])).1.1
          ≡ rounds driver ms ++ p)
        × ((p ≡ []) ⊎ IsCut p)
  listen-delivers fuel w = from-Delivers fuel w []
