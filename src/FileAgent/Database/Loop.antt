-- ===== src/FileAgent/Database/Loop.antt =====
-- The dequeue loop, over a queue that serves the messages that wait in it.
use oci_iot_samples.Base.{
  ℕ, zero, suc, ◌+◌, ◌<◌, String, ◌≡◌, Option, none, some, List, [], ◌∷◌, arith,
}
use oci_iot_samples.Base.Exec.{Exec, ok, ◌>>◌, pure}
use oci_iot_samples.FileAgent.Models.{InboundMessage}
use oci_iot_samples.FileAgent.Database.{
  Database, Dequeued, handle_dequeued, dequeue_from, dequeue_messages,
}

-- The first n of a list.
unfoldable pub take : {A : Type 0} → ℕ → List A → List A
take zero xs = []
take (suc n) [] = []
take (suc n) (x ∷ xs) = x ∷ take n xs

-- A world with the messages that wait.
abbrev pub Waiting : Type 0 → Type 0
Waiting W = List Dequeued × W

module _ {W : Type 0} where
  abbrev pub beside_waiting : {A : Type 0} → Exec W A → Exec (Waiting W) A
  beside_waiting m (q, w) = let r = m w in (r.0, (q, r.1))

  abbrev pub serve : Exec (Waiting W) (Option Dequeued)
  serve ([], w) = (ok none, ([], w))
  serve (m ∷ ms, w) = (ok (some m), (ms, w))

  -- The database, with the queue's messages served in order.
  abbrev pub serving : Database W → Database (Waiting W)
  serving db = record {
    instance_of_display_name = λ d n. beside_waiting (db.instance_of_display_name d n);
    display_name_of_instance = λ d i. beside_waiting (db.display_name_of_instance d i);
    enquote_literal = λ t. beside_waiting (db.enquote_literal t);
    dbms_add_subscriber = λ q n r. beside_waiting (db.dbms_add_subscriber q n r);
    dbms_remove_subscriber = λ q n. beside_waiting (db.dbms_remove_subscriber q n);
    deqone = serve;
    commit = beside_waiting db.commit;
  }

module _ {W : Type 0} (db : Database W) (domain : String) (put : InboundMessage → Exec W (Unit {0}))
    (handler : String → Exec W (Unit {0})) where
  abbrev pub put_beside : InboundMessage → Exec (Waiting W) (Unit {0})
  put_beside m = beside_waiting (put m)

  abbrev pub handler_beside : String → Exec (Waiting W) (Unit {0})
  handler_beside i = beside_waiting (handler i)

  abbrev pub handle_all : List Dequeued → Exec W (Unit {0})
  handle_all [] = pure tt
  handle_all (m ∷ ms) = handle_dequeued db domain put (some handler) m >> handle_all ms

  -- The loop, in the world with the waiting messages.
  abbrev pub loop : ℕ → Option ℕ → ℕ → Exec (Waiting W) (Unit {0})
  loop = dequeue_from (serving db) domain put_beside (some handler_beside)

  handle_dequeued-beside :
      (m : Dequeued) (q : List Dequeued) (w : W)
      → handle_dequeued (serving db) domain put_beside (some handler_beside) m (q, w)
        ≡ beside_waiting (handle_dequeued db domain put (some handler) m) (q, w)
  unfolding handle_dequeued
  handle_dequeued-beside m q w = ground arith

  loop-take :
      (fuel left processed n : ℕ) (q : List Dequeued) (w : W)
      → left < fuel
      → n ≡ processed + left
      → let r = loop fuel (some n) processed (q, w) in (r.0, r.1.1) ≡ handle_all (take left q) w
  unfolding dequeue_from take
  loop-take zero left processed n q w h e = ground arith
  loop-take (suc fuel) zero processed n q w h e = ground arith
  loop-take (suc fuel) (suc left) processed n [] w h e = ground arith
  loop-take (suc fuel) (suc left) processed n (m ∷ q) w h e =
      let w1 = (handle_dequeued db domain put (some handler) m w).1 in
      ground (
        arith,
        handle_dequeued-beside m q w,
        loop-take fuel left (processed + 1) n q w1 (omega arith) (omega arith),
      )

  -- With a limit of n messages and fuel for more than n rounds, over a queue that serves what
  -- waits in it in order: the loop has the outcome, and leaves the world, of handling the first n
  -- of the waiting messages one after the other (all of them, if there are fewer).
  pub dequeue_messages-take :
      (fuel n : ℕ) (q : List Dequeued) (w : W)
      → n < fuel
      → let r =
          dequeue_messages
            (serving db)
            domain
            put_beside
            (some handler_beside)
            fuel
            (some n)
            (q, w) in
        (r.0, r.1.1) ≡ handle_all (take n q) w
  unfolding dequeue_messages
  dequeue_messages-take fuel n q w h = loop-take fuel n 0 n q w h (omega arith)
