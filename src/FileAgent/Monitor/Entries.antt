-- ===== src/FileAgent/Monitor/Entries.antt =====
-- The entries of the monitor's queue as lists: the items, and the stop mark at the end.
use oci_iot_samples.Base.{
  suc, ◌+◌, ◌≡◌, ◌⊎◌, inl, inr, refl, ap, List, [], ◌∷◌, ◌++◌, map, length, arith, append_assoc,
}
use oci_iot_samples.FileAgent.Processor.{CommandWorkItem, Queued, item, stop_worker}
use oci_iot_samples.FileAgent.Monitor.{
  MainAt, looping, stopping, joining, joined, finished, WorkerAt, waiting, stopped, died, holding,
}

-- The stop mark, once it is put, and once it is taken.
abbrev pub mark_put : MainAt → List Queued
mark_put looping = []
mark_put stopping = []
mark_put _ = stop_worker ∷ []

abbrev pub mark_taken : WorkerAt → List Queued
mark_taken stopped = stop_worker ∷ []
mark_taken _ = []

abbrev pub held : WorkerAt → List Queued
held (holding q) = q ∷ []
held _ = []

-- work_queue.join() has returned.
abbrev pub PastJoin : MainAt → Type 0
PastJoin joined = Unit
PastJoin finished = Unit
PastJoin _ = ⊥

pub map-append : (a b : List CommandWorkItem) → map item (a ++ b) ≡ map item a ++ map item b
map-append [] b = refl
map-append (x ∷ a) b = ap (λ l. item x ∷ l) (map-append a b)

pub length-append : (a b : List Queued) → length (a ++ b) ≡ length a + length b
length-append [] b = omega arith
length-append (x ∷ a) b = ground (arith, length-append a b)

pub length-map : (a : List CommandWorkItem) → length (map item a) ≡ length a
length-map [] = refl
length-map (x ∷ a) = ap suc (length-map a)

-- Entries put behind those left over.
pub append-entries :
    (put taken mark front queue more : List Queued)
    → put ≡ taken ++ (mark ++ (front ++ queue))
    → put ++ more ≡ taken ++ (mark ++ (front ++ (queue ++ more)))
append-entries put taken mark front queue more e =
    rw
      (
        e,
        append_assoc taken (mark ++ (front ++ queue)) more,
        append_assoc mark (front ++ queue) more,
        append_assoc front queue more,
      )
      refl

pub PastJoin-mark_put : (m : MainAt) → PastJoin m → mark_put m ≡ stop_worker ∷ []
PastJoin-mark_put joined p = refl
PastJoin-mark_put finished p = refl
PastJoin-mark_put looping p = absurd p
PastJoin-mark_put stopping p = absurd p
PastJoin-mark_put joining p = absurd p

pub no_entries : (l : List Queued) → 0 ≡ length l → l ≡ []
no_entries [] e = refl
no_entries (q ∷ l) e = absurd (omega arith)

pub mark_taken-cases : (v : WorkerAt) → (v ≡ stopped) ⊎ (mark_taken v ≡ [])
mark_taken-cases waiting = inr refl
mark_taken-cases stopped = inl refl
mark_taken-cases died = inr refl
mark_taken-cases (holding q) = inr refl

-- The stop mark ends both.
pub same_items :
    (a b : List CommandWorkItem) (v : WorkerAt)
    → map item a ++ (stop_worker ∷ []) ≡ map item b ++ mark_taken v
    → (b ≡ a) × (v ≡ stopped)
same_items [] [] v e = elim (mark_taken-cases v) [ inl s ↦ (refl, s) | inr n ↦ cc (e, n) ]
same_items [] (y ∷ b) v e = cc
same_items (x ∷ a) [] v e = elim (mark_taken-cases v) [
  | inl s ↦ cc (e, ap mark_taken s)
  | inr n ↦ cc (e, n)
]
same_items (x ∷ a) (y ∷ b) v e =
    let rest : map item a ++ (stop_worker ∷ []) ≡ map item b ++ mark_taken v = cc in
    let (same, at) = same_items a b v rest in (cc (same, e), at)

-- What is left over when the stop mark has been put, unless the worker has returned.
pub left_cases :
    (a b : List CommandWorkItem) (v : WorkerAt) (l : List Queued)
    → map item a ++ (stop_worker ∷ []) ≡ map item b ++ (mark_taken v ++ l)
    → (v ≡ stopped) ⊎ ((works : List CommandWorkItem) × (l ≡ map item works ++ (stop_worker ∷ [])))
left_cases a [] v l e = elim (mark_taken-cases v) [ inl s ↦ inl s | inr n ↦ inr (a, cc (e, n)) ]
left_cases [] (y ∷ b) v l e = cc
left_cases (x ∷ a) (y ∷ b) v l e = left_cases a b v l cc

pub after_stop :
    (a b : List CommandWorkItem) (l : List Queued)
    → map item a ++ (stop_worker ∷ []) ≡ map item b ++ (stop_worker ∷ l)
    → l ≡ []
after_stop [] [] l e = cc
after_stop [] (y ∷ b) l e = cc
after_stop (x ∷ a) [] l e = cc
after_stop (x ∷ a) (y ∷ b) l e = after_stop a b l cc
