-- ===== src/FileAgent/ObjectStorage/Names/Injective.antt =====
-- Two transactions never share a PAR or an object prefix.
use text.Mathlib.TextLemmas.{
  nil-append, append_cancel_left, append_cancel_right, append_assoc, tail-eq_of_cons-eq,
  head-eq_of_cons-eq, cons-append,
}
use mathlib.Core.Path.{ap₂}
use oci_iot_samples.Base.{
  String, ◌<>◌, ◌≡◌, refl, sym, ap, ◌∙◌, true, false, not, arith, eqb, all_chars, Char, code,
}
use oci_iot_samples.Base.Exec.{Outcome, ok, raised, pending}
use oci_iot_samples.FileAgent.Models.{validate_transaction_id}
use oci_iot_samples.FileAgent.Models.Laws.{
  validated-all_ne, validated_chars, colon-not_id_char, slash-not_id_char,
}
use oci_iot_samples.FileAgent.ObjectStorage.Names.{par_name, object_prefix, with_valid_id}

-- A separator that stands in neither tail splits a text in one way only.
module _ (k : Char) where
  abbrev Free : String → Type 0
  Free t = all_chars (λ c. not (eqb c (code k))) t ≡ true

  abbrev sep : String → String
  sep t = String.◌∷◌ k t

  not_free : (d t : String) → all_chars (λ c. not (eqb c (code k))) (d <> sep t) ≡ false
  unfolding all_chars
  not_free String.[] t = rw nil-append (ground arith)
  not_free (String.◌∷◌ c d) t = rw cons-append (ground (arith, not_free d t))

  absurd_tail : (e t u : String) → Free t → t ≡ e <> sep u → ⊥
  absurd_tail e t u f p = cc (not_free e u, f, p)

  split_unique : (d e t u : String) → Free t → Free u → d <> sep t ≡ e <> sep u → (d ≡ e) × (t ≡ u)
  split_unique String.[] String.[] t u ft fu h =
      (refl, tail-eq_of_cons-eq (sym (nil-append (sep t)) ∙ h ∙ nil-append (sep u)))
  split_unique String.[] (String.◌∷◌ c e) t u ft fu h = absurd (
      absurd_tail e t u ft
        (tail-eq_of_cons-eq (sym (nil-append (sep t)) ∙ h ∙ cons-append c e (sep u))))
  split_unique (String.◌∷◌ c d) String.[] t u ft fu h = absurd (
      absurd_tail d u t fu
        (tail-eq_of_cons-eq (sym (nil-append (sep u)) ∙ sym h ∙ cons-append c d (sep t))))
  split_unique (String.◌∷◌ c d) (String.◌∷◌ c' e) t u ft fu h =
      let p = sym (cons-append c d (sep t)) ∙ h ∙ cons-append c' e (sep u) in
      let q = split_unique d e t u ft fu (tail-eq_of_cons-eq p) in
      (ap₂ String.◌∷◌ (head-eq_of_cons-eq p) q.0, q.1)

-- An accepted id is the id that the name is made of.
pub named :
    (f : String → String) (t n : String)
    → with_valid_id (validate_transaction_id t) f ≡ ok n
    → (validate_transaction_id t ≡ ok t) × (n ≡ f t)
named f t n h = go (validate_transaction_id t) refl h
  where
    go :
        (r : Outcome String)
        → validate_transaction_id t ≡ r
        → with_valid_id r f ≡ ok n
        → (validate_transaction_id t ≡ ok t) × (n ≡ f t)
    go (ok u) e q = let w = (validated_chars t u e).0 in (cc (e, w), cc (q, w))
    go (raised e) _ q = cc
    go pending _ q = cc

single-append : (k : Char) (t : String) → String.◌∷◌ k String.[] <> t ≡ String.◌∷◌ k t
single-append k t = cons-append k String.[] t ∙ ap (String.◌∷◌ k) (nil-append t)

-- If two transactions, of whatever instances, get the same PAR name under one prefix, then their
-- instances and their ids are the same.
pub par_name-injective :
    (prefix d e t u n : String)
    → par_name prefix d t ≡ ok n
    → par_name prefix e u ≡ ok n
    → (d ≡ e) × (t ≡ u)
unfolding par_name
par_name-injective prefix d e t u n p q =
    let (vt, nt) = named _ t n p in
    let (vu, nu) = named _ u n q in
    let same = append_cancel_left ":" _ _ (append_cancel_left prefix _ _ (sym nt ∙ nu)) in
    split_unique ":" d e t u (validated-all_ne b':' t t colon-not_id_char vt)
      (validated-all_ne b':' u u colon-not_id_char vu)
      (ap (λ x. d <> x) (sym (single-append ":" t)) ∙ same ∙ ap (λ x. e <> x) (single-append ":" u))

-- If two transactions, of whatever instances, get the same object prefix, then their instances and
-- their ids are the same.
object_prefix-injective :
    (d e t u n : String) → object_prefix d t ≡ ok n → object_prefix e u ≡ ok n → (d ≡ e) × (t ≡ u)
unfolding object_prefix
object_prefix-injective d e t u n p q =
    let (vt, nt) = named _ t n p in
    let (vu, nu) = named _ u n q in
    let same = append_cancel_right _ _ "/" (whole d t ∙ sym nt ∙ nu ∙ sym (whole e u)) in
    split_unique "/" d e t u (validated-all_ne b'/' t t slash-not_id_char vt)
      (validated-all_ne b'/' u u slash-not_id_char vu) same
  where
    whole : (x y : String) → (x <> String.◌∷◌ "/" y) <> "/" ≡ x <> ("/" <> (y <> "/"))
    whole x y =
        ap (λ z. (x <> z) <> "/") (sym (single-append "/" y))
        ∙ append_assoc x ("/" <> y) "/"
        ∙ ap (λ z. x <> z) (append_assoc "/" y "/")
