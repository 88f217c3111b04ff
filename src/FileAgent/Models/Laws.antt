-- ===== src/FileAgent/Models/Laws.antt =====
-- What an accepted transaction id cannot hold.
use oci_iot_samples.Base.{
  ℕ, String, ◌≡◌, refl, Bool, true, false, not, arith, eqb, all_chars, text_length, code, ◌≤◌,
}
use oci_iot_samples.Base.Exec.{ok}
use oci_iot_samples.FileAgent.Models.{
  validate_transaction_id, is_id_char, matches_transaction_id_pattern, is_alphanumeric,
}

pub all_chars_mono :
    (p q : ℕ → Bool)
    → ((c : ℕ) → p c ≡ true → q c ≡ true)
    → (s : String) → all_chars p s ≡ true
    → all_chars q s ≡ true
unfolding all_chars
all_chars_mono p q h String.[] e = e
all_chars_mono p q h (String.◌∷◌ c s) e = ground (arith, h (code c), all_chars_mono p q h s)

alphanumeric-id_char : (c : ℕ) → is_alphanumeric c ≡ true → is_id_char c ≡ true
unfolding is_id_char
alphanumeric-id_char c h = ground arith

pattern-all_id_chars :
    (t : String) → matches_transaction_id_pattern t ≡ true → all_chars is_id_char t ≡ true
unfolding matches_transaction_id_pattern all_chars
pattern-all_id_chars String.[] h = cc
pattern-all_id_chars (String.◌∷◌ c s) h = ground (arith, alphanumeric-id_char (code c))

id_char-ne : (k c : ℕ) → is_id_char k ≡ false → is_id_char c ≡ true → not (eqb c k) ≡ true
id_char-ne k c h e = ground arith

-- An accepted id is returned unchanged, has 1 to 128 characters, and consists of characters of ids.
pub validated_chars :
    (t u : String)
    → validate_transaction_id t ≡ ok u
    → (u ≡ t) × (1 ≤ text_length t) × (text_length t ≤ 128) × (all_chars is_id_char t ≡ true)
unfolding validate_transaction_id
validated_chars t u h = ground (arith, pattern-all_id_chars t)

-- No character that ids cannot have stands in an accepted id.
pub validated-all_ne :
    (k : ℕ) (t u : String)
    → is_id_char k ≡ false
    → validate_transaction_id t ≡ ok u
    → all_chars (λ c. not (eqb c k)) t ≡ true
validated-all_ne k t u h e =
    all_chars_mono is_id_char _ (λ c. id_char-ne k c h) t (validated_chars t u e).3

pub colon-not_id_char : is_id_char b':' ≡ false
unfolding is_id_char
colon-not_id_char = refl

pub slash-not_id_char : is_id_char b'/' ≡ false
unfolding is_id_char
slash-not_id_char = refl
