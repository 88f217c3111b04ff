-- ===== src/RepositoryPolicy/Bytes.antt =====
-- The bytes of a text and of a shebang, said without the tests of them.
use oci_iot_samples.Base.{ℕ, zero, suc, ◌≤◌, ◌<◌, ◌⊎◌, ◌≡◌, ◌↔◌, true, false, List, [], ◌∷◌, arith}
use oci_iot_samples.RepositoryPolicy.{is_text_byte, any_binary, has_shebang}

-- A byte of a text: from BEL to CR, ESC, or from the space on.
abbrev pub IsTextByte : ℕ → Type 0
IsTextByte b = ((7 ≤ b) × (b ≤ 13)) ⊎ ((b ≡ 27) ⊎ ((32 ≤ b) × (b < 256)))

is_text_byte_iff : (b : ℕ) → (is_text_byte b ≡ true) ↔ IsTextByte b
unfolding is_text_byte
is_text_byte_iff b = ground arith

-- The first n bytes are those of a text.
abbrev pub TextUpTo : ℕ → List ℕ → Type 0
TextUpTo zero content = Unit
TextUpTo (suc n) [] = Unit
TextUpTo (suc n) (b ∷ content) = IsTextByte b × TextUpTo n content

any_binary-cons :
    (n : ℕ) (b : ℕ) (content : List ℕ)
    → (any_binary (suc n) (b ∷ content) ≡ false)
      ↔ ((is_text_byte b ≡ true) × (any_binary n content ≡ false))
unfolding any_binary
any_binary-cons n b content = ground arith

pub any_binary_iff :
    (n : ℕ) (content : List ℕ) → (any_binary n content ≡ false) ↔ TextUpTo n content
unfolding any_binary
any_binary_iff zero content = ground arith
any_binary_iff (suc n) [] = ground arith
any_binary_iff (suc n) (b ∷ content) =
    let head = is_text_byte_iff b in
    let rest = any_binary_iff n content in
    let both = any_binary-cons n b content in
    (λ h. let (x, y) = both.0 h in (head.0 x, rest.0 y), λ (x, y). both.1 (head.1 x, rest.1 y))

-- "#!" and any rest.
abbrev pub BeginsWithShebang : List ℕ → Type 0
BeginsWithShebang content = (rest : List ℕ) × (content ≡ b'#' ∷ b'!' ∷ rest)

pub has_shebang_iff : (content : List ℕ) → (has_shebang content ≡ true) ↔ BeginsWithShebang content
unfolding has_shebang
has_shebang_iff [] = ((λ h. cc), (λ (rest, e). cc))
has_shebang_iff (a ∷ []) = ((λ h. cc), (λ (rest, e). cc))
has_shebang_iff (a ∷ b ∷ content) = (
  λ h.
      let first : a ≡ b'#' = ground (arith, h) in
      let second : b ≡ b'!' = ground (arith, h) in (content, cc (first, second)),
  λ (rest, e).
      let first : a ≡ b'#' = cc (e) in
      let second : b ≡ b'!' = cc (e) in ground (arith, first, second),
)
