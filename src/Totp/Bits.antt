-- ===== src/Totp/Bits.antt =====
-- Bytes and their bits, as HMAC and the comparison of codes use them.
use sunbolt.Base.{
  ℕ, zero, suc, ◌+◌, ◌*◌, ◌/◌, ◌%◌, ◌^◌, ◌<◌, max, ◌≡◌, ◌↔◌, refl, List, [], ◌∷◌, arith,
}

-- Exclusive or of the lowest bits of two numbers.
unfoldable pub xor_bits : ℕ → ℕ → ℕ → ℕ
xor_bits zero a b = 0
xor_bits (suc width) a b = (a % 2 + b % 2) % 2 + 2 * xor_bits width (a / 2) (b / 2)

unfoldable pub or_bits : ℕ → ℕ → ℕ → ℕ
or_bits zero a b = 0
or_bits (suc width) a b = max (a % 2) (b % 2) + 2 * or_bits width (a / 2) (b / 2)

unfoldable pub xor_byte : ℕ → ℕ → ℕ
xor_byte a b = xor_bits 8 a b

unfoldable pub or_byte : ℕ → ℕ → ℕ
or_byte a b = or_bits 8 a b

-- `u64::to_be_bytes`
abbrev pub to_be_bytes : ℕ → List ℕ
to_be_bytes n =
    n / 2 ^ 56 % 256
    ∷ n / 2 ^ 48 % 256
    ∷ n / 2 ^ 40 % 256
    ∷ n / 2 ^ 32 % 256
    ∷ n / 2 ^ 24 % 256
    ∷ n / 2 ^ 16 % 256
    ∷ n / 2 ^ 8 % 256
    ∷ n % 256
    ∷ []

-- An element of a slice; an index that is out of range, where the source panics, reads 0.
unfoldable pub byte_at : List ℕ → ℕ → ℕ
byte_at [] i = 0
byte_at (x ∷ xs) zero = x
byte_at (x ∷ xs) (suc i) = byte_at xs i

pub xor_bits_iff :
    (width a b : ℕ) → a < 2 ^ width → b < 2 ^ width → (xor_bits width a b ≡ 0) ↔ (a ≡ b)
unfolding xor_bits
xor_bits_iff zero a b ha hb = (λ _. omega arith, λ _. refl)
xor_bits_iff (suc width) a b ha hb =
    ground (arith, xor_bits_iff width (a / 2) (b / 2) (omega arith) (omega arith))

pub or_bits_iff :
    (width a b : ℕ) → a < 2 ^ width → b < 2 ^ width → (or_bits width a b ≡ 0) ↔ ((a ≡ 0) × (b ≡ 0))
unfolding or_bits
or_bits_iff zero a b ha hb = (λ _. (omega arith, omega arith), λ _. refl)
or_bits_iff (suc width) a b ha hb =
    ground (arith, or_bits_iff width (a / 2) (b / 2) (omega arith) (omega arith))

pub or_bits_bound : (width a b : ℕ) → or_bits width a b < 2 ^ width
unfolding or_bits
or_bits_bound zero a b = omega arith
or_bits_bound (suc width) a b = omega (arith, or_bits_bound width (a / 2) (b / 2))

pub xor_bits_bound : (width a b : ℕ) → xor_bits width a b < 2 ^ width
unfolding xor_bits
xor_bits_bound zero a b = omega arith
xor_bits_bound (suc width) a b = omega (arith, xor_bits_bound width (a / 2) (b / 2))
