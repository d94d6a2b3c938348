-- ===== src/Totp/Comparison.antt =====
-- The comparison in constant time is equality of texts.
use sunbolt.Base.{
  ℕ, zero, suc, ◌+◌, ◌-◌, ◌/◌, ◌%◌, ◌++◌, ◌<◌, ◌≤◌, ◌≡◌, ◌↔◌, refl, ap, subst, ◌≢◌, Bool, true,
  List, [], ◌∷◌, Text, ltb, nat_eq, nat_eq_iff, All, length, any, arith, Bool-cases, inl, inr,
}
use sunbolt.Base.Numerals.{decimal, digits_from}
use sunbolt.Totp.{difference, constant_time_eq, repeat, zero_padded, span}
use sunbolt.Totp.Bits.{
  xor_byte, or_byte, xor_bits, xor_bits_iff, or_bits_iff, xor_bits_bound, or_bits_bound,
}

abbrev pub IsByte : ℕ → Type 0
IsByte b = b < 256

or_xor_iff :
    (diff a b : ℕ)
    → diff < 256
    → a < 256
    → b < 256
    → (or_byte diff (xor_byte a b) ≡ 0) ↔ ((diff ≡ 0) × (a ≡ b))
unfolding or_byte xor_byte
or_xor_iff diff a b hd ha hb =
    ground (
      arith,
      xor_bits_iff 8 a b ha hb,
      or_bits_iff 8 diff (xor_bits 8 a b) hd (xor_bits_bound 8 a b),
    )

or_byte_bound : (a b : ℕ) → or_byte a b < 256
unfolding or_byte
or_byte_bound a b = or_bits_bound 8 a b

difference_iff :
    (diff : ℕ) (left right : List ℕ)
    → diff < 256
    → All IsByte left
    → All IsByte right
    → length left ≡ length right
    → (difference diff left right ≡ 0) ↔ ((diff ≡ 0) × (left ≡ right))
unfolding difference
difference_iff diff [] [] hd hl hr same = (λ q. (q, refl), λ q. q.0)
difference_iff diff [] (b ∷ right) hd hl hr same = absurd (omega arith)
difference_iff diff (a ∷ left) [] hd hl hr same = absurd (omega arith)
difference_iff diff (a ∷ left) (b ∷ right) hd hl hr same = ground (
  arith,
  or_xor_iff diff a b hd hl.0 hr.0,
  difference_iff (or_byte diff (xor_byte a b)) left right (or_byte_bound diff (xor_byte a b)) hl.1
      hr.1 (omega arith),
)

pub constant_time_eq_iff :
    (left right : List ℕ)
    → All IsByte left
    → All IsByte right
    → (constant_time_eq left right ≡ true) ↔ (left ≡ right)
unfolding constant_time_eq
constant_time_eq_iff left right hl hr = elim (Bool-cases (nat_eq (length left) (length right))) [
  | inl same ↦
      let lengths = (nat_eq_iff (length left) (length right)).0 same in
      ground (
        arith,
        same,
        nat_eq_iff (difference 0 left right) 0,
        difference_iff 0 left right (omega arith) hl hr lengths,
      )
  | inr other ↦ (
    λ q. ground (arith, other),
    λ q. absurd (ground (arith, other, nat_eq_iff (length left) (length right), ap length q)),
  )
]

-- Printed numbers are bytes.
digits_from-IsByte :
    (fuel n : ℕ) (acc : Text) → All IsByte acc → All IsByte (digits_from fuel n acc)
unfolding digits_from
digits_from-IsByte zero n acc h = h
digits_from-IsByte (suc fuel) n acc h = elim (Bool-cases (ltb n 10)) [
  | inl low ↦ rw low (ground (arith, low), h)
  | inr high ↦ rw high (digits_from-IsByte fuel (n / 10) ((b'0' + n % 10) ∷ acc) (omega arith, h))
]

All-repeat : (n : ℕ) (t : Text) → All IsByte t → All IsByte (repeat b'0' n ++ t)
unfolding repeat
All-repeat zero t h = h
All-repeat (suc n) t h = (omega arith, All-repeat n t h)

pub zero_padded-IsByte : (width n : ℕ) → All IsByte (zero_padded width n)
unfolding zero_padded decimal
zero_padded-IsByte width n =
    All-repeat (width - length (decimal n)) (decimal n) (digits_from-IsByte 20 n [] tt)

-- What a test finds in a span of numbers.
pub any-span :
    (p : ℕ → Bool) (low n : ℕ)
    → (any p (span low n) ≡ true) ↔ ((k : ℕ) × (low ≤ k) × (k < low + n) × (p k ≡ true))
unfolding span
any-span p low zero = (λ q. cc, λ q. absurd (omega (arith, q.1, q.2)))
any-span p low (suc n) = elim (Bool-cases (p low)) [
  | inl hit ↦ (λ _. (low, omega arith, omega arith, hit), λ _. ground (arith, hit))
  | inr miss ↦ (
    λ q.
        let (k, above, below, hit) = (any-span p (low + 1) n).0 (ground (arith, miss)) in
        (k, omega arith, omega arith, hit),
    λ q.
        let (k, above, below, hit) = q in
        let apart : k ≢ low = λ same. absurd (ground (arith, subst (λ j. p j ≡ true) same hit)) in
        let later = (any-span p (low + 1) n).1 (k, omega arith, omega arith, hit) in
        ground (arith, miss, later),
  )
]
