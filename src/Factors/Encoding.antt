-- ===== src/Factors/Encoding.antt =====
-- The random text of a passkey challenge keeps all of its bytes.
use sunbolt.Base.{
  ℕ, ◌+◌, ◌-◌, ◌*◌, ◌/◌, ◌%◌, ◌<◌, ◌≡◌, refl, ◌&&◌, List, [], ◌∷◌, Text, leb, nat_eq, if◌then◌else◌,
  All, ap, ap₂, arith,
}
use sunbolt.Factors.Passkeys.{letter, base64url_encode}

-- The place of a letter in the alphabet.
abbrev pub place : ℕ → ℕ
place c =
    if leb b'a' c && leb c b'z'
    then c - b'G'
    else if leb b'A' c && leb c b'Z'
    then c - b'A'
    else if leb b'0' c && leb c b'9'
    then c + 4
    else if nat_eq c b'-'
    then 62
    else 63

-- Base 64 without padding, as RFC 4648 reads it.
unfoldable pub base64url_decode : Text → List ℕ
base64url_decode (a ∷ b ∷ c ∷ d ∷ t) =
    (place a * 4 + place b / 16)
    ∷ (place b % 16 * 16 + place c / 4)
    ∷ (place c % 4 * 64 + place d)
    ∷ base64url_decode t
base64url_decode (a ∷ b ∷ c ∷ []) =
    (place a * 4 + place b / 16) ∷ (place b % 16 * 16 + place c / 4) ∷ []
base64url_decode (a ∷ b ∷ []) = (place a * 4 + place b / 16) ∷ []
base64url_decode (a ∷ []) = []
base64url_decode [] = []

place-letter : (n : ℕ) → n < 64 → place (letter n) ≡ n
place-letter n h = ground arith

-- A number of 24 bits is the three bytes of its four groups of six bits.
first_byte :
    (a b c : ℕ)
    → a < 256
    → b < 256
    → c < 256
    → (a * 65536 + b * 256 + c) / 262144 % 64 * 4 + (a * 65536 + b * 256 + c) / 4096 % 64 / 16 ≡ a
first_byte a b c ha hb hc = omega arith

second_byte :
    (a b c : ℕ)
    → a < 256
    → b < 256
    → c < 256
    → (a * 65536 + b * 256 + c) / 4096 % 64 % 16 * 16 + (a * 65536 + b * 256 + c) / 64 % 64 / 4 ≡ b
second_byte a b c ha hb hc = omega arith

third_byte :
    (a b c : ℕ)
    → c < 256
    → (a * 65536 + b * 256 + c) / 64 % 64 % 4 * 64 + (a * 65536 + b * 256 + c) % 64 ≡ c
third_byte a b c hc = omega arith

below_64 : (n : ℕ) → n % 64 < 64
below_64 n = omega arith

-- The six bits of a chunk above the place of `d`.
six_bits : (n d : ℕ) → place (letter (n / d % 64)) ≡ n / d % 64
six_bits n d = place-letter (n / d % 64) (below_64 (n / d))

-- Every list of bytes is read back from its base 64 text, so challenges of different random bytes
-- are different texts.
pub base64url_decode-base64url_encode :
    (bytes : List ℕ) → All (λ b. b < 256) bytes → base64url_decode (base64url_encode bytes) ≡ bytes
unfolding base64url_decode base64url_encode
base64url_decode-base64url_encode [] h = refl
base64url_decode-base64url_encode (a ∷ []) h =
    rw (six_bits (a * 65536) 262144, six_bits (a * 65536) 4096)
      (ap (λ x. x ∷ []) (omega (arith, h.0)))
base64url_decode-base64url_encode (a ∷ b ∷ []) h =
    let n = a * 65536 + b * 256 in
    rw (six_bits n 262144, six_bits n 4096, six_bits n 64)
      (ap₂ (λ x y. x ∷ y ∷ []) (omega (arith, h.0, h.1.0)) (omega (arith, h.0, h.1.0)))
base64url_decode-base64url_encode (a ∷ b ∷ c ∷ bytes) h =
    let n = a * 65536 + b * 256 + c in
    rw (six_bits n 262144, six_bits n 4096, six_bits n 64, place-letter (n % 64) (below_64 n))
      (ap₂ (λ x t. x ∷ t) (first_byte a b c h.0 h.1.0 h.1.1.0)
        (ap₂ (λ x t. x ∷ t) (second_byte a b c h.0 h.1.0 h.1.1.0)
          (ap₂ (λ x t. x ∷ t) (third_byte a b c h.1.1.0)
            (base64url_decode-base64url_encode bytes h.1.1.1))))
