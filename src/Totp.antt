-- ===== src/Totp.antt =====
-- crates/sunbolt-auth/src/totp.rs and the calls on codes of crates/sunbolt-auth/src/lib.rs. SHA-256,
-- whose digests have 32 bytes, the random secret and the clocks are arguments. A factor has at most
-- nine digits, so that `10_u32.pow` does not overflow.
use sunbolt.Base.{
  ℕ, zero, suc, ◌+◌, ◌-◌, ◌*◌, ◌/◌, ◌%◌, ◌^◌, ◌++◌, max, Bool, false, not, ◌&&◌, ◌||◌, List, [],
  ◌∷◌, Text, text, nat_keys, ltb, leb, nat_eq, if◌then◌else◌, length,
}
use sunbolt.Base.Numerals.{decimal}
use sunbolt.Factors.{FactorType, totp, recovery_code, admin_approval, AuthFactorEnrollment}
use sunbolt.Totp.Bits.{xor_byte, or_byte}
pub mod Bits
pub mod Codes
mod Tests
pub mod Window
pub mod Comparison

pub record TotpConfig : Type 0 where
  pub issuer : Text
  pub digits : ℕ
  pub period_secs : ℕ
  pub skew_steps : ℕ

abbrev pub default_config : TotpConfig
default_config = record { issuer = text "Sunbolt"; digits = 6; period_secs = 30; skew_steps = 1 }

pub record TotpFactor : Type 0 where
  pub secret : List ℕ
  pub config : TotpConfig

pub record TotpEnrollment : Type 0 where
  pub factor : AuthFactorEnrollment
  pub secret_base32 : Text
  pub provisioning_uri : Text
  pub qr_code_payload : Text

pub record TotpRecoveryPath : Type 0 where
  pub user_id : ℕ
  pub fallback_factors : List FactorType
  pub message : Text

-- A list of a length.
unfoldable pub repeat : ℕ → ℕ → List ℕ
repeat x zero = []
repeat x (suc n) = x ∷ repeat x n

-- The loop of `constant_time_eq`
unfoldable pub difference : ℕ → List ℕ → List ℕ → ℕ
difference diff (a ∷ left) (b ∷ right) = difference (or_byte diff (xor_byte a b)) left right
difference diff [] right = diff
difference diff (a ∷ left) [] = diff

unfoldable pub constant_time_eq : List ℕ → List ℕ → Bool
constant_time_eq left right =
    if not (nat_eq (length left) (length right)) then false else nat_eq (difference 0 left right) 0

-- `format!("{:0width$}")`
unfoldable pub zero_padded : ℕ → ℕ → Text
zero_padded width n = repeat b'0' (width - length (decimal n)) ++ decimal n

-- The numbers from `low` on, `n` of them.
unfoldable pub span : ℕ → ℕ → List ℕ
span low zero = []
span low (suc n) = low ∷ span (low + 1) n

abbrev pub u64_max : ℕ
u64_max = 18446744073709551615

abbrev pub is_unreserved : ℕ → Bool
is_unreserved b =
    (leb b'A' b && leb b b'Z')
    || (leb b'a' b && leb b b'z')
    || (leb b'0' b && leb b b'9')
    || nat_eq b b'-'
    || nat_eq b b'_'
    || nat_eq b b'.'
    || nat_eq b b'~'

abbrev pub upper_hex_digit : ℕ → ℕ
upper_hex_digit n = if ltb n 10 then b'0' + n else b'7' + n

unfoldable pub url_encode : Text → Text
url_encode [] = []
url_encode (b ∷ t) =
    let rest = url_encode t in
    if is_unreserved b
    then b ∷ rest
    else b'%' ∷ upper_hex_digit (b / 16) ∷ upper_hex_digit (b % 16) ∷ rest

abbrev pub base32_letter : ℕ → ℕ
base32_letter n = if ltb n 26 then b'A' + n else n % 26 + b'2'

-- The inner loop of `base32_encode`, with the letters that are left for the end.
unfoldable pub drain : ℕ → ℕ → ℕ → Text × ℕ
drain zero buffer bits_left = ([], bits_left)
drain (suc fuel) buffer bits_left =
    let (letters, left) = drain fuel buffer (bits_left - 5) in
    if leb 5 bits_left
    then (base32_letter (buffer / 2 ^ (bits_left - 5) % 32) ∷ letters, left)
    else ([], bits_left)

unfoldable pub base32_from : ℕ → ℕ → List ℕ → Text
base32_from buffer bits_left [] =
    if ltb 0 bits_left then base32_letter (buffer * 2 ^ (5 - bits_left) % 2 ^ 32 % 32) ∷ [] else []
base32_from buffer bits_left (byte ∷ bytes) =
    let filled = buffer * 256 % 2 ^ 32 + byte in
    let (letters, left) = drain 3 filled (bits_left + 8) in letters ++ base32_from filled left bytes

unfoldable pub base32_encode : List ℕ → Text
base32_encode bytes = base32_from 0 0 bytes

pub provisioning_uri : TotpConfig → Text → List ℕ → Text
provisioning_uri config account_name secret =
    text "otpauth://totp/"
    ++ url_encode config.issuer
    ++ text ":"
    ++ url_encode account_name
    ++ text "?secret="
    ++ base32_encode secret
    ++ text "&issuer="
    ++ url_encode config.issuer
    ++ text "&algorithm=SHA256&digits="
    ++ decimal config.digits
    ++ text "&period="
    ++ decimal (max config.period_secs 1)

pub build_totp_enrollment : AuthFactorEnrollment → Text → TotpConfig → List ℕ → TotpEnrollment
build_totp_enrollment factor user_email config secret = record {
  factor = factor;
  secret_base32 = base32_encode secret;
  provisioning_uri = provisioning_uri config user_email secret;
  qr_code_payload = provisioning_uri config user_email secret;
}

pub default_totp_recovery_path : ℕ → TotpRecoveryPath
default_totp_recovery_path user_id = record {
  user_id = user_id;
  fallback_factors = recovery_code ∷ admin_approval ∷ [];
  message = text "Use a recovery code or contact an administrator to regain access";
}
