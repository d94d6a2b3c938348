-- ===== src/Totp/Tests.antt =====
-- A user's authenticator shows a code.
use sunbolt.Base.{
  ℕ, ◌≡◌, ◌↔◌, refl, false, true, some, List, [], ◌∷◌, text, nat_keys, ok, All, arith,
}
use sunbolt.Base.Dict.{insert}
use sunbolt.Base.Trim.{trim, trim_start, trim_end}
use sunbolt.Auth.{User, AuthStore, admin}
use sunbolt.Factors.{FactorStore, totp, enrolled_factors}
use sunbolt.Factors.Challenges.{terminal_step_up}
use sunbolt.Totp.{url_encode, base32_encode, base32_from, drain, repeat}
use sunbolt.Totp.Codes.{secret_among, verify_totp_code}
use sunbolt.Totp.Comparison.{IsByte}
use sunbolt.Totp.Window.{IsCurrent, verify_totp_code_iff}

base32_encode_test : base32_encode (text "foo") ≡ text "MZXW6"
unfolding base32_encode base32_from drain
base32_encode_test = refl

url_encode_test : url_encode (text "a@b.c") ≡ text "a%40b.c"
unfolding url_encode
url_encode_test = refl

-- A stand-in for SHA-256
abbrev zeros : List ℕ → List ℕ
zeros _ = repeat 0 32

abbrev ann : User
ann = record { id = 1; email = text "ann@b.c"; role = admin }

abbrev accounts : AuthStore
accounts = record {
  users_by_id = insert 1 (record { user = ann; password_hash = [] }) [];
  user_ids_by_email = [];
  sessions_by_token = [];
  next_user_id = 2;
  poisoned = false;
}

abbrev store : FactorStore
store = record {
  accounts = accounts;
  auth_factors_by_id =
      insert 1
        (record { id = 1; user_id = 1; factor_type = totp; label = text "phone"; enabled = true })
        [];
  factor_ids_by_user_id = insert 1 (1 ∷ []) [];
  totp_secrets_by_factor_id = insert 1 (text "s") [];
  recovery_codes_by_factor_id = [];
  passkey_credentials_by_id = [];
  passkey_credential_ids_by_user_id = [];
  passkey_registration_challenges_by_id = [];
  passkey_authentication_challenges_by_id = [];
  next_factor_id = 2;
  next_passkey_credential_id = 1;
}

code_IsByte : All IsByte (trim (text " 000000"))
unfolding trim trim_start trim_end
code_IsByte =
    (omega arith, (omega arith, (omega arith, (omega arith, (omega arith, (omega arith, tt))))))

verify_totp_code_iff_example :
    (verify_totp_code zeros ann terminal_step_up (text " 000000") 58 59 store
      ≡ ok (record { user_id = 1; factor_type = totp; verified = true }))
    ↔ ((secret : List ℕ) × (secret_among store (enrolled_factors 1 store) ≡ some secret)
        × (k : ℕ) × IsCurrent zeros secret (trim (text " 000000")) 59 k)
verify_totp_code_iff_example =
    verify_totp_code_iff zeros ann terminal_step_up (text " 000000") 58 59 store refl (omega arith)
      code_IsByte
