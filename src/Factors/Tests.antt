-- ===== src/Factors/Tests.antt =====
-- A user gets recovery codes and a passkey.
use sunbolt.Base.{
  Text, ℕ, ◌+◌, ◌≡◌, ◌≢◌, refl, false, true, some, List, [], ◌∷◌, text, text_keys, nat_keys, ok,
  arith,
}
use sunbolt.Base.Dict.{lookup, contains, insert, remove}
use sunbolt.Base.Trim.{trim, trim_start, trim_end}
use sunbolt.Auth.{User, AuthStore, admin}
use sunbolt.Factors.{
  FactorStore, AuthFactorEnrollment, PasskeyRegistrationChallenge, recovery_code, web_authn,
  enroll_factor, enrolled_factors, factor_of_user, ids_of, lookup_all,
}
use sunbolt.Factors.Recovery.{
  hash_recovery_code, generate_recovery_code, code_from, regenerate_recovery_codes,
  generate_recovery_codes, issue_codes, store_recovery_code_records, verify_recovery_code,
  RecoveryCodeBatch,
}
use sunbolt.Factors.Passkeys.{
  base64url_encode, register_passkey_credential, register_with, ensure_passkey_factor, credential,
}
use sunbolt.Factors.Spending.{
  FactorCall, verifies, enrolls, generates, enrolls_totp, changes_accounts, run, spent, unused,
  spent-unused,
}
use sunbolt.Factors.Renewal.{verify_recovery_code-regenerate, verdict, is_among}
use sunbolt.Factors.Encoding.{base64url_decode, base64url_decode-base64url_encode}
use sunbolt.Factors.Outstanding.{challenge_of}
use sunbolt.Factors.Ceremony.{register_passkey_credential-once}

-- A stand-in for SHA-256 and for the lower case of Unicode
abbrev identity : List ℕ → List ℕ
identity bytes = bytes

abbrev ann : User
ann = record { id = 1; email = text "ann@b.c"; role = admin }

abbrev accounts : AuthStore
accounts = record {
  users_by_id = insert 1 (record { user = ann; password_hash = [] }) [];
  user_ids_by_email = [];
  sessions_by_token = [];
  next_user_id = 2;
  poisoned = false;
}

abbrev start : FactorStore
start = record {
  accounts = accounts;
  auth_factors_by_id = [];
  factor_ids_by_user_id = [];
  totp_secrets_by_factor_id = [];
  recovery_codes_by_factor_id = [];
  passkey_credentials_by_id = [];
  passkey_credential_ids_by_user_id = [];
  passkey_registration_challenges_by_id = [];
  passkey_authentication_challenges_by_id = [];
  next_factor_id = 1;
  next_passkey_credential_id = 1;
}

generate_recovery_code_test :
    generate_recovery_code (0 ∷ 1 ∷ 2 ∷ 255 ∷ 4 ∷ 5 ∷ 6 ∷ 7 ∷ 8 ∷ 9 ∷ [])
    ≡ text "000102ff-040506-070809"
unfolding generate_recovery_code code_from
generate_recovery_code_test = refl

base64url_encode_test : base64url_encode (text "sunbolt") ≡ text "c3VuYm9sdA"
unfolding base64url_encode
base64url_encode_test = refl

abbrev coded : FactorStore
coded = (generate_recovery_codes identity identity 1 (text "a" ∷ text "b" ∷ []) start).1

-- The code is used, other calls come between, and it is tried again.
abbrev tries : List FactorCall
tries =
    verifies ann (text "a")
    ∷ enrolls_totp 1 (text "app") (1 ∷ [])
    ∷ changes_accounts accounts
    ∷ verifies ann (text "a")
    ∷ []

abbrev code_a : Text
code_a = hash_recovery_code identity identity (text "a")

spent-unused_example :
    spent identity identity 1 code_a tries coded
      + unused 1 code_a (run identity identity tries coded)
    ≡ unused 1 code_a coded
spent-unused_example =
    spent-unused identity identity 1 code_a tries coded (tt, (tt, (tt, (tt, tt))))

abbrev batch : RecoveryCodeBatch
batch = record {
  factor = record {
    id = 1;
    user_id = 1;
    factor_type = recovery_code;
    label = text "Recovery codes";
    enabled = true;
  };
  codes = text "c" ∷ [];
}

no_code_factor :
    (factor : AuthFactorEnrollment)
    → factor_of_user recovery_code (text "recovery-codes") 1 start ≡ ok (some factor)
    → factor.id ≢ 0
unfolding factor_of_user enrolled_factors ids_of lookup_all lookup
no_code_factor factor found = ground (arith, found)

regenerated : (regenerate_recovery_codes identity identity 1 (text "c" ∷ []) start).0 ≡ ok batch
unfolding regenerate_recovery_codes generate_recovery_codes issue_codes store_recovery_code_records
    factor_of_user enrolled_factors ids_of lookup_all lookup insert remove enroll_factor trim
    trim_start trim_end contains
regenerated = refl

verify_recovery_code-regenerate_example :
    (verify_recovery_code identity identity ann
      (text "a")
      (regenerate_recovery_codes identity identity 1 (text "c" ∷ []) start).1).0
    ≡ verdict identity identity ann (is_among identity identity (text "a") (text "c" ∷ []))
verify_recovery_code-regenerate_example =
    verify_recovery_code-regenerate identity identity ann (text "a") (text "c" ∷ []) start batch
      no_code_factor regenerated

base64url_decode-base64url_encode_example :
    base64url_decode (base64url_encode (1 ∷ 250 ∷ 3 ∷ 255 ∷ [])) ≡ 1 ∷ 250 ∷ 3 ∷ 255 ∷ []
base64url_decode-base64url_encode_example =
    base64url_decode-base64url_encode (1 ∷ 250 ∷ 3 ∷ 255 ∷ [])
      (omega arith, (omega arith, (omega arith, (omega arith, tt))))

abbrev begun_challenge : PasskeyRegistrationChallenge
begun_challenge = record {
  challenge_id = text "q";
  user_id = 1;
  user_email = text "ann@b.c";
  relying_party_id = text "r";
  relying_party_name = text "Sunbolt";
  origin = text "o";
  challenge = [];
}

abbrev begun : FactorStore
begun = record start {
  passkey_registration_challenges_by_id = insert (text "q") begun_challenge [];
}

registered :
    (register_passkey_credential 1 (text "q") (text "k") (text "p") (text "l") begun).0
    ≡ ok (credential 1 1 (text "k") (text "p") (text "l"))
unfolding register_passkey_credential register_with ensure_passkey_factor factor_of_user
    enrolled_factors ids_of lookup_all lookup insert remove enroll_factor trim trim_start trim_end
    contains
registered = refl

abbrev after_registration : FactorStore
after_registration =
    (register_passkey_credential 1 (text "q") (text "k") (text "p") (text "l") begun).1

register_passkey_credential-once_example :
    ((ch : PasskeyRegistrationChallenge) × (challenge_of (text "q") begun ≡ some ch)
      × (ch.user_id ≡ 1))
    × ((register_passkey_credential 1 (text "q") (text "k") (text "p") (text "l") (
          run identity identity
            (generates 1 (text "z" ∷ []) ∷ enrolls 1 web_authn (text "x") ∷ [])
            after_registration)).0
        ≢ ok (credential 2 1 (text "k") (text "p") (text "l")))
register_passkey_credential-once_example =
    register_passkey_credential-once identity identity 1 1 (text "q") (text "k") (text "p")
      (text "l") (text "k") (text "p") (text "l") begun
      (credential 1 1 (text "k") (text "p") (text "l"))
      (credential 2 1 (text "k") (text "p") (text "l"))
      (generates 1 (text "z" ∷ []) ∷ enrolls 1 web_authn (text "x") ∷ []) registered (tt, (tt, tt))
