-- ===== src/Factors/Passkeys.antt =====
-- crates/sunbolt-auth/src/passkeys.rs and the calls on passkeys. The random bytes of a challenge are
-- an argument.
use sunbolt.Base.{
  ℕ, ◌+◌, ◌*◌, ◌/◌, ◌%◌, ◌^◌, ◌++◌, true, ◌||◌, none, some, List, [], ◌∷◌, Text, text, text_keys,
  nat_keys, ltb, nat_eq, if◌then◌else◌, Result, ok, err, map, filter, length,
}
use sunbolt.Base.Trim.{trim}
use sunbolt.Base.Numerals.{decimal}
use sunbolt.Base.Dict.{lookup, insert, remove}
use sunbolt.Auth.{
  User, AuthError, invalid_passkey_credential, invalid_passkey_relying_party,
  passkey_challenge_not_found, passkey_credential_unavailable, store_unavailable,
}
use sunbolt.Factors.{
  web_authn, AuthFactorEnrollment, PasskeyCredential, PasskeyRegistrationChallenge,
  PasskeyAuthenticationChallenge, FactorStore, ids_of, push_id, lookup_all, enroll_factor,
  factor_of_user,
}

-- The letter of `ALPHABET` at an index below 64.
abbrev pub letter : ℕ → ℕ
letter n =
    if ltb n 26
    then b'A' + n
    else if ltb n 52
    then b'G' + n
    else if ltb n 62
    then n % 52 + b'0'
    else if nat_eq n 62
    then b'-'
    else b'_'

unfoldable pub base64url_encode : List ℕ → Text
base64url_encode [] = []
base64url_encode (a ∷ []) =
    let chunk = a * 65536 in letter (chunk / 262144 % 64) ∷ letter (chunk / 4096 % 64) ∷ []
base64url_encode (a ∷ b ∷ []) =
    let chunk = a * 65536 + b * 256 in
    letter (chunk / 262144 % 64) ∷ letter (chunk / 4096 % 64) ∷ letter (chunk / 64 % 64) ∷ []
base64url_encode (a ∷ b ∷ c ∷ bytes) =
    let chunk = a * 65536 + b * 256 + c in
    letter (chunk / 262144 % 64)
    ∷ letter (chunk / 4096 % 64)
    ∷ letter (chunk / 64 % 64)
    ∷ letter (chunk % 64)
    ∷ base64url_encode bytes

pub registration_challenge : ℕ → Text → Text → Text → Text → List ℕ → PasskeyRegistrationChallenge
registration_challenge user_id user_email relying_party_id relying_party_name origin bytes =
    record {
      challenge_id =
          text "passkey-registration-" ++ decimal user_id ++ text "-" ++ base64url_encode bytes;
      user_id = user_id;
      user_email = user_email;
      relying_party_id = relying_party_id;
      relying_party_name = relying_party_name;
      origin = origin;
      challenge = base64url_encode bytes;
    }

pub authentication_challenge : ℕ → Text → Text → List Text → List ℕ → PasskeyAuthenticationChallenge
authentication_challenge user_id relying_party_id origin allowed bytes = record {
  challenge_id =
      text "passkey-authentication-" ++ decimal user_id ++ text "-" ++ base64url_encode bytes;
  user_id = user_id;
  relying_party_id = relying_party_id;
  origin = origin;
  challenge = base64url_encode bytes;
  allowed_credential_ids = allowed;
}

pub validate_passkey_relying_party : Text → Text → Result AuthError (Unit {0})
validate_passkey_relying_party relying_party_id origin =
    if nat_eq (length (trim relying_party_id)) 0 || nat_eq (length (trim origin)) 0
    then err invalid_passkey_relying_party
    else ok tt

unfoldable pub begin_passkey_registration :
    User
    → Text
    → Text
    → List ℕ
    → FactorStore
    → Result AuthError PasskeyRegistrationChallenge × FactorStore
begin_passkey_registration user relying_party_id origin bytes s =
    elim (validate_passkey_relying_party relying_party_id origin) [
      | err e ↦ (err e, s)
      | ok _ ↦
          if s.accounts.poisoned
          then (err (store_unavailable (text "passkeys")), s)
          else let challenge =
              registration_challenge user.id user.email relying_party_id (text "Sunbolt") origin
                bytes in
            (
              ok challenge,
              record s {
                passkey_registration_challenges_by_id =
                    insert challenge.challenge_id challenge s.passkey_registration_challenges_by_id;
              },
            )
    ]

unfoldable pub ensure_passkey_factor :
    ℕ → FactorStore → Result AuthError AuthFactorEnrollment × FactorStore
ensure_passkey_factor user_id s = elim (factor_of_user web_authn (text "passkeys") user_id s) [
  | err e ↦ (err e, s)
  | ok none ↦ enroll_factor user_id web_authn (text "Passkeys") s
  | ok (some factor) ↦ (ok factor, s)
]

abbrev pub credential : ℕ → ℕ → Text → Text → Text → PasskeyCredential
credential id user_id credential_id public_key label = record {
  id = id;
  user_id = user_id;
  credential_id = credential_id;
  public_key = public_key;
  label = trim label;
  enabled = true;
}

-- The end of `register_passkey_credential`, once the challenge is found to be the user's.
abbrev pub add_credential : PasskeyCredential → AuthFactorEnrollment → FactorStore → FactorStore
add_credential c factor s = record s {
  passkey_credential_ids_by_user_id = push_id c.user_id c.id s.passkey_credential_ids_by_user_id;
  passkey_credentials_by_id = insert c.id c s.passkey_credentials_by_id;
  auth_factors_by_id = insert factor.id factor s.auth_factors_by_id;
  next_passkey_credential_id = (s.next_passkey_credential_id + 1) % 2 ^ 64;
}

-- The second critical section of `register_passkey_credential`.
unfoldable pub register_with :
    AuthFactorEnrollment
    → ℕ
    → Text
    → Text
    → Text
    → Text
    → FactorStore
    → Result AuthError PasskeyCredential × FactorStore
register_with factor user_id challenge_id credential_id public_key label s =
    if s.accounts.poisoned
    then (err (store_unavailable (text "passkeys")), s)
    else elim (lookup challenge_id s.passkey_registration_challenges_by_id) [
      | none ↦ (err passkey_challenge_not_found, s)
      | some challenge ↦
          let taken = record s {
            passkey_registration_challenges_by_id =
                remove challenge_id s.passkey_registration_challenges_by_id;
          } in
          let c = credential s.next_passkey_credential_id user_id credential_id public_key label in
          if nat_eq challenge.user_id user_id
          then (ok c, add_credential c factor taken)
          else (err passkey_challenge_not_found, taken)
    ]

unfoldable pub register_passkey_credential :
    ℕ → Text → Text → Text → Text → FactorStore → Result AuthError PasskeyCredential × FactorStore
register_passkey_credential user_id challenge_id credential_id public_key label s =
    if nat_eq (length (trim label)) 0
      || nat_eq (length (trim credential_id)) 0
      || nat_eq (length (trim public_key)) 0
    then (err invalid_passkey_credential, s)
    else let (answer, after) = ensure_passkey_factor user_id s in
      elim answer [
        | err e ↦ (err e, after)
        | ok factor ↦ register_with factor user_id challenge_id credential_id public_key label after
      ]

unfoldable pub passkeys_for_user : ℕ → FactorStore → Result AuthError (List PasskeyCredential)
passkeys_for_user user_id s =
    if s.accounts.poisoned
    then err (store_unavailable (text "passkeys"))
    else ok (
        filter (λ c. c.enabled)
          (lookup_all s.passkey_credentials_by_id
            (ids_of user_id s.passkey_credential_ids_by_user_id)))

unfoldable pub begin_passkey_authentication :
    User
    → Text
    → Text
    → List ℕ
    → FactorStore
    → Result AuthError PasskeyAuthenticationChallenge × FactorStore
begin_passkey_authentication user relying_party_id origin bytes s =
    elim (validate_passkey_relying_party relying_party_id origin) [
      | err e ↦ (err e, s)
      | ok _ ↦ elim (passkeys_for_user user.id s) [
        | err e ↦ (err e, s)
        | ok [] ↦ (err passkey_credential_unavailable, s)
        | ok (c ∷ cs) ↦
            let challenge =
              authentication_challenge user.id relying_party_id origin
                (map (λ k. k.credential_id) (c ∷ cs)) bytes in
            (
              ok challenge,
              record s {
                passkey_authentication_challenges_by_id =
                    insert challenge.challenge_id challenge
                      s.passkey_authentication_challenges_by_id;
              },
            )
      ]
    ]
