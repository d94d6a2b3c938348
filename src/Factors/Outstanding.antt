-- ===== src/Factors/Outstanding.antt =====
-- What the calls of the auth service leave of the passkey registration challenges.
use sunbolt.Base.{
  ℕ, ◌≡◌, ◌≢◌, ◌∙◌, none, Option, List, [], ◌∷◌, Text, text_keys, nat_keys, text, text_eq_iff, All,
  inl, inr, Option-cases, Result-cases, arith, find,
}
use sunbolt.Base.Dict.{lookup, lookup-insert, lookup-remove}
use sunbolt.Factors.{
  AuthFactorEnrollment, PasskeyRegistrationChallenge, FactorStore, enroll_factor, FactorType,
  recovery_code, totp, is_enabled_as, enrolled_factors, factor_of_user,
}
use sunbolt.Factors.Recovery.{
  verify_recovery_code, use_code, generate_recovery_codes, regenerate_recovery_codes, issue_codes,
  store_recovery_code_records, recovery_code_factor_label,
}
use sunbolt.Totp.Codes.{enroll_totp_factor_with_secret}
use sunbolt.Factors.Passkeys.{
  registration_challenge, begin_passkey_registration, begin_passkey_authentication,
  ensure_passkey_factor, register_with, register_passkey_credential,
}
use sunbolt.Factors.Spending.{
  FactorCall, changes_accounts, generates, regenerates, enrolls_totp, verifies, enrolls,
  begins_registration, registers, begins_authentication, step, run,
}

abbrev pub challenge_of : Text → FactorStore → Option PasskeyRegistrationChallenge
challenge_of challenge_id s = lookup challenge_id s.passkey_registration_challenges_by_id

-- A call that begins no registration under that id.
abbrev pub NamesOther : Text → FactorCall → Type 0
NamesOther id (begins_registration user relying_party_id origin bytes) =
    (registration_challenge user.id user.email relying_party_id (text "Sunbolt") origin
      bytes).challenge_id
    ≢ id
NamesOther id _ = Unit {0}

-- The factor that a passkey belongs to leaves the challenges as they are.
pub ensure_passkey_factor-challenges :
    (user_id : ℕ) (id : Text) (s : FactorStore)
    → challenge_of id (ensure_passkey_factor user_id s).1 ≡ challenge_of id s
unfolding ensure_passkey_factor enroll_factor
ensure_passkey_factor-challenges user_id id s = ground arith

-- Neither do the calls that make recovery codes, nor the enrolment of an authenticator app.
enroll_factor-challenges :
    (user_id : ℕ) (kind : FactorType) (label id : Text) (s : FactorStore)
    → challenge_of id (enroll_factor user_id kind label s).1 ≡ challenge_of id s
unfolding enroll_factor
enroll_factor-challenges user_id kind label id s = ground arith

enroll_totp_factor_with_secret-challenges :
    (user_id : ℕ) (label : Text) (secret : List ℕ) (id : Text) (s : FactorStore)
    → challenge_of id (enroll_totp_factor_with_secret user_id label secret s).1 ≡ challenge_of id s
unfolding enroll_totp_factor_with_secret
enroll_totp_factor_with_secret-challenges user_id label secret id s =
    let enrolled = enroll_factor-challenges user_id totp label id s in
    elim (Result-cases (enroll_factor user_id totp label s).0) [
      | inl (factor, found) ↦ ground (arith, found, enrolled)
      | inr (e, failed) ↦ ground (arith, failed, enrolled)
    ]

module _ (digest : List ℕ → List ℕ) (to_lowercase : Text → Text) where
  issue_codes-challenges :
      (factor : AuthFactorEnrollment) (codes : List Text) (id : Text) (s : FactorStore)
      → challenge_of id (issue_codes digest to_lowercase factor codes s).1 ≡ challenge_of id s
  unfolding issue_codes store_recovery_code_records
  issue_codes-challenges factor codes id s = ground arith

  generate_recovery_codes-challenges :
      (user_id : ℕ) (codes : List Text) (id : Text) (s : FactorStore)
      → challenge_of id (generate_recovery_codes digest to_lowercase user_id codes s).1
        ≡ challenge_of id s
  unfolding generate_recovery_codes
  generate_recovery_codes-challenges user_id codes id s =
      let entry = enroll_factor user_id recovery_code recovery_code_factor_label s in
      let enrolled =
        enroll_factor-challenges user_id recovery_code recovery_code_factor_label id s in
      elim (Result-cases entry.0) [
        | inl (factor, found) ↦
            ground (arith, found, enrolled, issue_codes-challenges factor codes id entry.1)
        | inr (e, failed) ↦ ground (arith, failed, enrolled)
      ]

  regenerate_recovery_codes-challenges :
      (user_id : ℕ) (codes : List Text) (id : Text) (s : FactorStore)
      → challenge_of id (regenerate_recovery_codes digest to_lowercase user_id codes s).1
        ≡ challenge_of id s
  unfolding regenerate_recovery_codes factor_of_user
  regenerate_recovery_codes-challenges user_id codes id s =
      let made = generate_recovery_codes-challenges user_id codes id s in
      elim (Option-cases (find (is_enabled_as recovery_code) (enrolled_factors user_id s))) [
        | inl none' ↦ ground (arith, none', made)
        | inr (factor, found) ↦
            ground (arith, found, made, issue_codes-challenges factor codes id s)
      ]

register_with-challenges :
    (factor : AuthFactorEnrollment) (user_id : ℕ) (id other credential_id public_key label : Text)
    (s : FactorStore)
    → challenge_of id s ≡ none
    → challenge_of id (register_with factor user_id other credential_id public_key label s).1 ≡ none
unfolding register_with
register_with-challenges factor user_id id other credential_id public_key label s gone =
    ground (arith, gone, lookup-remove other id s.passkey_registration_challenges_by_id)

module _ (digest : List ℕ → List ℕ) (to_lowercase : Text → Text) where
  step-challenges :
      (id : Text) (c : FactorCall) (s : FactorStore)
      → NamesOther id c
      → challenge_of id s ≡ none
      → challenge_of id (step digest to_lowercase c s) ≡ none
  unfolding step verify_recovery_code use_code enroll_factor begin_passkey_registration
      begin_passkey_authentication register_passkey_credential
  step-challenges id (changes_accounts accounts) s _ gone = gone
  step-challenges id (generates user_id codes) s _ gone =
      generate_recovery_codes-challenges digest to_lowercase user_id codes id s ∙ gone
  step-challenges id (regenerates user_id codes) s _ gone =
      regenerate_recovery_codes-challenges digest to_lowercase user_id codes id s ∙ gone
  step-challenges id (enrolls_totp user_id label secret) s _ gone =
      enroll_totp_factor_with_secret-challenges user_id label secret id s ∙ gone
  step-challenges id (verifies user code) s _ gone = ground (arith, gone)
  step-challenges id (enrolls user_id kind label) s _ gone = ground (arith, gone)
  step-challenges id (begins_registration user relying_party_id origin bytes) s other gone =
      let challenge =
        registration_challenge user.id user.email relying_party_id (text "Sunbolt") origin bytes in
      ground (
        arith,
        gone,
        other,
        text_eq_iff challenge.challenge_id id,
        lookup-insert challenge.challenge_id id challenge s.passkey_registration_challenges_by_id,
      )
  step-challenges id (registers user_id challenge_id credential_id public_key label) s _ gone =
      let entry = ensure_passkey_factor user_id s in
      elim (Result-cases entry.0) [
        | inl (factor, found) ↦ ground (
          arith,
          gone,
          found,
          ensure_passkey_factor-challenges user_id id s,
          register_with-challenges factor user_id id challenge_id credential_id public_key label
              entry.1,
        )
        | inr (e, failed) ↦
            ground (arith, gone, failed, ensure_passkey_factor-challenges user_id id s)
      ]
  step-challenges id (begins_authentication user relying_party_id origin bytes) s _ gone =
      ground (arith, gone)

  pub run-challenges :
      (id : Text) (calls : List FactorCall) (s : FactorStore)
      → All (NamesOther id) calls
      → challenge_of id s ≡ none
      → challenge_of id (run digest to_lowercase calls s) ≡ none
  unfolding run
  run-challenges id [] s _ gone = gone
  run-challenges id (c ∷ calls) s (other, others) gone =
      run-challenges id calls (step digest to_lowercase c s) others
        (step-challenges id c s other gone)
