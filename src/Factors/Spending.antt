-- ===== src/Factors/Spending.antt =====
-- How often a recovery code is good.
use sunbolt.Base.{
  ℕ, ◌+◌, ◌≡◌, ◌&&◌, Option, none, some, List, [], ◌∷◌, Text, text, inl, inr, nat_keys, text_eq,
  text_eq_iff, nat_eq, nat_eq_iff, if◌then◌else◌, ok, err, find, filter, update_first, length,
  arith, Option-cases, Result-cases, All,
}
use sunbolt.Base.Dict.{lookup, lookup-insert}
use sunbolt.Auth.{User, AuthStore}
use sunbolt.Factors.{
  FactorType, recovery_code, totp, is_enabled_as, enrolled_factors, AuthFactorEnrollment,
  StoredRecoveryCode, FactorStore, enroll_factor, factor_of_user,
}
use sunbolt.Factors.Recovery.{
  is_usable, spend, use_code, hash_recovery_code, verify_recovery_code, generate_recovery_codes,
  regenerate_recovery_codes,
}
use sunbolt.Totp.Codes.{enroll_totp_factor_with_secret}
use sunbolt.Factors.Passkeys.{
  begin_passkey_registration, begin_passkey_authentication, ensure_passkey_factor, register_with,
  register_passkey_credential,
}

-- The calls that change the store: those of the factors, and any that changes the accounts, as
-- logging in or creating a user does.
pub data FactorCall : Type 0 where
  changes_accounts : AuthStore → FactorCall
  generates : ℕ → List Text → FactorCall
  regenerates : ℕ → List Text → FactorCall
  enrolls_totp : ℕ → Text → List ℕ → FactorCall
  verifies : User → Text → FactorCall
  enrolls : ℕ → FactorType → Text → FactorCall
  begins_registration : User → Text → Text → List ℕ → FactorCall
  registers : ℕ → Text → Text → Text → Text → FactorCall
  begins_authentication : User → Text → Text → List ℕ → FactorCall

-- Neither call that hands out recovery codes.
abbrev pub HandsOutNone : FactorCall → Type 0
HandsOutNone (generates user_id codes) = ⊥
HandsOutNone (regenerates user_id codes) = ⊥
HandsOutNone _ = Unit {0}

-- How many unused codes of that hash a factor has.
abbrev pub unused_in : Text → Option (List StoredRecoveryCode) → ℕ
unused_in hash none = 0
unused_in hash (some codes) = length (filter (is_usable hash) codes)

abbrev pub unused : ℕ → Text → FactorStore → ℕ
unused factor_id hash s = unused_in hash (lookup factor_id s.recovery_codes_by_factor_id)

-- Using one of them.
spend-filter :
    (hash h : Text) (codes : List StoredRecoveryCode)
    → length (filter (is_usable h) (update_first (is_usable hash) spend codes))
        + (elim (find (is_usable hash) codes) [
          | none ↦ 0
          | some _ ↦ if text_eq hash h then 1 else 0
        ])
      ≡ length (filter (is_usable h) codes)
spend-filter hash h [] = omega arith
spend-filter hash h (c ∷ codes) = ground (
  arith,
  spend-filter hash h codes,
  text_eq_iff c.hash hash,
  text_eq_iff c.hash h,
  text_eq_iff hash h,
)

module _ (digest : List ℕ → List ℕ) (to_lowercase : Text → Text) where
  unfoldable pub step : FactorCall → FactorStore → FactorStore
  step (changes_accounts accounts) s = record s { accounts = accounts }
  step (generates user_id codes) s = (generate_recovery_codes digest to_lowercase user_id codes s).1
  step (regenerates user_id codes) s =
      (regenerate_recovery_codes digest to_lowercase user_id codes s).1
  step (enrolls_totp user_id label secret) s =
      (enroll_totp_factor_with_secret user_id label secret s).1
  step (verifies user code) s = (verify_recovery_code digest to_lowercase user code s).1
  step (enrolls user_id kind label) s = (enroll_factor user_id kind label s).1
  step (begins_registration user relying_party_id origin bytes) s =
      (begin_passkey_registration user relying_party_id origin bytes s).1
  step (registers user_id challenge_id credential_id public_key label) s =
      (register_passkey_credential user_id challenge_id credential_id public_key label s).1
  step (begins_authentication user relying_party_id origin bytes) s =
      (begin_passkey_authentication user relying_party_id origin bytes s).1

  -- 1 if the call accepts a code of that hash for that factor, 0 if not.
  abbrev pub spent_by : ℕ → Text → FactorCall → FactorStore → ℕ
  spent_by factor_id hash (verifies user code) s =
      elim ((verify_recovery_code digest to_lowercase user code s).0) [
        | err _ ↦ 0
        | ok _ ↦ elim (factor_of_user recovery_code (text "recovery-codes") user.id s) [
          | ok (some factor) ↦
              if nat_eq factor.id factor_id
                && text_eq (hash_recovery_code digest to_lowercase code) hash
              then 1
              else 0
          | _ ↦ 0
        ]
      ]
  spent_by factor_id hash _ s = 0

  unfoldable pub run : List FactorCall → FactorStore → FactorStore
  run [] s = s
  run (c ∷ calls) s = run calls (step c s)

  -- How often a run of calls accepts a code of that hash for that factor.
  unfoldable pub spent : ℕ → Text → List FactorCall → FactorStore → ℕ
  spent factor_id hash [] s = 0
  spent factor_id hash (c ∷ calls) s =
      spent_by factor_id hash c s + spent factor_id hash calls (step c s)

  use_code-unused :
      (factor_id : ℕ) (h hash : Text) (user : User) (factor : AuthFactorEnrollment)
      (s : FactorStore)
      → (elim ((use_code user factor hash s).0) [
        | err _ ↦ 0
        | ok _ ↦ if nat_eq factor.id factor_id && text_eq hash h then 1 else 0
      ])
          + unused factor_id h (use_code user factor hash s).1
        ≡ unused factor_id h s
  unfolding use_code
  use_code-unused factor_id h hash user factor s =
      elim (Option-cases (lookup factor.id s.recovery_codes_by_factor_id)) [
        | inl none' ↦ ground (arith, none')
        | inr (codes, found) ↦ ground (
          arith,
          found,
          nat_eq_iff factor.id factor_id,
          spend-filter hash h codes,
          lookup-insert factor.id factor_id (update_first (is_usable hash) spend codes)
              s.recovery_codes_by_factor_id,
        )
      ]

  step-unused :
      (factor_id : ℕ) (hash : Text) (c : FactorCall) (s : FactorStore)
      → HandsOutNone c
      → spent_by factor_id hash c s + unused factor_id hash (step c s) ≡ unused factor_id hash s
  unfolding step verify_recovery_code factor_of_user enroll_factor begin_passkey_registration
      begin_passkey_authentication register_passkey_credential ensure_passkey_factor register_with
      enroll_totp_factor_with_secret
  step-unused factor_id hash (changes_accounts accounts) s _ = omega arith
  step-unused factor_id hash (generates user_id codes) s h = absurd h
  step-unused factor_id hash (regenerates user_id codes) s h = absurd h
  step-unused factor_id hash (enrolls_totp user_id label secret) s _ =
      elim (Result-cases (enroll_factor user_id totp label s).0) [
        | inl (factor, enrolled) ↦ ground (arith, enrolled)
        | inr (e, failed) ↦ ground (arith, failed)
      ]
  step-unused factor_id hash (verifies user code) s _ =
      elim (Option-cases (find (is_enabled_as recovery_code) (enrolled_factors user.id s))) [
        | inl none' ↦ ground (arith, none')
        | inr (factor, found) ↦ ground (
          arith,
          found,
          use_code-unused factor_id hash (hash_recovery_code digest to_lowercase code) user factor
              s,
        )
      ]
  step-unused factor_id hash (enrolls user_id kind label) s _ = ground arith
  step-unused factor_id hash (begins_registration user relying_party_id origin bytes) s _ =
      ground arith
  step-unused factor_id hash (registers user_id challenge_id credential_id public_key label) s _ =
      ground arith
  step-unused factor_id hash (begins_authentication user relying_party_id origin bytes) s _ =
      ground arith

  -- Over any calls none of which generates or regenerates recovery codes, whoever makes them, the
  -- number of times that a code of some hash is accepted for a factor and the number of unused codes
  -- of that hash that the factor has at the end are together the number that it had at the start:
  -- each code is good once.
  pub spent-unused :
      (factor_id : ℕ) (hash : Text) (calls : List FactorCall) (s : FactorStore)
      → All HandsOutNone calls
      → spent factor_id hash calls s + unused factor_id hash (run calls s) ≡ unused factor_id hash s
  unfolding spent run
  spent-unused factor_id hash [] s _ = omega arith
  spent-unused factor_id hash (c ∷ calls) s (harmless, others) = omega (
    arith,
    step-unused factor_id hash c s harmless,
    spent-unused factor_id hash calls (step c s) others,
  )
