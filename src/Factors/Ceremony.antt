-- ===== src/Factors/Ceremony.antt =====
-- A challenge registers one passkey.
use sunbolt.Base.{
  ℕ, ◌≡◌, ◌≢◌, ◌∙◌, sym, none, some, List, Text, text_keys, nat_keys, text_eq_iff, nat_eq_iff, All,
  ok, inl, inr, Option-cases, Result-cases, arith,
}
use sunbolt.Base.Dict.{lookup-remove}
use sunbolt.Factors.{
  AuthFactorEnrollment, PasskeyCredential, PasskeyRegistrationChallenge, FactorStore,
}
use sunbolt.Factors.Passkeys.{ensure_passkey_factor, register_with, register_passkey_credential}
use sunbolt.Factors.Spending.{FactorCall, run}
use sunbolt.Factors.Outstanding.{
  challenge_of, NamesOther, ensure_passkey_factor-challenges, run-challenges,
}

-- The second critical section gives a passkey only for a challenge of the user, and takes it away.
register_with-redeems :
    (factor : AuthFactorEnrollment) (user_id : ℕ) (id credential_id public_key label : Text)
    (s : FactorStore) (c : PasskeyCredential)
    → (register_with factor user_id id credential_id public_key label s).0 ≡ ok c
    → ((ch : PasskeyRegistrationChallenge) × (challenge_of id s ≡ some ch) × (ch.user_id ≡ user_id))
      × (challenge_of id (register_with factor user_id id credential_id public_key label s).1
          ≡ none)
unfolding register_with
register_with-redeems factor user_id id credential_id public_key label s c done =
    elim (Option-cases (challenge_of id s)) [
      | inl gone ↦ ground (arith, gone)
      | inr (ch, found) ↦ (
        (ch, found, ground (arith, found, nat_eq_iff ch.user_id user_id)),
        ground (
          arith,
          found,
          text_eq_iff id id,
          lookup-remove id id s.passkey_registration_challenges_by_id,
        ),
      )
    ]

register_passkey_credential-redeems :
    (user_id : ℕ) (id credential_id public_key label : Text) (s : FactorStore)
    (c : PasskeyCredential)
    → (register_passkey_credential user_id id credential_id public_key label s).0 ≡ ok c
    → ((ch : PasskeyRegistrationChallenge) × (challenge_of id s ≡ some ch) × (ch.user_id ≡ user_id))
      × (challenge_of id (register_passkey_credential user_id id credential_id public_key label s).1
          ≡ none)
unfolding register_passkey_credential
register_passkey_credential-redeems user_id id credential_id public_key label s c done =
    let entry = ensure_passkey_factor user_id s in
    elim (Result-cases entry.0) [
      | inl (factor, found) ↦
          let given : (register_with factor user_id id credential_id public_key label entry.1).0
              ≡ ok c =
            ground (arith, found) in
          let (whose, gone) =
            register_with-redeems factor user_id id credential_id public_key label entry.1 c
              given in
          let kept = ensure_passkey_factor-challenges user_id id s in
          ((whose.0, sym kept ∙ whose.1, whose.2), ground (arith, found, gone))
      | inr (e, failed) ↦ ground (arith, failed)
    ]

module _ (digest : List ℕ → List ℕ) (to_lowercase : Text → Text) where
  -- A passkey is registered only by a challenge that was begun for the same user, and the challenge
  -- is used up by it: whatever calls follow, as long as none of them begins a registration under the
  -- same id, no call registers another passkey by this challenge, for any user.
  pub register_passkey_credential-once :
      (user_id user' : ℕ) (id credential_id public_key label credential' key' label' : Text)
      (s : FactorStore) (c c' : PasskeyCredential) (calls : List FactorCall)
      → (register_passkey_credential user_id id credential_id public_key label s).0 ≡ ok c
      → All (NamesOther id) calls
      → ((ch : PasskeyRegistrationChallenge) × (challenge_of id s ≡ some ch)
          × (ch.user_id ≡ user_id))
        × ((register_passkey_credential user' id credential' key' label' (
              run digest to_lowercase calls
                (register_passkey_credential user_id id credential_id public_key label s).1)).0
            ≢ ok c')
  register_passkey_credential-once user_id user' id credential_id public_key label credential' key'
        label' s c c' calls done others =
      let (whose, gone) =
        register_passkey_credential-redeems user_id id credential_id public_key label s c done in
      let after = (register_passkey_credential user_id id credential_id public_key label s).1 in
      let later = run digest to_lowercase calls after in
      let still = run-challenges digest to_lowercase id calls after others gone in
      (
        whose,
        λ again.
            let redeemed =
              register_passkey_credential-redeems user' id credential' key' label' later c' again in
            ground (arith, redeemed.0.1, still),
      )
