-- ===== src/Factors/Renewal.antt =====
-- Which codes are good after new ones are made.
use sunbolt.Base.{
  ℕ, ◌≡◌, ◌≢◌, refl, ◌++◌, Bool, true, false, none, some, List, [], ◌∷◌, Text, text, inl, inr,
  nat_keys, text_eq, nat_eq, nat_eq_iff, if◌then◌else◌, Result, ok, err, find, any, arith,
  Option-cases, Bool-cases, Result-cases,
}
use sunbolt.Base.Dict.{Dict, lookup, insert, lookup-insert}
use sunbolt.Auth.{User, AuthError, recovery_code_invalid}
use sunbolt.Factors.{
  recovery_code, is_enabled_as, enrolled_factors, AuthFactorEnrollment, FactorResult, FactorStore,
  enroll_factor, factor_of_user, lookup_all, ids_of, push_id,
}
use sunbolt.Factors.Recovery.{
  RecoveryCodeBatch, recovery_code_factor_label, is_usable, use_code, hash_recovery_code,
  verify_recovery_code, issue_codes, generate_recovery_codes, regenerate_recovery_codes,
  recovery_code_records, store_recovery_code_records,
}

-- An element that comes last is the first that `p` selects, if there was none before.
find-lookup_all {ℓ} :
    {V : Type ℓ} (p : V → Bool) (k : ℕ) (v : V) (d : Dict ℕ V) (ids : List ℕ)
    → p v ≡ true
    → find p (lookup_all d ids) ≡ none
    → find p (lookup_all (insert k v d) (ids ++ k ∷ [])) ≡ some v
unfolding lookup_all
find-lookup_all p k v d [] hit miss = ground (arith, lookup-insert k k v d, nat_eq_iff k k)
find-lookup_all p k v d (id ∷ ids) hit miss =
    let here : lookup id (insert k v d) ≡ (if nat_eq k id then some v else lookup id d) =
      lookup-insert k id v d in
    elim (Option-cases (lookup id d)) [
      | inl none' ↦
          ground
            (arith, none', here, nat_eq_iff k id, find-lookup_all p k v d ids hit (ground arith))
      | inr (w, found) ↦
          ground
            (arith, found, here, nat_eq_iff k id, find-lookup_all p k v d ids hit (ground arith))
    ]

module _ (digest : List ℕ → List ℕ) (to_lowercase : Text → Text) where
  -- Whether a code has the hash of one of the codes.
  abbrev pub is_among : Text → List Text → Bool
  is_among code codes =
      any
        (λ c.
          text_eq (hash_recovery_code digest to_lowercase c)
            (hash_recovery_code digest to_lowercase code))
        codes

  abbrev pub verdict : User → Bool → Result AuthError FactorResult
  verdict user true =
      ok (record { user_id = user.id; factor_type = recovery_code; verified = true })
  verdict user false = err recovery_code_invalid

  -- A list of fresh records has a usable code just for the codes that it was made from.
  find-recovery_code_records :
      (user : User) (code : Text) (codes : List Text)
      → (elim (find
          (is_usable (hash_recovery_code digest to_lowercase code))
          (recovery_code_records digest to_lowercase codes)) [
            | none ↦ err recovery_code_invalid
            | some _ ↦
                ok (record { user_id = user.id; factor_type = recovery_code; verified = true })
          ])
        ≡ verdict user (is_among code codes)
  unfolding recovery_code_records
  find-recovery_code_records user code [] = refl
  find-recovery_code_records user code (c ∷ codes) =
      ground (arith, find-recovery_code_records user code codes)

  -- The factor that `verify_recovery_code` finds holds just these codes.
  verify_recovery_code-fresh :
      (user : User) (code : Text) (codes : List Text) (factor : AuthFactorEnrollment)
      (s : FactorStore)
      → s.accounts.poisoned ≡ false
      → find (is_enabled_as recovery_code) (enrolled_factors user.id s) ≡ some factor
      → lookup factor.id s.recovery_codes_by_factor_id
        ≡ some (recovery_code_records digest to_lowercase codes)
      → (verify_recovery_code digest to_lowercase user code s).0
        ≡ verdict user (is_among code codes)
  unfolding verify_recovery_code factor_of_user use_code
  verify_recovery_code-fresh user code codes factor s works found held =
      ground (arith, works, found, held, find-recovery_code_records user code codes)

  enroll_factor-find :
      (user_id : ℕ) (s : FactorStore) (factor : AuthFactorEnrollment)
      → (enroll_factor user_id recovery_code recovery_code_factor_label s).0 ≡ ok factor
      → find (is_enabled_as recovery_code) (enrolled_factors user_id s) ≡ none
      → find (is_enabled_as recovery_code) (
          enrolled_factors user_id
            (enroll_factor user_id recovery_code recovery_code_factor_label s).1)
        ≡ some factor
  unfolding enroll_factor enrolled_factors push_id ids_of
  enroll_factor-find user_id s factor done fresh = ground (
    arith,
    lookup-insert user_id user_id (ids_of user_id s.factor_ids_by_user_id ++ s.next_factor_id ∷ [])
        s.factor_ids_by_user_id,
    nat_eq_iff user_id user_id,
    find-lookup_all (is_enabled_as recovery_code) s.next_factor_id factor s.auth_factors_by_id
        (ids_of user_id s.factor_ids_by_user_id),
  )

  issue_codes-verdict :
      (user : User) (code : Text) (codes : List Text) (factor : AuthFactorEnrollment)
      (s : FactorStore)
      → s.accounts.poisoned ≡ false
      → find (is_enabled_as recovery_code) (enrolled_factors user.id s) ≡ some factor
      → (verify_recovery_code digest to_lowercase user code
          (issue_codes digest to_lowercase factor codes s).1).0
        ≡ verdict user (is_among code codes)
  unfolding issue_codes store_recovery_code_records enrolled_factors
  issue_codes-verdict user code codes factor s works found =
      let after = (issue_codes digest to_lowercase factor codes s).1 in
      verify_recovery_code-fresh user code codes factor after (ground (arith, works))
        (ground (arith, works, found))
        (ground (
          arith,
          works,
          nat_eq_iff factor.id factor.id,
          lookup-insert factor.id factor.id (recovery_code_records digest to_lowercase codes)
              s.recovery_codes_by_factor_id,
        ))

  generate_recovery_codes-verdict :
      (user : User) (code : Text) (codes : List Text) (s : FactorStore) (batch : RecoveryCodeBatch)
      → s.accounts.poisoned ≡ false
      → find (is_enabled_as recovery_code) (enrolled_factors user.id s) ≡ none
      → (generate_recovery_codes digest to_lowercase user.id codes s).0 ≡ ok batch
      → (verify_recovery_code digest to_lowercase user code
          (generate_recovery_codes digest to_lowercase user.id codes s).1).0
        ≡ verdict user (is_among code codes)
  unfolding generate_recovery_codes
  generate_recovery_codes-verdict user code codes s batch works fresh done =
      let enrolment = enroll_factor user.id recovery_code recovery_code_factor_label s in
      elim (Result-cases enrolment.0) [
        | inr (e, failed) ↦ ground (arith, failed)
        | inl (factor, entered) ↦ ground (
          arith,
          entered,
          issue_codes-verdict user code codes factor enrolment.1
              (unfold enroll_factor in ground (arith, works))
              (enroll_factor-find user.id s factor entered fresh),
        )
      ]

  -- Once `regenerate_recovery_codes` has given a user new codes, in a state in which the user's
  -- factor for codes, if there is one, has not the id 0, `verify_recovery_code` accepts of this user
  -- just the codes that hash as one of the new ones does, and no older one.
  pub verify_recovery_code-regenerate :
      (user : User) (code : Text) (codes : List Text) (s : FactorStore) (batch : RecoveryCodeBatch)
      → ((factor : AuthFactorEnrollment)
          → factor_of_user recovery_code (text "recovery-codes") user.id s ≡ ok (some factor)
          → factor.id ≢ 0)
      → (regenerate_recovery_codes digest to_lowercase user.id codes s).0 ≡ ok batch
      → (verify_recovery_code digest to_lowercase user code
          (regenerate_recovery_codes digest to_lowercase user.id codes s).1).0
        ≡ verdict user (is_among code codes)
  unfolding regenerate_recovery_codes factor_of_user
  verify_recovery_code-regenerate user code codes s batch has_id done =
      elim (Bool-cases s.accounts.poisoned) [
        | inl broken ↦ ground (arith, broken)
        | inr works ↦
            elim (Option-cases (find (is_enabled_as recovery_code) (enrolled_factors user.id s))) [
              | inl none' ↦ ground (
                arith,
                works,
                none',
                generate_recovery_codes-verdict user code codes s batch works none',
              )
              | inr (factor, found) ↦ ground (
                arith,
                works,
                found,
                has_id factor (ground (arith, works, found)),
                nat_eq_iff factor.id 0,
                issue_codes-verdict user code codes factor s works found,
              )
            ]
      ]
