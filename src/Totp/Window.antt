-- ===== src/Totp/Window.antt =====
-- Which codes a user's authenticator is believed.
use sunbolt.Base.{
  ℕ, ◌+◌, ◌-◌, ◌/◌, ◌^◌, ◌<◌, ◌≤◌, ◌≡◌, ◌↔◌, min, ap, sym, ◌∙◌, Bool, true, false, some, List, [],
  ◌∷◌, Text, nat_keys, nat_eq_iff, ok, All, any, arith, Bool-cases, Option-cases, inl, inr,
}
use sunbolt.Base.Trim.{trim}
use sunbolt.Auth.{User}
use sunbolt.Factors.{
  totp, factor_code, AuthFactorEnrollment, FactorStore, is_enabled_as, enrolled_factors,
  ensure_factor_enrolled,
}
use sunbolt.Factors.Challenges.{MfaPurpose, begin_factor_challenge, verify_factor_challenge}
use sunbolt.Totp.{default_config, constant_time_eq, u64_max}
use sunbolt.Totp.Codes.{
  secret_among, totp_factor_for_user, hotp_sha256, verify_code_at, as_factor, verify_totp_code,
}
use sunbolt.Totp.Comparison.{IsByte, constant_time_eq_iff, zero_padded-IsByte, any-span}

-- A secret belongs to an enabled factor.
any-secret_among :
    (s : FactorStore) (factors : List AuthFactorEnrollment) (secret : List ℕ)
    → secret_among s factors ≡ some secret
    → any (is_enabled_as totp) factors ≡ true
unfolding secret_among
any-secret_among s [] secret found = ground (arith, found)
any-secret_among s (factor ∷ factors) secret found = elim (Bool-cases (is_enabled_as totp factor)) [
  | inl hit ↦ ground (arith, hit)
  | inr miss ↦ ground (arith, miss, any-secret_among s factors secret (ground (arith, miss)))
]

module _ (digest : List ℕ → List ℕ) where
  -- A counter that is at most a step of thirty seconds away and whose code is the text.
  abbrev pub IsCurrent : List ℕ → Text → ℕ → ℕ → Type 0
  IsCurrent secret code unix_time_secs k =
      (unix_time_secs / 30 ≤ k + 1)
      × (k ≤ unix_time_secs / 30 + 1)
      × (hotp_sha256 digest secret k 6 ≡ code)

  hotp_sha256-IsByte :
      (secret : List ℕ) (counter digits : ℕ) → All IsByte (hotp_sha256 digest secret counter digits)
  unfolding hotp_sha256
  hotp_sha256-IsByte secret counter digits = zero_padded-IsByte digits _

  verify_code_at_iff :
      (secret : List ℕ) (code : Text) (unix_time_secs : ℕ)
      → unix_time_secs < 2 ^ 64
      → All IsByte code
      → (verify_code_at digest
            (record { secret = secret; config = default_config })
            code
            unix_time_secs
          ≡ true)
        ↔ ((k : ℕ) × IsCurrent secret code unix_time_secs k)
  unfolding verify_code_at
  verify_code_at_iff secret code unix_time_secs bound bytes =
      let test : ℕ → Bool = λ k. constant_time_eq (hotp_sha256 digest secret k 6) code in
      let low = unix_time_secs / 30 - 1 in
      let n = min (unix_time_secs / 30 + 1) u64_max + 1 - low in
      let equal = λ (k : ℕ).
        constant_time_eq_iff (hotp_sha256 digest secret k 6) code (hotp_sha256-IsByte secret k 6)
          bytes in
      (
        λ q.
            let (k, above, below, hit) = (any-span test low n).0 q in
            (k, (omega arith, omega arith, (equal k).0 hit)),
        λ q.
            let (k, (above, below, same)) = q in
            (any-span test low n).1 (k, omega arith, omega arith, (equal k).1 same),
      )

  -- The answer, when the secret of the user's authenticator is known.
  verify_totp_code-answer :
      (user : User) (purpose : MfaPurpose) (code : Text) (begun_secs verified_secs : ℕ)
      (s : FactorStore) (secret : List ℕ)
      → s.accounts.poisoned ≡ false
      → secret_among s (enrolled_factors user.id s) ≡ some secret
      → (verify_totp_code digest user purpose code begun_secs verified_secs s
          ≡ ok (record { user_id = user.id; factor_type = totp; verified = true }))
        ↔ (verify_code_at digest
              (record { secret = secret; config = default_config })
              (trim code)
              verified_secs
            ≡ true)
  unfolding verify_totp_code totp_factor_for_user as_factor begin_factor_challenge
      verify_factor_challenge ensure_factor_enrolled factor_code
  verify_totp_code-answer user purpose code begun_secs verified_secs s secret works found = ground (
    arith,
    works,
    found,
    nat_eq_iff user.id user.id,
    any-secret_among s (enrolled_factors user.id s) secret found,
  )

  -- On a lock that works, a time of 64 bits and a text of bytes, `verify_totp_code` accepts a code
  -- just if an enabled TOTP factor of the user has a secret and, without the white space around it,
  -- the code is the one of that secret (the first that is found) for a counter that is at most one
  -- step of thirty seconds from the time of the check.
  pub verify_totp_code_iff :
      (user : User) (purpose : MfaPurpose) (code : Text) (begun_secs verified_secs : ℕ)
      (s : FactorStore)
      → s.accounts.poisoned ≡ false
      → verified_secs < 2 ^ 64
      → All IsByte (trim code)
      → (verify_totp_code digest user purpose code begun_secs verified_secs s
          ≡ ok (record { user_id = user.id; factor_type = totp; verified = true }))
        ↔ ((secret : List ℕ) × (secret_among s (enrolled_factors user.id s) ≡ some secret)
            × (k : ℕ) × IsCurrent secret (trim code) verified_secs k)
  verify_totp_code_iff user purpose code begun_secs verified_secs s works bound bytes =
      elim (Option-cases (secret_among s (enrolled_factors user.id s))) [
        | inl none' ↦ (
          λ q.
              absurd (unfold verify_totp_code totp_factor_for_user in ground (arith, works, none')),
          λ q. ground (arith, none', q.1),
        )
        | inr (secret, found) ↦
            let answer =
              verify_totp_code-answer user purpose code begun_secs verified_secs s secret works
                found in
            let window = verify_code_at_iff secret (trim code) verified_secs bound bytes in
            (
              λ q. let (k, current) = window.0 (answer.0 q) in (secret, found, k, current),
              λ q.
                  let same : q.0 ≡ secret = ground (arith, found, q.1) in
                  answer.1 (
                    window.1 (
                      q.2,
                      (q.3.0, q.3.1, ap (λ x. hotp_sha256 digest x q.2 6) (sym same) ∙ q.3.2),
                    )),
            )
      ]
