-- ===== src/Totp/Codes.antt =====
-- crates/sunbolt-auth/src/totp.rs: HMAC, the code of a counter and its check; and the calls on codes
-- of crates/sunbolt-auth/src/lib.rs.
use sunbolt.Base.{
  ℕ, ◌+◌, ◌-◌, ◌*◌, ◌/◌, ◌%◌, ◌^◌, ◌++◌, min, max, Bool, Option, none, some, List, [], ◌∷◌, Text,
  text, nat_keys, ltb, if◌then◌else◌, Result, ok, err, map, any, length,
}
use sunbolt.Base.Trim.{trim}
use sunbolt.Base.Numerals.{decimal}
use sunbolt.Base.Dict.{lookup, insert}
use sunbolt.Auth.{User, AuthError, totp_secret_missing, user_not_found, store_unavailable}
use sunbolt.Factors.{
  totp, AuthFactorEnrollment, FactorResult, FactorStore, is_enabled_as, enrolled_factors,
  enroll_factor, ensure_factor_enrolled,
}
use sunbolt.Factors.Challenges.{
  MfaPurpose, AuthContext, AuthFactor, begin_factor_challenge, verify_factor_challenge,
}
use sunbolt.Totp.{
  TotpFactor, TotpEnrollment, TotpRecoveryPath, default_config, repeat, span, u64_max, zero_padded,
  constant_time_eq, build_totp_enrollment, default_totp_recovery_path,
}
use sunbolt.Totp.Bits.{xor_byte, to_be_bytes, byte_at}

-- The secret that `totp_factor_for_user` finds.
unfoldable pub secret_among : FactorStore → List AuthFactorEnrollment → Option (List ℕ)
secret_among s [] = none
secret_among s (factor ∷ factors) =
    let rest = secret_among s factors in
    if is_enabled_as totp factor
    then elim (lookup factor.id s.totp_secrets_by_factor_id) [
      | none ↦ rest
      | some secret ↦ some secret
    ]
    else rest

unfoldable pub totp_factor_for_user : ℕ → FactorStore → Result AuthError TotpFactor
totp_factor_for_user user_id s =
    if s.accounts.poisoned
    then err (store_unavailable (text "totp"))
    else elim (secret_among s (enrolled_factors user_id s)) [
      | none ↦ err totp_secret_missing
      | some secret ↦ ok (record { secret = secret; config = default_config })
    ]

unfoldable pub enroll_totp_factor_with_secret :
    ℕ → Text → List ℕ → FactorStore → Result AuthError TotpEnrollment × FactorStore
enroll_totp_factor_with_secret user_id label secret s =
    let (answer, after) = enroll_factor user_id totp label s in
    elim answer [
      | err e ↦ (err e, after)
      | ok factor ↦
          if after.accounts.poisoned then (err (store_unavailable (text "totp")), after) else (
            elim (lookup user_id after.accounts.users_by_id) [
              | none ↦ err user_not_found
              | some stored ↦
                  ok (build_totp_enrollment factor stored.user.email default_config secret)
            ],
            record after {
              totp_secrets_by_factor_id = insert factor.id secret after.totp_secrets_by_factor_id;
            },
          )
    ]

pub totp_recovery_path : ℕ → FactorStore → Result AuthError TotpRecoveryPath
totp_recovery_path user_id s = elim (ensure_factor_enrolled user_id totp s) [
  | err e ↦ err e
  | ok _ ↦ ok (default_totp_recovery_path user_id)
]

module _ (digest : List ℕ → List ℕ) where
  -- The key, or its digest if it is longer than a block, filled up with zeros.
  pub key_block : List ℕ → List ℕ
  key_block key =
      let short = if ltb 64 (length key) then digest key else key in
      short ++ repeat 0 (64 - length short)

  pub hmac_sha256 : List ℕ → List ℕ → List ℕ
  hmac_sha256 key message =
      let block = key_block key in
      let inner_hash = digest (map (xor_byte 54) block ++ message) in
      digest (map (xor_byte 92) block ++ inner_hash)

  unfoldable pub hotp_sha256 : List ℕ → ℕ → ℕ → Text
  hotp_sha256 secret counter digits =
      let hmac = hmac_sha256 secret (to_be_bytes counter) in
      let offset = byte_at hmac (length hmac - 1) % 16 in
      let binary =
        byte_at hmac offset % 128 * 2 ^ 24
        + byte_at hmac (offset + 1) * 2 ^ 16
        + byte_at hmac (offset + 2) * 2 ^ 8
        + byte_at hmac (offset + 3) in
      zero_padded digits (binary % 10 ^ digits)

  pub code_at : TotpFactor → ℕ → Text
  code_at f unix_time_secs =
      hotp_sha256 f.secret (unix_time_secs / max f.config.period_secs 1) f.config.digits

  abbrev pub min_counter : TotpFactor → ℕ → ℕ
  min_counter f unix_time_secs = unix_time_secs / max f.config.period_secs 1 - f.config.skew_steps

  abbrev pub max_counter : TotpFactor → ℕ → ℕ
  max_counter f unix_time_secs =
      min (unix_time_secs / max f.config.period_secs 1 + f.config.skew_steps) u64_max

  unfoldable pub verify_code_at : TotpFactor → Text → ℕ → Bool
  verify_code_at f code unix_time_secs =
      any (λ candidate. constant_time_eq (hotp_sha256 f.secret candidate f.config.digits) code)
        (span (min_counter f unix_time_secs)
          (max_counter f unix_time_secs + 1 - min_counter f unix_time_secs))

  -- `impl AuthFactor for TotpFactor`, with the clock readings of its two methods.
  unfoldable pub as_factor : TotpFactor → ℕ → ℕ → AuthFactor
  as_factor f begun_secs verified_secs = record {
    factor_type = totp;
    begin_challenge = λ ctx. ok (record {
      challenge_id = text "totp-" ++ decimal ctx.user.id ++ text "-" ++ decimal begun_secs;
      user_id = ctx.user.id;
      factor_type = totp;
      purpose = ctx.purpose;
      message = text "Enter the code from your authenticator app";
    });
    verify_challenge = λ ctx response. ok (record {
      user_id = ctx.user.id;
      factor_type = totp;
      verified = verify_code_at f (trim response.secret) verified_secs;
    });
  }

  unfoldable pub verify_totp_code :
      User → MfaPurpose → Text → ℕ → ℕ → FactorStore → Result AuthError FactorResult
  verify_totp_code user purpose code begun_secs verified_secs s =
      elim (totp_factor_for_user user.id s) [
        | err e ↦ err e
        | ok f ↦
            let factor = as_factor f begun_secs verified_secs in
            let ctx : AuthContext = record { user = user; purpose = purpose } in
            elim (begin_factor_challenge factor ctx s) [
              | err e ↦ err e
              | ok challenge ↦
                  verify_factor_challenge factor ctx
                    (record {
                      challenge_id = challenge.challenge_id;
                      factor_type = totp;
                      secret = code;
                    })
                    s
            ]
      ]
