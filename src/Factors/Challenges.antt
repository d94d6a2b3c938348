-- ===== src/Factors/Challenges.antt =====
-- crates/sunbolt-auth/src/mfa.rs: the interface of a factor, and the flow of the auth service that
-- is the same for all of them.
use sunbolt.Base.{ℕ, not, ◌||◌, nat_eq, Text, if◌then◌else◌, Result, ok, err}
use sunbolt.Auth.{User, AuthError, factor_type_mismatch, factor_verification_failed}
use sunbolt.Factors.{FactorType, factor_eq, FactorResult, FactorStore, ensure_factor_enrolled}

pub data MfaPurpose : Type 0 where
  login terminal_step_up factor_enrollment : MfaPurpose

pub record AuthContext : Type 0 where
  pub user : User
  pub purpose : MfaPurpose

pub record FactorChallenge : Type 0 where
  pub challenge_id : Text
  pub user_id : ℕ
  pub factor_type : FactorType
  pub purpose : MfaPurpose
  pub message : Text

pub record FactorResponse : Type 0 where
  pub challenge_id : Text
  pub factor_type : FactorType
  pub secret : Text

-- `dyn AuthFactor`; the clock that an implementation reads is part of it.
pub record AuthFactor : Type 0 where
  pub factor_type : FactorType
  pub begin_challenge : AuthContext → Result AuthError FactorChallenge
  pub verify_challenge : AuthContext → FactorResponse → Result AuthError FactorResult

unfoldable pub begin_factor_challenge :
    AuthFactor → AuthContext → FactorStore → Result AuthError FactorChallenge
begin_factor_challenge factor ctx s =
    elim (ensure_factor_enrolled ctx.user.id factor.factor_type s) [
      | err e ↦ err e
      | ok _ ↦ factor.begin_challenge ctx
    ]

unfoldable pub verify_factor_challenge :
    AuthFactor → AuthContext → FactorResponse → FactorStore → Result AuthError FactorResult
verify_factor_challenge factor ctx response s =
    if not (factor_eq response.factor_type factor.factor_type)
    then err factor_type_mismatch
    else elim (ensure_factor_enrolled ctx.user.id factor.factor_type s) [
      | err e ↦ err e
      | ok _ ↦ elim (factor.verify_challenge ctx response) [
        | err e ↦ err e
        | ok result ↦
            if not (nat_eq result.user_id ctx.user.id)
              || not (factor_eq result.factor_type factor.factor_type)
            then err factor_type_mismatch
            else if not result.verified
            then err factor_verification_failed
            else ok result
      ]
    ]
