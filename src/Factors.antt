-- ===== src/Factors.antt =====
-- crates/sunbolt-auth/src/mfa.rs and the second factors of crates/sunbolt-auth/src/lib.rs: the store
-- with its factors, recovery codes and passkeys, and the enrolment of a factor.
use sunbolt.Base.{
  ℕ, ◌+◌, ◌%◌, ◌^◌, ◌++◌, Bool, true, not, ◌&&◌, Option, none, some, List, [], ◌∷◌, Text, text,
  nat_keys, nat_eq, if◌then◌else◌, Result, ok, err, filter, find, any, length,
}
use sunbolt.Base.Trim.{trim}
use sunbolt.Base.Dict.{Dict, lookup, contains, insert}
use sunbolt.Auth.{
  AuthStore, AuthError, invalid_factor_label, user_not_found, factor_not_enrolled,
  store_unavailable,
}
pub mod Recovery
pub mod Passkeys
pub mod Spending
mod Tests
pub mod Challenges
mod Outstanding
pub mod Ceremony
pub mod Encoding
pub mod Renewal

pub data FactorType : Type 0 where
  password totp recovery_code web_authn : FactorType
  email_otp hardware_key admin_approval ssh_key_signature : FactorType

unfoldable pub factor_code : FactorType → ℕ
factor_code password = 0
factor_code totp = 1
factor_code recovery_code = 2
factor_code web_authn = 3
factor_code email_otp = 4
factor_code hardware_key = 5
factor_code admin_approval = 6
factor_code ssh_key_signature = 7

abbrev pub factor_eq : FactorType → FactorType → Bool
factor_eq a b = nat_eq (factor_code a) (factor_code b)

pub record AuthFactorEnrollment : Type 0 where
  pub id : ℕ
  pub user_id : ℕ
  pub factor_type : FactorType
  pub label : Text
  pub enabled : Bool

pub record FactorResult : Type 0 where
  pub user_id : ℕ
  pub factor_type : FactorType
  pub verified : Bool

pub record StoredRecoveryCode : Type 0 where
  pub hash : Text
  pub used : Bool

pub record PasskeyCredential : Type 0 where
  pub id : ℕ
  pub user_id : ℕ
  pub credential_id : Text
  pub public_key : Text
  pub label : Text
  pub enabled : Bool

pub record PasskeyRegistrationChallenge : Type 0 where
  pub challenge_id : Text
  pub user_id : ℕ
  pub user_email : Text
  pub relying_party_id : Text
  pub relying_party_name : Text
  pub origin : Text
  pub challenge : Text

pub record PasskeyAuthenticationChallenge : Type 0 where
  pub challenge_id : Text
  pub user_id : ℕ
  pub relying_party_id : Text
  pub origin : Text
  pub challenge : Text
  pub allowed_credential_ids : List Text

-- `AuthStore`: the accounts, whose lock is the lock of all of it, with the second factors and the
-- counters of their ids.
pub record FactorStore : Type 0 where
  pub accounts : AuthStore
  pub auth_factors_by_id : Dict ℕ AuthFactorEnrollment
  pub factor_ids_by_user_id : Dict ℕ (List ℕ)
  pub totp_secrets_by_factor_id : Dict ℕ (List ℕ)
  pub recovery_codes_by_factor_id : Dict ℕ (List StoredRecoveryCode)
  pub passkey_credentials_by_id : Dict ℕ PasskeyCredential
  pub passkey_credential_ids_by_user_id : Dict ℕ (List ℕ)
  pub passkey_registration_challenges_by_id : Dict Text PasskeyRegistrationChallenge
  pub passkey_authentication_challenges_by_id : Dict Text PasskeyAuthenticationChallenge
  pub next_factor_id : ℕ
  pub next_passkey_credential_id : ℕ

-- The ids that a map lists for a user.
unfoldable pub ids_of : ℕ → Dict ℕ (List ℕ) → List ℕ
ids_of user_id d = elim (lookup user_id d) [ none ↦ [] | some ids ↦ ids ]

-- `entry(user_id).or_default().push(id)`
unfoldable pub push_id : ℕ → ℕ → Dict ℕ (List ℕ) → Dict ℕ (List ℕ)
push_id user_id id d = insert user_id (ids_of user_id d ++ id ∷ []) d

-- `filter_map(|id| map.get(id))`
unfoldable pub lookup_all {ℓ} : {V : Type ℓ} → Dict ℕ V → List ℕ → List V
lookup_all d [] = []
lookup_all d (id ∷ ids) =
    let rest = lookup_all d ids in elim (lookup id d) [ none ↦ rest | some v ↦ v ∷ rest ]

unfoldable pub enrolled_factors : ℕ → FactorStore → List AuthFactorEnrollment
enrolled_factors user_id s =
    lookup_all s.auth_factors_by_id (ids_of user_id s.factor_ids_by_user_id)

abbrev pub is_enabled_as : FactorType → AuthFactorEnrollment → Bool
is_enabled_as kind factor = factor.enabled && factor_eq factor.factor_type kind

pub factors_for_user : ℕ → FactorStore → Result AuthError (List AuthFactorEnrollment)
factors_for_user user_id s =
    if s.accounts.poisoned
    then err (store_unavailable (text "auth-factors"))
    else ok (filter (λ factor. factor.enabled) (enrolled_factors user_id s))

unfoldable pub ensure_factor_enrolled : ℕ → FactorType → FactorStore → Result AuthError (Unit {0})
ensure_factor_enrolled user_id kind s =
    if s.accounts.poisoned
    then err (store_unavailable (text "auth-factors"))
    else if any (is_enabled_as kind) (enrolled_factors user_id s)
    then ok tt
    else err factor_not_enrolled

unfoldable pub enroll_factor :
    ℕ → FactorType → Text → FactorStore → Result AuthError AuthFactorEnrollment × FactorStore
enroll_factor user_id kind label s =
    if nat_eq (length (trim label)) 0
    then (err invalid_factor_label, s)
    else if s.accounts.poisoned
    then (err (store_unavailable (text "auth-factors")), s)
    else if not (contains user_id s.accounts.users_by_id)
    then (err user_not_found, s)
    else let factor : AuthFactorEnrollment = record {
      id = s.next_factor_id;
      user_id = user_id;
      factor_type = kind;
      label = trim label;
      enabled = true;
    } in
      (
        ok factor,
        record s {
          auth_factors_by_id = insert s.next_factor_id factor s.auth_factors_by_id;
          factor_ids_by_user_id = push_id user_id s.next_factor_id s.factor_ids_by_user_id;
          next_factor_id = (s.next_factor_id + 1) % 2 ^ 64;
        },
      )

-- `recovery_code_factor_for_user` and `passkey_factor_for_user`
unfoldable pub factor_of_user :
    FactorType → Text → ℕ → FactorStore → Result AuthError (Option AuthFactorEnrollment)
factor_of_user kind lock user_id s =
    if s.accounts.poisoned
    then err (store_unavailable lock)
    else ok (find (is_enabled_as kind) (enrolled_factors user_id s))
