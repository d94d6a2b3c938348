-- ===== src/Config.antt =====
-- crates/sunbolt-control/src/config.rs and security.rs: what a production configuration must have, and
-- the checks on the headers of a request. The environment is a function from names to values, and
-- `HeaderValue::to_str` of the http crate is an argument.
use sunbolt.Base.{
  ◌++◌, Bool, true, false, not, ◌||◌, Option, none, some, List, Text, text, text_eq, nat_eq,
  if◌then◌else◌, Result, ok, err, any, length,
}
use sunbolt.Base.Trim.{trim}
use sunbolt.Auth.{AuthConfig}
pub mod Production
mod Tests

pub data RuntimeMode : Type 0 where
  development production : RuntimeMode

-- The errors of `StartupError` that these checks give.
pub data StartupError : Type 0 where
  invalid_runtime_mode missing_required_env missing_production_config : Text → StartupError
  unsafe_production_config non_durable_production_state : Text → StartupError

pub mode_as_str : RuntimeMode → Text
mode_as_str development = text "development"
mode_as_str production = text "production"

pub mode_from_str : Text → Result StartupError RuntimeMode
mode_from_str value =
    if text_eq (trim value) (text "development")
    then ok development
    else if text_eq (trim value) (text "production")
    then ok production
    else err (
        invalid_runtime_mode (
          text "invalid SUNBOLT_ENV `"
          ++ trim value
          ++ text "`; expected `development` or `production`"))

pub from_env_value : Option Text → Result StartupError RuntimeMode
from_env_value none = err (missing_required_env (text "SUNBOLT_ENV"))
from_env_value (some value) = mode_from_str value

-- `lookup(name).is_none_or(|value| value.trim().is_empty())`
abbrev pub is_missing : Option Text → Bool
is_missing none = true
is_missing (some value) = nat_eq (length (trim value)) 0

unfoldable pub allows_any_origin : List Text → Bool
allows_any_origin allowed =
    nat_eq (length allowed) 0 || any (λ origin. text_eq origin (text "*")) allowed

unfoldable pub validate_runtime_config_for_mode :
    RuntimeMode → AuthConfig → List Text → (Text → Option Text) → Result StartupError (Unit {0})
validate_runtime_config_for_mode development config allowed lookup = ok tt
validate_runtime_config_for_mode production config allowed lookup =
    if is_missing (lookup (text "SUNBOLT_DATABASE_URL"))
    then err (missing_production_config (text "SUNBOLT_DATABASE_URL"))
    else if is_missing (lookup (text "SUNBOLT_PUBLIC_URL"))
    then err (missing_production_config (text "SUNBOLT_PUBLIC_URL"))
    else if config.bootstrap_admin
    then err
        (unsafe_production_config (text "SUNBOLT_DEV_BOOTSTRAP_ADMIN must be false in production"))
    else if not config.secure_cookie
    then err (unsafe_production_config (text "SUNBOLT_COOKIE_SECURE must be true in production"))
    else if nat_eq (length allowed) 0 || any (λ origin. text_eq origin (text "*")) allowed
    then err (
        unsafe_production_config
          (text "SUNBOLT_ALLOWED_ORIGINS must list explicit browser origins in production"))
    else ok tt

module _ (to_str : Text → Option Text) where
  -- The header's value as a text, if the request has one.
  unfoldable pub request_origin : Option Text → Option Text
  request_origin none = none
  request_origin (some value) = to_str value

  unfoldable pub is_allowed_origin : Option Text → List Text → Bool
  is_allowed_origin header allowed =
      if allows_any_origin allowed then true else elim (request_origin header) [
        | none ↦ true
        | some origin ↦ any (λ o. text_eq o origin) allowed
      ]

  pub has_valid_csrf_header : Option Text → Bool
  has_valid_csrf_header header = elim (request_origin header) [
    | none ↦ false
    | some value ↦ text_eq value (text "1")
  ]
