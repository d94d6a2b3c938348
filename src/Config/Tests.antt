-- ===== src/Config/Tests.antt =====
-- A configuration for production.
use sunbolt.Base.{
  ◌≡◌, ◌↔◌, refl, true, false, Option, none, some, List, [], ◌∷◌, Text, text, text_eq, ok,
  if◌then◌else◌,
}
use sunbolt.Base.Trim.{trim, trim_start, trim_end}
use sunbolt.Auth.{AuthConfig}
use sunbolt.Config.{production, validate_runtime_config_for_mode, is_allowed_origin, request_origin}
use sunbolt.Config.Production.{IsListed, is_allowed_origin-production}

abbrev config : AuthConfig
config = record {
  session_ttl = 3600;
  recent_mfa_ttl = 300;
  secure_cookie = true;
  require_step_up_mfa_for_terminal = true;
  bootstrap_admin = false;
  admin_email = [];
  admin_password = [];
}

abbrev lookup : Text → Option Text
lookup name = if text_eq name (text "SUNBOLT_ENV") then none else some (text "u")

abbrev origins : List Text
origins = text "o" ∷ []

passes : validate_runtime_config_for_mode production config origins lookup ≡ ok tt
unfolding validate_runtime_config_for_mode trim trim_start trim_end
passes = refl

reads_origin : request_origin some (some (text "o")) ≡ some (text "o")
unfolding request_origin
reads_origin = refl

is_allowed_origin-production_example :
    (config.secure_cookie ≡ true)
    × (config.bootstrap_admin ≡ false)
    × ((is_allowed_origin some (some (text "o")) origins ≡ true) ↔ IsListed (text "o") origins)
is_allowed_origin-production_example =
    is_allowed_origin-production some config origins lookup (some (text "o")) (text "o") passes
      reads_origin
