-- ===== src/Config/Production.antt =====
-- Which origins a control plane in production answers.
use sunbolt.Base.{
  ◌≡◌, ◌↔◌, ◌⊎◌, inl, inr, true, false, Option, some, List, [], ◌∷◌, Text, text, text_eq,
  text_eq_iff, ok, any, arith, Bool-cases,
}
use sunbolt.Auth.{AuthConfig}
use sunbolt.Config.{
  production, allows_any_origin, validate_runtime_config_for_mode, request_origin,
  is_allowed_origin, is_missing,
}

abbrev pub IsListed : Text → List Text → Type 0
IsListed origin [] = ⊥
IsListed origin (o ∷ origins) = (o ≡ origin) ⊎ IsListed origin origins

any-IsListed :
    (origin : Text) (origins : List Text)
    → (any (λ o. text_eq o origin) origins ≡ true) ↔ IsListed origin origins
any-IsListed origin [] = ground arith
any-IsListed origin (o ∷ origins) =
    ground (arith, any-IsListed origin origins, text_eq_iff o origin)

validate-allows_any_origin :
    (config : AuthConfig) (allowed : List Text) (lookup : Text → Option Text)
    → validate_runtime_config_for_mode production config allowed lookup ≡ ok tt
    → (config.secure_cookie ≡ true)
      × (config.bootstrap_admin ≡ false)
      × (allows_any_origin allowed ≡ false)
unfolding validate_runtime_config_for_mode allows_any_origin
validate-allows_any_origin config allowed lookup valid =
    let missing = is_missing (lookup (text "SUNBOLT_DATABASE_URL")) in
    let missing' = is_missing (lookup (text "SUNBOLT_PUBLIC_URL")) in
    elim (Bool-cases missing) [
      | inl q ↦ ground (arith, q)
      | inr q ↦ elim (Bool-cases missing') [
        | inl r ↦ ground (arith, q, r)
        | inr r ↦ ground (arith, q, r)
      ]
    ]

-- If the configuration passes the checks of production, cookies are secure, no administrator is
-- created at the start, and a request whose `Origin` header can be read as a text passes
-- `is_allowed_origin` just if its origin is one of the configured ones.
pub is_allowed_origin-production :
    (to_str : Text → Option Text) (config : AuthConfig) (allowed : List Text)
    (lookup : Text → Option Text) (header : Option Text) (origin : Text)
    → validate_runtime_config_for_mode production config allowed lookup ≡ ok tt
    → request_origin to_str header ≡ some origin
    → (config.secure_cookie ≡ true)
      × (config.bootstrap_admin ≡ false)
      × ((is_allowed_origin to_str header allowed ≡ true) ↔ IsListed origin allowed)
unfolding is_allowed_origin
is_allowed_origin-production to_str config allowed lookup header origin valid read =
    let (secure, no_admin, narrow) = validate-allows_any_origin config allowed lookup valid in
    (secure, no_admin, ground (arith, narrow, read, any-IsListed origin allowed))
