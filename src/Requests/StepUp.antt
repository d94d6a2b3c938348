-- ===== src/Requests/StepUp.antt =====
-- What the step-up check asks for.
use sunbolt.Base.{ℕ, ◌-◌, ◌≤◌, ◌<◌, ◌≡◌, ◌≢◌, Option, some, true, Text, ok, arith, inr}
use sunbolt.Auth.{AuthConfig, User, viewer, record_mfa_success}
use sunbolt.Auth.Sessions.{IsSound, record_mfa_success-IsSound}
use sunbolt.Auth.Reading.{Names, record_mfa_success-ok, record_mfa_success-Names}
use sunbolt.Factors.{FactorType}
use sunbolt.RateLimit.{check_and_record}
use sunbolt.Requests.{session_token_from_headers, authorize_terminal_request}
use sunbolt.Requests.Accounts.{Desk, accepts, auth_mfa_step_up, record_in_desk}
use sunbolt.Requests.Gate.{authorize_complete}

module _ (to_str : Text → Option Text) (config : AuthConfig) (user : User) (cookies : Option Text)
    (token : Text) (factor_type : FactorType) (tried_at t at : ℕ) (d : Desk) where
  marked :
      IsSound d.accounts
      → session_token_from_headers to_str cookies ≡ some token
      → Names token t d.accounts user
      → (check_and_record user.email tried_at d.mfa_limiter).0 ≡ true
      → ((auth_mfa_step_up to_str user cookies factor_type tried_at t at d).0 ≡ accepts)
        × ((auth_mfa_step_up to_str user cookies factor_type tried_at t at d).1.accounts
            ≡ (record_mfa_success token t at d.accounts).1)
  unfolding auth_mfa_step_up record_in_desk
  marked sound sent n passed =
      let answered =
        record_mfa_success-ok token t at d.accounts n.session sound n.found n.unexpired in
      (ground (arith, answered), ground (arith, answered))

  -- With a sound store of accounts, a step-up request under the cookie of a session that has not
  -- expired, which the limiter lets pass, is accepted whatever factor it names and whatever factors the
  -- user has; from then on, while the session has not expired and the time that its check counts for has
  -- not passed, the session opens terminals if its user is an administrator or an operator.
  pub auth_mfa_step_up-authorizes :
      (now purged_at checked_at : ℕ)
      → IsSound d.accounts
      → session_token_from_headers to_str cookies ≡ some token
      → (n : Names token t d.accounts user)
      → (check_and_record user.email tried_at d.mfa_limiter).0 ≡ true
      → user.role ≢ viewer
      → now < n.session.expires_at
      → purged_at < n.session.expires_at
      → checked_at - at ≤ config.recent_mfa_ttl
      → let (reply, after) = auth_mfa_step_up to_str user cookies factor_type tried_at t at d in
        (reply ≡ accepts)
        × ((authorize_terminal_request to_str config cookies now purged_at checked_at
              after.accounts).0
            ≡ ok user)
  auth_mfa_step_up-authorizes now purged_at checked_at sound sent n passed role later purged soon =
      let (accepted, same) = marked sound sent n passed in
      let (live, verified) =
        record_mfa_success-Names config token t at now purged_at checked_at d.accounts user sound n
          later purged soon in
      (
        accepted,
        rw same (
            authorize_complete to_str config cookies now purged_at checked_at _ user
              (record_mfa_success-IsSound token t at d.accounts sound)
              (record {
                token = token;
                sent = sent;
                live = live;
                role = role;
                step_up = inr verified;
              })),
      )
