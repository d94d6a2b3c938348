-- ===== src/Requests/Accounts.antt =====
-- crates/sunbolt-control/src/routes/auth.rs, and `require_auth_middleware` of auth.rs: logging in and
-- out, and the step-up check.
use sunbolt.Base.{
  ℕ, ◌++◌, Bool, not, Option, none, some, Text, text, if◌then◌else◌, Result, ok, err, List, [], ◌∷◌,
}
use sunbolt.Base.Numerals.{decimal}
use sunbolt.Auth.{
  AuthConfig, AuthStore, User, invalid_credentials, invalid_session, normalize_email, login, logout,
  current_user, record_mfa_success,
}
use sunbolt.Factors.{
  FactorType, password, totp, recovery_code, web_authn, email_otp, hardware_key, admin_approval,
  ssh_key_signature,
}
use sunbolt.RateLimit.{SlidingWindowRateLimiter, check_and_record}
use sunbolt.Audit.{AuditEventInput}
use sunbolt.Audit.Kinds.{
  AuditEventKind, user_login_success, user_login_failed, user_logout, user_mfa_challenge,
  user_mfa_success,
}
use sunbolt.Requests.{
  session_cookie_name, session_token_from_headers, authorize_terminal_request, status_code,
}

-- What the routes of accounts read and leave.
pub record Desk : Type 0 where
  pub accounts : AuthStore
  pub login_limiter : SlidingWindowRateLimiter
  pub mfa_limiter : SlidingWindowRateLimiter
  pub recorded : List AuditEventInput

-- A refusal with its status; or success, with the user and the `Set-Cookie` header where there is one.
pub data Reply : Type 0 where
  refuses : ℕ → Reply
  greets : User → Option Text → Reply
  accepts : Reply

unfoldable pub record_in_desk : AuditEventKind → Option Text → Text → Desk → Desk
record_in_desk kind actor_email what d = record d {
  recorded = d.recorded ++ record { kind = kind; actor_email = actor_email; message = what } ∷ [];
}

unfoldable pub auth_rate_limit_key : Text → Text
auth_rate_limit_key email = normalize_email email

abbrev pub attributes : AuthConfig → Text
attributes config =
    text "; HttpOnly; SameSite=Strict" ++ (if config.secure_cookie then text "; Secure" else [])

-- `max_age` is the session's time to live in seconds.
unfoldable pub session_cookie_header : AuthConfig → ℕ → Text → Text
session_cookie_header config max_age token =
    session_cookie_name
    ++ text "="
    ++ token
    ++ text "; Path=/; Max-Age="
    ++ decimal max_age
    ++ attributes config

unfoldable pub clear_session_cookie_header : AuthConfig → Text
clear_session_cookie_header config =
    session_cookie_name ++ text "=; Path=/; Max-Age=0" ++ attributes config

-- `{:?}` of a factor type
unfoldable pub debug_name : FactorType → Text
debug_name password = text "Password"
debug_name totp = text "Totp"
debug_name recovery_code = text "RecoveryCode"
debug_name web_authn = text "WebAuthn"
debug_name email_otp = text "EmailOtp"
debug_name hardware_key = text "HardwareKey"
debug_name admin_approval = text "AdminApproval"
debug_name ssh_key_signature = text "SshKeySignature"

-- `is_value` says whether `HeaderValue::from_str` takes a text.
module _ (is_value : Text → Bool) where
  -- The user and the cookie of a login that succeeded; `token` is the random session token.
  unfoldable pub auth_login :
      (List ℕ → List ℕ) → AuthConfig → ℕ → Text → Text → Text → ℕ → ℕ → Desk → Reply × Desk
  auth_login digest config max_age email secret token tried_at now d =
      let key = auth_rate_limit_key email in
      let (allowed, l) = check_and_record key tried_at d.login_limiter in
      let tried = record d { login_limiter = l } in
      if not allowed
      then (
        refuses 429,
        record_in_desk user_login_failed (some key) (text "login rate limit exceeded") tried,
      )
      else let (found, s) = login digest config email secret token now tried.accounts in
        let looked = record tried { accounts = s } in
        elim found [
          | ok (user, session_token) ↦
              let cookie = session_cookie_header config max_age session_token in
              (
                if is_value cookie then greets user (some cookie) else refuses 500,
                record_in_desk user_login_success (some user.email) (text "user authenticated")
                    looked,
              )
          | err invalid_credentials ↦ (
            refuses 401,
            record_in_desk user_login_failed (some key) (text "login rejected") looked,
          )
          | err _ ↦ (refuses 500, looked)
        ]

  module _ (to_str : Text → Option Text) where
    unfoldable pub auth_logout : AuthConfig → User → Option Text → Desk → Reply × Desk
    auth_logout config user cookies d =
        let s : AuthStore = elim (session_token_from_headers to_str cookies) [
          | none ↦ d.accounts
          | some token ↦ (logout token d.accounts).1
        ] in
        let cookie = clear_session_cookie_header config in
        (
          greets user (if is_value cookie then some cookie else none),
          record_in_desk user_logout (some user.email) (text "user logged out")
              (record d { accounts = s }),
        )

module _ (to_str : Text → Option Text) where
  unfoldable pub auth_terminal_access : AuthConfig → Option Text → ℕ → ℕ → ℕ → Desk → Reply × Desk
  auth_terminal_access config cookies now purged_at checked_at d =
      let (answer, s) =
        authorize_terminal_request to_str config cookies now purged_at checked_at d.accounts in
      (elim answer [ ok _ ↦ accepts | err e ↦ refuses (status_code e) ], record d { accounts = s })

  -- `require_auth_middleware`: the user for the handler that follows, or the status.
  unfoldable pub require_auth_middleware : Option Text → ℕ → Desk → Result ℕ User × Desk
  require_auth_middleware cookies now d = elim (session_token_from_headers to_str cookies) [
    | none ↦ (err 401, d)
    | some token ↦
        let (found, s) = current_user token now d.accounts in
        (
          elim found [ ok none ↦ err 401 | ok (some user) ↦ ok user | err _ ↦ err 500 ],
          record d { accounts = s },
        )
  ]

  -- The times are those that the limiter, the purge of sessions and the mark of success read.
  unfoldable pub auth_mfa_step_up :
      User → Option Text → FactorType → ℕ → ℕ → ℕ → Desk → Reply × Desk
  auth_mfa_step_up user cookies factor_type tried_at purged_at now d =
      let (allowed, l) = check_and_record user.email tried_at d.mfa_limiter in
      let tried = record d { mfa_limiter = l } in
      if not allowed
      then (
        refuses 429,
        record_in_desk user_mfa_challenge (some user.email)
            (text "step-up MFA challenge rate limit exceeded") tried,
      )
      else let asked =
          record_in_desk user_mfa_challenge (some user.email)
            (text "step-up MFA challenge requested using " ++ debug_name factor_type) tried in
        elim (session_token_from_headers to_str cookies) [
          | none ↦ (refuses 401, asked)
          | some token ↦
              let (answer, s) = record_mfa_success token purged_at now asked.accounts in
              let marked = record asked { accounts = s } in
              elim answer [
                | ok _ ↦ (
                  accepts,
                  record_in_desk user_mfa_success (some user.email)
                      (text "step-up MFA completed using " ++ debug_name factor_type) marked,
                )
                | err invalid_session ↦ (refuses 401, marked)
                | err _ ↦ (refuses 500, marked)
              ]
        ]
