-- ===== src/Requests.antt =====
-- crates/sunbolt-control/src/auth.rs and `terminal_websocket` of terminal/mod.rs: who may open a terminal's
-- WebSocket. `to_str` is `HeaderValue::to_str` of the http crate; the clock is read by each call.
pub mod Accounts
pub mod StepUp
pub mod Gate
pub mod Tests
use sunbolt.Base.{
  ℕ, ◌++◌, true, false, not, Option, none, some, List, [], ◌∷◌, Text, text, text_eq, nat_eq,
  if◌then◌else◌, Result, ok, err,
}
use sunbolt.Base.Trim.{trim}
use sunbolt.Auth.{
  AuthConfig, AuthStore, User, current_user, can_open_terminal, can_open_terminal_with_session,
}
use sunbolt.Config.{is_allowed_origin}
use sunbolt.RateLimit.{SlidingWindowRateLimiter, check_and_record}
use sunbolt.Audit.{AuditEventInput}
use sunbolt.Audit.Kinds.{AuditEventKind, user_mfa_challenge, terminal_failed}

-- `TerminalAuthorizationError`
pub data TerminalAuthorizationError : Type 0 where
  unauthorized forbidden step_up_mfa_required internal : TerminalAuthorizationError

unfoldable pub status_code : TerminalAuthorizationError → ℕ
status_code unauthorized = 401
status_code forbidden = 403
status_code step_up_mfa_required = 403
status_code internal = 500

pub message : TerminalAuthorizationError → Text
message unauthorized = text "terminal websocket authorization failed"
message forbidden = text "terminal access is forbidden"
message step_up_mfa_required = text "step-up MFA is required before opening a terminal"
message internal = text "terminal authorization service unavailable"

-- `split_once`, on bytes
unfoldable pub split_once : ℕ → Text → Option (Text × Text)
split_once byte [] = none
split_once byte (b ∷ t) =
    let later = split_once byte t in
    if nat_eq b byte
    then some ([], t)
    else elim later [ none ↦ none | some (front, rest) ↦ some (b ∷ front, rest) ]

-- `split(';')`, with the piece that is begun
unfoldable pub split_from : Text → Text → List Text
split_from piece [] = piece ∷ []
split_from piece (b ∷ t) =
    let longer = split_from (piece ++ b ∷ []) t in
    let rest = split_from [] t in if nat_eq b b';' then piece ∷ rest else longer

abbrev pub session_cookie_name : Text
session_cookie_name = text "sunbolt_session"

-- The loop of `session_token_from_headers`; a piece without `=` ends it.
unfoldable pub find_token : List Text → Option Text
find_token [] = none
find_token (cookie ∷ cookies) =
    let later = find_token cookies in
    elim (split_once b'=' (trim cookie)) [
      | none ↦ none
      | some (name, value) ↦ if text_eq name session_cookie_name then some value else later
    ]

-- What a request for a WebSocket reads and leaves: the accounts, the limiter of new terminals and what
-- was recorded.
pub record Gatekeeper : Type 0 where
  pub accounts : AuthStore
  pub limiter : SlidingWindowRateLimiter
  pub recorded : List AuditEventInput

-- The answer: a status, or the upgrade to a WebSocket for a user.
pub data Upgrade : Type 0 where
  rejects : ℕ → Upgrade
  upgrades : User → Upgrade

abbrev pub note : AuditEventKind → Option Text → Text → Gatekeeper → Gatekeeper
note kind actor_email what g = record g {
  recorded = g.recorded ++ record { kind = kind; actor_email = actor_email; message = what } ∷ [];
}

abbrev pub kind_of_refusal : TerminalAuthorizationError → AuditEventKind
kind_of_refusal step_up_mfa_required = user_mfa_challenge
kind_of_refusal _ = terminal_failed

module _ (to_str : Text → Option Text) where
  -- On the value of the `Cookie` header, if there is one.
  unfoldable pub session_token_from_headers : Option Text → Option Text
  session_token_from_headers none = none
  session_token_from_headers (some value) = elim (to_str value) [
    | none ↦ none
    | some cookies ↦ find_token (split_from [] cookies)
  ]

  -- The times that `current_user` and `can_open_terminal_with_session` read.
  unfoldable pub authorize_terminal_request :
      AuthConfig
      → Option Text
      → ℕ
      → ℕ
      → ℕ
      → AuthStore
      → Result TerminalAuthorizationError User × AuthStore
  authorize_terminal_request config cookies now purged_at checked_at s =
      elim (session_token_from_headers cookies) [
        | none ↦ (err unauthorized, s)
        | some token ↦
            let (found, s1) = current_user token now s in
            elim found [
              | err _ ↦ (err internal, s1)
              | ok none ↦ (err unauthorized, s1)
              | ok (some user) ↦
                  if not (can_open_terminal user)
                  then (err forbidden, s1)
                  else let (allowed, s2) =
                      can_open_terminal_with_session config user token purged_at checked_at s1 in
                    elim allowed [
                      | err _ ↦ (err internal, s2)
                      | ok true ↦ (ok user, s2)
                      | ok false ↦ (
                        err (
                            if config.require_step_up_mfa_for_terminal
                            then step_up_mfa_required
                            else forbidden),
                        s2,
                      )
                    ]
            ]
      ]

  -- `origin` and `cookies` are the values of those headers; `opened_at` is the time that the limiter
  -- reads.
  unfoldable pub terminal_websocket :
      AuthConfig
      → List Text
      → Option Text
      → Option Text
      → ℕ
      → ℕ
      → ℕ
      → ℕ
      → Gatekeeper
      → Upgrade × Gatekeeper
  terminal_websocket config allowed origin cookies now purged_at checked_at opened_at g =
      if not (is_allowed_origin to_str origin allowed)
      then (rejects 403, g)
      else let (answer, s) =
          authorize_terminal_request config cookies now purged_at checked_at g.accounts in
        let read = record g { accounts = s } in
        elim answer [
          | err e ↦ (rejects (status_code e), note (kind_of_refusal e) none (message e) read)
          | ok user ↦
              let (allowed', l) = check_and_record user.email opened_at g.limiter in
              let counted = record read { limiter = l } in
              if allowed' then (upgrades user, counted) else (
                rejects 429,
                note terminal_failed (some user.email)
                    (text "terminal creation rate limit exceeded") counted,
              )
        ]
