-- ===== src/Requests/Gate.antt =====
-- Who gets a terminal's WebSocket.
use sunbolt.Base.{
  ℕ, ◌≡◌, ◌≢◌, ◌↔◌, ◌⊎◌, ◌∙◌, true, false, Option, none, some, List, Text, Result, ok, arith,
  Bool-cases, Option-cases, Result-cases, inl, inr, ap, subst,
}
use sunbolt.Auth.{
  AuthConfig, AuthStore, User, viewer, current_user, can_open_terminal,
  can_open_terminal_with_session,
}
use sunbolt.Auth.Sessions.{IsSound, IsVerified, can_open_terminal_with_session_iff, role_iff}
use sunbolt.Auth.Reading.{Names, current_user_iff, current_user-IsSound, IsVerified-current_user}
use sunbolt.Config.{is_allowed_origin}
use sunbolt.RateLimit.{check_and_record}
use sunbolt.Requests.{
  TerminalAuthorizationError, Gatekeeper, upgrades, session_token_from_headers,
  authorize_terminal_request, terminal_websocket,
}

module _ (to_str : Text → Option Text) (config : AuthConfig) (cookies : Option Text)
    (now purged_at checked_at : ℕ) where
  -- The cookie's token is of a live session of `user`, who may open terminals, with a second factor
  -- verified in time where one is asked for.
  pub record IsAuthorized (s : AuthStore) (user : User) : Type 0 where
    pub token : Text
    pub sent : session_token_from_headers to_str cookies ≡ some token
    pub live : Names token now s user
    pub role : user.role ≢ viewer
    pub step_up :
        (config.require_step_up_mfa_for_terminal ≡ false)
        ⊎ IsVerified config token purged_at checked_at s

  abbrev authorize : AuthStore → Result TerminalAuthorizationError User × AuthStore
  authorize s = authorize_terminal_request to_str config cookies now purged_at checked_at s

  -- What a granted request went through, of the calls that it makes.
  granted_calls :
      (s : AuthStore) (user : User)
      → (authorize s).0 ≡ ok user
      → (token : Text) × ((session_token_from_headers to_str cookies ≡ some token)
          × (((current_user token now s).0 ≡ ok (some user))
              × ((can_open_terminal_with_session config user token purged_at checked_at
                    (current_user token now s).1).0
                  ≡ ok true)))
  unfolding authorize_terminal_request
  granted_calls s user h = elim (Option-cases (session_token_from_headers to_str cookies)) [
    | inl missing ↦ absurd (ground arith)
    | inr (token, sent) ↦ elim (Result-cases (current_user token now s).0) [
      | inr (e, broken) ↦ absurd (ground arith)
      | inl (none, nobody) ↦ absurd (ground arith)
      | inl (some found, named) ↦
          let check =
            can_open_terminal_with_session config found token purged_at checked_at
              (current_user token now s).1 in
          elim (Bool-cases (can_open_terminal found)) [
            | inr viewer' ↦ absurd (ground arith)
            | inl may ↦ elim (Result-cases check.0) [
              | inr (e, broken) ↦ absurd (ground arith)
              | inl (false, unverified) ↦ absurd (ground arith)
              | inl (true, allowed) ↦
                  let same : found ≡ user = ground arith in
                  (
                    token,
                    (
                      sent,
                      (
                        named ∙ ap (λ u. ok (some u)) same,
                        subst
                            (λ u.
                              (can_open_terminal_with_session config u token purged_at checked_at
                                (current_user token now s).1).0
                              ≡ ok true)
                            same allowed,
                      ),
                    ),
                  )
            ]
          ]
    ]
  ]

  authorize_sound :
      (s : AuthStore) (user : User) → IsSound s → (authorize s).0 ≡ ok user → IsAuthorized s user
  authorize_sound s user sound h =
      let (token, (sent, (named, allowed))) = granted_calls s user h in
      let live = (current_user_iff token now s user sound).0 named in
      let (role, step_up) =
        (can_open_terminal_with_session_iff config user token purged_at checked_at
            (current_user token now s).1 (current_user-IsSound token now s sound)).0
          allowed in
      let kept = IsVerified-current_user config token now purged_at checked_at s user sound live in
      record {
        token = token;
        sent = sent;
        live = live;
        role = role;
        step_up = elim step_up [ inl off ↦ inl off | inr verified ↦ inr (kept.0 verified) ];
      }

  pub authorize_complete :
      (s : AuthStore) (user : User) → IsSound s → IsAuthorized s user → (authorize s).0 ≡ ok user
  unfolding authorize_terminal_request
  authorize_complete s user sound a =
      let kept =
        IsVerified-current_user config a.token now purged_at checked_at s user sound a.live in
      let named = (current_user_iff a.token now s user sound).1 a.live in
      let allowed =
        (can_open_terminal_with_session_iff config user a.token purged_at checked_at
            (current_user a.token now s).1 (current_user-IsSound a.token now s sound)).1
          (a.role, elim a.step_up [ inl off ↦ inl off | inr verified ↦ inr (kept.1 verified) ]) in
      ground (arith, a.sent, named, allowed, (role_iff user).1 a.role)

  -- With a sound store of accounts, a request gets a WebSocket for a user exactly if its origin is
  -- allowed, its cookie is the token of a session of this user that has not expired, the user is an
  -- administrator or an operator, the session's second factor was verified no longer ago than
  -- configured where the step-up check is on, and the limiter of new terminals lets the user pass.
  pub terminal_websocket_iff :
      (allowed : List Text) (origin : Option Text) (opened_at : ℕ) (g : Gatekeeper) (user : User)
      → IsSound g.accounts
      → ((terminal_websocket to_str config allowed origin cookies now purged_at checked_at opened_at
            g).0
          ≡ upgrades user)
        ↔ ((is_allowed_origin to_str origin allowed ≡ true)
            × IsAuthorized g.accounts user
            × ((check_and_record user.email opened_at g.limiter).0 ≡ true))
  unfolding terminal_websocket
  terminal_websocket_iff allowed origin opened_at g user sound = (
    λ h. elim (Bool-cases (is_allowed_origin to_str origin allowed)) [
      | inr foreign ↦ absurd (ground arith)
      | inl known ↦ elim (Result-cases (authorize g.accounts).0) [
        | inr (e, refused) ↦ absurd (ground arith)
        | inl (found, granted) ↦
            elim (Bool-cases (check_and_record found.email opened_at g.limiter).0) [
              | inr limited ↦ absurd (ground arith)
              | inl passed ↦
                  let same : found ≡ user = ground arith in
                  (
                    known,
                    authorize_sound g.accounts user sound (granted ∙ ap ok same),
                    subst (λ u. (check_and_record u.email opened_at g.limiter).0 ≡ true) same
                        passed,
                  )
            ]
      ]
    ],
    λ (known, authorized, passed).
        ground (arith, authorize_complete g.accounts user sound authorized),
  )
