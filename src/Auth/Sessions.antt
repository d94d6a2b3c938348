-- ===== src/Auth/Sessions.antt =====
-- What a session is good for: how long it lives, and when it opens a terminal.
use sunbolt.Base.{
  List, ℕ, ◌-◌, ◌≤◌, ◌<◌, ◌≡◌, ◌≢◌, ◌↔◌, ◌⊎◌, inl, inr, refl, Bool, true, false, not, Option, none,
  some, Text, text_keys, nat_keys, text_eq_refl, ltb, leb, ok, Bool-cases, Option-cases, arith,
  ◌&&◌, ◌||◌,
}
use sunbolt.Base.Dict.{lookup, insert, remove, retain, lookup-insert, lookup-remove, lookup-modify}
use sunbolt.Base.Dict.Unique.{
  IsUnique, only, lookup-retain, modify-IsUnique, lookup-retain-none, retain-IsUnique,
  insert-IsUnique,
}
use sunbolt.Auth.{
  AuthConfig, AuthStore, User, SessionRecord, admin, operator, viewer, is_live, purge, current_user,
  logout, can_open_terminal, is_recent, has_recent_mfa, record_mfa_success,
  can_open_terminal_with_session, fresh_session, login, account,
}

-- The lock works and no token is there twice.
abbrev pub IsSound : AuthStore → Type 0
IsSound s = (s.poisoned ≡ false) × IsUnique s.sessions_by_token

-- The session of a token at a time, if it has not expired.
abbrev pub session_at : Text → ℕ → AuthStore → Option SessionRecord
session_at token now s = only (is_live now) (lookup token s.sessions_by_token)

-- What a session says of its second factor.
abbrev pub recent : AuthConfig → ℕ → Option SessionRecord → Bool
recent config now none = false
recent config now (some session) = is_recent config now session

has_recent_mfa-answer :
    (config : AuthConfig) (token : Text) (purged_at now : ℕ) (s : AuthStore)
    → IsSound s
    → (has_recent_mfa config token purged_at now s).0
      ≡ ok (recent config now (session_at token purged_at s))
unfolding has_recent_mfa purge
has_recent_mfa-answer config token purged_at now s sound =
    ground (arith, lookup-retain (is_live purged_at) token s.sessions_by_token)

pub record_mfa_success-IsSound :
    (token : Text) (t now : ℕ) (s : AuthStore)
    → IsSound s
    → IsSound (record_mfa_success token t now s).1
unfolding record_mfa_success purge
record_mfa_success-IsSound token t now s (works, unique) =
    let kept = retain-IsUnique (is_live t) s.sessions_by_token unique in
    ground (
      arith,
      kept,
      modify-IsUnique token (λ x. record x { recent_mfa_at = some now })
          (retain (is_live t) s.sessions_by_token) kept,
    )

pub record_mfa_success-lookup :
    (token : Text) (t now : ℕ) (s : AuthStore) (session : SessionRecord)
    → IsSound s
    → lookup token s.sessions_by_token ≡ some session
    → t < session.expires_at
    → lookup token (record_mfa_success token t now s).1.sessions_by_token
      ≡ some (record session { recent_mfa_at = some now })
unfolding record_mfa_success purge
record_mfa_success-lookup token t now s session (works, unique) found live = ground (
  arith,
  text_eq_refl token,
  lookup-retain (is_live t) token s.sessions_by_token unique,
  lookup-modify token token (λ x. record x { recent_mfa_at = some now })
      (retain (is_live t) s.sessions_by_token),
)

-- On a sound store, after a `record_mfa_success` of a session that is live, `has_recent_mfa` says yes exactly while the
-- session has not expired and no more than the configured time has passed since.
pub has_recent_mfa-record_mfa_success :
    (config : AuthConfig) (token : Text) (t now t' now' : ℕ) (s : AuthStore)
    (session : SessionRecord)
    → IsSound s
    → lookup token s.sessions_by_token ≡ some session
    → t < session.expires_at
    → (has_recent_mfa config token t' now' (record_mfa_success token t now s).1).0
      ≡ ok (ltb t' session.expires_at && leb (now' - now) config.recent_mfa_ttl)
unfolding is_recent
has_recent_mfa-record_mfa_success config token t now t' now' s session sound found live = ground (
  arith,
  has_recent_mfa-answer config token t' now' (record_mfa_success token t now s).1
      (record_mfa_success-IsSound token t now s sound),
  record_mfa_success-lookup token t now s session sound found live,
)

-- What must hold for a session to open a terminal when the step-up check is on.
abbrev pub IsVerified : AuthConfig → Text → ℕ → ℕ → AuthStore → Type 0
IsVerified config token purged_at now s =
    (session : SessionRecord) × (verified_at : ℕ) × (lookup token s.sessions_by_token
      ≡ some session)
    × (purged_at < session.expires_at)
    × (session.recent_mfa_at ≡ some verified_at)
    × (now - verified_at ≤ config.recent_mfa_ttl)

recent_sound :
    (config : AuthConfig) (token : Text) (t now : ℕ) (s : AuthStore)
    → recent config now (session_at token t s) ≡ true
    → IsVerified config token t now s
unfolding is_recent
recent_sound config token t now s h = elim (Option-cases (lookup token s.sessions_by_token)) [
  | inl missing ↦ absurd (ground arith)
  | inr (session, found) ↦ elim (Option-cases session.recent_mfa_at) [
    | inl never ↦ absurd (ground arith)
    | inr (verified_at, at) ↦ (session, verified_at, found, ground arith, at, ground arith)
  ]
]

recent_complete :
    (config : AuthConfig) (token : Text) (t now : ℕ) (s : AuthStore)
    → IsVerified config token t now s
    → recent config now (session_at token t s) ≡ true
unfolding is_recent
recent_complete config token t now s (session, verified_at, found, live, at, fresh) = ground arith

can_open_terminal_with_session-answer :
    (config : AuthConfig) (user : User) (token : Text) (t now : ℕ) (s : AuthStore)
    → IsSound s
    → (can_open_terminal_with_session config user token t now s).0
      ≡ ok (
          can_open_terminal user
          && (not config.require_step_up_mfa_for_terminal
              || recent config now (session_at token t s)))
unfolding can_open_terminal_with_session
can_open_terminal_with_session-answer config user token t now s sound =
    ground (arith, has_recent_mfa-answer config token t now s sound)

pub role_iff : (user : User) → (can_open_terminal user ≡ true) ↔ (user.role ≢ viewer)
unfolding can_open_terminal
role_iff user =
    elim user.role as (λ r. (elim r [ viewer ↦ false | _ ↦ true ] ≡ true) ↔ (r ≢ viewer)) [
      | admin ↦ (λ _. λ e. cc, λ _. refl)
      | operator ↦ (λ _. λ e. cc, λ _. refl)
      | viewer ↦ (λ h. λ _. cc, λ n. absurd (n refl))
    ]

-- A sound store (the lock works, no token is there twice) lets a user open a terminal with a token exactly if the user is an administrator or
-- an operator and, where the step-up check is on, the token's session has not expired and its second
-- factor was verified no longer ago than configured.
pub can_open_terminal_with_session_iff :
    (config : AuthConfig) (user : User) (token : Text) (t now : ℕ) (s : AuthStore)
    → IsSound s
    → ((can_open_terminal_with_session config user token t now s).0 ≡ ok true) ↔ (
        (user.role ≢ viewer)
        × ((config.require_step_up_mfa_for_terminal ≡ false) ⊎ IsVerified config token t now s))
can_open_terminal_with_session_iff config user token t now s sound = (
  λ h.
      let both : (can_open_terminal user ≡ true)
          × ((not config.require_step_up_mfa_for_terminal
                || recent config now (session_at token t s))
              ≡ true) =
        ground (arith, can_open_terminal_with_session-answer config user token t now s sound) in
      (
        (role_iff user).0 both.0,
        elim (Bool-cases config.require_step_up_mfa_for_terminal) [
          | inl on ↦ inr (recent_sound config token t now s (ground arith))
          | inr off ↦ inl off
        ],
      ),
  λ (role, h).
      let allowed : can_open_terminal user ≡ true = (role_iff user).1 role in
      elim h [
        | inl off ↦
            ground (arith, can_open_terminal_with_session-answer config user token t now s sound)
        | inr verified ↦ ground (
          arith,
          can_open_terminal_with_session-answer config user token t now s sound,
          recent_complete config token t now s verified,
        )
      ],
)

login-session :
    (digest : List ℕ → List ℕ) (config : AuthConfig) (email password token : Text) (now : ℕ)
    (s : AuthStore) (answer : User × Text)
    → IsSound s
    → (login digest config email password token now s).0 ≡ ok answer
    → (login digest config email password token now s).1 ≡ record s {
      sessions_by_token = insert token (fresh_session config answer.0 now) s.sessions_by_token;
    }
unfolding login
login-session digest config email password token now s answer (works, unique) granted =
    elim (Option-cases (account email s)) [
      | inl missing ↦ absurd (ground arith)
      | inr (stored, found) ↦ ground arith
    ]

-- On a sound store, a session just made by a successful `login` does not count as recently verified, whenever it is asked.
pub has_recent_mfa-login :
    (digest : List ℕ → List ℕ) (config : AuthConfig) (email password token : Text) (now : ℕ)
    (s : AuthStore) (answer : User × Text) (t' now' : ℕ)
    → IsSound s
    → (login digest config email password token now s).0 ≡ ok answer
    → (has_recent_mfa config token t' now' (login digest config email password token now s).1).0
      ≡ ok false
unfolding is_recent
has_recent_mfa-login digest config email password token now s answer t' now' (works, unique)
      granted =
    let session = fresh_session config answer.0 now in
    rw (login-session digest config email password token now s answer (works, unique) granted) (
      ground (
        arith,
        text_eq_refl token,
        lookup-insert token token session s.sessions_by_token,
        has_recent_mfa-answer config token t' now'
            (record s { sessions_by_token = insert token session s.sessions_by_token })
            (works, insert-IsUnique token session s.sessions_by_token unique),
      ))

-- On a sound store, after `logout` of a token it names no user and no recently verified session.
pub current_user-logout :
    (config : AuthConfig) (token : Text) (t t' now' : ℕ) (s : AuthStore)
    → IsSound s
    → ((current_user token t (logout token s).1).0 ≡ ok none)
      × ((has_recent_mfa config token t' now' (logout token s).1).0 ≡ ok false)
unfolding current_user has_recent_mfa logout purge
current_user-logout config token t t' now' s (works, unique) = (
  ground (
    arith,
    text_eq_refl token,
    lookup-remove token token s.sessions_by_token,
    lookup-retain-none (is_live t) token (remove token s.sessions_by_token),
  ),
  ground (
    arith,
    text_eq_refl token,
    lookup-remove token token s.sessions_by_token,
    lookup-retain-none (is_live t') token (remove token s.sessions_by_token),
  ),
)
