-- ===== src/Auth/Reading.antt =====
-- Whom a session token names, and what reading it leaves of the store.
use sunbolt.Base.{
  refl, ap, ◌∙◌, ◌≤◌, ◌-◌, ◌<◌, ◌≡◌, ◌↔◌, ℕ, some, none, Option, Text, text_keys, nat_keys, ok,
  arith, Option-cases, inl, inr,
}
use sunbolt.Base.Dict.{lookup}
use sunbolt.Base.Dict.Unique.{lookup-retain, retain-IsUnique}
use sunbolt.Auth.{
  AuthConfig, AuthStore, StoredUser, User, SessionRecord, current_user, record_mfa_success, purge,
  is_live,
}
use sunbolt.Auth.Sessions.{record_mfa_success-lookup, IsSound, IsVerified, session_at}

-- The token is of a session that has not expired, of an account whose public part is `user`.
pub record Names (token : Text) (now : ℕ) (s : AuthStore) (user : User) : Type 0 where
  pub session : SessionRecord
  pub account : StoredUser
  pub found : lookup token s.sessions_by_token ≡ some session
  pub unexpired : now < session.expires_at
  pub known : lookup session.user_id s.users_by_id ≡ some account
  pub is_user : account.user ≡ user

current_user-purged :
    (token : Text) (now : ℕ) (s : AuthStore)
    → IsSound s
    → (current_user token now s).1 ≡ purge now s
unfolding current_user
current_user-purged token now s sound =
    elim (Option-cases (lookup token (purge now s).sessions_by_token)) [
      | inl gone ↦ ground arith
      | inr (session, found) ↦ ground arith
    ]

pub current_user-IsSound :
    (token : Text) (now : ℕ) (s : AuthStore) → IsSound s → IsSound (current_user token now s).1
current_user-IsSound token now s sound =
    rw (current_user-purged token now s sound)
      (unfold purge in (sound.0, retain-IsUnique (is_live now) s.sessions_by_token sound.1))

abbrev named : Option SessionRecord → AuthStore → Option User
named none s = none
named (some session) s = elim (lookup session.user_id s.users_by_id) [
  | none ↦ none
  | some u ↦ some u.user
]

current_user-answer :
    (token : Text) (now : ℕ) (s : AuthStore)
    → IsSound s
    → (current_user token now s).0 ≡ ok (named (session_at token now s) s)
unfolding current_user purge
current_user-answer token now s (works, unique) =
    ground (arith, lookup-retain (is_live now) token s.sessions_by_token unique)

named_sound :
    (token : Text) (now : ℕ) (s : AuthStore) (user : User)
    → named (session_at token now s) s ≡ some user
    → Names token now s user
named_sound token now s user h = elim (Option-cases (lookup token s.sessions_by_token)) [
  | inl gone ↦ absurd (ground arith)
  | inr (session, found) ↦ elim (Option-cases (lookup session.user_id s.users_by_id)) [
    | inl nobody ↦ absurd (ground arith)
    | inr (account, known) ↦ record {
      session = session;
      account = account;
      found = found;
      unexpired = ground arith;
      known = known;
      is_user = ground arith;
    }
  ]
]

named_complete :
    (token : Text) (now : ℕ) (s : AuthStore) (user : User)
    → Names token now s user
    → named (session_at token now s) s ≡ some user
named_complete token now s user n = ground (arith, n.found, n.unexpired, n.known, n.is_user)

pub current_user_iff :
    (token : Text) (now : ℕ) (s : AuthStore) (user : User)
    → IsSound s
    → ((current_user token now s).0 ≡ ok (some user)) ↔ Names token now s user
current_user_iff token now s user sound = (
  λ h. named_sound token now s user (ground (arith, current_user-answer token now s sound)),
  λ n. ground (arith, current_user-answer token now s sound, named_complete token now s user n),
)

-- Reading a live session leaves it as it is.
pub IsVerified-current_user :
    (config : AuthConfig) (token : Text) (now t checked_at : ℕ) (s : AuthStore) (user : User)
    → IsSound s
    → Names token now s user
    → IsVerified config token t checked_at (current_user token now s).1
      ↔ IsVerified config token t checked_at s
unfolding purge
IsVerified-current_user config token now t checked_at s user sound n =
    let same : lookup token (current_user token now s).1.sessions_by_token
        ≡ lookup token s.sessions_by_token =
      rw (current_user-purged token now s sound) (
        ground (
          arith,
          n.found,
          n.unexpired,
          lookup-retain (is_live now) token s.sessions_by_token sound.1,
        )) in
    rw same (λ v. v, λ v. v)

pub record_mfa_success-users :
    (token : Text) (t now : ℕ) (s : AuthStore)
    → (record_mfa_success token t now s).1.users_by_id ≡ s.users_by_id
unfolding record_mfa_success purge
record_mfa_success-users token t now s = ground arith

pub record_mfa_success-ok :
    (token : Text) (t now : ℕ) (s : AuthStore) (session : SessionRecord)
    → IsSound s
    → lookup token s.sessions_by_token ≡ some session
    → t < session.expires_at
    → (record_mfa_success token t now s).0 ≡ ok tt
unfolding record_mfa_success purge
record_mfa_success-ok token t now s session (works, unique) found live =
    ground (arith, lookup-retain (is_live t) token s.sessions_by_token unique)

-- What a token says of a user after a success of the second factor at `at`.
pub record_mfa_success-Names :
    (config : AuthConfig) (token : Text) (t at now purged_at checked_at : ℕ) (s : AuthStore)
    (user : User)
    → IsSound s
    → (n : Names token t s user) → now < n.session.expires_at
    → purged_at < n.session.expires_at
    → checked_at - at ≤ config.recent_mfa_ttl
    → Names token now (record_mfa_success token t at s).1 user
      × IsVerified config token purged_at checked_at (record_mfa_success token t at s).1
record_mfa_success-Names config token t at now purged_at checked_at s user sound n later purged
      soon =
    let marked : SessionRecord = record n.session { recent_mfa_at = some at } in
    let found = record_mfa_success-lookup token t at s n.session sound n.found n.unexpired in
    (
      record {
        session = marked;
        account = n.account;
        found = found;
        unexpired = later;
        known = ap (lookup n.session.user_id) (record_mfa_success-users token t at s) ∙ n.known;
        is_user = n.is_user;
      },
      (marked, at, found, purged, refl, soon),
    )
