-- ===== src/Auth.antt =====
-- crates/sunbolt-auth/src/lib.rs: accounts, sessions and the step-up check of terminals. Each call is
-- one step on the store at the time that it reads; SHA-256 and the random token are arguments.
use sunbolt.Base.{
  ◌%◌, ◌^◌, ℕ, ◌+◌, ◌-◌, ◌++◌, Bool, true, false, not, ◌&&◌, ◌||◌, Option, none, some, List, Text,
  text, text_keys, nat_keys, text_eq, ltb, leb, nat_eq, if◌then◌else◌, Result, ok, err, map, length,
}
use sunbolt.Base.Trim.{trim}
use sunbolt.Base.Dict.{Dict, lookup, insert, remove, modify, retain}
use sunbolt.Base.Numerals.{hex}
pub mod Reading
pub mod Rbac
pub mod Sessions
mod Tests

pub record AuthConfig : Type 0 where
  pub session_ttl : ℕ
  pub recent_mfa_ttl : ℕ
  pub secure_cookie : Bool
  pub require_step_up_mfa_for_terminal : Bool
  pub bootstrap_admin : Bool
  pub admin_email : Text
  pub admin_password : Text

pub data UserRole : Type 0 where
  admin operator viewer : UserRole

pub record User : Type 0 where
  pub id : ℕ
  pub email : Text
  pub role : UserRole

pub record StoredUser : Type 0 where
  pub user : User
  pub password_hash : Text

pub record SessionRecord : Type 0 where
  pub user_id : ℕ
  pub expires_at : ℕ
  pub recent_mfa_at : Option ℕ

-- The part of `AuthStore` that these operations use, the counter of users and whether the lock is
-- poisoned.
pub record AuthStore : Type 0 where
  pub users_by_id : Dict ℕ StoredUser
  pub user_ids_by_email : Dict Text ℕ
  pub sessions_by_token : Dict Text SessionRecord
  pub next_user_id : ℕ
  pub poisoned : Bool

pub data AuthError : Type 0 where
  invalid_credentials invalid_session user_not_found : AuthError
  invalid_factor_label factor_not_enrolled factor_type_mismatch : AuthError
  factor_verification_failed totp_secret_missing recovery_code_invalid : AuthError
  invalid_passkey_relying_party invalid_passkey_credential : AuthError
  passkey_challenge_not_found passkey_credential_unavailable : AuthError
  invalid_rbac_record rbac_record_not_found : AuthError
  store_unavailable : Text → AuthError

abbrev pub lower : ℕ → ℕ
lower a = if leb 65 a && leb a 90 then a + 32 else a

pub normalize_email : Text → Text
normalize_email email = map lower (trim email)

pub password_hash : (List ℕ → List ℕ) → Text → Text
password_hash digest password = hex (digest (text "sunbolt-dev-v1:" ++ password))

-- The end of `upsert_user` for a known and for a new address.
pub update_user : ℕ → Text → UserRole → AuthStore → Result AuthError User × AuthStore
update_user user_id hash role s = elim (lookup user_id s.users_by_id) [
  | none ↦ (err (store_unavailable (text "user-record")), s)
  | some stored ↦
      let updated = record stored {
        user = record stored.user { role = role };
        password_hash = hash;
      } in
      (ok updated.user, record s { users_by_id = modify user_id (λ _. updated) s.users_by_id })
]

pub create_user : Text → Text → UserRole → AuthStore → Result AuthError User × AuthStore
create_user email hash role s =
    let user : User = record { id = s.next_user_id; email = email; role = role } in
    (
      ok user,
      record s {
        users_by_id =
            insert s.next_user_id (record { user = user; password_hash = hash }) s.users_by_id;
        user_ids_by_email = insert email s.next_user_id s.user_ids_by_email;
        next_user_id = (s.next_user_id + 1) % 2 ^ 64;
      },
    )

pub upsert_user :
    (List ℕ → List ℕ) → Text → Text → UserRole → AuthStore → Result AuthError User × AuthStore
upsert_user digest email password role s =
    if nat_eq (length (trim email)) 0 || nat_eq (length password) 0
    then (err invalid_credentials, s)
    else if s.poisoned
    then (err (store_unavailable (text "users")), s)
    else elim (lookup (normalize_email email) s.user_ids_by_email) [
      | none ↦ create_user (normalize_email email) (password_hash digest password) role s
      | some user_id ↦ update_user user_id (password_hash digest password) role s
    ]

-- The account that `login` finds.
pub account : Text → AuthStore → Option StoredUser
account email s = elim (lookup (normalize_email email) s.user_ids_by_email) [
  | none ↦ none
  | some user_id ↦ lookup user_id s.users_by_id
]

abbrev pub fresh_session : AuthConfig → User → ℕ → SessionRecord
fresh_session config user now = record {
  user_id = user.id;
  expires_at = now + config.session_ttl;
  recent_mfa_at = none;
}

pub login :
    (List ℕ → List ℕ)
    → AuthConfig
    → Text
    → Text
    → Text
    → ℕ
    → AuthStore
    → Result AuthError (User × Text) × AuthStore
login digest config email password token now s =
    if s.poisoned then (err (store_unavailable (text "sessions")), s) else elim (account email s) [
      | none ↦ (err invalid_credentials, s)
      | some stored ↦
          if not (text_eq stored.password_hash (password_hash digest password))
          then (err invalid_credentials, s)
          else (
            ok (stored.user, token),
            record s {
              sessions_by_token =
                  insert token (fresh_session config stored.user now) s.sessions_by_token;
            },
          )
    ]

abbrev pub is_live : ℕ → SessionRecord → Bool
is_live now session = ltb now session.expires_at

-- `purge_expired_sessions_locked`
pub purge : ℕ → AuthStore → AuthStore
purge now s = record s { sessions_by_token = retain (is_live now) s.sessions_by_token }

pub current_user : Text → ℕ → AuthStore → Result AuthError (Option User) × AuthStore
current_user token now s =
    if s.poisoned
    then (err (store_unavailable (text "sessions")), s)
    else let purged = purge now s in
      elim (lookup token purged.sessions_by_token) [
        | none ↦ (ok none, purged)
        | some session ↦ (
          ok (elim (lookup session.user_id s.users_by_id) [ none ↦ none | some u ↦ some u.user ]),
          purged,
        )
      ]

pub logout : Text → AuthStore → Result AuthError (Unit {0}) × AuthStore
logout token s =
    if s.poisoned
    then (err (store_unavailable (text "sessions")), s)
    else (ok tt, record s { sessions_by_token = remove token s.sessions_by_token })

pub can_open_terminal : User → Bool
can_open_terminal user = elim user.role [ viewer ↦ false | _ ↦ true ]

-- `verified_at.elapsed() <= recent_mfa_ttl`, where there is such a time.
pub is_recent : AuthConfig → ℕ → SessionRecord → Bool
is_recent config now session = elim session.recent_mfa_at [
  | none ↦ false
  | some verified_at ↦ leb (now - verified_at) config.recent_mfa_ttl
]

-- `purged_at` is the time that the purge reads, `now` the one read after it.
pub has_recent_mfa : AuthConfig → Text → ℕ → ℕ → AuthStore → Result AuthError Bool × AuthStore
has_recent_mfa config token purged_at now s =
    if s.poisoned
    then (err (store_unavailable (text "sessions")), s)
    else let purged = purge purged_at s in
      elim (lookup token purged.sessions_by_token) [
        | none ↦ (ok false, purged)
        | some session ↦ (ok (is_recent config now session), purged)
      ]

pub record_mfa_success : Text → ℕ → ℕ → AuthStore → Result AuthError (Unit {0}) × AuthStore
record_mfa_success token purged_at now s =
    if s.poisoned
    then (err (store_unavailable (text "sessions")), s)
    else let purged = purge purged_at s in
      elim (lookup token purged.sessions_by_token) [
        | none ↦ (err invalid_session, purged)
        | some _ ↦ (
          ok tt,
          record purged {
            sessions_by_token =
                modify token (λ session. record session { recent_mfa_at = some now })
                  purged.sessions_by_token;
          },
        )
      ]

pub can_open_terminal_with_session :
    AuthConfig → User → Text → ℕ → ℕ → AuthStore → Result AuthError Bool × AuthStore
can_open_terminal_with_session config user token purged_at now s =
    if not (can_open_terminal user)
    then (ok false, s)
    else if not config.require_step_up_mfa_for_terminal
    then (ok true, s)
    else has_recent_mfa config token purged_at now s
