-- ===== src/Auth/Tests.antt =====
-- An administrator logs in, proves the second factor and opens a terminal.
use sunbolt.Base.{
  ℕ, ◌-◌, nat_keys, text_keys, ◌≡◌, ◌≢◌, ◌⊎◌, ◌↔◌, ◌&&◌, refl, true, false, none, List, [], Text,
  text, ok, ltb, leb, arith,
}
use sunbolt.Base.Trim.{trim, trim_start, trim_end}
use sunbolt.Base.Dict.{lookup, insert, remove, modify, retain}
use sunbolt.Base.Numerals.{hex}
use sunbolt.Auth.{
  AuthConfig, AuthStore, User, SessionRecord, admin, viewer, normalize_email, password_hash,
  upsert_user, create_user, login, account, logout, current_user, purge, record_mfa_success,
  has_recent_mfa, is_recent, can_open_terminal_with_session, can_open_terminal,
}
use sunbolt.Auth.Sessions.{
  IsSound, IsVerified, has_recent_mfa-record_mfa_success, can_open_terminal_with_session_iff,
  has_recent_mfa-login, current_user-logout,
}

abbrev config : AuthConfig
config = record {
  session_ttl = 100;
  recent_mfa_ttl = 10;
  secure_cookie = true;
  require_step_up_mfa_for_terminal = true;
  bootstrap_admin = false;
  admin_email = [];
  admin_password = [];
}

abbrev empty : AuthStore
empty = record {
  users_by_id = [];
  user_ids_by_email = [];
  sessions_by_token = [];
  next_user_id = 1;
  poisoned = false;
}

-- A stand-in for SHA-256
abbrev identity : List ℕ → List ℕ
identity bytes = bytes

normalize_test : normalize_email (text " Ann@B.c ") ≡ text "ann@b.c"
unfolding normalize_email trim trim_start trim_end
normalize_test = refl

abbrev ann : User
ann = record { id = 1; email = text "ann@b.c"; role = admin }

abbrev token : Text
token = text "t"

abbrev session : SessionRecord
session = record { user_id = 1; expires_at = 105; recent_mfa_at = none }

abbrev store : AuthStore
store = record empty {
  users_by_id = insert 1 (record { user = ann; password_hash = [] }) [];
  user_ids_by_email = insert (text "ann@b.c") 1 [];
  sessions_by_token = insert token session [];
}

store-IsSound : IsSound store
unfolding insert remove lookup
store-IsSound = (refl, (refl, tt))

verify_and_open :
    (can_open_terminal_with_session config ann token 8 9 (record_mfa_success token 6 7 store).1).0
    ≡ ok true
unfolding can_open_terminal_with_session can_open_terminal has_recent_mfa record_mfa_success
    is_recent purge insert remove retain lookup modify
verify_and_open = refl

has_recent_mfa-record_mfa_success_test :
    (has_recent_mfa config token 8 9 (record_mfa_success token 6 7 store).1).0
    ≡ ok (ltb 8 105 && leb (9 - 7) 10)
unfolding lookup insert remove
has_recent_mfa-record_mfa_success_test =
    has_recent_mfa-record_mfa_success config token 6 7 8 9 store session store-IsSound refl
      (omega arith)

can_open_terminal_with_session_iff_example :
    ((can_open_terminal_with_session config ann token 8 9 store).0 ≡ ok true) ↔ (
      (ann.role ≢ viewer)
      × ((config.require_step_up_mfa_for_terminal ≡ false) ⊎ IsVerified config token 8 9 store))
can_open_terminal_with_session_iff_example =
    can_open_terminal_with_session_iff config ann token 8 9 store store-IsSound

abbrev registered : AuthStore
registered = (upsert_user identity (text "Ann@b.c") (text "pw") admin empty).1

registered-IsSound : IsSound registered
unfolding upsert_user create_user lookup insert remove normalize_email password_hash hex trim
    trim_start trim_end
registered-IsSound = (refl, tt)

logs_in :
    (login identity config (text "ann@b.c") (text "pw") token 5 registered).0 ≡ ok (ann, token)
unfolding login account upsert_user create_user lookup insert remove normalize_email password_hash
    hex trim trim_start trim_end
logs_in = refl

has_recent_mfa-login_test :
    (has_recent_mfa config token 6 7
      (login identity config (text "ann@b.c") (text "pw") token 5 registered).1).0
    ≡ ok false
has_recent_mfa-login_test =
    has_recent_mfa-login identity config (text "ann@b.c") (text "pw") token 5 registered
      (ann, token) 6 7 registered-IsSound logs_in

current_user-logout_test :
    ((current_user token 6 (logout token store).1).0 ≡ ok none)
    × ((has_recent_mfa config token 6 7 (logout token store).1).0 ≡ ok false)
current_user-logout_test = current_user-logout config token 6 6 7 store store-IsSound
