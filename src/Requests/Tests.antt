-- ===== src/Requests/Tests.antt =====
-- An administrator with a verified second factor asks for a WebSocket.
use sunbolt.Base.{
  ok, arith, nat_keys, ◌≡◌, ◌↔◌, refl, true, false, List, [], ◌∷◌, Text, text, Option, some, none,
  text_keys,
}
use sunbolt.Base.Trim.{trim, trim_start, trim_end}
use sunbolt.Base.Dict.{lookup, insert, remove}
use sunbolt.Auth.{SessionRecord, AuthConfig, AuthStore, User, admin}
use sunbolt.Auth.Sessions.{IsSound}
use sunbolt.Config.{is_allowed_origin}
use sunbolt.RateLimit.{check_and_record, evict, new}
use sunbolt.Requests.{
  authorize_terminal_request, Gatekeeper, upgrades, session_token_from_headers, find_token,
  split_from, split_once, terminal_websocket,
}
use sunbolt.Auth.Reading.{Names}
use sunbolt.Factors.{password}
use sunbolt.Requests.Accounts.{Desk, accepts, auth_mfa_step_up}
use sunbolt.Requests.StepUp.{auth_mfa_step_up-authorizes}
use sunbolt.Requests.Gate.{IsAuthorized, terminal_websocket_iff}

abbrev config : AuthConfig
config = record {
  session_ttl = 100;
  recent_mfa_ttl = 10;
  secure_cookie = true;
  require_step_up_mfa_for_terminal = true;
  bootstrap_admin = false;
  admin_email = [];
  admin_password = [];
}

abbrev ann : User
ann = record { id = 1; email = text "ann@b.c"; role = admin }

abbrev accounts : AuthStore
accounts = record {
  users_by_id = (1, record { user = ann; password_hash = [] }) ∷ [];
  user_ids_by_email = (text "ann@b.c", 1) ∷ [];
  sessions_by_token =
      (text "tok", record { user_id = 1; expires_at = 105; recent_mfa_at = some 5 }) ∷ [];
  next_user_id = 2;
  poisoned = false;
}

abbrev gatekeeper : Gatekeeper
gatekeeper = record { accounts = accounts; limiter = new 60 3; recorded = [] }

abbrev cookies : Option Text
cookies = some (text "a=b; sunbolt_session=tok")

abbrev to_str : Text → Option Text
to_str t = some t

finds_token : session_token_from_headers to_str cookies ≡ some (text "tok")
unfolding session_token_from_headers find_token split_from split_once trim trim_end trim_start
finds_token = refl

-- A piece without `=` hides the token that follows it.
misses_token : session_token_from_headers to_str (some (text "flag; sunbolt_session=tok")) ≡ none
unfolding session_token_from_headers find_token split_from split_once trim trim_end trim_start
misses_token = refl

accounts-IsSound : IsSound accounts
unfolding lookup
accounts-IsSound = (refl, (refl, tt))

abbrev origins : List Text
origins = text "https://a.b" ∷ []

terminal_websocket_iff_example :
    ((terminal_websocket to_str config origins
        (some (text "https://a.b"))
        cookies
        6
        6
        7
        8
        gatekeeper).0
      ≡ upgrades ann)
    ↔ ((is_allowed_origin to_str (some (text "https://a.b")) origins ≡ true)
        × IsAuthorized to_str config cookies 6 6 7 accounts ann
        × ((check_and_record ann.email 8 gatekeeper.limiter).0 ≡ true))
terminal_websocket_iff_example =
    terminal_websocket_iff to_str config cookies 6 6 7 origins (some (text "https://a.b")) 8
      gatekeeper ann accounts-IsSound

-- Before the step-up check the session's second factor is not verified.
abbrev unverified : AuthStore
unverified = record accounts {
  sessions_by_token =
      (text "tok", record { user_id = 1; expires_at = 105; recent_mfa_at = none }) ∷ [];
}

unverified-IsSound : IsSound unverified
unfolding lookup
unverified-IsSound = (refl, (refl, tt))

abbrev session : SessionRecord
session = record { user_id = 1; expires_at = 105; recent_mfa_at = none }

finds_session : lookup (text "tok") unverified.sessions_by_token ≡ some session
unfolding lookup
finds_session = refl

finds_account : lookup 1 unverified.users_by_id ≡ some (record { user = ann; password_hash = [] })
unfolding lookup
finds_account = refl

abbrev names_ann : Names (text "tok") 6 unverified ann
names_ann = record {
  session = session;
  account = record { user = ann; password_hash = [] };
  found = finds_session;
  unexpired = omega arith;
  known = finds_account;
  is_user = refl;
}

abbrev desk : Desk
desk = record {
  accounts = unverified;
  login_limiter = new 60 3;
  mfa_limiter = new 60 3;
  recorded = [];
}

passes : (check_and_record ann.email 6 desk.mfa_limiter).0 ≡ true
unfolding check_and_record evict new lookup insert remove
passes = refl

auth_mfa_step_up-authorizes_example :
    let (reply, after) = auth_mfa_step_up to_str ann cookies password 6 6 7 desk in
    (reply ≡ accepts)
    × ((authorize_terminal_request to_str config cookies 8 8 9 after.accounts).0 ≡ ok ann)
auth_mfa_step_up-authorizes_example =
    auth_mfa_step_up-authorizes to_str config ann cookies (text "tok") password 6 6 7 desk 8 8 9
      unverified-IsSound finds_token names_ann passes (λ e. cc) (omega arith) (omega arith)
      (omega arith)
