-- ===== src/Registry/Queries.antt =====
-- The reading methods of the registry, and its `Drop`. On a poisoned lock a query answers as if the
-- session were gone, and the two timeouts as if they had passed.
use sunbolt.Base.{
  ℕ, ◌-◌, ◌/◌, ◌≡◌, Bool, true, false, ◌&&◌, Option, none, some, List, [], ◌∷◌, Text, text,
  text_keys, text_eq, if◌then◌else◌, leb, nat_eq, any, arith,
}
use sunbolt.Base.Dict.{Dict}
use sunbolt.Terminal.{
  TerminalSessionState, created, starting, active, detached, reattaching, terminating, terminated,
  failed, expired, is_terminal, index,
}
use sunbolt.Protocol.{TerminalTransportStatus}
use sunbolt.Registry.{Registry, TrackedTerminalSession, get, close_backend, is_overdue}

-- `reconnect_token`
pub current_token : Text → Registry → Option Text
current_token id r = elim (get id r) [ none ↦ none | some s ↦ some s.reconnect_token ]

unfoldable pub owner_matches : Text → Text → Registry → Bool
owner_matches id actor_email r = elim (get id r) [
  | none ↦ false
  | some s ↦ text_eq s.actor_email actor_email
]

-- `node_id`
unfoldable pub node_of : Text → Registry → Option Text
node_of id r = elim (get id r) [ none ↦ none | some s ↦ s.node_id ]

-- `state`
unfoldable pub state_of : Text → Registry → Option TerminalSessionState
state_of id r = elim (get id r) [ none ↦ none | some s ↦ some s.state ]

pub is_idle : Text → ℕ → ℕ → Registry → Bool
is_idle id timeout now r = elim (get id r) [
  | none ↦ true
  | some s ↦ leb timeout (now - s.last_activity)
]

pub is_exceeded_max_duration : Text → ℕ → ℕ → Registry → Bool
is_exceeded_max_duration id max_duration now r = elim (get id r) [
  | none ↦ true
  | some s ↦ leb max_duration (now - s.created_at)
]

state_name : TerminalSessionState → Text
state_name created = text "created"
state_name starting = text "starting"
state_name active = text "active"
state_name detached = text "detached"
state_name reattaching = text "reattaching"
state_name terminating = text "terminating"
state_name terminated = text "terminated"
state_name failed = text "failed"
state_name expired = text "expired"

-- The clock counts nanoseconds, as `Duration` does; `as_secs` cuts off the fraction.
abbrev nanos_per_sec : ℕ
nanos_per_sec = 1000000000

pub record TerminalSessionSummary : Type 0 where
  pub session_id : Text
  pub node_id : Option Text
  pub state : Text
  pub cols : ℕ
  pub rows : ℕ
  pub age_secs : ℕ
  pub idle_secs : ℕ
  pub transport_status : Option TerminalTransportStatus

summary : ℕ → Text → TrackedTerminalSession → TerminalSessionSummary
summary now id s = record {
  session_id = id;
  node_id = s.node_id;
  state = state_name s.state;
  cols = s.size.cols;
  rows = s.size.rows;
  age_secs = (now - s.created_at) / nanos_per_sec;
  idle_secs = (now - s.last_activity) / nanos_per_sec;
  transport_status = s.transport_status;
}

-- The filter of `list_sessions_for_actor`
abbrev is_listed : Text → List TerminalSessionState → TrackedTerminalSession → Bool
is_listed actor_email states s =
    text_eq s.actor_email actor_email && any (λ t. nat_eq (index t) (index s.state)) states

summaries :
    Text
    → List TerminalSessionState
    → ℕ
    → Dict Text TrackedTerminalSession
    → List TerminalSessionSummary
summaries actor_email states now [] = []
summaries actor_email states now ((id, s) ∷ d) =
    let rest = summaries actor_email states now d in
    if is_listed actor_email states s then summary now id s ∷ rest else rest

pub list_sessions_for_actor :
    Text → List TerminalSessionState → ℕ → Registry → List TerminalSessionSummary
list_sessions_for_actor actor_email states now r =
    if r.poisoned then [] else summaries actor_email states now r.sessions

close_all : Dict Text TrackedTerminalSession → List ℕ → List ℕ
close_all [] closed = closed
close_all ((_, s) ∷ d) closed = close_all d (close_backend s.backend closed)

-- `Drop`: the last handle closes every local PTY.
pub drop_registry : ℕ → Registry → Registry
drop_registry handles r =
    if nat_eq handles 1
    then (if r.poisoned
        then r
        else record r { sessions = []; closed = close_all r.sessions r.closed })
    else r

-- The two timeouts and the sweep agree: a live session is overdue exactly if it has exceeded the
-- maximal duration, or is detached and idle, by the queries at the same time.
pub is_overdue-queries :
    (id : Text) (max_duration idle now : ℕ) (r : Registry) (s : TrackedTerminalSession)
    → get id r ≡ some s
    → is_terminal s.state ≡ false
    → is_overdue max_duration idle now s ≡ (
        if is_exceeded_max_duration id max_duration now r
        then true
        else nat_eq (index s.state) (index detached) && is_idle id idle now r)
unfolding is_overdue is_exceeded_max_duration is_idle
is_overdue-queries id max_duration idle now r s found live = ground arith
