-- ===== src/Registry.antt =====
-- crates/sunbolt-control/src/terminal/session_registry.rs: the live terminal sessions. Every method
-- takes the lock for its whole run, so each is one step on the state; `poisoned` says that a thread
-- panicked under the lock. The clock is read once a call, and random tokens and new channels are
-- arguments.
mod Session
pub mod Calls
pub mod Removal
pub mod Limits
pub mod Cases
pub mod Bounded
pub mod Frame
pub mod Replay
mod Closing
pub mod Sweep
pub mod Sequence
pub mod Reattach
pub mod States
pub mod Gone
pub mod Others
pub mod Inserted
pub mod Queries
mod Tests
unfoldable pub use Session.*
use sunbolt.Base.{
  ℕ, ◌+◌, ◌-◌, Bool, false, not, ◌&&◌, ◌||◌, Option, none, some, List, [], ◌∷◌, min, Text,
  text_keys, text_eq, if◌then◌else◌, leb, nat_eq, length, Result, ok, err,
}
use sunbolt.Base.Dict.{Dict, lookup, remove, insert, modify, count, keys}
use sunbolt.Terminal.{
  TerminalSessionState, detached, reattaching, terminating, expired, can_transition_to,
  is_reattachable, is_terminal, index,
}
use sunbolt.Protocol.{TerminalSize, TerminalServerMessage, output}

pub record Registry : Type 0 where
  pub poisoned : Bool
  pub sessions : Dict Text TrackedTerminalSession
  -- The local PTYs that were closed, newest first.
  pub closed : List ℕ

pub empty : Registry
empty = record { poisoned = false; sessions = []; closed = [] }

pub insert_backend :
    TerminalSessionInsert → Text → ℕ → ℕ → Registry → Result SessionLimitError ℕ × Registry
insert_backend request token output_tx now r =
    if r.poisoned
    then (err global_capacity, r)
    else if leb request.config.max_sessions (length r.sessions)
    then (err global_capacity, r)
    else if leb request.config.max_sessions_per_user
        (count (live_for request.actor_email) r.sessions)
    then (err per_user, r)
    else if leb request.config.max_sessions_per_node (count (live_on request.node_id) r.sessions)
    then (err per_node, r)
    else (
      ok output_tx,
      record r {
        sessions = insert request.session_id (fresh request token output_tx now) r.sessions;
      },
    )

-- `insert`, for a PTY on this host
unfoldable pub insert_local :
    Text
    → ℕ
    → TerminalSize
    → TerminalSessionConfig
    → Text
    → Option Text
    → Text
    → ℕ
    → ℕ
    → Registry
    → Result SessionLimitError ℕ × Registry
insert_local session_id session size config actor_email node_id = insert_backend (record {
  session_id = session_id;
  backend = local_pty session;
  size = size;
  config = config;
  actor_email = actor_email;
  node_id = node_id;
  transport_status = none;
})

unfoldable pub insert_remote :
    Text
    → RemoteTerminalSession
    → TerminalSize
    → TerminalSessionConfig
    → Text
    → Text
    → ℕ
    → ℕ
    → Registry
    → Result SessionLimitError ℕ × Registry
insert_remote session_id r size config actor_email = insert_backend (record {
  session_id = session_id;
  backend = remote r.command_tx;
  size = size;
  config = config;
  actor_email = actor_email;
  node_id = some r.node_id;
  transport_status = some r.transport_status;
})

-- `if let Ok(mut sessions) = lock() { if let Some(session) = sessions.get_mut(id) { … } }`
abbrev pub write : Text → (TrackedTerminalSession → TrackedTerminalSession) → Registry → Registry
write id f r = record r { sessions = modify id f r.sessions }

abbrev pub update : Text → (TrackedTerminalSession → TrackedTerminalSession) → Registry → Registry
update id f r = if r.poisoned then r else write id f r

pub move_state : TerminalSessionState → TrackedTerminalSession → TrackedTerminalSession
move_state next s =
    if not (can_transition_to s.state next) && not (nat_eq (index s.state) (index next))
    then s
    else record s { state = next }

pub set_state : Text → TerminalSessionState → Registry → Registry
set_state id next = update id (move_state next)

unfoldable pub detach : Text → Registry → Registry
detach id = set_state id detached

pub touch : Text → ℕ → Registry → Registry
touch id now = update id (λ s. record s { last_activity = now })

pub set_size : Text → TerminalSize → Registry → Registry
set_size id size = update id (λ s. record s { size = size })

abbrev pub get : Text → Registry → Option TrackedTerminalSession
get id r = if r.poisoned then none else lookup id r.sessions

abbrev pub renew : Text → ℕ → TrackedTerminalSession → TrackedTerminalSession
renew token now s = record s { reconnect_token = token; state = reattaching; last_activity = now }

-- The three refusals of `reattach`.
pub may_reattach : Text → Text → TrackedTerminalSession → Bool
may_reattach token actor_email s =
    if not (text_eq s.actor_email actor_email) || not (is_reattachable s.state)
    then false
    else text_eq s.reconnect_token token

pub reattach : Text → Text → Text → Text → ℕ → Registry → Option TerminalReattachTarget × Registry
reattach id token actor_email new_token now r = elim (get id r) [
  | none ↦ (none, r)
  | some s ↦
      if may_reattach token actor_email s
      then (some (target (renew new_token now s)), update id (renew new_token now) r)
      else (none, r)
]

abbrev pub push_session : TerminalServerMessage → TrackedTerminalSession → TrackedTerminalSession
push_session message s = record s { replay = push_replay s.replay message }

-- The next output message of a session, and what `record_output` writes.
abbrev pub next_output : Text → Text → TrackedTerminalSession → TerminalServerMessage
next_output id payload s = output id s.next_output_sequence payload

abbrev pub push_output : Text → Text → TrackedTerminalSession → TrackedTerminalSession
push_output id payload s =
    push_session (next_output id payload s)
      (record s { next_output_sequence = min (s.next_output_sequence + 1) u64_max })

pub record_output : Text → Text → Registry → Option TerminalServerMessage × Registry
record_output id payload r = elim (get id r) [
  | none ↦ (none, r)
  | some s ↦ (some (next_output id payload s), update id (push_output id payload) r)
]

pub remember_server_message : TerminalServerMessage → Registry → Registry
remember_server_message message r = elim (message_session message) [
  | none ↦ r
  | some id ↦ update id (push_session message) r
]

pub remove_tracked : Text → Registry → Option TrackedTerminalSession × Registry
remove_tracked id r = elim (lookup id r.sessions) [
  | none ↦ (none, r)
  | some s ↦ (
    some s,
    record r { sessions = remove id r.sessions; closed = close_backend s.backend r.closed },
  )
]

pub terminate : Text → Registry → Option TerminalBackend × Registry
terminate id r =
    if r.poisoned
    then (none, r)
    else (let (s, r') = remove_tracked id (write id (λ s. record s { state = terminating }) r) in
        (elim s [ none ↦ none | some s ↦ some s.backend ], r'))

-- `remove`
pub forget : Text → Registry → Registry
forget id r = if r.poisoned then r else (remove_tracked id r).1

-- The loop that `drain_expired` and `close_sessions_for_node` share: each listed session that is
-- still there gets `state`, is removed, and is reported.
pub close_each : TerminalSessionState → List Text → Registry → List ClosedSession × Registry
close_each state [] r = ([], r)
close_each state (id ∷ ids) r =
    let (removed, r1) = remove_tracked id (write id (λ s. record s { state = state }) r) in
    let (reports, r2) = close_each state ids r1 in
    (elim removed [ none ↦ reports | some s ↦ report id s ∷ reports ], r2)

-- The test of `drain_expired`
pub is_overdue : ℕ → ℕ → ℕ → TrackedTerminalSession → Bool
is_overdue max_duration detached_idle_timeout now s =
    not (is_terminal s.state)
    && (leb max_duration (now - s.created_at)
        || (nat_eq (index s.state) (index detached)
            && leb detached_idle_timeout (now - s.last_activity)))

pub drain_expired : ℕ → ℕ → ℕ → Registry → List ClosedSession × Registry
drain_expired max_duration idle now r =
    if r.poisoned
    then ([], r)
    else close_each expired (keys (is_overdue max_duration idle now) r.sessions) r

pub close_sessions_for_node : Text → Registry → List ClosedSession × Registry
close_sessions_for_node node_id r =
    if r.poisoned
    then ([], r)
    else close_each terminating (keys (live_on (some node_id)) r.sessions) r
