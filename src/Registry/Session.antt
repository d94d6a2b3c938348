-- ===== src/Registry/Session.antt =====
-- One tracked session: its record, the requests that make one, its replay buffer and its reports.
use sunbolt.Base.{
  ℕ, ◌^◌, ◌-◌, Bool, not, ◌&&◌, Option, none, some, List, [], ◌∷◌, ◌++◌, Text, text_eq, option_eq,
  if◌then◌else◌, nat_eq, length, tail,
}
use sunbolt.Terminal.{TerminalSessionState, starting, is_terminal}
use sunbolt.Protocol.{
  TerminalSize, TerminalTransportStatus, TerminalServerMessage, started, output, exited, detached,
  reattached, error, pong,
}

-- A PTY handle, or the command channel of an agent, by its number.
pub data TerminalBackend : Type 0 where
  local_pty : ℕ → TerminalBackend
  remote : ℕ → TerminalBackend

pub record RemoteTerminalSession : Type 0 where
  pub command_tx : ℕ
  pub node_id : Text
  pub transport_status : TerminalTransportStatus

-- `TerminalSessionConfig`; times are counted in nanoseconds
pub record TerminalSessionConfig : Type 0 where
  pub max_sessions : ℕ
  pub max_sessions_per_user : ℕ
  pub max_sessions_per_node : ℕ
  pub idle_timeout : ℕ
  pub max_duration : ℕ
  pub disconnect_grace : ℕ

pub data SessionLimitError : Type 0 where
  global_capacity per_user per_node : SessionLimitError

pub record TrackedTerminalSession : Type 0 where
  pub backend : TerminalBackend
  pub output_tx : ℕ
  pub replay : List TerminalServerMessage
  pub next_output_sequence : ℕ
  pub reconnect_token : Text
  pub state : TerminalSessionState
  pub last_activity : ℕ
  pub created_at : ℕ
  pub size : TerminalSize
  pub actor_email : Text
  pub node_id : Option Text
  pub transport_status : Option TerminalTransportStatus

pub record TerminalSessionInsert : Type 0 where
  pub session_id : Text
  pub backend : TerminalBackend
  pub size : TerminalSize
  pub config : TerminalSessionConfig
  pub actor_email : Text
  pub node_id : Option Text
  pub transport_status : Option TerminalTransportStatus

-- The subscription of the channel is the channel's number.
pub record TerminalReattachTarget : Type 0 where
  pub backend : TerminalBackend
  pub output_rx : ℕ
  pub replay : List TerminalServerMessage
  pub size : TerminalSize
  pub reconnect_token : Text
  pub node_id : Option Text
  pub transport_status : Option TerminalTransportStatus

-- What a sweep returns of each session that it removed.
pub record ClosedSession : Type 0 where
  pub session_id : Text
  pub actor_email : Text
  pub output_tx : ℕ
  pub backend : TerminalBackend

-- `OUTPUT_REPLAY_CAPACITY`
abbrev pub output_replay_capacity : ℕ
output_replay_capacity = 128

abbrev pub u64_max : ℕ
u64_max = 2 ^ 64 - 1

abbrev pub fresh : TerminalSessionInsert → Text → ℕ → ℕ → TrackedTerminalSession
fresh request token output_tx now = record {
  backend = request.backend;
  output_tx = output_tx;
  replay = [];
  next_output_sequence = 1;
  reconnect_token = token;
  state = starting;
  last_activity = now;
  created_at = now;
  size = request.size;
  actor_email = request.actor_email;
  node_id = request.node_id;
  transport_status = request.transport_status;
}

-- The two filters of `insert_backend`.
abbrev pub live_for : Text → TrackedTerminalSession → Bool
live_for email s = text_eq s.actor_email email && not (is_terminal s.state)

abbrev pub live_on : Option Text → TrackedTerminalSession → Bool
live_on node s = option_eq s.node_id node && not (is_terminal s.state)

abbrev pub target : TrackedTerminalSession → TerminalReattachTarget
target s = record {
  backend = s.backend;
  output_rx = s.output_tx;
  replay = s.replay;
  size = s.size;
  reconnect_token = s.reconnect_token;
  node_id = s.node_id;
  transport_status = s.transport_status;
}

abbrev pub report : Text → TrackedTerminalSession → ClosedSession
report id s = record {
  session_id = id;
  actor_email = s.actor_email;
  output_tx = s.output_tx;
  backend = s.backend;
}

-- `push_replay`, on the buffer
unfoldable pub push_replay :
    List TerminalServerMessage → TerminalServerMessage → List TerminalServerMessage
push_replay replay message =
    if nat_eq (length replay) output_replay_capacity
    then tail replay ++ message ∷ []
    else replay ++ message ∷ []

-- The session that a message belongs to, in `remember_server_message`.
abbrev pub message_session : TerminalServerMessage → Option Text
message_session (started id _ _ _ _) = some id
message_session (output id _ _) = some id
message_session (exited id _) = some id
message_session (detached id) = some id
message_session (reattached id _ _ _ _) = some id
message_session (error id _) = id
message_session (pong _) = none

-- `close_backend`, on the list of closed PTYs
abbrev pub close_backend : TerminalBackend → List ℕ → List ℕ
close_backend (local_pty pty) closed = pty ∷ closed
close_backend (remote _) closed = closed
