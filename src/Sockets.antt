-- ===== src/Sockets.antt =====
-- crates/sunbolt-control/src/terminal/mod.rs: the handlers of terminal WebSockets, on the part of the
-- application's state that they use. What they send is kept in order; whether a send succeeds, what a
-- PTY answers, clock readings and new tokens are arguments, and so is serde's reading of a text.
use sunbolt.Base.{
  ℕ, ◌++◌, max, Bool, true, false, not, Option, none, some, List, [], ◌∷◌, Text, text,
  if◌then◌else◌, Result, ok, err,
}
use sunbolt.Base.Numerals.{decimal}
use sunbolt.Terminal.{detached, expired, terminated}
use sunbolt.Protocol.{
  TerminalSize, TerminalTransportStatus, TerminalErrorCode, TerminalError, TerminalServerMessage,
  TerminalClientMessage, AgentTerminalCommand, AgentTerminalEvent, invalid_message,
  session_not_found, session_expired, started, output, exited, error, terminal_started,
  terminal_output, terminal_exited, terminal_error,
}
use sunbolt.Registry.{Registry, detach, record_output}
use sunbolt.Registry.Queries.{node_of, owner_matches, state_of}
use sunbolt.Audit.{AuditEventInput}
use sunbolt.Audit.Kinds.{AuditEventKind, terminal_detached, route_selected, route_failed}
use sunbolt.Auth.{User}
use sunbolt.Auth.Rbac.{
  RbacStore, Permission, terminal_reattach, terminal_terminate, user_has_node_permission,
}
use sunbolt.Nodes.{NodeRegistry, is_revoked, node_details}
use sunbolt.Routing.{Router}
use sunbolt.Agents.{AgentConnections}
pub mod Frames
pub mod Loops
pub mod Keeping
pub mod Calls
pub mod Bounded
pub mod Attached
pub mod Handshake
pub mod Opening
pub mod Local
pub mod Ending
pub mod Isolation
pub mod Output
pub mod Entry
pub mod Tests
pub mod Admission
pub mod Reattaching
pub mod Access
pub mod Commands

-- What the handlers do outside of the state, in order; a PTY, a command channel and an output channel
-- is its number.
pub data Effect : Type 0 where
  sends : TerminalServerMessage → Effect
  commands : ℕ → AgentTerminalCommand → Effect
  records : AuditEventInput → Effect
  broadcasts : ℕ → TerminalServerMessage → Effect
  writes_input : ℕ → Text → Effect
  resizes_pty : ℕ → TerminalSize → Effect
  closes_pty : ℕ → Effect

pub record AppState : Type 0 where
  pub sessions : Registry
  pub nodes : NodeRegistry
  pub auth : RbacStore
  pub router : Router
  pub agents : AgentConnections
  pub effects : List Effect

unfoldable pub emit : Effect → AppState → AppState
emit e w = record w { effects = w.effects ++ e ∷ [] }

-- A change of the session registry.
unfoldable pub on_sessions : (Registry → Registry) → AppState → AppState
on_sessions f w = record w { sessions = f w.sessions }

pub protocol_error_text : TerminalErrorCode → Text → TerminalError
protocol_error_text code message = record { code = code; message = message }

unfoldable pub send_error : Option Text → TerminalErrorCode → Text → AppState → AppState
send_error session_id code message w =
    emit (sends (error session_id (protocol_error_text code message))) w

unfoldable pub record_event : AuditEventKind → Option Text → Text → AppState → AppState
record_event kind actor_email message w =
    emit (records (record { kind = kind; actor_email = actor_email; message = message })) w

-- crates/sunbolt-control/src/audit.rs
unfoldable pub record_route_selected : Text → Text → Text → Text → AppState → AppState
record_route_selected actor_email node_id session_id route_id =
    record_event route_selected (some actor_email) (
      text "route "
      ++ route_id
      ++ text " selected for terminal session "
      ++ session_id
      ++ text " on node "
      ++ node_id)

unfoldable pub record_route_failed : Text → Text → Text → Option Text → Text → AppState → AppState
record_route_failed actor_email node_id session_id route_id reason =
    record_event route_failed (some actor_email) (
      text "route "
      ++ (elim route_id [ none ↦ text "unavailable" | some id ↦ id ])
      ++ text " failed for terminal session "
      ++ session_id
      ++ text " on node "
      ++ node_id
      ++ text ": "
      ++ reason)

-- `terminal session <id> <what>`
pub session_text : Text → Text → Text
session_text session_id what = text "terminal session " ++ session_id ++ text " " ++ what

unfoldable pub audit_terminal_detached : Text → Text → Text → AppState → AppState
audit_terminal_detached actor_email session_id reason =
    record_event terminal_detached (some actor_email)
      (session_text session_id (text "detached: " ++ reason))

-- The browser is gone: the session stays, detached.
unfoldable pub lose_browser : Text → Text → AppState → AppState
lose_browser actor_email session_id w =
    audit_terminal_detached actor_email session_id (text "browser websocket disconnected")
      (on_sessions (detach session_id) w)

-- A `Result` of a permission check, read by `unwrap_or(false)`; both readings of the store see the
-- same state.
unfoldable pub is_permitted : User → Text → Permission → AppState → Bool
is_permitted user node_id permission w =
    elim (user_has_node_permission user node_id permission w.auth w.auth) [
      | ok allowed ↦ allowed
      | err _ ↦ false
    ]

unfoldable pub authorize_session_terminate : User → Text → AppState → Bool
authorize_session_terminate user session_id w = elim (node_of session_id w.sessions) [
  | none ↦ true
  | some node_id ↦ is_permitted user node_id terminal_terminate w
]

-- `node_details(node_id).is_some_and(|node| matches!(node.status, Revoked))`
unfoldable pub is_shown_revoked : Text → ℕ → AppState → Bool
is_shown_revoked node_id now w = elim (node_details w.nodes node_id now) [
  | none ↦ false
  | some node ↦ is_revoked node.status
]

unfoldable pub authorize_session_reattach : User → Text → ℕ → AppState → Bool
authorize_session_reattach user session_id now w =
    if not (owner_matches session_id user.email w.sessions)
    then false
    else elim (node_of session_id w.sessions) [
      | none ↦ true
      | some node_id ↦
          if is_shown_revoked node_id now w
          then false
          else is_permitted user node_id terminal_reattach w
    ]

pub terminal_missing_or_expired_code : Text → AppState → TerminalErrorCode
terminal_missing_or_expired_code session_id w = elim (state_of session_id w.sessions) [
  | some expired ↦ session_expired
  | some terminated ↦ session_expired
  | _ ↦ session_not_found
]

pub terminal_size_from_protocol : TerminalSize → TerminalSize
terminal_size_from_protocol size = record { cols = max size.cols 1; rows = max size.rows 1 }

-- `next_session_id`, for the number that the counter gives.
pub session_id_of : ℕ → Text
session_id_of id = text "local-" ++ decimal id

-- A frame of the WebSocket; only a text has contents that the handlers read.
pub data Message : Type 0 where
  text_frame : Text → Message
  binary_frame close_frame ping_frame pong_frame : Message

-- `from_str` is serde's reading, with its error as text.
pub parse_client_message :
    (Text → Result Text TerminalClientMessage)
    → Message
    → Result TerminalError TerminalClientMessage
parse_client_message from_str (text_frame t) = elim (from_str t) [
  | ok message ↦ ok message
  | err e ↦ err (protocol_error_text invalid_message (text "invalid terminal message JSON: " ++ e))
]
parse_client_message from_str binary_frame =
    err (protocol_error_text invalid_message (text "binary terminal messages are not supported"))
parse_client_message from_str close_frame =
    err (protocol_error_text invalid_message (text "terminal websocket closed"))
parse_client_message from_str _ = err (
    protocol_error_text invalid_message
      (text "websocket control frames are not terminal protocol messages"))

unfoldable pub agent_event_to_browser_message :
    AgentTerminalEvent
    → Text
    → Option TerminalTransportStatus
    → Registry
    → TerminalServerMessage × Registry
agent_event_to_browser_message (terminal_started id size) node_id status r =
    (started id (some node_id) size none status, r)
agent_event_to_browser_message (terminal_output id payload) node_id status r =
    let (message, after) = record_output id payload r in
    (elim message [ none ↦ output id 0 payload | some m ↦ m ], after)
agent_event_to_browser_message (terminal_exited id exit) node_id status r = (exited id exit, r)
agent_event_to_browser_message (terminal_error id e) node_id status r = (error (some id) e, r)
