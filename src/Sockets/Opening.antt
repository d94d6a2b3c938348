-- ===== src/Sockets/Opening.antt =====
-- crates/sunbolt-control/src/terminal/mod.rs: how a terminal is opened on a node.
use sunbolt.Base.{
  ℕ, ◌++◌, Bool, true, false, not, Option, none, some, Text, text, if◌then◌else◌, Result, ok, err,
}
use sunbolt.Protocol.{TerminalSize, forbidden, terminal_unavailable, start_terminal, close_terminal}
use sunbolt.Registry.{
  TerminalSessionConfig, RemoteTerminalSession, SessionLimitError, global_capacity, per_user,
  per_node, insert_remote,
}
use sunbolt.Audit.Kinds.{terminal_failed}
use sunbolt.Auth.{User}
use sunbolt.Auth.Rbac.{terminal_open}
use sunbolt.Nodes.{node_is_online}
use sunbolt.Routing.{
  NodeRoute, RouteRequest, direct_agent, relay_node, route_id, select_route, record_success,
  record_failure,
}
use sunbolt.Agents.{
  RegisteredAgentConnection, connection, connected_node_ids_except, disconnect,
  terminal_transport_status,
}
use sunbolt.Sockets.{
  AppState, commands, emit, send_error, record_event, record_route_selected, record_route_failed,
  is_permitted,
}
use sunbolt.Sockets.Frames.{try_command}
use sunbolt.Sockets.Loops.{Loop}
use sunbolt.Sockets.Loops.Remote.{Attachment}

-- `SessionLimitError::message`
pub limit_message : SessionLimitError → Text
limit_message global_capacity = text "maximum terminal session count reached"
limit_message per_user = text "maximum terminal sessions per user reached"
limit_message per_node = text "maximum terminal sessions per node reached"

-- An attempt to open a terminal that is over, or the loop that it comes to.
pub data Opening : Type 0 where
  refused : AppState → Opening
  opened : Attachment → Loop → Opening

-- The state that an attempt leaves.
unfoldable pub state_after : Opening → AppState
state_after (refused w) = w
state_after (opened _ l) = l.app

unfoldable pub fail : Text → Text → Text → Text → AppState → Opening
fail actor_email session_id note reason w = refused (
    send_error (some session_id) terminal_unavailable reason
      (record_event terminal_failed (some actor_email) note w))

-- A failed attempt on a route, noted in the router's health table and in the log.
unfoldable pub fail_route : Text → Text → Text → NodeRoute → Text → AppState → AppState
fail_route actor_email node_id session_id route reason w =
    record_route_failed actor_email node_id session_id (some (route_id route)) reason
      (record w { router = record_failure route w.router })

-- What the random token, the new output channel and the clock are when the session is inserted,
-- and whether the agent's channel takes the command to start and the one to close.
pub record Chances : Type 0 where
  pub token : Text
  pub output_tx : ℕ
  pub now : ℕ
  pub is_started : Bool
  pub is_closed : Bool

unfoldable pub attachment : User → Text → ℕ → RegisteredAgentConnection → Attachment
attachment user node_id output_tx c = record {
  user = user;
  node_id = node_id;
  command_tx = c.channels;
  output_tx = output_tx;
  status = some (terminal_transport_status c);
}

-- What follows the insertion of a session on a node, by its answer.
unfoldable pub settle_remote :
    User
    → Text
    → Text
    → Chances
    → NodeRoute
    → RegisteredAgentConnection
    → Result SessionLimitError ℕ
    → AppState
    → Opening
settle_remote user node_id session_id t route c (err limit) w =
    fail user.email session_id (limit_message limit) (limit_message limit)
      (try_command c.channels t.is_closed (close_terminal session_id) w)
settle_remote user node_id session_id t route c (ok output_tx) w =
    opened (attachment user node_id output_tx c) (record {
      opened = false;
      failed = false;
      app = record w { router = record_success route w.router };
    })

unfoldable pub remote_session : Text → RegisteredAgentConnection → RemoteTerminalSession
remote_session node_id c = record {
  command_tx = c.channels;
  node_id = node_id;
  transport_status = terminal_transport_status c;
}

-- The session is inserted once the agent was told to start it.
unfoldable pub insert_started :
    TerminalSessionConfig
    → User
    → Text
    → Text
    → TerminalSize
    → Chances
    → NodeRoute
    → RegisteredAgentConnection
    → AppState
    → Opening
insert_started config user node_id session_id size t route c w =
    let (inserted, r) =
      insert_remote session_id (remote_session node_id c) size config user.email t.token t.output_tx
        t.now w.sessions in
    settle_remote user node_id session_id t route c inserted (record w { sessions = r })

unfoldable pub start_on_connection :
    TerminalSessionConfig
    → User
    → Text
    → Text
    → TerminalSize
    → Chances
    → NodeRoute
    → RegisteredAgentConnection
    → AppState
    → Opening
start_on_connection config user node_id session_id size t route c w =
    if t.is_started
    then insert_started config user node_id session_id size t route c
        (emit (commands c.channels (start_terminal session_id size)) w)
    else refused (
        send_error (some session_id) terminal_unavailable (text "agent connection dropped") (
          fail_route user.email node_id session_id route
            (text "selected route dropped before terminal start")
            (record w { agents = disconnect node_id w.agents })))

unfoldable pub take_route :
    TerminalSessionConfig
    → User
    → Text
    → Text
    → TerminalSize
    → Chances
    → NodeRoute
    → AppState
    → Opening
take_route config user node_id session_id size t (relay_node target relay) w =
    fail user.email session_id
      (text "relay route selected for " ++ node_id ++ text ", but relay execution is not enabled")
      (text "relay routing is selected but not enabled for terminal streams")
      (fail_route user.email node_id session_id (relay_node target relay)
        (text "selected relay route is not executable for terminal streams") w)
take_route config user node_id session_id size t (direct_agent target) w =
    elim (connection node_id w.agents) [
      | none ↦
          fail user.email session_id
            (text "remote terminal requested without agent channel " ++ node_id)
            (text "agent connection is not active")
            (fail_route user.email node_id session_id (direct_agent target)
              (text "selected route has no active agent connection") w)
      | some c ↦ start_on_connection config user node_id session_id size t (direct_agent target) c w
    ]

abbrev pub is_connected : Option RegisteredAgentConnection → Bool
is_connected none = false
is_connected (some _) = true

abbrev pub route_request : Text → AppState → RouteRequest
route_request node_id w = record {
  target_node_id = node_id;
  direct_agent_connected = is_connected (connection node_id w.agents);
  relay_candidates = connected_node_ids_except node_id w.agents;
}

-- `handle_remote_terminal_socket` up to its loop; `checked_at` is the time that `node_is_online` reads.
unfoldable pub open_remote_terminal :
    TerminalSessionConfig → User → Text → Text → TerminalSize → ℕ → Chances → AppState → Opening
open_remote_terminal config user node_id session_id size checked_at t w =
    if not (is_permitted user node_id terminal_open w)
    then refused (
        send_error (some session_id) forbidden (text "terminal open is not permitted for this node")
          (record_event terminal_failed (some user.email)
            (text "terminal open is not permitted for node " ++ node_id) w))
    else if not (node_is_online w.nodes node_id checked_at)
    then fail user.email session_id
        (text "remote terminal requested for unavailable node " ++ node_id)
        (text "agent node is not online") w
    else elim (select_route (route_request node_id w) w.router) [
      | err _ ↦
          fail user.email session_id
            (text "remote terminal requested without healthy route " ++ node_id)
            (text "no healthy route is available for the agent node")
            (record_route_failed user.email node_id session_id none
              (text "no healthy route is available") w)
      | ok route ↦
          take_route config user node_id session_id size t route
            (record_route_selected user.email node_id session_id (route_id route) w)
    ]
