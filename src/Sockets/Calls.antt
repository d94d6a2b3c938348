-- ===== src/Sockets/Calls.antt =====
-- The handlers as steps of one state machine: the events of all sockets, in any order. The flags of a
-- loop belong to its socket, so a step is given them.
use sunbolt.Base.{ℕ, Bool, false, Option, List, [], ◌∷◌, Text, Result}
use sunbolt.Protocol.{TerminalSize, TerminalClientMessage}
use sunbolt.Registry.{TerminalSessionConfig, close_sessions_for_node}
use sunbolt.Auth.{User}
use sunbolt.Auth.Rbac.{RbacStore}
use sunbolt.Nodes.{NodeRegistry}
use sunbolt.Routing.{Router}
use sunbolt.Agents.{AgentConnections}
use sunbolt.Sockets.{AppState, Message, on_sessions}
use sunbolt.Sockets.Output.{PtyReading, pty_step}
use sunbolt.Sockets.Entry.{
  Served, hangs_up, serves_here, serves_node, serves_again, handle_terminal_socket,
}
use sunbolt.Sockets.Loops.{Loop}
use sunbolt.Sockets.Loops.Remote.{RemoteEvent, Attachment, remote_step, finish_remote}
use sunbolt.Sockets.Loops.Local.{LocalEvent, local_step, finish_local}
use sunbolt.Sockets.Opening.{Chances, state_after}
use sunbolt.Sockets.Local.{LocalOpening, local_refused, local_opened}
use sunbolt.Sockets.Attached.{
  Reattachment, AttachedEvent, turned_away, local_attached, remote_attached, attached_step,
  terminate_terminal_session, clean_up,
}

pub data SocketCall : Type 0 where
  connects :
      User → Option Message → ℕ → (TerminalSize → Result Text ℕ) → ℕ → Chances → Bool → SocketCall
  reads_pty : ℕ → Text → PtyReading → SocketCall
  steps_here : Text → ℕ → Text → LocalEvent → Bool → SocketCall
  ends_here : Text → Text → Bool → SocketCall
  steps_on_node : Attachment → Text → RemoteEvent → Bool → Bool → SocketCall
  ends_on_node : Text → ℕ → Text → Bool → Bool → Bool → SocketCall
  steps_attached : User → ℕ → Text → AttachedEvent → SocketCall
  terminates_by_request : User → Text → Bool → SocketCall
  cleans_up : ℕ → (Text → Bool) → SocketCall
  -- the sessions of a revoked node are closed
  closes_node : Text → SocketCall
  -- what other requests do to the other parts of the state
  others_change : NodeRegistry → RbacStore → Router → AgentConnections → SocketCall

unfoldable pub after_local : LocalOpening → AppState
after_local (local_refused w) = w
after_local (local_opened _ _ l) = l.app

unfoldable pub after_reattach : Reattachment → AppState
after_reattach (turned_away w) = w
after_reattach (local_attached _ _ l) = l.app
after_reattach (remote_attached _ _ l) = l.app

unfoldable pub after_served : Served → AppState
after_served (hangs_up w) = w
after_served (serves_here o) = after_local o
after_served (serves_node o) = state_after o
after_served (serves_again o) = after_reattach o

abbrev pub loop_of : Bool → Bool → AppState → Loop
loop_of is_open failed w = record { opened = is_open; failed = failed; app = w }

module _ (from_str : Text → Result Text TerminalClientMessage) (c : TerminalSessionConfig) where
  unfoldable pub socket_step : SocketCall → AppState → AppState
  socket_step (connects user frame number spawn checked_at t is_sent) w =
      after_served
        (handle_terminal_socket from_str c user frame number spawn checked_at t is_sent w)
  socket_step (reads_pty output_tx id reading) w = (pty_step output_tx id reading w).1
  socket_step (steps_here actor_email session id e failed) w =
      (local_step from_str c actor_email session id e (loop_of false failed w)).1.app
  socket_step (ends_here actor_email id failed) w =
      finish_local actor_email id (loop_of false failed w)
  socket_step (steps_on_node a id e is_open failed) w =
      (remote_step from_str a id e (loop_of is_open failed w)).1.app
  socket_step (ends_on_node actor_email command_tx id is_sent is_open failed) w =
      finish_remote actor_email command_tx id is_sent (loop_of is_open failed w)
  socket_step (steps_attached user command_tx id e) w =
      (attached_step from_str user command_tx id e w).1
  socket_step (terminates_by_request user id is_sent) w =
      (terminate_terminal_session user id is_sent w).1
  socket_step (cleans_up now is_sent) w = clean_up c now is_sent w
  socket_step (closes_node node_id) w = on_sessions (λ r. (close_sessions_for_node node_id r).1) w
  socket_step (others_change nodes auth router agents) w = record w {
    nodes = nodes;
    auth = auth;
    router = router;
    agents = agents;
  }

  unfoldable pub socket_run : List SocketCall → AppState → AppState
  socket_run [] w = w
  socket_run (call ∷ calls) w = socket_run calls (socket_step call w)
