-- ===== src/Sockets/Bounded/Runs.antt =====
-- However sockets, agents and requests interleave, the session table stays within its limits.
use sunbolt.Base.{
  ◌≡◌, refl, subst, sym, none, some, Option-cases, Result-cases, inl, inr, ℕ, Bool, false, Option,
  List, [], ◌∷◌, Text, Result,
}
use sunbolt.Protocol.{
  TerminalSize, TerminalClientMessage, start_message, input_message, resize_message, close_message,
  terminate_message, detach_message, reattach_message, ping_message,
}
use sunbolt.Registry.{TerminalSessionConfig, record_output}
use sunbolt.Registry.Calls.{closes_node, step}
use sunbolt.Registry.Bounded.{IsBounded, step-IsBounded}
use sunbolt.Sockets.{AppState, on_sessions}
use sunbolt.Sockets.Calls.{
  SocketCall, connects, reads_pty, after_served, steps_here, ends_here, steps_on_node, ends_on_node,
  steps_attached, terminates_by_request, cleans_up, others_change, socket_step, socket_run, loop_of,
}
use sunbolt.Auth.{User}
use sunbolt.Sockets.{Message, emit, send_error, parse_client_message}
use sunbolt.Sockets.Opening.{Chances}
use sunbolt.Sockets.Handshake.{starts, receive_start_message, handshake_of}
use sunbolt.Sockets.Output.{
  PtyReading, is_over, reads, fails_with, pty_step, report_exit, broadcast_if,
}
use sunbolt.Sockets.Entry.{handle_terminal_socket}
use sunbolt.Sockets.Keeping.Remote.{remote_step-keeps}
use sunbolt.Sockets.Keeping.Steps.{
  local_step-keeps, attached_step-keeps, finish_local-keeps, finish_remote-keeps,
}
use sunbolt.Sockets.Bounded.{
  methods-IsKept, open_local_terminal-IsBounded, open_remote_terminal-IsBounded,
}
use sunbolt.Sockets.Bounded.Attached.{
  handle_terminal_reattach-IsBounded, terminate_terminal_session-IsBounded, clean_up-IsBounded,
}

handshake_of-sessions :
    (message : TerminalClientMessage) (w : AppState)
    → (handshake_of message w).1.sessions ≡ w.sessions
unfolding handshake_of send_error emit
handshake_of-sessions (start_message _ _) w = refl
handshake_of-sessions (input_message _ _) w = refl
handshake_of-sessions (resize_message _ _) w = refl
handshake_of-sessions (close_message _) w = refl
handshake_of-sessions (terminate_message _) w = refl
handshake_of-sessions (detach_message _) w = refl
handshake_of-sessions (reattach_message _ _) w = refl
handshake_of-sessions (ping_message _) w = refl

module _ (from_str : Text → Result Text TerminalClientMessage) (c : TerminalSessionConfig) where
  receive_start_message-sessions :
      (frame : Option Message) (w : AppState)
      → (receive_start_message from_str frame w).1.sessions ≡ w.sessions
  unfolding receive_start_message emit
  receive_start_message-sessions none w = refl
  receive_start_message-sessions (some frame) w =
      elim (Result-cases (parse_client_message from_str frame)) [
        | inr (e, bad) ↦ rw (bad, receive_start_message) refl
        | inl (message, read) ↦ rw (read, receive_start_message) (handshake_of-sessions message w)
      ]

  handle_terminal_socket-IsBounded :
      (user : User) (frame : Option Message) (number : ℕ) (spawn : TerminalSize → Result Text ℕ)
      (checked_at : ℕ) (t : Chances) (is_sent : Bool) (w : AppState)
      → IsBounded c w.sessions
      → IsBounded c
          (after_served (
            handle_terminal_socket from_str c user frame number spawn checked_at t is_sent
              w)).sessions
  unfolding handle_terminal_socket after_served
  handle_terminal_socket-IsBounded user frame number spawn checked_at t is_sent w h =
      let w' = (receive_start_message from_str frame w).1 in
      let still : IsBounded c w'.sessions =
        subst (IsBounded c) (sym (receive_start_message-sessions frame w)) h in
      elim (Option-cases (receive_start_message from_str frame w).0) [
        | inl nothing ↦ rw (nothing, handle_terminal_socket) still
        | inr (sunbolt.Sockets.Handshake.reattaches id token, asked) ↦
            rw (asked, handle_terminal_socket)
              (handle_terminal_reattach-IsBounded c user id token checked_at t.token t.now w' still)
        | inr (starts (some node_id) size, asked) ↦
            rw (asked, handle_terminal_socket)
              (open_remote_terminal-IsBounded c user node_id _ size checked_at t w' still)
        | inr (starts none size, asked) ↦
            rw (asked, handle_terminal_socket)
              (open_local_terminal-IsBounded c user _ size _ t is_sent w' still)
      ]

  pty_step-IsBounded :
      (output_tx : ℕ) (id : Text) (reading : PtyReading) (w : AppState)
      → IsBounded c w.sessions
      → IsBounded c (pty_step output_tx id reading w).1.sessions
  unfolding pty_step report_exit broadcast_if emit
  pty_step-IsBounded output_tx id is_over w h = h
  pty_step-IsBounded output_tx id (fails_with (some exit) e) w h = h
  pty_step-IsBounded output_tx id (fails_with none e) w h = h
  pty_step-IsBounded output_tx id (reads payload) w h =
      let kept = (methods-IsKept c).outputs id payload w.sessions h in
      elim (Option-cases (record_output id payload w.sessions).0) [
        | inl nobody ↦ rw (nobody, broadcast_if) kept
        | inr (message, found) ↦ rw (found, broadcast_if) kept
      ]

  socket_step-IsBounded :
      (call : SocketCall) (w : AppState)
      → IsBounded c w.sessions
      → IsBounded c (socket_step from_str c call w).sessions
  unfolding socket_step on_sessions
  socket_step-IsBounded (connects user frame number spawn checked_at t is_sent) w h =
      handle_terminal_socket-IsBounded user frame number spawn checked_at t is_sent w h
  socket_step-IsBounded (reads_pty output_tx id reading) w h =
      pty_step-IsBounded output_tx id reading w h
  socket_step-IsBounded (steps_here actor_email session id e failed) w h =
      local_step-keeps id (IsBounded c) ((methods-IsKept c).at id) from_str c actor_email session e
        (loop_of false failed w) h
  socket_step-IsBounded (ends_here actor_email id failed) w h =
      finish_local-keeps id (IsBounded c) ((methods-IsKept c).at id) actor_email
        (loop_of false failed w) h
  socket_step-IsBounded (steps_on_node a id e is_open failed) w h =
      remote_step-keeps (IsBounded c) (methods-IsKept c) from_str a id e (loop_of is_open failed w)
        h
  socket_step-IsBounded (ends_on_node actor_email command_tx id is_sent is_open failed) w h =
      finish_remote-keeps id (IsBounded c) ((methods-IsKept c).at id) actor_email command_tx is_sent
        (loop_of is_open failed w) h
  socket_step-IsBounded (steps_attached user command_tx id e) w h =
      attached_step-keeps id (IsBounded c) ((methods-IsKept c).at id) from_str user command_tx e w h
  socket_step-IsBounded (terminates_by_request user id is_sent) w h =
      terminate_terminal_session-IsBounded c user id is_sent w h
  socket_step-IsBounded (cleans_up now is_sent) w h = clean_up-IsBounded c now is_sent w h
  socket_step-IsBounded (sunbolt.Sockets.Calls.closes_node node_id) w h =
      unfold step in step-IsBounded c (closes_node node_id) w.sessions h
  socket_step-IsBounded (others_change nodes auth router agents) w h = h

  -- Whatever the steps of sockets, agents, requests and the cleanup worker are and in whatever order
  -- they come, a session table that is within the limits of the configuration stays within them.
  pub socket_run-IsBounded :
      (calls : List SocketCall) (w : AppState)
      → IsBounded c w.sessions
      → IsBounded c (socket_run from_str c calls w).sessions
  unfolding socket_run
  socket_run-IsBounded [] w h = h
  socket_run-IsBounded (call ∷ calls) w h =
      socket_run-IsBounded calls (socket_step from_str c call w) (socket_step-IsBounded call w h)
