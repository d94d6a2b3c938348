-- ===== src/Sockets/Loops/Remote.antt =====
-- crates/sunbolt-control/src/terminal/mod.rs: the loop of a terminal on a node and what follows it.
use sunbolt.Base.{
  ℕ, ◌++◌, Bool, true, false, not, Option, some, List, [], ◌∷◌, Text, text, if◌then◌else◌, Result,
}
use sunbolt.Terminal.{active}
use sunbolt.Protocol.{
  TerminalServerMessage, TerminalClientMessage, AgentTerminalEvent, TerminalTransportStatus,
  terminal_unavailable, close_terminal,
}
use sunbolt.Registry.{set_state, forget, terminate, remember_server_message}
use sunbolt.Registry.Queries.{state_of}
use sunbolt.Audit.Kinds.{terminal_opened, terminal_closed, terminal_failed}
use sunbolt.Auth.{User}
use sunbolt.Sockets.{
  AppState, broadcasts, Message, emit, on_sessions, send_error, record_event, session_text,
  lose_browser, agent_event_to_browser_message,
}
use sunbolt.Sockets.Frames.{handle_remote_client_frame, try_command}
use sunbolt.Sockets.Loops.{
  Loop, Progress, running, ended, with_app, is_detached, deliver, is_exit, is_started, is_output,
  is_error,
}

-- The events of a terminal on a node: what its agent reports, with whether the browser takes it; a
-- frame, with whether the agent's channel takes a command.
pub data RemoteEvent : Type 0 where
  receives_event : AgentTerminalEvent → Bool → RemoteEvent
  agent_leaves browser_leaves_remote : RemoteEvent
  receives_remote_frame : Message → Bool → RemoteEvent

-- What a message of the agent says of the terminal.
unfoldable pub note_message : Text → Text → Text → TerminalServerMessage → Loop → Loop
note_message actor_email node_id session_id message l =
    if is_started message
    then record l {
      opened = true;
      app =
          record_event terminal_opened (some actor_email)
            (text "remote " ++ session_text session_id (text "opened on " ++ node_id))
            (on_sessions (set_state session_id active) l.app);
    }
    else if is_error message
    then record l { failed = true }
    else l

unfoldable pub remember : TerminalServerMessage → AppState → AppState
remember message w =
    if is_output message then w else on_sessions (remember_server_message message) w

-- The end of the branch of an agent's event: `true` if the loop goes on.
unfoldable pub pass_on : Text → Text → TerminalServerMessage → Bool → Loop → Bool × Loop
pass_on actor_email session_id message is_sent l =
    let (is_delivered, w) = deliver actor_email session_id message is_sent l.app in
    if not is_delivered
    then (false, with_app l w)
    else if is_exit message
    then (false, with_app l (on_sessions (forget session_id) w))
    else (true, with_app l w)

unfoldable pub finish_remote : Text → ℕ → Text → Bool → Loop → AppState
finish_remote actor_email command_tx session_id is_sent l =
    if is_detached (state_of session_id l.app.sessions)
    then l.app
    else let closed =
        try_command command_tx is_sent (close_terminal session_id)
          (on_sessions (λ r. (terminate session_id r).1) l.app) in
      if l.failed
      then record_event terminal_failed (some actor_email)
          (text "remote " ++ session_text session_id (text "failed")) closed
      else if l.opened
      then record_event terminal_closed (some actor_email)
          (text "remote " ++ session_text session_id (text "closed")) closed
      else closed

-- `session_id`'s connection as the loops of a node's terminal see it.
pub record Attachment : Type 0 where
  pub user : User
  pub node_id : Text
  pub command_tx : ℕ
  pub output_tx : ℕ
  pub status : Option TerminalTransportStatus

module _ (from_str : Text → Result Text TerminalClientMessage) where
  unfoldable pub remote_step : Attachment → Text → RemoteEvent → Loop → Bool × Loop
  remote_step a session_id (receives_event event is_sent) l =
      let (message, r) = agent_event_to_browser_message event a.node_id a.status l.app.sessions in
      let read = with_app l (on_sessions (λ _. r) l.app) in
      let noted = note_message a.user.email a.node_id session_id message read in
      pass_on a.user.email session_id message is_sent
        (with_app noted (emit (broadcasts a.output_tx message) (remember message noted.app)))
  remote_step a session_id agent_leaves l = (
    false,
    record l {
      failed = true;
      app =
          send_error (some session_id) terminal_unavailable
            (text "agent disconnected during terminal session") l.app;
    },
  )
  remote_step a session_id (receives_remote_frame frame is_sent) l =
      let (goes_on, w) =
        handle_remote_client_frame from_str a.user a.user.email a.command_tx session_id is_sent
          frame l.app in
      (goes_on, with_app l w)
  remote_step a session_id browser_leaves_remote l =
      (false, with_app l (lose_browser a.user.email session_id l.app))

  -- The loop of `handle_remote_terminal_socket`; `is_closed` says whether the agent's channel takes
  -- the last command.
  unfoldable pub remote_loop : Attachment → Text → Bool → List RemoteEvent → Loop → Progress
  remote_loop a session_id is_closed [] l = running l
  remote_loop a session_id is_closed (e ∷ events) l =
      let (goes_on, l') = remote_step a session_id e l in
      let rest = remote_loop a session_id is_closed events l' in
      if goes_on
      then rest
      else ended (finish_remote a.user.email a.command_tx session_id is_closed l')
