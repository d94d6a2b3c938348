-- ===== src/Sockets/Loops/Local.antt =====
-- crates/sunbolt-control/src/terminal/mod.rs: the loop of a terminal on this host and what follows it.
use sunbolt.Base.{
  ℕ, ◌++◌, Bool, true, false, not, Option, some, List, [], ◌∷◌, Text, text, if◌then◌else◌, Result,
}
use sunbolt.Terminal.{terminating, terminated}
use sunbolt.Protocol.{TerminalServerMessage, TerminalClientMessage, terminal_unavailable, error}
use sunbolt.Registry.{set_state, touch, forget, TerminalSessionConfig}
use sunbolt.Registry.Queries.{state_of, is_idle, is_exceeded_max_duration}
use sunbolt.Audit.Kinds.{terminal_closed, terminal_failed}
use sunbolt.Sockets.{
  AppState, Message, on_sessions, send_error, record_event, session_text, lose_browser,
}
use sunbolt.Sockets.Frames.{handle_client_frame}
use sunbolt.Sockets.Loops.{Loop, Progress, running, ended, with_app, is_detached, deliver, is_exit}

-- The events of a terminal on this host: what its output channel yields, with the time of the touch
-- and whether the browser takes it; a frame, with the time and the answer of the PTY; and the two
-- times that a check for idle sessions reads.
pub data LocalEvent : Type 0 where
  receives_output : TerminalServerMessage → ℕ → Bool → LocalEvent
  lags output_closes browser_leaves : LocalEvent
  receives_frame : Message → ℕ → Option Text → LocalEvent
  ticks : ℕ → ℕ → LocalEvent

unfoldable pub note_exit : Text → TerminalServerMessage → AppState → AppState
note_exit session_id message w =
    if is_exit message then on_sessions (set_state session_id terminated) w else w

unfoldable pub note_error : Text → TerminalServerMessage → Loop → Loop
note_error actor_email (error _ e) l = record l {
  failed = true;
  app =
      record_event terminal_failed (some actor_email) (text "terminal stream error: " ++ e.message)
        l.app;
}
note_error actor_email _ l = l

unfoldable pub time_out : Text → Text → AppState → AppState
time_out session_id reason w =
    send_error (some session_id) terminal_unavailable reason
      (on_sessions (set_state session_id terminating) w)

unfoldable pub check_idle : TerminalSessionConfig → Text → ℕ → ℕ → Loop → Bool × Loop
check_idle config session_id now now' l =
    if is_idle session_id config.idle_timeout now l.app.sessions
    then (
      false,
      with_app l (time_out session_id (text "terminal session idle timeout reached") l.app),
    )
    else if is_exceeded_max_duration session_id config.max_duration now' l.app.sessions
    then (
      false,
      with_app l
          (time_out session_id (text "terminal session exceeded maximum allowed duration") l.app),
    )
    else (true, l)

-- After the loop: a session that is not detached is removed.
unfoldable pub finish_local : Text → Text → Loop → AppState
finish_local actor_email session_id l =
    if is_detached (state_of session_id l.app.sessions)
    then l.app
    else let removed =
        on_sessions (forget session_id) (on_sessions (set_state session_id terminating) l.app) in
      if l.failed
      then removed
      else record_event terminal_closed (some actor_email) (session_text session_id (text "closed"))
          removed

module _ (from_str : Text → Result Text TerminalClientMessage) where
  unfoldable pub local_step :
      TerminalSessionConfig → Text → ℕ → Text → LocalEvent → Loop → Bool × Loop
  local_step config actor_email session session_id (receives_output message now is_sent) l =
      let touched = with_app l (on_sessions (touch session_id now) l.app) in
      let noted =
        note_error actor_email message
          (with_app touched (note_exit session_id message touched.app)) in
      let (is_delivered, w) = deliver actor_email session_id message is_sent noted.app in
      (if is_delivered then not (is_exit message) else false, with_app noted w)
  local_step config actor_email session session_id lags l = (true, l)
  local_step config actor_email session session_id output_closes l = (false, l)
  local_step config actor_email session session_id (receives_frame frame now answer) l =
      let (goes_on, w) =
        handle_client_frame from_str actor_email session session_id answer frame
          (on_sessions (touch session_id now) l.app) in
      (goes_on, with_app l w)
  local_step config actor_email session session_id browser_leaves l =
      (false, with_app l (lose_browser actor_email session_id l.app))
  local_step config actor_email session session_id (ticks now now') l =
      check_idle config session_id now now' l

  -- The loop of `handle_terminal_socket`, which `handle_terminal_reattach` repeats.
  unfoldable pub local_loop :
      TerminalSessionConfig → Text → ℕ → Text → List LocalEvent → Loop → Progress
  local_loop config actor_email session session_id [] l = running l
  local_loop config actor_email session session_id (e ∷ events) l =
      let (goes_on, l') = local_step config actor_email session session_id e l in
      let rest = local_loop config actor_email session session_id events l' in
      if goes_on then rest else ended (finish_local actor_email session_id l')
