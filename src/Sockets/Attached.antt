-- ===== src/Sockets/Attached.antt =====
-- crates/sunbolt-control/src/terminal/mod.rs: reattaching to a session, ending one by a request, and the
-- worker that ends expired sessions.
use sunbolt.Base.{
  ℕ, Bool, true, false, not, none, some, List, [], ◌∷◌, Text, text, if◌then◌else◌, Result,
}
use sunbolt.Terminal.{active, detached, reattaching}
use sunbolt.Protocol.{
  TerminalServerMessage, TerminalClientMessage, forbidden, session_expired, reattached, error,
  close_terminal,
}
use sunbolt.Registry.{
  TerminalSessionConfig, TerminalBackend, TerminalReattachTarget, ClosedSession, local_pty, remote,
  set_state, touch, forget, terminate, reattach, drain_expired,
}
use sunbolt.Registry.Queries.{owner_matches, list_sessions_for_actor, TerminalSessionSummary}
use sunbolt.Audit.Kinds.{terminal_reattached, terminal_terminated, terminal_closed}
use sunbolt.Auth.{User}
use sunbolt.Sockets.{
  AppState, sends, broadcasts, Message, emit, on_sessions, send_error, record_event, session_text,
  lose_browser, authorize_session_reattach, authorize_session_terminate,
  terminal_missing_or_expired_code, protocol_error_text,
}
use sunbolt.Sockets.Frames.{handle_remote_client_frame, try_command}
use sunbolt.Sockets.Loops.{Loop, is_exit, deliver}

-- The loop that a reattached session comes to, or the end of the attempt.
pub data Reattachment : Type 0 where
  turned_away : AppState → Reattachment
  -- the PTY or the command channel, the output channel and the loop
  local_attached remote_attached : ℕ → ℕ → Loop → Reattachment

unfoldable pub send_all : List TerminalServerMessage → AppState → AppState
send_all [] w = w
send_all (message ∷ messages) w = send_all messages (emit (sends message) w)

unfoldable pub welcome : Text → Text → TerminalReattachTarget → AppState → AppState
welcome actor_email session_id t w =
    record_event terminal_reattached (some actor_email)
      (session_text session_id (text "reattached"))
      (on_sessions (set_state session_id active) (
        send_all t.replay (
          emit
            (sends
              (reattached session_id t.node_id t.size (some t.reconnect_token) t.transport_status))
            w)))

abbrev pub fresh_loop : AppState → Loop
fresh_loop w = record { opened = false; failed = false; app = w }

-- The loop that follows the greeting, by what the session runs on.
unfoldable pub attach_to : TerminalBackend → ℕ → AppState → Reattachment
attach_to (local_pty session) output_rx w = local_attached session output_rx (fresh_loop w)
attach_to (remote command_tx) output_rx w = remote_attached command_tx output_rx (fresh_loop w)

unfoldable pub attach : Text → Text → TerminalReattachTarget → AppState → Reattachment
attach actor_email session_id t w =
    attach_to t.backend t.output_rx (welcome actor_email session_id t w)

-- `handle_terminal_reattach` up to its loop, at the time that the permission check reads and the one
-- that `reattach` reads.
unfoldable pub handle_terminal_reattach :
    User → Text → Text → ℕ → Text → ℕ → AppState → Reattachment
handle_terminal_reattach user session_id token checked_at new_token now w =
    if not (authorize_session_reattach user session_id checked_at w)
    then turned_away (
        send_error (some session_id) forbidden
          (text "terminal reattach is not permitted for this session") w)
    else let (found, r) = reattach session_id token user.email new_token now w.sessions in
      let w' = record w { sessions = r } in
      elim found [
        | none ↦ turned_away (
            send_error (some session_id) (terminal_missing_or_expired_code session_id w')
              (text "terminal session was not found or is no longer reattachable") w')
        | some t ↦ attach user.email session_id t w'
      ]

-- The events of a reattached terminal on a node.
pub data AttachedEvent : Type 0 where
  takes_output : TerminalServerMessage → ℕ → Bool → AttachedEvent
  lags_behind channel_closes browser_goes : AttachedEvent
  takes_frame : Message → ℕ → Bool → AttachedEvent

module _ (from_str : Text → Result Text TerminalClientMessage) where
  unfoldable pub attached_step : User → ℕ → Text → AttachedEvent → AppState → Bool × AppState
  attached_step user command_tx session_id (takes_output message now is_sent) w =
      let (is_delivered, w') =
        deliver user.email session_id message is_sent (on_sessions (touch session_id now) w) in
      if not is_delivered
      then (false, w')
      else if is_exit message
      then (false, on_sessions (forget session_id) w')
      else (true, w')
  attached_step user command_tx session_id lags_behind w = (true, w)
  attached_step user command_tx session_id channel_closes w = (false, w)
  attached_step user command_tx session_id browser_goes w =
      (false, lose_browser user.email session_id w)
  attached_step user command_tx session_id (takes_frame frame now is_sent) w =
      handle_remote_client_frame from_str user user.email command_tx session_id is_sent frame
        (on_sessions (touch session_id now) w)

  -- `remote_attached_loop`: the state, and whether the loop is still running.
  unfoldable pub remote_attached_loop :
      User → ℕ → Text → List AttachedEvent → AppState → Bool × AppState
  remote_attached_loop user command_tx session_id [] w = (true, w)
  remote_attached_loop user command_tx session_id (e ∷ events) w =
      let (goes_on, w') = attached_step user command_tx session_id e w in
      let rest = remote_attached_loop user command_tx session_id events w' in
      if goes_on then rest else (false, w')

-- The answers of `terminate_terminal_session`, by their status.
pub data TerminateAnswer : Type 0 where
  ended_session not_found not_permitted : TerminateAnswer

abbrev pub close_on_agent : Text → Bool → TerminalBackend → AppState → AppState
close_on_agent session_id is_sent (local_pty _) w = w
close_on_agent session_id is_sent (remote command_tx) w =
    try_command command_tx is_sent (close_terminal session_id) w

unfoldable pub terminate_terminal_session :
    User → Text → Bool → AppState → TerminateAnswer × AppState
terminate_terminal_session user session_id is_sent w =
    if not (owner_matches session_id user.email w.sessions)
    then (not_found, w)
    else if not (authorize_session_terminate user session_id w)
    then (not_permitted, w)
    else let (backend, r) = terminate session_id w.sessions in
      elim backend [
        | none ↦ (not_found, record w { sessions = r })
        | some b ↦ (
          ended_session,
          record_event terminal_terminated (some user.email)
              (session_text session_id (text "explicitly terminated"))
              (close_on_agent session_id is_sent b (record w { sessions = r })),
        )
      ]

pub list_active_terminal_sessions : User → ℕ → AppState → List TerminalSessionSummary
list_active_terminal_sessions user now w =
    list_sessions_for_actor user.email (active ∷ reattaching ∷ []) now w.sessions

pub list_detached_terminal_sessions : User → ℕ → AppState → List TerminalSessionSummary
list_detached_terminal_sessions user now w =
    list_sessions_for_actor user.email (detached ∷ []) now w.sessions

-- What a round of `spawn_session_cleanup_worker` does with the sessions that it drained; `is_sent`
-- says whether an agent's channel takes the command.
unfoldable pub tell_expired : (Text → Bool) → List ClosedSession → AppState → AppState
tell_expired is_sent [] w = w
tell_expired is_sent (c ∷ closed) w = tell_expired is_sent closed (
    record_event terminal_closed (some c.actor_email) (session_text c.session_id (text "expired")) (
      close_on_agent c.session_id (is_sent c.session_id) c.backend (
        emit
          (broadcasts c.output_tx (
            error (some c.session_id)
              (protocol_error_text session_expired (text "terminal session expired"))))
          w)))

unfoldable pub clean_up : TerminalSessionConfig → ℕ → (Text → Bool) → AppState → AppState
clean_up config now is_sent w =
    let (closed, r) = drain_expired config.max_duration config.idle_timeout now w.sessions in
    tell_expired is_sent closed (record w { sessions = r })
