-- ===== src/Sockets/Frames.antt =====
-- crates/sunbolt-control/src/terminal/mod.rs: a frame of the browser, for a terminal on this host and
-- for one on a node. The answer says whether the loop goes on.
use sunbolt.Base.{
  ℕ, ◌++◌, Bool, true, false, not, Option, none, some, Text, text, text_eq, if◌then◌else◌, Result,
  ok, err,
}
use sunbolt.Terminal.{active, detached, reattaching, terminating}
use sunbolt.Protocol.{
  TerminalServerMessage, TerminalClientMessage, AgentTerminalCommand, invalid_message,
  session_not_found, terminal_unavailable, forbidden, error, exited, pong, reattached,
  start_message, input_message, resize_message, close_message, terminate_message, detach_message,
  reattach_message, ping_message, write_input, resize_terminal, close_terminal,
}
use sunbolt.Registry.{set_state, set_size, detach}
use sunbolt.Registry.Queries.{current_token}
use sunbolt.Audit.Kinds.{terminal_terminated}
use sunbolt.Auth.{User}
use sunbolt.Sockets.{
  AppState, sends, commands, writes_input, resizes_pty, closes_pty, Message, emit, on_sessions,
  send_error, record_event, session_text, audit_terminal_detached, authorize_session_terminate,
  parse_client_message, terminal_size_from_protocol,
}

-- `session_id_matches`, and what is said if it does not.
unfoldable pub if_matches : Text → Text → (AppState → Bool × AppState) → AppState → Bool × AppState
if_matches received session_id handle w = if text_eq received session_id then handle w else (
  true,
  send_error (some session_id) session_not_found
      (text "terminal session id does not match this connection") w,
)

-- The error that a PTY gives, if it gives one, is sent to the browser.
unfoldable pub report_pty : Text → Option Text → AppState → Bool × AppState
report_pty session_id none w = (true, w)
report_pty session_id (some e) w = (true, send_error (some session_id) terminal_unavailable e w)

unfoldable pub close_local_terminal : Text → ℕ → Text → AppState → Bool × AppState
close_local_terminal actor_email session session_id w = (
  false,
  emit (sends (exited session_id (record { status = none }))) (
      emit (closes_pty session) (
        record_event terminal_terminated (some actor_email)
          (session_text session_id (text "explicitly terminated"))
          (on_sessions (set_state session_id terminating) w))),
)

unfoldable pub detach_local_terminal : Text → AppState → Bool × AppState
detach_local_terminal session_id w = (
  false,
  emit (sends (sunbolt.Protocol.TerminalServerMessage.detached session_id))
      (on_sessions (set_state session_id detached) w),
)

unfoldable pub reattach_local_terminal : Text → AppState → Bool × AppState
reattach_local_terminal session_id w =
    let attached =
      on_sessions (set_state session_id active)
        (on_sessions (set_state session_id reattaching) w) in
    (
      true,
      on_sessions (set_state session_id active) (
          emit
            (sends (
              reattached session_id none (record { cols = 80; rows = 24 })
                (current_token session_id attached.sessions) none))
            attached),
    )

-- What `handle_client_frame` does with a message; `answer` is the error of the PTY, if there is one.
unfoldable pub handle_local_message :
    Text → ℕ → Text → Option Text → TerminalClientMessage → AppState → Bool × AppState
handle_local_message actor_email session session_id answer (input_message id payload) =
    if_matches id session_id
      λ w. report_pty session_id answer (emit (writes_input session payload) w)
handle_local_message actor_email session session_id answer (resize_message id size) =
    if_matches id session_id λ w. report_pty session_id answer (
      emit (resizes_pty session (terminal_size_from_protocol size))
        (on_sessions (set_size session_id size) w))
handle_local_message actor_email session session_id answer (close_message id) =
    if_matches id session_id (close_local_terminal actor_email session session_id)
handle_local_message actor_email session session_id answer (terminate_message id) =
    if_matches id session_id (close_local_terminal actor_email session session_id)
handle_local_message actor_email session session_id answer (detach_message id) =
    if_matches id session_id λ w.
      detach_local_terminal session_id
        (audit_terminal_detached actor_email session_id (text "user detached terminal session") w)
handle_local_message actor_email session session_id answer (reattach_message id _) =
    if_matches id session_id (reattach_local_terminal session_id)
handle_local_message actor_email session session_id answer (ping_message nonce) =
    λ w. (true, emit (sends (pong nonce)) w)
handle_local_message actor_email session session_id answer (start_message _ _) = λ w. (
  true,
  send_error (some session_id) invalid_message (text "terminal session is already started") w,
)

-- What `handle_remote_client_frame` does with a command that it made; `is_sent` says whether the
-- channel takes it.
unfoldable pub send_command : ℕ → Text → Bool → AgentTerminalCommand → AppState → Bool × AppState
send_command command_tx session_id is_sent command w =
    if is_sent then (true, emit (commands command_tx command) w) else (
      false,
      send_error (some session_id) terminal_unavailable (text "agent connection dropped") w,
    )

-- A command whose fate is not looked at.
unfoldable pub try_command : ℕ → Bool → AgentTerminalCommand → AppState → AppState
try_command command_tx is_sent command w =
    if is_sent then emit (commands command_tx command) w else w

unfoldable pub close_remote_terminal :
    User → Text → ℕ → Text → Bool → Text → AppState → Bool × AppState
close_remote_terminal user actor_email command_tx session_id is_sent id w =
    if not (authorize_session_terminate user session_id w)
    then (
      true,
      send_error (some session_id) forbidden
          (text "terminal terminate is not permitted for this session") w,
    )
    else (
      false,
      try_command command_tx is_sent (close_terminal id) (
          record_event terminal_terminated (some actor_email)
            (text "remote " ++ session_text session_id (text "explicitly terminated"))
            (on_sessions (set_state session_id terminating) w)),
    )

unfoldable pub handle_remote_message :
    User → Text → ℕ → Text → Bool → TerminalClientMessage → AppState → Bool × AppState
handle_remote_message user actor_email command_tx session_id is_sent (input_message id payload) =
    if_matches id session_id (send_command command_tx session_id is_sent (write_input id payload))
handle_remote_message user actor_email command_tx session_id is_sent (resize_message id size) =
    if_matches id session_id (send_command command_tx session_id is_sent (resize_terminal id size))
handle_remote_message user actor_email command_tx session_id is_sent (close_message id) =
    if_matches id session_id
      (close_remote_terminal user actor_email command_tx session_id is_sent id)
handle_remote_message user actor_email command_tx session_id is_sent (terminate_message id) =
    if_matches id session_id
      (close_remote_terminal user actor_email command_tx session_id is_sent id)
handle_remote_message user actor_email command_tx session_id is_sent (detach_message id) =
    if_matches id session_id λ w. (
      false,
      emit (sends (sunbolt.Protocol.TerminalServerMessage.detached id)) (
          audit_terminal_detached actor_email session_id
            (text "user detached remote terminal session") (on_sessions (detach session_id) w)),
    )
handle_remote_message user actor_email command_tx session_id is_sent (reattach_message id _) =
    if_matches id session_id λ w. (
      true,
      send_error (some id) invalid_message (text "remote terminal reattach is not available yet") w,
    )
handle_remote_message user actor_email command_tx session_id is_sent (ping_message nonce) =
    λ w. (true, emit (sends (pong nonce)) w)
handle_remote_message user actor_email command_tx session_id is_sent (start_message _ _) = λ w. (
  true,
  send_error (some session_id) invalid_message (text "terminal session is already started") w,
)

module _ (from_str : Text → Result Text TerminalClientMessage) where
  unfoldable pub handle_client_frame :
      Text → ℕ → Text → Option Text → Message → AppState → Bool × AppState
  handle_client_frame actor_email session session_id answer frame w =
      elim (parse_client_message from_str frame) [
        | err e ↦ (true, emit (sends (error (some session_id) e)) w)
        | ok message ↦ handle_local_message actor_email session session_id answer message w
      ]

  unfoldable pub handle_remote_client_frame :
      User → Text → ℕ → Text → Bool → Message → AppState → Bool × AppState
  handle_remote_client_frame user actor_email command_tx session_id is_sent frame w =
      elim (parse_client_message from_str frame) [
        | err e ↦ (true, emit (sends (error (some session_id) e)) w)
        | ok message ↦
            handle_remote_message user actor_email command_tx session_id is_sent message w
      ]
