-- ===== src/Sockets/Keeping.antt =====
-- What every handler keeps of the session registry: any predicate that the registry's methods keep.
pub mod Steps
pub mod Remote
use sunbolt.Base.{
  ℕ, Bool, true, false, Option, none, some, Text, Result, arith, Bool-cases, Result-cases, inl, inr,
}
use sunbolt.Terminal.{TerminalSessionState, active, detached, reattaching, terminating}
use sunbolt.Protocol.{
  TerminalSize, TerminalClientMessage, start_message, input_message, resize_message, close_message,
  terminate_message, detach_message, reattach_message, ping_message,
}
use sunbolt.Registry.{Registry, set_state, detach, set_size, touch, forget, terminate}
use sunbolt.Auth.{User}
use sunbolt.Sockets.{
  AppState, Message, emit, on_sessions, send_error, record_event, audit_terminal_detached,
  parse_client_message, authorize_session_terminate,
}
use sunbolt.Sockets.Frames.{
  if_matches, report_pty, close_local_terminal, detach_local_terminal, reattach_local_terminal,
  handle_local_message, send_command, try_command, close_remote_terminal, handle_remote_message,
  handle_client_frame, handle_remote_client_frame,
}

-- A predicate that the methods on one session keep.
pub record IsKept (id : Text) (P : Registry → Type 0) : Type 0 where
  pub sets : (state : TerminalSessionState) (r : Registry) → P r → P (set_state id state r)
  pub detaches : (r : Registry) → P r → P (detach id r)
  pub touches : (now : ℕ) (r : Registry) → P r → P (touch id now r)
  pub resizes : (size : TerminalSize) (r : Registry) → P r → P (set_size id size r)
  pub forgets : (r : Registry) → P r → P (forget id r)
  pub terminates : (r : Registry) → P r → P (terminate id r).1

module _ (id : Text) (P : Registry → Type 0) (k : IsKept id P) where
  if_matches-keeps :
      (received : Text) (handle : AppState → Bool × AppState) (w : AppState)
      → P w.sessions
      → P (handle w).1.sessions
      → P (if_matches received id handle w).1.sessions
  unfolding if_matches send_error emit
  if_matches-keeps received handle w h done = ground (arith, h, done)

  report_pty-keeps :
      (answer : Option Text) (w : AppState) → P w.sessions → P (report_pty id answer w).1.sessions
  unfolding report_pty send_error emit
  report_pty-keeps none w h = h
  report_pty-keeps (some e) w h = h

  pub handle_local_message-keeps :
      (actor_email : Text) (session : ℕ) (answer : Option Text) (message : TerminalClientMessage)
      (w : AppState)
      → P w.sessions
      → P (handle_local_message actor_email session id answer message w).1.sessions
  unfolding handle_local_message close_local_terminal detach_local_terminal reattach_local_terminal
      audit_terminal_detached record_event send_error on_sessions emit
  handle_local_message-keeps actor_email session answer (start_message _ _) w h = h
  handle_local_message-keeps actor_email session answer (input_message received payload) w h =
      if_matches-keeps received _ w h (report_pty-keeps answer _ h)
  handle_local_message-keeps actor_email session answer (resize_message received size) w h =
      if_matches-keeps received _ w h (report_pty-keeps answer _ (k.resizes size w.sessions h))
  handle_local_message-keeps actor_email session answer (close_message received) w h =
      if_matches-keeps received _ w h (k.sets terminating w.sessions h)
  handle_local_message-keeps actor_email session answer (terminate_message received) w h =
      if_matches-keeps received _ w h (k.sets terminating w.sessions h)
  handle_local_message-keeps actor_email session answer (detach_message received) w h =
      if_matches-keeps received _ w h (k.sets detached w.sessions h)
  handle_local_message-keeps actor_email session answer (reattach_message received _) w h =
      if_matches-keeps received _ w h
        (k.sets active _ (k.sets active _ (k.sets reattaching w.sessions h)))
  handle_local_message-keeps actor_email session answer (ping_message _) w h = h

  send_command-keeps :
      (command_tx : ℕ) (is_sent : Bool) (command : sunbolt.Protocol.AgentTerminalCommand)
      (w : AppState)
      → P w.sessions
      → P (send_command command_tx id is_sent command w).1.sessions
  unfolding send_command send_error emit
  send_command-keeps command_tx true command w h = h
  send_command-keeps command_tx false command w h = h

  pub try_command-keeps :
      (command_tx : ℕ) (is_sent : Bool) (command : sunbolt.Protocol.AgentTerminalCommand)
      (w : AppState)
      → P w.sessions
      → P (try_command command_tx is_sent command w).sessions
  unfolding try_command emit
  try_command-keeps command_tx true command w h = h
  try_command-keeps command_tx false command w h = h

  close_remote_terminal-keeps :
      (user : User) (actor_email : Text) (command_tx : ℕ) (is_sent : Bool) (received : Text)
      (w : AppState)
      → P w.sessions
      → P (close_remote_terminal user actor_email command_tx id is_sent received w).1.sessions
  unfolding close_remote_terminal record_event send_error on_sessions emit
  close_remote_terminal-keeps user actor_email command_tx is_sent received w h =
      elim (Bool-cases (authorize_session_terminate user id w)) [
        | inl allowed ↦
            rw allowed (try_command-keeps command_tx is_sent _ _ (k.sets terminating w.sessions h))
        | inr refused ↦ rw refused h
      ]

  pub handle_remote_message-keeps :
      (user : User) (actor_email : Text) (command_tx : ℕ) (is_sent : Bool)
      (message : TerminalClientMessage) (w : AppState)
      → P w.sessions
      → P (handle_remote_message user actor_email command_tx id is_sent message w).1.sessions
  unfolding handle_remote_message audit_terminal_detached record_event send_error on_sessions emit
  handle_remote_message-keeps user actor_email command_tx is_sent (start_message _ _) w h = h
  handle_remote_message-keeps user actor_email command_tx is_sent (input_message received _) w h =
      if_matches-keeps received _ w h (send_command-keeps command_tx is_sent _ w h)
  handle_remote_message-keeps user actor_email command_tx is_sent (resize_message received _) w h =
      if_matches-keeps received _ w h (send_command-keeps command_tx is_sent _ w h)
  handle_remote_message-keeps user actor_email command_tx is_sent (close_message received) w h =
      if_matches-keeps received _ w h
        (close_remote_terminal-keeps user actor_email command_tx is_sent received w h)
  handle_remote_message-keeps user actor_email command_tx is_sent (terminate_message received) w h =
      if_matches-keeps received _ w h
        (close_remote_terminal-keeps user actor_email command_tx is_sent received w h)
  handle_remote_message-keeps user actor_email command_tx is_sent (detach_message received) w h =
      if_matches-keeps received _ w h (k.detaches w.sessions h)
  handle_remote_message-keeps user actor_email command_tx is_sent (reattach_message received _) w
        h =
      if_matches-keeps received _ w h h
  handle_remote_message-keeps user actor_email command_tx is_sent (ping_message _) w h = h

  module _ (from_str : Text → Result Text TerminalClientMessage) where
    pub handle_client_frame-keeps :
        (actor_email : Text) (session : ℕ) (answer : Option Text) (frame : Message) (w : AppState)
        → P w.sessions
        → P (handle_client_frame from_str actor_email session id answer frame w).1.sessions
    unfolding handle_client_frame emit
    handle_client_frame-keeps actor_email session answer frame w h =
        elim (Result-cases (parse_client_message from_str frame)) [
          | inl (message, read) ↦
              rw (read, handle_client_frame)
                (handle_local_message-keeps actor_email session answer message w h)
          | inr (e, failed) ↦ rw (failed, handle_client_frame) h
        ]

    pub handle_remote_client_frame-keeps :
        (user : User) (actor_email : Text) (command_tx : ℕ) (is_sent : Bool) (frame : Message)
        (w : AppState)
        → P w.sessions
        → P
            (handle_remote_client_frame from_str user actor_email command_tx id is_sent frame
              w).1.sessions
    unfolding handle_remote_client_frame emit
    handle_remote_client_frame-keeps user actor_email command_tx is_sent frame w h =
        elim (Result-cases (parse_client_message from_str frame)) [
          | inl (message, read) ↦
              rw (read, handle_remote_client_frame)
                (handle_remote_message-keeps user actor_email command_tx is_sent message w h)
          | inr (e, failed) ↦ rw (failed, handle_remote_client_frame) h
        ]
