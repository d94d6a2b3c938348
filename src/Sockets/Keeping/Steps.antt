-- ===== src/Sockets/Keeping/Steps.antt =====
-- What the steps and the ends of the loops keep of the session registry.
use sunbolt.Base.{ℕ, Bool, true, false, Text, Result, Bool-cases, inl, inr}
use sunbolt.Terminal.{terminating, terminated}
use sunbolt.Protocol.{
  TerminalServerMessage, TerminalClientMessage, started, output, exited, reattached, error, pong,
  close_terminal,
}
use sunbolt.Registry.{Registry, TerminalSessionConfig, touch}
use sunbolt.Registry.Queries.{state_of, is_idle, is_exceeded_max_duration}
use sunbolt.Auth.{User}
use sunbolt.Sockets.{
  AppState, emit, on_sessions, send_error, record_event, audit_terminal_detached, lose_browser,
}
use sunbolt.Sockets.Loops.{Loop, deliver, is_detached, is_exit}
use sunbolt.Sockets.Loops.Remote.{finish_remote}
use sunbolt.Sockets.Loops.Local.{
  LocalEvent, receives_output, lags, output_closes, browser_leaves, receives_frame, ticks,
  note_exit, note_error, time_out, check_idle, finish_local, local_step,
}
use sunbolt.Sockets.Attached.{
  AttachedEvent, takes_output, lags_behind, channel_closes, browser_goes, takes_frame,
  attached_step,
}
use sunbolt.Sockets.Keeping.{
  IsKept, try_command-keeps, handle_client_frame-keeps, handle_remote_client_frame-keeps,
}

module _ (id : Text) (P : Registry → Type 0) (k : IsKept id P) where
  pub lose_browser-keeps :
      (actor_email : Text) (w : AppState)
      → P w.sessions
      → P (lose_browser actor_email id w).sessions
  unfolding lose_browser audit_terminal_detached record_event on_sessions emit
  lose_browser-keeps actor_email w h = k.detaches w.sessions h

  pub deliver-keeps :
      (actor_email : Text) (message : TerminalServerMessage) (is_sent : Bool) (w : AppState)
      → P w.sessions
      → P (deliver actor_email id message is_sent w).1.sessions
  unfolding deliver emit
  deliver-keeps actor_email message true w h = h
  deliver-keeps actor_email message false w h = lose_browser-keeps actor_email w h

  note_exit-keeps :
      (message : TerminalServerMessage) (w : AppState)
      → P w.sessions
      → P (note_exit id message w).sessions
  unfolding note_exit on_sessions
  note_exit-keeps message w h = elim (Bool-cases (is_exit message)) [
    | inl hit ↦ rw hit (k.sets terminated w.sessions h)
    | inr miss ↦ rw miss h
  ]

  note_error-keeps :
      (actor_email : Text) (message : TerminalServerMessage) (l : Loop)
      → P l.app.sessions
      → P (note_error actor_email message l).app.sessions
  unfolding note_error record_event emit
  note_error-keeps actor_email (error _ e) l h = h
  note_error-keeps actor_email (started _ _ _ _ _) l h = h
  note_error-keeps actor_email (output _ _ _) l h = h
  note_error-keeps actor_email (exited _ _) l h = h
  note_error-keeps actor_email (sunbolt.Protocol.TerminalServerMessage.detached _) l h = h
  note_error-keeps actor_email (reattached _ _ _ _ _) l h = h
  note_error-keeps actor_email (pong _) l h = h

  check_idle-keeps :
      (config : TerminalSessionConfig) (now now' : ℕ) (l : Loop)
      → P l.app.sessions
      → P (check_idle config id now now' l).1.app.sessions
  unfolding check_idle time_out send_error on_sessions emit
  check_idle-keeps config now now' l h =
      elim (Bool-cases (is_idle id config.idle_timeout now l.app.sessions)) [
        | inl idle ↦ rw idle (k.sets terminating l.app.sessions h)
        | inr busy ↦
            elim (Bool-cases
              (is_exceeded_max_duration id config.max_duration now' l.app.sessions)) [
                | inl old ↦ rw (busy, old) (k.sets terminating l.app.sessions h)
                | inr young ↦ rw (busy, young) h
              ]
      ]

  pub finish_local-keeps :
      (actor_email : Text) (l : Loop)
      → P l.app.sessions
      → P (finish_local actor_email id l).sessions
  unfolding finish_local record_event on_sessions emit
  finish_local-keeps actor_email l h =
      elim (Bool-cases (is_detached (state_of id l.app.sessions))) [
        | inl stays ↦ rw stays h
        | inr goes ↦
            let gone = k.forgets _ (k.sets terminating l.app.sessions h) in
            elim (Bool-cases l.failed) [
              | inl broken ↦ rw (goes, broken) gone
              | inr fine ↦ rw (goes, fine) gone
            ]
      ]

  pub finish_remote-keeps :
      (actor_email : Text) (command_tx : ℕ) (is_sent : Bool) (l : Loop)
      → P l.app.sessions
      → P (finish_remote actor_email command_tx id is_sent l).sessions
  unfolding finish_remote record_event on_sessions emit
  finish_remote-keeps actor_email command_tx is_sent l h =
      elim (Bool-cases (is_detached (state_of id l.app.sessions))) [
        | inl stays ↦ rw stays h
        | inr goes ↦
            let gone =
              try_command-keeps id P k command_tx is_sent (close_terminal id) _
                (k.terminates l.app.sessions h) in
            elim (Bool-cases l.failed) [
              | inl broken ↦ rw (goes, broken) gone
              | inr fine ↦ elim (Bool-cases l.opened) [
                | inl was ↦ rw (goes, fine, was) gone
                | inr never ↦ rw (goes, fine, never) gone
              ]
            ]
      ]

  module _ (from_str : Text → Result Text TerminalClientMessage) where
    pub local_step-keeps :
        (config : TerminalSessionConfig) (actor_email : Text) (session : ℕ) (e : LocalEvent)
        (l : Loop)
        → P l.app.sessions
        → P (local_step from_str config actor_email session id e l).1.app.sessions
    unfolding local_step on_sessions
    local_step-keeps config actor_email session (receives_output message now is_sent) l h =
        deliver-keeps actor_email message is_sent _ (
          note_error-keeps actor_email message _
            (note_exit-keeps message _ (k.touches now l.app.sessions h)))
    local_step-keeps config actor_email session lags l h = h
    local_step-keeps config actor_email session output_closes l h = h
    local_step-keeps config actor_email session browser_leaves l h =
        lose_browser-keeps actor_email l.app h
    local_step-keeps config actor_email session (receives_frame frame now answer) l h =
        handle_client_frame-keeps id P k from_str actor_email session answer frame _
          (k.touches now l.app.sessions h)
    local_step-keeps config actor_email session (ticks now now') l h =
        check_idle-keeps config now now' l h

    pub attached_step-keeps :
        (user : User) (command_tx : ℕ) (e : AttachedEvent) (w : AppState)
        → P w.sessions
        → P (attached_step from_str user command_tx id e w).1.sessions
    unfolding attached_step on_sessions
    attached_step-keeps user command_tx (takes_output message now is_sent) w h =
        let kept =
          deliver-keeps user.email message is_sent (on_sessions (touch id now) w)
            (k.touches now w.sessions h) in
        elim (Bool-cases (deliver user.email id message is_sent (on_sessions (touch id now) w)).0) [
          | inl taken ↦ elim (Bool-cases (is_exit message)) [
            | inl exit ↦ rw (taken, exit) (k.forgets _ kept)
            | inr other ↦ rw (taken, other) kept
          ]
          | inr refused ↦ rw refused kept
        ]
    attached_step-keeps user command_tx lags_behind w h = h
    attached_step-keeps user command_tx channel_closes w h = h
    attached_step-keeps user command_tx browser_goes w h = lose_browser-keeps user.email w h
    attached_step-keeps user command_tx (takes_frame frame now is_sent) w h =
        handle_remote_client_frame-keeps id P k from_str user user.email command_tx is_sent frame _
          (k.touches now w.sessions h)
