-- ===== src/Sockets/Local.antt =====
-- crates/sunbolt-control/src/terminal/mod.rs: how a terminal is opened on this host.
use sunbolt.Base.{ℕ, ◌++◌, Bool, true, false, none, some, Text, text, Result, ok, err}
use sunbolt.Terminal.{active}
use sunbolt.Protocol.{TerminalSize, terminal_unavailable, started}
use sunbolt.Registry.{TerminalSessionConfig, SessionLimitError, insert_local, set_state}
use sunbolt.Registry.Queries.{current_token}
use sunbolt.Audit.Kinds.{terminal_opened, terminal_failed}
use sunbolt.Auth.{User}
use sunbolt.Sockets.{
  AppState, sends, closes_pty, emit, on_sessions, send_error, record_event, session_text,
}
use sunbolt.Sockets.Loops.{Loop}
use sunbolt.Sockets.Opening.{Chances, limit_message}

-- An attempt on this host: over, or with the PTY, the output channel and the loop.
pub data LocalOpening : Type 0 where
  local_refused : AppState → LocalOpening
  local_opened : ℕ → ℕ → Loop → LocalOpening

-- What follows the insertion of a session on this host, by its answer.
unfoldable pub settle_local :
    User → Text → TerminalSize → ℕ → Bool → Result SessionLimitError ℕ → AppState → LocalOpening
settle_local user session_id size session is_sent (err limit) w = local_refused (
    send_error (some session_id) terminal_unavailable (limit_message limit) (
      emit (closes_pty session)
        (record_event terminal_failed (some user.email) (limit_message limit) w)))
settle_local user session_id size session false (ok output_tx) w = local_refused (
    emit (closes_pty session) (
      record_event terminal_failed (some user.email)
        (text "failed to send terminal started message") w))
settle_local user session_id size session true (ok output_tx) w =
    local_opened session output_tx (record {
      opened = false;
      failed = false;
      app = on_sessions (set_state session_id active) (
          record_event terminal_opened (some user.email) (session_text session_id (text "opened")) (
            emit (sends (started session_id none size (current_token session_id w.sessions) none))
              w));
    })

-- `handle_terminal_socket` for this host up to its loop: `spawned` is the PTY or the error of spawning
-- one, and `is_sent` says whether the browser takes the first message.
unfoldable pub open_local_terminal :
    TerminalSessionConfig
    → User
    → Text
    → TerminalSize
    → Result Text ℕ
    → Chances
    → Bool
    → AppState
    → LocalOpening
open_local_terminal config user session_id size (err e) t is_sent w = local_refused (
    send_error (some session_id) terminal_unavailable e
      (record_event terminal_failed (some user.email) (text "terminal spawn failed: " ++ e) w))
open_local_terminal config user session_id size (ok session) t is_sent w =
    let (inserted, r) =
      insert_local session_id session size config user.email none t.token t.output_tx t.now
        w.sessions in
    settle_local user session_id size session is_sent inserted (record w { sessions = r })
