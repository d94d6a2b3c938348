-- ===== src/Sockets/Output.antt =====
-- crates/sunbolt-control/src/terminal/mod.rs: the thread that reads a PTY on this host.
use sunbolt.Base.{ℕ, Bool, true, false, Option, none, some, List, [], ◌∷◌, Text, if◌then◌else◌}
use sunbolt.Protocol.{TerminalExit, TerminalServerMessage, exited, error, terminal_unavailable}
use sunbolt.Registry.{record_output}
use sunbolt.Sockets.{AppState, broadcasts, emit, protocol_error_text}

-- What a round of the loop of `read_pty_output` finds: the PTY closed or at its end; bytes, as the
-- text that `from_utf8_lossy` makes of them; or an error, with the exit if there is one by then.
pub data PtyReading : Type 0 where
  is_over : PtyReading
  reads : Text → PtyReading
  fails_with : Option TerminalExit → Text → PtyReading

unfoldable pub exit_message : Text → TerminalExit → TerminalServerMessage
exit_message session_id exit = exited session_id exit

unfoldable pub report_exit : ℕ → Text → Option TerminalExit → AppState → AppState
report_exit output_tx session_id none w = w
report_exit output_tx session_id (some exit) w =
    emit (broadcasts output_tx (exit_message session_id exit)) w

unfoldable pub broadcast_if : ℕ → Option TerminalServerMessage → AppState → AppState
broadcast_if output_tx none w = w
broadcast_if output_tx (some message) w = emit (broadcasts output_tx message) w

unfoldable pub pty_step : ℕ → Text → PtyReading → AppState → Bool × AppState
pty_step output_tx session_id is_over w = (false, w)
pty_step output_tx session_id (reads payload) w =
    let (message, r) = record_output session_id payload w.sessions in
    (true, broadcast_if output_tx message (record w { sessions = r }))
pty_step output_tx session_id (fails_with (some exit) e) w =
    (false, report_exit output_tx session_id (some exit) w)
pty_step output_tx session_id (fails_with none e) w = (
  false,
  emit (broadcasts output_tx (error (some session_id) (protocol_error_text terminal_unavailable e)))
      w,
)

-- `read_pty_output`; `exit` is what `wait_exit` says at the end. Without a reading it waits.
unfoldable pub read_pty_output :
    ℕ → Text → Option TerminalExit → List PtyReading → AppState → AppState
read_pty_output output_tx session_id exit [] w = w
read_pty_output output_tx session_id exit (reading ∷ readings) w =
    let (goes_on, w') = pty_step output_tx session_id reading w in
    let rest = read_pty_output output_tx session_id exit readings w' in
    if goes_on then rest else report_exit output_tx session_id exit w'
