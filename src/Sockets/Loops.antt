-- ===== src/Sockets/Loops.antt =====
-- crates/sunbolt-control/src/terminal/mod.rs: what the loops over the events of a terminal share. The
-- events come in the order in which `select!` takes them.
pub mod Local
pub mod Remote
use sunbolt.Base.{Bool, true, false, Option, none, some, Text, if◌then◌else◌, nat_eq}
use sunbolt.Terminal.{TerminalSessionState, detached, index}
use sunbolt.Protocol.{TerminalServerMessage, started, output, exited, error}
use sunbolt.Sockets.{AppState, sends, emit, lose_browser}

abbrev pub is_exit : TerminalServerMessage → Bool
is_exit (exited _ _) = true
is_exit _ = false

abbrev pub is_started : TerminalServerMessage → Bool
is_started (started _ _ _ _ _) = true
is_started _ = false

abbrev pub is_output : TerminalServerMessage → Bool
is_output (output _ _ _) = true
is_output _ = false

abbrev pub is_error : TerminalServerMessage → Bool
is_error (error _ _) = true
is_error _ = false

-- The flags of a loop and the state.
pub record Loop : Type 0 where
  pub opened : Bool
  pub failed : Bool
  pub app : AppState

abbrev pub with_app : Loop → AppState → Loop
with_app l w = record l { app = w }

-- A loop that waits for its next event, or the state after its end.
pub data Progress : Type 0 where
  running : Loop → Progress
  ended : AppState → Progress

abbrev pub is_detached : Option TerminalSessionState → Bool
is_detached none = false
is_detached (some s) = nat_eq (index s) (index detached)

-- A message for the browser; without one that takes it the session is detached.
unfoldable pub deliver : Text → Text → TerminalServerMessage → Bool → AppState → Bool × AppState
deliver actor_email session_id message is_sent w =
    if is_sent
    then (true, emit (sends message) w)
    else (false, lose_browser actor_email session_id w)
