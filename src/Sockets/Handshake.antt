-- ===== src/Sockets/Handshake.antt =====
-- crates/sunbolt-control/src/terminal/mod.rs: what the first message of a socket asks for.
use sunbolt.Base.{Option, none, some, Text, text, Result, ok, err}
use sunbolt.Protocol.{
  TerminalSize, TerminalClientMessage, invalid_message, error, start_message, reattach_message,
}
use sunbolt.Sockets.{AppState, sends, Message, emit, send_error, parse_client_message}

-- `TerminalHandshake`
pub data TerminalHandshake : Type 0 where
  starts : Option Text → TerminalSize → TerminalHandshake
  reattaches : Text → Text → TerminalHandshake

-- What the first message asks for.
unfoldable pub handshake_of : TerminalClientMessage → AppState → Option TerminalHandshake × AppState
handshake_of (start_message node_id size) w = (some (starts node_id size), w)
handshake_of (reattach_message id token) w = (some (reattaches id token), w)
handshake_of _ w = (
  none,
  send_error none invalid_message (text "first terminal message must be start or reattach") w,
)

-- `receive_start_message`, on what the socket yields.
unfoldable pub receive_start_message :
    (Text → Result Text TerminalClientMessage)
    → Option Message
    → AppState
    → Option TerminalHandshake × AppState
receive_start_message from_str none w = (none, w)
receive_start_message from_str (some frame) w = elim (parse_client_message from_str frame) [
  | ok message ↦ handshake_of message w
  | err e ↦ (none, emit (sends (error none e)) w)
]
