-- ===== src/Sockets/Entry.antt =====
-- crates/sunbolt-control/src/terminal/mod.rs: where the first message of a socket leads.
use sunbolt.Base.{ℕ, Bool, Option, none, some, Text, Result}
use sunbolt.Protocol.{TerminalSize, TerminalClientMessage}
use sunbolt.Registry.{TerminalSessionConfig}
use sunbolt.Auth.{User}
use sunbolt.Sockets.{AppState, Message, session_id_of, terminal_size_from_protocol}
use sunbolt.Sockets.Opening.{Opening, Chances, open_remote_terminal}
use sunbolt.Sockets.Local.{LocalOpening, open_local_terminal}
use sunbolt.Sockets.Handshake.{starts, receive_start_message}
use sunbolt.Sockets.Attached.{Reattachment, handle_terminal_reattach}

pub data Served : Type 0 where
  hangs_up : AppState → Served
  serves_here : LocalOpening → Served
  serves_node : Opening → Served
  serves_again : Reattachment → Served

-- `handle_terminal_socket`, with the number that `next_session_id` draws, what spawning a shell of a
-- size gives, the times of the checks, and whether the browser takes the first message.
unfoldable pub handle_terminal_socket :
    (Text → Result Text TerminalClientMessage)
    → TerminalSessionConfig
    → User
    → Option Message
    → ℕ
    → (TerminalSize → Result Text ℕ)
    → ℕ
    → Chances
    → Bool
    → AppState
    → Served
handle_terminal_socket from_str c user frame number spawn checked_at t is_sent w =
    let (handshake, w') = receive_start_message from_str frame w in
    elim handshake [
      | none ↦ hangs_up w'
      | some (sunbolt.Sockets.Handshake.reattaches session_id token) ↦
          serves_again (handle_terminal_reattach user session_id token checked_at t.token t.now w')
      | some (starts (some node_id) size) ↦
          serves_node
            (open_remote_terminal c user node_id (session_id_of number) size checked_at t w')
      | some (starts none size) ↦ serves_here (
          open_local_terminal c user (session_id_of number) size
            (spawn (terminal_size_from_protocol size)) t is_sent w')
    ]
