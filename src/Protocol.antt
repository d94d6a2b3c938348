-- ===== src/Protocol.antt =====
-- crates/sunbolt-protocol/src/lib.rs: identifiers and messages between browser, control plane and
-- agent. Texts are bytes; the JSON encoding is serde's.
use sunbolt.Base.{ℕ, Text, Bool, Option}

-- `PROTOCOL_VERSION`
abbrev pub protocol_version : ℕ
protocol_version = 1

pub record TerminalSize : Type 0 where
  pub cols : ℕ
  pub rows : ℕ

pub data AgentTransportKind : Type 0 where
  web_socket_tls_tcp443 http2_tls_tcp443 quic_udp443 long_poll_https : AgentTransportKind

pub record TerminalTransportStatus : Type 0 where
  pub kind : AgentTransportKind
  pub degraded : Bool
  pub message : Option Text

-- The exit status is an `i32`, kept as its bit pattern.
pub record TerminalExit : Type 0 where
  pub status : Option ℕ

pub data TerminalErrorCode : Type 0 where
  unauthorized forbidden session_not_found session_expired : TerminalErrorCode
  invalid_message terminal_unavailable internal : TerminalErrorCode

pub record TerminalError : Type 0 where
  pub code : TerminalErrorCode
  pub message : Text

-- The variants of `TerminalClientMessage`, each with `_message` after its name.
pub data TerminalClientMessage : Type 0 where
  start_message : Option Text → TerminalSize → TerminalClientMessage
  input_message : Text → Text → TerminalClientMessage
  resize_message : Text → TerminalSize → TerminalClientMessage
  close_message terminate_message detach_message : Text → TerminalClientMessage
  reattach_message : Text → Text → TerminalClientMessage
  ping_message : Text → TerminalClientMessage

pub data TerminalServerMessage : Type 0 where
  started :
      Text
      → Option Text
      → TerminalSize
      → Option Text
      → Option TerminalTransportStatus
      → TerminalServerMessage
  output : Text → ℕ → Text → TerminalServerMessage
  exited : Text → TerminalExit → TerminalServerMessage
  detached : Text → TerminalServerMessage
  reattached :
      Text
      → Option Text
      → TerminalSize
      → Option Text
      → Option TerminalTransportStatus
      → TerminalServerMessage
  error : Option Text → TerminalError → TerminalServerMessage
  pong : Text → TerminalServerMessage

pub data AgentTerminalCommand : Type 0 where
  start_terminal : Text → TerminalSize → AgentTerminalCommand
  write_input : Text → Text → AgentTerminalCommand
  resize_terminal : Text → TerminalSize → AgentTerminalCommand
  close_terminal : Text → AgentTerminalCommand

pub data AgentTerminalEvent : Type 0 where
  terminal_started : Text → TerminalSize → AgentTerminalEvent
  terminal_output : Text → Text → AgentTerminalEvent
  terminal_exited : Text → TerminalExit → AgentTerminalEvent
  terminal_error : Text → TerminalError → AgentTerminalEvent
