-- ===== src/Transport.antt =====
-- crates/sunbolt-protocol/src/transport.rs: what agent and control plane exchange on one connection,
-- its validation and the reconnect policy. Identifiers are their bytes or their number.
use sunbolt.Base.{
  ℕ, zero, suc, ◌+◌, ◌*◌, min, max, Bool, true, false, Option, none, some, List, Text, nat_eq, leb,
  not, if◌then◌else◌, Result, ok, err,
}
use sunbolt.Protocol.{
  AgentTransportKind, AgentTerminalCommand, AgentTerminalEvent, terminal_output, protocol_version,
}
pub mod Quic
pub mod Envelope
pub mod Backoff
pub mod Stream
mod Tests

-- `u64::MAX`
abbrev pub u64_max : ℕ
u64_max = 18446744073709551615

-- `AgentTransportMessageId::new`
pub new_message_id : ℕ → Option ℕ
new_message_id value = if nat_eq value 0 then none else some value

unfoldable pub is_valid : ℕ → Bool
is_valid id = not (nat_eq id 0)

-- `next` of a message identifier and of an output sequence: `saturating_add(1)`
unfoldable pub next : ℕ → ℕ
next n = min (n + 1) u64_max

pub data AgentTransportLifecycleState : Type 0 where
  created connecting negotiating authenticating : AgentTransportLifecycleState
  connected degraded reconnecting draining : AgentTransportLifecycleState
  disconnected failed closed : AgentTransportLifecycleState

pub can_route_terminal_streams : AgentTransportLifecycleState → Bool
can_route_terminal_streams connected = true
can_route_terminal_streams degraded = true
can_route_terminal_streams _ = false

pub can_reconnect : AgentTransportLifecycleState → Bool
can_reconnect disconnected = true
can_reconnect failed = true
can_reconnect reconnecting = true
can_reconnect _ = false

pub record AgentTransportReconnectPolicy : Type 0 where
  pub initial_backoff_ms : ℕ
  pub max_backoff_ms : ℕ
  pub multiplier : ℕ
  pub jitter_percent : ℕ
  pub max_attempts : Option ℕ
  pub resume_window_ms : ℕ

abbrev pub production_default : AgentTransportReconnectPolicy
production_default = record {
  initial_backoff_ms = 1000;
  max_backoff_ms = 30000;
  multiplier = 2;
  jitter_percent = 20;
  max_attempts = none;
  resume_window_ms = 120000;
}

-- The loop of `delay_for_attempt`, with what is left of `0..attempt`.
pub delay_from : AgentTransportReconnectPolicy → ℕ → ℕ → ℕ
delay_from p zero delay = min delay p.max_backoff_ms
delay_from p (suc left) delay =
    let longer = min (delay * max p.multiplier 1) u64_max in
    let rest = delay_from p left longer in
    if leb p.max_backoff_ms longer then p.max_backoff_ms else rest

pub delay_for_attempt : AgentTransportReconnectPolicy → ℕ → ℕ
delay_for_attempt p attempt = delay_from p attempt (max p.initial_backoff_ms 1)

pub record TerminalStreamResumeCursor : Type 0 where
  pub session_id : Text
  pub last_output_sequence : ℕ

pub record AgentTransportResumeRequest : Type 0 where
  pub previous_transport_id : Text
  pub last_received_message_id : ℕ
  pub terminal_sequences : List TerminalStreamResumeCursor

pub data AgentTransportResumeDecision : Type 0 where
  not_requested accepted : AgentTransportResumeDecision
  rejected : Text → AgentTransportResumeDecision

pub record AgentTransportClientHello : Type 0 where
  pub supported_protocol_versions : List ℕ
  pub supported_transports : List AgentTransportKind
  pub preferred_transport : AgentTransportKind
  pub agent_version : Text
  pub credential_fingerprint : Text
  pub credential_proof : Text
  pub resume : Option AgentTransportResumeRequest

pub record AgentTransportServerHello : Type 0 where
  pub accepted_protocol_version : ℕ
  pub selected_transport : AgentTransportKind
  pub heartbeat_interval_ms : ℕ
  pub liveness_timeout_ms : ℕ
  pub max_in_flight_messages : ℕ
  pub reconnect_policy : AgentTransportReconnectPolicy
  pub resume : AgentTransportResumeDecision

pub data AgentTransportHeartbeat : Type 0 where
  ping : ℕ → AgentTransportHeartbeat
  pong : ℕ → ℕ → AgentTransportHeartbeat

pub data AgentTransportErrorCode : Type 0 where
  unsupported_version unsupported_transport authentication_failed : AgentTransportErrorCode
  node_revoked duplicate_connection heartbeat_timeout : AgentTransportErrorCode
  backpressure_limit_exceeded no_message_id no_output_sequence : AgentTransportErrorCode
  stray_output_sequence wrong_sequence_order malformed_message : AgentTransportErrorCode
  internal_error : AgentTransportErrorCode

pub record AgentTransportError : Type 0 where
  pub code : AgentTransportErrorCode
  pub message : Text

pub data AgentTransportPayload : Type 0 where
  client_hello : AgentTransportClientHello → AgentTransportPayload
  server_hello : AgentTransportServerHello → AgentTransportPayload
  heartbeat : AgentTransportHeartbeat → AgentTransportPayload
  terminal_command : AgentTerminalCommand → AgentTransportPayload
  terminal_event : Option ℕ → AgentTerminalEvent → AgentTransportPayload
  transport_error : AgentTransportError → AgentTransportPayload

pub record AgentTransportEnvelope : Type 0 where
  pub protocol_version : ℕ
  pub message_id : ℕ
  pub node_id : Text
  pub transport_id : Text
  pub payload : AgentTransportPayload

-- `AgentTransportEnvelope::current`
unfoldable pub current : ℕ → Text → Text → AgentTransportPayload → AgentTransportEnvelope
current message_id node_id transport_id payload = record {
  protocol_version = protocol_version;
  message_id = message_id;
  node_id = node_id;
  transport_id = transport_id;
  payload = payload;
}

pub data AgentTransportProtocolError : Type 0 where
  unsupported_protocol_version : ℕ → ℕ → AgentTransportProtocolError
  missing_message_id missing_output_sequence : AgentTransportProtocolError
  unexpected_output_sequence : AgentTransportProtocolError
  invalid_sequence_order : ℕ → ℕ → AgentTransportProtocolError

-- The match of `validate` on the payload.
unfoldable pub validate_payload :
    AgentTransportPayload → Result AgentTransportProtocolError (Unit {0})
validate_payload (terminal_event none (terminal_output _ _)) = err missing_output_sequence
validate_payload (terminal_event (some _) (terminal_output _ _)) = ok tt
validate_payload (terminal_event (some _) _) = err unexpected_output_sequence
validate_payload _ = ok tt

unfoldable pub validate : AgentTransportEnvelope → Result AgentTransportProtocolError (Unit {0})
validate e =
    if not (nat_eq e.protocol_version protocol_version)
    then err (unsupported_protocol_version e.protocol_version protocol_version)
    else if not (is_valid e.message_id)
    then err missing_message_id
    else validate_payload e.payload

-- `validate_next_terminal_output_sequence`
pub validate_next : ℕ → ℕ → Result AgentTransportProtocolError (Unit {0})
validate_next previous received =
    if nat_eq received (next previous)
    then ok tt
    else err (invalid_sequence_order previous received)
