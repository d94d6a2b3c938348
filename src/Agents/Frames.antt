-- ===== src/Agents/Frames.antt =====
-- crates/sunbolt-control/src/agent/mod.rs: one frame of a connected agent, and what the agent is told
-- when its negotiation or a frame fails.
pub mod Verdict
use sunbolt.Base.{
  ℕ, ◌++◌, Bool, true, false, not, ◌||◌, Option, none, some, Text, text, text_eq, if◌then◌else◌,
  Result, ok, err,
}
use sunbolt.Base.Numerals.{decimal}
use sunbolt.Audit.{AuditEventInput}
use sunbolt.Audit.Kinds.{agent_authentication_failed}
use sunbolt.RateLimit.{SlidingWindowRateLimiter, check_and_record}
use sunbolt.Protocol.{AgentTerminalEvent}
use sunbolt.Transport.{
  AgentTransportEnvelope, AgentTransportPayload, AgentTransportError, AgentTransportErrorCode,
  AgentTransportProtocolError, heartbeat, ping, terminal_event, unsupported_protocol_version,
  missing_message_id, missing_output_sequence, unexpected_output_sequence, invalid_sequence_order,
  malformed_message, backpressure_limit_exceeded, unsupported_version, unsupported_transport,
  authentication_failed, node_revoked, validate,
}
use sunbolt.Agents.Negotiation.{
  AgentTransportHandshake, AgentTransportConnectionError, unsupported_protocol,
  unsupported_transport_kind, authentication_failure, revoked_agent,
}

pub data TransportFrameOutcome : Type 0 where
  heartbeat_received : ℕ → TransportFrameOutcome
  terminal_event_received ignored : TransportFrameOutcome

-- `transport_error`
abbrev pub error_with : AgentTransportErrorCode → Text → AgentTransportError
error_with code message = record { code = code; message = message }

-- `Display` of `AgentTransportProtocolError`
pub describe : AgentTransportProtocolError → Text
describe (unsupported_protocol_version received supported) =
    text "unsupported protocol version "
    ++ (decimal received ++ (text "; supported version is " ++ decimal supported))
describe missing_message_id = text "transport message id must be non-zero"
describe missing_output_sequence = text "terminal output events must include a sequence number"
describe unexpected_output_sequence =
    text "terminal sequence numbers are only valid for terminal output events"
describe (invalid_sequence_order previous received) =
    text "terminal output sequence "
    ++ (decimal received ++ (text " did not follow " ++ decimal previous))

-- What a frame does: the answer, and the event that goes into the event channel. `taken` says whether
-- the channel takes one.
pub handle_payload :
    Bool
    → ℕ
    → AgentTransportPayload
    → Result AgentTransportError TransportFrameOutcome × Option AgentTerminalEvent
handle_payload taken message_id (heartbeat (ping _)) = (ok (heartbeat_received message_id), none)
handle_payload taken message_id (terminal_event _ event) =
    if taken then (ok terminal_event_received, some event) else (
      err (error_with backpressure_limit_exceeded (text "terminal event channel is full")),
      none,
    )
handle_payload taken message_id _ = (ok ignored, none)

pub handle_agent_transport_envelope :
    AgentTransportHandshake
    → AgentTransportEnvelope
    → Bool
    → Result AgentTransportError TransportFrameOutcome × Option AgentTerminalEvent
handle_agent_transport_envelope h e taken = elim (validate e) [
  | err x ↦
      (err (error_with malformed_message (text "invalid transport envelope: " ++ describe x)), none)
  | ok _ ↦
      if not (text_eq e.node_id h.node_id) || not (text_eq e.transport_id h.transport_id)
      then (
        err (
            error_with malformed_message
              (text "transport envelope identity does not match connection")),
        none,
      )
      else handle_payload taken e.message_id e.payload
]

pub transport_error_for_connection : AgentTransportConnectionError → AgentTransportError
transport_error_for_connection unsupported_protocol =
    error_with unsupported_version (text "agent transport protocol version is not supported")
transport_error_for_connection unsupported_transport_kind =
    error_with unsupported_transport
      (text "agent transport does not support the required transport")
transport_error_for_connection authentication_failure =
    error_with authentication_failed (text "agent transport authentication failed")
transport_error_for_connection revoked_agent =
    error_with node_revoked (text "agent node is revoked")
transport_error_for_connection _ =
    error_with malformed_message (text "first agent transport frame must be a valid client hello")

pub transport_error_for_auth_rate_limit : AgentTransportConnectionError → Bool → AgentTransportError
transport_error_for_auth_rate_limit e rate_limited =
    if rate_limited
    then error_with authentication_failed (text "too many agent transport authentication failures")
    else transport_error_for_connection e

pub failure_reason : AgentTransportConnectionError → Text
failure_reason authentication_failure = text "invalid node identity"
failure_reason revoked_agent = text "node revoked"
failure_reason _ = text "not an authentication failure"

pub is_authentication_error : AgentTransportConnectionError → Bool
is_authentication_error authentication_failure = true
is_authentication_error revoked_agent = true
is_authentication_error _ = false

-- The audit event of a failed authentication.
abbrev pub failure_event : Bool → Text → Text → AgentTransportConnectionError → AuditEventInput
failure_event allowed node_id transport_id e = record {
  kind = agent_authentication_failed;
  actor_email = none;
  message =
      if allowed
      then text "agent transport authentication failed for node "
        ++ (node_id ++ (text " on transport " ++ (transport_id ++ (text ": " ++ failure_reason e))))
      else text "agent transport authentication rate limit exceeded for node "
        ++ (node_id ++ (text " on transport " ++ transport_id));
}

-- `record_agent_transport_authentication_failure`: whether the node is now rate limited, the limiter,
-- and what is recorded in the audit log.
pub record_auth_failure :
    Text
    → Text
    → AgentTransportConnectionError
    → ℕ
    → SlidingWindowRateLimiter
    → Bool × Option AuditEventInput × SlidingWindowRateLimiter
record_auth_failure node_id transport_id e now limiter =
    if not (is_authentication_error e)
    then (false, none, limiter)
    else let (allowed, after) = check_and_record node_id now limiter in
      (not allowed, some (failure_event allowed node_id transport_id e), after)
