-- ===== src/Agents/Negotiation.antt =====
-- crates/sunbolt-control/src/agent/mod.rs: which client hello makes a connection.
pub mod Verdict
use sunbolt.Base.{
  Bool, true, false, not, Text, text_keys, nat_eq, any, if◌then◌else◌, Result, ok, err,
}
use sunbolt.Protocol.{
  AgentTransportKind, web_socket_tls_tcp443, http2_tls_tcp443, quic_udp443, long_poll_https,
  protocol_version,
}
use sunbolt.Transport.{
  AgentTransportEnvelope, AgentTransportPayload, AgentTransportClientHello,
  AgentTransportServerHello, client_hello, production_default, not_requested, validate,
}
use sunbolt.Nodes.{
  NodeRegistry, NodeView, Clocks, NodeConnectionError, node_revoked, authenticate_transport,
}

pub data AgentTransportConnectionError : Type 0 where
  missing_client_hello invalid_envelope unsupported_protocol : AgentTransportConnectionError
  unsupported_transport_kind authentication_failure revoked_agent : AgentTransportConnectionError

pub record AgentTransportHandshake : Type 0 where
  pub node_id : Text
  pub transport_id : Text
  pub selected_transport : AgentTransportKind

-- `AgentTransportHandshake::server_hello`
pub hello_to : AgentTransportHandshake → AgentTransportServerHello
hello_to h = record {
  accepted_protocol_version = protocol_version;
  selected_transport = h.selected_transport;
  heartbeat_interval_ms = 30000;
  liveness_timeout_ms = 90000;
  max_in_flight_messages = 128;
  reconnect_policy = production_default;
  resume = not_requested;
}

-- Rust's `==` on kinds of transport.
pub kind_eq : AgentTransportKind → AgentTransportKind → Bool
kind_eq web_socket_tls_tcp443 web_socket_tls_tcp443 = true
kind_eq http2_tls_tcp443 http2_tls_tcp443 = true
kind_eq quic_udp443 quic_udp443 = true
kind_eq long_poll_https long_poll_https = true
kind_eq _ _ = false

-- `validate_client_hello_for_transport`
pub validate_client_hello :
    AgentTransportClientHello → AgentTransportKind → Result AgentTransportConnectionError (Unit {0})
validate_client_hello hello required =
    if not (any (λ v. nat_eq v protocol_version) hello.supported_protocol_versions)
    then err unsupported_protocol
    else if not (any (λ k. kind_eq k required) hello.supported_transports)
    then err unsupported_transport_kind
    else ok tt

pub connection_error : NodeConnectionError → AgentTransportConnectionError
connection_error node_revoked = revoked_agent
connection_error _ = authentication_failure

-- `authenticate_transport_client`, on the node registry of the application's state.
pub authenticate_transport_client :
    Text
    → AgentTransportClientHello
    → Clocks
    → NodeRegistry
    → Result AgentTransportConnectionError NodeView × NodeRegistry
authenticate_transport_client node_id hello t s =
    let (answer, after) =
      authenticate_transport node_id hello.credential_fingerprint hello.credential_proof
        hello.agent_version t s in
    (elim answer [ ok view ↦ ok view | err e ↦ err (connection_error e) ], after)

abbrev pub agreed : AgentTransportEnvelope → AgentTransportKind → AgentTransportHandshake
agreed e kind = record {
  node_id = e.node_id;
  transport_id = e.transport_id;
  selected_transport = kind;
}

-- The part of the negotiation that has a client hello.
pub negotiate_hello :
    AgentTransportEnvelope
    → AgentTransportClientHello
    → AgentTransportKind
    → Clocks
    → NodeRegistry
    → Result AgentTransportConnectionError AgentTransportHandshake × NodeRegistry
negotiate_hello e hello kind t s = elim (validate_client_hello hello kind) [
  | err x ↦ (err x, s)
  | ok _ ↦
      let (answer, after) = authenticate_transport_client e.node_id hello t s in
      (elim answer [ ok _ ↦ ok (agreed e kind) | err x ↦ err x ], after)
]

-- The first payload must be a client hello.
pub negotiate_payload :
    AgentTransportEnvelope
    → AgentTransportPayload
    → AgentTransportKind
    → Clocks
    → NodeRegistry
    → Result AgentTransportConnectionError AgentTransportHandshake × NodeRegistry
negotiate_payload e (client_hello hello) kind t s = negotiate_hello e hello kind t s
negotiate_payload e _ kind t s = (err missing_client_hello, s)

-- `negotiate_transport_for_kind`
pub negotiate_transport :
    AgentTransportEnvelope
    → AgentTransportKind
    → Clocks
    → NodeRegistry
    → Result AgentTransportConnectionError AgentTransportHandshake × NodeRegistry
negotiate_transport e kind t s = elim (validate e) [
  | err _ ↦ (err invalid_envelope, s)
  | ok _ ↦ negotiate_payload e e.payload kind t s
]
