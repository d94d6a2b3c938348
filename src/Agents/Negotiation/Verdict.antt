-- ===== src/Agents/Negotiation/Verdict.antt =====
-- What a negotiation says, and that it registers nobody whom the node registry does not admit.
use sunbolt.Base.{◌≡◌, refl, true, any, Result, ok, err, Result-cases, inl, inr, arith, nat_eq}
use sunbolt.Protocol.{AgentTransportKind, protocol_version}
use sunbolt.Transport.{
  AgentTransportEnvelope, AgentTransportPayload, AgentTransportClientHello, client_hello,
  server_hello, heartbeat, terminal_command, terminal_event, transport_error, validate,
}
use sunbolt.Nodes.{NodeRegistry, NodeView, NodeConnectionError, Clocks, authenticate_transport}
use sunbolt.Nodes.Cases.{authenticate_transport-refused}
use sunbolt.Agents.Negotiation.{
  AgentTransportConnectionError, AgentTransportHandshake, agreed, kind_eq, validate_client_hello,
  authenticate_transport_client, negotiate_hello, negotiate_payload, negotiate_transport,
}

-- What the node registry answers to a client hello.
abbrev pub authentication :
    AgentTransportEnvelope
    → AgentTransportClientHello
    → Clocks
    → NodeRegistry
    → Result NodeConnectionError NodeView × NodeRegistry
authentication e hello t s =
    authenticate_transport e.node_id hello.credential_fingerprint hello.credential_proof
      hello.agent_version t s

-- All that a handshake rests on, for a client hello.
abbrev pub IsAgreedHello :
    AgentTransportEnvelope
    → AgentTransportClientHello
    → AgentTransportKind
    → Clocks
    → NodeRegistry
    → AgentTransportHandshake
    → Type 0
IsAgreedHello e hello kind t s h =
    (h ≡ agreed e kind)
    × (any (λ v. nat_eq v protocol_version) hello.supported_protocol_versions ≡ true)
    × (any (λ k. kind_eq k kind) hello.supported_transports ≡ true)
    × ((view : NodeView) × ((authentication e hello t s).0 ≡ ok view))

-- The same for an envelope, which must be valid and carry a client hello.
abbrev pub IsAgreed :
    AgentTransportEnvelope
    → AgentTransportKind
    → Clocks
    → NodeRegistry
    → AgentTransportHandshake
    → Type 0
IsAgreed e kind t s h =
    (validate e ≡ ok tt)
    × ((hello : AgentTransportClientHello) × (e.payload ≡ client_hello hello)
        × IsAgreedHello e hello kind t s h)

module _ (e : AgentTransportEnvelope) (kind : AgentTransportKind) (t : Clocks)
    (s : NodeRegistry) where
  negotiate_hello-ok :
      (hello : AgentTransportClientHello) (h : AgentTransportHandshake)
      → (negotiate_hello e hello kind t s).0 ≡ ok h
      → IsAgreedHello e hello kind t s h
  unfolding negotiate_hello validate_client_hello authenticate_transport_client
  negotiate_hello-ok hello h eq = elim (Result-cases (authentication e hello t s).0) [
    | inl (view, admitted) ↦ (
      ground (arith, admitted),
      ground (arith, admitted),
      ground (arith, admitted),
      (view, admitted),
    )
    | inr (x, refused) ↦ absurd (ground (arith, refused))
  ]

  negotiate_hello-err :
      (hello : AgentTransportClientHello) (x : AgentTransportConnectionError)
      → (negotiate_hello e hello kind t s).0 ≡ err x
      → (negotiate_hello e hello kind t s).1 ≡ s
  unfolding negotiate_hello validate_client_hello authenticate_transport_client
  negotiate_hello-err hello x eq = elim (Result-cases (authentication e hello t s).0) [
    | inl (view, admitted) ↦ ground (arith, admitted)
    | inr (y, refused) ↦
        let same =
          authenticate_transport-refused e.node_id hello.credential_fingerprint
            hello.credential_proof hello.agent_version t s y refused in
        ground (arith, refused, same)
  ]

  negotiate_payload-ok :
      (payload : AgentTransportPayload) (h : AgentTransportHandshake)
      → (negotiate_payload e payload kind t s).0 ≡ ok h
      → (hello : AgentTransportClientHello) × (payload ≡ client_hello hello)
        × IsAgreedHello e hello kind t s h
  unfolding negotiate_payload
  negotiate_payload-ok (client_hello hello) h eq = (hello, refl, negotiate_hello-ok hello h eq)
  negotiate_payload-ok (server_hello _) h eq = cc
  negotiate_payload-ok (heartbeat _) h eq = cc
  negotiate_payload-ok (terminal_command _) h eq = cc
  negotiate_payload-ok (terminal_event _ _) h eq = cc
  negotiate_payload-ok (transport_error _) h eq = cc

  negotiate_payload-err :
      (payload : AgentTransportPayload) (x : AgentTransportConnectionError)
      → (negotiate_payload e payload kind t s).0 ≡ err x
      → (negotiate_payload e payload kind t s).1 ≡ s
  unfolding negotiate_payload
  negotiate_payload-err (client_hello hello) x eq = negotiate_hello-err hello x eq
  negotiate_payload-err (server_hello _) x eq = refl
  negotiate_payload-err (heartbeat _) x eq = refl
  negotiate_payload-err (terminal_command _) x eq = refl
  negotiate_payload-err (terminal_event _ _) x eq = refl
  negotiate_payload-err (transport_error _) x eq = refl

  -- A handshake is agreed only for a valid envelope that carries a client hello which supports this
  -- protocol version and the kind of transport asked for, and whose credential the node registry
  -- admits for the envelope's node; it is then for that node, transport and kind. A negotiation that
  -- fails changes nothing in the node registry.
  pub negotiate_transport-IsAgreed :
      ((h : AgentTransportHandshake)
        → (negotiate_transport e kind t s).0 ≡ ok h
        → IsAgreed e kind t s h)
      × ((x : AgentTransportConnectionError)
          → (negotiate_transport e kind t s).0 ≡ err x
          → (negotiate_transport e kind t s).1 ≡ s)
  unfolding negotiate_transport
  negotiate_transport-IsAgreed = elim (Result-cases (validate e)) [
    | inl (_, valid) ↦ (
      λ h eq. (valid, negotiate_payload-ok e.payload h (ground (arith, valid))),
      λ x eq. ground (arith, valid, negotiate_payload-err e.payload x),
    )
    | inr (y, invalid) ↦ (λ h eq. absurd (ground (arith, invalid)), λ x eq. ground (arith, invalid))
  ]
