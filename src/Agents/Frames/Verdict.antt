-- ===== src/Agents/Frames/Verdict.antt =====
-- Which frames put an event into the event channel.
use sunbolt.Base.{
  ℕ, ◌≡◌, ◌↔◌, refl, Bool, true, false, Option, some, text_eq_iff, ok, Result-cases, inl, inr,
  arith,
}
use sunbolt.Protocol.{AgentTerminalEvent}
use sunbolt.Transport.{
  AgentTransportEnvelope, AgentTransportPayload, client_hello, server_hello, heartbeat, ping, pong,
  terminal_command, terminal_event, transport_error, validate,
}
use sunbolt.Agents.Negotiation.{AgentTransportHandshake}
use sunbolt.Agents.Frames.{handle_payload, handle_agent_transport_envelope}

handle_payload-event :
    (taken : Bool) (id : ℕ) (payload : AgentTransportPayload) (event : AgentTerminalEvent)
    → ((handle_payload taken id payload).1 ≡ some event)
      ↔ ((taken ≡ true) × ((sequence : Option ℕ) × (payload ≡ terminal_event sequence event)))
unfolding handle_payload
handle_payload-event taken id (client_hello _) event = (λ h. cc, λ (_, (_, h)). cc)
handle_payload-event taken id (server_hello _) event = (λ h. cc, λ (_, (_, h)). cc)
handle_payload-event taken id (heartbeat (ping _)) event = (λ h. cc, λ (_, (_, h)). cc)
handle_payload-event taken id (heartbeat (pong _ _)) event = (λ h. cc, λ (_, (_, h)). cc)
handle_payload-event taken id (terminal_command _) event = (λ h. cc, λ (_, (_, h)). cc)
handle_payload-event true id (terminal_event sequence e) event =
    (λ h. (refl, (sequence, cc)), λ (_, (_, h)). cc)
handle_payload-event false id (terminal_event sequence e) event = (λ h. cc, λ (no_room, _). cc)
handle_payload-event taken id (transport_error _) event = (λ h. cc, λ (_, (_, h)). cc)

-- A frame puts an event into the event channel exactly if the envelope is valid, names the node and
-- the transport of the connection and carries that event, and the channel takes it.
pub handle_agent_transport_envelope-event :
    (h : AgentTransportHandshake) (e : AgentTransportEnvelope) (taken : Bool)
    (event : AgentTerminalEvent)
    → ((handle_agent_transport_envelope h e taken).1 ≡ some event) ↔ (
        (validate e ≡ ok tt)
        × (e.node_id ≡ h.node_id)
        × (e.transport_id ≡ h.transport_id)
        × (taken ≡ true)
        × ((sequence : Option ℕ) × (e.payload ≡ terminal_event sequence event)))
unfolding handle_agent_transport_envelope
handle_agent_transport_envelope-event h e taken event = elim (Result-cases (validate e)) [
  | inr (x, invalid) ↦
      (λ sent. absurd (ground (arith, invalid)), λ all. absurd (ground (arith, invalid, all.0)))
  | inl (_, valid) ↦
      let payload = handle_payload-event taken e.message_id e.payload event in
      (
        λ sent.
            let same : (e.node_id ≡ h.node_id)
                × (e.transport_id ≡ h.transport_id)
                × ((handle_payload taken e.message_id e.payload).1 ≡ some event) =
              ground (
                arith,
                valid,
                text_eq_iff e.node_id h.node_id,
                text_eq_iff e.transport_id h.transport_id,
              ) in
            let (node, transport, put) = same in
            let (room, carried) = payload.0 put in (valid, node, transport, room, carried),
        λ (_, node, transport, taken_it, carried).
            let put = payload.1 (taken_it, carried) in
            ground (
              arith,
              valid,
              put,
              text_eq_iff e.node_id h.node_id,
              text_eq_iff e.transport_id h.transport_id,
            ),
      )
]
