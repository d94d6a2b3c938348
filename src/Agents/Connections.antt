-- ===== src/Agents/Connections.antt =====
-- A connection stays until it is itself replaced or disconnected.
use sunbolt.Base.{
  ℕ, ap, ◌∙◌, text_eq_sound, ◌≡◌, ◌≢◌, ◌⊎◌, inl, inr, none, some, List, [], ◌∷◌, Text, text_keys,
  text_eq, text_eq_iff, text_eq_refl, All, arith, Bool-cases,
}
use sunbolt.Base.Dict.{lookup, insert, lookup-insert, lookup-remove}
use sunbolt.Protocol.{AgentTransportKind}
use sunbolt.Agents.{
  AgentConnections, RegisteredAgentConnection, register_transport, ensure_long_poll_transport,
  disconnect, disconnect_transport, connection, long_poll_connection,
}

pub data ConnectionCall : Type 0 where
  registers : Text → Text → AgentTransportKind → ℕ → ConnectionCall
  polls : Text → Text → ℕ → ConnectionCall
  leaves : Text → Text → ConnectionCall
  drops : Text → ConnectionCall

unfoldable pub step : ConnectionCall → AgentConnections → AgentConnections
step (registers node_id transport_id kind channels) r =
    (register_transport node_id transport_id kind channels r).1
step (polls node_id transport_id channels) r =
    (ensure_long_poll_transport node_id transport_id channels r).2
step (leaves node_id transport_id) r = (disconnect_transport node_id transport_id r).1
step (drops node_id) r = disconnect node_id r

-- Calls in the order of their arrival.
unfoldable pub run : List ConnectionCall → AgentConnections → AgentConnections
run [] r = r
run (c ∷ calls) r = run calls (step c r)

-- A call for another node, or the leave of another transport.
abbrev pub SparesTransport : Text → Text → ConnectionCall → Type 0
SparesTransport node_id transport_id (registers n _ _ _) = n ≢ node_id
SparesTransport node_id transport_id (polls n _ _) = n ≢ node_id
SparesTransport node_id transport_id (leaves n t) = (n ≢ node_id) ⊎ (t ≢ transport_id)
SparesTransport node_id transport_id (drops n) = n ≢ node_id

step-connection :
    (node_id : Text) (c : RegisteredAgentConnection) (call : ConnectionCall) (r : AgentConnections)
    → SparesTransport node_id c.transport_id call
    → lookup node_id r ≡ some c
    → lookup node_id (step call r) ≡ some c
unfolding step register_transport ensure_long_poll_transport disconnect disconnect_transport
step-connection node_id c (registers n t kind channels) r other h = ground (
  arith,
  lookup-insert n node_id
      (record {
        channels = channels;
        transport_id = t;
        transport_kind = kind;
        degraded_reason = none;
        next_message_id = none;
      })
      r,
  text_eq_iff n node_id,
)
step-connection node_id c (polls n t channels) r other h =
    ground
      (arith, lookup-insert n node_id (long_poll_connection t channels) r, text_eq_iff n node_id)
step-connection node_id c (leaves n t) r (inl other) h =
    ground (arith, lookup-remove n node_id r, text_eq_iff n node_id)
step-connection node_id c (leaves n t) r (inr other) h = elim (Bool-cases (text_eq n node_id)) [
  | inl same ↦
      let e = text_eq_sound n node_id same in
      let there : lookup n r ≡ some c = ap (λ m. lookup m r) e ∙ h in
      ground (arith, text_eq_iff c.transport_id t)
  | inr apart ↦ ground (arith, lookup-remove n node_id r)
]
step-connection node_id c (drops n) r other h =
    ground (arith, lookup-remove n node_id r, text_eq_iff n node_id)

run-connection :
    (node_id : Text) (c : RegisteredAgentConnection) (calls : List ConnectionCall)
    (r : AgentConnections)
    → All (SparesTransport node_id c.transport_id) calls
    → lookup node_id r ≡ some c
    → lookup node_id (run calls r) ≡ some c
unfolding run
run-connection node_id c [] r _ h = h
run-connection node_id c (call ∷ calls) r (spares, rest) h =
    run-connection node_id c calls (step call r) rest (step-connection node_id c call r spares h)

-- A transport that registered for a node is the node's connection after any calls that register or
-- drop no connection of this node and do not disconnect this very transport: the late end of a
-- transport that it replaced does not take it away.
pub connection-register_transport :
    (node_id transport_id : Text) (kind : AgentTransportKind) (channels : ℕ) (r : AgentConnections)
    (calls : List ConnectionCall)
    → All (SparesTransport node_id transport_id) calls
    → connection node_id (run calls (register_transport node_id transport_id kind channels r).1)
      ≡ some (record {
        channels = channels;
        transport_id = transport_id;
        transport_kind = kind;
        degraded_reason = none;
        next_message_id = none;
      })
unfolding connection register_transport
connection-register_transport node_id transport_id kind channels r calls spares =
    let c : RegisteredAgentConnection = record {
      channels = channels;
      transport_id = transport_id;
      transport_kind = kind;
      degraded_reason = none;
      next_message_id = none;
    } in
    run-connection node_id c calls (insert node_id c r) spares
      (ground (arith, lookup-insert node_id node_id c r, text_eq_refl node_id))
