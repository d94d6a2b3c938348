-- ===== src/Agents/Tests.antt =====
-- The agent of an enrolled node connects, sends a frame and polls.
use sunbolt.Base.{
  ℕ, Bool, Option, ◌+◌, text_eq_iff, ◌≡◌, ◌↔◌, inr, true, false, none, some, List, [], ◌∷◌, text,
  ok, err, max, length,
}
use sunbolt.Protocol.{
  web_socket_tls_tcp443, long_poll_https, AgentTerminalCommand, AgentTerminalEvent, close_terminal,
  terminal_output,
}
use sunbolt.Transport.{
  AgentTransportEnvelope, AgentTransportClientHello, client_hello, heartbeat, ping, terminal_event,
  current, validate,
}
use sunbolt.Nodes.{Clocks}
use sunbolt.Nodes.Credentials.{new_registry}
use sunbolt.Agents.{AgentConnections, connection, register_transport}
use sunbolt.Agents.Connections.{registers, leaves, run, connection-register_transport}
use sunbolt.Agents.Negotiation.{
  AgentTransportHandshake, AgentTransportConnectionError, negotiate_transport,
}
use sunbolt.Agents.Negotiation.Verdict.{IsAgreed, negotiate_transport-IsAgreed}
use sunbolt.Agents.Frames.{handle_agent_transport_envelope}
use sunbolt.Agents.Frames.Verdict.{handle_agent_transport_envelope-event}
use sunbolt.Agents.LongPoll.{answer_long_poll}
use sunbolt.Agents.LongPoll.Numbering.{Delivers, answer_long_poll-Delivers}

abbrev at : Clocks
at = record {
  checked_at = 5;
  created_unix_secs = 100;
  expiry_unix_secs = 100;
  expiry_at = 5;
  created_at = 5;
  received_at = 6;
  shown_at = 6;
  viewed_at = 7;
}

abbrev hello : AgentTransportClientHello
hello = record {
  supported_protocol_versions = 1 ∷ [];
  supported_transports = web_socket_tls_tcp443 ∷ [];
  preferred_transport = web_socket_tls_tcp443;
  agent_version = text "1";
  credential_fingerprint = text "f";
  credential_proof = text "p";
  resume = none;
}

abbrev first : AgentTransportEnvelope
first = current 1 (text "node-1") (text "b") (client_hello hello)

negotiate_transport-IsAgreed_example :
    ((h : AgentTransportHandshake)
      → (negotiate_transport first web_socket_tls_tcp443 at new_registry).0 ≡ ok h
      → IsAgreed first web_socket_tls_tcp443 at new_registry h)
    × ((x : AgentTransportConnectionError)
        → (negotiate_transport first web_socket_tls_tcp443 at new_registry).0 ≡ err x
        → (negotiate_transport first web_socket_tls_tcp443 at new_registry).1 ≡ new_registry)
negotiate_transport-IsAgreed_example =
    negotiate_transport-IsAgreed first web_socket_tls_tcp443 at new_registry

different : {A : Type 0} → (false ≡ true) ↔ A → A → ⊥
different e h = let no_way = e.1 h in cc

-- The transport `a` is replaced by `b`, and ends late.
abbrev old : AgentConnections
old = (register_transport (text "node-1") (text "a") web_socket_tls_tcp443 0 []).1

connection-register_transport_example :
    connection (text "node-1") (
      run
        (leaves (text "node-1") (text "a")
          ∷ registers (text "node-2") (text "c") long_poll_https 2
          ∷ [])
        (register_transport (text "node-1") (text "b") web_socket_tls_tcp443 1 old).1)
    ≡ some (record {
      channels = 1;
      transport_id = text "b";
      transport_kind = web_socket_tls_tcp443;
      degraded_reason = none;
      next_message_id = none;
    })
connection-register_transport_example =
    connection-register_transport (text "node-1") (text "b") web_socket_tls_tcp443 1 old
      (leaves (text "node-1") (text "a")
        ∷ registers (text "node-2") (text "c") long_poll_https 2
        ∷ [])
      (
        inr (λ h. different (text_eq_iff (text "a") (text "b")) h),
        ((λ h. different (text_eq_iff (text "node-2") (text "node-1")) h), tt),
      )

abbrev handshake : AgentTransportHandshake
handshake = record {
  node_id = text "node-1";
  transport_id = text "b";
  selected_transport = web_socket_tls_tcp443;
}

abbrev event : AgentTerminalEvent
event = terminal_output (text "s") (text "data")

abbrev frame : AgentTransportEnvelope
frame = current 2 (text "node-1") (text "b") (terminal_event (some 0) event)

handle_agent_transport_envelope-event_example :
    ((handle_agent_transport_envelope handshake frame true).1 ≡ some event) ↔ (
      (validate frame ≡ ok tt)
      × (frame.node_id ≡ handshake.node_id)
      × (frame.transport_id ≡ handshake.transport_id)
      × (true ≡ true)
      × ((sequence : Option ℕ) × (frame.payload ≡ terminal_event sequence event)))
handle_agent_transport_envelope-event_example =
    handle_agent_transport_envelope-event handshake frame true event

abbrev beat : AgentTransportEnvelope
beat = current 3 (text "node-1") (text "b") (heartbeat (ping 0))

abbrev commands : List AgentTerminalCommand
commands = close_terminal (text "s") ∷ close_terminal (text "u") ∷ []

abbrev events : List (AgentTransportEnvelope × Bool)
events = (beat, true) ∷ (frame, true) ∷ []

answer_long_poll-Delivers_example :
    Delivers 2 commands (max 32 (length events + 1)) (answer_long_poll handshake events commands 2)
answer_long_poll-Delivers_example = answer_long_poll-Delivers handshake events commands 2
