-- ===== src/Agents/LongPoll.antt =====
-- crates/sunbolt-control/src/agent/mod.rs: the answer to one long poll. The commands that the command
-- channel yields while the call runs are an argument, in their order.
pub mod Numbering
use sunbolt.Base.{
  ℕ, ◌++◌, Bool, Option, none, some, List, [], ◌∷◌, length, ltb, nat_eq, if◌then◌else◌, Result, ok,
  err,
}
use sunbolt.Protocol.{AgentTerminalCommand, AgentTerminalEvent}
use sunbolt.Transport.{
  AgentTransportEnvelope, AgentTransportPayload, AgentTransportError, server_hello, heartbeat, pong,
  terminal_command, transport_error, current, next,
}
use sunbolt.Agents.Negotiation.{AgentTransportHandshake, hello_to}
use sunbolt.Agents.Frames.{
  TransportFrameOutcome, heartbeat_received, handle_agent_transport_envelope,
}

-- The envelopes of the answer so far, the connection's counter, and the events that went into the
-- event channel.
pub record Poll : Type 0 where
  pub envelopes : List AgentTransportEnvelope
  pub next_message_id : ℕ
  pub sent : List AgentTerminalEvent

-- `AGENT_TRANSPORT_LONG_POLL_BATCH`
abbrev pub long_poll_batch : ℕ
long_poll_batch = 32

-- One more envelope, under the number of `next_long_poll_message_id`.
abbrev pub emit : AgentTransportHandshake → AgentTransportPayload → Poll → Poll
emit h payload p = record p {
  envelopes = p.envelopes ++ current p.next_message_id h.node_id h.transport_id payload ∷ [];
  next_message_id = next p.next_message_id;
}

-- What one frame adds to the answer.
pub answer_frame :
    AgentTransportHandshake → Result AgentTransportError TransportFrameOutcome → Poll → Poll
answer_frame h (ok (heartbeat_received ping_message_id)) p =
    emit h (heartbeat (pong ping_message_id 0)) p
answer_frame h (ok _) p = p
answer_frame h (err error) p = emit h (transport_error error) p

abbrev pub sent_with : Option AgentTerminalEvent → Poll → Poll
sent_with none p = p
sent_with (some event) p = record p { sent = p.sent ++ event ∷ [] }

-- The loop over the request's events, each with whether the channel takes an event then.
pub answer_events : AgentTransportHandshake → List (AgentTransportEnvelope × Bool) → Poll → Poll
answer_events h [] p = p
answer_events h ((e, taken) ∷ events) p =
    let (outcome, event) = handle_agent_transport_envelope h e taken in
    answer_events h events (answer_frame h outcome (sent_with event p))

-- The loop of `append_long_poll_commands`, with the commands that are left.
pub take_commands :
    AgentTransportHandshake → List AgentTerminalCommand → Poll → Poll × List AgentTerminalCommand
take_commands h [] p = (p, [])
take_commands h (c ∷ commands) p =
    let more = take_commands h commands (emit h (terminal_command c) p) in
    if ltb (length p.envelopes) long_poll_batch then more else (p, c ∷ commands)

-- The first command is waited for if nothing but the hello is to be said.
pub wait_command :
    AgentTransportHandshake → List AgentTerminalCommand → Poll → Poll × List AgentTerminalCommand
wait_command h [] p = (p, [])
wait_command h (c ∷ commands) p =
    if nat_eq (length p.envelopes) 1
    then (emit h (terminal_command c) p, commands)
    else (p, c ∷ commands)

pub append_long_poll_commands :
    AgentTransportHandshake → List AgentTerminalCommand → Poll → Poll × List AgentTerminalCommand
append_long_poll_commands h commands p =
    let (waited, rest) = wait_command h commands p in take_commands h rest waited

-- `handle_agent_transport_long_poll_request` once its transport is negotiated and its connection is
-- there, with that connection's counter.
pub answer_long_poll :
    AgentTransportHandshake
    → List (AgentTransportEnvelope × Bool)
    → List AgentTerminalCommand
    → ℕ
    → Poll × List AgentTerminalCommand
answer_long_poll h events commands next_message_id =
    let opened =
      emit h (server_hello (hello_to h))
        (record { envelopes = []; next_message_id = next_message_id; sent = [] }) in
    append_long_poll_commands h commands (answer_events h events opened)
