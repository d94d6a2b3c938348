-- ===== src/Transport/Envelope.antt =====
-- Which envelopes `AgentTransportEnvelope::validate` accepts, and what it says of the others.
use sunbolt.Base.{
  ℕ, ◌≡◌, ◌≢◌, inl, inr, refl, Bool, Bool-cases, true, false, Option, none, some, Result, ok, err,
  arith, nat_eq,
}
use sunbolt.Protocol.{
  AgentTerminalEvent, terminal_output, terminal_started, terminal_exited, terminal_error,
  protocol_version,
}
use sunbolt.Transport.{
  AgentTransportEnvelope, AgentTransportPayload, AgentTransportProtocolError, terminal_event,
  client_hello, server_hello, heartbeat, terminal_command, transport_error,
  unsupported_protocol_version, missing_message_id, missing_output_sequence,
  unexpected_output_sequence, validate, validate_payload, is_valid,
}

-- An event that carries terminal output.
abbrev pub is_output : AgentTerminalEvent → Bool
is_output (terminal_output _ _) = true
is_output _ = false

abbrev pub has_sequence : Option ℕ → Bool
has_sequence none = false
has_sequence (some _) = true

-- Output and nothing else has a sequence number.
abbrev pub SequenceFits : AgentTransportPayload → Type 0
SequenceFits (terminal_event sequence event) = has_sequence sequence ≡ is_output event
SequenceFits _ = Unit

-- The payload alone breaks the rule, in the way that the error says.
abbrev pub SequenceFault : AgentTransportPayload → AgentTransportProtocolError → Type 0
SequenceFault (terminal_event sequence event) missing_output_sequence =
    (has_sequence sequence ≡ false) × (is_output event ≡ true)
SequenceFault (terminal_event sequence event) unexpected_output_sequence =
    (has_sequence sequence ≡ true) × (is_output event ≡ false)
SequenceFault _ _ = ⊥

-- The verdict that an envelope deserves: the version is looked at first, then the message identifier,
-- then the payload.
abbrev pub Deserves :
    AgentTransportEnvelope → Result AgentTransportProtocolError (Unit {0}) → Type 0
Deserves e (ok _) =
    (e.protocol_version ≡ protocol_version) × (e.message_id ≢ 0) × SequenceFits e.payload
Deserves e (err (unsupported_protocol_version received supported)) =
    (e.protocol_version ≢ protocol_version)
    × (received ≡ e.protocol_version)
    × (supported ≡ protocol_version)
Deserves e (err missing_message_id) = (e.protocol_version ≡ protocol_version) × (e.message_id ≡ 0)
Deserves e (err x) =
    (e.protocol_version ≡ protocol_version) × (e.message_id ≢ 0) × SequenceFault e.payload x

payload_verdict :
    (e : AgentTransportEnvelope) (payload : AgentTransportPayload)
    → e.protocol_version ≡ protocol_version
    → e.message_id ≢ 0
    → Deserves (record e { payload = payload }) (validate_payload payload)
unfolding validate_payload
payload_verdict e (client_hello _) v m = (v, m, tt)
payload_verdict e (server_hello _) v m = (v, m, tt)
payload_verdict e (heartbeat _) v m = (v, m, tt)
payload_verdict e (terminal_command _) v m = (v, m, tt)
payload_verdict e (terminal_event none (terminal_output _ _)) v m = (v, m, (refl, refl))
payload_verdict e (terminal_event (some _) (terminal_output _ _)) v m = (v, m, refl)
payload_verdict e (terminal_event none (terminal_started _ _)) v m = (v, m, refl)
payload_verdict e (terminal_event (some _) (terminal_started _ _)) v m = (v, m, (refl, refl))
payload_verdict e (terminal_event none (terminal_exited _ _)) v m = (v, m, refl)
payload_verdict e (terminal_event (some _) (terminal_exited _ _)) v m = (v, m, (refl, refl))
payload_verdict e (terminal_event none (terminal_error _ _)) v m = (v, m, refl)
payload_verdict e (terminal_event (some _) (terminal_error _ _)) v m = (v, m, (refl, refl))
payload_verdict e (transport_error _) v m = (v, m, tt)

-- For any envelope `validate` gives the verdict that it deserves: `Ok` exactly for the supported
-- version, a message identifier that is not 0 and a sequence number on terminal output and on
-- nothing else; otherwise the error for the first of these that fails.
pub validate-Deserves : (e : AgentTransportEnvelope) → Deserves e (validate e)
unfolding validate is_valid
validate-Deserves e = elim (Bool-cases (nat_eq e.protocol_version protocol_version)) [
  | inr other ↦ simp other (ground arith, refl, refl)
  | inl same ↦ elim (Bool-cases (nat_eq e.message_id 0)) [
    | inl zero_id ↦ simp (same, zero_id) (ground arith, ground arith)
    | inr good ↦ simp (same, good) (payload_verdict e e.payload (ground arith) (ground arith))
  ]
]
