-- ===== src/Agents.antt =====
-- crates/sunbolt-control/src/agent/mod.rs: the table of connected agents; the children model the
-- negotiation of a transport, the frames of an agent and the answers to a long poll. The channels are tokio's: a
-- connection names its own by a number, and what a channel yields or refuses is an argument.
pub mod Connections
pub mod Negotiation
pub mod Frames
pub mod LongPoll
mod Tests
use sunbolt.Base.{
  ℕ, Bool, true, false, not, ◌&&◌, Option, none, some, List, Text, text, text_keys, text_eq,
  if◌then◌else◌,
}
use sunbolt.Base.Dict.{Dict, lookup, insert, remove, contains, keys}
use sunbolt.Protocol.{AgentTransportKind, long_poll_https, TerminalTransportStatus}
use sunbolt.Transport.Quic.{is_restrictive_network_fallback}

-- A connection; its pair of channels is a number, and a long-poll connection has its own message
-- counter.
pub record RegisteredAgentConnection : Type 0 where
  pub channels : ℕ
  pub transport_id : Text
  pub transport_kind : AgentTransportKind
  pub degraded_reason : Option Text
  pub next_message_id : Option ℕ

-- `LONG_POLL_DEGRADED_REASON`
abbrev pub long_poll_degraded_reason : Text
long_poll_degraded_reason =
    text "restrictive network fallback active; terminal latency may be higher"

pub terminal_transport_status : RegisteredAgentConnection → TerminalTransportStatus
terminal_transport_status c = record {
  kind = c.transport_kind;
  degraded = is_restrictive_network_fallback c.transport_kind;
  message = c.degraded_reason;
}

-- `AgentConnectionRegistry`
abbrev pub AgentConnections : Type 0
AgentConnections = Dict Text RegisteredAgentConnection

pub data AgentConnectionRegistration : Type 0 where
  existing registered replaced_existing : AgentConnectionRegistration

abbrev pub registration : Text → AgentConnections → AgentConnectionRegistration
registration node_id r = if contains node_id r then replaced_existing else registered

pub register_transport :
    Text
    → Text
    → AgentTransportKind
    → ℕ
    → AgentConnections
    → AgentConnectionRegistration × AgentConnections
register_transport node_id transport_id kind channels r = (
  registration node_id r,
  insert node_id
      (record {
        channels = channels;
        transport_id = transport_id;
        transport_kind = kind;
        degraded_reason = none;
        next_message_id = none;
      })
      r,
)

pub is_long_poll : AgentTransportKind → Bool
is_long_poll long_poll_https = true
is_long_poll _ = false

abbrev pub long_poll_connection : Text → ℕ → RegisteredAgentConnection
long_poll_connection transport_id channels = record {
  channels = channels;
  transport_id = transport_id;
  transport_kind = long_poll_https;
  degraded_reason = some long_poll_degraded_reason;
  next_message_id = some 2;
}

-- A connection of that transport, by long poll.
abbrev pub is_same_long_poll : Text → RegisteredAgentConnection → Bool
is_same_long_poll transport_id c =
    text_eq c.transport_id transport_id && is_long_poll c.transport_kind

abbrev pub replace_long_poll :
    Text
    → Text
    → ℕ
    → AgentConnections
    → AgentConnectionRegistration × RegisteredAgentConnection × AgentConnections
replace_long_poll node_id transport_id channels r = (
  registration node_id r,
  long_poll_connection transport_id channels,
  insert node_id (long_poll_connection transport_id channels) r,
)

-- `channels` are the channels made if they are needed.
pub ensure_long_poll_transport :
    Text
    → Text
    → ℕ
    → AgentConnections
    → AgentConnectionRegistration × RegisteredAgentConnection × AgentConnections
ensure_long_poll_transport node_id transport_id channels r = elim (lookup node_id r) [
  | none ↦ replace_long_poll node_id transport_id channels r
  | some c ↦
      if is_same_long_poll transport_id c
      then (existing, c, r)
      else replace_long_poll node_id transport_id channels r
]

pub connection : Text → AgentConnections → Option RegisteredAgentConnection
connection node_id r = lookup node_id r

pub disconnect : Text → AgentConnections → AgentConnections
disconnect node_id r = remove node_id r

pub disconnect_transport : Text → Text → AgentConnections → Bool × AgentConnections
disconnect_transport node_id transport_id r = elim (lookup node_id r) [
  | none ↦ (false, r)
  | some c ↦ if text_eq c.transport_id transport_id then (true, remove node_id r) else (false, r)
]

pub connected_node_ids_except : Text → AgentConnections → List Text
connected_node_ids_except node_id r =
    sunbolt.Base.filter (λ candidate. not (text_eq candidate node_id)) (keys (λ _. true) r)
