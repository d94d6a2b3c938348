-- ===== src/Transport/Quic.antt =====
-- crates/sunbolt-protocol/src/transport.rs: the kinds of transport and the plan of the QUIC fast path.
use sunbolt.Base.{Bool, true, false, List, [], ◌∷◌}
use sunbolt.Protocol.{
  AgentTransportKind, web_socket_tls_tcp443, http2_tls_tcp443, quic_udp443, long_poll_https,
}

pub is_tcp443_baseline : AgentTransportKind → Bool
is_tcp443_baseline web_socket_tls_tcp443 = true
is_tcp443_baseline http2_tls_tcp443 = true
is_tcp443_baseline _ = false

pub is_udp443_fast_path : AgentTransportKind → Bool
is_udp443_fast_path quic_udp443 = true
is_udp443_fast_path _ = false

pub is_restrictive_network_fallback : AgentTransportKind → Bool
is_restrictive_network_fallback long_poll_https = true
is_restrictive_network_fallback _ = false

pub data AgentQuicStreamKind : Type 0 where
  control terminal_input output_stream terminal_resize lifecycle_stream : AgentQuicStreamKind

pub record AgentQuicStreamMapping : Type 0 where
  pub kind : AgentQuicStreamKind
  pub bidirectional : Bool
  pub ordered : Bool
  pub carries_terminal_output_sequence : Bool

-- `QUIC_FALLBACK_ORDER`
abbrev pub quic_fallback_order : List AgentTransportKind
quic_fallback_order = web_socket_tls_tcp443 ∷ http2_tls_tcp443 ∷ long_poll_https ∷ []

abbrev pub stream : AgentQuicStreamKind → Bool → Bool → AgentQuicStreamMapping
stream kind bidirectional carries = record {
  kind = kind;
  bidirectional = bidirectional;
  ordered = true;
  carries_terminal_output_sequence = carries;
}

-- `QUIC_STREAM_MAPPING`
abbrev pub quic_stream_mapping : List AgentQuicStreamMapping
quic_stream_mapping =
    stream control true false
    ∷ stream terminal_input false false
    ∷ stream output_stream false true
    ∷ stream terminal_resize false false
    ∷ stream lifecycle_stream true false
    ∷ []
