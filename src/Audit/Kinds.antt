-- ===== src/Audit/Kinds.antt =====
-- crates/sunbolt-audit/src/types.rs: the kinds of audit events and their stable names.
use sunbolt.Base.{Bool, true, false, Text, text}

pub data AuditEventKind : Type 0 where
  user_login_success user_login_failed user_logout : AuditEventKind
  user_mfa_challenge user_mfa_success : AuditEventKind
  terminal_opened terminal_detached terminal_reattached terminal_terminated : AuditEventKind
  terminal_closed terminal_failed : AuditEventKind
  agent_transport_negotiated agent_connected agent_disconnected : AuditEventKind
  agent_authentication_failed : AuditEventKind
  node_enrolled node_credential_rotated node_revoked : AuditEventKind
  route_selected route_failed : AuditEventKind

unfoldable pub as_str : AuditEventKind → Text
as_str user_login_success = text "user.login.success"
as_str user_login_failed = text "user.login.failed"
as_str user_logout = text "user.logout"
as_str user_mfa_challenge = text "user.mfa.challenge"
as_str user_mfa_success = text "user.mfa.success"
as_str terminal_opened = text "terminal.opened"
as_str terminal_detached = text "terminal.detached"
as_str terminal_reattached = text "terminal.reattached"
as_str terminal_terminated = text "terminal.terminated"
as_str terminal_closed = text "terminal.closed"
as_str terminal_failed = text "terminal.failed"
as_str agent_transport_negotiated = text "agent.transport.negotiated"
as_str agent_connected = text "agent.connected"
as_str agent_disconnected = text "agent.disconnected"
as_str agent_authentication_failed = text "agent.authentication.failed"
as_str node_enrolled = text "node.enrolled"
as_str node_credential_rotated = text "node.credential.rotated"
as_str node_revoked = text "node.revoked"
as_str route_selected = text "route.selected"
as_str route_failed = text "route.failed"

unfoldable pub is_access_history : AuditEventKind → Bool
is_access_history user_login_success = true
is_access_history user_login_failed = true
is_access_history user_logout = true
is_access_history user_mfa_challenge = true
is_access_history user_mfa_success = true
is_access_history terminal_opened = true
is_access_history terminal_detached = true
is_access_history terminal_reattached = true
is_access_history terminal_terminated = true
is_access_history terminal_closed = true
is_access_history terminal_failed = true
is_access_history _ = false

unfoldable pub is_operational : AuditEventKind → Bool
is_operational agent_connected = true
is_operational agent_disconnected = true
is_operational agent_transport_negotiated = true
is_operational route_selected = true
is_operational route_failed = true
is_operational _ = false
