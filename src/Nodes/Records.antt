-- ===== src/Nodes/Records.antt =====
-- The records of crates/sunbolt-control/src/node.rs, with the requests of agent/mod.rs and the errors
-- of error.rs that belong to them. Instants and durations are nanoseconds; Unix times are seconds.
use sunbolt.Base.{ℕ, ◌*◌, Option, List, Text}
use sunbolt.Base.Dict.{Dict}

pub data NodeStatus : Type 0 where
  enrolled online offline revoked : NodeStatus

pub record EnrollmentTokenRecord : Type 0 where
  pub id : ℕ
  pub created_by_user_id : ℕ
  pub expires_at : ℕ
  pub used_by_node_id : Option ℕ

pub record NodeRecord : Type 0 where
  pub id : ℕ
  pub node_id : Text
  pub display_name : Text
  pub hostname : Text
  pub os : Text
  pub architecture : Text
  pub agent_version : Text
  pub status : NodeStatus

pub record NodeCredentialRecord : Type 0 where
  pub node_id : ℕ
  pub credential_fingerprint : Text
  pub credential_proof : Text
  pub created_at : ℕ
  pub created_at_unix_secs : ℕ
  pub expires_at : ℕ
  pub expires_at_unix_secs : ℕ
  pub rotated_from_fingerprint : Option Text

pub record NodeHeartbeatRecord : Type 0 where
  pub node_id : ℕ
  pub status : NodeStatus
  pub received_at : ℕ

pub record NodeView : Type 0 where
  pub node_id : Text
  pub display_name : Text
  pub hostname : Text
  pub os : Text
  pub architecture : Text
  pub agent_version : Text
  pub status : NodeStatus
  pub credential_expires_at_unix_secs : Option ℕ

pub record RotatedNodeCredential : Type 0 where
  pub credential_fingerprint : Text
  pub credential_secret : Text
  pub credential_created_at_unix_secs : ℕ
  pub credential_expires_at_unix_secs : ℕ
  pub previous_credential_fingerprint : Option Text

pub record NodeCredentialRotationResponse : Type 0 where
  pub node : NodeView
  pub credential : RotatedNodeCredential

pub record EnrollmentTokenResponse : Type 0 where
  pub token : Text
  pub expires_in_secs : ℕ
  pub enrollment_command : Text

pub record AgentEnrollmentRequest : Type 0 where
  pub token : Text
  pub node_name : Text
  pub hostname : Text
  pub os : Text
  pub architecture : Text
  pub agent_version : Text

pub record AgentEnrollmentResponse : Type 0 where
  pub node_id : Text
  pub credential_fingerprint : Text
  pub credential_secret : Text
  pub credential_expires_at_unix_secs : ℕ

pub record AgentHeartbeatRequest : Type 0 where
  pub node_id : Text
  pub credential_fingerprint : Text
  pub credential_proof : Text
  pub hostname : Text
  pub os : Text
  pub architecture : Text
  pub agent_version : Text

pub data EnrollmentError : Type 0 where
  invalid_token token_used token_expired : EnrollmentError

pub data NodeConnectionError : Type 0 where
  unknown_node invalid_credential credential_expired node_revoked : NodeConnectionError

-- `NodeEnrollmentRegistry`: the state under its lock, and its two counters.
pub record NodeRegistry : Type 0 where
  pub tokens_by_hash : Dict ℕ EnrollmentTokenRecord
  pub nodes : List NodeRecord
  pub credentials : List NodeCredentialRecord
  pub heartbeats : List NodeHeartbeatRecord
  pub next_token_id : ℕ
  pub next_node_id : ℕ

abbrev pub second : ℕ
second = 1000000000

-- `NODE_OFFLINE_AFTER`
abbrev pub node_offline_after : ℕ
node_offline_after = 90 * second

-- `NODE_CREDENTIAL_TTL`, in seconds
abbrev pub node_credential_ttl_secs : ℕ
node_credential_ttl_secs = 90 * 24 * 60 * 60

-- The clocks that one call reads, in the order in which it reads them: the test of an expiry, the
-- Unix times of creation and expiry, the instants of expiry, creation and heartbeat, and the two
-- that a view is made with.
pub record Clocks : Type 0 where
  pub checked_at : ℕ
  pub created_unix_secs : ℕ
  pub expiry_unix_secs : ℕ
  pub expiry_at : ℕ
  pub created_at : ℕ
  pub received_at : ℕ
  pub shown_at : ℕ
  pub viewed_at : ℕ
