-- ===== src/Nodes.antt =====
-- crates/sunbolt-control/src/node.rs: enrolment of nodes by one-time tokens, their credentials,
-- heartbeats and revocation. `token_hash` is the standard library's unspecified `DefaultHasher`, and
-- `digest` is SHA-256; random tokens are arguments.
mod Records
mod Queries
pub mod Calls
pub mod Cases
pub mod Revocation
pub mod Enrolment
pub mod Credentials
pub mod Rotation
mod Tests
pub use Records.*
unfoldable pub use Queries.*
use sunbolt.Base.{
  ℕ, ◌+◌, ◌*◌, ◌/◌, ◌-◌, ◌%◌, ◌++◌, Option, none, some, List, [], ◌∷◌, Text, text, nat_keys, leb,
  if◌then◌else◌, Result, ok, err, update_first,
}
use sunbolt.Base.Dict.{lookup, insert, modify}
use sunbolt.Base.Numerals.{decimal, hex}
use sunbolt.Auth.{User}

-- `create_token`, for a random token.
pub create_token :
    (Text → ℕ) → Text → User → ℕ → Clocks → NodeRegistry → EnrollmentTokenResponse × NodeRegistry
create_token token_hash token user ttl t s = (
  record {
    token = token;
    expires_in_secs = ttl / second;
    enrollment_command =
        text "SUNBOLT_CONTROL_PLANE_URL=http://127.0.0.1:3000 SUNBOLT_AGENT_ENROLLMENT_TOKEN="
        ++ (token ++ text " cargo run -p sunbolt-agent");
  },
  record s {
    tokens_by_hash =
        insert (token_hash token)
          (record {
            id = s.next_token_id;
            created_by_user_id = user.id;
            expires_at = t.expiry_at + ttl;
            used_by_node_id = none;
          })
          s.tokens_by_hash;
    next_token_id = (s.next_token_id + 1) % u64_mod;
  },
)

abbrev pub node_name : ℕ → Text
node_name id = text "node-" ++ decimal id

abbrev pub new_node : AgentEnrollmentRequest → ℕ → NodeRecord
new_node request id = record {
  id = id;
  node_id = node_name id;
  display_name = request.node_name;
  hostname = request.hostname;
  os = request.os;
  architecture = request.architecture;
  agent_version = request.agent_version;
  status = enrolled;
}

module _ (digest : List ℕ → List ℕ) where
  -- `credential_fingerprint` and `credential_proof` of agent/mod.rs
  pub credential_fingerprint_of : Text → Text
  credential_fingerprint_of secret = text "sha256:" ++ hex (digest secret)

  pub credential_proof_of : Text → Text → Text
  credential_proof_of node_id secret =
      credential_fingerprint_of (text "sunbolt-agent-auth-v1" ++ (0 ∷ (node_id ++ (0 ∷ secret))))

  -- A credential made for a node from a random secret.
  pub new_credential : ℕ → Text → Text → Option Text → Clocks → NodeCredentialRecord
  new_credential id node_id secret rotated_from t = record {
    node_id = id;
    credential_fingerprint = credential_fingerprint_of secret;
    credential_proof = credential_proof_of node_id secret;
    created_at = t.created_at;
    created_at_unix_secs = unix_secs t.created_unix_secs;
    expires_at = t.expiry_at + node_credential_ttl_secs * second;
    expires_at_unix_secs = credential_expiration_unix_secs t.expiry_unix_secs;
    rotated_from_fingerprint = rotated_from;
  }

  -- The end of `enroll`, once its token is found good.
  pub enroll_node :
      (Text → ℕ)
      → AgentEnrollmentRequest
      → Text
      → Clocks
      → NodeRegistry
      → AgentEnrollmentResponse × NodeRegistry
  enroll_node token_hash request secret t s =
      let id = s.next_node_id in
      (
        record {
          node_id = node_name id;
          credential_fingerprint = credential_fingerprint_of secret;
          credential_secret = secret;
          credential_expires_at_unix_secs = credential_expiration_unix_secs t.expiry_unix_secs;
        },
        record s {
          tokens_by_hash =
              modify (token_hash request.token) (λ k. record k { used_by_node_id = some id })
                s.tokens_by_hash;
          nodes = s.nodes ++ new_node request id ∷ [];
          credentials = s.credentials ++ new_credential id (node_name id) secret none t ∷ [];
          heartbeats =
              s.heartbeats
              ++ record { node_id = id; status = enrolled; received_at = t.received_at } ∷ [];
          next_node_id = (id + 1) % u64_mod;
        },
      )

  pub enroll :
      (Text → ℕ)
      → AgentEnrollmentRequest
      → Text
      → Clocks
      → NodeRegistry
      → Result EnrollmentError AgentEnrollmentResponse × NodeRegistry
  enroll token_hash request secret t s = elim (lookup (token_hash request.token) s.tokens_by_hash) [
    | none ↦ (err invalid_token, s)
    | some token ↦
        if is_some token.used_by_node_id
        then (err token_used, s)
        else if leb token.expires_at t.checked_at
        then (err token_expired, s)
        else let (response, after) = enroll_node token_hash request secret t s in
          (ok response, after)
  ]

  -- What `rotate_credential` adds for a node that it finds.
  pub rotated : Text → Text → Clocks → NodeRegistry → NodeRecord → NodeCredentialRecord
  rotated node_id secret t s node =
      new_credential node.id node_id secret
        (elim (latest_credential_for_node s node.id) [
          | none ↦ none
          | some c ↦ some c.credential_fingerprint
        ])
        t

  pub rotate_credential :
      Text
      → Text
      → Clocks
      → NodeRegistry
      → Result NodeConnectionError NodeCredentialRotationResponse × NodeRegistry
  rotate_credential node_id secret t s = elim (find_node node_id s) [
    | none ↦ (err unknown_node, s)
    | some node ↦
        if is_revoked node.status
        then (err node_revoked, s)
        else let made = rotated node_id secret t s node in
          let after = record s { credentials = s.credentials ++ made ∷ [] } in
          (
            ok record {
              node = view_of after t.viewed_at node;
              credential = record {
                credential_fingerprint = made.credential_fingerprint;
                credential_secret = secret;
                credential_created_at_unix_secs = made.created_at_unix_secs;
                credential_expires_at_unix_secs = made.expires_at_unix_secs;
                previous_credential_fingerprint = made.rotated_from_fingerprint;
              };
            },
            after,
          )
  ]

-- What both do then: the first node of that identifier is written, and the heartbeat noted.
abbrev pub note_online :
    NodeRegistry → Text → (NodeRecord → NodeRecord) → NodeRecord → ℕ → NodeRegistry
note_online s node_id written node received_at = record s {
  nodes = update_first (has_id node_id) written s.nodes;
  heartbeats =
      s.heartbeats ++ record { node_id = node.id; status = online; received_at = received_at } ∷ [];
}

abbrev pub heard : AgentHeartbeatRequest → NodeRecord → NodeRecord
heard request node = record node {
  hostname = request.hostname;
  os = request.os;
  architecture = request.architecture;
  agent_version = request.agent_version;
  status = online;
}

pub heartbeat :
    AgentHeartbeatRequest
    → Clocks
    → NodeRegistry
    → Result NodeConnectionError NodeView × NodeRegistry
heartbeat request t s =
    elim (admit s request.node_id request.credential_proof request.credential_fingerprint
      t.checked_at) [
        | err e ↦ (err e, s)
        | ok node ↦ (
          ok (
              node_view (heard request node) (some t.shown_at)
                (credential_expiration_for_node s node.id) t.viewed_at),
          note_online s request.node_id (heard request) node t.received_at,
        )
      ]

abbrev pub with_version : Text → NodeRecord → NodeRecord
with_version agent_version node = record node { agent_version = agent_version; status = online }

pub authenticate_transport :
    Text
    → Text
    → Text
    → Text
    → Clocks
    → NodeRegistry
    → Result NodeConnectionError NodeView × NodeRegistry
authenticate_transport node_id fingerprint proof agent_version t s =
    elim (admit s node_id proof fingerprint t.checked_at) [
      | err e ↦ (err e, s)
      | ok node ↦ (
        ok (
            node_view (with_version agent_version node) (some t.shown_at)
              (credential_expiration_for_node s node.id) t.viewed_at),
        note_online s node_id (with_version agent_version) node t.received_at,
      )
    ]

abbrev pub revoke : NodeRecord → NodeRecord
revoke node = record node { status = revoked }

pub revoke_node : Text → Clocks → NodeRegistry → Result NodeConnectionError NodeView × NodeRegistry
revoke_node node_id t s = elim (find_node node_id s) [
  | none ↦ (err unknown_node, s)
  | some node ↦ (
    ok (view_of s t.viewed_at (revoke node)),
    record s { nodes = update_first (has_id node_id) revoke s.nodes },
  )
]
