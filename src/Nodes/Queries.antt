-- ===== src/Nodes/Queries.antt =====
-- What crates/sunbolt-control/src/node.rs reads off its state: heartbeats, credentials, views, and who
-- is admitted.
use sunbolt.Base.{
  ℕ, ◌+◌, ◌-◌, ◌^◌, min, max, Bool, true, false, not, ◌||◌, ◌&&◌, Option, none, some, List, [], ◌∷◌,
  Text, nat_keys, text_eq, leb, nat_eq, if◌then◌else◌, Result, ok, err, find, filter, map,
}
use sunbolt.Nodes.Records.{
  NodeStatus, online, offline, revoked, NodeRecord, NodeCredentialRecord, NodeView,
  NodeConnectionError, unknown_node, invalid_credential, credential_expired, node_revoked,
  NodeRegistry, node_offline_after, node_credential_ttl_secs,
}

abbrev pub i64_max : ℕ
i64_max = 9223372036854775807

abbrev pub u64_mod : ℕ
u64_mod = 2 ^ 64

unfoldable pub is_revoked : NodeStatus → Bool
is_revoked revoked = true
is_revoked _ = false

-- `max` over an iterator.
abbrev pub maximum : List ℕ → Option ℕ
maximum [] = none
maximum (x ∷ xs) = elim (maximum xs) [ none ↦ some x | some y ↦ some (max x y) ]

unfoldable pub latest_heartbeat_at : NodeRegistry → ℕ → Option ℕ
latest_heartbeat_at s node_id = maximum (
    map (λ h. h.received_at)
      (filter (λ h. nat_eq h.node_id node_id && not (is_revoked h.status)) s.heartbeats))

abbrev pub is_presented : ℕ → Text → Text → NodeCredentialRecord → Bool
is_presented node_id proof fingerprint c =
    nat_eq c.node_id node_id
    && (text_eq c.credential_fingerprint fingerprint && text_eq c.credential_proof proof)

unfoldable pub authenticated_credential :
    NodeRegistry → ℕ → Text → Text → Option NodeCredentialRecord
authenticated_credential s node_id proof fingerprint =
    find (is_presented node_id proof fingerprint) s.credentials

unfoldable pub credential_expiration_for_node : NodeRegistry → ℕ → Option ℕ
credential_expiration_for_node s node_id =
    maximum
      (map (λ c. c.expires_at_unix_secs) (filter (λ c. nat_eq c.node_id node_id) s.credentials))

abbrev pub is_some : {A : Type 0} → Option A → Bool
is_some none = false
is_some (some _) = true

-- The order of the keys of `latest_credential_for_node`: at most as late.
abbrev pub is_not_later : NodeCredentialRecord → NodeCredentialRecord → Bool
is_not_later a b =
    if not (nat_eq a.created_at b.created_at)
    then leb a.created_at b.created_at
    else if not (nat_eq a.created_at_unix_secs b.created_at_unix_secs)
    then leb a.created_at_unix_secs b.created_at_unix_secs
    else not (is_some a.rotated_from_fingerprint) || is_some b.rotated_from_fingerprint

-- `max_by_key`, which takes the last one of those with the greatest key.
unfoldable pub latest_of :
    Option NodeCredentialRecord → List NodeCredentialRecord → Option NodeCredentialRecord
latest_of best [] = best
latest_of none (c ∷ cs) = latest_of (some c) cs
latest_of (some b) (c ∷ cs) = latest_of (some (if is_not_later b c then c else b)) cs

unfoldable pub latest_credential_for_node : NodeRegistry → ℕ → Option NodeCredentialRecord
latest_credential_for_node s node_id =
    latest_of none (filter (λ c. nat_eq c.node_id node_id) s.credentials)

unfoldable pub unix_secs : ℕ → ℕ
unix_secs now = min now i64_max

unfoldable pub credential_expiration_unix_secs : ℕ → ℕ
credential_expiration_unix_secs now = min (now + node_credential_ttl_secs) i64_max

-- The status that a view shows at `now`.
unfoldable pub shown_status : NodeStatus → Option ℕ → ℕ → NodeStatus
shown_status online (some received_at) now =
    if leb node_offline_after (now - received_at) then offline else online
shown_status status _ now = status

unfoldable pub node_view : NodeRecord → Option ℕ → Option ℕ → ℕ → NodeView
node_view node last_heartbeat_at credential_expires_at now = record {
  node_id = node.node_id;
  display_name = node.display_name;
  hostname = node.hostname;
  os = node.os;
  architecture = node.architecture;
  agent_version = node.agent_version;
  status = shown_status node.status last_heartbeat_at now;
  credential_expires_at_unix_secs = credential_expires_at;
}

abbrev pub has_id : Text → NodeRecord → Bool
has_id node_id node = text_eq node.node_id node_id

unfoldable pub find_node : Text → NodeRegistry → Option NodeRecord
find_node node_id s = find (has_id node_id) s.nodes

-- The view that `list_nodes`, `node_details`, `revoke_node` and `rotate_credential` make.
abbrev pub view_of : NodeRegistry → ℕ → NodeRecord → NodeView
view_of s now node =
    node_view node (latest_heartbeat_at s node.id) (credential_expiration_for_node s node.id) now

unfoldable pub list_nodes : NodeRegistry → ℕ → List NodeView
list_nodes s now = map (view_of s now) s.nodes

unfoldable pub node_details : NodeRegistry → Text → ℕ → Option NodeView
node_details s node_id now = elim (find_node node_id s) [
  | none ↦ none
  | some node ↦ some (view_of s now node)
]

unfoldable pub node_is_online : NodeRegistry → Text → ℕ → Bool
node_is_online s node_id now = elim (node_details s node_id now) [
  | none ↦ false
  | some v ↦ elim v.status [ online ↦ true | _ ↦ false ]
]

-- `authenticate_transport` and `heartbeat` admit the presented credential of a node.
unfoldable pub admit : NodeRegistry → Text → Text → Text → ℕ → Result NodeConnectionError NodeRecord
admit s node_id proof fingerprint now = elim (find_node node_id s) [
  | none ↦ err unknown_node
  | some node ↦
      if is_revoked node.status
      then err node_revoked
      else elim (authenticated_credential s node.id proof fingerprint) [
        | none ↦ err invalid_credential
        | some c ↦ if leb c.expires_at now then err credential_expired else ok node
      ]
]
