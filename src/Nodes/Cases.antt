-- ===== src/Nodes/Cases.antt =====
-- The states that a method can leave behind, for a predicate on them.
use sunbolt.Base.{
  ℕ, ◌<◌, ap, sym, ◌∙◌, ◌≡◌, List, Text, ok, err, some, ◌++◌, ◌∷◌, [], arith, Option-cases,
  Result-cases, inl, inr,
}
use sunbolt.Base.{nat_keys}
use sunbolt.Nodes.{
  NodeConnectionError, NodeRegistry, NodeRecord, NodeCredentialRecord, Clocks,
  AgentEnrollmentRequest, AgentHeartbeatRequest, admit, authenticated_credential, find_node,
  note_online, heard, with_version, revoke, has_id, heartbeat, authenticate_transport, revoke_node,
  rotate_credential, rotated, enroll, enroll_node,
}
use sunbolt.Base.{update_first}

-- Whoever is admitted is the first node of the identifier.
pub admit-found :
    (s : NodeRegistry) (k proof fingerprint : Text) (now : ℕ) (node : NodeRecord)
    → admit s k proof fingerprint now ≡ ok node
    → find_node k s ≡ some node
unfolding admit
admit-found s k proof fingerprint now node h = elim (Option-cases (find_node k s)) [
  | inl missing ↦ absurd (ground arith)
  | inr (other, found) ↦
      elim (Option-cases (authenticated_credential s other.id proof fingerprint)) [
        | inl no_credential ↦ absurd (ground arith)
        | inr (c, presented) ↦ ground arith
      ]
]

-- What is presented for it is a credential that has not expired.
pub admit-presented :
    (s : NodeRegistry) (k proof fingerprint : Text) (now : ℕ) (node : NodeRecord)
    → admit s k proof fingerprint now ≡ ok node
    → (c : NodeCredentialRecord) × (authenticated_credential s node.id proof fingerprint ≡ some c)
      × (now < c.expires_at)
unfolding admit
admit-presented s k proof fingerprint now node h = elim (Option-cases (find_node k s)) [
  | inl missing ↦ absurd (ground arith)
  | inr (other, found) ↦
      elim (Option-cases (authenticated_credential s other.id proof fingerprint)) [
        | inl no_credential ↦ absurd (ground arith)
        | inr (c, presented) ↦
            let same : other ≡ node = ground arith in
            (
              c,
              ap (λ n. authenticated_credential s n.id proof fingerprint) (sym same) ∙ presented,
              ground arith,
            )
      ]
]

module _ (P : NodeRegistry → Type 0) (s : NodeRegistry) (h : P s) where
  pub heartbeat_cases :
      (request : AgentHeartbeatRequest) (t : Clocks)
      → ((node : NodeRecord)
          → find_node request.node_id s ≡ some node
          → P (note_online s request.node_id (heard request) node t.received_at))
      → P (heartbeat request t s).1
  unfolding heartbeat
  heartbeat_cases request t written =
      elim (Result-cases (
        admit s request.node_id request.credential_proof request.credential_fingerprint
          t.checked_at)) [
            | inl (node, admitted) ↦
                let kept = written node (
                  admit-found s request.node_id request.credential_proof
                    request.credential_fingerprint t.checked_at node admitted) in
                ground (arith, kept)
            | inr (e, refused) ↦ ground arith
          ]

  pub authenticate_cases :
      (k fingerprint proof version : Text) (t : Clocks)
      → ((node : NodeRecord)
          → find_node k s ≡ some node
          → P (note_online s k (with_version version) node t.received_at))
      → P (authenticate_transport k fingerprint proof version t s).1
  unfolding authenticate_transport
  authenticate_cases k fingerprint proof version t written =
      elim (Result-cases (admit s k proof fingerprint t.checked_at)) [
        | inl (node, admitted) ↦
            let kept =
              written node (admit-found s k proof fingerprint t.checked_at node admitted) in
            ground (arith, kept)
        | inr (e, refused) ↦ ground arith
      ]

  pub revoke_cases :
      (k : Text) (t : Clocks)
      → P (record s { nodes = update_first (has_id k) revoke s.nodes })
      → P (revoke_node k t s).1
  unfolding revoke_node
  revoke_cases k t written = ground arith

  pub rotate_cases :
      (digest : List ℕ → List ℕ) (k secret : Text) (t : Clocks)
      → ((node : NodeRecord)
          → find_node k s ≡ some node
          → P (record s { credentials = s.credentials ++ rotated digest k secret t s node ∷ [] }))
      → P (rotate_credential digest k secret t s).1
  unfolding rotate_credential
  rotate_cases digest k secret t written = elim (Option-cases (find_node k s)) [
    | inl missing ↦ ground arith
    | inr (node, found) ↦ let kept = written node found in ground arith
  ]

  pub enroll_cases :
      (digest : List ℕ → List ℕ) (token_hash : Text → ℕ) (request : AgentEnrollmentRequest)
      (secret : Text) (t : Clocks)
      → P (enroll_node digest token_hash request secret t s).1
      → P (enroll digest token_hash request secret t s).1
  unfolding enroll
  enroll_cases digest token_hash request secret t written = ground arith

-- A transport that is refused changes nothing.
pub authenticate_transport-refused :
    (k fingerprint proof version : Text) (t : Clocks) (s : NodeRegistry) (e : NodeConnectionError)
    → (authenticate_transport k fingerprint proof version t s).0 ≡ err e
    → (authenticate_transport k fingerprint proof version t s).1 ≡ s
unfolding authenticate_transport
authenticate_transport-refused k fingerprint proof version t s e h =
    elim (Result-cases (admit s k proof fingerprint t.checked_at)) [
      | inl (node, admitted) ↦ absurd (ground arith)
      | inr (x, refused) ↦ ground arith
    ]
