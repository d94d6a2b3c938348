-- ===== src/Nodes/Revocation.antt =====
-- A revoked node stays revoked, and its credentials open nothing.
use mathlib.Core.Option
use sunbolt.Base.{
  subst, text_eq_sound, ℕ, ◌≡◌, refl, ap, sym, ◌∙◌, ◌++◌, Bool, true, false, none, some, List, [],
  ◌∷◌, Text, text_eq, text_eq_iff, text_eq_refl, ok, err, find, find-append, find-update_first,
  find-update_other, update_first, arith, if◌then◌else◌, Option-cases, Result-cases, Bool-cases,
  inl, inr,
}
use sunbolt.Nodes.{
  NodeRegistry, NodeRecord, Clocks, AgentHeartbeatRequest, NodeStatus, NodeView, node_revoked,
  revoked, online, offline, enrolled, node_is_online, find_node, has_id, is_revoked, admit,
  note_online, heard, heartbeat, with_version, authenticate_transport, revoke, revoke_node,
  rotate_credential, node_details, node_view, shown_status, create_token, authenticated_credential,
  enroll, new_node, enroll_node,
}
use sunbolt.Nodes.Calls.{
  NodeCall, creates, enrolls, beats, authenticates, revokes, rotates, step, run,
}

-- The node of that identifier is there and revoked.
pub is_revoked_at : Text → NodeRegistry → Bool
is_revoked_at node_id s = elim (find_node node_id s) [
  | none ↦ false
  | some node ↦ is_revoked node.status
]

-- Nothing but the first node of an identifier changes when that node is written.
find_node-written :
    (j k : Text) (f : NodeRecord → NodeRecord) (nodes : List NodeRecord)
    → ((x : NodeRecord) → (f x).node_id ≡ x.node_id)
    → find (has_id k) (update_first (has_id j) f nodes)
      ≡ (if text_eq j k then Option.map f (find (has_id k) nodes) else find (has_id k) nodes)
find_node-written j k f nodes keep = elim (Bool-cases (text_eq j k)) [
  | inl same ↦ simp same (
      subst
        (λ i.
          find (has_id k) (update_first (has_id i) f nodes) ≡ Option.map f (find (has_id k) nodes))
        (sym (text_eq_sound j k same))
        (find-update_first (has_id k) f nodes (λ x. ap (λ n. text_eq n k) (keep x))))
  | inr other ↦ simp other (
      find-update_other (has_id k) (has_id j) f nodes (λ x. ap (λ n. text_eq n k) (keep x))
        (λ x h. ground (arith, text_eq_iff x.node_id j, text_eq_iff x.node_id k)))
]

-- A write at another identifier, or one to a node that is not revoked, leaves it so.
is_revoked_at-written :
    (j k : Text) (f : NodeRecord → NodeRecord) (s : NodeRegistry) (node : NodeRecord) (now : ℕ)
    → ((x : NodeRecord) → (f x).node_id ≡ x.node_id)
    → find_node j s ≡ some node
    → is_revoked node.status ≡ false
    → is_revoked_at k s ≡ true
    → is_revoked_at k (note_online s j f node now) ≡ true
unfolding is_revoked_at find_node
is_revoked_at-written j k f s node now keep found live h =
    ground (arith, find_node-written j k f s.nodes keep, text_eq_iff j k)

admit-live :
    (s : NodeRegistry) (node_id proof fingerprint : Text) (now : ℕ) (node : NodeRecord)
    → admit s node_id proof fingerprint now ≡ ok node
    → (find_node node_id s ≡ some node) × (is_revoked node.status ≡ false)
unfolding admit
admit-live s node_id proof fingerprint now node h = elim (Option-cases (find_node node_id s)) [
  | inl missing ↦ absurd (ground arith)
  | inr (other, found) ↦
      elim (Option-cases (authenticated_credential s other.id proof fingerprint)) [
        | inl no_credential ↦ absurd (ground arith)
        | inr (c, presented) ↦ ground arith
      ]
]

-- An appended node leaves it so.
is_revoked_at-added :
    (k : Text) (s : NodeRegistry) (added : NodeRecord)
    → is_revoked_at k s ≡ true
    → is_revoked_at k (record s { nodes = s.nodes ++ added ∷ [] }) ≡ true
unfolding is_revoked_at find_node
is_revoked_at-added k s added h = ground (arith, find-append (has_id k) s.nodes (added ∷ []))

heartbeat-is_revoked_at :
    (k : Text) (request : AgentHeartbeatRequest) (t : Clocks) (s : NodeRegistry)
    → is_revoked_at k s ≡ true
    → is_revoked_at k (heartbeat request t s).1 ≡ true
unfolding heartbeat
heartbeat-is_revoked_at k request t s h =
    elim (Result-cases (
      admit s request.node_id request.credential_proof request.credential_fingerprint
        t.checked_at)) [
          | inl (node, admitted) ↦
              let (found, live) =
                admit-live s request.node_id request.credential_proof request.credential_fingerprint
                  t.checked_at node admitted in
              ground (
                arith,
                is_revoked_at-written request.node_id k (heard request) s node t.received_at
                    (λ x. refl) found live h,
              )
          | inr (e, refused) ↦ ground arith
        ]

authenticate_transport-is_revoked_at :
    (k node_id fingerprint proof version : Text) (t : Clocks) (s : NodeRegistry)
    → is_revoked_at k s ≡ true
    → is_revoked_at k (authenticate_transport node_id fingerprint proof version t s).1 ≡ true
unfolding authenticate_transport
authenticate_transport-is_revoked_at k node_id fingerprint proof version t s h =
    elim (Result-cases (admit s node_id proof fingerprint t.checked_at)) [
      | inl (node, admitted) ↦
          let (found, live) = admit-live s node_id proof fingerprint t.checked_at node admitted in
          ground (
            arith,
            is_revoked_at-written node_id k (with_version version) s node t.received_at (λ x. refl)
                found live h,
          )
      | inr (e, refused) ↦ ground arith
    ]

revoke_node-is_revoked_at :
    (k node_id : Text) (t : Clocks) (s : NodeRegistry)
    → is_revoked_at k s ≡ true
    → is_revoked_at k (revoke_node node_id t s).1 ≡ true
unfolding revoke_node is_revoked_at is_revoked find_node
revoke_node-is_revoked_at k node_id t s h =
    ground (arith, find_node-written node_id k revoke s.nodes (λ x. refl))

module _ (token_hash : Text → ℕ) (digest : List ℕ → List ℕ) where
  step-is_revoked_at :
      (k : Text) (c : NodeCall) (s : NodeRegistry)
      → is_revoked_at k s ≡ true
      → is_revoked_at k (step token_hash digest c s) ≡ true
  unfolding step create_token enroll enroll_node rotate_credential is_revoked_at find_node
  step-is_revoked_at k (creates token user ttl t) s h = h
  step-is_revoked_at k (enrolls request secret t) s h =
      ground (arith, is_revoked_at-added k s (new_node request s.next_node_id) h)
  step-is_revoked_at k (beats request t) s h = heartbeat-is_revoked_at k request t s h
  step-is_revoked_at k (authenticates node_id fingerprint proof version t) s h =
      authenticate_transport-is_revoked_at k node_id fingerprint proof version t s h
  step-is_revoked_at k (revokes node_id t) s h = revoke_node-is_revoked_at k node_id t s h
  step-is_revoked_at k (rotates node_id secret t) s h = ground arith

  run-is_revoked_at :
      (k : Text) (calls : List NodeCall) (s : NodeRegistry)
      → is_revoked_at k s ≡ true
      → is_revoked_at k (run token_hash digest calls s) ≡ true
  unfolding run
  run-is_revoked_at k [] s h = h
  run-is_revoked_at k (c ∷ calls) s h =
      run-is_revoked_at k calls (step token_hash digest c s) (step-is_revoked_at k c s h)

-- Nobody is admitted as a revoked node.
admit-revoked :
    (k proof fingerprint : Text) (now : ℕ) (s : NodeRegistry)
    → is_revoked_at k s ≡ true
    → admit s k proof fingerprint now ≡ err node_revoked
unfolding admit is_revoked_at
admit-revoked k proof fingerprint now s h = ground arith

admit_request-revoked :
    (k : Text) (request : AgentHeartbeatRequest) (now : ℕ) (s : NodeRegistry)
    → request.node_id ≡ k
    → is_revoked_at k s ≡ true
    → admit s request.node_id request.credential_proof request.credential_fingerprint now
      ≡ err node_revoked
admit_request-revoked k request now s same h =
    ap (λ n. admit s n request.credential_proof request.credential_fingerprint now) same
    ∙ admit-revoked k request.credential_proof request.credential_fingerprint now s h

is_revoked-revoked : (status : NodeStatus) → is_revoked status ≡ true → status ≡ revoked
unfolding is_revoked
is_revoked-revoked enrolled h = cc
is_revoked-revoked online h = cc
is_revoked-revoked offline h = cc
is_revoked-revoked revoked h = refl

offline_at :
    (k : Text) (now : ℕ) (s : NodeRegistry)
    → is_revoked_at k s ≡ true
    → node_is_online s k now ≡ false
unfolding node_is_online node_details node_view shown_status is_revoked_at
offline_at k now s h = elim (Option-cases (find_node k s)) [
  | inl missing ↦ absurd (ground arith)
  | inr (node, found) ↦
      let status : node.status ≡ revoked = is_revoked-revoked node.status (ground arith) in
      ground arith
]

-- What the methods say of a node: the first three refuse it, and a view of it shows it revoked.
pub record RefusesNode (digest : List ℕ → List ℕ) (k : Text) (s : NodeRegistry) : Type 0 where
  pub transport :
      (fingerprint proof version : Text) (t : Clocks)
      → authenticate_transport k fingerprint proof version t s ≡ (err node_revoked, s)
  pub beat :
      (request : AgentHeartbeatRequest) (t : Clocks)
      → request.node_id ≡ k
      → heartbeat request t s ≡ (err node_revoked, s)
  pub rotation :
      (secret : Text) (t : Clocks) → rotate_credential digest k secret t s ≡ (err node_revoked, s)
  pub online : (now : ℕ) → node_is_online s k now ≡ false

is_revoked_at-RefusesNode :
    (digest : List ℕ → List ℕ) (k : Text) (s : NodeRegistry)
    → is_revoked_at k s ≡ true
    → RefusesNode digest k s
is_revoked_at-RefusesNode digest k s h = record {
  transport = λ fingerprint proof version t.
      unfold authenticate_transport in
      ground (arith, admit-revoked k proof fingerprint t.checked_at s h);
  beat = λ request t same.
      unfold heartbeat in ground (arith, admit_request-revoked k request t.checked_at s same h);
  rotation = λ secret t. unfold rotate_credential is_revoked_at in ground (arith, h);
  online = λ now. offline_at k now s h;
}

now_revoked :
    (k : Text) (t : Clocks) (s : NodeRegistry) (view : NodeView)
    → (revoke_node k t s).0 ≡ ok view
    → is_revoked_at k (revoke_node k t s).1 ≡ true
unfolding revoke_node is_revoked_at is_revoked find_node
now_revoked k t s view done =
    ground (arith, find_node-written k k revoke s.nodes (λ x. refl), text_eq_refl k)

-- Once `revoke_node` has succeeded for a node, and after any calls of any methods that follow, the
-- node's transport is refused as revoked with any credential, and so are its heartbeats and the
-- rotation of its credential, all without a change of the state; and it never counts as online.
pub revoke_node-RefusesNode :
    (token_hash : Text → ℕ) (digest : List ℕ → List ℕ) (k : Text) (t : Clocks) (s : NodeRegistry)
    (view : NodeView) (calls : List NodeCall)
    → (revoke_node k t s).0 ≡ ok view
    → RefusesNode digest k (run token_hash digest calls (revoke_node k t s).1)
revoke_node-RefusesNode token_hash digest k t s view calls done =
    is_revoked_at-RefusesNode digest k _ (
      run-is_revoked_at token_hash digest k calls (revoke_node k t s).1
        (now_revoked k t s view done))
