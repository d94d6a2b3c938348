-- ===== src/Nodes/Calls.antt =====
-- The methods of the node registry as steps.
use sunbolt.Base.{ℕ, List, [], ◌∷◌, Text}
use sunbolt.Auth.{User}
use sunbolt.Nodes.{
  NodeRegistry, Clocks, AgentEnrollmentRequest, AgentHeartbeatRequest, create_token, enroll,
  heartbeat, authenticate_transport, revoke_node, rotate_credential,
}

pub data NodeCall : Type 0 where
  creates : Text → User → ℕ → Clocks → NodeCall
  enrolls : AgentEnrollmentRequest → Text → Clocks → NodeCall
  beats : AgentHeartbeatRequest → Clocks → NodeCall
  authenticates : Text → Text → Text → Text → Clocks → NodeCall
  revokes : Text → Clocks → NodeCall
  rotates : Text → Text → Clocks → NodeCall

module _ (token_hash : Text → ℕ) (digest : List ℕ → List ℕ) where
  unfoldable pub step : NodeCall → NodeRegistry → NodeRegistry
  step (creates token user ttl t) s = (create_token token_hash token user ttl t s).1
  step (enrolls request secret t) s = (enroll digest token_hash request secret t s).1
  step (beats request t) s = (heartbeat request t s).1
  step (authenticates node_id fingerprint proof version t) s =
      (authenticate_transport node_id fingerprint proof version t s).1
  step (revokes node_id t) s = (revoke_node node_id t s).1
  step (rotates node_id secret t) s = (rotate_credential digest node_id secret t s).1

  -- Calls in the order of their arrival.
  unfoldable pub run : List NodeCall → NodeRegistry → NodeRegistry
  run [] s = s
  run (c ∷ calls) s = run calls (step c s)

  -- A history, the last call first, on a state.
  unfoldable pub after : List NodeCall → NodeRegistry → NodeRegistry
  after [] s = s
  after (c ∷ calls) s = step c (after calls s)
