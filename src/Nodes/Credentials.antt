-- ===== src/Nodes/Credentials.antt =====
-- Which credentials admit a node's agent.

use sunbolt.Base.{ℕ, ◌≡◌, Bool, true, false, List, [], ◌∷◌, Text, text_eq, All, any, arith}
use sunbolt.Nodes.{
  NodeRegistry, NodeRecord, NodeCredentialRecord, credential_fingerprint_of, credential_proof_of,
  node_name,
}
use sunbolt.Nodes.Calls.{NodeCall, enrolls, rotates}

-- `NodeEnrollmentRegistry::default`
abbrev pub new_registry : NodeRegistry
new_registry = record {
  tokens_by_hash = [];
  nodes = [];
  credentials = [];
  heartbeats = [];
  next_token_id = 1;
  next_node_id = 1;
}

abbrev pub IsNamed : NodeRecord → Type 0
IsNamed node = node.node_id ≡ node_name node.id

-- A call that gives out this secret.
abbrev pub gives_out : Text → NodeCall → Bool
gives_out secret (enrolls _ given _) = text_eq given secret
gives_out secret (rotates _ given _) = text_eq given secret
gives_out secret _ = false

module _ (digest : List ℕ → List ℕ) where
  -- The credential was made for its node from a secret that one of the calls gave out.
  abbrev pub IsIssued : List NodeCall → NodeCredentialRecord → Type 0
  IsIssued calls c =
      (secret : Text) × (any (gives_out secret) calls ≡ true)
      × (c.credential_fingerprint ≡ credential_fingerprint_of digest secret)
      × (c.credential_proof ≡ credential_proof_of digest (node_name c.node_id) secret)

  abbrev pub IsIssuing : List NodeCall → NodeRegistry → Type 0
  IsIssuing calls s = All IsNamed s.nodes × All (IsIssued calls) s.credentials

  All-IsIssued-more :
      (c : NodeCall) (calls : List NodeCall) (cs : List NodeCredentialRecord)
      → All (IsIssued calls) cs
      → All (IsIssued (c ∷ calls)) cs
  All-IsIssued-more c calls [] _ = tt
  All-IsIssued-more c calls (x ∷ cs) ((secret, given, fp, proof), more) =
      ((secret, ground (arith, given), fp, proof), All-IsIssued-more c calls cs more)

  module _ (token_hash : Text → ℕ) where
    more :
        (c : NodeCall) (calls : List NodeCall) (s : NodeRegistry)
        → IsIssuing calls s
        → IsIssuing (c ∷ calls) s
    more c calls s (named, issued) = (named, All-IsIssued-more c calls s.credentials issued)
