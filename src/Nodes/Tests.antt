-- ===== src/Nodes/Tests.antt =====
-- A node is enrolled, heard, rotated and revoked.
use sunbolt.Base.{ℕ, ◌≡◌, refl, some, List, [], ◌∷◌, Text, text, ok, err, arith}
use sunbolt.Base.Dict.{lookup, insert, remove, modify}
use sunbolt.Base.Numerals.{decimal, hex, digits_from}
use sunbolt.Auth.{User, admin}
use sunbolt.Nodes.{
  NodeStatus, revoked, find_node, authenticated_credential, is_revoked, node_view, shown_status,
  credential_expiration_for_node, credential_expiration_unix_secs, latest_heartbeat_at,
  NodeRegistry, NodeRecord, NodeView, Clocks, AgentEnrollmentRequest, AgentEnrollmentResponse,
  enrolled, create_token, enroll, enroll_node, revoke_node, rotate_credential, admit, token_used,
  credential_fingerprint_of, credential_proof_of, new_credential,
}
use sunbolt.Nodes.Calls.{NodeCall, creates, enrolls, authenticates, step, run, after}
use sunbolt.Nodes.Credentials.{new_registry}
use sunbolt.Nodes.Revocation.{RefusesNode, revoke_node-RefusesNode}
use sunbolt.Nodes.Enrolment.{enroll_once}
use sunbolt.Nodes.Rotation.{rotate_credential-admit}

-- Stand-ins for the hash of tokens and for SHA-256
abbrev hash : Text → ℕ
hash [] = 0
hash (x ∷ _) = x

abbrev identity : List ℕ → List ℕ
identity bytes = bytes

abbrev at : Clocks
at = record {
  checked_at = 5;
  created_unix_secs = 100;
  expiry_unix_secs = 100;
  expiry_at = 5;
  created_at = 5;
  received_at = 6;
  shown_at = 6;
  viewed_at = 7;
}

abbrev ann : User
ann = record { id = 1; email = text "ann"; role = admin }

abbrev request : AgentEnrollmentRequest
request = record {
  token = text "t";
  node_name = text "box";
  hostname = text "h";
  os = text "linux";
  architecture = text "x86";
  agent_version = text "1";
}

abbrev prepared : NodeRegistry
prepared = (create_token hash (text "t") ann 50 at new_registry).1

abbrev calls : List NodeCall
calls = enrolls request (text "s") at ∷ creates (text "t") ann 50 at ∷ []

abbrev joined : NodeRegistry
joined = after hash identity calls new_registry

abbrev proof : Text
proof = credential_proof_of identity (text "node-1") (text "s")

abbrev fingerprint : Text
fingerprint = credential_fingerprint_of identity (text "s")

abbrev shown : NodeStatus → NodeView
shown status = record {
  node_id = text "node-1";
  display_name = text "box";
  hostname = text "h";
  os = text "linux";
  architecture = text "x86";
  agent_version = text "1";
  status = status;
  credential_expires_at_unix_secs = some 7776100;
}

revokes_it : (revoke_node (text "node-1") at joined).0 ≡ ok (shown revoked)
unfolding after step create_token enroll enroll_node revoke_node find_node node_view shown_status
    credential_expiration_for_node new_credential credential_expiration_unix_secs
    latest_heartbeat_at is_revoked decimal digits_from insert remove modify lookup
revokes_it = refl

revoke_node-RefusesNode_example : RefusesNode identity (text "node-1") (
    run hash identity
      (authenticates (text "node-1") fingerprint proof (text "1") at ∷ [])
      (revoke_node (text "node-1") at joined).1)
revoke_node-RefusesNode_example =
    revoke_node-RefusesNode hash identity (text "node-1") at joined (shown revoked)
      (authenticates (text "node-1") fingerprint proof (text "1") at ∷ []) revokes_it

abbrev response : AgentEnrollmentResponse
response = (enroll_node identity hash request (text "s") at prepared).0

enrolls_it : (enroll identity hash request (text "s") at prepared).0 ≡ ok response
unfolding create_token enroll insert remove lookup
enrolls_it = refl

enroll_once_example :
    let later =
      run hash identity
        (creates (text "u") ann 50 at ∷ [])
        (enroll identity hash request (text "s") at prepared).1 in
    enroll identity hash request (text "z") at later ≡ (err token_used, later)
enroll_once_example =
    enroll_once hash identity request request (text "s") (text "z") at at prepared response
      (creates (text "u") ann 50 at ∷ []) enrolls_it ((λ h. omega arith), tt) refl

abbrev node : NodeRecord
node = record {
  id = 1;
  node_id = text "node-1";
  display_name = text "box";
  hostname = text "h";
  os = text "linux";
  architecture = text "x86";
  agent_version = text "1";
  status = enrolled;
}

admitted : admit joined (text "node-1") proof fingerprint 5 ≡ ok node
unfolding after step create_token enroll enroll_node admit find_node authenticated_credential
    is_revoked credential_proof_of credential_fingerprint_of new_credential decimal digits_from hex
    insert remove modify lookup
admitted = refl

rotate_credential-admit_test :
    admit
      (rotate_credential identity (text "node-1") (text "new") at joined).1
      (text "node-1")
      proof
      fingerprint
      5
    ≡ ok node
rotate_credential-admit_test =
    rotate_credential-admit identity (text "node-1") (text "new") at joined (text "node-1") proof
      fingerprint 5 node admitted
