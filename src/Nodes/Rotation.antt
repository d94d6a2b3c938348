-- ===== src/Nodes/Rotation.antt =====
-- `rotate_credential` gives a node one more credential and takes none away.
use sunbolt.Base.{ℕ, ◌≡◌, ◌++◌, ◌∷◌, [], List, Text, find-append, ok, arith, Option-cases, inl, inr}
use sunbolt.Nodes.{
  NodeRegistry, NodeRecord, NodeCredentialRecord, Clocks, admit, find_node,
  authenticated_credential, is_presented, rotated, rotate_credential,
}
use sunbolt.Nodes.Cases.{rotate_cases}

admit-more :
    (s : NodeRegistry) (k proof fingerprint : Text) (now : ℕ) (node : NodeRecord)
    (c : NodeCredentialRecord)
    → admit s k proof fingerprint now ≡ ok node
    → admit (record s { credentials = s.credentials ++ c ∷ [] }) k proof fingerprint now ≡ ok node
unfolding admit find_node authenticated_credential
admit-more s k proof fingerprint now node c h = elim (Option-cases (find_node k s)) [
  | inl missing ↦ absurd (ground arith)
  | inr (other, found) ↦
      elim (Option-cases (authenticated_credential s other.id proof fingerprint)) [
        | inl no_credential ↦ absurd (ground arith)
        | inr (old, presented) ↦
            ground
              (arith, find-append (is_presented other.id proof fingerprint) s.credentials (c ∷ []))
      ]
]

-- Whoever is admitted as a node with a credential is still admitted with it after any rotation: the
-- credential that was rotated away is good until its own expiry.
pub rotate_credential-admit :
    (digest : List ℕ → List ℕ) (rotated_id secret : Text) (t : Clocks) (s : NodeRegistry)
    (k proof fingerprint : Text) (now : ℕ) (node : NodeRecord)
    → admit s k proof fingerprint now ≡ ok node
    → admit (rotate_credential digest rotated_id secret t s).1 k proof fingerprint now ≡ ok node
rotate_credential-admit digest rotated_id secret t s k proof fingerprint now node h =
    rotate_cases (λ s'. admit s' k proof fingerprint now ≡ ok node) s h digest rotated_id secret t
      λ found _.
        admit-more s k proof fingerprint now node (rotated digest rotated_id secret t s found) h
