-- ===== src/Nodes/Enrolment.antt =====
-- An enrolment token enrols one node.
use sunbolt.Base.{
  ℕ, ◌+◌, subst, sym, ◌≡◌, ◌≢◌, Bool, true, false, none, some, List, [], ◌∷◌, Text, nat_keys,
  nat_eq_iff, All, ok, err, arith,
}
use sunbolt.Base.Dict.{lookup, lookup-insert, lookup-modify}
use sunbolt.Nodes.{
  NodeRegistry, Clocks, AgentEnrollmentRequest, AgentEnrollmentResponse, token_used, is_some,
  create_token, enroll, enroll_node, heartbeat, authenticate_transport, revoke_node,
  rotate_credential,
}
use sunbolt.Nodes.Calls.{
  NodeCall, creates, enrolls, beats, authenticates, revokes, rotates, step, run,
}

-- A token of that hash is there and used.
abbrev pub is_spent : ℕ → NodeRegistry → Bool
is_spent hash s = elim (lookup hash s.tokens_by_hash) [
  | none ↦ false
  | some token ↦ is_some token.used_by_node_id
]

module _ (token_hash : Text → ℕ) (digest : List ℕ → List ℕ) where
  -- A call that creates no token of that hash.
  abbrev pub CreatesOther : ℕ → NodeCall → Type 0
  CreatesOther hash (creates token _ _ _) = token_hash token ≢ hash
  CreatesOther hash _ = Unit {0}

  step-is_spent :
      (hash : ℕ) (c : NodeCall) (s : NodeRegistry)
      → CreatesOther hash c
      → is_spent hash s ≡ true
      → is_spent hash (step token_hash digest c s) ≡ true
  unfolding step create_token enroll enroll_node heartbeat authenticate_transport revoke_node
      rotate_credential
  step-is_spent hash (creates token user ttl t) s other h = ground (
    arith,
    lookup-insert (token_hash token) hash
        (record {
          id = s.next_token_id;
          created_by_user_id = user.id;
          expires_at = t.expiry_at + ttl;
          used_by_node_id = none;
        })
        s.tokens_by_hash,
    nat_eq_iff (token_hash token) hash,
  )
  step-is_spent hash (enrolls request secret t) s _ h = ground (
    arith,
    lookup-modify (token_hash request.token) hash
        (λ k. record k { used_by_node_id = some s.next_node_id }) s.tokens_by_hash,
  )
  step-is_spent hash (beats request t) s _ h = ground arith
  step-is_spent hash (authenticates node_id fingerprint proof version t) s _ h = ground arith
  step-is_spent hash (revokes node_id t) s _ h = ground arith
  step-is_spent hash (rotates node_id secret t) s _ h = ground arith

  run-is_spent :
      (hash : ℕ) (calls : List NodeCall) (s : NodeRegistry)
      → All (CreatesOther hash) calls
      → is_spent hash s ≡ true
      → is_spent hash (run token_hash digest calls s) ≡ true
  unfolding run
  run-is_spent hash [] s _ h = h
  run-is_spent hash (c ∷ calls) s (other, others) h =
      run-is_spent hash calls (step token_hash digest c s) others (step-is_spent hash c s other h)

  enroll-is_spent :
      (request : AgentEnrollmentRequest) (secret : Text) (t : Clocks) (s : NodeRegistry)
      (response : AgentEnrollmentResponse)
      → (enroll digest token_hash request secret t s).0 ≡ ok response
      → is_spent (token_hash request.token) (enroll digest token_hash request secret t s).1 ≡ true
  unfolding enroll enroll_node
  enroll-is_spent request secret t s response done = ground (
    arith,
    lookup-modify (token_hash request.token) (token_hash request.token)
        (λ k. record k { used_by_node_id = some s.next_node_id }) s.tokens_by_hash,
    nat_eq_iff (token_hash request.token) (token_hash request.token),
  )

  -- A token that enrolled a node is spent: as long as no later call creates a token of the same hash,
  -- every later `enroll` with it says `TokenUsed` and changes nothing, whoever makes it and whenever.
  pub enroll_once :
      (request again : AgentEnrollmentRequest) (secret secret' : Text) (t t' : Clocks)
      (s : NodeRegistry) (response : AgentEnrollmentResponse) (calls : List NodeCall)
      → (enroll digest token_hash request secret t s).0 ≡ ok response
      → All (CreatesOther (token_hash request.token)) calls
      → again.token ≡ request.token
      → let later = run token_hash digest calls (enroll digest token_hash request secret t s).1 in
        enroll digest token_hash again secret' t' later ≡ (err token_used, later)
  enroll_once request again secret secret' t t' s response calls done others same =
      let later = run token_hash digest calls (enroll digest token_hash request secret t s).1 in
      let spent : is_spent (token_hash again.token) later ≡ true =
        subst (λ k. is_spent (token_hash k) later ≡ true) (sym same)
          (run-is_spent (token_hash request.token) calls
            (enroll digest token_hash request secret t s).1 others
            (enroll-is_spent request secret t s response done)) in
      unfold enroll in ground (arith, spent)
