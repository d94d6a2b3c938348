-- ===== src/Registry/Reattach.antt =====
-- Who may reattach, and that a reconnect token is good for one reattachment.
use sunbolt.Base.{
  ℕ, ◌≡◌, ◌≢◌, Text, text_keys, text_eq_iff, text_eq_refl, List, [], ◌∷◌, arith, All, Option-cases,
  Bool-cases, sym, ◌∙◌, text_eq, inl, inr, some, none, true, ◌↔◌,
}
use sunbolt.Base.Dict.{lookup, lookup-modify}
use sunbolt.Terminal.{is_reattachable}
use sunbolt.Registry.{
  Registry, TrackedTerminalSession, TerminalReattachTarget, TerminalSessionConfig, move_state,
  reattach, may_reattach, get, renew, target,
}
use sunbolt.Registry.Calls.{
  Call, inserts, sets_state, touches, resizes, reattaches, outputs, remembers, terminates, forgets,
  drains, closes_node, run,
}
use sunbolt.Registry.Frame.{Preserves, run-Holds, Holds}

-- The owner, with the current token, of a session in a state that allows it.
pub record Entitled (token actor_email : Text) (s : TrackedTerminalSession) : Type 0 where
  pub owner : s.actor_email ≡ actor_email
  pub state : is_reattachable s.state ≡ true
  pub current : s.reconnect_token ≡ token

pub may_reattach_iff :
    (token actor_email : Text) (s : TrackedTerminalSession)
    → (may_reattach token actor_email s ≡ true) ↔ Entitled token actor_email s
unfolding may_reattach
may_reattach_iff token actor_email s = (
  λ h. ground (arith, text_eq_iff s.actor_email actor_email, text_eq_iff s.reconnect_token token),
  λ h. ground (arith, text_eq_iff s.actor_email actor_email, text_eq_iff s.reconnect_token token),
)

-- Of a session that is there, `reattach` hands out its buffer, size and new token to the entitled
-- caller, moving it to `reattaching` under the new token; any other caller gets nothing and changes
-- nothing.
pub reattach_lem :
    (id token email new_token : Text) (now : ℕ) (r : Registry) (s : TrackedTerminalSession)
    → get id r ≡ some s
    → let (result, r') = reattach id token email new_token now r in
      ((Entitled token email s
          → (result ≡ some (target (renew new_token now s)))
            × (get id r' ≡ some (renew new_token now s)))
        × (¬ Entitled token email s → (result ≡ none) × (r' ≡ r)))
unfolding reattach
reattach_lem id token email new_token now r s found =
    let entitled = may_reattach_iff token email s in
    elim (Bool-cases (may_reattach token email s)) [
      | inl yes_may ↦ (
        λ h. ground (arith, lookup-modify id id (renew new_token now) r.sessions, text_eq_refl id),
        λ h. absurd (h (entitled.0 yes_may)),
      )
      | inr no_may ↦ (λ h. absurd (ground (arith, entitled.1 h)), λ h. ground arith)
    ]

-- Calls that bring no session under the token `t`.
abbrev pub Avoids : Text → Call → Type 0
Avoids t (inserts _ token _ _) = token ≢ t
Avoids t (reattaches _ _ _ new_token _) = new_token ≢ t
Avoids t _ = Unit {0}

module _ (t : Text) where
  abbrev IsSpent : TrackedTerminalSession → Type 0
  IsSpent s = s.reconnect_token ≢ t

  IsSpent-call :
      (c : TerminalSessionConfig) (id : Text) (call : Call)
      → Avoids t call
      → Preserves IsSpent id c call
  unfolding move_state
  IsSpent-call c id (inserts request token tx now) other = λ _. other
  IsSpent-call c id (sets_state _ state) _ = λ s h. ground arith
  IsSpent-call c id (touches _ now) _ = λ s h. h
  IsSpent-call c id (resizes _ size) _ = λ s h. h
  IsSpent-call c id (reattaches _ _ _ _ _) other = λ s h. other
  IsSpent-call c id (outputs _ _) _ = λ s h. h
  IsSpent-call c id (remembers _) _ = λ s h. h
  IsSpent-call c id (terminates _) _ = tt
  IsSpent-call c id (forgets _) _ = tt
  IsSpent-call c id (drains _ _ _) _ = tt
  IsSpent-call c id (closes_node _) _ = tt

  IsSpent-calls :
      (c : TerminalSessionConfig) (id : Text) (calls : List Call)
      → All (Avoids t) calls
      → All (Preserves IsSpent id c) calls
  IsSpent-calls c id [] h = tt
  IsSpent-calls c id (call ∷ calls) h = (IsSpent-call c id call h.0, IsSpent-calls c id calls h.1)

-- Without the current token there is no reattachment.
spent_refused :
    (id token email new_token : Text) (now : ℕ) (r : Registry)
    → Holds (IsSpent token) id r
    → (reattach id token email new_token now r).0 ≡ none
unfolding reattach
spent_refused id token email new_token now r spent = elim (Option-cases (get id r)) [
  | inl gone ↦ ground arith
  | inr (s, found) ↦ ground (arith, spent s, (may_reattach_iff token email s).0)
]

reattach-IsSpent :
    (id token email new_token : Text) (now : ℕ) (r : Registry) {t : TerminalReattachTarget}
    → (reattach id token email new_token now r).0 ≡ some t
    → new_token ≢ token
    → Holds (IsSpent token) id (reattach id token email new_token now r).1
unfolding reattach
reattach-IsSpent id token email new_token now r e other s found = elim (Bool-cases r.poisoned) [
  | inl bad ↦ absurd (ground arith)
  | inr good ↦ elim (Option-cases (lookup id r.sessions)) [
    | inl gone ↦ absurd (ground arith)
    | inr (s0, there) ↦
        ground (arith, lookup-modify id id (renew new_token now) r.sessions, text_eq_refl id)
  ]
]

-- `reattach` leaves the other sessions as they are.
reattach-others :
    (id other token email new_token : Text) (now : ℕ) (r : Registry)
    → other ≢ id
    → lookup other (reattach id token email new_token now r).1.sessions ≡ lookup other r.sessions
unfolding reattach
reattach-others id other token email new_token now r apart =
    elim (Option-cases (lookup id r.sessions)) [
      | inl gone ↦ ground arith
      | inr (s, there) ↦ ground (
        arith,
        apart,
        text_eq_iff id other,
        lookup-modify id other (renew new_token now) r.sessions,
      )
    ]

-- A token that reattached a session is spent: as long as the tokens drawn by this and later calls
-- differ from it, no later call of `reattach` with it succeeds, whoever makes it, for that session or
-- for any other one whose token it was not already before.
pub reattach_once :
    (c : TerminalSessionConfig) (calls : List Call)
    (id id' token email email' new_token new_token' : Text) (now now' : ℕ) (r : Registry)
    (t : TerminalReattachTarget)
    → (reattach id token email new_token now r).0 ≡ some t
    → (id' ≢ id → Holds (IsSpent token) id' r)
    → new_token ≢ token
    → All (Avoids token) calls
    → (reattach id' token email' new_token' now'
        (run c calls (reattach id token email new_token now r).1)).0
      ≡ none
reattach_once c calls id id' token email email' new_token new_token' now now' r t e alone drawn
      avoid =
    let after = (reattach id token email new_token now r).1 in
    let spent : Holds (IsSpent token) id' after = elim (Bool-cases (text_eq id' id)) [
      | inl same ↦
          rw ((text_eq_iff id' id).0 same) (reattach-IsSpent id token email new_token now r e drawn)
      | inr differ ↦
          let apart : id' ≢ id = λ same. ground (arith, text_eq_iff id' id) in
          λ s found.
            alone apart s (sym (reattach-others id id' token email new_token now r apart) ∙ found)
    ] in
    spent_refused id' token email' new_token' now' _
      (run-Holds (IsSpent token) id' c calls after (IsSpent-calls token c id' calls avoid) spent)
