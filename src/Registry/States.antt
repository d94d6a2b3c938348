-- ===== src/Registry/States.antt =====
-- How the lifecycle state of a tracked session moves.
use sunbolt.Base.{
  ◌≡◌, refl, ap, ◌∙◌, nat_eq, ◌⊎◌, inl, inr, ℕ, Text, text_keys, text_eq_refl, true, false, arith,
  some, Bool-cases,
}
use sunbolt.Base.Dict.{lookup-modify}
use sunbolt.Terminal.{TerminalSessionState, active, reattaching, index, can_transition_to}
use sunbolt.Terminal.Lifecycle.{index-injective}
use sunbolt.Registry.{Registry, TrackedTerminalSession, set_state, move_state, get, reattach, renew}
use sunbolt.Registry.Reattach.{Entitled, reattach_lem}

move_state_allowed :
    (next : TerminalSessionState) (s : TrackedTerminalSession)
    → (can_transition_to s.state next ≡ true) ⊎ (s.state ≡ next)
    → move_state next s ≡ record s { state = next }
unfolding move_state
move_state_allowed next s (inl allowed) = ground arith
move_state_allowed next s (inr same) = ground (arith, ap index same)

move_state_refused :
    (next : TerminalSessionState) (s : TrackedTerminalSession)
    → ¬ ((can_transition_to s.state next ≡ true) ⊎ (s.state ≡ next))
    → move_state next s ≡ s
unfolding move_state
move_state_refused next s refused = elim (Bool-cases (can_transition_to s.state next)) [
  | inl allowed ↦ absurd (refused (inl allowed))
  | inr listed ↦ elim (Bool-cases (nat_eq (index s.state) (index next))) [
    | inl same ↦ absurd (refused (inr (index-injective s.state next same)))
    | inr other ↦ rw (listed, other) refl
  ]
]

get-set_state :
    (id : Text) (next : TerminalSessionState) (r : Registry) (s : TrackedTerminalSession)
    → get id r ≡ some s
    → get id (set_state id next r) ≡ some (move_state next s)
unfolding set_state
get-set_state id next r s found =
    ground (arith, lookup-modify id id (move_state next) r.sessions, text_eq_refl id)

-- `set_state` on a session that is there: it takes the requested state exactly if the lifecycle
-- allows the move or the session is in it already, and otherwise stays as it is.
pub set_state_lem :
    (id : Text) (next : TerminalSessionState) (r : Registry) (s : TrackedTerminalSession)
    → get id r ≡ some s
    → ((can_transition_to s.state next ≡ true) ⊎ (s.state ≡ next)
        → get id (set_state id next r) ≡ some (record s { state = next }))
      × (¬ ((can_transition_to s.state next ≡ true) ⊎ (s.state ≡ next))
          → get id (set_state id next r) ≡ some s)
set_state_lem id next r s found = (
  λ allowed. get-set_state id next r s found ∙ ap some (move_state_allowed next s allowed),
  λ refused. get-set_state id next r s found ∙ ap some (move_state_refused next s refused),
)

-- An attached session is reattached by its owner straight from `active`, a move that
-- `can_transition_to` does not list.
pub reattach_skips_detached :
    (id token email new_token : Text) (now : ℕ) (r : Registry) (s : TrackedTerminalSession)
    → get id r ≡ some s
    → Entitled token email s
    → s.state ≡ active
    → let r' = (reattach id token email new_token now r).1 in
      (get id r' ≡ some (renew new_token now s)) × (can_transition_to s.state reattaching ≡ false)
unfolding can_transition_to
reattach_skips_detached id token email new_token now r s found entitled e =
    (((reattach_lem id token email new_token now r s found).0 entitled).1, rw e refl)
