-- ===== src/Registry/Gone.antt =====
-- What `remove` and `terminate` leave of a session, and when there is one to end.
use sunbolt.Base.{
  ◌≡◌, true, none, some, Text, text_keys, text_eq_refl, arith, Bool-cases, Option-cases, inl, inr,
}
use sunbolt.Base.Dict.{lookup-remove, lookup-modify}
use sunbolt.Terminal.{terminating}
use sunbolt.Registry.{Registry, TerminalBackend, forget, terminate, remove_tracked, get}
use sunbolt.Registry.Queries.{state_of, owner_matches}
use sunbolt.Registry.Removal.{forget-sessions, terminate-sessions}

pub state_of-forget : (id : Text) (r : Registry) → state_of id (forget id r) ≡ none
unfolding state_of forget
state_of-forget id r = elim (Bool-cases r.poisoned) [
  | inl bad ↦ ground arith
  | inr good ↦
      ground (arith, forget-sessions id r good, lookup-remove id id r.sessions, text_eq_refl id)
]

pub state_of-terminate : (id : Text) (r : Registry) → state_of id (terminate id r).1 ≡ none
unfolding state_of terminate
state_of-terminate id r = elim (Bool-cases r.poisoned) [
  | inl bad ↦ ground arith
  | inr good ↦
      ground (arith, terminate-sessions id r good, lookup-remove id id r.sessions, text_eq_refl id)
]

-- A session with an owner has a backend to end.
pub terminate-owned :
    (id email : Text) (r : Registry)
    → owner_matches id email r ≡ true
    → (b : TerminalBackend) × ((terminate id r).0 ≡ some b)
unfolding terminate owner_matches remove_tracked
terminate-owned id email r owned = elim (Option-cases (get id r)) [
  | inl gone ↦ absurd (ground arith)
  | inr (s, found) ↦ (
    s.backend,
    ground (
      arith,
      lookup-modify id id (λ t. record t { state = terminating }) r.sessions,
      text_eq_refl id,
    ),
  )
]
