-- ===== src/Registry/Others.antt =====
-- The methods on one session leave the others alone.
use sunbolt.Base.{ℕ, ◌≡◌, ◌≢◌, Text, text_keys, text_eq_iff, arith, Bool-cases, inl, inr}
use sunbolt.Base.Dict.{lookup, lookup-modify, lookup-remove}
use sunbolt.Terminal.{TerminalSessionState, detached}
use sunbolt.Protocol.{TerminalSize}
use sunbolt.Registry.{
  Registry, TrackedTerminalSession, update, set_state, detach, touch, set_size, forget, terminate,
  move_state,
}
use sunbolt.Registry.Removal.{forget-sessions, terminate-sessions}

module _ (id other : Text) (apart : id ≢ other) where
  update-others :
      (f : TrackedTerminalSession → TrackedTerminalSession) (r : Registry)
      → lookup other (update id f r).sessions ≡ lookup other r.sessions
  update-others f r =
      ground (arith, apart, text_eq_iff id other, lookup-modify id other f r.sessions)

  pub set_state-others :
      (state : TerminalSessionState) (r : Registry)
      → lookup other (set_state id state r).sessions ≡ lookup other r.sessions
  unfolding set_state
  set_state-others state r = update-others (move_state state) r

  pub detach-others : (r : Registry) → lookup other (detach id r).sessions ≡ lookup other r.sessions
  unfolding detach
  detach-others r = set_state-others detached r

  pub touch-others :
      (now : ℕ) (r : Registry) → lookup other (touch id now r).sessions ≡ lookup other r.sessions
  unfolding touch
  touch-others now r = update-others _ r

  pub set_size-others :
      (size : TerminalSize) (r : Registry)
      → lookup other (set_size id size r).sessions ≡ lookup other r.sessions
  unfolding set_size
  set_size-others size r = update-others _ r

  pub forget-others : (r : Registry) → lookup other (forget id r).sessions ≡ lookup other r.sessions
  forget-others r = elim (Bool-cases r.poisoned) [
    | inl bad ↦ unfold forget in ground arith
    | inr good ↦
        rw (forget-sessions id r good)
          (ground (arith, apart, text_eq_iff id other, lookup-remove id other r.sessions))
  ]

  pub terminate-others :
      (r : Registry) → lookup other (terminate id r).1.sessions ≡ lookup other r.sessions
  terminate-others r = elim (Bool-cases r.poisoned) [
    | inl bad ↦ unfold terminate in ground arith
    | inr good ↦
        rw (terminate-sessions id r good)
          (ground (arith, apart, text_eq_iff id other, lookup-remove id other r.sessions))
  ]
