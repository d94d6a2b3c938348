-- ===== src/Registry/Frame.antt =====
-- What holds of one session holds until a call breaks it: a predicate on the session found under an
-- identifier, and the calls that keep it.
use sunbolt.Base.{
  ◌≡◌, Text, text_keys, some, List, [], ◌∷◌, All, if◌then◌else◌, Bool-cases, inl, inr,
}
use sunbolt.Base.Dict.{keys}
use sunbolt.Base.Dict.At.{At, remove-At, remove_all-At, insert-At, modify-At}
use sunbolt.Terminal.{TerminalSessionState, expired, terminating}
use sunbolt.Registry.{
  Registry, TrackedTerminalSession, TerminalSessionConfig, live_on, fresh, renew, push_output,
  push_session, set_state, move_state, touch, set_size, terminate, forget, close_each, is_overdue,
}
use sunbolt.Registry.Calls.{
  Call, inserts, sets_state, touches, resizes, reattaches, outputs, remembers, terminates, forgets,
  drains, closes_node, step, run,
}
use sunbolt.Registry.Cases.{
  update_cases, insert_backend_cases, reattach_cases, record_output_cases, remember_cases,
  drain_expired_cases, close_node_cases,
}
use sunbolt.Registry.Removal.{terminate-sessions, forget-sessions, close_each-sessions}

module _ (P : TrackedTerminalSession → Type 0) (id : Text) where
  abbrev pub Holds : Registry → Type 0
  Holds r = At P id r.sessions

  -- The calls that keep `P` of the session `id`.
  abbrev pub Preserves : TerminalSessionConfig → Call → Type 0
  Preserves c (inserts request token tx now) =
      request.session_id ≡ id → P (fresh (record request { config = c }) token tx now)
  Preserves c (sets_state _ state) = (s : TrackedTerminalSession) → P s → P (move_state state s)
  Preserves c (touches _ now) =
      (s : TrackedTerminalSession) → P s → P (record s { last_activity = now })
  Preserves c (resizes _ size) = (s : TrackedTerminalSession) → P s → P (record s { size = size })
  Preserves c (reattaches _ _ _ new_token now) =
      (s : TrackedTerminalSession) → P s → P (renew new_token now s)
  Preserves c (outputs key payload) =
      (s : TrackedTerminalSession) → P s → P (push_output key payload s)
  Preserves c (remembers message) = (s : TrackedTerminalSession) → P s → P (push_session message s)
  Preserves c _ = Unit

  terminate-Holds : (key : Text) (r : Registry) → Holds r → Holds (terminate key r).1
  terminate-Holds key r h = elim (Bool-cases r.poisoned) [
    | inl bad ↦ unfold terminate in rw (bad, if◌then◌else◌) h
    | inr good ↦ rw (terminate-sessions key r good) (remove-At P id key r.sessions h)
  ]

  forget-Holds : (key : Text) (r : Registry) → Holds r → Holds (forget key r)
  forget-Holds key r h = elim (Bool-cases r.poisoned) [
    | inl bad ↦ unfold forget in rw (bad, if◌then◌else◌) h
    | inr good ↦ rw (forget-sessions key r good) (remove-At P id key r.sessions h)
  ]

  close_each-Holds :
      (state : TerminalSessionState) (ids : List Text) (r : Registry)
      → Holds r
      → Holds (close_each state ids r).1
  close_each-Holds state ids r h =
      rw (close_each-sessions state ids r) (remove_all-At P id ids r.sessions h)

  pub step-Holds :
      (c : TerminalSessionConfig) (call : Call) (r : Registry)
      → Preserves c call
      → Holds r
      → Holds (step c call r)
  unfolding step set_state touch set_size
  step-Holds c (inserts request token tx now) r new h =
      insert_backend_cases Holds r h _ token tx now (insert-At P id _ _ r.sessions new h)
  step-Holds c (sets_state key state) r keep h =
      update_cases Holds r h key _ (modify-At P id key _ r.sessions keep h)
  step-Holds c (touches key now) r keep h =
      update_cases Holds r h key _ (modify-At P id key _ r.sessions keep h)
  step-Holds c (resizes key size) r keep h =
      update_cases Holds r h key _ (modify-At P id key _ r.sessions keep h)
  step-Holds c (reattaches key token email new_token now) r keep h =
      reattach_cases Holds r h key token email new_token now
        (λ _ _ _. modify-At P id key _ r.sessions keep h)
  step-Holds c (outputs key payload) r keep h =
      record_output_cases Holds r h key payload (modify-At P id key _ r.sessions keep h)
  step-Holds c (remembers message) r keep h =
      remember_cases Holds r h message (λ key. modify-At P id key _ r.sessions keep h)
  step-Holds c (terminates key) r keep h = terminate-Holds key r h
  step-Holds c (forgets key) r keep h = forget-Holds key r h
  step-Holds c (drains max_duration idle now) r keep h =
      drain_expired_cases Holds r h max_duration idle now
        (close_each-Holds expired (keys (is_overdue max_duration idle now) r.sessions) r h)
  step-Holds c (closes_node node_id) r keep h =
      close_node_cases Holds r h node_id
        (close_each-Holds terminating (keys (live_on (some node_id)) r.sessions) r h)

  -- A predicate that every call of a run keeps still holds at its end.
  pub run-Holds :
      (c : TerminalSessionConfig) (calls : List Call) (r : Registry)
      → All (Preserves c) calls
      → Holds r
      → Holds (run c calls r)
  unfolding run
  run-Holds c [] r keep h = h
  run-Holds c (call ∷ calls) r keep h =
      run-Holds c calls (step c call r) keep.1 (step-Holds c call r keep.0 h)
