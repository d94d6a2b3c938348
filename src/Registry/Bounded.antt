-- ===== src/Registry/Bounded.antt =====
-- Every method keeps the session table within the limits of the configuration.
use sunbolt.Base.{
  ℕ, ◌≡◌, refl, false, Text, text_keys, text_eq_iff, option_eq_iff, some, List, [], ◌∷◌, arith,
  length, leb, Bool-cases, inl, inr,
}
use sunbolt.Base.Dict.{Dict, insert, count, length-insert, count-insert, keys}
use sunbolt.Base.Dict.Unique.{insert-IsUnique}
use sunbolt.Terminal.{TerminalSessionState, expired, terminating}
use sunbolt.Terminal.Lifecycle.{index-injective, terminal_stays, terminal_not_reattachable}
use sunbolt.Registry.{
  Registry, TrackedTerminalSession, TerminalSessionInsert, TerminalSessionConfig, live_for, live_on,
  update, insert_backend, fresh, set_state, move_state, touch, set_size, reattach, may_reattach,
  terminate, forget, empty, renew, push_output, push_session, close_each, is_overdue,
}
use sunbolt.Registry.Calls.{
  Call, inserts, sets_state, touches, resizes, reattaches, outputs, remembers, terminates, forgets,
  drains, closes_node, step, run,
}
use sunbolt.Registry.Cases.{
  drain_expired_cases, close_node_cases, record_output_cases, remember_cases, reattach_cases,
}
use sunbolt.Registry.Removal.{terminate-sessions, forget-sessions, close_each-sessions}
use sunbolt.Registry.Limits.{
  IsWithin, Keeps, modify-IsWithin, modify_at-IsWithin, remove-IsWithin, remove_all-IsWithin,
}

abbrev pub IsBounded : TerminalSessionConfig → Registry → Type 0
IsBounded c r = IsWithin c r.sessions

-- A new session that passed the three tests.
insert-IsWithin :
    (c : TerminalSessionConfig) (request : TerminalSessionInsert) (token : Text) (tx now : ℕ)
    (d : Dict Text TrackedTerminalSession)
    → leb c.max_sessions (length d) ≡ false
    → leb c.max_sessions_per_user (count (live_for request.actor_email) d) ≡ false
    → leb c.max_sessions_per_node (count (live_on request.node_id) d) ≡ false
    → IsWithin c d
    → IsWithin c (insert request.session_id (fresh request token tx now) d)
insert-IsWithin c request token tx now d global user on_node w = record {
  unique = insert-IsUnique request.session_id new d w.unique;
  total = ground (arith, length-insert request.session_id new d);
  per_user = λ email. ground (
    arith,
    count-insert (live_for email) request.session_id new d,
    w.per_user email,
    text_eq_iff request.actor_email email,
  );
  per_node = λ node_id. ground (
    arith,
    count-insert (live_on node_id) request.session_id new d,
    w.per_node node_id,
    option_eq_iff request.node_id node_id,
  );
}
  where
    new : TrackedTerminalSession
    new = fresh request token tx now

insert_backend-IsBounded :
    (c : TerminalSessionConfig) (request : TerminalSessionInsert) (token : Text) (tx now : ℕ)
    (r : Registry)
    → IsBounded c r
    → IsBounded c (insert_backend (record request { config = c }) token tx now r).1
unfolding insert_backend
insert_backend-IsBounded c request token tx now r w =
    ground (arith, insert-IsWithin c (record request { config = c }) token tx now r.sessions)

update-IsBounded :
    (c : TerminalSessionConfig) (id : Text) (f : TrackedTerminalSession → TrackedTerminalSession)
    (r : Registry)
    → ((s : TrackedTerminalSession) → Keeps f s)
    → IsBounded c r
    → IsBounded c (update id f r)
update-IsBounded c id f r k w = ground (arith, modify-IsWithin c id f r.sessions k)

move_state-Keeps :
    (state : TerminalSessionState) (s : TrackedTerminalSession) → Keeps (move_state state) s
unfolding move_state
move_state-Keeps state s =
    ground (arith, terminal_stays s.state state, index-injective s.state state)

reattach-IsBounded :
    (c : TerminalSessionConfig) (id token email new_token : Text) (now : ℕ) (r : Registry)
    → IsBounded c r
    → IsBounded c (reattach id token email new_token now r).1
unfolding may_reattach
reattach-IsBounded c id token email new_token now r w =
    reattach_cases (IsBounded c) r w id token email new_token now λ s found allowed.
      modify_at-IsWithin c id (renew new_token now) s r.sessions found
        (ground (arith, terminal_not_reattachable s.state)) w

terminate-IsBounded :
    (c : TerminalSessionConfig) (id : Text) (r : Registry)
    → IsBounded c r
    → IsBounded c (terminate id r).1
terminate-IsBounded c id r w = elim (Bool-cases r.poisoned) [
  | inl bad ↦ unfold terminate in ground arith
  | inr good ↦ rw (terminate-sessions id r good) (remove-IsWithin c id r.sessions w)
]

forget-IsBounded :
    (c : TerminalSessionConfig) (id : Text) (r : Registry)
    → IsBounded c r
    → IsBounded c (forget id r)
forget-IsBounded c id r w = elim (Bool-cases r.poisoned) [
  | inl bad ↦ unfold forget in ground arith
  | inr good ↦ rw (forget-sessions id r good) (remove-IsWithin c id r.sessions w)
]

close_each-IsBounded :
    (c : TerminalSessionConfig) (state : TerminalSessionState) (ids : List Text) (r : Registry)
    → IsBounded c r
    → IsBounded c (close_each state ids r).1
close_each-IsBounded c state ids r w =
    rw (close_each-sessions state ids r) (remove_all-IsWithin c ids r.sessions w)

-- Each method keeps the table within the limits: every session is listed once, there are at most
-- `max_sessions`, and at most `max_sessions_per_user` live ones of any user and
-- `max_sessions_per_node` live ones on any node.
pub step-IsBounded :
    (c : TerminalSessionConfig) (call : Call) (r : Registry)
    → IsBounded c r
    → IsBounded c (step c call r)
unfolding step
step-IsBounded c (inserts request token tx now) r w =
    insert_backend-IsBounded c request token tx now r w
step-IsBounded c (sets_state id state) r w =
    unfold set_state in update-IsBounded c id (move_state state) r (move_state-Keeps state) w
step-IsBounded c (touches id now) r w =
    unfold touch in update-IsBounded c id _ r (λ s. (refl, refl, λ h. h)) w
step-IsBounded c (resizes id size) r w =
    unfold set_size in update-IsBounded c id _ r (λ s. (refl, refl, λ h. h)) w
step-IsBounded c (reattaches id token email new_token now) r w =
    reattach-IsBounded c id token email new_token now r w
step-IsBounded c (outputs id payload) r w =
    record_output_cases (IsBounded c) r w id payload
      (modify-IsWithin c id (push_output id payload) r.sessions (λ s. (refl, refl, λ h. h)) w)
step-IsBounded c (remembers message) r w =
    remember_cases (IsBounded c) r w message
      (λ id. modify-IsWithin c id (push_session message) r.sessions (λ s. (refl, refl, λ h. h)) w)
step-IsBounded c (terminates id) r w = terminate-IsBounded c id r w
step-IsBounded c (forgets id) r w = forget-IsBounded c id r w
step-IsBounded c (drains max_duration idle now) r w =
    drain_expired_cases (IsBounded c) r w max_duration idle now
      (close_each-IsBounded c expired (keys (is_overdue max_duration idle now) r.sessions) r w)
step-IsBounded c (closes_node node_id) r w =
    close_node_cases (IsBounded c) r w node_id
      (close_each-IsBounded c terminating (keys (live_on (some node_id)) r.sessions) r w)

run_from-IsBounded :
    (c : TerminalSessionConfig) (calls : List Call) (r : Registry)
    → IsBounded c r
    → IsBounded c (run c calls r)
unfolding run
run_from-IsBounded c [] r w = w
run_from-IsBounded c (call ∷ calls) r w =
    run_from-IsBounded c calls (step c call r) (step-IsBounded c call r w)

-- After any sequence of calls of the registry's methods on a new registry, under one configuration,
-- every session is listed once, there are at most `max_sessions` of them, and at most
-- `max_sessions_per_user` live ones of any user and `max_sessions_per_node` live ones on any node.
pub run-IsBounded :
    (c : TerminalSessionConfig) (calls : List Call) → IsBounded c (run c calls empty)
unfolding empty
run-IsBounded c calls = run_from-IsBounded c calls empty (record {
  unique = tt;
  total = omega arith;
  per_user = λ email. unfold count in omega arith;
  per_node = λ node_id. unfold count in omega arith;
})
