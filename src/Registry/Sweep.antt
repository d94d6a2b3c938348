-- ===== src/Registry/Sweep.antt =====
-- `close_sessions_for_node` and `drain_expired` take exactly the sessions that they select.
use sunbolt.Base.{
  ℕ, ◌≡◌, refl, Bool, true, false, not, ◌&&◌, Text, text_keys, text_eq, text_eq_iff, text_eq_refl,
  List, [], ◌∷◌, arith, any, Option-cases, inl, inr, some, none, All, ◌+◌, ◌||◌, leb, ◌-◌, ap,
  subst,
}
use sunbolt.Base.Dict.{lookup, keys, count, lookup-remove, lookup-modify}
use sunbolt.Base.Dict.Unique.{IsUnique, only, holds, any-keys, lookup-remove_all}
use sunbolt.Terminal.{
  TerminalSessionState, created, starting, active, detached, reattaching, terminating, terminated,
  failed, expired, is_terminal,
}
use sunbolt.Registry.{
  Registry, TrackedTerminalSession, ClosedSession, close_each, remove_tracked, write, live_on,
  is_overdue, drain_expired, close_sessions_for_node,
}
use sunbolt.Registry.Removal.{remove_written, close_each-sessions}
use sunbolt.Registry.Closing.{
  runs_on, times_closed, remove_tracked_lem, close_selected-times_closed,
}

abbrev pub is_reported : Text → List ClosedSession → Bool
is_reported id reports = any (λ c. text_eq c.session_id id) reports

-- A report carries the owner, the channel and the backend of the session of its id.
abbrev pub IsReportOf : Registry → ClosedSession → Type 0
IsReportOf r c =
    (s : TrackedTerminalSession) × (lookup c.session_id r.sessions ≡ some s)
    × (c.actor_email ≡ s.actor_email)
    × (c.output_tx ≡ s.output_tx)
    × (c.backend ≡ s.backend)

-- A report on what is left after a removal is one on what was there before.
IsReportOf-removed :
    (id : Text) (f : TrackedTerminalSession → TrackedTerminalSession) (r : Registry)
    (reports : List ClosedSession)
    → All (IsReportOf (remove_tracked id (write id f r)).1) reports
    → All (IsReportOf r) reports
IsReportOf-removed id f r [] h = tt
IsReportOf-removed id f r (c ∷ reports) (found, h) =
    let there : lookup c.session_id r.sessions ≡ some found.0 = ground (
      arith,
      found.1,
      ap (lookup c.session_id) (remove_written id f r),
      lookup-remove id c.session_id r.sessions,
    ) in
    ((found.0, there, found.2, found.3, found.4), IsReportOf-removed id f r reports h)

close_each-IsReportOf :
    (state : TerminalSessionState) (ids : List Text) (r : Registry)
    → All (IsReportOf r) (close_each state ids r).0
unfolding close_each
close_each-IsReportOf state [] r = tt
close_each-IsReportOf state (id ∷ ids) r =
    let f = λ (s : TrackedTerminalSession). record s { state = state } in
    let rest =
      IsReportOf-removed id f r _
        (close_each-IsReportOf state ids (remove_tracked id (write id f r)).1) in
    let removed = remove_tracked_lem id (write id f r) in
    elim (Option-cases (lookup id r.sessions)) [
      | inl gone ↦
          let kept : (remove_tracked id (write id f r)).0 ≡ none =
            ground (arith, removed, lookup-modify id id f r.sessions) in
          rw (All, kept) rest
      | inr (s, there) ↦
          let taken : (remove_tracked id (write id f r)).0 ≡ some (f s) =
            ground (arith, removed, lookup-modify id id f r.sessions, text_eq_refl id) in
          rw (All, taken) ((s, there, refl, refl, refl), rest)
    ]

close_each-reported :
    (state : TerminalSessionState) (ids : List Text) (r : Registry) (id : Text)
    → is_reported id (close_each state ids r).0
      ≡ any (λ i. text_eq i id) ids && holds (λ _. true) (lookup id r.sessions)
unfolding close_each remove_tracked
close_each-reported state [] r id = refl
close_each-reported state (i ∷ ids) r id =
    let f = λ (s : TrackedTerminalSession). record s { state = state } in
    let rest = close_each-reported state ids (remove_tracked i (write i f r)).1 id in
    ground (
      arith,
      rest,
      lookup-modify i i f r.sessions,
      lookup-modify i id f r.sessions,
      lookup-remove i id (write i f r).sessions,
      text_eq_iff i id,
      text_eq_refl i,
    )

-- A sweep of the sessions that `p` selects leaves exactly the others, as they were, reports exactly
-- the selected ones, each with its own owner, channel and backend, and closes each local PTY once
-- for every selected session that runs on it, and no other PTY.
abbrev pub Sweeps :
    (TrackedTerminalSession → Bool) → Registry → List ClosedSession × Registry → Type 0
Sweeps p r (reports, r') =
    ((id : Text)
      → (lookup id r'.sessions ≡ only (λ s. not (p s)) (lookup id r.sessions))
        × (is_reported id reports ≡ holds p (lookup id r.sessions)))
    × All (IsReportOf r) reports
    × ((pty : ℕ)
        → times_closed pty r' ≡ times_closed pty r + count (λ s. p s && runs_on pty s) r.sessions)

close_each-Sweeps :
    (p : TrackedTerminalSession → Bool) (state : TerminalSessionState) (r : Registry)
    → IsUnique r.sessions
    → Sweeps p r (close_each state (keys p r.sessions) r)
close_each-Sweeps p state r u = (
  λ id. (
    rw (close_each-sessions state (keys p r.sessions) r) (
        ground
          (arith, lookup-remove_all (keys p r.sessions) id r.sessions, any-keys p id r.sessions u)),
    ground (arith, close_each-reported state (keys p r.sessions) r id, any-keys p id r.sessions u),
  ),
  close_each-IsReportOf state (keys p r.sessions) r,
  λ pty. close_selected-times_closed p state pty r u,
)

close_node-eq :
    (node_id : Text) (r : Registry)
    → r.poisoned ≡ false
    → close_sessions_for_node node_id r
      ≡ close_each terminating (keys (live_on (some node_id)) r.sessions) r
unfolding close_sessions_for_node
close_node-eq node_id r good = ground arith

drain-eq :
    (max_duration idle now : ℕ) (r : Registry)
    → r.poisoned ≡ false
    → drain_expired max_duration idle now r
      ≡ close_each expired (keys (is_overdue max_duration idle now) r.sessions) r
unfolding drain_expired
drain-eq max_duration idle now r good = ground arith

-- A session is past its limits: it is not over, and it has lived for the maximal duration or, while
-- it is detached, has been idle for the timeout.
abbrev pub is_past_limits : ℕ → ℕ → ℕ → TrackedTerminalSession → Bool
is_past_limits max_duration idle now s = elim s.state [
  | terminated ↦ false
  | failed ↦ false
  | expired ↦ false
  | detached ↦ leb max_duration (now - s.created_at) || leb idle (now - s.last_activity)
  | _ ↦ leb max_duration (now - s.created_at)
]

is_overdue_lem :
    (max_duration idle now : ℕ) (s : TrackedTerminalSession)
    → is_overdue max_duration idle now s ≡ is_past_limits max_duration idle now s
unfolding is_overdue is_terminal
is_overdue_lem max_duration idle now s = elim s.state [
  | created ↦ ground arith
  | starting ↦ ground arith
  | active ↦ ground arith
  | detached ↦ ground arith
  | reattaching ↦ ground arith
  | terminating ↦ ground arith
  | terminated ↦ ground arith
  | failed ↦ ground arith
  | expired ↦ ground arith
]

-- `close_sessions_for_node` removes exactly the sessions on that node that are not over and leaves
-- every other session as it was; it reports exactly the removed ones, each with its own owner,
-- channel and backend; and it closes each local PTY once for every removed session that ran on it,
-- and no other PTY. (The lock is not poisoned and no session is listed twice.)
pub close_node_exact :
    (node_id : Text) (r : Registry)
    → r.poisoned ≡ false
    → IsUnique r.sessions
    → Sweeps (live_on (some node_id)) r (close_sessions_for_node node_id r)
close_node_exact node_id r good u =
    rw (close_node-eq node_id r good) (close_each-Sweeps (live_on (some node_id)) terminating r u)

-- `drain_expired` removes exactly the sessions past their limits (not over, and as old as the
-- maximal duration, or detached and idle for the timeout) and leaves every other session as it was;
-- it reports exactly the removed ones, each with its own owner, channel and backend; and it closes
-- each local PTY once for every removed session that ran on it, and no other PTY. (The lock is not
-- poisoned and no session is listed twice.)
pub drain_exact :
    (max_duration idle now : ℕ) (r : Registry)
    → r.poisoned ≡ false
    → IsUnique r.sessions
    → Sweeps (is_past_limits max_duration idle now) r (drain_expired max_duration idle now r)
drain_exact max_duration idle now r good u =
    let same : is_overdue max_duration idle now ≡ is_past_limits max_duration idle now =
      λ i s. is_overdue_lem max_duration idle now s i in
    rw (drain-eq max_duration idle now r good) (
      subst
        (λ p.
          Sweeps p r (close_each expired (keys (is_overdue max_duration idle now) r.sessions) r))
        same (close_each-Sweeps (is_overdue max_duration idle now) expired r u))
