-- ===== src/Registry/Closing.antt =====
-- The local PTYs that `remove_tracked` and the sweeps of crates/sunbolt-control/src/terminal/session_registry.rs
-- close.
use sunbolt.Base.{
  ℕ, ◌+◌, ◌≡◌, ◌∙◌, ap, refl, Bool, false, ◌&&◌, Text, text_keys, List, [], ◌∷◌, inl, inr,
  Option-cases, nat_eq, filter, length, arith,
}
use sunbolt.Base.Dict.{lookup, count, keys}
use sunbolt.Base.Dict.Unique.{IsUnique, remove-IsUnique, modify-IsUnique}
use sunbolt.Base.Dict.Counting.{count-modify_same, count-remove_one, count-retain, remove_all-keys}
use sunbolt.Terminal.{TerminalSessionState}
use sunbolt.Registry.{
  Registry, TrackedTerminalSession, local_pty, remote, remove_tracked, write, close_each,
}
use sunbolt.Registry.Removal.{remove_tracked-sessions, close_each-sessions}

-- The session runs on that PTY of this host.
abbrev pub runs_on : ℕ → TrackedTerminalSession → Bool
runs_on pty s = elim s.backend [ local_pty n ↦ nat_eq pty n | remote _ ↦ false ]

-- How often that PTY has been closed.
abbrev pub times_closed : ℕ → Registry → ℕ
times_closed pty r = length (filter (nat_eq pty) r.closed)

pub remove_tracked_lem : (id : Text) (r : Registry) → (remove_tracked id r).0 ≡ lookup id r.sessions
unfolding remove_tracked
remove_tracked_lem id r = ground arith

-- The closings of a PTY and the sessions that still run on it.
abbrev due : ℕ → Registry → ℕ
due pty r = times_closed pty r + count (runs_on pty) r.sessions

remove_tracked-due :
    (pty : ℕ) (id : Text) (r : Registry)
    → IsUnique r.sessions
    → due pty (remove_tracked id r).1 ≡ due pty r
unfolding remove_tracked
remove_tracked-due pty id r u =
    let one = count-remove_one (runs_on pty) id r.sessions u in
    elim (Option-cases (lookup id r.sessions)) [
      | inl gone ↦ ground (arith, gone)
      | inr (s, there) ↦ elim s.backend [
        | local_pty n ↦ ground (arith, there, one)
        | remote n ↦ ground (arith, there, one)
      ]
    ]

-- A removed session's PTY is closed, so that a sweep moves each from the one count to the other.
close_each-due :
    (pty : ℕ) (state : TerminalSessionState) (ids : List Text) (r : Registry)
    → IsUnique r.sessions
    → due pty (close_each state ids r).1 ≡ due pty r
unfolding close_each
close_each-due pty state [] r u = refl
close_each-due pty state (id ∷ ids) r u =
    let f = λ (s : TrackedTerminalSession). record s { state = state } in
    let marked = write id f r in
    let marked_u = modify-IsUnique id f r.sessions u in
    let left_u : IsUnique (remove_tracked id marked).1.sessions =
      rw (remove_tracked-sessions id marked) (remove-IsUnique id marked.sessions marked_u) in
    let rest = close_each-due pty state ids (remove_tracked id marked).1 left_u in
    let first = remove_tracked-due pty id marked marked_u in
    let same = count-modify_same (runs_on pty) id f r.sessions (λ s. refl) in
    omega (arith, rest, first, same)

pub close_selected-times_closed :
    (p : TrackedTerminalSession → Bool) (state : TerminalSessionState) (pty : ℕ) (r : Registry)
    → IsUnique r.sessions
    → times_closed pty (close_each state (keys p r.sessions) r).1
      ≡ times_closed pty r + count (λ s. p s && runs_on pty s) r.sessions
close_selected-times_closed p state pty r u =
    let left =
      ap (count (runs_on pty))
        (close_each-sessions state (keys p r.sessions) r ∙ remove_all-keys p r.sessions u) in
    omega (
      arith,
      left,
      close_each-due pty state (keys p r.sessions) r u,
      count-retain p (runs_on pty) r.sessions,
    )
