-- ===== src/Sockets/Reattaching.antt =====
-- Who may reattach to a session.
use sunbolt.Base.{
  ℕ, ◌≡◌, ◌↔◌, true, false, Option, none, some, Text, text_eq_iff, arith, Bool-cases, Option-cases,
  inl, inr,
}
use sunbolt.Registry.{TerminalBackend, TrackedTerminalSession, local_pty, remote, may_reattach, get}
use sunbolt.Registry.Queries.{owner_matches, node_of}
use sunbolt.Registry.Reattach.{Entitled, may_reattach_iff, reattach_lem}
use sunbolt.Auth.{User}
use sunbolt.Auth.Rbac.{terminal_reattach}
use sunbolt.Sockets.{AppState, authorize_session_reattach, is_shown_revoked, is_permitted}
use sunbolt.Sockets.Attached.{
  Reattachment, turned_away, handle_terminal_reattach, attach, attach_to,
}

abbrev pub IsAttached : Reattachment → Type 0
IsAttached (turned_away _) = ⊥
IsAttached _ = Unit

attach_to-IsAttached :
    (b : TerminalBackend) (output_rx : ℕ) (w : AppState) → IsAttached (attach_to b output_rx w)
unfolding attach_to
attach_to-IsAttached (local_pty _) output_rx w = tt
attach_to-IsAttached (remote _) output_rx w = tt

-- The node of a session, if it has one, is not shown as revoked and permits the user to reattach.
abbrev pub IsOpen : User → ℕ → AppState → Option Text → Type 0
IsOpen user checked_at w none = Unit
IsOpen user checked_at w (some node_id) =
    (is_shown_revoked node_id checked_at w ≡ false)
    × (is_permitted user node_id terminal_reattach w ≡ true)

module _ (user : User) (id token : Text) (checked_at : ℕ) (w : AppState) where
  authorize_session_reattach-IsOpen :
      (s : TrackedTerminalSession)
      → get id w.sessions ≡ some s
      → (authorize_session_reattach user id checked_at w ≡ true)
        ↔ ((s.actor_email ≡ user.email) × IsOpen user checked_at w s.node_id)
  unfolding authorize_session_reattach owner_matches node_of
  authorize_session_reattach-IsOpen s found = elim (Option-cases s.node_id) [
    | inl here ↦ ground (arith, text_eq_iff s.actor_email user.email)
    | inr (node_id, there) ↦ ground (arith, text_eq_iff s.actor_email user.email)
  ]

  module _ (new_token : Text) (now : ℕ) where
    abbrev result : Reattachment
    result = handle_terminal_reattach user id token checked_at new_token now w

    -- Of a session that is in the registry, a request to reattach leads to a loop exactly if the
    -- session's state allows it, it belongs to the user, the token is its current one, and its node,
    -- if it has one, is not shown as revoked and permits the user to reattach.
    pub handle_terminal_reattach_iff :
        (s : TrackedTerminalSession)
        → get id w.sessions ≡ some s
        → IsAttached result ↔ (Entitled token user.email s × IsOpen user checked_at w s.node_id)
    unfolding handle_terminal_reattach
    handle_terminal_reattach_iff s found =
        let answered = reattach_lem id token user.email new_token now w.sessions s found in
        elim (Bool-cases (authorize_session_reattach user id checked_at w)) [
          | inr refused ↦
              rw (refused, handle_terminal_reattach)
                (
                  λ h. absurd h,
                  λ (e, o). absurd (
                      ground (
                        arith,
                        refused,
                        (authorize_session_reattach-IsOpen s found).1 (e.owner, o),
                      )),
                )
          | inl allowed ↦ elim (Bool-cases (may_reattach token user.email s)) [
            | inl entitled ↦
                let e = (may_reattach_iff token user.email s).0 entitled in
                rw (allowed, (answered.0 e).0, handle_terminal_reattach)
                  (
                    λ _. (e, ((authorize_session_reattach-IsOpen s found).0 allowed).1),
                    λ _. unfold attach in attach_to-IsAttached _ _ _,
                  )
            | inr other ↦
                let stranger : ¬ Entitled token user.email s =
                  λ e. absurd (ground (arith, other, (may_reattach_iff token user.email s).1 e)) in
                rw (allowed, (answered.1 stranger).0, handle_terminal_reattach)
                  (λ h. absurd h, λ (e, o). absurd (stranger e))
          ]
        ]
