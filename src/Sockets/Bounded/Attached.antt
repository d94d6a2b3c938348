-- ===== src/Sockets/Bounded/Attached.antt =====
-- Reattaching, ending a session and the removal of expired ones keep the session table within its limits.
use sunbolt.Base.{
  ℕ, ◌≡◌, refl, Bool, List, [], ◌∷◌, Text, Bool-cases, Option-cases, inl, inr, sym, subst,
}
use sunbolt.Protocol.{TerminalServerMessage, close_terminal}
use sunbolt.Registry.{
  TerminalSessionConfig, TerminalBackend, TerminalReattachTarget, ClosedSession, local_pty, remote,
  reattach, terminate,
}
use sunbolt.Registry.Queries.{owner_matches}
use sunbolt.Registry.Calls.{sets_state, reattaches, terminates, drains, step}
use sunbolt.Registry.Bounded.{IsBounded, step-IsBounded}
use sunbolt.Auth.{User}
use sunbolt.Sockets.{
  AppState, sends, emit, on_sessions, send_error, record_event, authorize_session_reattach,
  authorize_session_terminate,
}
use sunbolt.Terminal.{active}
use sunbolt.Sockets.Calls.{after_reattach}
use sunbolt.Sockets.Keeping.{try_command-keeps}
use sunbolt.Sockets.Attached.{
  handle_terminal_reattach, attach, attach_to, welcome, send_all, terminate_terminal_session,
  clean_up, tell_expired, close_on_agent,
}
use sunbolt.Sockets.Bounded.{methods-IsKept}

module _ (c : TerminalSessionConfig) where
  send_all-sessions :
      (messages : List TerminalServerMessage) (w : AppState)
      → (send_all messages w).sessions ≡ w.sessions
  unfolding send_all emit
  send_all-sessions [] w = refl
  send_all-sessions (message ∷ messages) w = send_all-sessions messages (emit (sends message) w)

  welcome-IsBounded :
      (actor_email id : Text) (t : TerminalReattachTarget) (w : AppState)
      → IsBounded c w.sessions
      → IsBounded c (welcome actor_email id t w).sessions
  unfolding welcome record_event on_sessions emit step
  welcome-IsBounded actor_email id t w h =
      step-IsBounded c (sets_state id active) _
        (subst (IsBounded c) (sym (send_all-sessions t.replay _)) h)

  attach_to-sessions :
      (b : TerminalBackend) (output_rx : ℕ) (w : AppState)
      → (after_reattach (attach_to b output_rx w)).sessions ≡ w.sessions
  unfolding attach_to after_reattach
  attach_to-sessions (local_pty session) output_rx w = refl
  attach_to-sessions (remote command_tx) output_rx w = refl

  attach-IsBounded :
      (actor_email id : Text) (t : TerminalReattachTarget) (w : AppState)
      → IsBounded c w.sessions
      → IsBounded c (after_reattach (attach actor_email id t w)).sessions
  unfolding attach
  attach-IsBounded actor_email id t w h =
      subst (IsBounded c) (sym (attach_to-sessions t.backend t.output_rx _))
        (welcome-IsBounded actor_email id t w h)

  pub handle_terminal_reattach-IsBounded :
      (user : User) (id token : Text) (checked_at : ℕ) (new_token : Text) (now : ℕ) (w : AppState)
      → IsBounded c w.sessions
      → IsBounded c
          (after_reattach
            (handle_terminal_reattach user id token checked_at new_token now w)).sessions
  unfolding handle_terminal_reattach
  handle_terminal_reattach-IsBounded user id token checked_at new_token now w h =
      elim (Bool-cases (authorize_session_reattach user id checked_at w)) [
        | inr refused ↦
            rw (refused, handle_terminal_reattach) (unfold after_reattach send_error emit in h)
        | inl allowed ↦
            let moved : IsBounded c (reattach id token user.email new_token now w.sessions).1 =
              unfold step in
              step-IsBounded c (reattaches id token user.email new_token now) w.sessions h in
            elim (Option-cases (reattach id token user.email new_token now w.sessions).0) [
              | inl gone ↦
                  rw (allowed, gone, handle_terminal_reattach)
                    (unfold after_reattach send_error emit in moved)
              | inr (t, found) ↦
                  rw (allowed, found, handle_terminal_reattach)
                    (attach-IsBounded user.email id t _ moved)
            ]
      ]

  close_on_agent-IsBounded :
      (id : Text) (is_sent : Bool) (b : TerminalBackend) (w : AppState)
      → IsBounded c w.sessions
      → IsBounded c (close_on_agent id is_sent b w).sessions
  close_on_agent-IsBounded id is_sent (local_pty session) w h = h
  close_on_agent-IsBounded id is_sent (remote command_tx) w h =
      try_command-keeps id (IsBounded c) ((methods-IsKept c).at id) command_tx is_sent
        (close_terminal id) w h

  pub terminate_terminal_session-IsBounded :
      (user : User) (id : Text) (is_sent : Bool) (w : AppState)
      → IsBounded c w.sessions
      → IsBounded c (terminate_terminal_session user id is_sent w).1.sessions
  unfolding terminate_terminal_session record_event emit
  terminate_terminal_session-IsBounded user id is_sent w h =
      elim (Bool-cases (owner_matches id user.email w.sessions)) [
        | inr stranger ↦ rw (stranger, terminate_terminal_session) h
        | inl owner ↦ elim (Bool-cases (authorize_session_terminate user id w)) [
          | inr refused ↦ rw (owner, refused, terminate_terminal_session) h
          | inl allowed ↦
              let ended : IsBounded c (terminate id w.sessions).1 =
                unfold step in step-IsBounded c (terminates id) w.sessions h in
              elim (Option-cases (terminate id w.sessions).0) [
                | inl gone ↦ rw (owner, allowed, gone, terminate_terminal_session) ended
                | inr (b, found) ↦
                    rw (owner, allowed, found, terminate_terminal_session)
                      (close_on_agent-IsBounded id is_sent b _ ended)
              ]
        ]
      ]

  tell_expired-IsBounded :
      (is_sent : Text → Bool) (closed : List ClosedSession) (w : AppState)
      → IsBounded c w.sessions
      → IsBounded c (tell_expired is_sent closed w).sessions
  unfolding tell_expired record_event emit
  tell_expired-IsBounded is_sent [] w h = h
  tell_expired-IsBounded is_sent (k ∷ closed) w h =
      tell_expired-IsBounded is_sent closed _
        (close_on_agent-IsBounded k.session_id (is_sent k.session_id) k.backend _ h)

  pub clean_up-IsBounded :
      (now : ℕ) (is_sent : Text → Bool) (w : AppState)
      → IsBounded c w.sessions
      → IsBounded c (clean_up c now is_sent w).sessions
  unfolding clean_up
  clean_up-IsBounded now is_sent w h =
      tell_expired-IsBounded is_sent _ _
        (unfold step in step-IsBounded c (drains c.max_duration c.idle_timeout now) w.sessions h)
