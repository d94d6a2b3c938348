-- ===== src/Sockets/Access.antt =====
-- Who may end a session by a request and who may reattach to one.
use sunbolt.Base.{◌≡◌, ◌≢◌, ◌⊎◌, ◌∙◌, refl, ap, Bool, true, false, none, Text, Bool-cases, inl, inr}
use sunbolt.Registry.{TerminalBackend, local_pty, remote}
use sunbolt.Registry.Queries.{state_of, owner_matches}
use sunbolt.Registry.Gone.{state_of-terminate, terminate-owned}
use sunbolt.Auth.{User}
use sunbolt.Sockets.{AppState, emit, record_event, authorize_session_terminate}
use sunbolt.Sockets.Attached.{
  TerminateAnswer, ended_session, close_on_agent, terminate_terminal_session,
}
use sunbolt.Sockets.Ending.{try_command-sessions}

close_on_agent-sessions :
    (id : Text) (is_sent : Bool) (b : TerminalBackend) (w : AppState)
    → (close_on_agent id is_sent b w).sessions ≡ w.sessions
close_on_agent-sessions id is_sent (local_pty _) w = refl
close_on_agent-sessions id is_sent (remote command_tx) w =
    try_command-sessions command_tx is_sent id w

module _ (user : User) (id : Text) (is_sent : Bool) (w : AppState) where
  abbrev answer : TerminateAnswer × AppState
  answer = terminate_terminal_session user id is_sent w

  -- The owner, with the right to end the session, who finds it gone afterwards.
  abbrev pub IsEnded : Type 0
  IsEnded =
      (answer.0 ≡ ended_session)
      × (owner_matches id user.email w.sessions ≡ true)
      × (authorize_session_terminate user id w ≡ true)
      × (state_of id answer.1.sessions ≡ none)

  -- Someone else, or an owner without that right; nothing happens.
  abbrev pub IsDenied : Type 0
  IsDenied =
      (answer.0 ≢ ended_session)
      × ((owner_matches id user.email w.sessions ≡ false)
          ⊎ (authorize_session_terminate user id w ≡ false))
      × (answer.1 ≡ w)

  -- A request to end a session either comes from its owner, with the right to end it on its node,
  -- and then it is ended and out of the registry; or it is answered as a failure and changes nothing.
  pub terminate_terminal_session_lem : IsEnded ⊎ IsDenied
  unfolding terminate_terminal_session record_event emit
  terminate_terminal_session_lem = elim (Bool-cases (owner_matches id user.email w.sessions)) [
    | inr stranger ↦ inr (rw (stranger, terminate_terminal_session) (λ e. cc, inl refl, refl))
    | inl owner ↦ elim (Bool-cases (authorize_session_terminate user id w)) [
      | inr refused ↦
          inr (rw (owner, refused, terminate_terminal_session) (λ e. cc, inr refl, refl))
      | inl allowed ↦
          let (b, found) = terminate-owned id user.email w.sessions owner in
          inl (
            rw (owner, allowed, found, terminate_terminal_session)
              (
                refl,
                refl,
                refl,
                ap (state_of id) (close_on_agent-sessions id is_sent b _)
                    ∙ state_of-terminate id w.sessions,
              ))
    ]
  ]
