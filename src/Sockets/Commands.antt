-- ===== src/Sockets/Commands.antt =====
-- What a frame of the browser makes the control plane tell an agent.
use mathlib.Core.List.{append_assoc}
use sunbolt.Base.{
  ℕ, ◌++◌, ◌≡◌, refl, Bool, true, List, [], ◌∷◌, All, Text, text_eq, text_eq_iff, Result,
  Bool-cases, Result-cases, inl, inr,
}
use sunbolt.Protocol.{
  AgentTerminalCommand, TerminalClientMessage, start_terminal, write_input, resize_terminal,
  close_terminal, start_message, input_message, resize_message, close_message, terminate_message,
  detach_message, reattach_message, ping_message,
}
use sunbolt.Auth.{User}
use sunbolt.Sockets.{
  AppState, Effect, Message, sends, commands, records, emit, on_sessions, send_error, record_event,
  audit_terminal_detached, authorize_session_terminate, parse_client_message,
}
use sunbolt.Sockets.Frames.{
  if_matches, send_command, try_command, close_remote_terminal, handle_remote_message,
  handle_remote_client_frame,
}

abbrev pub command_session : AgentTerminalCommand → Text
command_session (start_terminal id _) = id
command_session (write_input id _) = id
command_session (resize_terminal id _) = id
command_session (close_terminal id) = id

-- Only a command to close a terminal asks for a right of its own.
abbrev pub IsAllowed : User → Text → AppState → AgentTerminalCommand → Type 0
IsAllowed user id w (close_terminal _) = authorize_session_terminate user id w ≡ true
IsAllowed user id w _ = Unit

-- An effect that a socket of `user` for the terminal `id` may have: an answer to the browser, an audit
-- event, or a command for this terminal on its channel, to close it only if `user` may end it.
abbrev pub IsOwn : User → ℕ → Text → AppState → Effect → Type 0
IsOwn user command_tx id w (sends _) = Unit
IsOwn user command_tx id w (records _) = Unit
IsOwn user command_tx id w (commands tx command) =
    (tx ≡ command_tx) × (command_session command ≡ id) × IsAllowed user id w command
IsOwn user command_tx id w _ = ⊥

-- The effects `after` are those `before`, then others that satisfy `P`.
abbrev pub Adds : (Effect → Type 0) → List Effect → List Effect → Type 0
Adds P before after = (new : List Effect) × ((after ≡ before ++ new) × All P new)

module _ (P : Effect → Type 0) (before : List Effect) where
  one-Adds : (e : Effect) → P e → Adds P before (before ++ e ∷ [])
  one-Adds e h = (e ∷ [], (refl, (h, tt)))

  two-Adds : (e e' : Effect) → P e → P e' → Adds P before ((before ++ e ∷ []) ++ e' ∷ [])
  two-Adds e e' h h' = (e ∷ e' ∷ [], (append_assoc before (e ∷ []) (e' ∷ []), (h, (h', tt))))

module _ (user : User) (command_tx : ℕ) (id : Text) (is_sent : Bool) (w : AppState) where
  abbrev Own : Effect → Type 0
  Own = IsOwn user command_tx id w

  if_matches-Adds :
      (received : Text) (handle : AppState → Bool × AppState)
      → (received ≡ id → Adds Own w.effects (handle w).1.effects)
      → Adds Own w.effects (if_matches received id handle w).1.effects
  unfolding if_matches send_error emit
  if_matches-Adds received handle h = elim (Bool-cases (text_eq received id)) [
    | inl same ↦ rw (same, if_matches) (h ((text_eq_iff received id).0 same))
    | inr other ↦ rw (other, if_matches) (one-Adds Own w.effects _ tt)
  ]

  send_command-Adds :
      (command : AgentTerminalCommand)
      → Own (commands command_tx command)
      → Adds Own w.effects (send_command command_tx id is_sent command w).1.effects
  unfolding send_command send_error emit
  send_command-Adds command h = elim (Bool-cases is_sent) [
    | inl taken ↦ rw taken (one-Adds Own w.effects _ h)
    | inr lost ↦ rw lost (one-Adds Own w.effects _ tt)
  ]

  close_remote_terminal-Adds :
      (received : Text)
      → received ≡ id
      → Adds Own w.effects
          (close_remote_terminal user user.email command_tx id is_sent received w).1.effects
  unfolding close_remote_terminal try_command send_error record_event on_sessions emit
  close_remote_terminal-Adds received same =
      elim (Bool-cases (authorize_session_terminate user id w)) [
        | inr refused ↦ rw (refused, close_remote_terminal) (one-Adds Own w.effects _ tt)
        | inl allowed ↦ elim (Bool-cases is_sent) [
          | inl taken ↦
              rw (allowed, taken, close_remote_terminal)
                (two-Adds Own w.effects _ _ tt (refl, same, allowed))
          | inr lost ↦ rw (allowed, lost, close_remote_terminal) (one-Adds Own w.effects _ tt)
        ]
      ]

  handle_remote_message-Adds :
      (message : TerminalClientMessage)
      → Adds Own w.effects
          (handle_remote_message user user.email command_tx id is_sent message w).1.effects
  unfolding handle_remote_message audit_terminal_detached send_error record_event on_sessions emit
  handle_remote_message-Adds (input_message received payload) =
      if_matches-Adds received _
        λ same. send_command-Adds (write_input received payload) (refl, same, tt)
  handle_remote_message-Adds (resize_message received size) =
      if_matches-Adds received _
        λ same. send_command-Adds (resize_terminal received size) (refl, same, tt)
  handle_remote_message-Adds (close_message received) =
      if_matches-Adds received _ (close_remote_terminal-Adds received)
  handle_remote_message-Adds (terminate_message received) =
      if_matches-Adds received _ (close_remote_terminal-Adds received)
  handle_remote_message-Adds (detach_message received) =
      if_matches-Adds received _ λ same. two-Adds Own w.effects _ _ tt tt
  handle_remote_message-Adds (reattach_message received _) =
      if_matches-Adds received _ λ same. one-Adds Own w.effects _ tt
  handle_remote_message-Adds (ping_message nonce) = one-Adds Own w.effects _ tt
  handle_remote_message-Adds (start_message _ _) = one-Adds Own w.effects _ tt

-- Whatever a browser writes into the socket of a terminal on a node, the frame adds only answers to
-- the browser, audit events and commands for that terminal on its agent's channel, and a command to
-- close it only if the user may end the session.
pub handle_remote_client_frame-IsOwn :
    (from_str : Text → Result Text TerminalClientMessage) (user : User) (command_tx : ℕ) (id : Text)
    (is_sent : Bool) (frame : Message) (w : AppState)
    → Adds
        (IsOwn user command_tx id w)
        w.effects
        (handle_remote_client_frame from_str user user.email command_tx id is_sent frame
          w).1.effects
unfolding handle_remote_client_frame emit
handle_remote_client_frame-IsOwn from_str user command_tx id is_sent frame w =
    elim (Result-cases (parse_client_message from_str frame)) [
      | inl (message, read) ↦
          rw (read, handle_remote_client_frame)
            (handle_remote_message-Adds user command_tx id is_sent w message)
      | inr (e, bad) ↦
          rw (bad, handle_remote_client_frame)
            (one-Adds (IsOwn user command_tx id w) w.effects _ tt)
    ]
