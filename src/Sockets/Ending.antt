-- ===== src/Sockets/Ending.antt =====
-- The end of the loops of terminal/mod.rs: what they leave of the session, and that they come to it.
use sunbolt.Base.{
  ℕ, ◌++◌, ◌≡◌, ◌⊎◌, ◌∙◌, inl, inr, refl, ap, Bool, true, false, Option, none, some, List, [], ◌∷◌,
  Text, text_keys, Result, arith, Bool-cases,
}
use sunbolt.Terminal.{TerminalSessionState, detached, terminating}
use sunbolt.Terminal.Lifecycle.{index-injective}
use sunbolt.Protocol.{TerminalClientMessage, close_terminal}
use sunbolt.Registry.{TerminalSessionConfig, set_state}
use sunbolt.Registry.Queries.{state_of}
use sunbolt.Registry.Gone.{state_of-forget, state_of-terminate}
use sunbolt.Sockets.{AppState, on_sessions, record_event, emit}
use sunbolt.Sockets.Frames.{try_command}
use sunbolt.Sockets.Loops.{Loop, Progress, running, ended, is_detached}
use sunbolt.Sockets.Loops.Remote.{
  RemoteEvent, browser_leaves_remote, Attachment, remote_step, remote_loop, finish_remote,
}
use sunbolt.Sockets.Loops.Local.{LocalEvent, browser_leaves, local_step, local_loop, finish_local}

-- The session is gone or detached.
abbrev pub IsReleased : Text → AppState → Type 0
IsReleased id w = (state_of id w.sessions ≡ none) ⊎ (state_of id w.sessions ≡ some detached)

-- The loop has ended and the session is gone or detached.
abbrev pub IsSettled : Text → Progress → Type 0
IsSettled id (running _) = ⊥
IsSettled id (ended w) = IsReleased id w

is_detached_lem : (s : Option TerminalSessionState) → is_detached s ≡ true → s ≡ some detached
is_detached_lem none h = absurd (ground arith)
is_detached_lem (some s) h = ap some (index-injective s detached h)

pub try_command-sessions :
    (command_tx : ℕ) (is_sent : Bool) (id : Text) (w : AppState)
    → (try_command command_tx is_sent (close_terminal id) w).sessions ≡ w.sessions
unfolding try_command emit
try_command-sessions command_tx true id w = refl
try_command-sessions command_tx false id w = refl

finish_local-IsReleased :
    (actor_email id : Text) (l : Loop) → IsReleased id (finish_local actor_email id l)
unfolding finish_local record_event on_sessions emit
finish_local-IsReleased actor_email id l =
    elim (Bool-cases (is_detached (state_of id l.app.sessions))) [
      | inl stays ↦ rw (stays, finish_local) (inr (is_detached_lem _ stays))
      | inr goes ↦
          let gone = state_of-forget id (set_state id terminating l.app.sessions) in
          elim (Bool-cases l.failed) [
            | inl broken ↦ rw (goes, broken, finish_local) (inl gone)
            | inr fine ↦ rw (goes, fine, finish_local) (inl gone)
          ]
    ]

finish_remote-IsReleased :
    (actor_email : Text) (command_tx : ℕ) (id : Text) (is_sent : Bool) (l : Loop)
    → IsReleased id (finish_remote actor_email command_tx id is_sent l)
unfolding finish_remote record_event on_sessions emit
finish_remote-IsReleased actor_email command_tx id is_sent l =
    elim (Bool-cases (is_detached (state_of id l.app.sessions))) [
      | inl stays ↦ rw (stays, finish_remote) (inr (is_detached_lem _ stays))
      | inr goes ↦
          let gone =
            ap (state_of id) (try_command-sessions command_tx is_sent id _)
            ∙ state_of-terminate id l.app.sessions in
          elim (Bool-cases l.failed) [
            | inl broken ↦ rw (goes, broken, finish_remote) (inl gone)
            | inr fine ↦ elim (Bool-cases l.opened) [
              | inl was ↦ rw (goes, fine, was, finish_remote) (inl gone)
              | inr never ↦ rw (goes, fine, never, finish_remote) (inl gone)
            ]
          ]
    ]

module _ (from_str : Text → Result Text TerminalClientMessage) (id : Text) where
  local_loop-IsSettled :
      (c : TerminalSessionConfig) (actor_email : Text) (session : ℕ)
      (before after : List LocalEvent) (l : Loop)
      → IsSettled id
          (local_loop from_str c actor_email session id (before ++ browser_leaves ∷ after) l)
  unfolding local_loop
  local_loop-IsSettled c actor_email session [] after l =
      unfold local_step in finish_local-IsReleased actor_email id _
  local_loop-IsSettled c actor_email session (e ∷ before) after l =
      elim (Bool-cases (local_step from_str c actor_email session id e l).0) [
        | inl goes_on ↦ rw goes_on (local_loop-IsSettled c actor_email session before after _)
        | inr stops ↦ rw stops (finish_local-IsReleased actor_email id _)
      ]

  remote_loop-IsSettled :
      (a : Attachment) (is_closed : Bool) (before after : List RemoteEvent) (l : Loop)
      → IsSettled id
          (remote_loop from_str a id is_closed (before ++ browser_leaves_remote ∷ after) l)
  unfolding remote_loop
  remote_loop-IsSettled a is_closed [] after l =
      unfold remote_step in finish_remote-IsReleased a.user.email a.command_tx id is_closed _
  remote_loop-IsSettled a is_closed (e ∷ before) after l =
      elim (Bool-cases (remote_step from_str a id e l).0) [
        | inl goes_on ↦ rw goes_on (remote_loop-IsSettled a is_closed before after _)
        | inr stops ↦ rw stops (finish_remote-IsReleased a.user.email a.command_tx id is_closed _)
      ]

  -- Whatever comes before it and after it, the loop of a terminal on this host and the loop of one on a
  -- node have ended once their browser left, and then the registry says of the session that it is
  -- detached or that there is none.
  pub loops-IsSettled :
      (c : TerminalSessionConfig) (actor_email : Text) (session : ℕ)
      (before after : List LocalEvent) (l : Loop) (a : Attachment) (is_closed : Bool)
      (before' after' : List RemoteEvent) (l' : Loop)
      → IsSettled id
          (local_loop from_str c actor_email session id (before ++ browser_leaves ∷ after) l)
        × IsSettled id
            (remote_loop from_str a id is_closed (before' ++ browser_leaves_remote ∷ after') l')
  loops-IsSettled c actor_email session before after l a is_closed before' after' l' = (
    local_loop-IsSettled c actor_email session before after l,
    remote_loop-IsSettled a is_closed before' after' l',
  )
