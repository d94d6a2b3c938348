-- ===== src/Sockets/Isolation.antt =====
-- A terminal on this host touches no session but its own.
use sunbolt.Base.{
  ℕ, ◌≡◌, ◌≢◌, ◌∙◌, refl, Option, List, [], ◌∷◌, Text, text_keys, Result, Bool-cases, inl, inr,
}
use sunbolt.Base.Dict.{lookup}
use sunbolt.Protocol.{TerminalClientMessage}
use sunbolt.Registry.{Registry, TerminalSessionConfig, TrackedTerminalSession}
use sunbolt.Registry.Others.{
  set_state-others, detach-others, touch-others, set_size-others, forget-others, terminate-others,
}
use sunbolt.Sockets.{AppState}
use sunbolt.Sockets.Keeping.{IsKept}
use sunbolt.Sockets.Keeping.Steps.{local_step-keeps, finish_local-keeps}
use sunbolt.Sockets.Loops.{Loop, Progress, running, ended}
use sunbolt.Sockets.Loops.Local.{LocalEvent, local_step, local_loop}

-- The state of a loop that waits or has ended.
unfoldable pub reached : Progress → AppState
reached (running l) = l.app
reached (ended w) = w

module _ (id other : Text) (apart : id ≢ other) where
  abbrev IsStill : Option TrackedTerminalSession → Registry → Type 0
  IsStill s r = lookup other r.sessions ≡ s

  others-IsKept : (s : Option TrackedTerminalSession) → IsKept id (IsStill s)
  others-IsKept s = record {
    sets = λ state r h. set_state-others id other apart state r ∙ h;
    detaches = λ r h. detach-others id other apart r ∙ h;
    touches = λ now r h. touch-others id other apart now r ∙ h;
    resizes = λ size r h. set_size-others id other apart size r ∙ h;
    forgets = λ r h. forget-others id other apart r ∙ h;
    terminates = λ r h. terminate-others id other apart r ∙ h;
  }

  module _ (from_str : Text → Result Text TerminalClientMessage) (c : TerminalSessionConfig)
      (actor_email : Text) (session : ℕ) where
    local_loop-IsStill :
        (s : Option TrackedTerminalSession) (events : List LocalEvent) (l : Loop)
        → IsStill s l.app.sessions
        → IsStill s (reached (local_loop from_str c actor_email session id events l)).sessions
    unfolding local_loop reached
    local_loop-IsStill s [] l h = h
    local_loop-IsStill s (e ∷ events) l h =
        let kept =
          local_step-keeps id (IsStill s) (others-IsKept s) from_str c actor_email session e l h in
        elim (Bool-cases (local_step from_str c actor_email session id e l).0) [
          | inl goes_on ↦ rw goes_on (local_loop-IsStill s events _ kept)
          | inr stops ↦
              rw stops (finish_local-keeps id (IsStill s) (others-IsKept s) actor_email _ kept)
        ]

    -- Whatever a terminal on this host is sent and whatever it says, its loop and the end of the loop
    -- leave every other session of the registry as it was.
    pub local_loop-others :
        (events : List LocalEvent) (l : Loop)
        → lookup other
            (reached (local_loop from_str c actor_email session id events l)).sessions.sessions
          ≡ lookup other l.app.sessions.sessions
    local_loop-others events l =
        local_loop-IsStill (lookup other l.app.sessions.sessions) events l refl
