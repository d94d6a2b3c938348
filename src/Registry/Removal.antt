-- ===== src/Registry/Removal.antt =====
-- What the removing methods leave in the session table.
use sunbolt.Base.{◌≡◌, refl, ◌∙◌, ap, Text, text_keys, List, [], ◌∷◌, arith, false}
use sunbolt.Base.Dict.{remove}
use sunbolt.Base.Dict.Unique.{remove-none, remove-modify, remove_all}
use sunbolt.Terminal.{TerminalSessionState, terminating}
use sunbolt.Registry.{
  Registry, TrackedTerminalSession, remove_tracked, terminate, forget, close_each, write,
}

pub remove_tracked-sessions :
    (id : Text) (r : Registry) → (remove_tracked id r).1.sessions ≡ remove id r.sessions
unfolding remove_tracked
remove_tracked-sessions id r = ground (arith, remove-none id r.sessions)

-- A write to a session that is then removed leaves no trace.
pub remove_written :
    (id : Text) (f : TrackedTerminalSession → TrackedTerminalSession) (r : Registry)
    → (remove_tracked id (write id f r)).1.sessions ≡ remove id r.sessions
remove_written id f r = remove_tracked-sessions id _ ∙ remove-modify id f r.sessions

pub terminate-sessions :
    (id : Text) (r : Registry)
    → r.poisoned ≡ false
    → (terminate id r).1.sessions ≡ remove id r.sessions
unfolding terminate
terminate-sessions id r h =
    ground (arith, remove_written id (λ s. record s { state = terminating }) r)

pub forget-sessions :
    (id : Text) (r : Registry) → r.poisoned ≡ false → (forget id r).sessions ≡ remove id r.sessions
unfolding forget
forget-sessions id r h = simp h (remove_tracked-sessions id r)

pub close_each-sessions :
    (state : TerminalSessionState) (ids : List Text) (r : Registry)
    → (close_each state ids r).1.sessions ≡ remove_all ids r.sessions
unfolding close_each remove_all
close_each-sessions state [] r = refl
close_each-sessions state (id ∷ ids) r =
    close_each-sessions state ids _ ∙ ap (remove_all ids) (remove_written id _ r)
