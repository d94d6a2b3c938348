-- ===== src/Terminal.antt =====
-- crates/sunbolt-terminal/src/lib.rs: the lifecycle states of a terminal session.
pub mod Lifecycle
use sunbolt.Base.{ℕ, Bool, true, false}

pub data TerminalSessionState : Type 0 where
  created starting active detached reattaching : TerminalSessionState
  terminating terminated failed expired : TerminalSessionState

-- `TerminalSessionState::can_transition_to`
unfoldable pub can_transition_to : TerminalSessionState → TerminalSessionState → Bool
can_transition_to created starting = true
can_transition_to starting active = true
can_transition_to starting failed = true
can_transition_to active detached = true
can_transition_to active terminating = true
can_transition_to active failed = true
can_transition_to active expired = true
can_transition_to detached reattaching = true
can_transition_to detached terminating = true
can_transition_to detached failed = true
can_transition_to detached expired = true
can_transition_to reattaching active = true
can_transition_to reattaching terminating = true
can_transition_to reattaching failed = true
can_transition_to terminating terminated = true
can_transition_to failed terminated = true
can_transition_to expired terminated = true
can_transition_to _ _ = false

-- `TerminalSessionState::is_reattachable`
unfoldable pub is_reattachable : TerminalSessionState → Bool
is_reattachable active = true
is_reattachable detached = true
is_reattachable reattaching = true
is_reattachable _ = false

-- `TerminalSessionState::is_terminal`
unfoldable pub is_terminal : TerminalSessionState → Bool
is_terminal terminated = true
is_terminal failed = true
is_terminal expired = true
is_terminal _ = false

-- The derived `PartialEq`.
abbrev pub index : TerminalSessionState → ℕ
index created = 0
index starting = 1
index active = 2
index detached = 3
index reattaching = 4
index terminating = 5
index terminated = 6
index failed = 7
index expired = 8
