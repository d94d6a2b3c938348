-- ===== src/Terminal/Lifecycle.antt =====
-- The order of the lifecycle states: what a session can become once it is over.
use sunbolt.Base.{◌≡◌, true, false, nat_eq, arith}
use sunbolt.Terminal.{TerminalSessionState, can_transition_to, is_reattachable, is_terminal, index}

-- Paths of transitions.
pub data PathTo (s : TerminalSessionState) : TerminalSessionState → Type 0 where
  here : PathTo s s
  next : {t u : TerminalSessionState} → PathTo s t → can_transition_to t u ≡ true → PathTo s u

-- No transition leads from a terminal state back to one that counts as live.
pub terminal_stays :
    (s t : TerminalSessionState)
    → can_transition_to s t ≡ true
    → is_terminal s ≡ true
    → is_terminal t ≡ true
unfolding can_transition_to is_terminal
terminal_stays s t h k = ground arith

pub terminal_not_reattachable :
    (s : TerminalSessionState) → is_terminal s ≡ true → is_reattachable s ≡ false
unfolding is_terminal is_reattachable
terminal_not_reattachable s h = ground arith

-- The number of a state tells it apart.
pub index-injective : (s t : TerminalSessionState) → nat_eq (index s) (index t) ≡ true → s ≡ t
index-injective s t h = ground arith

Path-terminal :
    {s t : TerminalSessionState} → PathTo s t → is_terminal s ≡ true → is_terminal t ≡ true
Path-terminal here h = h
Path-terminal (next {t} {u} p e) h = terminal_stays t u e (Path-terminal p h)

-- Along any sequence of transitions from a terminal state (terminated, failed or expired) every
-- later state is terminal and none can be reattached.
pub terminal_forever :
    {s t : TerminalSessionState}
    → PathTo s t
    → is_terminal s ≡ true
    → (is_terminal t ≡ true) × (is_reattachable t ≡ false)
terminal_forever {t} p h = let over = Path-terminal p h in (over, terminal_not_reattachable t over)
