-- ===== src/Registry/Calls.antt =====
-- The methods of the registry as steps of one state machine. The control plane passes one
-- `TerminalSessionConfig` to every insertion.
use sunbolt.Base.{ℕ, Text, List, [], ◌∷◌}
use sunbolt.Terminal.{TerminalSessionState}
use sunbolt.Protocol.{TerminalSize, TerminalServerMessage}
use sunbolt.Registry.{
  Registry, TerminalSessionConfig, TerminalSessionInsert, insert_backend, set_state, touch,
  set_size, reattach, record_output, remember_server_message, terminate, forget, drain_expired,
  close_sessions_for_node,
}

pub data Call : Type 0 where
  inserts : TerminalSessionInsert → Text → ℕ → ℕ → Call
  sets_state : Text → TerminalSessionState → Call
  touches : Text → ℕ → Call
  resizes : Text → TerminalSize → Call
  reattaches : Text → Text → Text → Text → ℕ → Call
  outputs : Text → Text → Call
  remembers : TerminalServerMessage → Call
  terminates forgets : Text → Call
  drains : ℕ → ℕ → ℕ → Call
  closes_node : Text → Call

unfoldable pub step : TerminalSessionConfig → Call → Registry → Registry
step c (inserts request token output_tx now) r =
    (insert_backend (record request { config = c }) token output_tx now r).1
step c (sets_state id state) r = set_state id state r
step c (touches id now) r = touch id now r
step c (resizes id size) r = set_size id size r
step c (reattaches id token email new_token now) r = (reattach id token email new_token now r).1
step c (outputs id payload) r = (record_output id payload r).1
step c (remembers message) r = remember_server_message message r
step c (terminates id) r = (terminate id r).1
step c (forgets id) r = forget id r
step c (drains max_duration idle now) r = (drain_expired max_duration idle now r).1
step c (closes_node node_id) r = (close_sessions_for_node node_id r).1

unfoldable pub run : TerminalSessionConfig → List Call → Registry → Registry
run c [] r = r
run c (call ∷ calls) r = run c calls (step c call r)
