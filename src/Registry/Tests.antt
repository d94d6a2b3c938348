-- ===== src/Registry/Tests.antt =====
-- Concrete registries, runs on them, and the theorems at those inputs.
use sunbolt.Base.{
  ◌≤◌, ◌<◌, ◌≡◌, ◌≢◌, refl, inl, false, Text, text, text_keys, List, [], ◌∷◌, some, none, arith,
  length, err,
}
use sunbolt.Base.Dict.{lookup, insert, remove, modify, count, keys}
use sunbolt.Terminal.{
  active, detached, reattaching, terminated, expired, can_transition_to, is_reattachable,
  is_terminal,
}
use sunbolt.Terminal.Lifecycle.{here, next, terminal_forever}
use sunbolt.Protocol.{pong, output}
use sunbolt.Registry.{
  Registry, TrackedTerminalSession, TerminalSessionInsert, TerminalSessionConfig, local_pty, fresh,
  empty, target, renew, insert_backend, per_user, touch, set_state, reattach, may_reattach,
  record_output, move_state, push_replay, drain_expired, close_sessions_for_node, close_each,
  remove_tracked, live_on, get,
}
use sunbolt.Registry.Calls.{inserts, touches, outputs, sets_state, step, run, Call}
use sunbolt.Registry.Bounded.{IsBounded, run-IsBounded}
use sunbolt.Registry.Replay.{push_all, push_all-take_last, replay_bounded}
use sunbolt.Registry.Sequence.{output_sequence_rises}
use sunbolt.Registry.Reattach.{Entitled, reattach_lem, reattach_once}
use sunbolt.Registry.Sweep.{Sweeps, is_past_limits, close_node_exact, drain_exact}
use sunbolt.Registry.States.{set_state_lem, reattach_skips_detached}

abbrev alice : Text
alice = text "alice"

abbrev term : Text
term = text "term-1"

abbrev rack : Text
rack = text "rack-1"

abbrev limits : TerminalSessionConfig
limits = record {
  max_sessions = 4;
  max_sessions_per_user = 1;
  max_sessions_per_node = 2;
  idle_timeout = 60;
  max_duration = 900;
  disconnect_grace = 5;
}

abbrev request : TerminalSessionInsert
request = record {
  session_id = term;
  backend = local_pty 7;
  size = record { cols = 80; rows = 24 };
  config = limits;
  actor_email = alice;
  node_id = some rack;
  transport_status = none;
}

abbrev attached : TrackedTerminalSession
attached = record (fresh request (text "t0") 3 10) { state = active }

-- One active session of Alice on the node `rack-1`.
abbrev one_session : Registry
one_session = record { poisoned = false; sessions = (term, attached) ∷ []; closed = [] }

abbrev history : List Call
history =
    inserts request (text "t0") 3 10
    ∷ sets_state term active
    ∷ outputs term (text "hi")
    ∷ inserts (record request { session_id = text "term-2" }) (text "t1") 4 11
    ∷ []

-- The second session of the same user is refused.
second_refused :
    insert_backend (record request { session_id = text "term-2" }) (text "t1") 4 11 one_session
    ≡ (err per_user, one_session)
unfolding insert_backend count is_terminal
second_refused = refl

closes_on_node :
    (close_sessions_for_node rack one_session).1
    ≡ record { poisoned = false; sessions = []; closed = 7 ∷ [] }
unfolding close_sessions_for_node close_each remove_tracked keys modify lookup remove is_terminal
closes_on_node = refl

run-IsBounded_example : IsBounded limits (run limits history empty)
run-IsBounded_example = run-IsBounded limits history

push_all-take_last_example : push_all [] (pong alice ∷ pong rack ∷ []) ≡ pong alice ∷ pong rack ∷ []
push_all-take_last_example = push_all-take_last (pong alice ∷ pong rack ∷ [])

abbrev after_history : TrackedTerminalSession
after_history = record attached {
  replay = output term 1 (text "hi") ∷ [];
  next_output_sequence = 2;
}

replay_bounded_test : length after_history.replay ≤ 128
unfolding run step insert_backend set_state move_state record_output lookup modify insert remove
    count is_terminal can_transition_to push_replay empty
replay_bounded_test = replay_bounded limits history term after_history refl

output_sequence_rises_example : ◌<◌ 1 2
unfolding run step record_output lookup modify touch push_replay
output_sequence_rises_example =
    output_sequence_rises limits (touches term 20 ∷ []) term (text "a") (text "b") one_session 1 2
      (text "a") (text "b") (tt, tt) refl refl (omega arith)

entitled : Entitled (text "t0") alice attached
unfolding is_reattachable
entitled = record { owner = refl; state = refl; current = refl }

reattach_lem_test :
    (reattach term (text "t0") alice (text "t1") 30 one_session).0
    ≡ some (target (renew (text "t1") 30 attached))
unfolding lookup
reattach_lem_test =
    ((reattach_lem term (text "t0") alice (text "t1") 30 one_session attached refl).0 entitled).0

t1_ne_t0 : text "t1" ≢ text "t0"
t1_ne_t0 e = ground arith

reattach_once_example :
    (reattach term (text "t0") alice (text "t2") 50 (
      run limits
        (touches term 40 ∷ [])
        (reattach term (text "t0") alice (text "t1") 30 one_session).1)).0
    ≡ none
unfolding lookup reattach may_reattach is_reattachable
reattach_once_example =
    reattach_once limits (touches term 40 ∷ []) term term (text "t0") alice alice (text "t1")
      (text "t2") 30 50 one_session (target (renew (text "t1") 30 attached)) refl
      (λ apart. absurd (apart refl)) t1_ne_t0 (tt, tt)

close_node_exact_example :
    Sweeps (live_on (some rack)) one_session (close_sessions_for_node rack one_session)
unfolding lookup
close_node_exact_example = close_node_exact rack one_session refl (refl, tt)

drain_exact_example :
    Sweeps (is_past_limits 900 60 1000) one_session (drain_expired 900 60 1000 one_session)
unfolding lookup
drain_exact_example = drain_exact 900 60 1000 one_session refl (refl, tt)

set_state_lem_test :
    get term (set_state term detached one_session) ≡ some (record attached { state = detached })
unfolding lookup can_transition_to
set_state_lem_test = (set_state_lem term detached one_session attached refl).0 (inl refl)

reattach_skips_detached_test : can_transition_to active reattaching ≡ false
unfolding lookup
reattach_skips_detached_test =
    (reattach_skips_detached term (text "t0") alice (text "t1") 30 one_session attached refl
      entitled refl).1

terminal_forever_test : is_reattachable terminated ≡ false
unfolding can_transition_to is_terminal
terminal_forever_test = (terminal_forever {s = expired} (next here refl) refl).1
