-- ===== src/Registry/Replay.antt =====
-- The replay buffer: at most 128 messages, and the last ones that were pushed.
use mathlib.Core.List.{append_assoc, append-nil}
use sunbolt.Base.{
  text_keys, ℕ, suc, ◌≤◌, ◌-◌, ◌≡◌, refl, sym, ◌∙◌, ap, Text, List, [], ◌∷◌, ◌++◌, arith, length,
  drop, length-append, length-drop, drop-append, tail-drop, All, Bool-cases, inl, inr, nat_eq, true,
  false, some, leb,
}
use sunbolt.Base.Dict.{lookup}
use sunbolt.Protocol.{TerminalServerMessage}
use sunbolt.Registry.{
  TrackedTerminalSession, TerminalSessionConfig, push_replay, output_replay_capacity, move_state,
  empty,
}
use sunbolt.Registry.Calls.{
  Call, inserts, sets_state, touches, resizes, reattaches, outputs, remembers, terminates, forgets,
  drains, closes_node, run,
}
use sunbolt.Registry.Frame.{Preserves, run-Holds}

-- The last `n` elements.
abbrev pub take_last : ℕ → List TerminalServerMessage → List TerminalServerMessage
take_last n xs = drop (length xs - n) xs

-- A buffer that holds the last 128 of what was pushed does so after one more push.
push_replay-take_last :
    (seen : List TerminalServerMessage) (m : TerminalServerMessage)
    → push_replay (take_last output_replay_capacity seen) m
      ≡ take_last output_replay_capacity (seen ++ m ∷ [])
unfolding push_replay
push_replay-take_last seen m = elim (Bool-cases (leb 128 (length seen))) [
  | inl full ↦
      let k = length seen - 128 in
      let filled : nat_eq (length (drop k seen)) 128 ≡ true = ground (arith, length-drop k seen) in
      let size : suc k ≡ length (seen ++ m ∷ []) - 128 =
        ground (arith, length-append seen (m ∷ [])) in
      rw filled (
        ap (λ ys. ys ++ m ∷ []) (tail-drop k seen)
        ∙ sym (drop-append (suc k) seen (m ∷ []) (ground arith))
        ∙ ap (λ n. drop n (seen ++ m ∷ [])) size)
  | inr room ↦
      let none_dropped : length seen - 128 ≡ 0 = ground arith in
      let none_after : length (seen ++ m ∷ []) - 128 ≡ 0 =
        ground (arith, length-append seen (m ∷ [])) in
      let open_slot : nat_eq (length seen) 128 ≡ false = ground arith in
      rw (none_dropped, none_after, open_slot) refl
]

-- The messages of a session, pushed one after the other.
pub push_all : List TerminalServerMessage → List TerminalServerMessage → List TerminalServerMessage
push_all replay [] = replay
push_all replay (m ∷ ms) = push_all (push_replay replay m) ms

push_all_from :
    (seen ms : List TerminalServerMessage)
    → push_all (take_last output_replay_capacity seen) ms
      ≡ take_last output_replay_capacity (seen ++ ms)
unfolding push_all
push_all_from seen [] = ap (take_last output_replay_capacity) (sym (append-nil seen))
push_all_from seen (m ∷ ms) =
    ap (λ replay. push_all replay ms) (push_replay-take_last seen m)
    ∙ push_all_from (seen ++ m ∷ []) ms
    ∙ ap (take_last output_replay_capacity) (append_assoc seen (m ∷ []) ms)

-- Pushing any messages, one after the other, into the empty buffer of a new session leaves exactly
-- the last 128 of them, in order.
pub push_all-take_last :
    (ms : List TerminalServerMessage) → push_all [] ms ≡ take_last output_replay_capacity ms
push_all-take_last ms = push_all_from [] ms

length-push_replay :
    (replay : List TerminalServerMessage) (m : TerminalServerMessage)
    → length replay ≤ output_replay_capacity
    → length (push_replay replay m) ≤ output_replay_capacity
unfolding push_replay
length-push_replay [] m h = ground arith
length-push_replay (x ∷ replay) m h =
    ground (arith, length-append replay (m ∷ []), length-append (x ∷ replay) (m ∷ []))

abbrev pub IsShort : TrackedTerminalSession → Type 0
IsShort s = length s.replay ≤ output_replay_capacity

every_call : (c : TerminalSessionConfig) (id : Text) (call : Call) → Preserves IsShort id c call
unfolding move_state
every_call c id (inserts request token tx now) = λ _. omega arith
every_call c id (sets_state _ state) = λ s h. ground arith
every_call c id (touches _ now) = λ s h. h
every_call c id (resizes _ size) = λ s h. h
every_call c id (reattaches _ _ _ _ _) = λ s h. h
every_call c id (outputs _ _) = λ s h. length-push_replay s.replay _ h
every_call c id (remembers _) = λ s h. length-push_replay s.replay _ h
every_call c id (terminates _) = tt
every_call c id (forgets _) = tt
every_call c id (drains _ _ _) = tt
every_call c id (closes_node _) = tt

All-calls :
    (c : TerminalSessionConfig) (id : Text) (calls : List Call) → All (Preserves IsShort id c) calls
All-calls c id [] = tt
All-calls c id (call ∷ calls) = (every_call c id call, All-calls c id calls)

-- After any sequence of calls on a new registry, no session's replay buffer holds more than 128
-- messages.
pub replay_bounded :
    (c : TerminalSessionConfig) (calls : List Call) (id : Text) (s : TrackedTerminalSession)
    → lookup id (run c calls empty).sessions ≡ some s
    → length s.replay ≤ output_replay_capacity
unfolding empty
replay_bounded c calls id s found =
    run-Holds IsShort id c calls empty (All-calls c id calls)
      (λ v impossible. unfold lookup in absurd (cc)) s found
