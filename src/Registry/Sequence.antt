-- ===== src/Registry/Sequence.antt =====
-- Output sequence numbers of one session.
use sunbolt.Base.{
  ℕ, ◌≤◌, ◌<◌, ◌+◌, ◌≡◌, ◌≢◌, Text, text_keys, text_eq_refl, Bool-cases, List, [], ◌∷◌, arith, All,
  Option-cases, inl, inr, some,
}
use sunbolt.Base.Dict.{lookup, lookup-modify}
use sunbolt.Protocol.{output}
use sunbolt.Registry.{
  Registry, TrackedTerminalSession, TerminalSessionConfig, u64_max, move_state, record_output,
  push_output,
}
use sunbolt.Registry.Calls.{
  Call, inserts, sets_state, touches, resizes, reattaches, outputs, remembers, terminates, forgets,
  drains, closes_node, run,
}
use sunbolt.Registry.Frame.{Preserves, run-Holds, Holds}

-- Calls that do not put a new session under `id`.
abbrev pub LeavesInPlace : Text → Call → Type 0
LeavesInPlace id (inserts request _ _ _) = request.session_id ≢ id
LeavesInPlace id _ = Unit {0}

module _ (n : ℕ) where
  abbrev IsPast : TrackedTerminalSession → Type 0
  IsPast s = n ≤ s.next_output_sequence

  IsPast-call :
      (c : TerminalSessionConfig) (id : Text) (call : Call)
      → n ≤ u64_max
      → LeavesInPlace id call
      → Preserves IsPast id c call
  unfolding move_state
  IsPast-call c id (inserts request token tx now) b other = λ e. absurd (other e)
  IsPast-call c id (sets_state _ state) b _ = λ s h. ground arith
  IsPast-call c id (touches _ now) b _ = λ s h. h
  IsPast-call c id (resizes _ size) b _ = λ s h. h
  IsPast-call c id (reattaches _ _ _ _ _) b _ = λ s h. h
  IsPast-call c id (outputs _ _) b _ = λ s h. omega arith
  IsPast-call c id (remembers _) b _ = λ s h. h
  IsPast-call c id (terminates _) b _ = tt
  IsPast-call c id (forgets _) b _ = tt
  IsPast-call c id (drains _ _ _) b _ = tt
  IsPast-call c id (closes_node _) b _ = tt

  IsPast-calls :
      (c : TerminalSessionConfig) (id : Text) (calls : List Call)
      → n ≤ u64_max
      → All (LeavesInPlace id) calls
      → All (Preserves IsPast id c) calls
  IsPast-calls c id [] b h = tt
  IsPast-calls c id (call ∷ calls) b h =
      (IsPast-call c id call b h.0, IsPast-calls c id calls b h.1)

record_output-Past :
    (id payload : Text) (r : Registry) {a : ℕ} {d : Text}
    → (record_output id payload r).0 ≡ some (output id a d)
    → a < u64_max
    → Holds (IsPast (a + 1)) id (record_output id payload r).1
unfolding record_output
record_output-Past id payload r {a} {d} e h s found = elim (Bool-cases r.poisoned) [
  | inl bad ↦ absurd (ground arith)
  | inr good ↦ elim (Option-cases (lookup id r.sessions)) [
    | inl gone ↦ absurd (ground arith)
    | inr (s0, there) ↦
        ground (arith, lookup-modify id id (push_output id payload) r.sessions, text_eq_refl id)
  ]
]

-- An output carries the counter of its session.
record_output-counter :
    (id payload : Text) (r : Registry) {b : ℕ} {d : Text}
    → (record_output id payload r).0 ≡ some (output id b d)
    → (s : TrackedTerminalSession) × (lookup id r.sessions ≡ some s) × (s.next_output_sequence ≡ b)
unfolding record_output
record_output-counter id payload r e = elim (Bool-cases r.poisoned) [
  | inl bad ↦ absurd (ground arith)
  | inr good ↦ elim (Option-cases (lookup id r.sessions)) [
    | inl gone ↦ absurd (ground arith)
    | inr (s, there) ↦ (s, there, ground arith)
  ]
]

-- Two outputs of one session, with any calls between them that do not replace the session, carry
-- rising sequence numbers, up to the saturation of the counter at `u64::MAX`.
pub output_sequence_rises :
    (c : TerminalSessionConfig) (calls : List Call) (id first second : Text) (r : Registry)
    (a b : ℕ) (d e : Text)
    → All (LeavesInPlace id) calls
    → (record_output id first r).0 ≡ some (output id a d)
    → (record_output id second (run c calls (record_output id first r).1)).0 ≡ some (output id b e)
    → a < u64_max
    → a < b
output_sequence_rises c calls id first second r a b d e stays p q h =
    let (s, there, counter) = record_output-counter id second _ q in
    let past =
      run-Holds (IsPast (a + 1)) id c calls (record_output id first r).1
        (IsPast-calls (a + 1) c id calls (omega arith) stays) (record_output-Past id first r p h) s
        there in
    omega arith
