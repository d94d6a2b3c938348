-- ===== src/Transport/Stream.antt =====
-- What a receiver of terminal output accepts by `validate_next_terminal_output_sequence`.
use sunbolt.Base.{
  ℕ, ◌+◌, ◌≤◌, ◌≡◌, ◌↔◌, inl, inr, refl, sym, ap, ◌∙◌, List, [], ◌∷◌, Result, ok, arith, nat_eq,
  nat_eq_iff, min, Bool-cases, ◌>>◌,
}
use sunbolt.Transport.{AgentTransportProtocolError, u64_max, next, validate_next}

-- A receiver that checks each sequence number against the one before it and stops at an error.
unfoldable pub receive : ℕ → List ℕ → Result AgentTransportProtocolError (Unit {0})
receive previous [] = ok tt
receive previous (x ∷ xs) = let rest = receive x xs in validate_next previous x >> rest

-- The numbers that follow `previous`: one more each time, up to `u64::MAX`.
abbrev pub Follows : ℕ → List ℕ → Type 0
Follows previous [] = Unit
Follows previous (x ∷ xs) = (x ≡ min (previous + 1) u64_max) × Follows (previous + 1) xs

next_capped : (n : ℕ) → next (min n u64_max) ≡ min (n + 1) u64_max
unfolding next
next_capped n = omega arith

receive_right : (n : ℕ) (xs : List ℕ) → Follows n xs → receive (min n u64_max) xs ≡ ok tt
unfolding receive validate_next
receive_right n [] f = refl
receive_right n (x ∷ xs) (e, f) =
    let rest : receive x xs ≡ ok tt = ap (λ y. receive y xs) e ∙ receive_right (n + 1) xs f in
    ground (arith, rest, next_capped n)

receive_left : (n : ℕ) (xs : List ℕ) → receive (min n u64_max) xs ≡ ok tt → Follows n xs
unfolding receive validate_next
receive_left n [] r = tt
receive_left n (x ∷ xs) r = elim (Bool-cases (nat_eq x (next (min n u64_max)))) [
  | inl same ↦
      let e : x ≡ min (n + 1) u64_max =
        omega (arith, (nat_eq_iff x (next (min n u64_max))).0 same, next_capped n) in
      (e, receive_left (n + 1) xs (ap (λ y. receive y xs) (sym e) ∙ simp same at r))
  | inr other ↦ absurd (ground arith)
]

-- A receiver whose last sequence number is a `u64` accepts exactly the numbers that follow it, one
-- more each time; at `u64::MAX` it is that number again and again that is accepted.
pub receive_iff :
    (previous : ℕ) (xs : List ℕ)
    → previous ≤ u64_max
    → (receive previous xs ≡ ok tt) ↔ Follows previous xs
receive_iff previous xs h =
    let capped : min previous u64_max ≡ previous = omega arith in
    (
      λ r. receive_left previous xs (ap (λ y. receive y xs) capped ∙ r),
      λ f. ap (λ y. receive y xs) (sym capped) ∙ receive_right previous xs f,
    )
