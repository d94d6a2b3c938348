-- ===== src/Transport/Backoff.antt =====
-- The delays of `AgentTransportReconnectPolicy::delay_for_attempt`.
use sunbolt.Base.{
  ℕ, zero, suc, ◌*◌, ◌^◌, ◌≤◌, ◌≡◌, sym, ap, ◌∙◌, min, max, Bool-cases, leb, leb→le, arith, inl,
  inr,
}
use native.Mathlib.Nat.{mul_assoc, pow-zero, pow-succ', one-le-pow, pow-le-pow_right}
use sunbolt.Transport.{AgentTransportReconnectPolicy, delay_from, delay_for_attempt, u64_max}

le_mul : (a b c : ℕ) → a ≤ b → 1 ≤ c → a ≤ b * c
le_mul a b c h p = grind arith

mul_le : (d a b : ℕ) → a ≤ b → d * a ≤ d * b
mul_le d a b h = grind arith

mul_pow : (d m n : ℕ) → d * m * m ^ n ≡ d * m ^ suc n
mul_pow d m n = mul_assoc d m (m ^ n) ∙ ap (λ k. d * k) (sym (pow-succ' m n))

mul_one : (d : ℕ) → d * 1 ≡ d
mul_one d = omega arith

-- Past the bound a further factor changes nothing.
bounded_product : (x k bound : ℕ) → 1 ≤ k → bound ≤ x → min (x * k) bound ≡ bound
bounded_product x k bound h l = omega (arith, le_mul bound x k l h)

-- Without saturation the loop multiplies, and the bound is applied at the end.
delay_from_lem :
    (p : AgentTransportReconnectPolicy) (left delay : ℕ)
    → p.max_backoff_ms ≤ u64_max
    → delay_from p left delay ≡ min (delay * max p.multiplier 1 ^ left) p.max_backoff_ms
unfolding delay_from
delay_from_lem p zero delay h =
    ap (λ d. min d p.max_backoff_ms)
      (sym (ap (λ k. delay * k) (pow-zero (max p.multiplier 1)) ∙ mul_one delay))
delay_from_lem p (suc left) delay h =
    let x = delay * max p.multiplier 1 in
    let k = max p.multiplier 1 ^ left in
    let longer = min x u64_max in
    let product : min (x * k) p.max_backoff_ms
        ≡ min (delay * max p.multiplier 1 ^ suc left) p.max_backoff_ms =
      ap (λ d. min d p.max_backoff_ms) (mul_pow delay (max p.multiplier 1) left) in
    elim (Bool-cases (leb p.max_backoff_ms longer)) [
      | inl stops ↦ simp stops (
          sym (
            bounded_product x k p.max_backoff_ms
              (one-le-pow left (max p.multiplier 1) (omega arith))
              (omega (arith, leb→le p.max_backoff_ms longer stops)))
          ∙ product)
      | inr goes ↦ simp goes (
          delay_from_lem p left longer h
          ∙ ap (λ y. min (y * k) p.max_backoff_ms) (ground arith)
          ∙ product)
    ]

-- For a policy whose longest delay is a `u64`, the delay before attempt `n` is the first delay (at
-- least 1) times the n-th power of the multiplier (at least 1), or the longest delay if that is less.
pub delay_for_attempt_lem :
    (p : AgentTransportReconnectPolicy) (attempt : ℕ)
    → p.max_backoff_ms ≤ u64_max
    → delay_for_attempt p attempt
      ≡ min (max p.initial_backoff_ms 1 * max p.multiplier 1 ^ attempt) p.max_backoff_ms
unfolding delay_for_attempt
delay_for_attempt_lem p attempt h = delay_from_lem p attempt (max p.initial_backoff_ms 1) h

-- For a policy whose longest delay is a `u64`, the delay never falls from one attempt to a later one.
pub delay_for_attempt_monotone :
    (p : AgentTransportReconnectPolicy) (attempt later : ℕ)
    → p.max_backoff_ms ≤ u64_max
    → attempt ≤ later
    → delay_for_attempt p attempt ≤ delay_for_attempt p later
delay_for_attempt_monotone p attempt later h l =
    let first = max p.initial_backoff_ms 1 in
    let factor = max p.multiplier 1 in
    omega (
      arith,
      delay_for_attempt_lem p attempt h,
      delay_for_attempt_lem p later h,
      mul_le first (factor ^ attempt) (factor ^ later) (pow-le-pow_right (omega arith) l),
    )
