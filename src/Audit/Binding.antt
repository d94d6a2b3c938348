-- ===== src/Audit/Binding.antt =====
-- What the last hash of a chain commits to (chain.rs), for a digest of 32 bytes.
use sunbolt.Base.{
  ℕ, ◌*◌, ◌≡◌, ◌≢◌, ◌⊎◌, inl, inr, refl, sym, ap, ap₂, ◌∙◌, true, List, [], ◌∷◌, ◌++◌, Text,
  text_eq, text_eq_iff, text_eq_sound, length, arith, Bool-cases, tail,
}
use sunbolt.Audit.{
  AuditEvent, genesis_hash, expected_hash, verify_from, verify_chain, compute_event_hash, canonical,
  hex_sha256,
}
use sunbolt.Base.Numerals.{hex}
use sunbolt.Audit.Kinds.{as_str}
use sunbolt.Audit.Chain.{last_from}

-- The text that `expected_hash` hashes.
abbrev pub covered : AuditEvent → Text
covered e =
    canonical e.id (as_str e.kind) e.actor_email e.message e.created_at_unix_secs e.previous_hash

-- Event by event the same covered texts.
abbrev pub SameCovered : List AuditEvent → List AuditEvent → Type 0
SameCovered [] [] = Unit
SameCovered (e ∷ xs) (f ∷ ys) = (covered e ≡ covered f) × SameCovered xs ys
SameCovered _ _ = ⊥

length-hex : (bytes : List ℕ) → length (hex bytes) ≡ 2 * length bytes
unfolding hex
length-hex [] = refl
length-hex (b ∷ bytes) = omega (arith, length-hex bytes)

head_or : ℕ → Text → ℕ
head_or d [] = d
head_or d (x ∷ xs) = x

-- Prefixes of one length of equal texts are equal.
prefix-equal : (xs ys a b : Text) → length xs ≡ length ys → xs ++ a ≡ ys ++ b → xs ≡ ys
prefix-equal [] [] a b l e = refl
prefix-equal [] (y ∷ ys) a b l e = absurd (omega arith)
prefix-equal (x ∷ xs) [] a b l e = absurd (omega arith)
prefix-equal (x ∷ xs) (y ∷ ys) a b l e =
    ap₂ ◌∷◌ (unfold head_or in ap (head_or 0) e) (prefix-equal xs ys a b (omega arith) (ap tail e))

module _ (digest : List ℕ → List ℕ) where
  -- Two texts that the hash does not tell apart.
  abbrev pub Collides : Text → Text → Type 0
  Collides a b = (a ≢ b) × (hex_sha256 digest a ≡ hex_sha256 digest b)

  -- At some position the covered texts differ and have the same hash.
  abbrev pub SomeCollides : List AuditEvent → List AuditEvent → Type 0
  SomeCollides (e ∷ xs) (f ∷ ys) = Collides (covered e) (covered f) ⊎ SomeCollides xs ys
  SomeCollides _ _ = ⊥

  same_or_Collides :
      (a b : Text) → hex_sha256 digest a ≡ hex_sha256 digest b → Collides a b ⊎ (a ≡ b)
  same_or_Collides a b e = elim (Bool-cases (text_eq a b)) [
    | inl same ↦ inr (text_eq_sound a b same)
    | inr differ ↦ inl ((λ h. ground (arith, text_eq_iff a b)), e)
  ]

  length-hex_sha256 :
      ((x : Text) → length (digest x) ≡ 32) → (t : Text) → length (hex_sha256 digest t) ≡ 64
  unfolding hex_sha256
  length-hex_sha256 wide t = length-hex (digest t) ∙ ap (λ n. 2 * n) (wide t)

  -- What a chain that starts with an event says of it.
  verified_head :
      (start : Text) (e : AuditEvent) (events : List AuditEvent)
      → verify_from digest start (e ∷ events) ≡ true
      → (e.previous_hash ≡ start)
        × (e.event_hash ≡ hex_sha256 digest (covered e))
        × (verify_from digest e.event_hash events ≡ true)
  unfolding verify_from expected_hash compute_event_hash
  verified_head start e events h = ground (
    arith,
    text_eq_iff e.previous_hash start,
    text_eq_iff e.event_hash (hex_sha256 digest (covered e)),
  )

  abbrev pub Agree : Text → Text → List AuditEvent → List AuditEvent → Type 0
  Agree start other xs ys = SomeCollides xs ys ⊎ ((start ≡ other) × SameCovered xs ys)

  -- One event more before two chains that agree.
  chain_cons :
      (start other : Text) (e f : AuditEvent) (xs ys : List AuditEvent)
      → length start ≡ length other
      → e.previous_hash ≡ start
      → f.previous_hash ≡ other
      → e.event_hash ≡ hex_sha256 digest (covered e)
      → f.event_hash ≡ hex_sha256 digest (covered f)
      → Agree e.event_hash f.event_hash xs ys
      → Agree start other (e ∷ xs) (f ∷ ys)
  unfolding canonical
  chain_cons start other e f xs ys l pe pf he hf (inl later) = inl (inr later)
  chain_cons start other e f xs ys l pe pf he hf (inr (same, rest)) =
      elim (same_or_Collides (covered e) (covered f) (sym he ∙ same ∙ hf)) [
        | inl collision ↦ inl (inl collision)
        | inr equal ↦ inr (
          sym pe
              ∙ prefix-equal e.previous_hash f.previous_hash _ _
                  (ap length pe ∙ l ∙ sym (ap length pf)) equal
              ∙ pf,
          (equal, rest),
        )
      ]

  two_chains :
      ((x : Text) → length (digest x) ≡ 32)
      → (start other : Text) (xs ys : List AuditEvent) → length start ≡ 64
      → length other ≡ 64
      → length xs ≡ length ys
      → verify_from digest start xs ≡ true
      → verify_from digest other ys ≡ true
      → last_from start xs ≡ last_from other ys
      → Agree start other xs ys
  two_chains wide start other [] [] ls lo l v w e = inr (e, tt)
  two_chains wide start other [] (f ∷ ys) ls lo l v w e = absurd (omega arith)
  two_chains wide start other (d ∷ xs) [] ls lo l v w e = absurd (omega arith)
  two_chains wide start other (d ∷ xs) (f ∷ ys) ls lo l v w e =
      let (pd, hd, vd) = verified_head start d xs v in
      let (pf, hf, vf) = verified_head other f ys w in
      chain_cons start other d f xs ys (ls ∙ sym lo) pd pf hd hf (
        two_chains wide d.event_hash f.event_hash xs ys
          (ap length hd ∙ length-hex_sha256 wide (covered d))
          (ap length hf ∙ length-hex_sha256 wide (covered f)) (omega arith) vd vf e)

  -- For a digest of 32 bytes, two lists of events of one length that `verify_chain` accepts and that
  -- end in the same hash cover the same texts event by event, or at some position they cover two
  -- different texts with the same hash.
  pub verify_chain-SameCovered :
      ((x : Text) → length (digest x) ≡ 32)
      → (xs ys : List AuditEvent) → length xs ≡ length ys
      → verify_chain digest xs ≡ true
      → verify_chain digest ys ≡ true
      → last_from genesis_hash xs ≡ last_from genesis_hash ys
      → SomeCollides xs ys ⊎ SameCovered xs ys
  unfolding verify_chain
  verify_chain-SameCovered wide xs ys l v w e =
      elim (two_chains wide genesis_hash genesis_hash xs ys refl refl l v w e) [
        | inl collision ↦ inl collision
        | inr (_, same) ↦ inr same
      ]
