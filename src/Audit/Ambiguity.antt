-- ===== src/Audit/Ambiguity.antt =====
-- The text that an event's hash covers (chain.rs) does not tell its fields apart.
use sunbolt.Base.{ℕ, ◌≡◌, refl, sym, ap, ◌∙◌, List, ◌∷◌, ◌++◌, Text, some, ◌&&◌}
use mathlib.Core.List.{append_assoc}
use sunbolt.Audit.{
  AuditEvent, genesis_hash, expected_hash, verify_from, verify_chain, compute_event_hash,
  hex_sha256, canonical, colon,
}
use sunbolt.Audit.Kinds.{as_str}
use sunbolt.Audit.Chain.{last_from, verify_from-append}

-- The actor's address is cut at a colon, and what follows it moves to the message.
abbrev pub shift_actor : Text → Text → Text → AuditEvent → AuditEvent
shift_actor a b c e = record e { actor_email = some a; message = b ++ (colon ++ c) }

abbrev pub joined_actor : Text → Text → Text → AuditEvent → AuditEvent
joined_actor a b c e = record e { actor_email = some (a ++ (colon ++ b)); message = c }

canonical-shift :
    (id : ℕ) (kind a b c : Text) (now : ℕ) (previous : Text)
    → canonical id kind (some (a ++ (colon ++ b))) c now previous
      ≡ canonical id kind (some a) (b ++ (colon ++ c)) now previous
unfolding canonical
canonical-shift id kind a b c now previous = simp append_assoc

module _ (digest : List ℕ → List ℕ) where
  expected_hash-shift :
      (a b c : Text) (e : AuditEvent)
      → expected_hash digest (joined_actor a b c e) ≡ expected_hash digest (shift_actor a b c e)
  unfolding expected_hash compute_event_hash
  expected_hash-shift a b c e =
      ap (hex_sha256 digest)
        (canonical-shift e.id (as_str e.kind) a b c e.created_at_unix_secs e.previous_hash)

  verify_from-shift :
      (a b c start : Text) (e : AuditEvent) (later : List AuditEvent)
      → verify_from digest start (joined_actor a b c e ∷ later)
        ≡ verify_from digest start (shift_actor a b c e ∷ later)
  unfolding verify_from
  verify_from-shift a b c start e later = rw (expected_hash-shift a b c e) refl

  -- Anywhere in a list of events, an event whose actor is `a:b` and whose message is `c` can be
  -- replaced by the same event with the actor `a` and the message `b:c`: `verify_chain` gives the same
  -- answer, so it accepts the changed list if it accepts the original.
  pub verify_chain-shift_actor :
      (a b c : Text) (e : AuditEvent) (earlier later : List AuditEvent)
      → verify_chain digest (earlier ++ joined_actor a b c e ∷ later)
        ≡ verify_chain digest (earlier ++ shift_actor a b c e ∷ later)
  unfolding verify_chain
  verify_chain-shift_actor a b c e earlier later =
      verify_from-append digest genesis_hash earlier (joined_actor a b c e ∷ later)
      ∙ ap (λ rest. verify_from digest genesis_hash earlier && rest)
          (verify_from-shift a b c (last_from genesis_hash earlier) e later)
      ∙ sym (verify_from-append digest genesis_hash earlier (shift_actor a b c e ∷ later))
