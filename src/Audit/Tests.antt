-- ===== src/Audit/Tests.antt =====
-- A log of two events.
use sunbolt.Base.{
  ℕ, zero, suc, ap, ◌≡◌, refl, true, List, [], ◌∷◌, Text, text, some, none, ◌⊎◌, length,
}
use sunbolt.Audit.{
  AuditEvent, AuditEventInput, AuditLogState, genesis_hash, new, verify_chain, verify_integrity,
}
use sunbolt.Base.Numerals.{decimal}
use sunbolt.Audit.Kinds.{user_login_success, agent_connected}
use sunbolt.Audit.Chain.{append_all, verify_integrity-append_all}
use sunbolt.Audit.Ambiguity.{shift_actor, joined_actor, verify_chain-shift_actor}
use sunbolt.Audit.Binding.{SomeCollides, SameCovered, verify_chain-SameCovered}

-- A stand-in for SHA-256: the first 32 bytes, padded.
first_bytes : ℕ → Text → Text
first_bytes zero t = []
first_bytes (suc n) [] = 0 ∷ first_bytes n []
first_bytes (suc n) (x ∷ t) = x ∷ first_bytes n t

length-first_bytes : (n : ℕ) (t : Text) → length (first_bytes n t) ≡ n
unfolding first_bytes
length-first_bytes zero t = refl
length-first_bytes (suc n) [] = ap suc (length-first_bytes n [])
length-first_bytes (suc n) (x ∷ t) = ap suc (length-first_bytes n t)

abbrev inputs : List (AuditEventInput × ℕ)
inputs =
    (record { kind = user_login_success; actor_email = some (text "a@b"); message = text "in" }, 7)
    ∷ (record { kind = agent_connected; actor_email = none; message = text "up" }, 8)
    ∷ []

abbrev log : AuditLogState
log = append_all (first_bytes 32) (λ t. t) inputs new

decimal_test : decimal 18446744073709551615 ≡ text "18446744073709551615"
unfolding decimal sunbolt.Base.Numerals.digits_from
decimal_test = refl

verify_integrity-append_all_example : verify_integrity (first_bytes 32) log ≡ true
verify_integrity-append_all_example = verify_integrity-append_all (first_bytes 32) (λ t. t) inputs

abbrev event : AuditEvent
event = record {
  id = 1;
  kind = user_login_success;
  actor_email = none;
  message = [];
  created_at_unix_secs = 7;
  previous_hash = genesis_hash;
  event_hash = [];
}

verify_chain-shift_actor_example :
    verify_chain (first_bytes 32) (joined_actor (text "a") (text "b") (text "c") event ∷ [])
    ≡ verify_chain (first_bytes 32) (shift_actor (text "a") (text "b") (text "c") event ∷ [])
verify_chain-shift_actor_example =
    verify_chain-shift_actor (first_bytes 32) (text "a") (text "b") (text "c") event [] []

verify_chain-SameCovered_example :
    SomeCollides (first_bytes 32) log.events log.events ⊎ SameCovered log.events log.events
unfolding verify_chain verify_integrity
verify_chain-SameCovered_example =
    verify_chain-SameCovered (first_bytes 32) (length-first_bytes 32) log.events log.events refl
      verify_integrity-append_all_example verify_integrity-append_all_example refl
