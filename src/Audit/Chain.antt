-- ===== src/Audit/Chain.antt =====
-- What the log appends is a chain that verifies (log.rs, chain.rs).
use sunbolt.Base.{
  ℕ, ◌≡◌, refl, ap, ap₂, ◌∙◌, true, List, [], ◌∷◌, ◌++◌, Text, text_eq_refl, arith, ◌&&◌,
}
use sunbolt.Audit.{
  AuditEvent, AuditEventInput, AuditLogState, genesis_hash, expected_hash, verify_from,
  verify_chain, verify_integrity, new, append, recorded,
}

-- The hash of the last event, or `start` where there is none.
abbrev pub last_from : Text → List AuditEvent → Text
last_from start [] = start
last_from start (e ∷ events) = last_from e.event_hash events

pub last_from-append :
    (start : Text) (xs ys : List AuditEvent)
    → last_from start (xs ++ ys) ≡ last_from (last_from start xs) ys
last_from-append start [] ys = refl
last_from-append start (e ∷ xs) ys = last_from-append e.event_hash xs ys

module _ (digest : List ℕ → List ℕ) where
  pub verify_from-append :
      (start : Text) (xs ys : List AuditEvent)
      → verify_from digest start (xs ++ ys)
        ≡ (verify_from digest start xs && verify_from digest (last_from start xs) ys)
  unfolding verify_from
  verify_from-append start [] ys = refl
  verify_from-append start (e ∷ xs) ys = ground (arith, verify_from-append e.event_hash xs ys)

  -- The events are a chain, and `last_hash` is where it ends.
  abbrev pub IsChained : AuditLogState → Type 0
  IsChained log =
      (verify_from digest genesis_hash log.events ≡ true)
      × (last_from genesis_hash log.events ≡ log.last_hash)

  one_more :
      (redact : Text → Text) (input : AuditEventInput) (now : ℕ) (log : AuditLogState)
      → verify_from digest log.last_hash (recorded digest redact input now log ∷ []) ≡ true
  unfolding verify_from recorded expected_hash
  one_more redact input now log = ground (
    arith,
    text_eq_refl log.last_hash,
    text_eq_refl (recorded digest redact input now log).event_hash,
  )

  pub append-IsChained :
      (redact : Text → Text) (input : AuditEventInput) (now : ℕ) (log : AuditLogState)
      → IsChained log
      → IsChained (append digest redact input now log)
  unfolding append
  append-IsChained redact input now log (ok, ends) =
      let e = recorded digest redact input now log in
      (
        verify_from-append genesis_hash log.events (e ∷ [])
            ∙ ap₂ ◌&&◌ ok (
                ap (λ last. verify_from digest last (e ∷ [])) ends ∙ one_more redact input now log),
        last_from-append genesis_hash log.events (e ∷ []),
      )

  new-IsChained : IsChained new
  unfolding new verify_from
  new-IsChained = (refl, refl)

  -- Inputs with their times, in the order of the calls.
  pub append_all : (Text → Text) → List (AuditEventInput × ℕ) → AuditLogState → AuditLogState
  append_all redact [] log = log
  append_all redact ((input, now) ∷ rest) log =
      append_all redact rest (append digest redact input now log)

  append_all-IsChained :
      (redact : Text → Text) (inputs : List (AuditEventInput × ℕ)) (log : AuditLogState)
      → IsChained log
      → IsChained (append_all redact inputs log)
  unfolding append_all
  append_all-IsChained redact [] log chained = chained
  append_all-IsChained redact ((input, now) ∷ rest) log chained =
      append_all-IsChained redact rest (append digest redact input now log)
        (append-IsChained redact input now log chained)

  -- However messages are redacted and whatever the digest is, the log that any sequence of calls of
  -- `record` builds from an empty one passes `verify_integrity`.
  pub verify_integrity-append_all :
      (redact : Text → Text) (inputs : List (AuditEventInput × ℕ))
      → verify_integrity digest (append_all redact inputs new) ≡ true
  unfolding verify_integrity verify_chain
  verify_integrity-append_all redact inputs =
      let (chained, _) = append_all-IsChained redact inputs new new-IsChained in chained
