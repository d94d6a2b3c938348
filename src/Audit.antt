-- ===== src/Audit.antt =====
-- crates/sunbolt-audit: the event kinds (types.rs), the hash chain (chain.rs) and the append-only log
-- (log.rs). SHA-256 comes from a third party: `digest` is any function from bytes to bytes.
pub mod Kinds
pub mod Chain
pub mod Binding
pub mod Ambiguity
pub mod Redaction
mod Tests
use sunbolt.Base.{
  ℕ, ◌+◌, ◌%◌, ◌++◌, Bool, true, false, not, Option, none, some, List, [], ◌∷◌, Text, text, text_eq,
  if◌then◌else◌, ◌^◌, filter,
}
use sunbolt.Base.Numerals.{decimal, hex}
use Kinds.{AuditEventKind, as_str, is_access_history}

pub record AuditEvent : Type 0 where
  pub id : ℕ
  pub kind : AuditEventKind
  pub actor_email : Option Text
  pub message : Text
  pub created_at_unix_secs : ℕ
  pub previous_hash : Text
  pub event_hash : Text

pub record AuditEventInput : Type 0 where
  pub kind : AuditEventKind
  pub actor_email : Option Text
  pub message : Text

-- `GENESIS_HASH`: 64 zeros
abbrev pub genesis_hash : Text
genesis_hash = text "0000000000000000000000000000000000000000000000000000000000000000"

abbrev pub colon : Text
colon = text ":"

abbrev pub or_empty : Option Text → Text
or_empty none = []
or_empty (some t) = t

-- The `canonical` text of `compute_event_hash`
pub canonical : ℕ → Text → Option Text → Text → ℕ → Text → Text
canonical id kind_str actor_email message created_at previous_hash =
    previous_hash
    ++ (colon
        ++ (decimal id
            ++ (colon
                ++ (kind_str
                    ++ (colon
                        ++ (or_empty actor_email
                            ++ (colon ++ (message ++ (colon ++ decimal created_at)))))))))

pub record AuditLogState : Type 0 where
  pub events : List AuditEvent
  pub last_hash : Text
  pub next_id : ℕ

pub new : AuditLogState
new = record { events = []; last_hash = genesis_hash; next_id = 1 }

pub access_history : AuditLogState → List AuditEvent
access_history log = filter (λ e. is_access_history e.kind) log.events

module _ (digest : List ℕ → List ℕ) where
  pub hex_sha256 : Text → Text
  hex_sha256 bytes = hex (digest bytes)

  pub compute_event_hash : ℕ → Text → Option Text → Text → ℕ → Text → Text
  compute_event_hash id kind_str actor_email message created_at previous_hash =
      hex_sha256 (canonical id kind_str actor_email message created_at previous_hash)

  -- The hash that `verify_chain` expects of an event.
  pub expected_hash : AuditEvent → Text
  expected_hash e =
      compute_event_hash e.id (as_str e.kind) e.actor_email e.message e.created_at_unix_secs
        e.previous_hash

  -- The loop of `verify_chain`, from `expected_previous`
  pub verify_from : Text → List AuditEvent → Bool
  verify_from expected_previous [] = true
  verify_from expected_previous (e ∷ events) =
      let rest = verify_from e.event_hash events in
      if not (text_eq e.previous_hash expected_previous)
      then false
      else if not (text_eq e.event_hash (expected_hash e))
      then false
      else rest

  pub verify_chain : List AuditEvent → Bool
  verify_chain events = verify_from genesis_hash events

  -- The event that `AuditLog::record` pushes, for any redaction of the message.
  pub recorded : (Text → Text) → AuditEventInput → ℕ → AuditLogState → AuditEvent
  recorded redact input created_at log =
      let message = redact input.message in
      record {
        id = log.next_id;
        kind = input.kind;
        actor_email = input.actor_email;
        message = message;
        created_at_unix_secs = created_at;
        previous_hash = log.last_hash;
        event_hash =
            compute_event_hash log.next_id (as_str input.kind) input.actor_email message created_at
              log.last_hash;
      }

  -- `AuditLog::record`, at the time that it reads.
  pub append : (Text → Text) → AuditEventInput → ℕ → AuditLogState → AuditLogState
  append redact input created_at log =
      let event = recorded redact input created_at log in
      record {
        events = log.events ++ event ∷ [];
        last_hash = event.event_hash;
        next_id = (log.next_id + 1) % 2 ^ 64;
      }

  pub verify_integrity : AuditLogState → Bool
  verify_integrity log = verify_chain log.events
