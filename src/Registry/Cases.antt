-- ===== src/Registry/Cases.antt =====
-- What a method makes of the registry, for any predicate: unchanged, or one known write.
use sunbolt.Base.{ℕ, ◌≡◌, true, Text, text_keys, some, inl, inr, arith, Bool-cases, Option-cases}
use sunbolt.Base.Dict.{lookup, insert, keys}
use sunbolt.Terminal.{expired, terminating}
use sunbolt.Protocol.{TerminalServerMessage}
use sunbolt.Registry.{
  Registry, TrackedTerminalSession, TerminalSessionInsert, fresh, update, write, renew,
  push_session, push_output, message_session, insert_backend, may_reattach, reattach, record_output,
  remember_server_message, close_each, drain_expired, close_sessions_for_node, is_overdue, live_on,
}

module _ {ℓ} (P : Registry → Type ℓ) (r : Registry) (same : P r) where
  pub update_cases :
      (id : Text) (f : TrackedTerminalSession → TrackedTerminalSession)
      → P (write id f r)
      → P (update id f r)
  update_cases id f written = ground arith

  pub insert_backend_cases :
      (request : TerminalSessionInsert) (token : Text) (tx now : ℕ)
      → P (record r {
        sessions = insert request.session_id (fresh request token tx now) r.sessions;
      })
      → P (insert_backend request token tx now r).1
  unfolding insert_backend
  insert_backend_cases request token tx now inserted = ground arith

  pub reattach_cases :
      (id token email new_token : Text) (now : ℕ)
      → ((s : TrackedTerminalSession)
          → lookup id r.sessions ≡ some s
          → may_reattach token email s ≡ true
          → P (write id (renew new_token now) r))
      → P (reattach id token email new_token now r).1
  unfolding reattach
  reattach_cases id token email new_token now renewed = elim (Bool-cases r.poisoned) [
    | inl bad ↦ ground arith
    | inr good ↦ elim (Option-cases (lookup id r.sessions)) [
      | inl gone ↦ ground arith
      | inr (s, found) ↦ ground (arith, renewed s found)
    ]
  ]

  pub record_output_cases :
      (id payload : Text)
      → P (write id (push_output id payload) r)
      → P (record_output id payload r).1
  unfolding record_output
  record_output_cases id payload written = ground arith

  pub remember_cases :
      (message : TerminalServerMessage)
      → ((id : Text) → P (write id (push_session message) r))
      → P (remember_server_message message r)
  unfolding remember_server_message
  remember_cases message written = elim (Option-cases (message_session message)) [
    | inl nobody ↦ ground arith
    | inr (id, e) ↦ ground (arith, written id)
  ]

  pub drain_expired_cases :
      (max_duration idle now : ℕ)
      → P (close_each expired (keys (is_overdue max_duration idle now) r.sessions) r).1
      → P (drain_expired max_duration idle now r).1
  unfolding drain_expired
  drain_expired_cases max_duration idle now swept = ground arith

  pub close_node_cases :
      (node_id : Text)
      → P (close_each terminating (keys (live_on (some node_id)) r.sessions) r).1
      → P (close_sessions_for_node node_id r).1
  unfolding close_sessions_for_node
  close_node_cases node_id swept = ground arith
