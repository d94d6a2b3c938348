-- ===== src/Registry/Inserted.antt =====
-- What an insertion leaves, by its answer.
use sunbolt.Base.{ℕ, ◌≡◌, some, Text, text_keys, text_eq_refl, arith, ok, err}
use sunbolt.Base.Dict.{lookup-insert}
use sunbolt.Registry.{
  Registry, TerminalSessionInsert, SessionLimitError, insert_backend, fresh, get,
}

module _ (request : TerminalSessionInsert) (token : Text) (output_tx now : ℕ) (r : Registry) where
  pub insert_backend-ok :
      {tx : ℕ}
      → (insert_backend request token output_tx now r).0 ≡ ok tx
      → get request.session_id (insert_backend request token output_tx now r).1
        ≡ some (fresh request token output_tx now)
  unfolding insert_backend
  insert_backend-ok h = ground (
    arith,
    lookup-insert request.session_id request.session_id (fresh request token output_tx now)
        r.sessions,
    text_eq_refl request.session_id,
  )

  pub insert_backend-err :
      {e : SessionLimitError}
      → (insert_backend request token output_tx now r).0 ≡ err e
      → (insert_backend request token output_tx now r).1 ≡ r
  unfolding insert_backend
  insert_backend-err h = ground arith
