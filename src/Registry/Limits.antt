-- ===== src/Registry/Limits.antt =====
-- The limits of `TerminalSessionConfig` hold in every reachable registry.
use sunbolt.Base.{◌≤◌, ◌≡◌, true, Text, text_keys, Option, some, List, [], ◌∷◌, arith, length}
use sunbolt.Base.Dict.{
  Dict, lookup, remove, modify, count, length-remove, length-modify, count-remove, count-modify,
}
use sunbolt.Base.Dict.Unique.{
  IsUnique, remove-IsUnique, modify-IsUnique, count-modify_at, remove_all,
}
use sunbolt.Terminal.{is_terminal}
use sunbolt.Registry.{TrackedTerminalSession, TerminalSessionConfig, live_for, live_on}

-- Each session once, and no more of them than the limits allow: in all, live ones of one user, and
-- live ones on one node (or on no node).
pub record IsWithin (c : TerminalSessionConfig) (d : Dict Text TrackedTerminalSession)
    : Type 0 where
  pub unique : IsUnique d
  pub total : length d ≤ c.max_sessions
  pub per_user : (email : Text) → count (live_for email) d ≤ c.max_sessions_per_user
  pub per_node : (node_id : Option Text) → count (live_on node_id) d ≤ c.max_sessions_per_node

-- Writes that keep the owner and the node, and never revive a session.
abbrev pub Keeps :
    (TrackedTerminalSession → TrackedTerminalSession) → TrackedTerminalSession → Type 0
Keeps f s =
    ((f s).actor_email ≡ s.actor_email)
    × ((f s).node_id ≡ s.node_id)
    × (is_terminal s.state ≡ true → is_terminal (f s).state ≡ true)

module _ (f : TrackedTerminalSession → TrackedTerminalSession) (s : TrackedTerminalSession)
    (k : Keeps f s) where
  live_for-Keeps : (email : Text) → live_for email (f s) ≡ true → live_for email s ≡ true
  live_for-Keeps email h = ground arith

  live_on-Keeps : (node_id : Option Text) → live_on node_id (f s) ≡ true → live_on node_id s ≡ true
  live_on-Keeps node_id h = ground arith

pub remove-IsWithin :
    (c : TerminalSessionConfig) (id : Text) (d : Dict Text TrackedTerminalSession)
    → IsWithin c d
    → IsWithin c (remove id d)
remove-IsWithin c id d w = record {
  unique = remove-IsUnique id d w.unique;
  total = omega (arith, length-remove id d, w.total);
  per_user = λ email. omega (arith, count-remove (live_for email) id d, w.per_user email);
  per_node = λ node_id. omega (arith, count-remove (live_on node_id) id d, w.per_node node_id);
}

pub remove_all-IsWithin :
    (c : TerminalSessionConfig) (ids : List Text) (d : Dict Text TrackedTerminalSession)
    → IsWithin c d
    → IsWithin c (remove_all ids d)
unfolding remove_all
remove_all-IsWithin c [] d w = w
remove_all-IsWithin c (id ∷ ids) d w = remove_all-IsWithin c ids _ (remove-IsWithin c id d w)

pub modify-IsWithin :
    (c : TerminalSessionConfig) (id : Text) (f : TrackedTerminalSession → TrackedTerminalSession)
    (d : Dict Text TrackedTerminalSession)
    → ((s : TrackedTerminalSession) → Keeps f s)
    → IsWithin c d
    → IsWithin c (modify id f d)
modify-IsWithin c id f d k w = record {
  unique = modify-IsUnique id f d w.unique;
  total = omega (arith, length-modify id f d, w.total);
  per_user = λ email. omega (
    arith,
    count-modify (live_for email) id f d (λ s. live_for-Keeps f s (k s) email),
    w.per_user email,
  );
  per_node = λ node_id. omega (
    arith,
    count-modify (live_on node_id) id f d (λ s. live_on-Keeps f s (k s) node_id),
    w.per_node node_id,
  );
}

pub modify_at-IsWithin :
    (c : TerminalSessionConfig) (id : Text) (f : TrackedTerminalSession → TrackedTerminalSession)
    (s : TrackedTerminalSession) (d : Dict Text TrackedTerminalSession)
    → lookup id d ≡ some s
    → Keeps f s
    → IsWithin c d
    → IsWithin c (modify id f d)
modify_at-IsWithin c id f s d found k w = record {
  unique = modify-IsUnique id f d w.unique;
  total = omega (arith, length-modify id f d, w.total);
  per_user = λ email. omega (
    arith,
    count-modify_at (live_for email) id f s d w.unique found (live_for-Keeps f s k email),
    w.per_user email,
  );
  per_node = λ node_id. omega (
    arith,
    count-modify_at (live_on node_id) id f s d w.unique found (live_on-Keeps f s k node_id),
    w.per_node node_id,
  );
}
