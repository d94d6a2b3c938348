-- ===== src/RateLimit.antt =====
-- crates/sunbolt-control/src/rate_limit.rs: the sliding-window limiter. An `Instant` is the time since
-- the earliest one that the platform represents, so `checked_sub` fails below it.
use sunbolt.Base.{
  ℕ, ◌-◌, Bool, true, false, none, some, List, [], ◌∷◌, ◌++◌, Text, text_keys, length, leb,
  if◌then◌else◌,
}
use sunbolt.Base.Dict.{Dict, lookup, insert}
pub mod Window
pub mod Answers
mod Tests

pub record SlidingWindowRateLimiter : Type 0 where
  pub buckets : Dict Text (List ℕ)
  pub window : ℕ
  pub max_attempts : ℕ

unfoldable pub new : ℕ → ℕ → SlidingWindowRateLimiter
new window max_attempts = record { buckets = []; window = window; max_attempts = max_attempts }

-- `now.checked_sub(window).unwrap_or(now)`
abbrev pub cutoff : ℕ → ℕ → ℕ
cutoff window now = if leb window now then now - window else now

-- `while front <= cutoff { pop_front }`
unfoldable pub evict : ℕ → List ℕ → List ℕ
evict c [] = []
evict c (t ∷ ts) = let rest = evict c ts in if leb t c then rest else t ∷ ts

abbrev pub bucket : Text → SlidingWindowRateLimiter → List ℕ
bucket key l = elim (lookup key l.buckets) [ none ↦ [] | some b ↦ b ]

unfoldable pub check_and_record :
    Text → ℕ → SlidingWindowRateLimiter → Bool × SlidingWindowRateLimiter
check_and_record key now l =
    let kept = evict (cutoff l.window now) (bucket key l) in
    if leb l.max_attempts (length kept)
    then (false, record l { buckets = insert key kept l.buckets })
    else (true, record l { buckets = insert key (kept ++ now ∷ []) l.buckets })
