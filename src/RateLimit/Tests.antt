-- ===== src/RateLimit/Tests.antt =====
-- A limiter of two attempts in ten units of time.
use sunbolt.Base.{ℕ, ◌≤◌, ◌≡◌, refl, true, List, [], ◌∷◌, Text, text, text_keys, arith}
use sunbolt.Base.Dict.{lookup, insert, remove}
use sunbolt.RateLimit.{SlidingWindowRateLimiter, new, evict, check_and_record}
use sunbolt.RateLimit.Window.{in_window, attempt, attempts, count_after, admitted-le-max_attempts}
use sunbolt.RateLimit.Answers.{check_and_record-may_attempt, young_clock_admits}

abbrev bob : Text
bob = text "bob"

abbrev eve : Text
eve = text "eve"

abbrev calls : List (Text × ℕ)
calls = (bob, 20) ∷ (eve, 21) ∷ (bob, 22) ∷ (bob, 23) ∷ (bob, 31) ∷ []

admitted_times : (attempts bob calls (new 10 2, [])).1 ≡ 31 ∷ 22 ∷ 20 ∷ []
unfolding attempts attempt check_and_record evict new lookup insert remove
admitted_times = refl

admitted-le-max_attempts_example : in_window 10 31 (attempts bob calls (new 10 2, [])).1 ≤ 2
admitted-le-max_attempts_example =
    admitted-le-max_attempts bob 10 2 20 calls 31 (omega arith) (omega arith)

check_and_record-may_attempt_example :
    (check_and_record bob 32 (attempts bob calls (new 10 2, [])).0).0 ≡ true
unfolding attempts attempt check_and_record evict new lookup insert remove count_after
check_and_record-may_attempt_example =
    check_and_record-may_attempt bob 10 2 20 calls 32 (omega arith) (omega arith)

abbrev young : SlidingWindowRateLimiter
young = record { buckets = (bob, 3 ∷ 4 ∷ []) ∷ []; window = 10; max_attempts = 2 }

young_clock_admits_test : (check_and_record bob 5 young).0 ≡ true
unfolding lookup
young_clock_admits_test = young_clock_admits bob 5 young (omega arith) (omega arith) (omega arith)
