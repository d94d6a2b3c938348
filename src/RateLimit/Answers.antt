-- ===== src/RateLimit/Answers.antt =====
-- Each answer of the limiter is the one that the whole history of the key calls for.
use sunbolt.Base.{
  ℕ, suc, ◌-◌, ◌≤◌, ◌<◌, ◌≡◌, refl, Bool, true, List, [], ◌∷◌, ◌++◌, Text, text_keys, text_eq,
  text_eq_sound, length, ltb, arith, All, sym, subst, Bool-cases, inl, inr,
}
use sunbolt.Base.Dict.{lookup, lookup-insert}
use sunbolt.RateLimit.{SlidingWindowRateLimiter, new, cutoff, evict, bucket, check_and_record}
use sunbolt.RateLimit.Window.{
  count_after, Log, attempt, attempts, IsClocked, Tracks, attempt-Tracks, new-Tracks,
}

-- From the front to the back of the queue, time does not go down.
abbrev IsAscending : List ℕ → Type 0
IsAscending [] = Unit
IsAscending (t ∷ ts) = All (λ u. t ≤ u) ts × IsAscending ts

All-mono : (s t : ℕ) (ts : List ℕ) → s ≤ t → All (λ u. t ≤ u) ts → All (λ u. s ≤ u) ts
All-mono s t [] h a = tt
All-mono s t (u ∷ ts) h a = (omega arith, All-mono s t ts h a.1)

length-later : (c : ℕ) (ts : List ℕ) → All (λ u. suc c ≤ u) ts → length ts ≡ count_after c ts
unfolding count_after
length-later c [] a = refl
length-later c (t ∷ ts) a = ground (arith, length-later c ts a.1)

length-evict : (c : ℕ) (ts : List ℕ) → IsAscending ts → length (evict c ts) ≡ count_after c ts
unfolding evict count_after
length-evict c [] a = refl
length-evict c (t ∷ ts) a =
    ground (arith, length-evict c ts a.1, length-later c ts, All-mono (suc c) t ts)

evict-IsAscending : (c : ℕ) (ts : List ℕ) → IsAscending ts → IsAscending (evict c ts)
unfolding evict
evict-IsAscending c [] a = tt
evict-IsAscending c (t ∷ ts) a = ground (arith, evict-IsAscending c ts a.1)

evict-All : (c n : ℕ) (ts : List ℕ) → All (λ u. u ≤ n) ts → All (λ u. u ≤ n) (evict c ts)
unfolding evict
evict-All c n [] a = tt
evict-All c n (t ∷ ts) a = ground (arith, evict-All c n ts a.1)

All-append : (P : ℕ → Type 0) (now : ℕ) (ts : List ℕ) → All P ts → P now → All P (ts ++ now ∷ [])
All-append P now [] a b = (b, tt)
All-append P now (t ∷ ts) a b = (a.0, All-append P now ts a.1 b)

append-IsAscending :
    (now : ℕ) (ts : List ℕ) → IsAscending ts → All (λ u. u ≤ now) ts → IsAscending (ts ++ now ∷ [])
append-IsAscending now [] a b = (tt, tt)
append-IsAscending now (t ∷ ts) a b =
    (All-append (λ u. t ≤ u) now ts a.0 b.0, append-IsAscending now ts a.1 b.1)

All-le_mono : (m n : ℕ) (ts : List ℕ) → m ≤ n → All (λ u. u ≤ m) ts → All (λ u. u ≤ n) ts
All-le_mono m n [] h a = tt
All-le_mono m n (t ∷ ts) h a = (omega arith, All-le_mono m n ts h a.1)

-- A queue in order, with nothing later than `last`.
record IsOrdered (last : ℕ) (ts : List ℕ) : Type 0 where
  ascending : IsAscending ts
  past : All (λ u. u ≤ last) ts

evict-IsOrdered : (c last : ℕ) (ts : List ℕ) → IsOrdered last ts → IsOrdered last (evict c ts)
evict-IsOrdered c last ts o = record {
  ascending = evict-IsAscending c ts o.ascending;
  past = evict-All c last ts o.past;
}

append-IsOrdered : (now : ℕ) (ts : List ℕ) → IsOrdered now ts → IsOrdered now (ts ++ now ∷ [])
append-IsOrdered now ts o = record {
  ascending = append-IsAscending now ts o.ascending o.past;
  past = All-append (λ u. u ≤ now) now ts o.past (omega arith);
}

module _ (key : Text) (now : ℕ) (other : Text) (log : Log) where
  kept : List ℕ
  kept = evict (cutoff log.0.window now) (bucket other log.0)

  bucket_cases :
      (P : List ℕ → Type 0)
      → (text_eq other key ≡ true → P kept)
      → (text_eq other key ≡ true → P (kept ++ now ∷ []))
      → P (bucket key log.0)
      → P (bucket key (attempt key (other, now) log).0)
  unfolding attempt check_and_record kept
  bucket_cases P refused allowed untouched = elim (Bool-cases (text_eq other key)) [
    | inl hit ↦ ground (
      arith,
      refused hit,
      allowed hit,
      lookup-insert other key kept log.0.buckets,
      lookup-insert other key (kept ++ now ∷ []) log.0.buckets,
    )
    | inr miss ↦ ground (
      arith,
      untouched,
      lookup-insert other key kept log.0.buckets,
      lookup-insert other key (kept ++ now ∷ []) log.0.buckets,
    )
  ]

  attempt-IsOrdered :
      (last : ℕ)
      → last ≤ now
      → IsOrdered last (bucket key log.0)
      → IsOrdered now (bucket key (attempt key (other, now) log).0)
  unfolding kept
  attempt-IsOrdered last h o =
      let later : IsOrdered now (bucket key log.0) = record {
        ascending = o.ascending;
        past = All-le_mono last now (bucket key log.0) h o.past;
      } in
      let same = λ (hit : text_eq other key ≡ true).
        subst (λ k. IsOrdered now (bucket k log.0)) (sym (text_eq_sound other key hit)) later in
      let after = λ (hit : text_eq other key ≡ true). evict-IsOrdered _ now _ (same hit) in
      bucket_cases (IsOrdered now) after (λ hit. append-IsOrdered now _ (after hit)) later

-- The rule that the limiter stands for: an attempt is admitted exactly if fewer than `max_attempts`
-- attempts of its key were admitted since `now - window`.
abbrev pub may_attempt : ℕ → ℕ → ℕ → List ℕ → Bool
may_attempt window max_attempts now admitted =
    ltb (count_after (now - window) admitted) max_attempts

module _ (key : Text) (window max_attempts : ℕ) where
  answer_at :
      (last now : ℕ) (log : Log)
      → window ≤ last
      → last ≤ now
      → Tracks key window max_attempts last log
      → IsOrdered last (bucket key log.0)
      → (check_and_record key now log.0).0 ≡ may_attempt window max_attempts now log.1
  unfolding check_and_record
  answer_at last now log w h t o = ground (
    arith,
    t.same_window,
    t.same_max,
    t.complete (now - window),
    length-evict (cutoff log.0.window now) (bucket key log.0) o.ascending,
  )

  answer_from :
      (start : ℕ) (calls : List (Text × ℕ)) (now : ℕ) (log : Log)
      → window ≤ start
      → IsClocked start (calls ++ (key, now) ∷ [])
      → Tracks key window max_attempts start log
      → IsOrdered start (bucket key log.0)
      → (check_and_record key now (attempts key calls log).0).0
        ≡ may_attempt window max_attempts now (attempts key calls log).1
  unfolding attempts
  answer_from start [] now log w clocked t o = answer_at start now log w clocked.0 t o
  answer_from start ((other, time) ∷ calls) now log w clocked t o =
      answer_from time calls now (attempt key (other, time) log) (omega arith) clocked.1
        (attempt-Tracks key window max_attempts start time other log w clocked.0 t)
        (attempt-IsOrdered key time other log start clocked.0 o)

  -- After any interleaving of attempts of all keys, the limiter answers as the rule does from the
  -- whole history of the key: `true` exactly if fewer than `max_attempts` attempts of this key were
  -- admitted after `now - window`. The clock does not go back, and has run for a whole window before
  -- the first attempt.
  pub check_and_record-may_attempt :
      (start : ℕ) (calls : List (Text × ℕ)) (now : ℕ)
      → window ≤ start
      → IsClocked start (calls ++ (key, now) ∷ [])
      → let (l, admitted) = attempts key calls (new window max_attempts, []) in
        (check_and_record key now l).0 ≡ may_attempt window max_attempts now admitted
  check_and_record-may_attempt start calls now w clocked =
      answer_from start calls now (new window max_attempts, []) w clocked
        (new-Tracks key window max_attempts start)
        (unfold new lookup in record { ascending = tt; past = tt })

evict_everything : (c : ℕ) (ts : List ℕ) → All (λ u. u ≤ c) ts → evict c ts ≡ []
unfolding evict
evict_everything c [] a = refl
evict_everything c (t ∷ ts) a = ground (arith, evict_everything c ts a.1)

-- While the clock is younger than the window, every attempt is admitted, however many of the key
-- were admitted before (all of them at or before `now`): the cutoff falls back to `now` itself, which
-- empties the queue.
pub young_clock_admits :
    (key : Text) (now : ℕ) (l : SlidingWindowRateLimiter)
    → now < l.window
    → 0 < l.max_attempts
    → All (λ u. u ≤ now) (bucket key l)
    → (check_and_record key now l).0 ≡ true
unfolding check_and_record
young_clock_admits key now l young some_allowed past =
    ground (arith, evict_everything now (bucket key l) past)
