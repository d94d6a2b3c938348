-- ===== src/RateLimit/Window.antt =====
-- No window of the configured length holds more admitted attempts of one key than allowed.
use sunbolt.Base.{
  ℕ, suc, ◌+◌, ◌-◌, ◌≤◌, ◌≡◌, refl, true, ◌&&◌, List, [], ◌∷◌, ◌++◌, Text, text_keys, text_eq,
  text_eq_sound, ap, sym, length, leb, ltb, arith, if◌then◌else◌,
}
use sunbolt.Base.Dict.{lookup, lookup-insert}
use sunbolt.RateLimit.{SlidingWindowRateLimiter, new, cutoff, evict, bucket, check_and_record}

-- How many times lie after `c`.
unfoldable pub count_after : ℕ → List ℕ → ℕ
count_after c [] = 0
count_after c (t ∷ ts) = let rest = count_after c ts in if ltb c t then suc rest else rest

-- How many times lie in the window of length `window` that ends at `end`.
pub in_window : ℕ → ℕ → List ℕ → ℕ
in_window window end [] = 0
in_window window end (t ∷ ts) =
    let rest = in_window window end ts in
    if leb t end && ltb end (t + window) then suc rest else rest

pub count_after-evict :
    (c d : ℕ) (ts : List ℕ) → d ≤ c → count_after c (evict d ts) ≡ count_after c ts
unfolding count_after evict
count_after-evict c d [] h = refl
count_after-evict c d (t ∷ ts) h = ground (arith, count_after-evict c d ts h)

count_after-append : (c t : ℕ) (ts : List ℕ) → count_after c (ts ++ t ∷ []) ≡ count_after c (t ∷ ts)
unfolding count_after
count_after-append c t [] = refl
count_after-append c t (s ∷ ts) = ground (arith, count_after-append c t ts)

count_after-le-length : (c : ℕ) (ts : List ℕ) → count_after c ts ≤ length ts
unfolding count_after
count_after-le-length c [] = omega arith
count_after-le-length c (t ∷ ts) = ground (arith, count_after-le-length c ts)

in_window-le :
    (window c end : ℕ) (ts : List ℕ) → c + window ≤ end → in_window window end ts ≤ count_after c ts
unfolding in_window count_after
in_window-le window c end [] h = omega arith
in_window-le window c end (t ∷ ts) h = ground (arith, in_window-le window c end ts h)

-- The limiter, and the times at which it admitted `key`, latest first.
abbrev pub Log : Type 0
Log = SlidingWindowRateLimiter × List ℕ

unfoldable pub attempt : Text → Text × ℕ → Log → Log
attempt key (other, now) (l, admitted) =
    let (allowed, l') = check_and_record other now l in
    (l', if allowed && text_eq other key then now ∷ admitted else admitted)

unfoldable pub attempts : Text → List (Text × ℕ) → Log → Log
attempts key [] log = log
attempts key (a ∷ rest) log = attempts key rest (attempt key a log)

-- The clock never goes back, and starts at `start`.
abbrev pub IsClocked : ℕ → List (Text × ℕ) → Type 0
IsClocked start [] = Unit {0}
IsClocked start ((_, now) ∷ rest) = (start ≤ now) × IsClocked now rest

module _ (key : Text) (window max_attempts : ℕ) where
  -- The bucket holds every admitted time that can still count, and no window was exceeded.
  pub record Tracks (last : ℕ) (log : Log) : Type 0 where
    pub same_window : log.0.window ≡ window
    pub same_max : log.0.max_attempts ≡ max_attempts
    pub complete :
        (c : ℕ) → last ≤ c + window → count_after c log.1 ≡ count_after c (bucket key log.0)
    pub bounded : (end : ℕ) → in_window window end log.1 ≤ max_attempts

  module _ (last now : ℕ) (other : Text) (log : Log) (w : window ≤ last) (h : last ≤ now)
      (t : Tracks last log) where
    kept : List ℕ
    kept = evict (cutoff log.0.window now) (bucket other log.0)

    cutoff-eq : cutoff log.0.window now ≡ now - window
    cutoff-eq = ground (arith, t.same_window)

    bucket-eq : text_eq other key ≡ true → bucket key log.0 ≡ bucket other log.0
    bucket-eq e = ap (λ k. bucket k log.0) (sym (text_eq_sound other key e))

    complete_after :
        (c : ℕ)
        → now ≤ c + window
        → count_after c (attempt key (other, now) log).1
          ≡ count_after c (bucket key (attempt key (other, now) log).0)
    unfolding attempt check_and_record count_after kept
    complete_after c late = ground (
      arith,
      t.complete c,
      cutoff-eq,
      bucket-eq,
      lookup-insert other key kept log.0.buckets,
      lookup-insert other key (kept ++ now ∷ []) log.0.buckets,
      count_after-evict c (cutoff log.0.window now) (bucket other log.0),
      count_after-append c now kept,
    )

    bounded_after : (end : ℕ) → in_window window end (attempt key (other, now) log).1 ≤ max_attempts
    unfolding attempt check_and_record in_window kept
    bounded_after end = ground (
      arith,
      t.bounded end,
      t.same_max,
      cutoff-eq,
      bucket-eq,
      in_window-le window (now - window) end log.1,
      t.complete (now - window),
      count_after-evict (now - window) (cutoff log.0.window now) (bucket other log.0),
      count_after-le-length (now - window) kept,
    )

    pub attempt-Tracks : Tracks now (attempt key (other, now) log)
    unfolding attempt check_and_record
    attempt-Tracks = record {
      same_window = ground (arith, t.same_window);
      same_max = ground (arith, t.same_max);
      complete = complete_after;
      bounded = bounded_after;
    }

  pub new-Tracks : (start : ℕ) → Tracks start (new window max_attempts, [])
  unfolding new count_after in_window
  new-Tracks start = record {
    same_window = refl;
    same_max = refl;
    complete = λ c late. unfold lookup in refl;
    bounded = λ end. omega arith;
  }

  attempts-Tracks :
      (start : ℕ) (calls : List (Text × ℕ)) (log : Log)
      → window ≤ start
      → IsClocked start calls
      → Tracks start log
      → (last : ℕ) × Tracks last (attempts key calls log)
  unfolding attempts
  attempts-Tracks start [] log w clocked t = (start, t)
  attempts-Tracks start ((other, now) ∷ calls) log w clocked t =
      attempts-Tracks now calls (attempt key (other, now) log) (omega arith) clocked.1
        (attempt-Tracks start now other log w clocked.0 t)

  -- However the attempts of all keys are interleaved, as long as the clock does not go back and has
  -- run for a whole window before the first attempt, no window of the configured length, wherever it
  -- ends, holds more than `max_attempts` admitted attempts of one key.
  pub admitted-le-max_attempts :
      (start : ℕ) (calls : List (Text × ℕ)) (end : ℕ)
      → window ≤ start
      → IsClocked start calls
      → in_window window end (attempts key calls (new window max_attempts, [])).1 ≤ max_attempts
  admitted-le-max_attempts start calls end w clocked =
      let (last, t) = attempts-Tracks start calls _ w clocked (new-Tracks start) in t.bounded end
