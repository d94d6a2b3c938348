-- ===== src/Base/Dict/Counting.antt =====
-- How many values satisfy a test, exactly, after a write, a removal and a sweep.
use Prim.Native.Nat.{◌+◌}
use mathlib.Core.Path.{◌≡◌, refl}
use mathlib.Core.Bool.{Bool, false, not, ◌&&◌}
use mathlib.Core.List.{List, [], ◌∷◌}
use native.Mathlib.Omega.{arith}
use sunbolt.Base.Tests.{if◌then◌else◌}
use sunbolt.Base.Lists.{any}
use sunbolt.Base.Keys.{Key, ◌==◌}
use sunbolt.Base.Dict.{Dict, lookup, remove, modify, retain, count, keys}
use sunbolt.Base.Dict.Unique.{IsUnique, holds, remove_all, remove-none, any-keys}

module _ {ℓ κ} {K : Type ℓ} {V : Type κ} ⦃e : Key K⦄ where
  pub count-modify_same :
      (p : V → Bool) (k : K) (f : V → V) (d : Dict K V)
      → ((v : V) → p (f v) ≡ p v)
      → count p (modify k f d) ≡ count p d
  unfolding modify count
  count-modify_same p k f [] h = refl
  count-modify_same p k f ((j, v) ∷ d) h = ground (arith, h v, count-modify_same p k f d h)

  pub count-remove_one :
      (p : V → Bool) (k : K) (d : Dict K V)
      → IsUnique d
      → count p (remove k d) + (if holds p (lookup k d) then 1 else 0) ≡ count p d
  unfolding lookup remove count
  count-remove_one p k [] u = omega arith
  count-remove_one p k ((j, v) ∷ d) u = ground (arith, count-remove_one p k d u.1, e.same_iff j k)

  pub count-retain :
      (p q : V → Bool) (d : Dict K V)
      → count q (retain (λ v. not (p v)) d) + count (λ v. p v && q v) d ≡ count q d
  unfolding retain count
  count-retain p q [] = omega arith
  count-retain p q ((j, v) ∷ d) = ground (arith, count-retain p q d)

  -- Keys that are not there do not reach the first entry.
  remove_all-cons :
      (ks : List K) (j : K) (v : V) (d : Dict K V)
      → any (λ i. i == j) ks ≡ false
      → remove_all ks ((j, v) ∷ d) ≡ (j, v) ∷ remove_all ks d
  unfolding remove_all remove
  remove_all-cons [] j v d h = refl
  remove_all-cons (k ∷ ks) j v d h =
      ground (arith, e.same_iff j k, e.same_iff k j, remove_all-cons ks j v (remove k d))

  -- Removing the selected keys keeps the values that are not selected.
  pub remove_all-keys :
      (p : V → Bool) (d : Dict K V)
      → IsUnique d
      → remove_all (keys p d) d ≡ retain (λ v. not (p v)) d
  unfolding remove_all remove retain keys
  remove_all-keys p [] u = refl
  remove_all-keys p ((j, v) ∷ d) u = ground (
    arith,
    e.same_iff j j,
    remove-none j d,
    any-keys p j d u.1,
    remove_all-cons (keys p d) j v d,
    remove_all-keys p d u.1,
  )
