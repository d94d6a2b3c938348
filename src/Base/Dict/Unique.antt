-- ===== src/Base/Dict/Unique.antt =====
-- A dictionary holds each key once; what `retain` and a sweep over selected keys leave of it.
use Prim.Native.Nat.{◌≤◌}
use mathlib.Core.Path.{◌≡◌, refl}
use mathlib.Core.Bool.{Bool, true, false}
use mathlib.Core.List.{List, [], ◌∷◌}
use mathlib.Core.Option.{Option, none, some}
use native.Mathlib.Omega.{arith}
use sunbolt.Base.Tests.{if◌then◌else◌}
use sunbolt.Base.Lists.{any}
use sunbolt.Base.Keys.{Key, ◌==◌}
use sunbolt.Base.Dict.{
  Dict, lookup, remove, insert, modify, retain, count, keys, lookup-remove, lookup-modify,
}

-- What `p` selects of a looked-up value, and whether it selects it.
module _ {κ} {V : Type κ} where
  abbrev pub only : (V → Bool) → Option V → Option V
  only p none = none
  only p (some v) = if p v then some v else none

  abbrev pub holds : (V → Bool) → Option V → Bool
  holds p none = false
  holds p (some v) = p v

module _ {ℓ κ} {K : Type ℓ} {V : Type κ} ⦃e : Key K⦄ where
  -- No key twice.
  abbrev pub IsUnique : Dict K V → Type (ℓ ⊔ κ)
  IsUnique [] = Unit
  IsUnique ((j, v) ∷ d) = (lookup j d ≡ none) × IsUnique d

  pub remove-IsUnique : (k : K) (d : Dict K V) → IsUnique d → IsUnique (remove k d)
  unfolding remove
  remove-IsUnique k [] u = tt
  remove-IsUnique k ((j, v) ∷ d) u = ground (arith, remove-IsUnique k d u.1, lookup-remove k j d)

  pub insert-IsUnique : (k : K) (v : V) (d : Dict K V) → IsUnique d → IsUnique (insert k v d)
  unfolding insert
  insert-IsUnique k v d u =
      (ground (arith, lookup-remove k k d, e.same_iff k k), remove-IsUnique k d u)

  pub modify-IsUnique : (k : K) (f : V → V) (d : Dict K V) → IsUnique d → IsUnique (modify k f d)
  unfolding modify
  modify-IsUnique k f [] u = tt
  modify-IsUnique k f ((j, v) ∷ d) u =
      (ground (arith, lookup-modify k j f d), modify-IsUnique k f d u.1)

  pub lookup-retain-none :
      (p : V → Bool) (j : K) (d : Dict K V) → lookup j d ≡ none → lookup j (retain p d) ≡ none
  unfolding lookup retain
  lookup-retain-none p j [] h = refl
  lookup-retain-none p j ((i, w) ∷ d) h = ground (arith, lookup-retain-none p j d)

  pub retain-IsUnique : (p : V → Bool) (d : Dict K V) → IsUnique d → IsUnique (retain p d)
  unfolding retain
  retain-IsUnique p [] u = tt
  retain-IsUnique p ((j, v) ∷ d) u =
      ground (arith, retain-IsUnique p d u.1, lookup-retain-none p j d)

  pub lookup-retain :
      (p : V → Bool) (j : K) (d : Dict K V)
      → IsUnique d
      → lookup j (retain p d) ≡ only p (lookup j d)
  unfolding lookup retain
  lookup-retain p j [] u = refl
  lookup-retain p j ((i, w) ∷ d) u =
      ground (arith, lookup-retain p j d u.1, lookup-retain-none p j d, e.same_iff i j)

  -- A key is selected exactly if it is bound to a value that satisfies `p`.
  pub any-keys :
      (p : V → Bool) (j : K) (d : Dict K V)
      → IsUnique d
      → any (λ i. i == j) (keys p d) ≡ holds p (lookup j d)
  unfolding lookup keys
  any-keys p j [] u = refl
  any-keys p j ((i, w) ∷ d) u = ground (arith, any-keys p j d u.1, e.same_iff i j)

  unfoldable pub remove_all : List K → Dict K V → Dict K V
  remove_all [] d = d
  remove_all (k ∷ ks) d = remove_all ks (remove k d)

  pub lookup-remove_all :
      (ks : List K) (j : K) (d : Dict K V)
      → lookup j (remove_all ks d) ≡ (if any (λ i. i == j) ks then none else lookup j d)
  unfolding remove_all
  lookup-remove_all [] j d = refl
  lookup-remove_all (k ∷ ks) j d =
      ground (arith, lookup-remove_all ks j (remove k d), lookup-remove k j d)

  pub remove-none : (k : K) (d : Dict K V) → lookup k d ≡ none → remove k d ≡ d
  unfolding lookup remove
  remove-none k [] h = refl
  remove-none k ((i, w) ∷ d) h = ground (arith, remove-none k d)

  -- Removing a key forgets what was written under it.
  pub remove-modify : (k : K) (f : V → V) (d : Dict K V) → remove k (modify k f d) ≡ remove k d
  unfolding remove modify
  remove-modify k f [] = refl
  remove-modify k f ((i, w) ∷ d) = ground (arith, remove-modify k f d)

  modify-none : (k : K) (f : V → V) (d : Dict K V) → lookup k d ≡ none → modify k f d ≡ d
  unfolding lookup modify
  modify-none k f [] h = refl
  modify-none k f ((i, w) ∷ d) h = ground (arith, modify-none k f d)

  -- A write to the value found at `k` that does not make it satisfy `p` anew.
  pub count-modify_at :
      (p : V → Bool) (k : K) (f : V → V) (v : V) (d : Dict K V)
      → IsUnique d
      → lookup k d ≡ some v
      → (p (f v) ≡ true → p v ≡ true)
      → count p (modify k f d) ≤ count p d
  unfolding lookup modify count
  count-modify_at p k f v [] u h keep = cc
  count-modify_at p k f v ((i, w) ∷ d) u h keep =
      ground (arith, count-modify_at p k f v d u.1, modify-none k f d, e.same_iff i k)
