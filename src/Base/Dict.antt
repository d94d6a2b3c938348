-- ===== src/Base/Dict.antt =====
-- A `HashMap` as an association list with each key once. The order of its entries, which the source
-- leaves to the hasher, is newest first.
pub mod Unique
pub mod Counting
pub mod At
use Prim.Native.Nat.{ℕ, suc, ◌+◌, ◌≤◌}
use mathlib.Core.Path.{◌≡◌, refl, subst}
use mathlib.Core.Logic.{inl, inr}
use mathlib.Core.Bool.{Bool, true, false}
use mathlib.Core.List.{List, [], ◌∷◌}
use mathlib.Core.Option
use mathlib.Core.Option.{Option, none, some}
use native.Mathlib.Omega.{arith}
use sunbolt.Base.Tests.{if◌then◌else◌, Bool-cases}
use sunbolt.Base.Lists.{length}
use sunbolt.Base.Keys.{Key, ◌==◌}

abbrev pub Dict {ℓ κ} : Type ℓ → Type κ → Type (ℓ ⊔ κ)
Dict K V = List (K × V)

module _ {ℓ κ} {K : Type ℓ} {V : Type κ} ⦃e : Key K⦄ where
  unfoldable pub lookup : K → Dict K V → Option V
  lookup k [] = none
  lookup k ((j, v) ∷ d) = if j == k then some v else lookup k d

  unfoldable pub contains : K → Dict K V → Bool
  unfolding lookup
  contains k d = elim (lookup k d) [ none ↦ false | some _ ↦ true ]

  unfoldable pub remove : K → Dict K V → Dict K V
  remove k [] = []
  remove k ((j, v) ∷ d) = let rest = remove k d in if j == k then rest else (j, v) ∷ rest

  unfoldable pub insert : K → V → Dict K V → Dict K V
  unfolding remove
  insert k v d = (k, v) ∷ remove k d

  -- `get_mut`: writes to the value of a key, if it is there.
  unfoldable pub modify : K → (V → V) → Dict K V → Dict K V
  modify k f [] = []
  modify k f ((j, v) ∷ d) = (j, if j == k then f v else v) ∷ modify k f d

  -- `retain`
  unfoldable pub retain : (V → Bool) → Dict K V → Dict K V
  retain p [] = []
  retain p ((j, v) ∷ d) = let rest = retain p d in if p v then (j, v) ∷ rest else rest

  -- `values().filter(p).count()`
  unfoldable pub count : (V → Bool) → Dict K V → ℕ
  count p [] = 0
  count p ((j, v) ∷ d) = let rest = count p d in if p v then suc rest else rest

  -- The keys of the values that satisfy `p`.
  unfoldable pub keys : (V → Bool) → Dict K V → List K
  keys p [] = []
  keys p ((j, v) ∷ d) = let rest = keys p d in if p v then j ∷ rest else rest

  pub lookup-remove :
      (k j : K) (d : Dict K V) → lookup j (remove k d) ≡ (if k == j then none else lookup j d)
  unfolding lookup remove
  lookup-remove k j [] = ground arith
  lookup-remove k j ((i, w) ∷ d) =
      ground (arith, e.same_iff k j, e.same_iff i k, e.same_iff i j, lookup-remove k j d)

  pub lookup-insert :
      (k j : K) (v : V) (d : Dict K V)
      → lookup j (insert k v d) ≡ (if k == j then some v else lookup j d)
  unfolding lookup insert
  lookup-insert k j v d = ground (arith, lookup-remove k j d)

  pub lookup-modify :
      (k j : K) (f : V → V) (d : Dict K V)
      → lookup j (modify k f d) ≡ (if k == j then Option.map f (lookup j d) else lookup j d)
  unfolding lookup modify
  lookup-modify k j f [] = ground arith
  lookup-modify k j f ((i, w) ∷ d) =
      ground (arith, e.same_iff k j, e.same_iff i k, e.same_iff i j, lookup-modify k j f d)

  pub length-remove : (k : K) (d : Dict K V) → length (remove k d) ≤ length d
  unfolding remove
  length-remove k [] = omega arith
  length-remove k ((j, v) ∷ d) = ground (arith, length-remove k d)

  pub length-insert : (k : K) (v : V) (d : Dict K V) → length (insert k v d) ≤ length d + 1
  unfolding insert
  length-insert k v d = omega (arith, length-remove k d)

  pub length-modify : (k : K) (f : V → V) (d : Dict K V) → length (modify k f d) ≡ length d
  unfolding modify
  length-modify k f [] = refl
  length-modify k f ((j, v) ∷ d) = omega (arith, length-modify k f d)

  pub count-remove : (p : V → Bool) (k : K) (d : Dict K V) → count p (remove k d) ≤ count p d
  unfolding remove count
  count-remove p k [] = omega arith
  count-remove p k ((j, v) ∷ d) = ground (arith, count-remove p k d)

  pub count-insert :
      (p : V → Bool) (k : K) (v : V) (d : Dict K V)
      → count p (insert k v d) ≤ (if p v then suc (count p d) else count p d)
  unfolding insert count
  count-insert p k v d = ground (arith, count-remove p k d)

  -- A write that never makes a value satisfy `p` anew does not raise the count.
  pub count-modify :
      (p : V → Bool) (k : K) (f : V → V) (d : Dict K V)
      → ((v : V) → p (f v) ≡ true → p v ≡ true)
      → count p (modify k f d) ≤ count p d
  unfolding modify count
  count-modify p k f [] h = omega arith
  count-modify p k f ((j, v) ∷ d) h = ground (arith, h v, count-modify p k f d h)

  -- Every value satisfies `P`.
  abbrev pub AllValues {μ} : (V → Type μ) → Dict K V → Type μ
  AllValues P [] = Unit
  AllValues P ((j, v) ∷ d) = P v × AllValues P d

  pub AllValues-remove {μ} :
      (P : V → Type μ) (k : K) (d : Dict K V) → AllValues P d → AllValues P (remove k d)
  unfolding remove
  AllValues-remove P k [] h = tt
  AllValues-remove P k ((j, v) ∷ d) h = ground (arith, AllValues-remove P k d h.1)

  pub AllValues-insert {μ} :
      (P : V → Type μ) (k : K) (v : V) (d : Dict K V)
      → P v
      → AllValues P d
      → AllValues P (insert k v d)
  unfolding insert
  AllValues-insert P k v d new h = (new, AllValues-remove P k d h)

  pub AllValues-modify {μ} :
      (P : V → Type μ) (k : K) (f : V → V) (d : Dict K V)
      → ((v : V) → P v → P (f v))
      → AllValues P d
      → AllValues P (modify k f d)
  unfolding modify
  AllValues-modify P k f [] keep h = tt
  AllValues-modify P k f ((j, v) ∷ d) keep h = (
    elim (Bool-cases (j == k)) [ inl q ↦ rw q (keep v h.0) | inr q ↦ rw q h.0 ],
    AllValues-modify P k f d keep h.1,
  )

  pub AllValues-lookup {μ} :
      (P : V → Type μ) (k : K) {v : V} (d : Dict K V) → AllValues P d → lookup k d ≡ some v → P v
  unfolding lookup
  AllValues-lookup P k [] h q = cc
  AllValues-lookup P k {v} ((j, w) ∷ d) h q = elim (Bool-cases (j == k)) [
    | inl hit ↦ let same : w ≡ v = ground arith in subst P same h.0
    | inr miss ↦ AllValues-lookup P k d h.1 (ground arith)
  ]
