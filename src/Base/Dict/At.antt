-- ===== src/Base/Dict/At.antt =====
-- A predicate on the value found under one key, and what the operations make of it.
use mathlib.Core.Path.{◌≡◌, subst}
use mathlib.Core.Logic.{inl, inr}
use mathlib.Core.List.{List, [], ◌∷◌}
use mathlib.Core.Option.{some}
use native.Mathlib.Omega.{arith}
use sunbolt.Base.Tests.{Bool-cases, Option-cases}
use sunbolt.Base.Keys.{Key, ◌==◌}
use sunbolt.Base.Dict.{
  Dict, lookup, remove, insert, modify, lookup-remove, lookup-insert, lookup-modify,
}
use sunbolt.Base.Dict.Unique.{remove_all}

module _ {ℓ κ μ} {K : Type ℓ} {V : Type κ} ⦃e : Key K⦄ (P : V → Type μ) (k : K) where
  abbrev pub At : Dict K V → Type (κ ⊔ μ)
  At d = (v : V) → lookup k d ≡ some v → P v

  pub remove-At : (j : K) (d : Dict K V) → At d → At (remove j d)
  remove-At j d h v found = h v (ground (arith, lookup-remove j k d))

  pub remove_all-At : (js : List K) (d : Dict K V) → At d → At (remove_all js d)
  unfolding remove_all
  remove_all-At [] d h = h
  remove_all-At (j ∷ js) d h = remove_all-At js (remove j d) (remove-At j d h)

  pub insert-At : (j : K) (v : V) (d : Dict K V) → (j ≡ k → P v) → At d → At (insert j v d)
  insert-At j v d new h w found = elim (Bool-cases (j == k)) [
    | inl hit ↦
        let same : v ≡ w = ground (arith, lookup-insert j k v d) in
        subst P same (new ((e.same_iff j k).0 hit))
    | inr miss ↦ h w (ground (arith, lookup-insert j k v d))
  ]

  pub modify-At :
      (j : K) (f : V → V) (d : Dict K V) → ((v : V) → P v → P (f v)) → At d → At (modify j f d)
  modify-At j f d keep h w found = elim (Option-cases (lookup k d)) [
    | inl gone ↦ absurd (ground (arith, lookup-modify j k f d))
    | inr (v, there) ↦ elim (Bool-cases (j == k)) [
      | inl hit ↦
          let same : f v ≡ w = ground (arith, lookup-modify j k f d) in
          subst P same (keep v (h v there))
      | inr miss ↦ h w (ground (arith, lookup-modify j k f d))
    ]
  ]
