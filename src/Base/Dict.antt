-- ===== src/Base/Dict.antt =====
-- Python's `dict`: an association list in insertion order, with the laws of its updates.
use mathlib.Core.Path.{◌≡◌, refl, sym}
use mathlib.Core.Logic.{inl, inr}
use mathlib.Core.Bool.{Bool, true, false}
use mathlib.Core.Option.{Option, none, some}
use mathlib.Core.List.{List, [], ◌∷◌}
use native.Mathlib.Omega.{arith}
use aeronta_inventory.Base.Tests.{Bool-cases, if◌then◌else◌}
use aeronta_inventory.Base.Classes.{Equality, ◌==◌}

abbrev pub Dict {ℓ κ} : Type ℓ → Type κ → Type (ℓ ⊔ κ)
Dict K V = List (K × V)

module _ {ℓ κ} {K : Type ℓ} {V : Type κ} ⦃e : Equality K⦄ where
  -- `d.get(k)`
  unfoldable pub lookup : K → Dict K V → Option V
  lookup k [] = none
  lookup k ((j, v) ∷ d) = if j == k then some v else lookup k d

  -- `d[k] = v`
  unfoldable pub insert : K → V → Dict K V → Dict K V
  insert k v [] = (k, v) ∷ []
  insert k v ((j, w) ∷ d) = if j == k then (j, v) ∷ d else (j, w) ∷ insert k v d

  -- `k in d`
  abbrev pub has_key : K → Dict K V → Bool
  has_key k d = elim (lookup k d) [ none ↦ false | some _ ↦ true ]

  pub lookup-insert :
      (k j : K) (v : V) (d : Dict K V)
      → lookup j (insert k v d) ≡ (if k == j then some v else lookup j d)
  unfolding lookup insert
  lookup-insert k j v [] = refl
  lookup-insert k j v ((i, w) ∷ d) =
      ground (arith, e.same_iff k j, e.same_iff i k, e.same_iff i j, lookup-insert k j v d)

  pub lookup-empty : (k : K) → lookup k [] ≡ none
  unfolding lookup
  lookup-empty k = refl

module _ {ℓ κ} {K : Type ℓ} {V : Type κ} ⦃e : Equality K⦄ where
  pub lookup-insert_self : (k : K) (v : V) (d : Dict K V) → lookup k (insert k v d) ≡ some v
  lookup-insert_self k v d = ground (arith, lookup-insert k k v d, e.same_iff k k)

  -- An overwritten value, written back.
  pub lookup-insert_back :
      (k j : K) (v w : V) (d : Dict K V)
      → lookup k d ≡ some v
      → lookup j (insert k v (insert k w d)) ≡ lookup j d
  lookup-insert_back k j v w d h = elim (Bool-cases (k == j)) [
    | inl same ↦
        rw (lookup-insert k j v (insert k w d), same) (rw (← (e.same_iff k j).0 same) (sym h))
    | inr other ↦ rw (lookup-insert k j v (insert k w d), other, lookup-insert k j w d, other) refl
  ]
