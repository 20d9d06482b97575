-- ===== src/Base/Sort.antt =====
-- Python's `sorted` by a key, stable, for a test `le` on the keys; sums over lists; and the order
-- of texts.
use Prim.Native.Char.{code}
use Prim.Native.Nat.{ℕ, ◌+◌}
use Prim.Native.String.{String}
use mathlib.Core.Path.{◌≡◌, refl}
use mathlib.Core.Logic.{inl, inr}
use mathlib.Core.Bool.{Bool, true, false, not, ◌&&◌, ◌||◌}
use mathlib.Core.List.{List, [], ◌∷◌, ◌++◌}
use native.Mathlib.Omega.{arith}
use aeronta_inventory.Base.Tests.{ltb, nat_beq, if_elim, Bool-cases, if◌then◌else◌}
use aeronta_inventory.Base.Lists.{All}

-- `<=` of texts, by their characters.
abbrev pub text_le : String → String → Bool
text_le String.[] t = true
text_le (String.◌∷◌ c s) String.[] = false
text_le (String.◌∷◌ c s) (String.◌∷◌ d t) =
    ltb (code c) (code d) || (nat_beq (code c) (code d) && text_le s t)

-- `<=` of pairs of texts.
abbrev pub texts_le : String × String → String × String → Bool
texts_le (a, b) (c, d) = not (text_le c a) || (text_le a c && text_le b d)

module _ {ℓ} {A : Type ℓ} where
  -- `sum(f(x) for x in xs)`
  abbrev pub sum_of : (A → ℕ) → List A → ℕ
  sum_of f [] = 0
  sum_of f (x ∷ xs) = f x + sum_of f xs

  pub sum_of-append : (f : A → ℕ) (xs ys : List A) → sum_of f (xs ++ ys) ≡ sum_of f xs + sum_of f ys
  sum_of-append f [] ys = omega arith
  sum_of-append f (x ∷ xs) ys = omega (arith, sum_of-append f xs ys)

  -- What is appended for a positive quantity.
  pub sum_of-append_if :
      (f : A → ℕ) (xs : List A) (n : ℕ) (x : A)
      → f x ≡ n
      → sum_of f (xs ++ (if ltb 0 n then x ∷ [] else [])) ≡ sum_of f xs + n
  sum_of-append_if f xs n x h = elim (Bool-cases (ltb 0 n)) [
    | inl positive ↦ rw positive (omega (arith, h, sum_of-append f xs (x ∷ [])))
    | inr zero_units ↦ rw zero_units (ground (arith, zero_units, sum_of-append f xs []))
  ]

  module _ {κ} (P : A → Type κ) where
    pub All-append : (xs ys : List A) → All P xs → All P ys → All P (xs ++ ys)
    All-append [] ys h k = k
    All-append (x ∷ xs) ys (p, h) k = (p, All-append xs ys h k)

  module _ (le : A → A → Bool) where
    unfoldable pub place : A → List A → List A
    place x [] = x ∷ []
    place x (y ∷ ys) = let rest = place x ys in if le x y then x ∷ y ∷ ys else y ∷ rest

    unfoldable pub sorted : List A → List A
    sorted [] = []
    sorted (x ∷ xs) = place x (sorted xs)

    pub sum_of-place : (f : A → ℕ) (x : A) (xs : List A) → sum_of f (place x xs) ≡ f x + sum_of f xs
    unfolding place
    sum_of-place f x [] = refl
    sum_of-place f x (y ∷ ys) = ground (arith, sum_of-place f x ys)

    pub sum_of-sorted : (f : A → ℕ) (xs : List A) → sum_of f (sorted xs) ≡ sum_of f xs
    unfolding sorted
    sum_of-sorted f [] = refl
    sum_of-sorted f (x ∷ xs) = omega (arith, sum_of-sorted f xs, sum_of-place f x (sorted xs))

    module _ {κ} (P : A → Type κ) where
      pub All-place : (x : A) (xs : List A) → P x → All P xs → All P (place x xs)
      unfolding place
      All-place x [] p h = (p, h)
      All-place x (y ∷ ys) p (q, h) =
          if_elim (All P) (le x y) (x ∷ y ∷ ys) (y ∷ place x ys) (λ _. (p, (q, h)))
            (λ _. (q, All-place x ys p h))

      pub All-sorted : (xs : List A) → All P xs → All P (sorted xs)
      unfolding sorted
      All-sorted [] h = h
      All-sorted (x ∷ xs) (p, h) = All-place x (sorted xs) p (All-sorted xs h)
