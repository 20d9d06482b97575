-- ===== src/Candidate/Amounts.antt =====
-- Sums, maxima and minima of decimals, and what the arithmetic of the candidate layer relies on.
pub mod Groups
use mathlib.Core.Path.{subst}
use aeronta_inventory.Base.{
  ◌≡◌, refl, sym, ap, ◌∙◌, Bool, true, false, not, List, [], ◌∷◌, All, arith, if◌then◌else◌,
}
use aeronta_inventory.Candidate.Decimals.{Decimals}

module _ (decimals : Decimals) where
  open decimals use {
    D, zero_decimal, one_decimal, le, eq, add, sub, neg, le_refl, le_total, le_trans, eq_iff,
    zero_le_one, add_comm, add_assoc, add_zero, add_neg, sub_eq, add_le,
  }

  -- `max(a, b)`
  unfoldable pub larger : D → D → D
  larger a b = if le b a then a else b

  -- `min(a, b)`
  unfoldable pub smaller : D → D → D
  smaller a b = if le a b then a else b

  -- `sum((f(x) for x in xs if p(x)), a)`
  unfoldable pub sum_from : {A : Type 0} → D → (A → Bool) → (A → D) → List A → D
  sum_from a p f [] = a
  sum_from a p f (x ∷ xs) = sum_from (if p x then add a (f x) else a) p f xs

  pub eq_refl : (a : D) → eq a a ≡ true
  eq_refl a = (eq_iff a a).1 refl

  pub larger_left : (a b : D) → le a (larger a b) ≡ true
  unfolding larger
  larger_left a b = ground (arith, le_refl a, le_total a b)

  pub larger_right : (a b : D) → le b (larger a b) ≡ true
  unfolding larger
  larger_right a b = ground (arith, le_refl b)

  pub larger_least : (a b c : D) → le a c ≡ true → le b c ≡ true → le (larger a b) c ≡ true
  unfolding larger
  larger_least a b c h k = ground (arith, h, k)

  pub smaller_left : (a b : D) → le (smaller a b) a ≡ true
  unfolding smaller
  smaller_left a b = ground (arith, le_refl a, le_total a b)

  pub smaller_right : (a b : D) → le (smaller a b) b ≡ true
  unfolding smaller
  smaller_right a b = ground (arith, le_refl b)

  pub smaller_greatest : (a b c : D) → le c a ≡ true → le c b ≡ true → le c (smaller a b) ≡ true
  unfolding smaller
  smaller_greatest a b c h k = ground (arith, h, k)

  pub add_nonneg :
      (a b : D)
      → le zero_decimal a ≡ true
      → le zero_decimal b ≡ true
      → le zero_decimal (add a b) ≡ true
  add_nonneg a b h k = le_trans zero_decimal a (add a b) h (
      subst (λ z. le z (add a b) ≡ true) (add_comm a zero_decimal ∙ add_zero a)
        (add_le zero_decimal b a k))

  pub sum_from-nonneg :
      {A : Type 0} (a : D) (p : A → Bool) (f : A → D) (xs : List A)
      → le zero_decimal a ≡ true
      → All (λ x. le zero_decimal (f x) ≡ true) xs
      → le zero_decimal (sum_from a p f xs) ≡ true
  unfolding sum_from
  sum_from-nonneg a p f [] h k = h
  sum_from-nonneg a p f (x ∷ xs) h (q, k) =
      sum_from-nonneg (if p x then add a (f x) else a) p f xs
        (ground (arith, h, add_nonneg a (f x) h q)) k
