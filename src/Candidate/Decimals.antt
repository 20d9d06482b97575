-- ===== src/Candidate/Decimals.antt =====
-- Python's `Decimal`, as the candidate layer uses it. The laws are those of exact decimals: the
-- quantities and amounts of a candidate have far fewer than the 28 digits to which a context rounds.
-- A decimal is its number: 1.0 and 1.00 are one.
use mathlib.Core.Path.{◌≡◌}
use mathlib.Core.Logic.{◌⊎◌, ◌↔◌}
use mathlib.Core.Bool.{Bool, true}
use Prim.Native.Nat.{ℕ, suc}
use Prim.Native.String.{String}

pub record Decimals : Type 1 where
  pub D : Type 0
  pub zero_decimal : D
  pub one_decimal : D
  -- `a <= b` and `a == b`
  pub le : D → D → Bool
  pub eq : D → D → Bool
  pub add : D → D → D
  pub sub : D → D → D
  pub mul : D → D → D
  pub div : D → D → D
  pub neg : D → D
  -- `Decimal(n)`
  pub of_nat : ℕ → D
  -- `math.ceil(a)` of a number that is not negative
  pub ceil : D → ℕ
  -- `format(a, "f")`
  pub format : D → String
  -- `quantize(_CENT, rounding=ROUND_HALF_UP)`
  pub money : D → D
  pub le_refl : (a : D) → le a a ≡ true
  pub le_total : (a b : D) → (le a b ≡ true) ⊎ (le b a ≡ true)
  pub le_trans : (a b c : D) → le a b ≡ true → le b c ≡ true → le a c ≡ true
  pub eq_iff : (a b : D) → (eq a b ≡ true) ↔ (a ≡ b)
  pub zero_le_one : le zero_decimal one_decimal ≡ true
  pub add_comm : (a b : D) → add a b ≡ add b a
  pub add_assoc : (a b c : D) → add (add a b) c ≡ add a (add b c)
  pub add_zero : (a : D) → add zero_decimal a ≡ a
  pub add_neg : (a : D) → add a (neg a) ≡ zero_decimal
  pub sub_eq : (a b : D) → sub a b ≡ add a (neg b)
  pub add_le : (a b c : D) → le a b ≡ true → le (add c a) (add c b) ≡ true
  pub mul_zero : (a : D) → mul a zero_decimal ≡ zero_decimal
  pub mul_nonneg :
      (a b : D)
      → le zero_decimal a ≡ true
      → le zero_decimal b ≡ true
      → le zero_decimal (mul a b) ≡ true
  pub div_nonneg :
      (a : D) (n : ℕ) → le zero_decimal a ≡ true → le zero_decimal (div a (of_nat (suc n))) ≡ true
  pub money_nonneg : (a : D) → le zero_decimal a ≡ true → le zero_decimal (money a) ≡ true
  pub of_nat_nonneg : (n : ℕ) → le zero_decimal (of_nat n) ≡ true
  pub le_ceil : (a : D) → le a (of_nat (ceil a)) ≡ true
