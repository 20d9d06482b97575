-- ===== src/Tests/Amounts.antt =====
-- Whole numbers as decimals.
use aeronta_inventory.Base.{
  ◌↔◌, ℕ, suc, ◌+◌, ◌-◌, ◌*◌, ◌/◌, ◌≡◌, ◌⊎◌, refl, String, Bool, true, false, arith, leb, nat_beq,
  if◌then◌else◌,
}
use aeronta_inventory.Base.Int.{ℤ, pos, negsuc}
use aeronta_inventory.Candidate.Decimals.{Decimals}
use aeronta_inventory.Tests.Fixtures.{print}

abbrev int_le : ℤ → ℤ → Bool
int_le (pos a) (pos b) = leb a b
int_le (pos a) (negsuc b) = false
int_le (negsuc a) (pos b) = true
int_le (negsuc a) (negsuc b) = leb b a

abbrev int_eq : ℤ → ℤ → Bool
int_eq (pos a) (pos b) = nat_beq a b
int_eq (pos a) (negsuc b) = false
int_eq (negsuc a) (pos b) = false
int_eq (negsuc a) (negsuc b) = nat_beq a b

-- `a - b`
abbrev minus : ℕ → ℕ → ℤ
minus a b = if leb b a then pos (a - b) else negsuc (b - suc a)

abbrev int_add : ℤ → ℤ → ℤ
int_add (pos a) (pos b) = pos (a + b)
int_add (pos a) (negsuc b) = minus a (suc b)
int_add (negsuc a) (pos b) = minus b (suc a)
int_add (negsuc a) (negsuc b) = negsuc (suc (a + b))

abbrev int_neg : ℤ → ℤ
int_neg (pos a) = minus 0 a
int_neg (negsuc a) = pos (suc a)

abbrev int_abs : ℤ → ℕ
int_abs (pos a) = a
int_abs (negsuc a) = suc a

abbrev int_mul : ℤ → ℤ → ℤ
int_mul (pos a) (pos b) = pos (a * b)
int_mul (pos a) (negsuc b) = minus 0 (a * suc b)
int_mul (negsuc a) (pos b) = minus 0 (suc a * b)
int_mul (negsuc a) (negsuc b) = pos (suc a * suc b)

abbrev int_div : ℤ → ℤ → ℤ
int_div (pos a) b = pos (a / int_abs b)
int_div (negsuc a) b = minus 0 (suc a / int_abs b)

abbrev int_print : ℤ → String
int_print (pos a) = print a
int_print (negsuc a) = print (suc a)

pub int_le_refl : (a : ℤ) → int_le a a ≡ true
int_le_refl (pos a) = ground arith
int_le_refl (negsuc a) = ground arith

pub int_le_total : (a b : ℤ) → (int_le a b ≡ true) ⊎ (int_le b a ≡ true)
int_le_total (pos a) (pos b) = ground arith
int_le_total (pos a) (negsuc b) = ground arith
int_le_total (negsuc a) (pos b) = ground arith
int_le_total (negsuc a) (negsuc b) = ground arith

pub int_le_trans : (a b c : ℤ) → int_le a b ≡ true → int_le b c ≡ true → int_le a c ≡ true
int_le_trans (pos a) (pos b) (pos c) h k = ground arith
int_le_trans (pos a) (pos b) (negsuc c) h k = absurd (ground arith)
int_le_trans (pos a) (negsuc b) c h k = absurd (ground arith)
int_le_trans (negsuc a) (pos b) (pos c) h k = refl
int_le_trans (negsuc a) (pos b) (negsuc c) h k = absurd (ground arith)
int_le_trans (negsuc a) (negsuc b) (pos c) h k = refl
int_le_trans (negsuc a) (negsuc b) (negsuc c) h k = ground arith

pub int_eq_iff : (a b : ℤ) → (int_eq a b ≡ true) ↔ (a ≡ b)
int_eq_iff (pos a) (pos b) = ground arith
int_eq_iff (pos a) (negsuc b) = ground arith
int_eq_iff (negsuc a) (pos b) = ground arith
int_eq_iff (negsuc a) (negsuc b) = ground arith

pub int_add_comm : (a b : ℤ) → int_add a b ≡ int_add b a
int_add_comm (pos a) (pos b) = ground arith
int_add_comm (pos a) (negsuc b) = refl
int_add_comm (negsuc a) (pos b) = refl
int_add_comm (negsuc a) (negsuc b) = ground arith

pub int_add_assoc : (a b c : ℤ) → int_add (int_add a b) c ≡ int_add a (int_add b c)
int_add_assoc (pos a) (pos b) (pos c) = ground arith
int_add_assoc (pos a) (pos b) (negsuc c) = ground arith
int_add_assoc (pos a) (negsuc b) (pos c) = ground arith
int_add_assoc (pos a) (negsuc b) (negsuc c) = ground arith
int_add_assoc (negsuc a) (pos b) (pos c) = ground arith
int_add_assoc (negsuc a) (pos b) (negsuc c) = ground arith
int_add_assoc (negsuc a) (negsuc b) (pos c) = ground arith
int_add_assoc (negsuc a) (negsuc b) (negsuc c) = ground arith

pub int_add_zero : (a : ℤ) → int_add (pos 0) a ≡ a
int_add_zero (pos a) = ground arith
int_add_zero (negsuc a) = ground arith

pub int_add_neg : (a : ℤ) → int_add a (int_neg a) ≡ pos 0
int_add_neg (pos a) = ground arith
int_add_neg (negsuc a) = ground arith

pub int_add_le : (a b c : ℤ) → int_le a b ≡ true → int_le (int_add c a) (int_add c b) ≡ true
int_add_le (pos a) (pos b) (pos c) h = ground arith
int_add_le (pos a) (pos b) (negsuc c) h = ground arith
int_add_le (pos a) (negsuc b) c h = absurd (ground arith)
int_add_le (negsuc a) (pos b) (pos c) h = ground arith
int_add_le (negsuc a) (pos b) (negsuc c) h = ground arith
int_add_le (negsuc a) (negsuc b) (pos c) h = ground arith
int_add_le (negsuc a) (negsuc b) (negsuc c) h = ground arith

pub int_mul_zero : (a : ℤ) → int_mul a (pos 0) ≡ pos 0
int_mul_zero (pos a) = ground arith
int_mul_zero (negsuc a) = ground arith

pub int_mul_nonneg :
    (a b : ℤ)
    → int_le (pos 0) a ≡ true
    → int_le (pos 0) b ≡ true
    → int_le (pos 0) (int_mul a b) ≡ true
int_mul_nonneg (pos a) (pos b) h k = ground arith
int_mul_nonneg (pos a) (negsuc b) h k = absurd (ground arith)
int_mul_nonneg (negsuc a) b h k = absurd (ground arith)

pub int_div_nonneg :
    (a : ℤ) (n : ℕ) → int_le (pos 0) a ≡ true → int_le (pos 0) (int_div a (pos (suc n))) ≡ true
int_div_nonneg (pos a) n h = ground arith
int_div_nonneg (negsuc a) n h = absurd (ground arith)

pub int_le_ceil : (a : ℤ) → int_le a (pos (int_abs a)) ≡ true
int_le_ceil (pos a) = ground arith
int_le_ceil (negsuc a) = refl

pub leb_zero : (n : ℕ) → leb 0 n ≡ true
leb_zero n = ground arith

abbrev pub whole : Decimals
whole = record {
  D = ℤ;
  zero_decimal = pos 0;
  one_decimal = pos 1;
  le = int_le;
  eq = int_eq;
  add = int_add;
  sub = λ a b. int_add a (int_neg b);
  mul = int_mul;
  div = int_div;
  neg = int_neg;
  of_nat = pos;
  ceil = int_abs;
  format = int_print;
  money = λ a. a;
  le_refl = int_le_refl;
  le_total = int_le_total;
  le_trans = int_le_trans;
  eq_iff = int_eq_iff;
  zero_le_one = refl;
  add_comm = int_add_comm;
  add_assoc = int_add_assoc;
  add_zero = int_add_zero;
  add_neg = int_add_neg;
  sub_eq = λ a b. refl;
  add_le = int_add_le;
  mul_zero = int_mul_zero;
  mul_nonneg = int_mul_nonneg;
  div_nonneg = int_div_nonneg;
  money_nonneg = λ a h. h;
  of_nat_nonneg = leb_zero;
  le_ceil = int_le_ceil;
}
