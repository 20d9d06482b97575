-- ===== src/Candidate/Amounts/Groups.antt =====
-- Decimals as an ordered group.
use mathlib.Core.Path.{subst}
use aeronta_inventory.Base.{◌≡◌, refl, sym, ap, ◌∙◌, true}
use aeronta_inventory.Candidate.Decimals.{Decimals}
use aeronta_inventory.Candidate.Amounts.{larger}

module _ (decimals : Decimals) where
  open decimals use {
    D, zero_decimal, le, add, sub, neg, le_refl, le_trans, le_total, add_comm, add_assoc, add_zero,
    add_neg, sub_eq, add_le,
  }

  pub add_last : (a : D) → add a zero_decimal ≡ a
  add_last a = add_comm a zero_decimal ∙ add_zero a

  neg_zero : neg zero_decimal ≡ zero_decimal
  neg_zero = sym (add_zero (neg zero_decimal)) ∙ add_neg zero_decimal

  pub sub_zero : (a : D) → sub a zero_decimal ≡ a
  sub_zero a = sub_eq a zero_decimal ∙ (ap (add a) neg_zero ∙ add_last a)

  pub add_sub : (a b : D) → add b (sub a b) ≡ a
  add_sub a b =
      add_comm b (sub a b)
      ∙ (ap (λ x. add x b) (sub_eq a b)
          ∙ (add_assoc a (neg b) b ∙ (ap (add a) (add_comm (neg b) b ∙ add_neg b) ∙ add_last a)))

  pub le_of_sub : (a b c : D) → le (sub a b) c ≡ true → le a (add b c) ≡ true
  le_of_sub a b c h = subst (λ x. le x (add b c) ≡ true) (add_sub a b) (add_le (sub a b) c b h)

  pub sub_nonneg : (a b : D) → le b a ≡ true → le zero_decimal (sub a b) ≡ true
  sub_nonneg a b h =
      subst (λ x. le zero_decimal x ≡ true) (add_comm (neg b) a ∙ sym (sub_eq a b))
        (subst (λ x. le x (add (neg b) a) ≡ true) (add_comm (neg b) b ∙ add_neg b)
          (add_le b a (neg b) h))

  -- What is not negative has no shortfall.
  pub shortfall-zero :
      (a : D) → le zero_decimal a ≡ true → larger decimals zero_decimal (neg a) ≡ zero_decimal
  unfolding larger
  shortfall-zero a h =
      let below : le (neg a) zero_decimal ≡ true =
        subst (λ x. le x zero_decimal ≡ true) (add_last (neg a))
          (subst (λ x. le (add (neg a) zero_decimal) x ≡ true) (add_comm (neg a) a ∙ add_neg a)
            (add_le zero_decimal a (neg a) h)) in
      rw below refl

  pub add_le_both : (a b c d : D) → le a b ≡ true → le c d ≡ true → le (add a c) (add b d) ≡ true
  add_le_both a b c d h k = le_trans (add a c) (add a d) (add b d) (add_le c d a k) (
      subst (λ x. le x (add b d) ≡ true) (add_comm d a)
        (subst (λ x. le (add d a) x ≡ true) (add_comm d b) (add_le a b d h)))

  pub sub_nonpos : (a b : D) → le a b ≡ true → le (sub a b) zero_decimal ≡ true
  sub_nonpos a b h =
      subst (λ x. le x zero_decimal ≡ true) (add_comm (neg b) a ∙ sym (sub_eq a b))
        (subst (λ x. le (add (neg b) a) x ≡ true) (add_comm (neg b) b ∙ add_neg b)
          (add_le a b (neg b) h))
