-- ===== src/Base/Classes.antt =====
-- Python's `==`, as an instance argument, with the law that it decides equality.
use Prim.Native.Nat.{ℕ}
use Prim.Native.String.{String}
use mathlib.Core.Path.{◌≡◌, refl}
use mathlib.Core.Logic.{◌↔◌, ◌≢◌}
use mathlib.Core.Bool.{Bool, true, false, ◌&&◌}
use native.Mathlib.Omega.{arith}
use text.Mathlib.Text.{◌==◌ as str_eq}
use text.Mathlib.TextEquality.{eq_iff}
use aeronta_inventory.Base.Tests.{nat_beq, nat_beq_iff}

-- A type whose values a test compares.
pub record Equality {κ} (K : Type κ) : Type κ where
  pub same : K → K → Bool
  pub same_iff : (x y : K) → (same x y ≡ true) ↔ (x ≡ y)

abbrev pub ◌==◌ {κ} : {K : Type κ} ⦃eq : Equality K⦄ → K → K → Bool
◌==◌ ⦃eq⦄ x y = eq.same x y

infix 50 ◌==◌
instance abbrev pub string_eq : Equality String
string_eq = record { same = str_eq; same_iff = eq_iff }

instance abbrev pub nat_eq : Equality ℕ
nat_eq = record { same = nat_beq; same_iff = nat_beq_iff }

module _ {ℓ} {A : Type ℓ} ⦃e : Equality A⦄ where
  pub ==-refl : (a : A) → (a == a) ≡ true
  ==-refl a = (e.same_iff a a).1 refl

  pub ==-ne : (a b : A) → a ≢ b → (a == b) ≡ false
  ==-ne a b ne = ground (arith, e.same_iff a b)

-- A tuple of two, compared field by field.
module _ {ℓ κ} {A : Type ℓ} {B : Type κ} ⦃e : Equality A⦄ ⦃f : Equality B⦄ where
  abbrev pub pair_beq : A × B → A × B → Bool
  pair_beq (a, b) (c, d) = a == c && b == d

  pub pair_beq_iff : (p q : A × B) → (pair_beq p q ≡ true) ↔ (p ≡ q)
  pair_beq_iff (a, b) (c, d) = ground (arith, e.same_iff a c, f.same_iff b d)

  instance abbrev pub pair_eq : Equality (A × B)
  pair_eq = record { same = pair_beq; same_iff = pair_beq_iff }

-- A tuple of three.
module _ {ℓ κ μ} {A : Type ℓ} {B : Type κ} {C : Type μ} ⦃e : Equality A⦄ ⦃f : Equality B⦄
    ⦃g : Equality C⦄ where
  abbrev pub triple_beq : A × B × C → A × B × C → Bool
  triple_beq (a, b, c) (a', b', c') = a == a' && (b == b' && c == c')

  pub triple_beq_iff : (p q : A × B × C) → (triple_beq p q ≡ true) ↔ (p ≡ q)
  triple_beq_iff (a, b, c) (a', b', c') =
      ground (arith, e.same_iff a a', f.same_iff b b', g.same_iff c c')

  instance abbrev pub triple_eq : Equality (A × B × C)
  triple_eq = record { same = triple_beq; same_iff = triple_beq_iff }
