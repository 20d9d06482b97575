-- ===== src/Tests/Constrained.antt =====
-- A policy under the constraints. Floats are stood for by counts of units.
use aeronta_inventory.Base.{
  ℕ, ◌*◌, ◌/◌, ◌≡◌, ◌↔◌, refl, String, Bool, true, false, Option, none, some, ltb,
}
use aeronta_inventory.Contracts.{CurrentPolicy}
use aeronta_inventory.Constraints.{
  ShelfFloats, usable, Values, PartAttributes, apply_constraints, shelf_cap, hazmat_cap,
  raise_floors, tighten, defer_open, recheck,
}
use aeronta_inventory.Constraints.Floors.{
  IsLawful, Allows, apply_constraints-IsLawful, apply_constraints-some_iff,
}

abbrev tenths : ShelfFloats ℕ
tenths = record {
  zero_float = 0;
  point_six = 6;
  less = ltb;
  mul = λ a b. a * b;
  of_nat = λ n. n;
  floor_int = λ a. a / 10;
}

abbrev exceeds_units : ℕ → ℕ → Bool
exceeds_units a n = ltb n a

abbrev six_digits : ℕ → String
six_digits n = "n"

abbrev printed : ℕ → String
printed n = "n"

abbrev proposed : Values
proposed = record { rop = 3; eoq = 2; safety_stock = 4; max_stock = 90 }

abbrev perishable : PartAttributes
perishable = record {
  shelf_life_days = some 50;
  hazardous_material = true;
  tool_control_item = false;
}

abbrev current : CurrentPolicy
current = record { rop = 2; eoq = 2; safety_stock = 1; max_stock = 10 }

abbrev constrained : Option Values
constrained =
    (apply_constraints tenths exceeds_units six_digits printed proposed perishable current 2 5
      none).values

abbrev expected : Values
expected = record { rop = 4; eoq = 5; safety_stock = 4; max_stock = 20 }

-- The cap of the shelf life is 60, that of the cycle 20.
constrained_eq : constrained ≡ some expected
unfolding apply_constraints shelf_cap hazmat_cap raise_floors tighten defer_open recheck usable
constrained_eq = refl

apply_constraints-IsLawful_example :
    IsLawful tenths exceeds_units six_digits printed proposed perishable current 2 5 none expected
apply_constraints-IsLawful_example =
    apply_constraints-IsLawful tenths exceeds_units six_digits printed proposed perishable current 2
      5 none expected constrained_eq

apply_constraints-some_iff_example : ((v : Values) × (constrained ≡ some v)) ↔ (
    Allows (shelf_cap tenths exceeds_units six_digits printed (some 50) 2) 9
    × Allows (hazmat_cap perishable current) 9)
apply_constraints-some_iff_example =
    apply_constraints-some_iff tenths exceeds_units six_digits printed proposed perishable current 2
      5 none
