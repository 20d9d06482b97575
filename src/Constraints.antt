-- ===== src/Constraints.antt =====
-- services/recommendation-engine/src/trax_io_reco/policy/constraints.py: the hard constraints on a
-- computed policy. The quantities are counts, so that none is below 0.
pub mod Floors
use aeronta_inventory.Base.{
  ℕ, ◌+◌, ◌*◌, String, ◌<>◌, Bool, true, false, not, ◌&&◌, ◌||◌, Option, none, some, List, [], ◌∷◌,
  ◌++◌, ltb, nat_beq, max, if◌then◌else◌,
}
use aeronta_inventory.Contracts.{AppliedConstraint, CurrentPolicy}

-- The fields of `PartAttributes` that are read.
pub record PartAttributes : Type 0 where
  pub shelf_life_days : Option ℕ
  pub hazardous_material : Bool
  pub tool_control_item : Bool

-- `(rop, eoq, safety_stock, max_stock)`.
pub record Values : Type 0 where
  pub rop : ℕ
  pub eoq : ℕ
  pub safety_stock : ℕ
  pub max_stock : ℕ

pub record ConstraintResult : Type 0 where
  pub values : Option Values
  pub flags : List String
  pub violation : Option String
  pub applied_constraints : List AppliedConstraint

-- The state of the function between two constraints.
pub record Tightened : Type 0 where
  pub max_stock : ℕ
  pub flags : List String
  pub applied : List AppliedConstraint

abbrev pub differ : ℕ → ℕ → Bool
differ a b = not (nat_beq a b)

abbrev pub hazmat_source : Bool → Bool → String
hazmat_source true true = "part_attributes.hazardous_material+tool_control_item"
hazmat_source true false = "part_attributes.hazardous_material"
hazmat_source false tool = "part_attributes.tool_control_item"

-- The cap of hazardous and tool-control parts.
unfoldable pub hazmat_cap : PartAttributes → CurrentPolicy → Option ℕ
hazmat_cap part current =
    if (part.hazardous_material || part.tool_control_item) && ltb 0 current.max_stock
    then some (2 * current.max_stock)
    else none

-- The float operations of the shelf life; `floor_int a` is `int(math.floor(a))` of a finite float that is
-- not negative. A demand for which the product is infinite or a NaN is left out: there it raises.
pub record ShelfFloats (F : Type 0) : Type 0 where
  pub zero_float : F
  pub point_six : F
  pub less : F → F → Bool
  pub mul : F → F → F
  pub of_nat : ℕ → F
  pub floor_int : F → ℕ

-- `max(a, 0.0)`
abbrev pub larger_or_zero : {F : Type 0} → ShelfFloats F → F → F
larger_or_zero f a = if f.less a f.zero_float then f.zero_float else a

-- `int(math.floor(0.6 * days * max(demand, 0.0)))`
unfoldable pub usable : {F : Type 0} → ShelfFloats F → ℕ → F → ℕ
usable f days demand =
    f.floor_int (f.mul (f.mul f.point_six (f.of_nat days)) (larger_or_zero f demand))

-- A float is of type `F`: `exceeds a n` is `a > n`, `six_digits` is `format(a, ".6g")`, and `str` prints
-- a count.
module _ {F : Type 0} (floats : ShelfFloats F) (exceeds : F → ℕ → Bool) (six_digits : F → String)
    (str : ℕ → String) where
  abbrev pub constraint : String → String → Bool → String → AppliedConstraint
  constraint name value binding source = record {
    name = name;
    value = some value;
    binding = binding;
    source = source;
  }

  -- The cap of the shelf life; 0 days count as none.
  unfoldable pub shelf_cap : Option ℕ → F → Option ℕ
  shelf_cap none demand = none
  shelf_cap (some days) demand = if nat_beq days 0 then none else some (usable floats days demand)

  -- A cap on the maximum stock.
  unfoldable pub tighten : Option ℕ → String → String → String → Tightened → Tightened
  tighten none flag name source t = t
  tighten (some cap) flag name source t =
      let over = ltb cap t.max_stock in
      let new : ℕ = if over then cap else t.max_stock in
      record {
        max_stock = new;
        flags = if over then t.flags ++ flag ∷ [] else t.flags;
        applied = t.applied ++ constraint name (str cap) (differ new t.max_stock) source ∷ [];
      }

  -- The open-order deferral.
  unfoldable pub defer_open : Option F → Tightened → Tightened
  defer_open none t = t
  defer_open (some units) t = record {
    max_stock = t.max_stock;
    flags = if exceeds units t.max_stock then t.flags ++ "open_order_deferral" ∷ [] else t.flags;
    applied =
        t.applied
        ++ constraint "open_order_deferral" (six_digits units) (exceeds units t.max_stock)
            "stock_position.serviceable+open_orders_snapshot"
          ∷ [];
  }

  -- The three floors at the start.
  unfoldable pub raise_floors : Values → ℕ → Values × List AppliedConstraint
  raise_floors v min_order_qty =
      let eoq = max v.eoq min_order_qty in
      let rop = max v.rop v.safety_stock in
      let max_stock = max v.max_stock (rop + eoq) in
      (
        record { rop = rop; eoq = eoq; safety_stock = v.safety_stock; max_stock = max_stock },
        constraint "minimum_order_quantity" (str min_order_qty) (differ eoq v.eoq)
              "vendor_economics.minimum_order_qty"
            ∷ constraint "reorder_point_floor" (str v.safety_stock)
                (differ rop v.rop || nat_beq rop v.safety_stock) "policy.floor.rop_gte_safety_stock"
            ∷ constraint "maximum_stock_floor" (str (rop + eoq))
                (differ max_stock v.max_stock || nat_beq max_stock (rop + eoq))
                "policy.floor.max_gte_rop_plus_eoq"
            ∷ [],
      )

  -- The test of the floors at the end, with its test for a stock below 0.
  unfoldable pub recheck : Values → Tightened → ConstraintResult
  recheck v t =
      if ltb t.max_stock (v.rop + v.eoq) || (ltb v.rop v.safety_stock || ltb t.max_stock 0)
      then record {
        values = none;
        flags = t.flags;
        violation = some (
            "floor_violation rop="
            <> (str v.rop
                <> (" eoq="
                    <> (str v.eoq
                        <> (" ss=" <> (str v.safety_stock <> (" max=" <> str t.max_stock)))))));
        applied_constraints = t.applied;
      }
      else record {
        values = some (record {
          rop = v.rop;
          eoq = v.eoq;
          safety_stock = v.safety_stock;
          max_stock = t.max_stock;
        });
        flags = t.flags;
        violation = none;
        applied_constraints = t.applied;
      }

  -- `apply_constraints`.
  unfoldable pub apply_constraints :
      Values → PartAttributes → CurrentPolicy → F → ℕ → Option F → ConstraintResult
  apply_constraints proposed part current demand min_order_qty available =
      let (v, applied) = raise_floors proposed min_order_qty in
      let shelf =
        tighten (shelf_cap part.shelf_life_days demand) "shelf_life_clamped" "shelf_life_cap"
          "part_attributes.shelf_life_days"
          (record { max_stock = v.max_stock; flags = []; applied = applied }) in
      let capped =
        tighten (hazmat_cap part current) "hazmat_tool_capped" "hazmat_tool_cycle_cap"
          (hazmat_source part.hazardous_material part.tool_control_item) shelf in
      recheck v (defer_open available capped)
