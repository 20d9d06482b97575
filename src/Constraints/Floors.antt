-- ===== src/Constraints/Floors.antt =====
-- What the constraints promise of the values that they let through, and when they refuse.
use aeronta_inventory.Base.{
  ℕ, ◌≡◌, refl, sym, ◌∙◌, ◌+◌, ◌≤◌, ◌↔◌, String, Bool, Option, none, some, [], arith, max, ltb,
  ◌||◌, Bool-cases, inl, inr,
}
use mathlib.Core.Path.{subst}
use aeronta_inventory.Contracts.{CurrentPolicy}
use aeronta_inventory.Constraints.{
  ShelfFloats, Values, PartAttributes, Tightened, ConstraintResult, hazmat_source,
  apply_constraints, shelf_cap, hazmat_cap, tighten, defer_open, raise_floors, recheck,
}

-- A cap leaves room for `n` units.
abbrev pub Allows : Option ℕ → ℕ → Type 0
Allows none n = Unit
Allows (some bound) n = n ≤ bound

module _ {F : Type 0} (floats : ShelfFloats F) (exceeds : F → ℕ → Bool) (six_digits : F → String)
    (str : ℕ → String) where
  -- A cap never raises the maximum stock, keeps to its bound, and keeps any level that it allows.
  record IsTightened (bound : Option ℕ) (t t' : Tightened) : Type 0 where
    lower : t'.max_stock ≤ t.max_stock
    within : Allows bound t'.max_stock
    keeps : (n : ℕ) → n ≤ t.max_stock → Allows bound n → n ≤ t'.max_stock

  tighten-IsTightened :
      (bound : Option ℕ) (flag name source : String) (t : Tightened)
      → IsTightened bound t (tighten floats exceeds six_digits str bound flag name source t)
  unfolding tighten
  tighten-IsTightened none flag name source t = record {
    lower = omega arith;
    within = tt;
    keeps = λ n h a. h;
  }
  tighten-IsTightened (some b) flag name source t = record {
    lower = ground arith;
    within = ground arith;
    keeps = λ n h a. ground (arith, h, a);
  }

  recheck-some :
      (v : Values) (t : Tightened) (w : Values)
      → (recheck floats exceeds six_digits str v t).values ≡ some w
      → (v.rop + v.eoq ≤ t.max_stock)
        × (record {
          rop = v.rop;
          eoq = v.eoq;
          safety_stock = v.safety_stock;
          max_stock = t.max_stock;
        }
            ≡ w)
  unfolding recheck
  recheck-some v t w h =
      elim (Bool-cases (ltb t.max_stock (v.rop + v.eoq) || ltb v.rop v.safety_stock)) [
        | inl broken ↦ absurd (ground (arith, broken, h))
        | inr sound ↦ (ground (arith, sound), ground (arith, sound, h))
      ]

  recheck-passes :
      (v : Values) (t : Tightened)
      → v.rop + v.eoq ≤ t.max_stock
      → v.safety_stock ≤ v.rop
      → (w : Values) × ((recheck floats exceeds six_digits str v t).values ≡ some w)
  unfolding recheck
  recheck-passes v t h k = (
    record { rop = v.rop; eoq = v.eoq; safety_stock = v.safety_stock; max_stock = t.max_stock },
    ground (arith, h, k),
  )

  Allows-le : (bound : Option ℕ) (m n : ℕ) → n ≤ m → Allows bound m → Allows bound n
  Allows-le none m n h a = tt
  Allows-le (some b) m n h a = omega (arith, h, a)

  defer_open-max :
      (available : Option F) (t : Tightened)
      → (defer_open floats exceeds six_digits str available t).max_stock ≡ t.max_stock
  unfolding defer_open
  defer_open-max none t = refl
  defer_open-max (some a) t = refl

  module _ (proposed : Values) (part : PartAttributes) (current : CurrentPolicy) (demand : F)
      (min_order_qty : ℕ) (available : Option F) where
    abbrev result : Option Values
    result =
        (apply_constraints floats exceeds six_digits str proposed part current demand min_order_qty
          available).values

    abbrev shelf : Option ℕ
    shelf = shelf_cap floats exceeds six_digits str part.shelf_life_days demand

    -- The least maximum stock that the floors allow.
    abbrev floor : ℕ
    floor = max proposed.rop proposed.safety_stock + max proposed.eoq min_order_qty

    -- What holds of the values that are let through.
    pub record IsLawful (v : Values) : Type 0 where
      pub rop_floor : v.rop ≡ max proposed.rop proposed.safety_stock
      pub eoq_floor : v.eoq ≡ max proposed.eoq min_order_qty
      pub same_safety : v.safety_stock ≡ proposed.safety_stock
      pub max_floor : v.rop + v.eoq ≤ v.max_stock
      pub not_raised : v.max_stock ≤ max proposed.max_stock (v.rop + v.eoq)
      pub within_shelf_life : Allows shelf v.max_stock
      pub within_cycle : Allows (hazmat_cap part current) v.max_stock

    abbrev raised : Values
    raised = (raise_floors floats exceeds six_digits str proposed min_order_qty).0

    abbrev after_floors : Tightened
    after_floors = record {
      max_stock = raised.max_stock;
      flags = [];
      applied = (raise_floors floats exceeds six_digits str proposed min_order_qty).1;
    }

    abbrev after_shelf : Tightened
    after_shelf =
        tighten floats exceeds six_digits str shelf "shelf_life_clamped" "shelf_life_cap"
          "part_attributes.shelf_life_days" after_floors

    abbrev after_cycle : Tightened
    after_cycle =
        tighten floats exceeds six_digits str (hazmat_cap part current) "hazmat_tool_capped"
          "hazmat_tool_cycle_cap" (hazmat_source part.hazardous_material part.tool_control_item)
          after_shelf

    abbrev checked : ConstraintResult
    checked =
        recheck floats exceeds six_digits str raised
          (defer_open floats exceeds six_digits str available after_cycle)

    result-eq : result ≡ checked.values
    unfolding apply_constraints
    result-eq = refl

    raised-floors :
        (raised.rop ≡ max proposed.rop proposed.safety_stock)
        × ((raised.eoq ≡ max proposed.eoq min_order_qty)
            × ((raised.safety_stock ≡ proposed.safety_stock)
                × (raised.max_stock ≡ max proposed.max_stock (raised.rop + raised.eoq))))
    unfolding raise_floors
    raised-floors = (refl, (refl, (refl, refl)))

    abbrev by_shelf : IsTightened shelf after_floors after_shelf
    by_shelf =
        tighten-IsTightened shelf "shelf_life_clamped" "shelf_life_cap"
          "part_attributes.shelf_life_days" after_floors

    abbrev by_cycle : IsTightened (hazmat_cap part current) after_shelf after_cycle
    by_cycle =
        tighten-IsTightened (hazmat_cap part current) "hazmat_tool_capped" "hazmat_tool_cycle_cap"
          (hazmat_source part.hazardous_material part.tool_control_item) after_shelf

    abbrev deferred : Tightened
    deferred = defer_open floats exceeds six_digits str available after_cycle

    -- The values that the constraints let through are the proposed ones with the reorder point
    -- raised to the safety stock and the order quantity to its minimum, and a maximum stock that is
    -- at least their sum, within the caps of the shelf life and of the cycle, and raised no further
    -- than the sum asks for.
    pub apply_constraints-IsLawful : (v : Values) → result ≡ some v → IsLawful v
    apply_constraints-IsLawful v h =
        let (room, e) = recheck-some raised deferred v (sym result-eq ∙ h) in
        let (rop, (eoq, (safety, top))) = raised-floors in
        let same = defer_open-max available after_cycle in
        subst IsLawful e (record {
          rop_floor = rop;
          eoq_floor = eoq;
          same_safety = safety;
          max_floor = room;
          not_raised = omega (arith, same, by_cycle.lower, by_shelf.lower, top);
          within_shelf_life =
              Allows-le shelf after_shelf.max_stock deferred.max_stock
                (omega (arith, same, by_cycle.lower)) by_shelf.within;
          within_cycle =
              Allows-le (hazmat_cap part current) after_cycle.max_stock deferred.max_stock
                (omega (arith, same)) by_cycle.within;
        })

    -- The constraints let a policy through exactly if the cap of the shelf life and the cap of the
    -- cycle, where they apply, each leave room for the raised reorder point and order quantity.
    pub apply_constraints-some_iff :
        ((v : Values) × (result ≡ some v))
        ↔ (Allows shelf floor × Allows (hazmat_cap part current) floor)
    apply_constraints-some_iff = (
      λ (v, h).
          let l = apply_constraints-IsLawful v h in
          let low : floor ≤ v.max_stock = omega (arith, l.max_floor, l.rop_floor, l.eoq_floor) in
          (
            Allows-le shelf v.max_stock floor low l.within_shelf_life,
            Allows-le (hazmat_cap part current) v.max_stock floor low l.within_cycle,
          ),
      λ (a, b).
          let (rop, (eoq, (safety, top))) = raised-floors in
          let same = defer_open-max available after_cycle in
          let room =
            by_cycle.keeps floor (by_shelf.keeps floor (omega (arith, top, rop, eoq)) a) b in
          let (w, e) =
            recheck-passes raised deferred (omega (arith, room, same, rop, eoq))
              (omega (arith, rop, safety)) in
          (w, result-eq ∙ e),
    )
