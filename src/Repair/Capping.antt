-- ===== src/Repair/Capping.antt =====
-- The loop that accepts work up to the aggregate quantity in repair.
use aeronta_inventory.Base.{
  ℕ, ◌≡◌, refl, ◌+◌, ◌-◌, ◌≤◌, String, Bool, true, false, Option, List, [], ◌∷◌, ◌++◌, arith, All,
  All-append, sum_of, sum_of-append_if, if_elim, ltb, min, inl, inr, any-append, if◌then◌else◌,
}
use aeronta_inventory.Repair.{
  Order, WorkItem, Position, Exclusion, Capped, Code, cap, cap_from, valid_position, exclusion,
  aggregate_wip_cap,
}
use aeronta_inventory.Repair.Notices.{IsNoticed, is_own}
use aeronta_inventory.Repair.Screening.{IsOpenWork, Admitted, item_units}

position-valid :
    (item : WorkItem) (n age : ℕ)
    → ltb 0 n ≡ true
    → n ≤ item.quantity
    → valid_position (record { work_item = item; eligible_quantity = n; age_days = age }) ≡ true
unfolding valid_position
position-valid item n age h k = ground (arith, h, k)

notice-if :
    (xs : List Exclusion) (os : List Code) (b : Bool) (x : Exclusion)
    → IsNoticed xs os
    → IsNoticed
        (xs ++ (if b then x ∷ [] else []))
        (os ++ (if b then aggregate_wip_cap ∷ [] else []))
notice-if xs os true x h = inr (ground (arith, any-append is_own os (aggregate_wip_cap ∷ [])))
notice-if xs os false x (inl e) = inl (rw e refl)
notice-if xs os false x (inr e) = inr (rw (any-append is_own os [], e) refl)

module _ (strip lower upper : String → String) (parse : Option String → Option (Option ℕ))
    (location_code : String) (as_of : ℕ) where
  abbrev IsWork : WorkItem → Type 0
  IsWork item = IsOpenWork location_code as_of item

  -- A position that may be counted on.
  pub record IsCounted (p : Position) : Type 0 where
    pub within : valid_position p ≡ true
    pub work : IsWork p.work_item

  abbrev pub eligible : Capped → ℕ
  eligible s = sum_of Position.eligible_quantity s.included

  abbrev pub excluded : Capped → ℕ
  excluded s = sum_of Exclusion.quantity s.exclusions

  -- What a round of the loop, over `quantity` units, keeps.
  pub record IsCapped (quantity : ℕ) (s s' : Capped) : Type 0 where
    pub spent : eligible s' + s'.remaining ≡ eligible s + s.remaining
    pub divided : eligible s' + excluded s' ≡ (eligible s + excluded s) + quantity
    pub grows : excluded s ≤ excluded s'
    pub counted : All IsCounted s.included → All IsCounted s'.included
    pub noticed : IsNoticed s.exclusions s.observed → IsNoticed s'.exclusions s'.observed

  cap-spent :
      (o : Order) (item : WorkItem) (age : ℕ) (s : Capped)
      → eligible (cap strip lower upper parse o item age s)
        ≡ eligible s + min item.quantity s.remaining
  unfolding cap
  cap-spent o item age s =
      sum_of-append_if Position.eligible_quantity s.included (min item.quantity s.remaining)
        (record {
          work_item = item;
          eligible_quantity = min item.quantity s.remaining;
          age_days = age;
        })
        refl

  cap-excluded :
      (o : Order) (item : WorkItem) (age : ℕ) (s : Capped)
      → excluded (cap strip lower upper parse o item age s)
        ≡ excluded s + (item.quantity - min item.quantity s.remaining)
  unfolding cap exclusion
  cap-excluded o item age s =
      sum_of-append_if Exclusion.quantity s.exclusions
        (item.quantity - min item.quantity s.remaining)
        (exclusion strip lower upper parse o (item.quantity - min item.quantity s.remaining)
          aggregate_wip_cap)
        refl

  cap-IsCounted :
      (o : Order) (item : WorkItem) (age : ℕ) (s : Capped)
      → IsWork item
      → All IsCounted s.included
      → All IsCounted (cap strip lower upper parse o item age s).included
  unfolding cap
  cap-IsCounted o item age s w h =
      let accepted = min item.quantity s.remaining in
      let position : Position = record {
        work_item = item;
        eligible_quantity = accepted;
        age_days = age;
      } in
      All-append IsCounted s.included (if ltb 0 accepted then position ∷ [] else []) h (
        if_elim (All IsCounted) (ltb 0 accepted) (position ∷ []) []
          (λ e.
            (record { within = position-valid item accepted age e (omega arith); work = w }, tt))
          (λ _. tt))

  cap-IsNoticed :
      (o : Order) (item : WorkItem) (age : ℕ) (s : Capped)
      → IsNoticed s.exclusions s.observed
      → IsNoticed
          (cap strip lower upper parse o item age s).exclusions
          (cap strip lower upper parse o item age s).observed
  unfolding cap
  cap-IsNoticed o item age s h =
      notice-if s.exclusions s.observed (ltb 0 (item.quantity - min item.quantity s.remaining))
        (exclusion strip lower upper parse o (item.quantity - min item.quantity s.remaining)
          aggregate_wip_cap)
        h

  cap-IsCapped :
      (o : Order) (item : WorkItem) (age : ℕ) (s : Capped)
      → IsWork item
      → IsCapped item.quantity s (cap strip lower upper parse o item age s)
  unfolding cap
  cap-IsCapped o item age s w = record {
    spent = omega (arith, cap-spent o item age s);
    divided = omega (arith, cap-spent o item age s, cap-excluded o item age s);
    grows = omega (arith, cap-excluded o item age s);
    counted = λ h. cap-IsCounted o item age s w h;
    noticed = λ h. cap-IsNoticed o item age s h;
  }

  -- Over the whole loop, what is spent of the capacity is eligible, and each unit is either
  -- eligible or excluded.
  pub cap_from-IsCapped :
      (valid : List (Order × WorkItem × ℕ)) (s : Capped)
      → All (Admitted location_code as_of) valid
      → IsCapped (sum_of item_units valid) s (cap_from strip lower upper parse valid s)
  unfolding cap_from
  cap_from-IsCapped [] s h = record {
    spent = refl;
    divided = omega arith;
    grows = omega arith;
    counted = λ h. h;
    noticed = λ h. h;
  }
  cap_from-IsCapped ((o, item, age) ∷ valid) s (w, h) =
      let first = cap-IsCapped o item age s w in
      let rest = cap_from-IsCapped valid (cap strip lower upper parse o item age s) h in
      record {
        spent = omega (arith, first.spent, rest.spent);
        divided = omega (arith, first.divided, rest.divided);
        grows = omega (arith, first.grows, rest.grows);
        counted = λ h. rest.counted (first.counted h);
        noticed = λ h. rest.noticed (first.noticed h);
      }
