-- ===== src/EventLane/Adapters/Demand.antt =====
-- The scheduled demand that `BundleInventoryState` reports.
use mathlib.Core.Path.{subst}
use aeronta_inventory.Base.{
  ℕ, ◌≤◌, ◌+◌, ◌≡◌, refl, sym, ap, ◌∙◌, String, ◌&&◌, Option, none, some, List, [], ◌∷◌, All, map,
  arith, inl, inr, ◌⊎◌, Bool-cases, if_elim, sum_of, string_eq, pair_eq, ◌==◌,
}
use aeronta_inventory.Base.Sort.{place, sorted, All-place, sum_of-sorted}
use aeronta_inventory.Base.Shuffle.{Shuffle, All-imp, map-Shuffle, sorted-is_Shuffle}
use aeronta_inventory.EventLane.Bundles.{RequisitionLine, RequisitionSnapshot, FeatureBundle}
use aeronta_inventory.EventLane.Adapters.{
  ScheduledDemandItem, DemandStatus, BundleInventoryState, Dated, dated_le, date_line, dated_lines,
  demand_item, demand_items, then_get, checked_requisition,
}
use aeronta_inventory.EventLane.Adapters.State.{
  found, snapshot_of, own_tenant, on_snapshot, get_scheduled_demand, get_scheduled_demand_status,
}
use aeronta_inventory.EventLane.Adapters.State as State
use aeronta_inventory.EventLane.Adapters.Isolation.{then_get-some, texts_same, some_injective}

-- Day, quantity and requisition of an item, and of each line that has a date.
abbrev Entry : Type 0
Entry = ℕ × ℕ × String

abbrev pub entry : ScheduledDemandItem → Entry
entry x = (x.due_date, x.qty, x.source_ref)

abbrev pub dated_entry : RequisitionLine → List Entry → List Entry
dated_entry line rest = elim line.need_by [
  | none ↦ rest
  | some d ↦ (d, line.qty_needed, line.requisition_id) ∷ rest
]

abbrev pub dated_entries : List RequisitionLine → List Entry
dated_entries [] = []
dated_entries (line ∷ lines) = dated_entry line (dated_entries lines)

abbrev entry_of : Dated → Entry
entry_of d = entry (demand_item d)

map-entries : (l : List Dated) → map entry (map demand_item l) ≡ map entry_of l
map-entries [] = refl
map-entries (x ∷ l) = ap (λ r. entry_of x ∷ r) (map-entries l)

date_line-entries :
    (line : RequisitionLine) (d : Option ℕ) (rest : List Dated)
    → map entry_of (date_line line d rest) ≡ elim d [
      | none ↦ map entry_of rest
      | some d ↦ (d, line.qty_needed, line.requisition_id) ∷ map entry_of rest
    ]
date_line-entries line none rest = refl
date_line-entries line (some d) rest = refl

dated_lines-entries :
    (lines : List RequisitionLine) → map entry_of (dated_lines lines) ≡ dated_entries lines
unfolding dated_lines
dated_lines-entries [] = refl
dated_lines-entries (line ∷ lines) =
    date_line-entries line line.need_by (dated_lines lines)
    ∙ ap (dated_entry line) (dated_lines-entries lines)

-- The items of some lines are the dated ones.
demand_items-Shuffle :
    (lines : List RequisitionLine) → Shuffle (map entry (demand_items lines)) (dated_entries lines)
unfolding demand_items
demand_items-Shuffle lines =
    rw (map-entries (sorted dated_le (dated_lines lines)), ← dated_lines-entries lines)
      (map-Shuffle entry_of (sorted-is_Shuffle dated_le (dated_lines lines)))

-- Earlier items first.
abbrev pub ByDate : List ScheduledDemandItem → Type 0
ByDate [] = Unit
ByDate (x ∷ l) = All (λ y. x.due_date ≤ y.due_date) l × ByDate l

abbrev ByDay : List Dated → Type 0
ByDay [] = Unit
ByDay (x ∷ l) = All (λ y. x.0 ≤ y.0) l × ByDay l

place-ByDay : (x : Dated) (l : List Dated) → ByDay l → ByDay (place dated_le x l)
unfolding place
place-ByDay x [] h = (tt, tt)
place-ByDay x (y ∷ l) (h, s) =
    if_elim ByDay (dated_le x y) (x ∷ y ∷ l) (y ∷ place dated_le x l)
      (λ e.
        let first : x.0 ≤ y.0 = ground (arith, e) in
        (
          (first, All-imp (λ z. y.0 ≤ z.0) (λ z. x.0 ≤ z.0) (λ z k. omega (arith, first, k)) l h),
          (h, s),
        ))
      (λ e. (All-place dated_le (λ z. y.0 ≤ z.0) x l (ground (arith, e)) h, place-ByDay x l s))

sorted-ByDay : (l : List Dated) → ByDay (sorted dated_le l)
unfolding sorted
sorted-ByDay [] = tt
sorted-ByDay (x ∷ l) = place-ByDay x (sorted dated_le l) (sorted-ByDay l)

All-items :
    (d : ℕ) (l : List Dated) → All (λ y. d ≤ y.0) l → All (λ y. d ≤ y.due_date) (map demand_item l)
All-items d [] h = tt
All-items d (x ∷ l) (p, h) = (p, All-items d l h)

items-ByDate : (l : List Dated) → ByDay l → ByDate (map demand_item l)
items-ByDate [] h = tt
items-ByDate (x ∷ l) (p, h) = (All-items x.0 l p, items-ByDate l h)

-- The units that have a date.
abbrev pub dated_units : RequisitionLine → ℕ
dated_units line = elim line.need_by [ none ↦ 0 | some _ ↦ line.qty_needed ]

abbrev units : Dated → ℕ
units d = d.1.qty_needed

sum_of-items :
    (l : List Dated) → sum_of ScheduledDemandItem.qty (map demand_item l) ≡ sum_of units l
sum_of-items [] = refl
sum_of-items (x ∷ l) = omega (arith, sum_of-items l)

sum_of-date_line :
    (line : RequisitionLine) (d : Option ℕ) (rest : List Dated)
    → sum_of units (date_line line d rest)
      ≡ elim d [ none ↦ 0 | some _ ↦ line.qty_needed ] + sum_of units rest
sum_of-date_line line none rest = omega arith
sum_of-date_line line (some d) rest = refl

sum_of-dated_lines :
    (lines : List RequisitionLine) → sum_of units (dated_lines lines) ≡ sum_of dated_units lines
unfolding dated_lines
sum_of-dated_lines [] = refl
sum_of-dated_lines (line ∷ lines) =
    sum_of-date_line line line.need_by (dated_lines lines)
    ∙ ap (λ n. dated_units line + n) (sum_of-dated_lines lines)

-- The items of some lines are in the order of their dates, and have all the dated units.
pub demand_items-ByDate : (lines : List RequisitionLine) → ByDate (demand_items lines)
unfolding demand_items
demand_items-ByDate lines =
    items-ByDate (sorted dated_le (dated_lines lines)) (sorted-ByDay (dated_lines lines))

pub sum_of-demand_items :
    (lines : List RequisitionLine)
    → sum_of ScheduledDemandItem.qty (demand_items lines) ≡ sum_of dated_units lines
unfolding demand_items
sum_of-demand_items lines =
    sum_of-items (sorted dated_le (dated_lines lines))
    ∙ (sum_of-sorted dated_le units (dated_lines lines) ∙ sum_of-dated_lines lines)

checked_requisition-own :
    (tenant pn location : String) (s s' : RequisitionSnapshot)
    → checked_requisition tenant pn location s ≡ some s'
    → (s ≡ s') × ((s.tenant_id ≡ tenant) × ((s.pn ≡ pn) × (s.location ≡ location)))
unfolding checked_requisition
checked_requisition-own tenant pn location s s' h =
    elim (Bool-cases (s.tenant_id == tenant && (s.pn == pn && s.location == location))) [
      | inr other ↦ absurd (ground (arith, other, h))
      | inl own ↦ (
        some_injective s s' (ground (arith, own, h)),
        (
          texts_same s.tenant_id tenant (ground (arith, own)),
          (
            texts_same s.pn pn (ground (arith, own)),
            texts_same s.location location (ground (arith, own)),
          ),
        ),
      )
    ]

module _ {P : Type 0} (revalidate : FeatureBundle P → Option (FeatureBundle P))
    (state : BundleInventoryState P) (tenant pn location : String) where
  own_tenant-kv :
      (b : Option (FeatureBundle P))
      → State.kv revalidate state tenant pn location ≡ some b
      → own_tenant revalidate state tenant ≡ tenant
  unfolding State.kv
  own_tenant-kv =
      elim state
        as (λ st.
          (b : Option (FeatureBundle P))
          → State.kv revalidate st tenant pn location ≡ some b
          → own_tenant revalidate st tenant ≡ tenant) [
            | BundleInventoryState.empty_provider ↦ λ b h. refl
            | BundleInventoryState.bound own bundles ↦ λ b h. elim (Bool-cases (tenant == own)) [
              | inl same ↦ sym (texts_same tenant own same)
              | inr other ↦ absurd (ground (arith, other, h))
            ]
          ]

  -- A plan that the snapshot of the asked key accounts for.
  pub record IsPlan (b : FeatureBundle P) (s : RequisitionSnapshot)
      (items : List ScheduledDemandItem) : Type 0 where
    pub provided : State.kv revalidate state tenant pn location ≡ some (some b)
    pub snapshot_eq : b.requisition_snapshot ≡ some s
    pub tenant_eq : s.tenant_id ≡ tenant
    pub pn_eq : s.pn ≡ pn
    pub location_eq : s.location ≡ location
    pub units_eq : sum_of ScheduledDemandItem.qty items ≡ sum_of dated_units s.lines
    pub by_date : ByDate items
    pub content : Shuffle (map entry items) (dated_entries s.lines)

  on_bundle :
      (b : Option (FeatureBundle P)) (items : List ScheduledDemandItem)
      → State.kv revalidate state tenant pn location ≡ some b
      → (found_snapshot : Option RequisitionSnapshot) → snapshot_of b ≡ found_snapshot
      → on_snapshot revalidate
          (own_tenant revalidate state tenant)
          pn
          location
          []
          (λ s. demand_items s.lines)
          found_snapshot
        ≡ some items
      → ((on_snapshot revalidate
              (own_tenant revalidate state tenant)
              pn
              location
              DemandStatus.unavailable
              (λ s. DemandStatus.available)
              found_snapshot
            ≡ some DemandStatus.available)
          × ((c : FeatureBundle P) × (s : RequisitionSnapshot) × IsPlan c s items))
        ⊎ ((on_snapshot revalidate
                (own_tenant revalidate state tenant)
                pn
                location
                DemandStatus.unavailable
                (λ s. DemandStatus.available)
                found_snapshot
              ≡ some DemandStatus.unavailable)
            × (items ≡ []))
  on_bundle b items k none f h = inr (refl, sym (some_injective [] items h))
  on_bundle none items k (some s) f h = absurd (ground (arith, f))
  on_bundle (some b) items k (some s) f h =
      let (s', (c, e)) =
        then_get-some (checked_requisition (own_tenant revalidate state tenant) pn location s) _
          items h in
      let (same, (t, (p, l))) =
        checked_requisition-own (own_tenant revalidate state tenant) pn location s s' c in
      let i : demand_items s.lines ≡ items =
        ap (λ x. demand_items (RequisitionSnapshot.lines x)) same
        ∙ some_injective (demand_items s'.lines) items e in
      inl (
        ap (λ x. then_get x (λ _. some DemandStatus.available)) c,
        (
          b,
          s,
          record {
            provided = k;
            snapshot_eq = f;
            tenant_eq = t ∙ own_tenant-kv (some b) k;
            pn_eq = p;
            location_eq = l;
            units_eq = ap (sum_of ScheduledDemandItem.qty) (sym i) ∙ sum_of-demand_items s.lines;
            by_date = subst ByDate i (demand_items-ByDate s.lines);
            content =
                subst (λ x. Shuffle (map entry x) (dated_entries s.lines)) i
                  (demand_items-Shuffle s.lines);
          },
        ),
      )

  -- What `get_scheduled_demand` returns is the dated demand of the requisition snapshot in the bundle
  -- that the provider has for the tenant, part and location that were asked for. The snapshot is of
  -- that key, the items are its dated lines, each once, with their day, quantity and requisition, they
  -- have all the dated units and are in the order of the days, and the status is then available. Or
  -- nothing is returned, and the status is then unavailable.
  pub get_scheduled_demand-IsPlan :
      (items : List ScheduledDemandItem)
      → get_scheduled_demand revalidate state tenant pn location ≡ some items
      → ((get_scheduled_demand_status revalidate state tenant pn location
            ≡ some DemandStatus.available)
          × ((b : FeatureBundle P) × (s : RequisitionSnapshot) × IsPlan b s items))
        ⊎ ((get_scheduled_demand_status revalidate state tenant pn location
              ≡ some DemandStatus.unavailable)
            × (items ≡ []))
  unfolding get_scheduled_demand get_scheduled_demand_status
  get_scheduled_demand-IsPlan items h =
      let (b, (k, e)) = then_get-some (State.kv revalidate state tenant pn location) _ items h in
      rw k (on_bundle b items k (snapshot_of b) refl e)
