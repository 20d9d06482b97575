-- ===== src/EventLane/Adapters/Own.antt =====
-- Each getter of the store returns features of the tenant that asks, and of the key it asks for.
use aeronta_inventory.Base.{
  ◌≡◌, refl, sym, ◌∙◌, String, Bool, true, false, ◌&&◌, ◌<>◌, Option, some, all, arith, inl, inr,
  Bool-cases, string_eq, pair_eq, ◌==◌,
}
use aeronta_inventory.Base.Dict.{lookup}
use aeronta_inventory.EventLane.Bundles.{
  Feature, PartFeature, LocationGraph, VendorEconomics, LeadTimeDistribution, RequisitionSnapshot,
  FeatureBundle, if_present, owns, owns_part, owns_graph, owns_vendor, owns_lead_time,
  owns_features, valid_bundle,
}
use aeronta_inventory.EventLane.Adapters.{BundleFeatureStore, then_get, checked_requisition}
use aeronta_inventory.EventLane.Adapters.Store.{
  for_tenant, kv, any_pn, any_location, get_stock_position, get_current_policy, get_demand_history,
  get_open_orders_snapshot, get_requisition_snapshot, get_part_attributes, get_criticality,
  get_interchangeable_graph, get_location_graph, get_vendor_economics, get_lead_time_distribution,
}
use aeronta_inventory.EventLane.Adapters.Isolation.{
  IsChecked, then_get-some, if_present-some, lookup-all, texts_same, some_injective,
  checked_bundle-IsChecked, find_pn-IsChecked, find_location-IsChecked,
}

and_split : (a b : Bool) → (a && b) ≡ true → (a ≡ true) × (b ≡ true)
and_split true b h = (refl, h)
and_split false b h = absurd (ground (arith, h))

-- The checks of a valid bundle, one by one.
record IsOwner {P : Type 0} (b : FeatureBundle P) : Type 0 where
  stock : if_present (owns b) b.stock_position ≡ true
  policy : if_present (owns b) b.current_policy ≡ true
  demand : if_present (owns b) b.demand_history ≡ true
  orders : if_present (owns b) b.open_orders_snapshot ≡ true
  attributes : if_present (owns_part b) b.part_attributes ≡ true
  critical : if_present (owns_part b) b.criticality ≡ true
  interchange : if_present (owns_part b) b.interchangeable_graph ≡ true
  graph : if_present (owns_graph b) b.location_graph ≡ true
  vendors : all (owns_vendor b) b.vendor_economics ≡ true
  lead_times : all (owns_lead_time b) b.lead_time_distribution ≡ true

valid_bundle-IsOwner : {P : Type 0} (b : FeatureBundle P) → valid_bundle b ≡ true → IsOwner b
unfolding valid_bundle owns_features
valid_bundle-IsOwner b h =
    let (_, owned) = and_split _ _ h in
    let (keyed, others) = and_split _ _ owned in
    let (first, second) = and_split _ _ keyed in
    let (parts, rest) = and_split _ _ others in
    let (_, two) = and_split _ _ parts in
    let (one_place, maps) = and_split _ _ rest in
    record {
      stock = (and_split _ _ first).0;
      policy = (and_split _ _ first).1;
      demand = (and_split _ _ second).0;
      orders = (and_split _ _ second).1;
      attributes = (and_split _ _ two).0;
      critical = (and_split _ _ two).1;
      interchange = (and_split _ _ one_place).0;
      graph = (and_split _ _ one_place).1;
      vendors = (and_split _ _ maps).0;
      lead_times = (and_split _ _ maps).1;
    }

module _ {P : Type 0} (revalidate : FeatureBundle P → Option (FeatureBundle P))
    (s : BundleFeatureStore P) (tenant : String) where
  abbrev pub OwnKey : String → String → String → String → String → Type 0
  OwnKey pn location t p l = (t ≡ tenant) × ((p ≡ pn) × (l ≡ location))

  abbrev pub OwnPart : String → String → String → Type 0
  OwnPart pn t p = (t ≡ tenant) × (p ≡ pn)

  -- Only the features of one tenant and of one key are seen.
  pub record IsIsolated : Type 0 where
    pub stock :
        (pn location : String) (f : Feature P)
        → get_stock_position revalidate s tenant pn location ≡ some f
        → OwnKey pn location f.tenant_id f.pn f.location
    pub policy :
        (pn location : String) (f : Feature P)
        → get_current_policy revalidate s tenant pn location ≡ some f
        → OwnKey pn location f.tenant_id f.pn f.location
    pub demand :
        (pn location : String) (f : Feature P)
        → get_demand_history revalidate s tenant pn location ≡ some f
        → OwnKey pn location f.tenant_id f.pn f.location
    pub orders :
        (pn location : String) (f : Feature P)
        → get_open_orders_snapshot revalidate s tenant pn location ≡ some f
        → OwnKey pn location f.tenant_id f.pn f.location
    pub requisition :
        (pn location : String) (f : RequisitionSnapshot)
        → get_requisition_snapshot revalidate s tenant pn location ≡ some f
        → OwnKey pn location f.tenant_id f.pn f.location
    pub attributes :
        (pn : String) (f : PartFeature P)
        → get_part_attributes revalidate s tenant pn ≡ some f
        → OwnPart pn f.tenant_id f.pn
    pub critical :
        (pn : String) (f : PartFeature P)
        → get_criticality revalidate s tenant pn ≡ some f
        → OwnPart pn f.tenant_id f.pn
    pub interchange :
        (pn : String) (f : PartFeature P)
        → get_interchangeable_graph revalidate s tenant pn ≡ some f
        → OwnPart pn f.tenant_id f.pn
    pub graph :
        (location : String) (f : LocationGraph P)
        → get_location_graph revalidate s tenant location ≡ some f
        → OwnPart location f.tenant_id f.location
    pub vendor :
        (pn vendor : String) (f : VendorEconomics P)
        → get_vendor_economics revalidate s tenant pn vendor ≡ some f
        → OwnKey pn vendor f.tenant_id f.pn f.vendor
    pub lead_time :
        (pn vendor condition : String) (f : LeadTimeDistribution P)
        → get_lead_time_distribution revalidate s tenant pn vendor condition ≡ some f
        → OwnKey pn
            (vendor <> ("|" <> condition))
            f.tenant_id
            f.pn
            (f.vendor <> ("|" <> f.condition))

  for_tenant-some :
      {A : Type 0} (x : Option A) (y : A)
      → for_tenant revalidate s tenant x ≡ some y
      → (tenant ≡ s.tenant_id) × (x ≡ some y)
  unfolding for_tenant
  for_tenant-some x y h = elim (Bool-cases (tenant == s.tenant_id)) [
    | inl own ↦ (texts_same tenant s.tenant_id own, ground (arith, own, h))
    | inr other ↦ absurd (ground (arith, other, h))
  ]

  kv-IsChecked :
      (pn location : String) (b : FeatureBundle P)
      → kv revalidate s pn location ≡ some b
      → IsChecked s.tenant_id pn location b
  unfolding kv
  kv-IsChecked pn location b h =
      let (c, (_, e)) = then_get-some (lookup (pn, location) s.bundles) _ b h in
      checked_bundle-IsChecked revalidate s.tenant_id pn location c b e

  feature-Own :
      (field : FeatureBundle P → Option (Feature P))
      → ((b : FeatureBundle P) → valid_bundle b ≡ true → if_present (owns b) (field b) ≡ true)
      → (pn location : String) (f : Feature P)
      → for_tenant revalidate s tenant (then_get (kv revalidate s pn location) field) ≡ some f
      → OwnKey pn location f.tenant_id f.pn f.location
  feature-Own field owned pn location f h =
      let (same, g) = for_tenant-some (then_get (kv revalidate s pn location) field) f h in
      let (b, (k, e)) = then_get-some (kv revalidate s pn location) field f g in
      let c = kv-IsChecked pn location b k in
      let o = if_present-some (owns b) (field b) f (owned b c.valid) e in
      (
        texts_same f.tenant_id b.tenant_id (ground (arith, o)) ∙ (c.tenant_eq ∙ sym same),
        (
          texts_same f.pn b.pn (ground (arith, o)) ∙ c.pn_eq,
          texts_same f.location b.location (ground (arith, o)) ∙ c.location_eq,
        ),
      )

  part-Own :
      (field : FeatureBundle P → Option (PartFeature P))
      → ((b : FeatureBundle P) → valid_bundle b ≡ true → if_present (owns_part b) (field b) ≡ true)
      → (pn : String) (f : PartFeature P)
      → for_tenant revalidate s tenant (then_get (any_pn revalidate s pn) field) ≡ some f
      → OwnPart pn f.tenant_id f.pn
  unfolding any_pn
  part-Own field owned pn f h =
      let (same, g) = for_tenant-some (then_get (any_pn revalidate s pn) field) f h in
      let (b, (k, e)) = then_get-some (any_pn revalidate s pn) field f g in
      let (_, c) = find_pn-IsChecked revalidate s.tenant_id pn s.bundles b k in
      let o = if_present-some (owns_part b) (field b) f (owned b c.valid) e in
      (
        texts_same f.tenant_id b.tenant_id (ground (arith, o)) ∙ (c.tenant_eq ∙ sym same),
        texts_same f.pn b.pn (ground (arith, o)) ∙ c.pn_eq,
      )

  requisition-Own :
      (pn location : String) (f : RequisitionSnapshot)
      → get_requisition_snapshot revalidate s tenant pn location ≡ some f
      → OwnKey pn location f.tenant_id f.pn f.location
  unfolding get_requisition_snapshot checked_requisition
  requisition-Own pn location f h =
      let (same, g) = for_tenant-some _ f h in
      let (r, (k, e)) =
        then_get-some (then_get (kv revalidate s pn location) FeatureBundle.requisition_snapshot) _
          f g in
      elim (Bool-cases (r.tenant_id == s.tenant_id && (r.pn == pn && r.location == location))) [
        | inr other ↦ absurd (ground (arith, other, e))
        | inl own ↦
            let i : r ≡ f = some_injective r f (ground (arith, own, e)) in
            rw (← i) (
              texts_same r.tenant_id s.tenant_id (ground (arith, own)) ∙ sym same,
              (
                texts_same r.pn pn (ground (arith, own)),
                texts_same r.location location (ground (arith, own)),
              ),
            )
      ]

  graph-Own :
      (location : String) (f : LocationGraph P)
      → get_location_graph revalidate s tenant location ≡ some f
      → OwnPart location f.tenant_id f.location
  unfolding get_location_graph any_location
  graph-Own location f h =
      let (same, g) = for_tenant-some _ f h in
      let (b, (k, e)) =
        then_get-some (any_location revalidate s location) FeatureBundle.location_graph f g in
      let (_, c) = find_location-IsChecked revalidate s.tenant_id location s.bundles b k in
      let o =
        if_present-some (owns_graph b) b.location_graph f
          (IsOwner.graph (valid_bundle-IsOwner b c.valid)) e in
      (
        texts_same f.tenant_id b.tenant_id (ground (arith, o)) ∙ (c.tenant_eq ∙ sym same),
        texts_same f.location b.location (ground (arith, o)) ∙ c.location_eq,
      )

  vendor-Own :
      (pn vendor : String) (f : VendorEconomics P)
      → get_vendor_economics revalidate s tenant pn vendor ≡ some f
      → OwnKey pn vendor f.tenant_id f.pn f.vendor
  unfolding get_vendor_economics any_pn
  vendor-Own pn vendor f h =
      let (same, g) = for_tenant-some _ f h in
      let (b, (k, e)) =
        then_get-some (any_pn revalidate s pn) (λ b. lookup vendor b.vendor_economics) f g in
      let (_, c) = find_pn-IsChecked revalidate s.tenant_id pn s.bundles b k in
      let o =
        lookup-all (owns_vendor b) vendor f b.vendor_economics
          (IsOwner.vendors (valid_bundle-IsOwner b c.valid)) e in
      (
        texts_same f.tenant_id b.tenant_id (ground (arith, o)) ∙ (c.tenant_eq ∙ sym same),
        (
          texts_same f.pn b.pn (ground (arith, o)) ∙ c.pn_eq,
          sym (texts_same vendor f.vendor (ground (arith, o))),
        ),
      )

  lead_time-Own :
      (pn vendor condition : String) (f : LeadTimeDistribution P)
      → get_lead_time_distribution revalidate s tenant pn vendor condition ≡ some f
      → OwnKey pn (vendor <> ("|" <> condition)) f.tenant_id f.pn (f.vendor <> ("|" <> f.condition))
  unfolding get_lead_time_distribution any_pn
  lead_time-Own pn vendor condition f h =
      let (same, g) = for_tenant-some _ f h in
      let key = vendor <> ("|" <> condition) in
      let (b, (k, e)) =
        then_get-some (any_pn revalidate s pn) (λ b. lookup key b.lead_time_distribution) f g in
      let (_, c) = find_pn-IsChecked revalidate s.tenant_id pn s.bundles b k in
      let o =
        lookup-all (owns_lead_time b) key f b.lead_time_distribution
          (IsOwner.lead_times (valid_bundle-IsOwner b c.valid)) e in
      (
        texts_same f.tenant_id b.tenant_id (ground (arith, o)) ∙ (c.tenant_eq ∙ sym same),
        (
          texts_same f.pn b.pn (ground (arith, o)) ∙ c.pn_eq,
          sym (texts_same key (f.vendor <> ("|" <> f.condition)) (ground (arith, o))),
        ),
      )

  -- Whatever bundles a store holds, also corrupt ones or ones under another's key, and whatever the
  -- validation of a dump makes of them, each of its getters returns only features whose own tenant is
  -- the tenant that asks and whose own part, and own location or vendor where one is asked for, are
  -- those asked for. Of a lead time only the joined text of vendor, bar and condition is the one asked
  -- for: vendor and condition need not agree one by one when they contain a bar.
  pub get-IsIsolated : IsIsolated
  unfolding get_stock_position get_current_policy get_demand_history get_open_orders_snapshot
      get_part_attributes get_criticality get_interchangeable_graph
  get-IsIsolated = record {
    stock =
        feature-Own FeatureBundle.stock_position (λ b v. IsOwner.stock (valid_bundle-IsOwner b v));
    policy =
        feature-Own FeatureBundle.current_policy (λ b v. IsOwner.policy (valid_bundle-IsOwner b v));
    demand =
        feature-Own FeatureBundle.demand_history (λ b v. IsOwner.demand (valid_bundle-IsOwner b v));
    orders =
        feature-Own FeatureBundle.open_orders_snapshot
          (λ b v. IsOwner.orders (valid_bundle-IsOwner b v));
    requisition = requisition-Own;
    attributes =
        part-Own FeatureBundle.part_attributes
          (λ b v. IsOwner.attributes (valid_bundle-IsOwner b v));
    critical =
        part-Own FeatureBundle.criticality (λ b v. IsOwner.critical (valid_bundle-IsOwner b v));
    interchange =
        part-Own FeatureBundle.interchangeable_graph
          (λ b v. IsOwner.interchange (valid_bundle-IsOwner b v));
    graph = graph-Own;
    vendor = vendor-Own;
    lead_time = lead_time-Own;
  }
