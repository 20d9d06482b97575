-- ===== src/EventLane/Adapters/Store.antt =====
-- `BundleFeatureStore`: features read from the bundles of one tenant.
use aeronta_inventory.Base.{String, ◌<>◌, Option, none, string_eq, pair_eq, ◌==◌, if◌then◌else◌}
use aeronta_inventory.Base.Dict.{lookup}
use aeronta_inventory.EventLane.Bundles.{
  Feature, PartFeature, LocationGraph, VendorEconomics, LeadTimeDistribution, RequisitionSnapshot,
  FeatureBundle,
}
use aeronta_inventory.EventLane.Adapters.{
  BundleFeatureStore, then_get, checked_requisition, checked_bundle, find_pn, find_location,
}

module _ {P : Type 0} (revalidate : FeatureBundle P → Option (FeatureBundle P))
    (s : BundleFeatureStore P) where
  -- `_check`, then what is asked for.
  unfoldable pub for_tenant : {A : Type 0} → String → Option A → Option A
  for_tenant tenant x = if tenant == s.tenant_id then x else none

  -- `_kv`, `_any_pn` and `_any_location`.
  unfoldable pub kv : String → String → Option (FeatureBundle P)
  kv pn location =
      then_get (lookup (pn, location) s.bundles) (checked_bundle revalidate s.tenant_id pn location)

  unfoldable pub any_pn : String → Option (FeatureBundle P)
  any_pn pn = find_pn revalidate s.tenant_id pn s.bundles

  unfoldable pub any_location : String → Option (FeatureBundle P)
  any_location location = find_location revalidate s.tenant_id location s.bundles

  module _ (tenant : String) where
    unfoldable pub get_stock_position : String → String → Option (Feature P)
    get_stock_position pn location =
        for_tenant tenant (then_get (kv pn location) FeatureBundle.stock_position)

    unfoldable pub get_current_policy : String → String → Option (Feature P)
    get_current_policy pn location =
        for_tenant tenant (then_get (kv pn location) FeatureBundle.current_policy)

    unfoldable pub get_demand_history : String → String → Option (Feature P)
    get_demand_history pn location =
        for_tenant tenant (then_get (kv pn location) FeatureBundle.demand_history)

    unfoldable pub get_open_orders_snapshot : String → String → Option (Feature P)
    get_open_orders_snapshot pn location =
        for_tenant tenant (then_get (kv pn location) FeatureBundle.open_orders_snapshot)

    unfoldable pub get_requisition_snapshot : String → String → Option RequisitionSnapshot
    get_requisition_snapshot pn location = for_tenant tenant (
        then_get (then_get (kv pn location) FeatureBundle.requisition_snapshot)
          (checked_requisition s.tenant_id pn location))

    unfoldable pub get_part_attributes : String → Option (PartFeature P)
    get_part_attributes pn = for_tenant tenant (then_get (any_pn pn) FeatureBundle.part_attributes)

    unfoldable pub get_criticality : String → Option (PartFeature P)
    get_criticality pn = for_tenant tenant (then_get (any_pn pn) FeatureBundle.criticality)

    unfoldable pub get_interchangeable_graph : String → Option (PartFeature P)
    get_interchangeable_graph pn =
        for_tenant tenant (then_get (any_pn pn) FeatureBundle.interchangeable_graph)

    unfoldable pub get_location_graph : String → Option (LocationGraph P)
    get_location_graph location =
        for_tenant tenant (then_get (any_location location) FeatureBundle.location_graph)

    unfoldable pub get_vendor_economics : String → String → Option (VendorEconomics P)
    get_vendor_economics pn vendor =
        for_tenant tenant (then_get (any_pn pn) (λ b. lookup vendor b.vendor_economics))

    unfoldable pub get_lead_time_distribution :
        String → String → String → Option (LeadTimeDistribution P)
    get_lead_time_distribution pn vendor condition =
        for_tenant tenant (
          then_get (any_pn pn)
            (λ b. lookup (vendor <> ("|" <> condition)) b.lead_time_distribution))
