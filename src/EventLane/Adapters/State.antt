-- ===== src/EventLane/Adapters/State.antt =====
-- `BundleInventoryState`: scheduled demand read from the bundles of one tenant.
use aeronta_inventory.Base.{
  String, Option, none, some, List, [], string_eq, pair_eq, ◌==◌, if◌then◌else◌,
}
use aeronta_inventory.Base.Dict.{lookup}
use aeronta_inventory.EventLane.Bundles.{RequisitionSnapshot, FeatureBundle}
use aeronta_inventory.EventLane.Adapters.{
  BundleInventoryState, ScheduledDemandItem, DemandStatus, then_get, checked_requisition,
  checked_bundle, find_pn, demand_items,
}

-- What an error-free lookup returns: `none` inside for the provider without bundles.
abbrev pub found : {P : Type 0} → Option (FeatureBundle P) → Option (Option (FeatureBundle P))
found none = none
found (some b) = some (some b)

-- A bundle without a snapshot, or no bundle.
abbrev pub snapshot_of : {P : Type 0} → Option (FeatureBundle P) → Option RequisitionSnapshot
snapshot_of none = none
snapshot_of (some b) = b.requisition_snapshot

module _ {P : Type 0} (revalidate : FeatureBundle P → Option (FeatureBundle P)) where
  -- `_kv`. A bound provider has its own tenant.
  unfoldable pub kv :
      BundleInventoryState P → String → String → String → Option (Option (FeatureBundle P))
  kv BundleInventoryState.empty_provider tenant pn location = some none
  kv (BundleInventoryState.bound own bundles) tenant pn location =
      if tenant == own
      then found
          (then_get (lookup (pn, location) bundles) (checked_bundle revalidate own pn location))
      else none

  -- `_any_pn`.
  unfoldable pub any_pn :
      BundleInventoryState P → String → String → Option (Option (FeatureBundle P))
  any_pn BundleInventoryState.empty_provider tenant pn = some none
  any_pn (BundleInventoryState.bound own bundles) tenant pn =
      if tenant == own then found (find_pn revalidate own pn bundles) else none

  -- `self._tenant_id or tenant.tenant_id`; behind `_check` a blank tenant is the one that asks.
  abbrev pub own_tenant : BundleInventoryState P → String → String
  own_tenant BundleInventoryState.empty_provider tenant = tenant
  own_tenant (BundleInventoryState.bound own bundles) tenant = own

  -- What `get_scheduled_demand` and its status do with a snapshot, or without one.
  abbrev pub on_snapshot :
      {A : Type 0}
      → String
      → String
      → String
      → A
      → (RequisitionSnapshot → A)
      → Option RequisitionSnapshot
      → Option A
  on_snapshot tenant pn location absent f none = some absent
  on_snapshot tenant pn location absent f (some s) =
      then_get (checked_requisition tenant pn location s) (λ s'. some (f s'))

  unfoldable pub get_scheduled_demand :
      BundleInventoryState P → String → String → String → Option (List ScheduledDemandItem)
  get_scheduled_demand state tenant pn location = then_get (kv state tenant pn location) (λ b.
      on_snapshot (own_tenant state tenant) pn location [] (λ s. demand_items s.lines)
        (snapshot_of b))

  unfoldable pub get_scheduled_demand_status :
      BundleInventoryState P → String → String → String → Option DemandStatus
  get_scheduled_demand_status state tenant pn location =
      then_get (kv state tenant pn location) (λ b.
        on_snapshot (own_tenant state tenant) pn location DemandStatus.unavailable
          (λ s. DemandStatus.available) (snapshot_of b))
