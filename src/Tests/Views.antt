-- ===== src/Tests/Views.antt =====
-- The engine's views of a bundle.
use aeronta_inventory.Base.{◌≡◌, ◌⊎◌, refl, String, Option, none, some, List, [], ◌∷◌}
use aeronta_inventory.Base.Sort.{sorted, place}
use aeronta_inventory.Base.Dict.{lookup}
use aeronta_inventory.Enums.{EvidenceKind}
use aeronta_inventory.EventLane.Bundles.{
  Feature, RequisitionSnapshot, FeatureBundle, valid_bundle, owns_features,
}
use aeronta_inventory.EventLane.Adapters.{
  Bundles, BundleFeatureStore, BundleInventoryState, ScheduledDemandItem, DemandStatus,
  checked_bundle, checked_requisition, dated_lines, demand_items,
}
use aeronta_inventory.EventLane.Adapters.Store.{get_stock_position, for_tenant, kv}
use aeronta_inventory.EventLane.Adapters.State as State
use aeronta_inventory.EventLane.Adapters.State.{get_scheduled_demand, get_scheduled_demand_status}
use aeronta_inventory.EventLane.Adapters.Own.{IsIsolated, get-IsIsolated}
use aeronta_inventory.EventLane.Adapters.Demand.{IsPlan, get_scheduled_demand-IsPlan}

abbrev any_types : FeatureBundle String → Option (FeatureBundle String)
any_types b = some b

abbrev stock : Feature String
stock = record { tenant_id = "acme"; pn = "wheel"; location = "LHR"; fields = "on hand" }

abbrev snapshot : RequisitionSnapshot
snapshot = record {
  tenant_id = "acme";
  pn = "wheel";
  location = "LHR";
  lines =
      record {
        requisition_id = "r1";
        qty_needed = 2;
        need_by = some 20;
        alt_source_location = none;
      }
      ∷ record { requisition_id = "r2"; qty_needed = 9; need_by = none; alt_source_location = none }
      ∷ record {
        requisition_id = "r3";
        qty_needed = 5;
        need_by = some 10;
        alt_source_location = some "CDG";
      }
      ∷ [];
}

abbrev bundle : FeatureBundle String
bundle = record {
  tenant_id = "acme";
  pn = "wheel";
  location = "LHR";
  stock_position = some stock;
  current_policy = none;
  demand_history = none;
  open_orders_snapshot = none;
  requisition_snapshot = some snapshot;
  location_graph = none;
  part_attributes = none;
  criticality = none;
  interchangeable_graph = none;
  vendor_economics = [];
  lead_time_distribution = [];
}

abbrev bundles : Bundles String
bundles = (("wheel", "LHR"), bundle) ∷ []

abbrev store : BundleFeatureStore String
store = record { tenant_id = "acme"; bundles = bundles }

stock_found : get_stock_position any_types store "acme" "wheel" "LHR" ≡ some stock
unfolding get_stock_position for_tenant kv lookup checked_bundle valid_bundle owns_features
stock_found = refl

other_tenant : get_stock_position any_types store "rival" "wheel" "LHR" ≡ none
unfolding get_stock_position for_tenant
other_tenant = refl

get-IsIsolated_example : IsIsolated any_types store "acme"
get-IsIsolated_example = get-IsIsolated any_types store "acme"

abbrev provider : BundleInventoryState String
provider = BundleInventoryState.bound "acme" bundles

abbrev items : List ScheduledDemandItem
items =
    record { due_date = 10; qty = 5; source_ref = "r3"; source_kind = EvidenceKind.requisition }
    ∷ record { due_date = 20; qty = 2; source_ref = "r1"; source_kind = EvidenceKind.requisition }
    ∷ []

demand_found : get_scheduled_demand any_types provider "acme" "wheel" "LHR" ≡ some items
unfolding get_scheduled_demand State.kv lookup checked_bundle valid_bundle owns_features
    checked_requisition demand_items dated_lines sorted place
demand_found = refl

get_scheduled_demand-IsPlan_example :
    ((get_scheduled_demand_status any_types provider "acme" "wheel" "LHR"
        ≡ some DemandStatus.available)
      × ((b : FeatureBundle String) × (s : RequisitionSnapshot) × IsPlan any_types provider "acme"
            "wheel" "LHR" b s items))
    ⊎ ((get_scheduled_demand_status any_types provider "acme" "wheel" "LHR"
          ≡ some DemandStatus.unavailable)
        × (items ≡ []))
get_scheduled_demand-IsPlan_example =
    get_scheduled_demand-IsPlan any_types provider "acme" "wheel" "LHR" items demand_found
