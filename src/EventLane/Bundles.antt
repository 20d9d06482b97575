-- ===== src/EventLane/Bundles.antt =====
-- services/feature-store/src/trax_io_feature_store/schemas/features.py: the bundle of one inventory key
-- and its validators. `P` stands for the fields of a feature that are not its identity.
use aeronta_inventory.Base.{
  ℕ, String, ◌<>◌, Bool, true, not, ◌&&◌, Option, none, some, List, all, string_eq, ◌==◌,
}
use aeronta_inventory.Base.Dict.{Dict}

-- A feature of a part at a location.
pub record Feature (P : Type 0) : Type 0 where
  pub tenant_id : String
  pub pn : String
  pub location : String
  pub fields : P

-- A feature of a part.
pub record PartFeature (P : Type 0) : Type 0 where
  pub tenant_id : String
  pub pn : String
  pub fields : P

pub record LocationGraph (P : Type 0) : Type 0 where
  pub tenant_id : String
  pub location : String
  pub node_location : String
  pub fields : P

pub record VendorEconomics (P : Type 0) : Type 0 where
  pub tenant_id : String
  pub pn : String
  pub vendor : String
  pub fields : P

pub record LeadTimeDistribution (P : Type 0) : Type 0 where
  pub tenant_id : String
  pub pn : String
  pub vendor : String
  pub condition : String
  pub fields : P

-- A date is its ordinal.
pub record RequisitionLine : Type 0 where
  pub requisition_id : String
  pub qty_needed : ℕ
  pub need_by : Option ℕ
  pub alt_source_location : Option String

pub record RequisitionSnapshot : Type 0 where
  pub tenant_id : String
  pub pn : String
  pub location : String
  pub lines : List RequisitionLine

pub record FeatureBundle (P : Type 0) : Type 0 where
  pub tenant_id : String
  pub pn : String
  pub location : String
  pub stock_position : Option (Feature P)
  pub current_policy : Option (Feature P)
  pub demand_history : Option (Feature P)
  pub open_orders_snapshot : Option (Feature P)
  pub requisition_snapshot : Option RequisitionSnapshot
  pub location_graph : Option (LocationGraph P)
  pub part_attributes : Option (PartFeature P)
  pub criticality : Option (PartFeature P)
  pub interchangeable_graph : Option (PartFeature P)
  pub vendor_economics : Dict String (VendorEconomics P)
  pub lead_time_distribution : Dict String (LeadTimeDistribution P)

-- A test on what is there.
abbrev pub if_present : {A : Type 0} → (A → Bool) → Option A → Bool
if_present p none = true
if_present p (some x) = p x

module _ {P : Type 0} where
  -- `require_identity` on the fields of each kind of feature.
  abbrev pub owns : FeatureBundle P → Feature P → Bool
  owns b f = f.tenant_id == b.tenant_id && (f.pn == b.pn && f.location == b.location)

  abbrev pub owns_part : FeatureBundle P → PartFeature P → Bool
  owns_part b f = f.tenant_id == b.tenant_id && f.pn == b.pn

  abbrev pub owns_requisition : FeatureBundle P → RequisitionSnapshot → Bool
  owns_requisition b s = s.tenant_id == b.tenant_id && (s.pn == b.pn && s.location == b.location)

  abbrev pub owns_graph : FeatureBundle P → LocationGraph P → Bool
  owns_graph b g =
      g.tenant_id == b.tenant_id && (g.location == b.location && g.node_location == b.location)

  abbrev pub owns_vendor : FeatureBundle P → String × VendorEconomics P → Bool
  owns_vendor b (key, f) = f.tenant_id == b.tenant_id && (f.pn == b.pn && key == f.vendor)

  abbrev pub owns_lead_time : FeatureBundle P → String × LeadTimeDistribution P → Bool
  owns_lead_time b (key, f) =
      f.tenant_id == b.tenant_id && (f.pn == b.pn && key == f.vendor <> ("|" <> f.condition))

  -- `FeatureBundle._nested_features_match_bundle_identity`.
  unfoldable pub owns_features : FeatureBundle P → Bool
  owns_features b =
      ((if_present (owns b) b.stock_position && if_present (owns b) b.current_policy)
        && (if_present (owns b) b.demand_history && if_present (owns b) b.open_orders_snapshot))
      && ((if_present (owns_requisition b) b.requisition_snapshot
            && (if_present (owns_part b) b.part_attributes
                && if_present (owns_part b) b.criticality))
          && ((if_present (owns_part b) b.interchangeable_graph
                && if_present (owns_graph b) b.location_graph)
              && (all (owns_vendor b) b.vendor_economics
                  && all (owns_lead_time b) b.lead_time_distribution)))

  -- `FeatureBundle._non_empty_key` and the check of the identities.
  unfoldable pub valid_bundle : FeatureBundle P → Bool
  valid_bundle b = (not (b.pn == "") && not (b.location == "")) && owns_features b
