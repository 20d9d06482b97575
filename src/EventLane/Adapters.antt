-- ===== src/EventLane/Adapters.antt =====
-- services/agent-spine/src/trax_io_spine/event_lane/adapters.py: the engine's views of the bundles of one
-- tenant. `none` stands for a lookup error.
pub mod Store
pub mod State
pub mod Isolation
pub mod Own
pub mod Demand
use aeronta_inventory.Base.{
  ℕ, String, ◌<>◌, Bool, true, false, not, ◌&&◌, Option, none, some, List, [], ◌∷◌, map, filter,
  sorted, text_le, ltb, nat_beq, string_eq, pair_eq, ◌==◌, if◌then◌else◌,
}
use aeronta_inventory.Base.Dict.{Dict, lookup}
use aeronta_inventory.Enums.{EvidenceKind}
use aeronta_inventory.EventLane.Bundles.{
  Feature, PartFeature, LocationGraph, VendorEconomics, LeadTimeDistribution, RequisitionLine,
  RequisitionSnapshot, FeatureBundle, valid_bundle,
}

pub record ScheduledDemandItem : Type 0 where
  pub due_date : ℕ
  pub qty : ℕ
  pub source_ref : String
  pub source_kind : EvidenceKind

pub data DemandStatus : Type 0 where
  available unavailable : DemandStatus

abbrev pub Bundles : Type 0 → Type 0
Bundles P = Dict (String × String) (FeatureBundle P)

-- The state of `BundleFeatureStore`.
pub record BundleFeatureStore (P : Type 0) : Type 0 where
  pub tenant_id : String
  pub bundles : Bundles P

-- The state of `BundleInventoryState`: both or neither of its arguments.
pub data BundleInventoryState (P : Type 0) : Type 0 where
  empty_provider : BundleInventoryState P
  bound : String → Bundles P → BundleInventoryState P

-- The constructor of `BundleInventoryState`.
unfoldable pub inventory_state :
    {P : Type 0} → Option String → Option (Bundles P) → Option (BundleInventoryState P)
inventory_state none none = some empty_provider
inventory_state none (some bundles) = none
inventory_state (some tenant) none = none
inventory_state (some tenant) (some bundles) = some (bound tenant bundles)

-- `f` of what is there, or an error.
abbrev pub then_get : {A B : Type 0} → Option A → (A → Option B) → Option B
then_get none f = none
then_get (some x) f = f x

-- The key by which dated lines are sorted; `alt_source_location or ""`.
abbrev pub place_text : Option String → String
place_text none = ""
place_text (some s) = s

abbrev pub number_then : ℕ → ℕ → Bool → Bool
number_then a b tail = if nat_beq a b then tail else ltb a b

abbrev pub text_then : String → String → Bool → Bool
text_then a b tail = if a == b then tail else text_le a b

-- A line with its date.
abbrev pub Dated : Type 0
Dated = ℕ × RequisitionLine

abbrev pub dated_le : Dated → Dated → Bool
dated_le (d, a) (e, b) = number_then d e (
    text_then a.requisition_id b.requisition_id (
      number_then a.qty_needed b.qty_needed
        (text_le (place_text a.alt_source_location) (place_text b.alt_source_location))))

-- `(line for line in snapshot.lines if line.need_by is not None)`
abbrev pub date_line : RequisitionLine → Option ℕ → List Dated → List Dated
date_line line none rest = rest
date_line line (some d) rest = (d, line) ∷ rest

unfoldable pub dated_lines : List RequisitionLine → List Dated
dated_lines [] = []
dated_lines (line ∷ lines) = date_line line line.need_by (dated_lines lines)

abbrev pub demand_item : Dated → ScheduledDemandItem
demand_item (d, line) = record {
  due_date = d;
  qty = line.qty_needed;
  source_ref = line.requisition_id;
  source_kind = EvidenceKind.requisition;
}

unfoldable pub demand_items : List RequisitionLine → List ScheduledDemandItem
demand_items lines = map demand_item (sorted dated_le (dated_lines lines))

-- `_checked_requisition`.
unfoldable pub checked_requisition :
    String → String → String → RequisitionSnapshot → Option RequisitionSnapshot
checked_requisition tenant pn location s =
    if s.tenant_id == tenant && (s.pn == pn && s.location == location) then some s else none

-- What pydantic makes of the dump of a bundle, a parameter: it checks the field types of every
-- feature and strips their texts. `none` stands for its exception.
module _ {P : Type 0} (revalidate : FeatureBundle P → Option (FeatureBundle P)) where
  -- `_checked_bundle`.
  unfoldable pub checked_bundle :
      String → String → String → FeatureBundle P → Option (FeatureBundle P)
  checked_bundle tenant pn location b = then_get (revalidate b) (λ c.
      if valid_bundle c
      then (if c.tenant_id == tenant && (c.pn == pn && c.location == location)
          then some c
          else none)
      else none)

  -- The first bundle of a part, and of a location.
  unfoldable pub find_pn : String → String → Bundles P → Option (FeatureBundle P)
  find_pn tenant pn [] = none
  find_pn tenant pn (((bpn, location), b) ∷ rest) =
      let later = find_pn tenant pn rest in
      if bpn == pn then checked_bundle tenant bpn location b else later

  unfoldable pub find_location : String → String → Bundles P → Option (FeatureBundle P)
  find_location tenant location [] = none
  find_location tenant location (((pn, bloc), b) ∷ rest) =
      let later = find_location tenant location rest in
      if bloc == location then checked_bundle tenant pn bloc b else later
