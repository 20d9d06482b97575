-- ===== src/Events.antt =====
-- services/event-publisher/src/trax_io_event_publisher/schemas.py: the wire contract of the
-- outbound events, with its validators. `F` stands for float; a date is its ordinal.
pub mod Patterns
use aeronta_inventory.Base.{ℕ, String, Bool, true, false, ◌&&◌, Option}
use aeronta_inventory.Base.Int.{ℤ}
use aeronta_inventory.Events.Patterns.{codes, is_kebab, is_semver}

pub data EventKind : Type 0 where
  flight_completed stock_moved wo_scheduled vendor_price_changed : EventKind
  plan_published removal_recorded eo_published : EventKind

pub record Producer : Type 0 where
  pub system : String
  pub version : String
  pub instance_name : String

-- `aware` says that `tzinfo` is set; `instant` counts microseconds.
pub record Datetime : Type 0 where
  pub instant : ℕ
  pub aware : Bool

pub record FlightCompletedPayload (F : Type 0) : Type 0 where
  pub tail : String
  pub ac_type : String
  pub destination : String
  pub origin : String
  pub flight_hours : F
  pub cycles : ℤ
  pub flight_date : ℕ

pub record StockMovedPayload : Type 0 where
  pub pn : String
  pub sn : Option String
  pub from_location : String
  pub to_location : String
  pub from_condition : String
  pub to_condition : String
  pub qty : ℤ
  pub transaction_type : String
  pub transaction_no : ℤ
  pub wo : Option String
  pub moved_by : Option String

pub record WoScheduledPayload (F : Type 0) : Type 0 where
  pub wo : String
  pub tail : Option String
  pub ac_type : Option String
  pub location : String
  pub wo_type : String
  pub scheduled_start : Datetime
  pub scheduled_end : Option Datetime
  pub estimated_duration_days : Option F
  pub primary_eo : Option String

pub record VendorPriceChangedPayload (F : Type 0) : Type 0 where
  pub pn : String
  pub vendor : String
  pub condition : String
  pub old_price : F
  pub new_price : F
  pub currency : String
  pub old_lead_days : ℤ
  pub new_lead_days : ℤ
  pub preferred : Bool
  pub effective_date : ℕ

pub record PlanPublishedPayload : Type 0 where
  pub plan_id : String
  pub plan_type : String
  pub fleet : String
  pub horizon_days : ℤ
  pub effective_from : ℕ
  pub revision : ℤ

pub record RemovalRecordedPayload : Type 0 where
  pub pn : String
  pub sn : Option String
  pub tail : String
  pub ac_type : Option String
  pub location : String
  pub wo : Option String
  pub task_card : Option String
  pub removal_reason : String
  pub schedule_category : Option String
  pub reason_category : Option String
  pub removed_at : Datetime

-- The literal of `criticality`.
pub data EoCriticality : Type 0 where
  ad sb fleet_campaign other : EoCriticality

pub record EoPublishedPayload (F : Type 0) : Type 0 where
  pub eo_number : String
  pub ata_chapter : String
  pub ata_subchapter : Option String
  pub affected_fleet : String
  pub affected_pn_pattern : Option String
  pub criticality : EoCriticality
  pub compliance_due : Option ℕ
  pub compliance_threshold_hours : Option F
  pub compliance_threshold_cycles : Option ℤ
  pub issued_by : Option String
  pub title : String
  pub issued_at : Datetime

-- The union of the payloads.
pub data Payload (F : Type 0) : Type 0 where
  flight : FlightCompletedPayload F → Payload F
  stock : StockMovedPayload → Payload F
  work_order : WoScheduledPayload F → Payload F
  vendor_price : VendorPriceChangedPayload F → Payload F
  plan : PlanPublishedPayload → Payload F
  removal : RemovalRecordedPayload → Payload F
  engineering_order : EoPublishedPayload F → Payload F

pub record EventEnvelope (F : Type 0) : Type 0 where
  pub event_id : String
  pub tenant_id : String
  pub kind : EventKind
  pub occurred_at : Datetime
  pub produced_at : Datetime
  pub schema_version : String
  pub producer : Producer
  pub payload : Payload F
  pub correlation_id : Option String
  pub causation_id : Option String

-- `_KIND_TO_TYPE` and the test on the payload's type.
unfoldable pub kind_matches : {F : Type 0} → EventKind → Payload F → Bool
kind_matches flight_completed (flight _) = true
kind_matches stock_moved (stock _) = true
kind_matches wo_scheduled (work_order _) = true
kind_matches vendor_price_changed (vendor_price _) = true
kind_matches plan_published (plan _) = true
kind_matches removal_recorded (removal _) = true
kind_matches eo_published (engineering_order _) = true
kind_matches _ _ = false

-- The validators of `EventEnvelope`. `is_uuid7` and `is_digit` (the digits of `\d`) are the
-- libraries'.
module _ (is_uuid7 : String → Bool) (is_digit : ℕ → Bool) where
  unfoldable pub valid_envelope : {F : Type 0} → EventEnvelope F → Bool
  valid_envelope e =
      is_uuid7 e.event_id
      && (is_kebab (codes e.tenant_id)
          && (is_semver is_digit (codes e.schema_version)
              && (e.occurred_at.aware && (e.produced_at.aware && kind_matches e.kind e.payload))))
