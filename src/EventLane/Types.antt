-- ===== src/EventLane/Types.antt =====
-- services/agent-spine/src/trax_io_spine/event_lane/events.py: the slim events of the lane; and the
-- outcomes and reports of ingestor.py.
use aeronta_inventory.Base.{ℕ, String, Option, List}
use aeronta_inventory.Base.Int.{ℤ}
use aeronta_inventory.Events.{Datetime, EventKind, EoCriticality}
use aeronta_inventory.Supervisor.{Summary}

pub record FlightCompleted (F : Type 0) : Type 0 where
  pub tail : String
  pub ac_type : String
  pub destination : String
  pub flight_hours : F
  pub cycles : ℤ

pub record StockMoved : Type 0 where
  pub pn : String
  pub from_location : String
  pub to_location : String
  pub qty : ℤ

pub record WoScheduled : Type 0 where
  pub wo : String
  pub location : String
  pub scheduled_start : Datetime
  pub tail : Option String

pub record VendorPriceChanged (F : Type 0) : Type 0 where
  pub pn : String
  pub vendor : String
  pub old_price : F
  pub new_price : F
  pub lead_days : ℤ

pub record PlanPublished : Type 0 where
  pub plan_id : String
  pub fleet : String
  pub horizon_days : ℤ

pub record RemovalRecorded : Type 0 where
  pub pn : String
  pub tail : String
  pub location : String
  pub removal_reason : String

pub record EoPublished : Type 0 where
  pub eo_number : String
  pub ata_chapter : String
  pub affected_fleet : String
  pub criticality : EoCriticality

pub data SlimPayload (F : Type 0) : Type 0 where
  flight_slim : FlightCompleted F → SlimPayload F
  stock_slim : StockMoved → SlimPayload F
  work_order_slim : WoScheduled → SlimPayload F
  vendor_price_slim : VendorPriceChanged F → SlimPayload F
  plan_slim : PlanPublished → SlimPayload F
  removal_slim : RemovalRecorded → SlimPayload F
  engineering_order_slim : EoPublished → SlimPayload F

-- `DomainEvent`; the lane always sets `event_id`.
pub record DomainEvent (F : Type 0) : Type 0 where
  pub tenant_id : String
  pub kind : EventKind
  pub occurred_at : Datetime
  pub payload : SlimPayload F
  pub schema_version : String
  pub event_id : String

pub data IngestStatus : Type 0 where
  processed no_op duplicate invalid : IngestStatus

pub record IngestOutcome : Type 0 where
  pub status : IngestStatus
  pub event_id : Option String
  pub kind : Option EventKind
  pub recompute : Option Summary
  pub reason : Option String

-- The dictionary over `_SUMMARY_KEYS`.
pub record SummaryTotals : Type 0 where
  pub recommendations : ℕ
  pub written : ℕ
  pub deferred : ℕ
  pub failed : ℕ
  pub queued : ℕ
  pub rejected : ℕ
  pub skipped : ℕ

pub record IngestReport : Type 0 where
  pub received : ℕ
  pub processed : ℕ
  pub no_op : ℕ
  pub duplicate : ℕ
  pub invalid : ℕ
  pub recompute_totals : SummaryTotals
  pub outcomes : List IngestOutcome
