-- ===== src/Writeback/Types.antt =====
-- The messages of services/agent-spine/src/trax_io_spine/contracts.py that the writeback target
-- exchanges, and the state of `InMemoryWritebackTarget`. Times are microseconds since an epoch.
use aeronta_inventory.Base.{ℕ, String, Bool, Option, none, List}
use aeronta_inventory.Base.Dict.{Dict}
use aeronta_inventory.Enums.{AutonomyTier}

-- The dictionary over `_FIELDS`.
pub record Levels : Type 0 where
  pub rop : ℕ
  pub eoq : ℕ
  pub safety_stock : ℕ
  pub max_stock : ℕ

pub data WritebackStatus : Type 0 where
  written deferred_open_order failed shadowed : WritebackStatus

pub record WritebackRequest : Type 0 where
  pub tenant_id : String
  pub pn : String
  pub location : String
  pub rop : ℕ
  pub eoq : ℕ
  pub safety_stock : ℕ
  pub max_stock : ℕ
  pub provenance_id : String
  pub idempotency_key : String
  pub tier : Option AutonomyTier
  pub shadow : Bool

pub record WritebackResult : Type 0 where
  pub tenant_id : String
  pub pn : String
  pub location : String
  pub status : WritebackStatus
  pub old_values : Option Levels
  pub new_values : Option Levels
  pub written_at : Option ℕ
  pub error_message : Option String

pub data RollbackStatus : Type 0 where
  rolled_back outside_window nothing_to_revert : RollbackStatus

pub record HistoryEntry : Type 0 where
  pub tenant_id : String
  pub pn : String
  pub location : String
  pub version : ℕ
  pub status : WritebackStatus
  pub old_values : Option Levels
  pub new_values : Levels
  pub provenance_id : String
  pub tier : Option AutonomyTier
  pub agent_version : String
  pub changed_by_principal : String
  pub idempotency_key : Option String
  pub parent_version : Option ℕ
  pub changed_at : ℕ

pub record RollbackRequest : Type 0 where
  pub tenant_id : String
  pub pn : String
  pub location : String
  pub reason : String
  pub principal : String
  pub requested_at : ℕ

pub record RollbackResult : Type 0 where
  pub tenant_id : String
  pub pn : String
  pub location : String
  pub status : RollbackStatus
  pub from_values : Option Levels
  pub to_values : Option Levels
  pub reverted_from_version : Option ℕ
  pub new_version : Option ℕ
  pub rolled_back_at : Option ℕ
  pub error_message : Option String

-- A result of `rollback` that changed nothing.
abbrev pub no_rollback : RollbackRequest → RollbackStatus → RollbackResult
no_rollback req status = record {
  tenant_id = req.tenant_id;
  pn = req.pn;
  location = req.location;
  status = status;
  from_values = none;
  to_values = none;
  reverted_from_version = none;
  new_version = none;
  rolled_back_at = none;
  error_message = none;
}

-- `(tenant_id, pn, location)`.
abbrev pub Key : Type 0
Key = String × String × String

-- The fields of `InMemoryWritebackTarget`; `ledger` is its `_history`.
pub record Target : Type 0 where
  pub open_orders : List Key
  pub levels : Dict Key Levels
  pub seen : Dict String WritebackResult
  pub history : List WritebackResult
  pub ledger : Dict Key (List HistoryEntry)
  pub window : ℕ

-- A call that a client makes; a write carries the clock that it reads.
pub data Call : Type 0 where
  write_call : WritebackRequest → ℕ → Call
  rollback_call : RollbackRequest → Call
