-- ===== src/Writeback.antt =====
-- services/agent-spine/src/trax_io_spine/writeback/target.py, with its messages in contracts.py:
-- the in-memory writeback target. `datetime.now` is the argument `now` of a write, in microseconds.
mod Types
pub mod Ledger
pub mod Invariant
pub mod Calls
pub mod Idempotence
pub mod Rollback
pub use Types.*
use mathlib.Core.List.{reverse}
use aeronta_inventory.Base.{
  ℕ, ◌+◌, ◌*◌, String, Bool, true, false, Option, none, some, List, [], ◌∷◌, ◌++◌, ltb, length,
  ◌<>◌, string_eq, triple_eq, contains, if◌then◌else◌,
}
use aeronta_inventory.Base.Dict.{lookup, insert}

abbrev pub agent_version : String
agent_version = "agent-spine-v1"

-- `timedelta(days=1)` in microseconds.
abbrev pub day : ℕ
day = 86_400_000_000

-- The state that `__init__` makes once it has accepted the window.
unfoldable pub init : List Key → ℕ → Target
init open_orders window = record {
  open_orders = open_orders;
  levels = [];
  seen = [];
  history = [];
  ledger = [];
  window = window;
}

-- `__init__` with its check of the window; `none` stands for the ValueError.
unfoldable pub create : List Key → ℕ → Option Target
create open_orders window = if ltb 0 window then some (init open_orders window) else none

abbrev pub is_written : WritebackStatus → Bool
is_written written = true
is_written _ = false

-- `next((e for e in reversed(entries) if e.status is WRITTEN), None)`.
unfoldable pub first_written : List HistoryEntry → Option HistoryEntry
first_written [] = none
first_written (e ∷ es) = if is_written e.status then some e else first_written es

unfoldable pub latest_written : List HistoryEntry → Option HistoryEntry
latest_written entries = first_written (reverse entries)

abbrev pub version_of : Option HistoryEntry → Option ℕ
version_of none = none
version_of (some e) = some e.version

abbrev pub or_empty : Option (List HistoryEntry) → List HistoryEntry
or_empty none = []
or_empty (some es) = es

-- `self._history.get(key, [])`.
unfoldable pub entries_of : Key → Target → List HistoryEntry
entries_of k t = or_empty (lookup k t.ledger)

-- `_record`: the new ledger entry.
unfoldable pub new_entry :
    Key
    → WritebackRequest
    → WritebackStatus
    → Option Levels
    → Levels
    → String
    → ℕ
    → List HistoryEntry
    → HistoryEntry
new_entry (tenant, pn, location) req status old new principal changed_at entries = record {
  tenant_id = tenant;
  pn = pn;
  location = location;
  version = length entries + 1;
  status = status;
  old_values = old;
  new_values = new;
  provenance_id = req.provenance_id;
  tier = req.tier;
  agent_version = agent_version;
  changed_by_principal = principal;
  idempotency_key = some req.idempotency_key;
  parent_version = version_of (latest_written entries);
  changed_at = changed_at;
}

-- `_record`: the entry is appended to the ledger of its key.
unfoldable pub record_entry :
    Key → WritebackRequest → WritebackStatus → Option Levels → Levels → String → ℕ → Target → Target
record_entry k req status old new principal changed_at t =
    let entries = entries_of k t in
    record t {
      ledger =
          insert k (entries ++ new_entry k req status old new principal changed_at entries ∷ [])
            t.ledger;
    }

-- `{f: getattr(req, f) for f in _FIELDS}`.
abbrev pub levels_of : WritebackRequest → Levels
levels_of req = record {
  rop = req.rop;
  eoq = req.eoq;
  safety_stock = req.safety_stock;
  max_stock = req.max_stock;
}

abbrev pub key_of : WritebackRequest → Key
key_of req = (req.tenant_id, req.pn, req.location)

abbrev pub result_of :
    WritebackRequest → WritebackStatus → Option Levels → Option Levels → Option ℕ → WritebackResult
result_of req status old new at = record {
  tenant_id = req.tenant_id;
  pn = req.pn;
  location = req.location;
  status = status;
  old_values = old;
  new_values = new;
  written_at = at;
  error_message = none;
}

abbrev pub remember : WritebackRequest → WritebackResult → Target → Target
remember req result t = record t { seen = insert req.idempotency_key result t.seen }

-- The `req.shadow` branch of `write`.
unfoldable pub write_shadow : WritebackRequest → ℕ → Target → WritebackResult × Target
write_shadow req now t =
    let k = key_of req in
    let old = lookup k t.levels in
    let result = result_of req shadowed old (some (levels_of req)) (some now) in
    (
      result,
      remember req result (record_entry k req shadowed old (levels_of req) "agent-spine" now t),
    )

-- The branch of `write` for a key with an open order.
unfoldable pub write_deferred : WritebackRequest → Target → WritebackResult × Target
write_deferred req t =
    let result = result_of req deferred_open_order none none none in (result, remember req result t)

-- The last branch of `write`.
unfoldable pub write_level : WritebackRequest → ℕ → Target → WritebackResult × Target
write_level req now t =
    let k = key_of req in
    let old = lookup k t.levels in
    let result = result_of req written old (some (levels_of req)) (some now) in
    let t₁ : Target = record t { levels = insert k (levels_of req) t.levels } in
    let t₂ : Target = record_entry k req written old (levels_of req) "agent-spine" now t₁ in
    let t₃ : Target = remember req result t₂ in
    (result, record t₃ { history = t₃.history ++ result ∷ [] })

-- A request whose idempotency key is new.
unfoldable pub write_new : WritebackRequest → ℕ → Target → WritebackResult × Target
write_new req now t =
    if req.shadow
    then write_shadow req now t
    else if contains (key_of req) t.open_orders
    then write_deferred req t
    else write_level req now t

-- `write`.
unfoldable pub write : WritebackRequest → ℕ → Target → WritebackResult × Target
write req now t = elim (lookup req.idempotency_key t.seen) [
  | some result ↦ (result, t)
  | none ↦ write_new req now t
]

-- `str` and `isoformat` print a version and a time.
module _ (str isoformat : ℕ → String) where
  -- The request that `rollback` hands to `_record`.
  unfoldable pub rollback_entry : RollbackRequest → HistoryEntry → Levels → WritebackRequest
  rollback_entry req latest to = record {
    tenant_id = req.tenant_id;
    pn = req.pn;
    location = req.location;
    rop = to.rop;
    eoq = to.eoq;
    safety_stock = to.safety_stock;
    max_stock = to.max_stock;
    provenance_id = "rollback:" <> latest.provenance_id;
    idempotency_key = "rollback:" <> (str latest.version <> (":" <> isoformat req.requested_at));
    tier = latest.tier;
    shadow = false;
  }

  -- The last branch of `rollback`.
  unfoldable pub revert : RollbackRequest → HistoryEntry → Levels → Target → RollbackResult × Target
  revert req latest to t =
      let k : Key = (req.tenant_id, req.pn, req.location) in
      let current = lookup k t.levels in
      let version = length (entries_of k t) + 1 in
      (
        record {
          tenant_id = req.tenant_id;
          pn = req.pn;
          location = req.location;
          status = rolled_back;
          from_values = current;
          to_values = some to;
          reverted_from_version = some latest.version;
          new_version = some version;
          rolled_back_at = some req.requested_at;
          error_message = none;
        },
        record_entry k (rollback_entry req latest to) written current to req.principal
            req.requested_at (record t { levels = insert k to t.levels }),
      )

  -- The tests of `rollback` on the latest written entry and its old values.
  unfoldable pub rollback_from :
      RollbackRequest → Target → Option HistoryEntry → RollbackResult × Target
  rollback_from req t none = (no_rollback req nothing_to_revert, t)
  rollback_from req t (some latest) = elim latest.old_values [
    | none ↦ (no_rollback req nothing_to_revert, t)
    | some to ↦
        if ltb (latest.changed_at + t.window * day) req.requested_at
        then (no_rollback req outside_window, t)
        else revert req latest to t
  ]

  -- `rollback`.
  unfoldable pub rollback : RollbackRequest → Target → RollbackResult × Target
  rollback req t =
      rollback_from req t (latest_written (entries_of (req.tenant_id, req.pn, req.location) t))

  -- A call of the target.
  unfoldable pub step : Call → Target → Target
  step (write_call req now) t = (write req now t).1
  step (rollback_call req) t = (rollback req t).1

  unfoldable pub run : List Call → Target → Target
  run [] t = t
  run (c ∷ cs) t = run cs (step c t)
