-- ===== src/EventLane.antt =====
-- services/agent-spine/src/trax_io_spine/event_lane: canonical_adapter.py, keys.py, online.py,
-- handler.py and ingestor.py. An event is projected to its slim form, its keys are resolved and
-- recomputed by the supervisor, each event id once.
mod Types
pub mod Tallies
pub mod Ingested
pub mod Bundles
pub mod Adapters
use aeronta_inventory.Base.{
  ℕ, ◌+◌, String, Bool, true, false, Option, none, some, List, [], ◌∷◌, ◌++◌, ltb, length, contains,
  count, string_eq, pair_eq, triple_eq, ◌==◌, if◌then◌else◌,
}
use aeronta_inventory.Base.Dict.{Dict, lookup, insert}
use aeronta_inventory.Contracts.{Recommendation}
use aeronta_inventory.Guardrail.{GuardrailOutcome}
use aeronta_inventory.Writeback.{Target}
use aeronta_inventory.Supervisor as Spine
use aeronta_inventory.Supervisor.{Summary, Outcomes, summary}
use aeronta_inventory.Events.{
  EventEnvelope, EventKind, Payload, Datetime, flight_completed, stock_moved, wo_scheduled,
  vendor_price_changed, plan_published, removal_recorded, eo_published, flight, stock, work_order,
  vendor_price, plan, removal, engineering_order,
}
unfoldable pub use Types.*

module _ {F : Type 0} where
  -- `_ADAPTERS` on a payload; `none` stands for the exception on a payload of another kind.
  unfoldable pub adapt : EventKind → Payload F → Option (SlimPayload F)
  adapt flight_completed (flight p) = some (
      flight_slim (record {
        tail = p.tail;
        ac_type = p.ac_type;
        destination = p.destination;
        flight_hours = p.flight_hours;
        cycles = p.cycles;
      }))
  adapt stock_moved (stock p) = some (
      stock_slim (record {
        pn = p.pn;
        from_location = p.from_location;
        to_location = p.to_location;
        qty = p.qty;
      }))
  adapt wo_scheduled (work_order p) = some (
      work_order_slim (record {
        wo = p.wo;
        location = p.location;
        scheduled_start = p.scheduled_start;
        tail = p.tail;
      }))
  adapt vendor_price_changed (vendor_price p) = some (
      vendor_price_slim (record {
        pn = p.pn;
        vendor = p.vendor;
        old_price = p.old_price;
        new_price = p.new_price;
        lead_days = p.new_lead_days;
      }))
  adapt plan_published (plan p) =
      some
        (plan_slim (record { plan_id = p.plan_id; fleet = p.fleet; horizon_days = p.horizon_days }))
  adapt removal_recorded (removal p) = some (
      removal_slim (record {
        pn = p.pn;
        tail = p.tail;
        location = p.location;
        removal_reason = p.removal_reason;
      }))
  adapt eo_published (engineering_order p) = some (
      engineering_order_slim (record {
        eo_number = p.eo_number;
        ata_chapter = p.ata_chapter;
        affected_fleet = p.affected_fleet;
        criticality = p.criticality;
      }))
  adapt _ _ = none

  abbrev pub with_payload : EventEnvelope F → SlimPayload F → DomainEvent F
  with_payload e p = record {
    tenant_id = e.tenant_id;
    kind = e.kind;
    occurred_at = e.occurred_at;
    payload = p;
    schema_version = e.schema_version;
    event_id = e.event_id;
  }

  -- `to_domain_event`.
  unfoldable pub to_domain_event : EventEnvelope F → Option (DomainEvent F)
  to_domain_event e = elim (adapt e.kind e.payload) [
    | none ↦ none
    | some p ↦ some (with_payload e p)
  ]

  abbrev pub resolve_kind : EventKind → SlimPayload F → List (String × String)
  resolve_kind stock_moved (stock_slim p) =
      if p.from_location == p.to_location
      then (p.pn, p.to_location) ∷ []
      else (p.pn, p.from_location) ∷ (p.pn, p.to_location) ∷ []
  resolve_kind removal_recorded (removal_slim p) = (p.pn, p.location) ∷ []
  resolve_kind _ _ = []

  -- `DirectKeyResolver.resolve`, a set in some order.
  unfoldable pub resolve : DomainEvent F → List (String × String)
  resolve e = resolve_kind e.kind e.payload

-- `_EMPTY_SUMMARY`.
abbrev pub empty_summary : Summary
empty_summary = record {
  recommendations = 0;
  written = 0;
  deferred = 0;
  failed = 0;
  shadowed = 0;
  queued = 0;
  rejected = 0;
  skipped = 0;
}

abbrev pub is_processed : IngestOutcome → Bool
is_processed o = elim o.status [
  | processed ↦ true
  | no_op ↦ false
  | duplicate ↦ false
  | invalid ↦ false
]

abbrev pub is_no_op : IngestOutcome → Bool
is_no_op o = elim o.status [
  | processed ↦ false
  | no_op ↦ true
  | duplicate ↦ false
  | invalid ↦ false
]

abbrev pub is_duplicate : IngestOutcome → Bool
is_duplicate o = elim o.status [
  | processed ↦ false
  | no_op ↦ false
  | duplicate ↦ true
  | invalid ↦ false
]

abbrev pub is_invalid : IngestOutcome → Bool
is_invalid o = elim o.status [
  | processed ↦ false
  | no_op ↦ false
  | duplicate ↦ false
  | invalid ↦ true
]

abbrev pub add_summary : Option Summary → SummaryTotals → SummaryTotals
add_summary none t = t
add_summary (some s) t = record {
  recommendations = s.recommendations + t.recommendations;
  written = s.written + t.written;
  deferred = s.deferred + t.deferred;
  failed = s.failed + t.failed;
  queued = s.queued + t.queued;
  rejected = s.rejected + t.rejected;
  skipped = s.skipped + t.skipped;
}

-- The loop of `from_outcomes` over `recompute`.
unfoldable pub totals : List IngestOutcome → SummaryTotals
totals [] = record {
  recommendations = 0;
  written = 0;
  deferred = 0;
  failed = 0;
  queued = 0;
  rejected = 0;
  skipped = 0;
}
totals (o ∷ os) = add_summary o.recompute (totals os)

-- `IngestReport.from_outcomes`.
unfoldable pub from_outcomes : List IngestOutcome → IngestReport
from_outcomes os = record {
  received = length os;
  processed = count is_processed os;
  no_op = count is_no_op os;
  duplicate = count is_duplicate os;
  invalid = count is_invalid os;
  recompute_totals = totals os;
  outcomes = os;
}

-- `EventIngestor` with the writeback target of its handler; `dlq` is the `InMemoryDeadLetterSink`.
pub record Lane : Type 0 where
  pub target : Target
  pub seen : List String
  pub dlq : List (String × String)

abbrev pub duplicate_outcome : {F : Type 0} → EventEnvelope F → IngestOutcome
duplicate_outcome e = record {
  status = duplicate;
  event_id = some e.event_id;
  kind = some e.kind;
  recompute = none;
  reason = none;
}

-- An item of a batch: an envelope, or a text that is still to be decoded.
pub data Item (F : Type 0) : Type 0 where
  envelope : EventEnvelope F → Item F
  raw : String → Item F

-- `online` is `_by_key` of the store, `resolve_keys` the resolver, `decode` the validation of a text,
-- with its reason for a refusal. `recommend` is the batch of the recommendation service, with what
-- the clock reads beside each recommendation, and how many keys it skips.
module _ {F B : Type 0} (online : Dict (String × String × String) B)
    (resolve_keys : DomainEvent F → List (String × String))
    (recommend : String → Datetime → Dict (String × String) B → List (Recommendation F × ℕ) × ℕ)
    (enforce : Recommendation F → Option (GuardrailOutcome F))
    (decode : String → Option (EventEnvelope F)) (refusal : String → String) where
  -- The loop of `handle` over the keys; a key without a bundle is passed over.
  unfoldable pub bundles_from :
      String → List (String × String) → Dict (String × String) B → Dict (String × String) B
  bundles_from tenant [] found = found
  bundles_from tenant ((pn, location) ∷ keys) found = elim (lookup (tenant, pn, location) online) [
    | none ↦ bundles_from tenant keys found
    | some b ↦ bundles_from tenant keys (insert (pn, location) b found)
  ]

  abbrev pub summary_of : List (Recommendation F × ℕ) → ℕ → Option (Outcomes F) → Option Summary
  summary_of recs skipped none = none
  summary_of recs skipped (some o) = some (summary recs skipped o)

  -- `Supervisor.run` over what was found, which is not in shadow mode.
  unfoldable pub recompute_found :
      DomainEvent F → Dict (String × String) B → Target → Option Summary × Target
  recompute_found e [] t = (some empty_summary, t)
  recompute_found e (b ∷ bs) t =
      let (recs, skipped) = recommend e.tenant_id e.occurred_at (b ∷ bs) in
      let (outcomes, t') = Spine.run enforce false recs t in (summary_of recs skipped outcomes, t')

  -- `EventLaneHandler.handle`.
  unfoldable pub handle : DomainEvent F → Target → Option Summary × Target
  handle e t = recompute_found e (bundles_from e.tenant_id (resolve_keys e) []) t

  -- `handle(to_domain_event(event))`.
  unfoldable pub handle_canonical : Option (DomainEvent F) → Target → Option Summary × Target
  handle_canonical none t = (none, t)
  handle_canonical (some e) t = handle e t

  abbrev pub outcome_of : EventEnvelope F → Option Summary → Option IngestOutcome
  outcome_of e none = none
  outcome_of e (some s) = some (record {
    status = if ltb 0 s.recommendations then processed else no_op;
    event_id = some e.event_id;
    kind = some e.kind;
    recompute = some s;
    reason = none;
  })

  -- `ingest`: the event counts as seen before it is handled.
  unfoldable pub ingest : EventEnvelope F → Lane → Option IngestOutcome × Lane
  ingest e l =
      if contains e.event_id l.seen
      then (some (duplicate_outcome e), l)
      else (let (s, t) = handle_canonical (to_domain_event e) l.target in
          (outcome_of e s, record { target = t; seen = e.event_id ∷ l.seen; dlq = l.dlq }))

  -- `ingest_raw` and the choice of `ingest_batch`.
  unfoldable pub ingest_item : Item F → Lane → Option IngestOutcome × Lane
  ingest_item (envelope e) l = ingest e l
  ingest_item (raw text) l = elim (decode text) [
    | none ↦ (
      some (record {
        status = invalid;
        event_id = none;
        kind = none;
        recompute = none;
        reason = some (refusal text);
      }),
      record l { dlq = l.dlq ++ (text, refusal text) ∷ [] },
    )
    | some e ↦ ingest e l
  ]

  -- The list `outcomes` of `ingest_batch`; an exception ends the batch.
  unfoldable pub outcomes_from : List (Item F) → Lane → Option (List IngestOutcome) × Lane
  outcomes_from [] l = (some [], l)
  outcomes_from (i ∷ is) l =
      let (o, l₁) = ingest_item i l in
      let (os, l₂) = outcomes_from is l₁ in
      elim o [
        | none ↦ (none, l₁)
        | some out ↦ elim os [ none ↦ (none, l₂) | some outs ↦ (some (out ∷ outs), l₂) ]
      ]

  -- `ingest_batch`.
  unfoldable pub ingest_batch : List (Item F) → Lane → Option IngestReport × Lane
  ingest_batch items l =
      let (os, l') = outcomes_from items l in
      elim os [ none ↦ (none, l') | some outs ↦ (some (from_outcomes outs), l') ]
