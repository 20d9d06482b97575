-- ===== src/Tests/Lanes.antt =====
-- Batches of the event lane. The store has no bundle of the part that moves.
use aeronta_inventory.Base.{
  ℕ, ◌≡◌, refl, String, Bool, true, Option, none, some, List, [], ◌∷◌, string_eq, leb, ◌&&◌,
}
use aeronta_inventory.Base.Int.{pos}
use aeronta_inventory.Base.Dict.{Dict, lookup}
use aeronta_inventory.Contracts.{Recommendation}
use aeronta_inventory.Guardrail.{GuardrailOutcome, authorize, enforce}
use aeronta_inventory.Writeback.{init}
use aeronta_inventory.Events.{
  EventEnvelope, Datetime, stock, stock_moved, valid_envelope, kind_matches,
}
use aeronta_inventory.Events.Patterns.{is_kebab, kebab_from, is_semver, semver_from}
use aeronta_inventory.EventLane.{
  Lane, Item, envelope, raw, IngestOutcome, IngestReport, no_op, invalid, duplicate_outcome,
  empty_summary, DomainEvent, resolve, adapt, to_domain_event, from_outcomes, ingest, ingest_item,
  outcomes_from, ingest_batch, handle_canonical, handle, bundles_from, recompute_found,
}
use aeronta_inventory.EventLane.Ingested.{
  IsAccount, IsProjection, ingest-ingest, ingest_batch-received, to_domain_event-some,
}
use aeronta_inventory.Tests.Fixtures.{bps, default_config, wheel}

abbrev moment : Datetime
moment = record { instant = 100; aware = true }

abbrev moved : EventEnvelope ℕ
moved = record {
  event_id = "e1";
  tenant_id = "acme";
  kind = stock_moved;
  occurred_at = moment;
  produced_at = moment;
  schema_version = "1.0.0";
  producer = record { system = "emro"; version = "1"; instance_name = "a" };
  payload = stock (record {
    pn = "PN-1";
    sn = none;
    from_location = "SYD";
    to_location = "MEL";
    from_condition = "NEW";
    to_condition = "NEW";
    qty = pos 1;
    transaction_type = "MOVE";
    transaction_no = pos 7;
    wo = none;
    moved_by = none;
  });
  correlation_id = none;
  causation_id = none;
}

-- Another event, of the same id.
abbrev repeated : EventEnvelope ℕ
repeated = record moved { tenant_id = "other" }

abbrev store : Dict (String × String × String) ℕ
store = []

abbrev recommend_wheel :
    String → Datetime → Dict (String × String) ℕ → List (Recommendation ℕ × ℕ) × ℕ
recommend_wheel tenant time found = ((wheel, 100) ∷ [], 0)

abbrev guard : Recommendation ℕ → Option (GuardrailOutcome ℕ)
guard = enforce bps (authorize bps default_config)

abbrev refuse : String → Option (EventEnvelope ℕ)
refuse text = none

abbrev because : String → String
because text = "1 validation error(s)"

abbrev idle : Lane
idle = record { target = init [] 90; seen = []; dlq = [] }

abbrev items : List (Item ℕ)
items = raw "{}" ∷ envelope moved ∷ envelope repeated ∷ []

abbrev run_batch : List (Item ℕ) → Lane → Option IngestReport × Lane
run_batch is l = ingest_batch store resolve recommend_wheel guard refuse because is l

abbrev ingest_event : EventEnvelope ℕ → Lane → Option IngestOutcome × Lane
ingest_event e l = ingest store resolve recommend_wheel guard refuse because e l

abbrev report : IngestReport
report = from_outcomes (
    record {
      status = invalid;
      event_id = none;
      kind = none;
      recompute = none;
      reason = some "1 validation error(s)";
    }
    ∷ record {
      status = no_op;
      event_id = some "e1";
      kind = some stock_moved;
      recompute = some empty_summary;
      reason = none;
    }
    ∷ duplicate_outcome repeated
    ∷ [])

reported : (run_batch items idle).0 ≡ some report
unfolding ingest_batch outcomes_from ingest_item ingest to_domain_event adapt handle_canonical
    handle bundles_from recompute_found resolve lookup
reported = refl

ingest_batch-received_example :
    IsAccount store resolve recommend_wheel guard refuse because items idle report
ingest_batch-received_example =
    ingest_batch-received store resolve recommend_wheel guard refuse because items idle report
      reported

ingest-ingest_example :
    ingest_event repeated (run_batch items (ingest_event moved idle).1).1
    ≡ (some (duplicate_outcome repeated), (run_batch items (ingest_event moved idle).1).1)
ingest-ingest_example =
    ingest-ingest store resolve recommend_wheel guard refuse because moved repeated items idle refl

abbrev any_id : String → Bool
any_id s = true

abbrev decimal : ℕ → Bool
decimal c = leb b'0' c && leb c b'9'

moved-valid : valid_envelope any_id decimal moved ≡ true
unfolding valid_envelope kind_matches is_kebab kebab_from is_semver semver_from
moved-valid = refl

to_domain_event-some_example :
    (d : DomainEvent ℕ) × ((to_domain_event moved ≡ some d) × IsProjection moved d)
to_domain_event-some_example = to_domain_event-some any_id decimal moved moved-valid
