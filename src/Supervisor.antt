-- ===== src/Supervisor.antt =====
-- services/agent-spine/src/trax_io_spine/supervisor.py: the recommendations of a batch go through
-- the guardrails to the writeback target. The batch that the recommendation service returns is an
-- argument. Beside each recommendation stands what the clock reads if the target reads it for it.
pub mod Shadow
pub mod Report
pub mod Rerun
use aeronta_inventory.Base.{
  ℕ, String, ◌<>◌, Bool, true, false, Option, none, some, List, [], ◌∷◌, ◌++◌, length,
  if◌then◌else◌,
}
use aeronta_inventory.Enums.{AutonomyTier}
use aeronta_inventory.Contracts.{Policy, Recommendation}
use aeronta_inventory.Guardrail.{
  GuardrailStatus, approved_for_write, queued_for_approval, rejected_hard_guardrail, ApprovalTask,
  GuardrailOutcome,
}
use aeronta_inventory.Writeback.{WritebackRequest, WritebackResult, WritebackStatus, Target, write}

-- The lists that the loop of `run` fills.
pub record Outcomes (F : Type 0) : Type 0 where
  pub written : List WritebackResult
  pub deferred : List WritebackResult
  pub failed : List WritebackResult
  pub shadowed : List WritebackResult
  pub queued : List (ApprovalTask F)
  pub rejected : List (GuardrailOutcome F)

abbrev pub no_outcomes : {F : Type 0} → Outcomes F
no_outcomes = record {
  written = [];
  deferred = [];
  failed = [];
  shadowed = [];
  queued = [];
  rejected = [];
}

-- `summary`; `recommendations` and `skipped` are those of the batch.
pub record Summary : Type 0 where
  pub recommendations : ℕ
  pub written : ℕ
  pub deferred : ℕ
  pub failed : ℕ
  pub shadowed : ℕ
  pub queued : ℕ
  pub rejected : ℕ
  pub skipped : ℕ

module _ {F : Type 0} where
  -- The f-string `idem`.
  unfoldable pub idempotency_key : Recommendation F → String
  idempotency_key rec =
      rec.tenant_id
      <> (":"
          <> (rec.part_number
              <> (":" <> (rec.current_location <> (":" <> rec.input_snapshot_hash)))))

  -- `to_writeback_request`; without a policy it raises, before the record is built.
  unfoldable pub to_writeback_request :
      Recommendation F → Policy → AutonomyTier → Bool → WritebackRequest
  to_writeback_request rec p tier shadow = record {
    tenant_id = rec.tenant_id;
    pn = rec.part_number;
    location = rec.current_location;
    rop = p.rop;
    eoq = p.eoq;
    safety_stock = p.safety_stock;
    max_stock = p.max_stock;
    provenance_id = p.provenance_id;
    idempotency_key = idempotency_key rec;
    tier = some tier;
    shadow = shadow;
  }

  -- The deferral that the guardrails ask for.
  abbrev pub deferred_result : Recommendation F → WritebackResult
  deferred_result rec = record {
    tenant_id = rec.tenant_id;
    pn = rec.part_number;
    location = rec.current_location;
    status = WritebackStatus.deferred_open_order;
    old_values = none;
    new_values = none;
    written_at = none;
    error_message = none;
  }

  -- Where a result of the target goes.
  unfoldable pub file_result : WritebackStatus → WritebackResult → Outcomes F → Outcomes F
  file_result WritebackStatus.written r o = record o { written = o.written ++ r ∷ [] }
  file_result WritebackStatus.shadowed r o = record o { shadowed = o.shadowed ++ r ∷ [] }
  file_result WritebackStatus.deferred_open_order r o = record o { deferred = o.deferred ++ r ∷ [] }
  file_result WritebackStatus.failed r o = record o { failed = o.failed ++ r ∷ [] }

  abbrev pub file_task : Option (ApprovalTask F) → Outcomes F → Outcomes F
  file_task none o = o
  file_task (some t) o = record o { queued = o.queued ++ t ∷ [] }

  -- A queued recommendation: in shadow mode its write is simulated if it has a policy.
  unfoldable pub handle_queued :
      Bool
      → Recommendation F
      → GuardrailOutcome F
      → Option Policy
      → ℕ
      → Outcomes F
      → Target
      → Outcomes F × Target
  handle_queued true rec outcome (some p) now o t =
      let (result, t') = write (to_writeback_request rec p outcome.tier true) now t in
      (record o { shadowed = o.shadowed ++ result ∷ [] }, t')
  handle_queued true rec outcome none now o t = (file_task outcome.approval_task o, t)
  handle_queued false rec outcome p now o t = (file_task outcome.approval_task o, t)

  -- An approved recommendation; `none` stands for the exception of `to_writeback_request`.
  unfoldable pub handle_approved :
      Bool
      → Recommendation F
      → GuardrailOutcome F
      → Option Policy
      → ℕ
      → Outcomes F
      → Target
      → Option (Outcomes F × Target)
  handle_approved shadow rec outcome none now o t = none
  handle_approved shadow rec outcome (some p) now o t =
      let (result, t') = write (to_writeback_request rec p outcome.tier shadow) now t in
      some (file_result result.status result o, t')

  -- The body of the loop, by the status of the outcome.
  unfoldable pub dispatch :
      Bool
      → Recommendation F
      → GuardrailOutcome F
      → GuardrailStatus
      → ℕ
      → Outcomes F
      → Target
      → Option (Outcomes F × Target)
  dispatch shadow rec outcome rejected_hard_guardrail now o t =
      some (record o { rejected = o.rejected ++ outcome ∷ [] }, t)
  dispatch shadow rec outcome GuardrailStatus.deferred_open_order now o t =
      some (record o { deferred = o.deferred ++ deferred_result rec ∷ [] }, t)
  dispatch shadow rec outcome queued_for_approval now o t =
      some (handle_queued shadow rec outcome rec.policy now o t)
  dispatch shadow rec outcome approved_for_write now o t =
      handle_approved shadow rec outcome rec.policy now o t

  -- `none` stands for the exception of `enforce`.
  abbrev pub dispatch_outcome :
      Bool
      → Recommendation F
      → Option (GuardrailOutcome F)
      → ℕ
      → Outcomes F
      → Target
      → Option (Outcomes F × Target)
  dispatch_outcome shadow rec none now o t = none
  dispatch_outcome shadow rec (some outcome) now o t =
      dispatch shadow rec outcome outcome.status now o t

  module _ (enforce : Recommendation F → Option (GuardrailOutcome F)) (shadow : Bool) where
    unfoldable pub handle :
        Recommendation F → ℕ → Outcomes F → Target → Option (Outcomes F × Target)
    handle rec now o t = dispatch_outcome shadow rec (enforce rec) now o t

    -- The loop of `run`. An exception leaves the target as the earlier writes made it.
    unfoldable pub run_from :
        List (Recommendation F × ℕ) → Outcomes F → Target → Option (Outcomes F) × Target
    run_from [] o t = (some o, t)
    run_from ((rec, now) ∷ recs) o t = elim (handle rec now o t) [
      | none ↦ (none, t)
      | some (o', t') ↦ run_from recs o' t'
    ]

    -- `Supervisor.run`.
    unfoldable pub run : List (Recommendation F × ℕ) → Target → Option (Outcomes F) × Target
    run recs t = run_from recs no_outcomes t

  unfoldable pub summary : List (Recommendation F × ℕ) → ℕ → Outcomes F → Summary
  summary recs skipped o = record {
    recommendations = length recs;
    written = length o.written;
    deferred = length o.deferred;
    failed = length o.failed;
    shadowed = length o.shadowed;
    queued = length o.queued;
    rejected = length o.rejected;
    skipped = skipped;
  }
