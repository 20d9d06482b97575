-- ===== src/Candidate/Builders.antt =====
-- candidate/reconcile.py: the builders of candidates. `none` stands for a `ValueError`.
pub mod Keys
pub mod Kinds
pub mod Sums
pub mod Ledger
pub mod Returns
pub mod Baseline
use aeronta_inventory.Base.{
  ℕ, zero, suc, ◌≡◌, String, Bool, true, false, not, ◌&&◌, ◌||◌, Option, none, some, List, [], ◌∷◌,
  ◌++◌, map, filter, all, contains, sorted, text_le, ◌==◌, string_eq, if◌then◌else◌,
}
use aeronta_inventory.Candidate.Decimals.{Decimals}
use aeronta_inventory.Candidate.Amounts.{larger, smaller}
use aeronta_inventory.Candidate.Types.{
  ActionKind, CandidateKind, CandidateActionLine, LifecycleCostComponents, CandidateOutcome,
  ConstraintScope, ConstraintEvidence, CandidateReconciliation, PolicyCandidate,
}
use aeronta_inventory.Candidate.Planner.{unique, is_nil}
use aeronta_inventory.Candidate.Valid.{
  fails, nonneg, valid_action, valid_costs, valid_outcome, valid_ledger, valid_candidate,
}
use aeronta_inventory.Candidate.Reconcile.{
  Request, Quantities, quantities, costs_of, generated_hard_constraints, sorted_actions,
  sorted_evidence, distinct_texts,
}

-- `str` of a number, pydantic's stripping of a text and the digest of candidate/identity.py are
-- parameters. The digest is taken of a
-- candidate whose id is blank.
module _ (decimals : Decimals) (show : ℕ → String)
    (candidate_identifier : String → PolicyCandidate (Decimals.D decimals) → String)
    (strip : String → String) where
  open decimals use {D, zero_decimal, le, eq, add, sub, of_nat, ceil, format}

  unfoldable pub outcome_of : Request D → Quantities decimals → CandidateOutcome D
  outcome_of r q = record {
    projected_demand = r.projected_demand;
    available_before = r.available_before;
    expected_receipts_before = r.expected_receipts_before;
    inbound_quantity = q.inbound;
    outbound_quantity = q.outbound;
    ending_net_position = q.ending_net;
    expected_shortage = q.shortage;
    expected_excess = q.excess;
    expected_service_level = q.service_level;
    expected_aog_risk = r.expected_aog_risk;
  }

  unfoldable pub ledger_of :
      Request D → Quantities decimals → LifecycleCostComponents D → CandidateReconciliation D
  ledger_of r q costs = record {
    currency = r.economics.currency;
    available_before = r.available_before;
    expected_receipts_before = r.expected_receipts_before;
    projected_demand = r.projected_demand;
    transfer_in_quantity = q.transfer_in;
    purchase_quantity = q.purchase;
    outbound_quantity = q.outbound;
    total_inbound_quantity = q.inbound;
    action_quantity = q.action;
    ending_net_position = q.ending_net;
    expected_shortage = q.shortage;
    acquisition_cash = costs.acquisition_cash;
  }

  -- `sorted(set(infeasibility_reasons))`
  abbrev pub reasons_of : Request D → List String
  reasons_of r = sorted text_le (distinct_texts r.infeasibility_reasons)

  unfoldable pub constraints_of : Request D → Quantities decimals → List ConstraintEvidence
  constraints_of r q =
      generated_hard_constraints decimals show r.constraints r.target_levels
        (add (add r.available_before r.expected_receipts_before) q.inbound) q.outbound

  -- The texts of a candidate of which `NonEmptyStr` strips the blanks.
  unfoldable pub stripped : PolicyCandidate D → PolicyCandidate D
  stripped c = record c {
    tenant_id = strip c.tenant_id;
    pn = strip c.pn;
    location = strip c.location;
    decision_key = strip c.decision_key;
    member_keys = map strip c.member_keys;
    label = strip c.label;
    infeasibility_reasons = map strip c.infeasibility_reasons;
  }

  abbrev pub non_empty : String → Bool
  non_empty s = not (s == "")

  -- `min_length=1` of these texts.
  unfoldable pub valid_texts : PolicyCandidate D → Bool
  valid_texts c =
      (non_empty c.tenant_id && (non_empty c.pn && non_empty c.location))
      && ((non_empty c.decision_key && non_empty c.label)
          && (all non_empty c.member_keys && all non_empty c.infeasibility_reasons))

  -- `PolicyCandidate(candidate_id=..., **payload)`, before pydantic strips and checks it.
  unfoldable pub candidate_of : String → Request D → PolicyCandidate D
  candidate_of id r =
      let lines = sorted_actions r.actions in
      let q = quantities decimals r lines in
      let costs = costs_of decimals r.economics lines q.shortage q.excess in
      let constraints = constraints_of r q in
      record {
        candidate_id = id;
        tenant_id = r.tenant_id;
        pn = r.pn;
        location = r.location;
        decision_key = r.decision_key;
        member_keys = sorted text_le r.member_keys;
        candidate_kind = r.candidate_kind;
        label = r.label;
        is_no_change = r.is_no_change;
        feasible = is_nil (reasons_of r) && is_nil (filter fails constraints);
        infeasibility_reasons = reasons_of r;
        model_identity = r.model_identity;
        current_levels = r.current_levels;
        target_levels = r.target_levels;
        actions = lines;
        action_quantity = q.action;
        lifecycle_costs = costs;
        outcome = outcome_of r q;
        confidence = r.confidence;
        constraints = constraints;
        evidence = sorted_evidence r.evidence;
        reconciliation = ledger_of r q costs;
      }

  abbrev pub identified : Request D → PolicyCandidate D
  identified r = stripped (candidate_of (candidate_identifier r.frontier_id (candidate_of "" r)) r)

  -- The checks of `reconcile_candidate` on its arguments.
  unfoldable pub acceptable : Request D → Bool
  acceptable r =
      (not (is_nil r.actions)
        && all (λ a. a.currency == r.economics.currency) (sorted_actions r.actions))
      && (le zero_decimal (
            smaller decimals (smaller decimals r.available_before r.expected_receipts_before)
              r.projected_demand)
          && unique r.member_keys)

  -- The validators of the records that it builds.
  unfoldable pub valid : PolicyCandidate D → Bool
  valid c =
      (valid_costs decimals c.lifecycle_costs && valid_outcome decimals c.outcome)
      && (valid_ledger decimals c.reconciliation && (valid_texts c && valid_candidate decimals c))

  -- `reconcile_candidate`.
  unfoldable pub reconcile_candidate : Request D → Option (PolicyCandidate D)
  reconcile_candidate r = if acceptable r && valid (identified r) then some (identified r) else none

  abbrev pub no_change_line : String → CandidateActionLine D
  no_change_line currency = record {
    line_id = "no-change";
    kind = ActionKind.no_change;
    quantity = zero_decimal;
    currency = currency;
    unit_acquisition_cash = zero_decimal;
    source_location = none;
    destination_location = none;
    source_reference = none;
  }

  -- The arguments that `build_no_change_candidate` adds to its own.
  abbrev pub no_change_request : Request D → Request D
  no_change_request r = record r {
    candidate_kind = CandidateKind.no_change;
    label = "No change";
    is_no_change = true;
    target_levels = r.current_levels;
    actions = no_change_line r.economics.currency ∷ [];
  }

  -- `build_no_change_candidate`, of the fields of `r` that it takes.
  unfoldable pub build_no_change_candidate : Request D → Option (PolicyCandidate D)
  build_no_change_candidate r = reconcile_candidate (no_change_request r)
