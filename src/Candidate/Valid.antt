-- ===== src/Candidate/Valid.antt =====
-- The validators of contracts/candidate.py on action lines, economics and candidates. `!=` of decimals
-- compares numbers. The patterns of ids and the texts of the nested
-- records are left out; the own texts of a candidate are checked in Candidate/Builders.
use aeronta_inventory.Base.{
  String, Bool, true, false, not, ◌&&◌, ◌||◌, Option, none, some, List, [], ◌∷◌, map, filter, all,
  any, ◌==◌, string_eq, nat_beq, if◌then◌else◌,
}
use aeronta_inventory.Candidate.Decimals.{Decimals}
use aeronta_inventory.Candidate.Amounts.{larger, smaller, sum_from}
use aeronta_inventory.Candidate.Types.{
  ActionKind, CandidateKind, CandidateTargetLevels, CandidateActionLine, LifecycleEconomics,
  LifecycleCostComponents, CandidateOutcome, ConstraintEvidence, CandidateReconciliation,
  PolicyCandidate,
}
use aeronta_inventory.Candidate.Planner.{unique, is_nil, valid_members, valid_forecasts}

-- The literals of `ActionKind`.
abbrev pub kind_text : ActionKind → String
kind_text ActionKind.no_change = "no_change"
kind_text ActionKind.purchase = "purchase"
kind_text ActionKind.transfer_in = "transfer_in"
kind_text ActionKind.transfer_out = "transfer_out"
kind_text ActionKind.adjust_policy = "adjust_policy"
kind_text ActionKind.reduce_stock = "reduce_stock"
kind_text ActionKind.sell = "sell"

abbrev pub same_kind : ActionKind → ActionKind → Bool
same_kind a b = kind_text a == kind_text b

abbrev pub adjusts : ActionKind → Bool
adjusts ActionKind.adjust_policy = true
adjusts _ = false

abbrev pub receives : ActionKind → Bool
receives ActionKind.transfer_in = true
receives _ = false

abbrev pub buys : ActionKind → Bool
buys ActionKind.purchase = true
buys _ = false

abbrev pub idles : ActionKind → Bool
idles ActionKind.no_change = true
idles _ = false

-- `action.kind in {"transfer_out", "reduce_stock", "sell"}`
abbrev pub releases : ActionKind → Bool
releases ActionKind.transfer_out = true
releases ActionKind.reduce_stock = true
releases ActionKind.sell = true
releases _ = false

abbrev pub is_some : {A : Type 0} → Option A → Bool
is_some none = false
is_some (some x) = true

-- `==` of target levels.
unfoldable pub same_levels : CandidateTargetLevels → CandidateTargetLevels → Bool
same_levels a b =
    (nat_beq a.rop b.rop && nat_beq a.eoq b.eoq)
    && (nat_beq a.safety_stock b.safety_stock && nat_beq a.max_stock b.max_stock)

-- `constraint.hard and not constraint.satisfied`
abbrev pub fails : ConstraintEvidence → Bool
fails c = c.hard && not c.satisfied

module _ (decimals : Decimals) where
  open decimals use {D, zero_decimal, one_decimal, le, eq, add, sub, mul, div, neg}

  abbrev Line : Type 0
  Line = CandidateActionLine D

  abbrev pub nonneg : D → Bool
  nonneg a = le zero_decimal a

  -- The quantity that the kind of a line asks for.
  abbrev pub quantity_ok : Line → Bool
  quantity_ok a =
      if idles a.kind
      then eq a.quantity zero_decimal && eq a.unit_acquisition_cash zero_decimal
      else if adjusts a.kind
      then eq a.quantity zero_decimal
      else not (le a.quantity zero_decimal)

  -- The locations that the kind of a line asks for.
  abbrev pub places_ok : ActionKind → Option String → Option String → Bool
  places_ok ActionKind.purchase source destination = is_some destination
  places_ok ActionKind.transfer_in source destination = is_some destination && is_some source
  places_ok ActionKind.transfer_out source destination = is_some source && is_some destination
  places_ok _ source destination = true

  -- `CandidateActionLine._action_semantics`.
  unfoldable pub valid_action : Line → Bool
  valid_action a =
      (nonneg a.quantity && nonneg a.unit_acquisition_cash)
      && (quantity_ok a
          && ((buys a.kind || eq a.unit_acquisition_cash zero_decimal)
              && places_ok a.kind a.source_location a.destination_location))

  abbrev pub acquisition_cash : Line → D
  acquisition_cash a = mul a.quantity a.unit_acquisition_cash

  unfoldable pub valid_economics : LifecycleEconomics D → Bool
  valid_economics e =
      (nonneg e.inventory_unit_value && nonneg e.annual_holding_rate)
      && (nonneg e.ordering_cost_per_purchase
          && (nonneg e.shortage_cost_per_unit && nonneg e.other_cost))

  -- `LifecycleCostComponents._total_reconciles`.
  unfoldable pub valid_costs : LifecycleCostComponents D → Bool
  valid_costs c =
      (nonneg c.acquisition_cash && (nonneg c.holding_cost && nonneg c.ordering_cost))
      && ((nonneg c.shortage_cost && (nonneg c.other_cost && nonneg c.total_lifecycle_cost))
          && eq c.total_lifecycle_cost (
              add
                (add (add (add c.acquisition_cash c.holding_cost) c.ordering_cost) c.shortage_cost)
                c.other_cost))

  abbrev pub in_unit : D → Bool
  in_unit a = nonneg a && le a one_decimal

  -- What is left after demand.
  abbrev pub net_of : D → D → D → D → D → D
  net_of available receipts inbound outbound demand =
      sub (sub (add (add available receipts) inbound) outbound) demand

  -- The share of demand that is served.
  abbrev pub service_of : D → D → D
  service_of shortage demand =
      if eq demand zero_decimal
      then one_decimal
      else larger decimals zero_decimal
          (smaller decimals one_decimal (sub one_decimal (div shortage demand)))

  -- `CandidateOutcome._position_reconciles`.
  unfoldable pub valid_outcome : CandidateOutcome D → Bool
  valid_outcome o =
      let net =
        net_of o.available_before o.expected_receipts_before o.inbound_quantity o.outbound_quantity
          o.projected_demand in
      (((nonneg o.projected_demand && nonneg o.available_before)
          && (nonneg o.expected_receipts_before
              && (nonneg o.inbound_quantity && nonneg o.outbound_quantity)))
        && ((nonneg o.expected_shortage && nonneg o.expected_excess)
            && (in_unit o.expected_service_level && in_unit o.expected_aog_risk)))
      && ((eq o.ending_net_position net
            && eq o.expected_shortage (larger decimals zero_decimal (neg net)))
          && (eq o.expected_excess (larger decimals zero_decimal net)
              && eq o.expected_service_level (service_of o.expected_shortage o.projected_demand)))

  -- `CandidateReconciliation._ledger_reconciles`.
  unfoldable pub valid_ledger : CandidateReconciliation D → Bool
  valid_ledger r =
      let net =
        net_of r.available_before r.expected_receipts_before r.total_inbound_quantity
          r.outbound_quantity r.projected_demand in
      (((nonneg r.available_before && nonneg r.expected_receipts_before)
          && (nonneg r.projected_demand
              && (nonneg r.transfer_in_quantity && nonneg r.purchase_quantity)))
        && ((nonneg r.outbound_quantity && nonneg r.total_inbound_quantity)
            && (nonneg r.action_quantity
                && (nonneg r.expected_shortage && nonneg r.acquisition_cash))))
      && ((eq r.total_inbound_quantity (add r.transfer_in_quantity r.purchase_quantity)
            && eq r.action_quantity (add r.total_inbound_quantity r.outbound_quantity))
          && (eq r.ending_net_position net
              && eq r.expected_shortage (larger decimals zero_decimal (neg net))))

  -- `sum(action.quantity for action in actions if action.kind != "adjust_policy")`
  abbrev pub moved : List Line → D
  moved = sum_from decimals zero_decimal (λ a. not (adjusts a.kind)) CandidateActionLine.quantity

  abbrev pub committed : List Line → D
  committed = sum_from decimals zero_decimal (λ a. true) acquisition_cash

  -- `movement_kinds == expected`
  abbrev pub moves_exactly : List ActionKind → List Line → Bool
  moves_exactly expected lines =
      all (λ k. any (λ a. same_kind a.kind k) lines) expected
      && all (λ a. adjusts a.kind || any (same_kind a.kind) expected) lines

  -- The lines fit the kind of a candidate that changes something.
  abbrev pub fits : CandidateKind → List Line → Bool
  fits CandidateKind.no_change lines = false
  fits CandidateKind.purchase lines = moves_exactly (ActionKind.purchase ∷ []) lines
  fits CandidateKind.transfer lines =
      moves_exactly (ActionKind.transfer_in ∷ []) lines
      || moves_exactly (ActionKind.transfer_out ∷ []) lines
  fits CandidateKind.transfer_purchase lines =
      moves_exactly (ActionKind.transfer_in ∷ ActionKind.purchase ∷ []) lines
  fits CandidateKind.adjust_policy lines = moves_exactly [] lines && any (λ a. adjusts a.kind) lines
  fits CandidateKind.reduce_stock lines = moves_exactly (ActionKind.reduce_stock ∷ []) lines
  fits CandidateKind.sell lines = moves_exactly (ActionKind.sell ∷ []) lines

  abbrev pub baseline : CandidateKind → Bool
  baseline CandidateKind.no_change = true
  baseline _ = false

  abbrev pub only_idle : List Line → Bool
  only_idle [] = false
  only_idle (a ∷ ls) = idles a.kind && is_nil ls

  -- The end of `PolicyCandidate._candidate_reconciles`: what the lines may be.
  unfoldable pub valid_kinds : PolicyCandidate D → Bool
  valid_kinds c =
      if c.is_no_change
      then (baseline c.candidate_kind && same_levels c.current_levels c.target_levels)
        && (only_idle c.actions
            && (eq c.action_quantity zero_decimal
                && eq c.lifecycle_costs.acquisition_cash zero_decimal))
      else (not (any (λ a. idles a.kind) c.actions) && fits c.candidate_kind c.actions)

  -- Infeasible exactly when something explains it.
  unfoldable pub explained : PolicyCandidate D → Bool
  explained c =
      let clear = is_nil (filter fails c.constraints) && is_nil c.infeasibility_reasons in
      if c.feasible then clear else not clear

  -- What the ledger repeats of the lines and of the outcome.
  unfoldable pub agrees : PolicyCandidate D → Bool
  agrees c =
      let o = c.outcome in
      let r = c.reconciliation in
      ((eq c.action_quantity (moved c.actions)
          && eq c.lifecycle_costs.acquisition_cash (committed c.actions))
        && (eq r.acquisition_cash (committed c.actions) && eq r.action_quantity c.action_quantity))
      && (((eq r.available_before o.available_before
              && eq r.expected_receipts_before o.expected_receipts_before)
            && (eq r.projected_demand o.projected_demand
                && eq r.total_inbound_quantity o.inbound_quantity))
          && ((eq r.outbound_quantity o.outbound_quantity
                && eq r.ending_net_position o.ending_net_position)
              && eq r.expected_shortage o.expected_shortage))

  abbrev pub one_currency : PolicyCandidate D → Bool
  one_currency c =
      all (λ a. a.currency == c.lifecycle_costs.currency) c.actions
      && c.reconciliation.currency == c.lifecycle_costs.currency

  -- `PolicyCandidate._candidate_reconciles`.
  unfoldable pub valid_candidate : PolicyCandidate D → Bool
  valid_candidate c =
      (valid_members c.decision_key c.member_keys
        && valid_forecasts c.decision_key c.member_keys c.model_identity)
      && (((not (is_nil c.actions) && not (is_nil c.evidence))
            && (unique (map CandidateActionLine.line_id c.actions)
                && unique (map ConstraintEvidence.constraint_id c.constraints)))
          && ((explained c && one_currency c)
              && ((agrees c && in_unit c.confidence) && valid_kinds c)))
