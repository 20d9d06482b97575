-- ===== src/Candidate/Builders/Baseline.antt =====
-- The candidate that changes nothing.
use aeronta_inventory.Base.{
  ℕ, ◌≡◌, refl, ap, ◌∙◌, String, true, false, some, All, [], ◌∷◌, map, contains, text_le, string_eq,
  nat_beq_iff, arith,
}
use aeronta_inventory.Base.Sort.{place, sorted}
use aeronta_inventory.Candidate.Decimals.{Decimals}
use aeronta_inventory.Candidate.Amounts.{smaller, sum_from, eq_refl}
use aeronta_inventory.Candidate.Amounts.Groups.{add_last, sub_zero}
use aeronta_inventory.Candidate.Types.{ConstraintEvidence, PolicyCandidate, CandidateTargetLevels}
use aeronta_inventory.Candidate.Planner.{unique, is_nil, valid_forecasts}
use aeronta_inventory.Candidate.Valid.{in_unit, valid_action, valid_economics, same_levels}
use aeronta_inventory.Candidate.Reconcile.{Request, sorted_actions, quantities, costs_of}
use aeronta_inventory.Candidate.Builders.{
  candidate_of, stripped, identified, acceptable, no_change_line, no_change_request,
  build_no_change_candidate, outcome_of,
}
use aeronta_inventory.Candidate.Builders.Kinds.{lines_fit}
use aeronta_inventory.Candidate.Builders.Returns.{
  IsClean, IsNamed, IsRequest, reconcile_candidate-some,
}

same_levels_refl : (t : CandidateTargetLevels) → same_levels t t ≡ true
unfolding same_levels
same_levels_refl t = ground (
  arith,
  nat_beq_iff t.rop t.rop,
  nat_beq_iff t.eoq t.eoq,
  nat_beq_iff t.safety_stock t.safety_stock,
  nat_beq_iff t.max_stock t.max_stock,
)

module _ (decimals : Decimals) (show : ℕ → String)
    (candidate_identifier : String → PolicyCandidate (Decimals.D decimals) → String)
    (strip : String → String) where
  open decimals use {
    D, zero_decimal, le, add, sub, neg, le_refl, eq_iff, add_comm, add_assoc, add_zero, add_neg,
    sub_eq, mul_zero,
  }

  -- What a builder leaves to its caller, whatever lines it makes.
  pub record IsCaller (r : Request D) : Type 0 where
    pub economics : valid_economics decimals r.economics ≡ true
    pub position :
        le zero_decimal (
          smaller decimals
            (smaller decimals r.available_before r.expected_receipts_before)
            r.projected_demand)
        ≡ true
    pub members : unique r.member_keys ≡ true
    pub own_key : contains r.decision_key r.member_keys ≡ true
    pub forecasts :
        valid_forecasts r.decision_key (sorted text_le r.member_keys) r.model_identity ≡ true
    pub some_evidence : is_nil r.evidence ≡ false
    pub constraint_ids : unique (map ConstraintEvidence.constraint_id r.constraints) ≡ true
    pub risk : in_unit decimals r.expected_aog_risk ≡ true
    pub confidence : in_unit decimals r.confidence ≡ true
    pub names : IsNamed decimals show candidate_identifier strip r
    -- What the builders write in the label.
    pub labels :
        All
          (IsClean decimals show candidate_identifier strip)
          ("No change" ∷ "Transfer first, purchase residual" ∷ [])

  module _ (r : Request D) (h : IsCaller r) where
    abbrev request : Request D
    request = no_change_request decimals show candidate_identifier strip r

    abbrev built : PolicyCandidate D
    built = identified decimals show candidate_identifier strip request

    line-valid :
        valid_action decimals
          (no_change_line decimals show candidate_identifier strip r.economics.currency)
        ≡ true
    unfolding valid_action
    line-valid = ground (arith, le_refl zero_decimal, eq_refl decimals zero_decimal)

    quantity-zero :
        (id : String)
        → (candidate_of decimals show candidate_identifier strip id request).action_quantity
          ≡ zero_decimal
    unfolding candidate_of quantities sorted_actions sorted place sum_from
    quantity-zero id = add_zero zero_decimal

    cash-zero :
        (id : String)
        → (candidate_of decimals show candidate_identifier strip id
            request).lifecycle_costs.acquisition_cash
          ≡ zero_decimal
    unfolding candidate_of costs_of sorted_actions sorted place sum_from
    cash-zero id = add_zero _ ∙ mul_zero zero_decimal

    net-plain :
        built.outcome.ending_net_position
        ≡ sub (add r.available_before r.expected_receipts_before) r.projected_demand
    unfolding stripped candidate_of outcome_of quantities sorted_actions sorted place sum_from
    net-plain =
        ap (λ x. sub x r.projected_demand)
          (sub_zero decimals _
            ∙ (ap (add (add r.available_before r.expected_receipts_before)) (add_zero zero_decimal)
                ∙ add_last decimals _))

    kinds : lines_fit decimals request ≡ true
    kinds = ground (arith, same_levels_refl r.current_levels)

    accepted : acceptable decimals show candidate_identifier strip request ≡ true
    unfolding acceptable sorted_actions sorted place
    accepted = ground (
      arith,
      h.position,
      h.members,
      (string_eq.same_iff r.economics.currency r.economics.currency).1 refl,
    )

    request-IsRequest : IsRequest decimals show candidate_identifier strip request
    request-IsRequest = record {
      lines = (line-valid, tt);
      economics = h.economics;
      accepted = accepted;
      own_key = h.own_key;
      forecasts = h.forecasts;
      some_evidence = h.some_evidence;
      line_ids = refl;
      constraint_ids = h.constraint_ids;
      risk = h.risk;
      confidence = h.confidence;
      names = record {
        tenant = h.names.tenant;
        part = h.names.part;
        place = h.names.place;
        key = h.names.key;
        members = h.names.members;
        reasons = h.names.reasons;
      };
      label = h.labels.0;
      kinds = kinds;
    }

    -- For a caller's valid arguments, whose texts are stripped and not empty,
    -- `build_no_change_candidate` returns a candidate that keeps the current levels, moves no units and commits no cash, and whose net position is what is available
    -- and expected less the demand.
    pub build_no_change_candidate-some :
        (c : PolicyCandidate D) × ((build_no_change_candidate decimals show candidate_identifier
              strip r
            ≡ some c)
          × (((c.target_levels ≡ r.current_levels) × (c.action_quantity ≡ zero_decimal))
              × ((c.lifecycle_costs.acquisition_cash ≡ zero_decimal)
                  × (c.outcome.ending_net_position
                      ≡ sub
                          (add r.available_before r.expected_receipts_before)
                          r.projected_demand))))
    unfolding build_no_change_candidate stripped candidate_of
    build_no_change_candidate-some = (
      built,
      (
        reconcile_candidate-some decimals show candidate_identifier strip request request-IsRequest,
        ((refl, quantity-zero built.candidate_id), (cash-zero built.candidate_id, net-plain)),
      ),
    )
