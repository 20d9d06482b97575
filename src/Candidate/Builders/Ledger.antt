-- ===== src/Candidate/Builders/Ledger.antt =====
-- The costs, the outcome and the ledger of a candidate pass their validators.
use aeronta_inventory.Base.{ℕ, ◌≡◌, String, true, not, List, All, arith}
use aeronta_inventory.Candidate.Decimals.{Decimals}
use aeronta_inventory.Candidate.Amounts.{
  smaller, eq_refl, larger_left, larger_least, smaller_left, add_nonneg,
}
use aeronta_inventory.Candidate.Types.{CandidateActionLine, LifecycleEconomics, PolicyCandidate}
use aeronta_inventory.Candidate.Valid.{
  in_unit, buys, receives, releases, adjusts, service_of, valid_economics, valid_costs,
  valid_outcome, valid_ledger,
}
use aeronta_inventory.Candidate.Reconcile.{Request, quantity_of, quantities, costs_of}
use aeronta_inventory.Candidate.Builders.{outcome_of, ledger_of}
use aeronta_inventory.Candidate.Builders.Sums.{
  IsValid, quantity_of-nonneg, committed-nonneg, moved-split,
}

module _ (decimals : Decimals) where
  open decimals use {
    D, zero_decimal, one_decimal, le, eq, add, sub, mul, div, neg, of_nat, money, le_refl, eq_iff,
    zero_le_one, mul_nonneg, div_nonneg, money_nonneg, of_nat_nonneg,
  }

  holding-nonneg :
      (e : LifecycleEconomics D) (excess : D)
      → valid_economics decimals e ≡ true
      → le zero_decimal excess ≡ true
      → le zero_decimal (
          money (
            div
              (mul
                (mul (mul excess e.inventory_unit_value) e.annual_holding_rate)
                (of_nat e.horizon_days))
              (of_nat 365)))
        ≡ true
  unfolding valid_economics
  holding-nonneg e excess h k = money_nonneg _ (
      div_nonneg _ 364 (
        mul_nonneg _ _ (mul_nonneg _ _ (mul_nonneg _ _ k (ground (arith, h))) (ground (arith, h)))
          (of_nat_nonneg e.horizon_days)))

  pub costs_of-valid :
      (e : LifecycleEconomics D) (ls : List (CandidateActionLine D)) (shortage excess : D)
      → valid_economics decimals e ≡ true
      → All (IsValid decimals) ls
      → le zero_decimal shortage ≡ true
      → le zero_decimal excess ≡ true
      → valid_costs decimals (costs_of decimals e ls shortage excess) ≡ true
  unfolding valid_costs costs_of valid_economics
  costs_of-valid e ls shortage excess h v k l =
      let costs = costs_of decimals e ls shortage excess in
      let cash = committed-nonneg decimals ls v in
      let holding = holding-nonneg e excess h l in
      let ordering : le zero_decimal costs.ordering_cost ≡ true =
        money_nonneg _ (mul_nonneg _ _ (ground (arith, h)) (of_nat_nonneg _)) in
      let short : le zero_decimal costs.shortage_cost ≡ true =
        money_nonneg _ (mul_nonneg _ _ k (ground (arith, h))) in
      let other : le zero_decimal costs.other_cost ≡ true = money_nonneg _ (ground (arith, h)) in
      let total : le zero_decimal costs.total_lifecycle_cost ≡ true =
        add_nonneg decimals _ _
          (add_nonneg decimals _ _
            (add_nonneg decimals _ _ (add_nonneg decimals _ _ cash holding) ordering) short)
          other in
      ground (
        arith,
        cash,
        holding,
        ordering,
        short,
        other,
        total,
        eq_refl decimals costs.total_lifecycle_cost,
      )

  service_of-in_unit :
      (shortage demand : D) → in_unit decimals (service_of decimals shortage demand) ≡ true
  service_of-in_unit shortage demand =
      let share = sub one_decimal (div shortage demand) in
      ground (
        arith,
        le_refl one_decimal,
        zero_le_one,
        larger_left decimals zero_decimal (smaller decimals one_decimal share),
        larger_least decimals zero_decimal (smaller decimals one_decimal share) one_decimal
            zero_le_one (smaller_left decimals one_decimal share),
      )

  module _ (show : ℕ → String) (candidate_identifier : String → PolicyCandidate D → String)
      (strip : String → String) (r : Request D) (ls : List (CandidateActionLine D))
      (v : All (IsValid decimals) ls) (available : le zero_decimal r.available_before ≡ true)
      (receipts : le zero_decimal r.expected_receipts_before ≡ true)
      (demand : le zero_decimal r.projected_demand ≡ true) where
    bought : le zero_decimal (quantity_of decimals buys ls) ≡ true
    bought = quantity_of-nonneg decimals buys ls v

    received : le zero_decimal (quantity_of decimals receives ls) ≡ true
    received = quantity_of-nonneg decimals receives ls v

    released : le zero_decimal (quantity_of decimals releases ls) ≡ true
    released = quantity_of-nonneg decimals releases ls v

    inbound :
        le zero_decimal (add (quantity_of decimals buys ls) (quantity_of decimals receives ls))
        ≡ true
    inbound = add_nonneg decimals _ _ bought received

    pub outcome_of-valid :
        in_unit decimals r.expected_aog_risk ≡ true
        → valid_outcome decimals
            (outcome_of decimals show candidate_identifier strip r (quantities decimals r ls))
          ≡ true
    unfolding valid_outcome outcome_of quantities
    outcome_of-valid risk =
        let q = quantities decimals r ls in
        ground (
          arith,
          available,
          receipts,
          demand,
          risk,
          inbound,
          released,
          eq_refl decimals q.ending_net,
          eq_refl decimals q.shortage,
          eq_refl decimals q.excess,
          eq_refl decimals q.service_level,
          larger_left decimals zero_decimal (neg q.ending_net),
          larger_left decimals zero_decimal q.ending_net,
          service_of-in_unit q.shortage r.projected_demand,
        )

    pub ledger_of-valid :
        valid_ledger decimals (
          ledger_of decimals show candidate_identifier strip r (quantities decimals r ls) (
            costs_of decimals r.economics ls
              (quantities decimals r ls).shortage
              (quantities decimals r ls).excess))
        ≡ true
    unfolding valid_ledger ledger_of quantities costs_of
    ledger_of-valid =
        let q = quantities decimals r ls in
        ground (
          arith,
          available,
          receipts,
          demand,
          bought,
          received,
          inbound,
          released,
          quantity_of-nonneg decimals (λ k. not (adjusts k)) ls v,
          committed-nonneg decimals ls v,
          (eq_iff q.inbound (add q.transfer_in q.purchase)).1
              (Decimals.add_comm decimals q.purchase q.transfer_in),
          (eq_iff q.action (add q.inbound q.outbound)).1 (moved-split decimals ls v),
          eq_refl decimals q.ending_net,
          eq_refl decimals q.shortage,
          larger_left decimals zero_decimal (neg q.ending_net),
        )
