-- ===== src/Candidate/Transfers/Covers.antt =====
-- What `build_transfer_purchase_candidate` returns.
use mathlib.Core.Path.{subst}
use aeronta_inventory.Base.{
  ℕ, ◌≡◌, refl, sym, ap, ◌∙◌, String, Bool, true, false, not, ◌||◌, ◌⊎◌, none, some, List, [], ◌∷◌,
  ◌++◌, map, contains, string_eq, arith, inl, inr, Bool-cases,
}
use aeronta_inventory.Base.Members.{all-All}
use aeronta_inventory.Candidate.Decimals.{Decimals}
use aeronta_inventory.Candidate.Amounts.{smaller_greatest}
use aeronta_inventory.Candidate.Amounts.Groups.{sub_zero, sub_nonneg, shortfall-zero, add_le_both}
use aeronta_inventory.Candidate.Types.{ConstraintEvidence, PolicyCandidate}
use aeronta_inventory.Candidate.Planner.{unique}
use aeronta_inventory.Candidate.Valid.{valid_action}
use aeronta_inventory.Candidate.Reconcile.{Request, quantities}
use aeronta_inventory.Candidate.Builders.{
  stripped, candidate_of, identified, acceptable, outcome_of, ledger_of,
}
use aeronta_inventory.Candidate.Builders.Keys.{
  unique-filter, unique-append, contains-append, contains-filter_out,
}
use aeronta_inventory.Candidate.Builders.Kinds.{lines_fit}
use aeronta_inventory.Candidate.Builders.Returns.{IsRequest, reconcile_candidate-some}
use aeronta_inventory.Candidate.Builders.Baseline.{IsCaller}
use aeronta_inventory.Candidate.Transfers.{
  TransferTerms, positive, shortage_before, finalized_transfer, purchase_quantity, lines_of,
  donor_constraint, order_constraint, others, transfer_request, transfer_acceptable,
  build_transfer_purchase_candidate,
}
use aeronta_inventory.Candidate.Transfers.Lines.{
  part, bought, received, released, part-covers, chosen-fits, chosen-ids, chosen-currency,
  some_lines, lines_of-valid,
}
use aeronta_inventory.Candidate.Transfers.Shortage.{
  IsTerms, transfer-le_donor, purchase-order, demand-covered, some_line, no_line,
}

append-two : {A : Type 0} (xs : List A) (x y : A) → xs ++ x ∷ y ∷ [] ≡ (xs ++ x ∷ []) ++ y ∷ []
append-two [] x y = refl
append-two (z ∷ xs) x y = ap (λ l. z ∷ l) (append-two xs x y)

abbrev two_ids : List String
two_ids = "donor_availability" ∷ "minimum_order_quantity" ∷ []

module _ (decimals : Decimals) (show : ℕ → String)
    (candidate_identifier : String → PolicyCandidate (Decimals.D decimals) → String)
    (strip : String → String) where
  open decimals use {
    D, zero_decimal, le, add, sub, of_nat, le_refl, le_trans, add_comm, add_assoc, add_zero, add_le,
  }

  module _ (r : Request D) (t : TransferTerms D)
      (h : IsCaller decimals show candidate_identifier strip r) (k : IsTerms decimals t) where
    abbrev request : Request D
    request = transfer_request decimals show r t

    abbrev built : PolicyCandidate D
    built = identified decimals show candidate_identifier strip request

    abbrev sends : Bool
    sends = positive decimals (finalized_transfer decimals r t)

    abbrev orders : Bool
    orders = positive decimals (purchase_quantity decimals r t)

    constraints-unique : unique (map ConstraintEvidence.constraint_id request.constraints) ≡ true
    unfolding transfer_request
    constraints-unique =
        let own = others decimals show r.constraints in
        let a = donor_constraint decimals show r t in
        let b = order_constraint decimals show r t in
        let free : (id : String)
            → contains id two_ids ≡ true
            → contains id (map ConstraintEvidence.constraint_id own) ≡ false =
          λ id e.
            contains-filter_out ConstraintEvidence.constraint_id
              (λ c. not (contains c.constraint_id two_ids)) id r.constraints
              (λ c same. rw (same, e) refl) in
        rw (append-two own a b) (
          unique-append ConstraintEvidence.constraint_id b (own ++ a ∷ [])
            (unique-append ConstraintEvidence.constraint_id a own
              (unique-filter ConstraintEvidence.constraint_id
                (λ c. not (contains c.constraint_id two_ids)) r.constraints h.constraint_ids)
              (free a.constraint_id refl))
            (contains-append ConstraintEvidence.constraint_id b.constraint_id a own
              ∙ rw (free b.constraint_id refl) refl))

    module _ (some_short : positive decimals (shortage_before decimals r) ≡ true) where
      active : (sends || orders) ≡ true
      active = some_line decimals r t some_short

      accepted : acceptable decimals show candidate_identifier strip request ≡ true
      unfolding acceptable transfer_request lines_of
      accepted = ground (
        arith,
        h.position,
        h.members,
        chosen-currency decimals r t sends orders,
        some_lines decimals r t sends orders,
        active,
      )

      kinds : lines_fit decimals request ≡ true
      unfolding transfer_request lines_of
      kinds = chosen-fits decimals r t sends orders active

      request-IsRequest : IsRequest decimals show candidate_identifier strip request
      unfolding transfer_request lines_of
      request-IsRequest = record {
        lines = all-All (valid_action decimals) _ (lines_of-valid decimals r t k.cost);
        economics = h.economics;
        accepted = accepted;
        own_key = h.own_key;
        forecasts = h.forecasts;
        some_evidence = h.some_evidence;
        line_ids = chosen-ids decimals r t sends orders;
        constraint_ids = constraints-unique;
        risk = h.risk;
        confidence = h.confidence;
        names = record {
          tenant = h.names.tenant;
          part = h.names.part;
          place = h.names.place;
          key = h.names.key;
          members = h.names.members;
          reasons = tt;
        };
        label = h.labels.1.0;
        kinds = kinds;
      }

    terms-accepted :
        transfer_acceptable decimals show candidate_identifier strip r t ≡ (sends || orders)
    unfolding transfer_acceptable lines_of
    terms-accepted = ground (
      arith,
      k.order,
      smaller_greatest decimals _ _ _ k.requested k.donor,
      some_lines decimals r t sends orders,
      lines_of-valid decimals r t k.cost,
    )

    abbrev inbound : D
    inbound =
        add (part decimals r t orders (purchase_quantity decimals r t))
          (part decimals r t sends (finalized_transfer decimals r t))

    supply-covers :
        le r.projected_demand (add (add r.available_before r.expected_receipts_before) inbound)
        ≡ true
    supply-covers = le_trans _ _ _ (demand-covered decimals r t) (
        subst (λ x. le x (add (add r.available_before r.expected_receipts_before) inbound) ≡ true)
          (add_assoc r.available_before r.expected_receipts_before _)
          (add_le _ _ _ (
            subst (λ x. le x inbound ≡ true)
              (add_comm (purchase_quantity decimals r t) (finalized_transfer decimals r t))
              (add_le_both decimals _ _ _ _
                (part-covers decimals r t (purchase_quantity decimals r t))
                (part-covers decimals r t (finalized_transfer decimals r t))))))

    net-supply :
        built.outcome.ending_net_position
        ≡ sub (add (add r.available_before r.expected_receipts_before) inbound) r.projected_demand
    unfolding stripped candidate_of outcome_of quantities transfer_request lines_of
    net-supply =
        rw
          (
            released decimals r t sends orders,
            bought decimals r t sends orders,
            received decimals r t sends orders,
          )
          (ap (λ x. sub x r.projected_demand)
            (sub_zero decimals (add (add r.available_before r.expected_receipts_before) inbound)))

    nothing-short : built.outcome.expected_shortage ≡ zero_decimal
    unfolding stripped candidate_of outcome_of quantities
    nothing-short = shortfall-zero decimals built.outcome.ending_net_position (
        subst (λ x. le zero_decimal x ≡ true) (sym net-supply)
          (sub_nonneg decimals _ _ supply-covers))

    ledger-purchase :
        built.reconciliation.purchase_quantity
        ≡ part decimals r t orders (purchase_quantity decimals r t)
    unfolding stripped candidate_of ledger_of quantities transfer_request lines_of
    ledger-purchase = bought decimals r t sends orders

    ledger-transfer :
        built.reconciliation.transfer_in_quantity
        ≡ part decimals r t sends (finalized_transfer decimals r t)
    unfolding stripped candidate_of ledger_of quantities transfer_request lines_of
    ledger-transfer = received decimals r t sends orders

    order-kept :
        (built.reconciliation.purchase_quantity ≡ zero_decimal)
        ⊎ (le (of_nat t.minimum_order_quantity) built.reconciliation.purchase_quantity ≡ true)
    order-kept = elim (Bool-cases orders) [
      | inr idle ↦ inl (ledger-purchase ∙ rw idle refl)
      | inl ordered ↦ elim (purchase-order decimals r t) [
        | inl nothing ↦ inl (ledger-purchase ∙ rw (ordered, nothing, add_zero zero_decimal) refl)
        | inr enough ↦ inr (
            subst (λ x. le (of_nat t.minimum_order_quantity) x ≡ true)
              (sym (ledger-purchase ∙ rw (ordered, add_zero (purchase_quantity decimals r t)) refl))
              enough)
      ]
    ]

    donor-kept : le built.reconciliation.transfer_in_quantity t.donor_available_quantity ≡ true
    donor-kept = elim (Bool-cases sends) [
      | inr idle ↦
          subst (λ x. le x t.donor_available_quantity ≡ true) (sym (ledger-transfer ∙ rw idle refl))
            k.donor
      | inl sent ↦
          subst (λ x. le x t.donor_available_quantity ≡ true)
            (sym (ledger-transfer ∙ rw (sent, add_zero (finalized_transfer decimals r t)) refl))
            (transfer-le_donor decimals r t)
    ]

    -- For a caller's valid arguments, whose texts are stripped and not empty: if the stock and the receipts fall short of the demand,
    -- `build_transfer_purchase_candidate` returns a candidate that leaves no expected shortage, takes
    -- from the donor at most what it has, and buys nothing or at least the minimum order; otherwise
    -- it raises.
    pub build_transfer_purchase_candidate-covers :
        ((positive decimals (shortage_before decimals r) ≡ true)
          × ((c : PolicyCandidate D) × ((build_transfer_purchase_candidate decimals show
                    candidate_identifier strip r t
                  ≡ some c)
                × ((c.outcome.expected_shortage ≡ zero_decimal)
                    × ((le c.reconciliation.transfer_in_quantity t.donor_available_quantity ≡ true)
                        × ((c.reconciliation.purchase_quantity ≡ zero_decimal)
                            ⊎ (le
                                  (of_nat t.minimum_order_quantity)
                                  c.reconciliation.purchase_quantity
                                ≡ true)))))))
        ⊎ ((positive decimals (shortage_before decimals r) ≡ false)
            × (build_transfer_purchase_candidate decimals show candidate_identifier strip r t
                ≡ none))
    unfolding build_transfer_purchase_candidate
    build_transfer_purchase_candidate-covers =
        elim (Bool-cases (positive decimals (shortage_before decimals r))) [
          | inl short ↦ inl (
            short,
            (
              built,
              (
                rw (terms-accepted, active short)
                    (reconcile_candidate-some decimals show candidate_identifier strip request
                      (request-IsRequest short)),
                (nothing-short, (donor-kept, order-kept)),
              ),
            ),
          )
          | inr enough ↦ inr (enough, rw (terms-accepted, no_line decimals r t k enough) refl)
        ]
