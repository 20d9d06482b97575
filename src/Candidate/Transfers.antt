-- ===== src/Candidate/Transfers.antt =====
-- candidate/reconcile.py: `build_transfer_purchase_candidate`.
pub mod Lines
pub mod Shortage
pub mod Covers
use aeronta_inventory.Base.{
  ℕ, ◌≡◌, String, Bool, true, false, not, ◌&&◌, ◌||◌, Option, none, some, List, [], ◌∷◌, ◌++◌,
  filter, all, contains, ltb, ◌==◌, string_eq, if◌then◌else◌,
}
use aeronta_inventory.Candidate.Decimals.{Decimals}
use aeronta_inventory.Candidate.Amounts.{larger, smaller}
use aeronta_inventory.Candidate.Types.{
  ActionKind, CandidateKind, CandidateActionLine, ConstraintScope, ConstraintEvidence,
  PolicyCandidate,
}
use aeronta_inventory.Candidate.Planner.{is_nil}
use aeronta_inventory.Candidate.Valid.{valid_action}
use aeronta_inventory.Candidate.Reconcile.{Request}
use aeronta_inventory.Candidate.Builders.{reconcile_candidate}

-- The arguments of `build_transfer_purchase_candidate` that `reconcile_candidate` does not take.
pub record TransferTerms (D : Type 0) : Type 0 where
  pub requested_transfer_quantity : D
  pub donor_available_quantity : D
  pub donor_location : String
  pub minimum_order_quantity : ℕ
  pub purchase_unit_cost : D

module _ (decimals : Decimals) where
  open decimals use {D, zero_decimal, le, eq, sub, of_nat, ceil, format}

  -- `shortage_before`, `finalized_transfer`, `residual`, `rounded_residual` and `purchase_quantity`.
  unfoldable pub shortage_before : Request D → D
  shortage_before r =
      larger decimals zero_decimal
        (sub (sub r.projected_demand r.available_before) r.expected_receipts_before)

  unfoldable pub finalized_transfer : Request D → TransferTerms D → D
  finalized_transfer r t =
      smaller decimals (smaller decimals t.requested_transfer_quantity t.donor_available_quantity)
        (shortage_before r)

  unfoldable pub residual : Request D → TransferTerms D → D
  residual r t = larger decimals zero_decimal (sub (shortage_before r) (finalized_transfer r t))

  unfoldable pub rounded_residual : Request D → TransferTerms D → D
  rounded_residual r t = of_nat (ceil (residual r t))

  unfoldable pub purchase_quantity : Request D → TransferTerms D → D
  purchase_quantity r t =
      if not (le (residual r t) zero_decimal)
      then larger decimals (of_nat t.minimum_order_quantity) (rounded_residual r t)
      else zero_decimal

  abbrev pub positive : D → Bool
  positive a = not (le a zero_decimal)

  abbrev pub transfer_line : Request D → TransferTerms D → CandidateActionLine D
  transfer_line r t = record {
    line_id = "transfer-in";
    kind = ActionKind.transfer_in;
    quantity = finalized_transfer r t;
    currency = r.economics.currency;
    unit_acquisition_cash = zero_decimal;
    source_location = some t.donor_location;
    destination_location = some r.location;
    source_reference = none;
  }

  abbrev pub purchase_line : Request D → TransferTerms D → CandidateActionLine D
  purchase_line r t = record {
    line_id = "residual-purchase";
    kind = ActionKind.purchase;
    quantity = purchase_quantity r t;
    currency = r.economics.currency;
    unit_acquisition_cash = t.purchase_unit_cost;
    source_location = none;
    destination_location = some r.location;
    source_reference = none;
  }

  -- `actions`.
  unfoldable pub lines_of : Request D → TransferTerms D → List (CandidateActionLine D)
  lines_of r t =
      (if positive (finalized_transfer r t) then transfer_line r t ∷ [] else [])
      ++ (if positive (purchase_quantity r t) then purchase_line r t ∷ [] else [])

  abbrev pub kind_of : Bool → Bool → CandidateKind
  kind_of true true = CandidateKind.transfer_purchase
  kind_of true false = CandidateKind.transfer
  kind_of false _ = CandidateKind.purchase

  module _ (show : ℕ → String) where
    abbrev pub donor_constraint : Request D → TransferTerms D → ConstraintEvidence
    donor_constraint r t = record {
      constraint_id = "donor_availability";
      source = "donor_stock.available";
      value = some (format t.donor_available_quantity);
      scope = ConstraintScope.action;
      hard = true;
      satisfied = le (finalized_transfer r t) t.donor_available_quantity;
      binding =
          positive (finalized_transfer r t)
          && eq (finalized_transfer r t) t.donor_available_quantity;
      detail = none;
    }

    abbrev pub order_constraint : Request D → TransferTerms D → ConstraintEvidence
    order_constraint r t = record {
      constraint_id = "minimum_order_quantity";
      source = "vendor_economics.minimum_order_quantity";
      value = some (show t.minimum_order_quantity);
      scope = ConstraintScope.action;
      hard = true;
      satisfied =
          eq (purchase_quantity r t) zero_decimal
          || le (of_nat t.minimum_order_quantity) (purchase_quantity r t);
      binding = not (le (purchase_quantity r t) (rounded_residual r t));
      detail = none;
    }

    abbrev pub others : List ConstraintEvidence → List ConstraintEvidence
    others cs =
        filter
          (λ c.
            not (contains c.constraint_id ("donor_availability" ∷ "minimum_order_quantity" ∷ [])))
          cs

    -- The arguments of `reconcile_candidate`.
    unfoldable pub transfer_request : Request D → TransferTerms D → Request D
    transfer_request r t = record r {
      candidate_kind =
          kind_of (positive (finalized_transfer r t)) (positive (purchase_quantity r t));
      label = "Transfer first, purchase residual";
      is_no_change = false;
      actions = lines_of r t;
      constraints = others r.constraints ++ donor_constraint r t ∷ order_constraint r t ∷ [];
      infeasibility_reasons = [];
    }

    module _ (candidate_identifier : String → PolicyCandidate D → String)
        (strip : String → String) where
      -- The checks of the arguments, and of the lines as they are built.
      unfoldable pub transfer_acceptable : Request D → TransferTerms D → Bool
      transfer_acceptable r t =
          (ltb 0 t.minimum_order_quantity
            && le zero_decimal
                (smaller decimals t.requested_transfer_quantity t.donor_available_quantity))
          && (all (valid_action decimals) (lines_of r t) && not (is_nil (lines_of r t)))

      -- `build_transfer_purchase_candidate`, of the fields of `r` that it takes.
      unfoldable pub build_transfer_purchase_candidate :
          Request D → TransferTerms D → Option (PolicyCandidate D)
      build_transfer_purchase_candidate r t =
          if transfer_acceptable r t
          then reconcile_candidate decimals show candidate_identifier strip (transfer_request r t)
          else none
