-- ===== src/Tests/Candidates.antt =====
-- Candidates built from a request.
use aeronta_inventory.Base.{
  ◌≡◌, ◌⊎◌, refl, String, ◌<>◌, true, false, none, some, [], ◌∷◌, All, text_le,
}
use aeronta_inventory.Base.Sort.{sorted, place}
use aeronta_inventory.Base.Int.{ℤ, pos}
use aeronta_inventory.Candidate.{
  PolicyCandidate, CandidateKind, ActionKind, CandidateActionLine, LifecycleEconomics,
}
use aeronta_inventory.Candidate.Amounts.{smaller}
use aeronta_inventory.Candidate.Decimals.{Decimals}
use aeronta_inventory.Candidate.Planner.{valid_forecasts}
use aeronta_inventory.Candidate.Valid.{valid_action, valid_economics}
use aeronta_inventory.Candidate.Reconcile.{Request, sorted_actions}
use aeronta_inventory.Candidate.Builders.{
  identified, acceptable, reconcile_candidate, build_no_change_candidate,
}
use aeronta_inventory.Candidate.Builders.Kinds.{lines_fit}
use aeronta_inventory.Candidate.Builders.Returns.{IsRequest, reconcile_candidate-some}
use aeronta_inventory.Candidate.Builders.Baseline.{IsCaller, build_no_change_candidate-some}
use aeronta_inventory.Candidate.Transfers.{
  TransferTerms, positive, shortage_before, build_transfer_purchase_candidate,
}
use aeronta_inventory.Candidate.Transfers.Shortage.{IsTerms}
use aeronta_inventory.Candidate.Transfers.Covers.{build_transfer_purchase_candidate-covers}
use aeronta_inventory.Tests.Fixtures.{print}
use aeronta_inventory.Tests.Amounts.{whole}
use aeronta_inventory.Tests.Menus.{model, levels}

abbrev economics : LifecycleEconomics ℤ
economics = record {
  currency = "USD";
  inventory_unit_value = pos 100;
  annual_holding_rate = pos 1;
  ordering_cost_per_purchase = pos 7;
  shortage_cost_per_unit = pos 50;
  other_cost = pos 0;
  horizon_days = 365;
}

abbrev purchase : CandidateActionLine ℤ
purchase = record {
  line_id = "buy";
  kind = ActionKind.purchase;
  quantity = pos 4;
  currency = "USD";
  unit_acquisition_cash = pos 100;
  source_location = none;
  destination_location = some "LHR";
  source_reference = none;
}

-- One unit in stock and a demand of six.
abbrev request : Request ℤ
request = record {
  frontier_id = "f";
  tenant_id = "acme";
  pn = "wheel";
  location = "LHR";
  decision_key = "wheel@LHR";
  member_keys = "wheel@LHR" ∷ [];
  candidate_kind = CandidateKind.purchase;
  label = "Buy four";
  is_no_change = false;
  model_identity = model;
  current_levels = levels;
  target_levels = levels;
  actions = purchase ∷ [];
  available_before = pos 1;
  expected_receipts_before = pos 0;
  projected_demand = pos 6;
  economics = economics;
  expected_aog_risk = pos 0;
  confidence = pos 1;
  constraints = [];
  evidence =
      record { kind = "stock"; source = "bundle"; detail = "on hand"; reference_id = none } ∷ [];
  infeasibility_reasons = [];
}

-- A stand-in for the digest.
abbrev id_of : String → PolicyCandidate ℤ → String
id_of print c = print <> c.label

-- The texts of the request have no blanks at their ends.
abbrev trim : String → String
trim s = s

lines_valid : All (λ a. valid_action whole a ≡ true) (purchase ∷ [])
unfolding valid_action
lines_valid = (refl, tt)

economics_valid : valid_economics whole economics ≡ true
unfolding valid_economics
economics_valid = refl

forecasts_valid : valid_forecasts "wheel@LHR" (sorted text_le ("wheel@LHR" ∷ [])) model ≡ true
unfolding valid_forecasts sorted place
forecasts_valid = refl

request_accepted : acceptable whole print id_of trim request ≡ true
unfolding acceptable sorted_actions sorted place smaller
request_accepted = refl

request_kinds : lines_fit whole request ≡ true
request_kinds = refl

request-IsRequest : IsRequest whole print id_of trim request
request-IsRequest = record {
  lines = lines_valid;
  economics = economics_valid;
  accepted = request_accepted;
  own_key = refl;
  forecasts = forecasts_valid;
  some_evidence = refl;
  line_ids = refl;
  constraint_ids = refl;
  risk = refl;
  confidence = refl;
  names = record {
    tenant = (refl, refl);
    part = (refl, refl);
    place = (refl, refl);
    key = (refl, refl);
    members = ((refl, refl), tt);
    reasons = tt;
  };
  label = (refl, refl);
  kinds = request_kinds;
}

reconcile_candidate-some_example :
    reconcile_candidate whole print id_of trim request
    ≡ some (identified whole print id_of trim request)
reconcile_candidate-some_example =
    reconcile_candidate-some whole print id_of trim request request-IsRequest

request-IsCaller : IsCaller whole print id_of trim request
unfolding smaller
request-IsCaller = record {
  economics = economics_valid;
  position = refl;
  members = refl;
  own_key = refl;
  forecasts = forecasts_valid;
  some_evidence = refl;
  constraint_ids = refl;
  risk = refl;
  confidence = refl;
  names = record {
    tenant = (refl, refl);
    part = (refl, refl);
    place = (refl, refl);
    key = (refl, refl);
    members = ((refl, refl), tt);
    reasons = tt;
  };
  labels = ((refl, refl), ((refl, refl), tt));
}

build_no_change_candidate-some_example :
    (c : PolicyCandidate ℤ) × ((build_no_change_candidate whole print id_of trim request ≡ some c)
      × (((c.target_levels ≡ levels) × (c.action_quantity ≡ pos 0))
          × ((c.lifecycle_costs.acquisition_cash ≡ pos 0)
              × (c.outcome.ending_net_position
                  ≡ Decimals.sub whole (Decimals.add whole (pos 1) (pos 0)) (pos 6)))))
build_no_change_candidate-some_example =
    build_no_change_candidate-some whole print id_of trim request request-IsCaller

-- Two units from a donor, and at least four of the rest.
abbrev terms : TransferTerms ℤ
terms = record {
  requested_transfer_quantity = pos 2;
  donor_available_quantity = pos 3;
  donor_location = "CDG";
  minimum_order_quantity = 4;
  purchase_unit_cost = pos 100;
}

terms-IsTerms : IsTerms whole terms
terms-IsTerms = record { order = refl; requested = refl; donor = refl; cost = refl }

build_transfer_purchase_candidate-covers_example :
    ((positive whole (shortage_before whole request) ≡ true)
      × ((c : PolicyCandidate ℤ) × ((build_transfer_purchase_candidate whole print id_of trim
                request terms
              ≡ some c)
            × ((c.outcome.expected_shortage ≡ pos 0)
                × ((Decimals.le whole c.reconciliation.transfer_in_quantity (pos 3) ≡ true)
                    × ((c.reconciliation.purchase_quantity ≡ pos 0)
                        ⊎ (Decimals.le whole (pos 4) c.reconciliation.purchase_quantity
                            ≡ true)))))))
    ⊎ ((positive whole (shortage_before whole request) ≡ false)
        × (build_transfer_purchase_candidate whole print id_of trim request terms ≡ none))
build_transfer_purchase_candidate-covers_example =
    build_transfer_purchase_candidate-covers whole print id_of trim request terms request-IsCaller
      terms-IsTerms
