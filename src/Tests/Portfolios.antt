-- ===== src/Tests/Portfolios.antt =====
-- A portfolio of one key.
use aeronta_inventory.Base.{◌≡◌, ◌↔◌, refl, Bool, true, false, none, some, List, [], ◌∷◌, nat_eq}
use aeronta_inventory.Base.Sort.{sorted, place}
use aeronta_inventory.Base.Dict.{lookup}
use aeronta_inventory.Base.Int.{ℤ, pos}
use aeronta_inventory.Candidate.{CandidateFrontier}
use aeronta_inventory.Candidate.Amounts.{sum_from}
use aeronta_inventory.Candidate.Decimals.{Decimals}
use aeronta_inventory.Portfolio.{
  PortfolioKeyMenu, PortfolioSolveRequest, PortfolioSelection, Gathered, Outcome, Incumbent,
  Variable, satisfied_by, eligible, contribution,
}
use aeronta_inventory.Portfolio.Solve.{
  gather, nothing_yet, preflight, summary_of, valid_selections, finish, picked, conclude, solve,
}
use aeronta_inventory.Portfolio.Selected.{IsLawful, solve-IsLawful}
use aeronta_inventory.Portfolio.Budget.{Choice, cost_from, preflight-none_iff}
use aeronta_inventory.Tests.Amounts.{whole}
use aeronta_inventory.Tests.Menus.{unchanged, cheap}

abbrev frontier : CandidateFrontier ℤ
frontier = record {
  frontier_fingerprint = "f";
  output_digest = "o";
  planner_version = "candidate-planner-v1";
  tenant_id = "acme";
  decision_key = "wheel@LHR";
  member_keys = "wheel@LHR" ∷ [];
  currency = "USD";
  candidates = unchanged ∷ cheap ∷ [];
  total_options_considered = 3;
  dominated_options_removed = 1;
}

-- The floor asks for at most two missing units.
abbrev key_menu : PortfolioKeyMenu ℤ
key_menu = record {
  frontier = frontier;
  criticality_tier = 1;
  mandatory_floors =
      record {
        floor_id = "short";
        source = "tenant";
        min_service_level = none;
        max_expected_shortage = some (pos 2);
        max_aog_risk = none;
        detail = none;
      }
      ∷ [];
}

abbrev request : PortfolioSolveRequest ℤ
request = record {
  tenant_id = "acme";
  currency = "USD";
  budget = pos 12;
  menus = key_menu ∷ [];
  objective_weights = record {
    criticality_weights = (1, pos 5) ∷ [];
    shortage_reduction_weight = pos 1;
    aog_risk_reduction_weight = pos 1;
    holding_cost_penalty_weight = pos 1;
    ordering_cost_penalty_weight = pos 1;
  };
}

-- A solver that takes the first variable.
abbrev first_value : List (Variable ℤ) → List Bool
first_value [] = []
first_value (v ∷ vs) = true ∷ []

abbrev search : ℤ → List (Variable ℤ) → Incumbent Bool
search budget vs = Incumbent.found (first_value vs)

abbrev within : ℤ → List (Variable ℤ) → List Bool → Bool
within budget vs xs = true

abbrev chosen : Bool → Bool
chosen b = b

abbrev gathered : Gathered ℤ
gathered = record {
  variables =
      record {
        menu = key_menu;
        candidate = cheap;
        baseline = unchanged;
        objective = contribution whole request (pos 5) unchanged cheap;
        spend = pos 10;
      }
      ∷ [];
  infeasible_keys = [];
  infeasible_floors = [];
  minimum_budget = pos 10;
}

loop_ends : gather whole request (key_menu ∷ []) (nothing_yet whole) ≡ some gathered
unfolding gather nothing_yet eligible satisfied_by contribution sorted place lookup
loop_ends = refl

preflight-none_iff_example : (preflight whole (pos 12) gathered ≡ none) ↔ (
    (x : Choice whole (key_menu ∷ [])) × (Decimals.le whole
        (cost_from whole (pos 0) (key_menu ∷ []) x)
        (pos 12)
      ≡ true))
preflight-none_iff_example = preflight-none_iff whole request gathered loop_ends

abbrev picks : List (PortfolioSelection ℤ)
picks =
    record {
      decision_key = "wheel@LHR";
      current_candidate_id = "c-none";
      selected_candidate_id = "c-cheap";
      selected_is_no_change = false;
      acquisition_cash = pos 10;
      expected_shortage = pos 1;
      expected_service_level = pos 1;
      expected_aog_risk = pos 0;
      objective = contribution whole request (pos 5) unchanged cheap;
      floor_states =
          record {
            floor_id = "short";
            source = "tenant";
            satisfied = true;
            binding = false;
            detail = none;
          }
          ∷ [];
    }
    ∷ []

completes :
    solve whole search within chosen request
    ≡ some (Outcome.completed picks (summary_of whole request picks))
unfolding solve gather nothing_yet preflight conclude finish picked valid_selections summary_of
    eligible satisfied_by contribution sorted place lookup sum_from
completes = refl

solve-IsLawful_example : IsLawful whole request picks (summary_of whole request picks)
solve-IsLawful_example =
    solve-IsLawful whole request search within chosen picks (summary_of whole request picks)
      completes
