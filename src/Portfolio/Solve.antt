-- ===== src/Portfolio/Solve.antt =====
-- `PortfolioOptimizer.solve`: the loop over the menus, the checks before the solver, and what is made of
-- its incumbent.
use aeronta_inventory.Base.{
  Bool, true, not, ◌&&◌, Option, none, some, List, [], ◌∷◌, ◌++◌, map, all, count, length, sorted,
  text_le, nat_beq, string_eq, nat_eq, if◌then◌else◌,
}
use aeronta_inventory.Base.Dict.{lookup}
use aeronta_inventory.Candidate.Decimals.{Decimals}
use aeronta_inventory.Candidate.Amounts.{larger, sum_from}
use aeronta_inventory.Candidate.{PolicyCandidate}
use aeronta_inventory.Candidate.Planner.{unique, is_nil}
use aeronta_inventory.Candidate.Reconcile.{distinct_texts}
use aeronta_inventory.Portfolio.{
  PortfolioKeyMenu, PortfolioSolveRequest, Variable, Gathered, PortfolioSelection, PortfolioSummary,
  Outcome, Incumbent, FloorState, floor_state, cash, baseline_of, choices, least_from, blocking,
  id_le, variable,
}

module _ (decimals : Decimals) where
  open decimals use {D, zero_decimal, le, add, sub, div, of_nat}

  abbrev C : Type 0
  C = PolicyCandidate D

  -- A menu without an eligible candidate.
  abbrev pub note : PortfolioKeyMenu D → Gathered D → Gathered D
  note m g = record g {
    infeasible_keys = g.infeasible_keys ++ m.frontier.decision_key ∷ [];
    infeasible_floors = g.infeasible_floors ++ blocking decimals m;
  }

  -- A menu with eligible candidates, and the weight of its tier.
  abbrev pub extend :
      PortfolioSolveRequest D → PortfolioKeyMenu D → C → C → List C → D → Gathered D → Gathered D
  extend r m baseline c cs criticality g = record g {
    variables =
        g.variables
        ++ map (variable decimals r m criticality baseline) (sorted (id_le decimals) (c ∷ cs));
    minimum_budget = add g.minimum_budget (least_from decimals (cash decimals c) cs);
  }

  abbrev pub add_choices :
      PortfolioSolveRequest D → PortfolioKeyMenu D → C → List C → Gathered D → Option (Gathered D)
  add_choices r m baseline [] g = some (note m g)
  add_choices r m baseline (c ∷ cs) g =
      elim (lookup m.criticality_tier r.objective_weights.criticality_weights) [
        | none ↦ none
        | some w ↦ some (extend r m baseline c cs w g)
      ]

  abbrev pub add_menu :
      PortfolioSolveRequest D → PortfolioKeyMenu D → Gathered D → Option C → Option (Gathered D)
  add_menu r m g none = none
  add_menu r m g (some baseline) = add_choices r m baseline (choices decimals m) g

  abbrev pub after : Option (Gathered D) → (Gathered D → Option (Gathered D)) → Option (Gathered D)
  after none f = none
  after (some g) f = f g

  -- The loop over the menus; `none` stands for an exception.
  unfoldable pub gather :
      PortfolioSolveRequest D → List (PortfolioKeyMenu D) → Gathered D → Option (Gathered D)
  gather r [] g = some g
  gather r (m ∷ ms) g =
      after (add_menu r m g (baseline_of decimals m.frontier.candidates)) (gather r ms)

  unfoldable pub nothing_yet : Gathered D
  nothing_yet = record {
    variables = [];
    infeasible_keys = [];
    infeasible_floors = [];
    minimum_budget = zero_decimal;
  }

  -- The two checks before the solver.
  unfoldable pub preflight : D → Gathered D → Option (Outcome D)
  preflight budget g =
      if not (is_nil g.infeasible_keys)
      then some (
          Outcome.infeasible g.minimum_budget
            (larger decimals zero_decimal (sub g.minimum_budget budget))
            (sorted text_le g.infeasible_keys)
            (sorted text_le (distinct_texts g.infeasible_floors)))
      else if not (le g.minimum_budget budget)
      then some (Outcome.infeasible g.minimum_budget (sub g.minimum_budget budget) [] [])
      else none

  abbrev pub selection : Variable D → PortfolioSelection D
  selection v = record {
    decision_key = v.menu.frontier.decision_key;
    current_candidate_id = v.baseline.candidate_id;
    selected_candidate_id = v.candidate.candidate_id;
    selected_is_no_change = v.candidate.is_no_change;
    acquisition_cash = v.spend;
    expected_shortage = v.candidate.outcome.expected_shortage;
    expected_service_level = v.candidate.outcome.expected_service_level;
    expected_aog_risk = v.candidate.outcome.expected_aog_risk;
    objective = v.objective;
    floor_states = map (floor_state decimals v.candidate) v.menu.mandatory_floors;
  }

  abbrev pub key_le : Variable D → Variable D → Bool
  key_le a b = text_le a.menu.frontier.decision_key b.menu.frontier.decision_key

  abbrev pub total_of : (PortfolioSelection D → D) → List (PortfolioSelection D) → D
  total_of f = sum_from decimals zero_decimal (λ s. true) f

  -- `max(..., default=0)`
  abbrev pub greatest_from : D → List (PortfolioSelection D) → D
  greatest_from a [] = a
  greatest_from a (s ∷ ss) = greatest_from (larger decimals a s.expected_aog_risk) ss

  abbrev pub greatest : List (PortfolioSelection D) → D
  greatest [] = zero_decimal
  greatest (s ∷ ss) = greatest_from s.expected_aog_risk ss

  unfoldable pub summary_of :
      PortfolioSolveRequest D → List (PortfolioSelection D) → PortfolioSummary D
  summary_of r ss =
      let spend = total_of PortfolioSelection.acquisition_cash ss in
      record {
        currency = r.currency;
        budget = r.budget;
        selected_acquisition_cash = spend;
        budget_slack = sub r.budget spend;
        selected_key_count = length ss;
        no_change_key_count = count PortfolioSelection.selected_is_no_change ss;
        selected_objective = total_of (λ s. s.objective.total) ss;
        expected_shortage = total_of PortfolioSelection.expected_shortage ss;
        average_service_level =
            div (total_of PortfolioSelection.expected_service_level ss) (of_nat (length ss));
        maximum_aog_risk = greatest ss;
      }

  -- The validators of the selections and of the completed result that the code does not meet by itself.
  unfoldable pub valid_selections : List (PortfolioSelection D) → Bool
  valid_selections ss =
      not (is_nil ss)
      && (unique (map PortfolioSelection.decision_key ss)
          && all
              (λ s.
                unique (map FloorState.floor_id s.floor_states)
                && all FloorState.satisfied s.floor_states)
              ss)

  unfoldable pub finish : PortfolioSolveRequest D → List (PortfolioSelection D) → Option (Outcome D)
  finish r ss =
      if not (le (total_of PortfolioSelection.acquisition_cash ss) r.budget)
      then some Outcome.failed
      else if valid_selections ss
      then some (Outcome.completed ss (summary_of r ss))
      else none

  -- scipy's searches and the float tests on their incumbent are parameters.
  module _ {V : Type 0} (search : D → List (Variable D) → Incumbent V)
      (within : D → List (Variable D) → List V → Bool) (chosen : V → Bool) where
    -- `zip(variables, incumbent_vector)`, where a value is chosen.
    unfoldable pub picked : List (Variable D) → List V → List (Variable D)
    picked [] xs = []
    picked (v ∷ vs) [] = []
    picked (v ∷ vs) (x ∷ xs) = let rest = picked vs xs in if chosen x then v ∷ rest else rest

    unfoldable pub conclude :
        PortfolioSolveRequest D → Gathered D → Incumbent V → Option (Outcome D)
    conclude r g Incumbent.none_exists = some (
        Outcome.infeasible g.minimum_budget
          (larger decimals zero_decimal (sub g.minimum_budget r.budget)) [] [])
    conclude r g Incumbent.gave_up = some Outcome.failed
    conclude r g (Incumbent.found xs) =
        let vs = picked g.variables xs in
        if not (within r.budget g.variables xs)
        then some Outcome.failed
        else if not (nat_beq (length vs) (length r.menus))
        then some Outcome.failed
        else finish r (map selection (sorted key_le vs))

    abbrev pub run : PortfolioSolveRequest D → Gathered D → Option (Outcome D) → Option (Outcome D)
    run r g (some result) = some result
    run r g none = conclude r g (search r.budget g.variables)

    abbrev pub solve_gathered : PortfolioSolveRequest D → Option (Gathered D) → Option (Outcome D)
    solve_gathered r none = none
    solve_gathered r (some g) = run r g (preflight r.budget g)

    -- `solve`.
    unfoldable pub solve : PortfolioSolveRequest D → Option (Outcome D)
    solve r = solve_gathered r (gather r r.menus nothing_yet)
