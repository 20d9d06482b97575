-- ===== src/Portfolio.antt =====
-- services/recommendation-engine/src/trax_io_reco/portfolio/optimizer.py, with the records of
-- contracts/planning.py: one candidate per key under a hard budget.
pub mod Solve
pub mod Budget
pub mod Selected
use aeronta_inventory.Base.{
  ℕ, String, Bool, true, false, not, ◌&&◌, ◌||◌, Option, none, some, List, [], ◌∷◌, ◌++◌, map,
  filter, all, any, count, length, sorted, text_le, nat_beq, ◌==◌, string_eq, nat_eq, if◌then◌else◌,
}
use aeronta_inventory.Base.Dict.{Dict, lookup}
use aeronta_inventory.Candidate.Decimals.{Decimals}
use aeronta_inventory.Candidate.Amounts.{larger, smaller, sum_from}
use aeronta_inventory.Candidate.{PolicyCandidate, CandidateFrontier, ConstraintEvidence}
use aeronta_inventory.Candidate.Valid.{fails}
use aeronta_inventory.Candidate.Planner.{unique, is_nil, same_texts}
use aeronta_inventory.Candidate.Reconcile.{distinct_texts}

pub record MandatoryFloor (D : Type 0) : Type 0 where
  pub floor_id : String
  pub source : String
  pub min_service_level : Option D
  pub max_expected_shortage : Option D
  pub max_aog_risk : Option D
  pub detail : Option String

pub record PortfolioKeyMenu (D : Type 0) : Type 0 where
  pub frontier : CandidateFrontier D
  pub criticality_tier : ℕ
  pub mandatory_floors : List (MandatoryFloor D)

pub record TenantObjectiveWeights (D : Type 0) : Type 0 where
  pub criticality_weights : Dict ℕ D
  pub shortage_reduction_weight : D
  pub aog_risk_reduction_weight : D
  pub holding_cost_penalty_weight : D
  pub ordering_cost_penalty_weight : D

-- The fields of a request that the choice depends on.
pub record PortfolioSolveRequest (D : Type 0) : Type 0 where
  pub tenant_id : String
  pub currency : String
  pub budget : D
  pub menus : List (PortfolioKeyMenu D)
  pub objective_weights : TenantObjectiveWeights D

pub record ObjectiveContribution (D : Type 0) : Type 0 where
  pub currency : String
  pub criticality_weight : D
  pub shortage_reduction : D
  pub aog_risk_reduction : D
  pub incremental_holding_cost : D
  pub incremental_ordering_cost : D
  pub shortage_value : D
  pub aog_value : D
  pub holding_penalty : D
  pub ordering_penalty : D
  pub total : D

pub record FloorState : Type 0 where
  pub floor_id : String
  pub source : String
  pub satisfied : Bool
  pub binding : Bool
  pub detail : Option String

pub record Variable (D : Type 0) : Type 0 where
  pub menu : PortfolioKeyMenu D
  pub candidate : PolicyCandidate D
  pub baseline : PolicyCandidate D
  pub objective : ObjectiveContribution D
  pub spend : D

-- What the loop over the menus fills.
pub record Gathered (D : Type 0) : Type 0 where
  pub variables : List (Variable D)
  pub infeasible_keys : List String
  pub infeasible_floors : List String
  pub minimum_budget : D

pub record PortfolioSelection (D : Type 0) : Type 0 where
  pub decision_key : String
  pub current_candidate_id : String
  pub selected_candidate_id : String
  pub selected_is_no_change : Bool
  pub acquisition_cash : D
  pub expected_shortage : D
  pub expected_service_level : D
  pub expected_aog_risk : D
  pub objective : ObjectiveContribution D
  pub floor_states : List FloorState

pub record PortfolioSummary (D : Type 0) : Type 0 where
  pub currency : String
  pub budget : D
  pub selected_acquisition_cash : D
  pub budget_slack : D
  pub selected_key_count : ℕ
  pub no_change_key_count : ℕ
  pub selected_objective : D
  pub expected_shortage : D
  pub average_service_level : D
  pub maximum_aog_risk : D

-- The status of a `PortfolioSolveResult`, with the fields that it carries.
pub data Outcome (D : Type 0) : Type 0 where
  completed : List (PortfolioSelection D) → PortfolioSummary D → Outcome D
  infeasible : D → D → List String → List String → Outcome D
  failed : Outcome D

-- What the searches by the solver end with.
pub data Incumbent (V : Type 0) : Type 0 where
  found : List V → Incumbent V
  none_exists : Incumbent V
  gave_up : Incumbent V

module _ (decimals : Decimals) where
  open decimals use {D, zero_decimal, le, eq, add, sub, mul, div, of_nat}

  abbrev C : Type 0
  C = PolicyCandidate D

  abbrev pub meets : (D → Bool) → Option D → Bool
  meets p none = true
  meets p (some bound) = p bound

  -- `MandatoryFloor.satisfied_by`.
  unfoldable pub satisfied_by : MandatoryFloor D → C → Bool
  satisfied_by floor c =
      meets (λ b. le b c.outcome.expected_service_level) floor.min_service_level
      && (meets (λ b. le c.outcome.expected_shortage b) floor.max_expected_shortage
          && meets (λ b. le c.outcome.expected_aog_risk b) floor.max_aog_risk)

  -- `_eligible`.
  unfoldable pub eligible : List (MandatoryFloor D) → C → Bool
  eligible floors c =
      c.feasible
      && (all (λ e. not e.hard || e.satisfied) c.constraints && all (λ f. satisfied_by f c) floors)

  -- `objective_contribution`, for the weight of the menu's tier.
  unfoldable pub contribution : PortfolioSolveRequest D → D → C → C → ObjectiveContribution D
  contribution r criticality baseline c =
      let w = r.objective_weights in
      let shortage = sub baseline.outcome.expected_shortage c.outcome.expected_shortage in
      let aog = sub baseline.outcome.expected_aog_risk c.outcome.expected_aog_risk in
      let holding = sub c.lifecycle_costs.holding_cost baseline.lifecycle_costs.holding_cost in
      let ordering = sub c.lifecycle_costs.ordering_cost baseline.lifecycle_costs.ordering_cost in
      let shortage_value = mul (mul criticality w.shortage_reduction_weight) shortage in
      let aog_value = mul (mul criticality w.aog_risk_reduction_weight) aog in
      let holding_penalty = mul w.holding_cost_penalty_weight holding in
      let ordering_penalty = mul w.ordering_cost_penalty_weight ordering in
      record {
        currency = r.currency;
        criticality_weight = criticality;
        shortage_reduction = shortage;
        aog_risk_reduction = aog;
        incremental_holding_cost = holding;
        incremental_ordering_cost = ordering;
        shortage_value = shortage_value;
        aog_value = aog_value;
        holding_penalty = holding_penalty;
        ordering_penalty = ordering_penalty;
        total = sub (sub (add shortage_value aog_value) holding_penalty) ordering_penalty;
      }

  abbrev pub is_bound : D → Option D → Bool
  is_bound value none = false
  is_bound value (some bound) = eq value bound

  -- `floor_states`.
  abbrev pub floor_state : C → MandatoryFloor D → FloorState
  floor_state c f = record {
    floor_id = f.floor_id;
    source = f.source;
    satisfied = satisfied_by f c;
    binding =
        is_bound c.outcome.expected_service_level f.min_service_level
        || (is_bound c.outcome.expected_shortage f.max_expected_shortage
            || is_bound c.outcome.expected_aog_risk f.max_aog_risk);
    detail = f.detail;
  }

  abbrev pub cash : C → D
  cash c = c.lifecycle_costs.acquisition_cash

  -- The first candidate that changes nothing; `none` stands for `StopIteration`.
  abbrev pub baseline_of : List C → Option C
  baseline_of [] = none
  baseline_of (c ∷ cs) = let rest = baseline_of cs in if c.is_no_change then some c else rest

  abbrev pub choices : PortfolioKeyMenu D → List C
  choices m = filter (eligible m.mandatory_floors) m.frontier.candidates

  -- `min(...)` over what follows a first candidate.
  abbrev pub least_from : D → List C → D
  least_from a [] = a
  least_from a (c ∷ cs) = least_from (smaller decimals a (cash c)) cs

  -- `infeasible_floors.update(...)`
  abbrev pub blocking : PortfolioKeyMenu D → List String
  blocking m = map MandatoryFloor.floor_id (
      filter (λ f. not (any (λ c. c.feasible && satisfied_by f c) m.frontier.candidates))
        m.mandatory_floors)

  abbrev pub id_le : C → C → Bool
  id_le a b = text_le a.candidate_id b.candidate_id

  abbrev pub variable : PortfolioSolveRequest D → PortfolioKeyMenu D → D → C → C → Variable D
  variable r m criticality baseline c = record {
    menu = m;
    candidate = c;
    baseline = baseline;
    objective = contribution r criticality baseline c;
    spend = cash c;
  }
