-- ===== src/Candidate/Types.antt =====
-- services/recommendation-engine/src/trax_io_reco/contracts/candidate.py: the records of the candidate
-- layer; `D` stands for `Decimal`. A `contract_version` is a constant, and left out.
use aeronta_inventory.Base.{ℕ, String, Bool, Option, List}

-- `CANDIDATE_PLANNER_VERSION`.
abbrev pub planner_version : String
planner_version = "candidate-planner-v1"

pub data ActionKind : Type 0 where
  no_change purchase transfer_in transfer_out adjust_policy reduce_stock sell : ActionKind

pub data CandidateKind : Type 0 where
  no_change purchase transfer transfer_purchase adjust_policy reduce_stock sell : CandidateKind

pub record FingerprintComponent : Type 0 where
  pub name : String
  pub value : String

pub record ServedForecastIdentity : Type 0 where
  pub decision_key : String
  pub forecast_model : String
  pub forecast_version : String

pub record ModelIdentity : Type 0 where
  pub forecast_model : String
  pub forecast_version : String
  pub policy_model : String
  pub policy_version : String
  pub repair_model : Option String
  pub repair_version : Option String
  pub member_forecasts : List ServedForecastIdentity

-- A date is its ordinal.
pub record CandidateFingerprintInputs : Type 0 where
  pub tenant_id : String
  pub decision_key : String
  pub member_keys : List String
  pub source_snapshot_hash : String
  pub context_digest : String
  pub tenant_policy_version : String
  pub observation_start : Option ℕ
  pub observation_end : Option ℕ
  pub as_of : ℕ
  pub horizon_days : ℕ
  pub currency : String
  pub model_identity : ModelIdentity
  pub constraint_set_version : String
  pub arbitration_version : String
  pub economics_version : String
  pub objective_definition_version : String
  pub objective_inputs : List FingerprintComponent
  pub additional_result_inputs : List FingerprintComponent
  pub candidate_planner_version : String

pub record CandidateTargetLevels : Type 0 where
  pub rop : ℕ
  pub eoq : ℕ
  pub safety_stock : ℕ
  pub max_stock : ℕ

pub record CandidateActionLine (D : Type 0) : Type 0 where
  pub line_id : String
  pub kind : ActionKind
  pub quantity : D
  pub currency : String
  pub unit_acquisition_cash : D
  pub source_location : Option String
  pub destination_location : Option String
  pub source_reference : Option String

pub record LifecycleEconomics (D : Type 0) : Type 0 where
  pub currency : String
  pub inventory_unit_value : D
  pub annual_holding_rate : D
  pub ordering_cost_per_purchase : D
  pub shortage_cost_per_unit : D
  pub other_cost : D
  pub horizon_days : ℕ

pub record LifecycleCostComponents (D : Type 0) : Type 0 where
  pub currency : String
  pub acquisition_cash : D
  pub holding_cost : D
  pub ordering_cost : D
  pub shortage_cost : D
  pub other_cost : D
  pub total_lifecycle_cost : D

pub record CandidateOutcome (D : Type 0) : Type 0 where
  pub projected_demand : D
  pub available_before : D
  pub expected_receipts_before : D
  pub inbound_quantity : D
  pub outbound_quantity : D
  pub ending_net_position : D
  pub expected_shortage : D
  pub expected_excess : D
  pub expected_service_level : D
  pub expected_aog_risk : D

pub data ConstraintScope : Type 0 where
  policy action : ConstraintScope

pub record ConstraintEvidence : Type 0 where
  pub constraint_id : String
  pub source : String
  pub value : Option String
  pub scope : ConstraintScope
  pub hard : Bool
  pub satisfied : Bool
  pub binding : Bool
  pub detail : Option String

pub record CandidateEvidence : Type 0 where
  pub kind : String
  pub source : String
  pub detail : String
  pub reference_id : Option String

pub record CandidateReconciliation (D : Type 0) : Type 0 where
  pub currency : String
  pub available_before : D
  pub expected_receipts_before : D
  pub projected_demand : D
  pub transfer_in_quantity : D
  pub purchase_quantity : D
  pub outbound_quantity : D
  pub total_inbound_quantity : D
  pub action_quantity : D
  pub ending_net_position : D
  pub expected_shortage : D
  pub acquisition_cash : D

pub record PolicyCandidate (D : Type 0) : Type 0 where
  pub candidate_id : String
  pub tenant_id : String
  pub pn : String
  pub location : String
  pub decision_key : String
  pub member_keys : List String
  pub candidate_kind : CandidateKind
  pub label : String
  pub is_no_change : Bool
  pub feasible : Bool
  pub infeasibility_reasons : List String
  pub model_identity : ModelIdentity
  pub current_levels : CandidateTargetLevels
  pub target_levels : CandidateTargetLevels
  pub actions : List (CandidateActionLine D)
  pub action_quantity : D
  pub lifecycle_costs : LifecycleCostComponents D
  pub outcome : CandidateOutcome D
  pub confidence : D
  pub constraints : List ConstraintEvidence
  pub evidence : List CandidateEvidence
  pub reconciliation : CandidateReconciliation D

pub record CandidateFrontier (D : Type 0) : Type 0 where
  pub frontier_fingerprint : String
  pub output_digest : String
  pub planner_version : String
  pub tenant_id : String
  pub decision_key : String
  pub member_keys : List String
  pub currency : String
  pub candidates : List (PolicyCandidate D)
  pub total_options_considered : ℕ
  pub dominated_options_removed : ℕ
