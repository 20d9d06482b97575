-- ===== src/Guardrail.antt =====
-- services/agent-spine/src/trax_io_spine/guardrail: hard.py, policy.py and enforce.py, which
-- decide whether a recommendation is written, queued, deferred or rejected.
pub mod Delta
pub mod Sign
pub mod Approval
use aeronta_inventory.Base.{
  ℕ, ◌-◌, ◌+◌, String, ◌<>◌, Bool, true, false, not, ◌||◌, ◌&&◌, Option, none, some, List, [], ◌∷◌,
  ◌++◌, ltb, leb, nat_beq, contains, string_eq, if◌then◌else◌,
}
use aeronta_inventory.Enums.{AutonomyTier, advisor, bounded, autonomous, aog_value}
use aeronta_inventory.Contracts.{Floats, Policy, CurrentPolicy, Recommendation}

pub data GuardrailStatus : Type 0 where
  approved_for_write queued_for_approval deferred_open_order : GuardrailStatus
  rejected_hard_guardrail : GuardrailStatus

pub record ApprovalTask (F : Type 0) : Type 0 where
  pub task_id : String
  pub tenant_id : String
  pub pn : String
  pub location : String
  pub tier : AutonomyTier
  pub priority_score : F
  pub reason : String

pub record GuardrailOutcome (F : Type 0) : Type 0 where
  pub recommendation_id : String
  pub status : GuardrailStatus
  pub tier : AutonomyTier
  pub delta_pct : F
  pub reasons : List String
  pub approval_task : Option (ApprovalTask F)

pub record AutonomyConfig (F : Type 0) : Type 0 where
  pub bounded_max_delta_pct : F
  pub autonomous_max_delta_pct : F
  pub min_autonomous_criticality_tier : ℕ

module _ (floats : Floats) where
  open floats use {F, zero_float, one, ratio, le, diff, add, sub, mul}

  -- `abs(new - old) / old`.
  abbrev pub relative_change : ℕ → ℕ → F
  relative_change old new = ratio ((new - old) + (old - new)) old

  -- The body of the loop of `compute_delta_pct`, for one field.
  unfoldable pub field_deltas : ℕ → ℕ → List F
  field_deltas old new =
      if nat_beq old 0
      then (if nat_beq new 0 then [] else one ∷ [])
      else relative_change old new ∷ []

  -- Python's `max` of a list that starts with `m`: the first of the largest values.
  unfoldable pub max_from : F → List F → F
  max_from m [] = m
  max_from m (d ∷ ds) = max_from (if le d m then m else d) ds

  unfoldable pub max_or_zero : List F → F
  max_or_zero [] = zero_float
  max_or_zero (d ∷ ds) = max_from d ds

  -- The list `deltas`, over `_FIELDS`.
  unfoldable pub deltas : Policy → CurrentPolicy → List F
  deltas p c =
      field_deltas c.rop p.rop
      ++ (field_deltas c.eoq p.eoq
          ++ (field_deltas c.safety_stock p.safety_stock ++ field_deltas c.max_stock p.max_stock))

  unfoldable pub compute_delta_pct : Policy → Option CurrentPolicy → F
  compute_delta_pct p none = zero_float
  compute_delta_pct p (some c) = max_or_zero (deltas p c)

  unfoldable pub hard_guardrail_violations : F → List String
  hard_guardrail_violations delta_pct =
      if not (le delta_pct one) then "delta_exceeds_100pct" ∷ [] else []

  unfoldable pub aog_forces_advisor : Recommendation F → Bool
  aog_forces_advisor rec = leb 3 (aog_value rec.aog_risk_level)

  abbrev pub ceiling : AutonomyConfig F → AutonomyTier → F
  ceiling cfg autonomous = cfg.autonomous_max_delta_pct
  ceiling cfg _ = cfg.bounded_max_delta_pct

  abbrev pub is_advisor : AutonomyTier → Bool
  is_advisor advisor = true
  is_advisor _ = false

  -- `BandAutonomyPolicy.authorize`.
  unfoldable pub authorize : AutonomyConfig F → AutonomyTier → F → ℕ → GuardrailStatus
  authorize cfg tier delta_pct criticality_tier =
      if is_advisor tier
      then queued_for_approval
      else if ltb criticality_tier cfg.min_autonomous_criticality_tier
      then queued_for_approval
      else if le delta_pct (ceiling cfg tier)
      then approved_for_write
      else queued_for_approval

  -- `_task`.
  unfoldable pub task : Recommendation F → AutonomyTier → String → ApprovalTask F
  task rec tier reason = record {
    task_id = rec.tenant_id <> (":" <> rec.recommendation_id);
    tenant_id = rec.tenant_id;
    pn = rec.part_number;
    location = rec.current_location;
    tier = tier;
    priority_score =
        add
          (add (mul (diff 6 rec.criticality_tier) (diff 10 0))
            (mul (diff (aog_value rec.aog_risk_level) 0) (diff 5 0)))
          (mul (sub one rec.confidence_score) (diff 2 0));
    reason = reason;
  }

  abbrev pub delta_or_zero : Recommendation F → F
  delta_or_zero rec = elim rec.policy [
    | none ↦ zero_float
    | some p ↦ compute_delta_pct p rec.current_policy
  ]

  -- `enforce`, the open-order deferral.
  unfoldable pub deferral : Recommendation F → GuardrailOutcome F
  deferral rec = record {
    recommendation_id = rec.recommendation_id;
    status = deferred_open_order;
    tier = advisor;
    delta_pct = delta_or_zero rec;
    reasons = rec.guardrail_flags;
    approval_task = none;
  }

  -- `enforce`, a recommendation with no policy.
  unfoldable pub non_policy : Recommendation F → GuardrailOutcome F
  non_policy rec = record {
    recommendation_id = rec.recommendation_id;
    status = queued_for_approval;
    tier = rec.suggested_autonomy_tier;
    delta_pct = zero_float;
    reasons = "non_policy_recommendation" ∷ rec.guardrail_flags;
    approval_task = some (task rec rec.suggested_autonomy_tier "non_policy");
  }

  -- `enforce`, a recommendation with hard-guardrail violations.
  unfoldable pub rejection : Recommendation F → F → List String → GuardrailOutcome F
  rejection rec delta_pct violations = record {
    recommendation_id = rec.recommendation_id;
    status = rejected_hard_guardrail;
    tier = advisor;
    delta_pct = delta_pct;
    reasons = violations ++ rec.guardrail_flags;
    approval_task = none;
  }

  abbrev pub effective_tier : Recommendation F → AutonomyTier
  effective_tier rec = if aog_forces_advisor rec then advisor else rec.suggested_autonomy_tier

  abbrev pub task_if_queued : GuardrailStatus → ApprovalTask F → Option (ApprovalTask F)
  task_if_queued queued_for_approval t = some t
  task_if_queued _ t = none

  -- The field constraints of `ApprovalTask` and `GuardrailOutcome`.
  unfoldable pub valid_task : Option (ApprovalTask F) → Bool
  valid_task none = true
  valid_task (some t) = le zero_float t.priority_score

  unfoldable pub valid_outcome : GuardrailOutcome F → Bool
  valid_outcome o = le zero_float o.delta_pct && valid_task o.approval_task

  module _ (authorize_by : AutonomyTier → F → ℕ → GuardrailStatus) where
    -- `enforce`, the decision of the autonomy policy.
    unfoldable pub band_decision : Recommendation F → F → GuardrailOutcome F
    band_decision rec delta_pct =
        let tier = effective_tier rec in
        let status = authorize_by tier delta_pct rec.criticality_tier in
        record {
          recommendation_id = rec.recommendation_id;
          status = status;
          tier = tier;
          delta_pct = delta_pct;
          reasons = rec.guardrail_flags;
          approval_task = task_if_queued status (task rec tier "band");
        }

    abbrev pub enforce_violations : Recommendation F → F → List String → GuardrailOutcome F
    enforce_violations rec delta_pct [] = band_decision rec delta_pct
    enforce_violations rec delta_pct (v ∷ vs) = rejection rec delta_pct (v ∷ vs)

    unfoldable pub enforce_policy : Recommendation F → Option Policy → GuardrailOutcome F
    enforce_policy rec none = non_policy rec
    enforce_policy rec (some p) =
        let delta_pct = compute_delta_pct p rec.current_policy in
        enforce_violations rec delta_pct (hard_guardrail_violations delta_pct)

    -- What `GuardrailEnforcer.enforce` builds, before the models check their fields.
    unfoldable pub decide : Recommendation F → GuardrailOutcome F
    decide rec =
        if contains "open_order_deferral" rec.guardrail_flags
        then deferral rec
        else enforce_policy rec rec.policy

    -- `GuardrailEnforcer.enforce`; `none` stands for the ValidationError of the task or the outcome.
    unfoldable pub enforce : Recommendation F → Option (GuardrailOutcome F)
    enforce rec = let o = decide rec in if valid_outcome o then some o else none
