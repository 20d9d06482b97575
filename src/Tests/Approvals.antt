-- ===== src/Tests/Approvals.antt =====
-- Decisions of the guardrails.
use aeronta_inventory.Base.{◌≡◌, refl, ◌↔◌, string_eq}
use aeronta_inventory.Enums.{bounded, aog_value}
use aeronta_inventory.Contracts.{Policy}
use aeronta_inventory.Guardrail.{
  queued_for_approval, authorize, ceiling, field_deltas, max_from, max_or_zero, deltas,
  compute_delta_pct, hard_guardrail_violations, aog_forces_advisor, non_policy, band_decision,
  enforce_policy, decide, enforce, valid_outcome, valid_task,
}
use aeronta_inventory.Guardrail.Delta.{IsNear}
use aeronta_inventory.Guardrail.Approval.{
  IsApprovable, Approves, enforce-approved_iff, approved-IsNear,
}
use aeronta_inventory.Tests.Fixtures.{bps, default_config, policy, current, wheel, brake}

wheel_approved : Approves bps default_config wheel
unfolding enforce decide valid_outcome valid_task enforce_policy band_decision authorize
    compute_delta_pct deltas max_or_zero max_from field_deltas hard_guardrail_violations
    aog_forces_advisor aog_value
wheel_approved = (decide bps (authorize bps default_config) wheel, refl, refl)

brake_queued : (decide bps (authorize bps default_config) brake).status ≡ queued_for_approval
unfolding decide enforce_policy non_policy
brake_queued = refl

enforce-approved_iff_example :
    Approves bps default_config wheel ↔ ((p : Policy) × IsApprovable bps default_config wheel p)
enforce-approved_iff_example = enforce-approved_iff bps default_config wheel

approved-IsNear_example : IsNear bps (ceiling bps default_config bounded) policy current
approved-IsNear_example =
    approved-IsNear bps default_config wheel policy current refl refl wheel_approved
