-- ===== src/Guardrail/Approval.antt =====
-- Which recommendations `enforce` approves for an automatic write, under the band policy.
use aeronta_inventory.Base.{
  ℕ, ◌≡◌, ◌≢◌, refl, ◌↔◌, ◌≤◌, ◌<◌, true, false, Option, none, some, arith, inl, inr, contains,
  string_eq, Option-cases, Bool-cases, ap, ◌∙◌,
}
use aeronta_inventory.Enums.{AutonomyTier, advisor, aog_value}
use aeronta_inventory.Contracts.{Floats, Policy, CurrentPolicy, Recommendation}
use aeronta_inventory.Guardrail.{
  GuardrailStatus, approved_for_write, queued_for_approval, ApprovalTask, AutonomyConfig,
  GuardrailOutcome, ceiling, authorize, deferral, non_policy, rejection, band_decision,
  enforce_policy, decide, enforce, valid_task, valid_outcome, compute_delta_pct,
  hard_guardrail_violations, aog_forces_advisor,
}
use aeronta_inventory.Guardrail.Sign.{decide-nonneg}
use aeronta_inventory.Guardrail.Delta.{IsNear, compute_delta_pct-IsNear}

module _ (floats : Floats) where
  open floats use {F, one, le}

  abbrev band : AutonomyConfig F → Recommendation F → GuardrailOutcome F
  band cfg rec = decide floats (authorize floats cfg) rec

  -- `enforce` returns an outcome that approves the recommendation.
  abbrev pub Approves : AutonomyConfig F → Recommendation F → Type 0
  Approves cfg rec =
      (o : GuardrailOutcome F) × (enforce floats (authorize floats cfg) rec ≡ some o)
      × (o.status ≡ approved_for_write)

  -- The conditions under which `rec` may be written without a planner.
  pub record IsApprovable (cfg : AutonomyConfig F) (rec : Recommendation F) (p : Policy)
      : Type 0 where
    pub not_deferred : contains "open_order_deferral" rec.guardrail_flags ≡ false
    pub has_policy : rec.policy ≡ some p
    pub under_hard_cap : le (compute_delta_pct floats p rec.current_policy) one ≡ true
    pub calm : aog_value rec.aog_risk_level < 3
    pub automatic : rec.suggested_autonomy_tier ≢ advisor
    pub uncritical : cfg.min_autonomous_criticality_tier ≤ rec.criticality_tier
    pub in_band :
        le
          (compute_delta_pct floats p rec.current_policy)
          (ceiling floats cfg rec.suggested_autonomy_tier)
        ≡ true

  IsApprovable-of_status :
      (cfg : AutonomyConfig F) (rec : Recommendation F) (o : Option Policy)
      → rec.policy ≡ o
      → (band cfg rec).status ≡ approved_for_write
      → (p : Policy) × IsApprovable cfg rec p
  unfolding decide deferral non_policy enforce_policy rejection band_decision
      hard_guardrail_violations aog_forces_advisor authorize
  IsApprovable-of_status cfg rec none e h = absurd (ground arith)
  IsApprovable-of_status cfg rec (some p) e h = (p, ground arith)

  status-of-IsApprovable :
      (cfg : AutonomyConfig F) (rec : Recommendation F) (p : Policy)
      → IsApprovable cfg rec p
      → (band cfg rec).status ≡ approved_for_write
  unfolding decide deferral non_policy enforce_policy rejection band_decision
      hard_guardrail_violations aog_forces_advisor authorize
  status-of-IsApprovable cfg rec p a = ground arith

  enforce-decide :
      (authorize_by : AutonomyTier → F → ℕ → GuardrailStatus) (rec : Recommendation F)
      (o : GuardrailOutcome F)
      → enforce floats authorize_by rec ≡ some o
      → decide floats authorize_by rec ≡ o
  unfolding enforce
  enforce-decide authorize_by rec o h =
      elim (Bool-cases (valid_outcome floats (decide floats authorize_by rec))) [
        | inl valid ↦ ground (arith, valid, h)
        | inr invalid ↦ absurd (ground (arith, invalid, h))
      ]

  pub enforce-some :
      (authorize_by : AutonomyTier → F → ℕ → GuardrailStatus) (rec : Recommendation F)
      → valid_outcome floats (decide floats authorize_by rec) ≡ true
      → enforce floats authorize_by rec ≡ some (decide floats authorize_by rec)
  unfolding enforce
  enforce-some authorize_by rec valid = rw valid refl

  -- An outcome that approves has no task to check.
  approved-no_task :
      (authorize_by : AutonomyTier → F → ℕ → GuardrailStatus) (rec : Recommendation F)
      → (decide floats authorize_by rec).status ≡ approved_for_write
      → (decide floats authorize_by rec).approval_task ≡ none
  unfolding decide deferral non_policy enforce_policy rejection band_decision
      hard_guardrail_violations
  approved-no_task authorize_by rec h = elim (Option-cases rec.policy) [
    | inl missing ↦ absurd (ground arith)
    | inr (p, policy) ↦ ground arith
  ]

  Approves-of_status :
      (cfg : AutonomyConfig F) (rec : Recommendation F)
      → (band cfg rec).status ≡ approved_for_write
      → Approves cfg rec
  unfolding valid_outcome valid_task
  Approves-of_status cfg rec h =
      let d = decide-nonneg floats (authorize floats cfg) rec in
      let t = approved-no_task (authorize floats cfg) rec h in
      (band cfg rec, enforce-some (authorize floats cfg) rec (ground (arith, d, t)), h)

  status-of-Approves :
      (cfg : AutonomyConfig F) (rec : Recommendation F)
      → Approves cfg rec
      → (band cfg rec).status ≡ approved_for_write
  status-of-Approves cfg rec (o, e, h) =
      ap (λ (x : GuardrailOutcome F). x.status) (enforce-decide (authorize floats cfg) rec o e) ∙ h

  -- `enforce` returns an outcome that approves a recommendation exactly if the recommendation has no
  -- open-order flag, has a policy, is at no high AOG risk and not suggested for the advisor tier,
  -- reaches the least criticality, and its delta is at most 1 and at most the ceiling of its tier.
  pub enforce-approved_iff :
      (cfg : AutonomyConfig F) (rec : Recommendation F)
      → Approves cfg rec ↔ ((p : Policy) × IsApprovable cfg rec p)
  enforce-approved_iff cfg rec = (
    λ h. IsApprovable-of_status cfg rec rec.policy refl (status-of-Approves cfg rec h),
    λ (p, a). Approves-of_status cfg rec (status-of-IsApprovable cfg rec p a),
  )

  -- A recommendation with a current policy that `enforce` approves moves each of the four values by at
  -- most the ceiling of its suggested tier, relative to the current value; where the current value is
  -- 0 and the new one is not, that ceiling is at least 1.
  pub approved-IsNear :
      (cfg : AutonomyConfig F) (rec : Recommendation F) (p : Policy) (c : CurrentPolicy)
      → rec.policy ≡ some p
      → rec.current_policy ≡ some c
      → Approves cfg rec
      → IsNear floats (ceiling floats cfg rec.suggested_autonomy_tier) p c
  approved-IsNear cfg rec p c has_policy has_current h =
      let (q, a) = IsApprovable-of_status cfg rec rec.policy refl (status-of-Approves cfg rec h) in
      let same : q ≡ p = cc (a.has_policy, has_policy) in
      compute_delta_pct-IsNear floats (ceiling floats cfg rec.suggested_autonomy_tier) p c
        (rw has_current at (rw same at a.in_band))

  -- A queued outcome carries a task for a planner, whatever the autonomy policy.
  pub task-of_queued :
      (authorize_by : AutonomyTier → F → ℕ → GuardrailStatus) (rec : Recommendation F)
      → (decide floats authorize_by rec).status ≡ queued_for_approval
      → (t : ApprovalTask F) × ((decide floats authorize_by rec).approval_task ≡ some t)
  unfolding decide deferral non_policy enforce_policy rejection band_decision
      hard_guardrail_violations
  task-of_queued authorize_by rec h =
      elim (Option-cases (decide floats authorize_by rec).approval_task) [
        | inl missing ↦ absurd (ground arith)
        | inr task ↦ task
      ]

  -- An outcome is approved only of a recommendation with a policy, whatever the autonomy policy.
  pub policy-of_approved :
      (authorize_by : AutonomyTier → F → ℕ → GuardrailStatus) (rec : Recommendation F)
      → (decide floats authorize_by rec).status ≡ approved_for_write
      → (p : Policy) × (rec.policy ≡ some p)
  unfolding decide deferral non_policy enforce_policy
  policy-of_approved authorize_by rec h = elim (Option-cases rec.policy) [
    | inl missing ↦ absurd (ground arith)
    | inr policy ↦ policy
  ]
