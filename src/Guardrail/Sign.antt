-- ===== src/Guardrail/Sign.antt =====
-- The numbers of an outcome are not negative, so that its fields pass their validation.
use aeronta_inventory.Base.{
  ℕ, ◌+◌, ◌-◌, ◌≤◌, ◌≡◌, refl, String, true, if◌then◌else◌, Option, none, some, List, [], ◌∷◌,
  arith, All, if_elim, inl, inr, Bool-cases, nat_beq, contains, string_eq,
}
use aeronta_inventory.Base.Sort.{All-append}
use aeronta_inventory.Enums.{AutonomyTier, aog_value}
use aeronta_inventory.Contracts.{Floats, Policy, CurrentPolicy, Recommendation}
use aeronta_inventory.Guardrail.{
  GuardrailStatus, task_if_queued, relative_change, field_deltas, max_from, max_or_zero, deltas,
  compute_delta_pct, task, valid_task, valid_outcome, deferral, non_policy, rejection,
  band_decision, enforce_policy, hard_guardrail_violations, decide,
}

module _ (floats : Floats) where
  open floats use {
    F, zero_float, one, le, diff, add, sub, mul, le_refl, zero_le_one, ratio_nonneg, diff_nonneg,
    add_nonneg, sub_nonneg, mul_nonneg,
  }

  abbrev IsSigned : F → Type 0
  IsSigned a = le zero_float a ≡ true

  field_deltas-IsSigned : (old new : ℕ) → All IsSigned (field_deltas floats old new)
  unfolding field_deltas
  field_deltas-IsSigned old new =
      if_elim (All IsSigned) (nat_beq old 0) (if nat_beq new 0 then [] else one ∷ [])
        (relative_change floats old new ∷ [])
        (λ e.
          if_elim (All IsSigned) (nat_beq new 0) [] (one ∷ []) (λ z. tt) (λ z. (zero_le_one, tt)))
        (λ e. (ratio_nonneg ((new - old) + (old - new)) old, tt))

  max_from-IsSigned :
      (m : F) (ds : List F) → IsSigned m → All IsSigned ds → IsSigned (max_from floats m ds)
  unfolding max_from
  max_from-IsSigned m [] h a = h
  max_from-IsSigned m (d ∷ ds) h (k, a) =
      max_from-IsSigned (if le d m then m else d) ds
        (if_elim IsSigned (le d m) m d (λ e. h) (λ e. k)) a

  max_or_zero-IsSigned : (ds : List F) → All IsSigned ds → IsSigned (max_or_zero floats ds)
  unfolding max_or_zero
  max_or_zero-IsSigned [] a = le_refl zero_float
  max_or_zero-IsSigned (d ∷ ds) (h, a) = max_from-IsSigned d ds h a

  deltas-IsSigned : (p : Policy) (c : CurrentPolicy) → All IsSigned (deltas floats p c)
  unfolding deltas
  deltas-IsSigned p c =
      All-append IsSigned (field_deltas floats c.rop p.rop) _ (field_deltas-IsSigned c.rop p.rop) (
        All-append IsSigned (field_deltas floats c.eoq p.eoq) _ (field_deltas-IsSigned c.eoq p.eoq)
          (All-append IsSigned (field_deltas floats c.safety_stock p.safety_stock) _
            (field_deltas-IsSigned c.safety_stock p.safety_stock)
            (field_deltas-IsSigned c.max_stock p.max_stock)))

  compute_delta_pct-IsSigned :
      (p : Policy) (c : Option CurrentPolicy) → IsSigned (compute_delta_pct floats p c)
  unfolding compute_delta_pct
  compute_delta_pct-IsSigned p none = le_refl zero_float
  compute_delta_pct-IsSigned p (some c) =
      max_or_zero-IsSigned (deltas floats p c) (deltas-IsSigned p c)

  -- The urgency of a part of a known criticality tier.
  task-IsSigned :
      (rec : Recommendation F) (tier : AutonomyTier) (reason : String)
      → rec.criticality_tier ≤ 6
      → le rec.confidence_score one ≡ true
      → IsSigned (task floats rec tier reason).priority_score
  unfolding task
  task-IsSigned rec tier reason low sure =
      add_nonneg _ _
        (add_nonneg _ _
          (mul_nonneg _ _ (diff_nonneg 6 rec.criticality_tier low) (diff_nonneg 10 0 (omega arith)))
          (mul_nonneg _ _ (diff_nonneg (aog_value rec.aog_risk_level) 0 (omega arith))
            (diff_nonneg 5 0 (omega arith))))
        (mul_nonneg _ _ (sub_nonneg one rec.confidence_score sure) (diff_nonneg 2 0 (omega arith)))

  module _ (authorize_by : AutonomyTier → F → ℕ → GuardrailStatus) (rec : Recommendation F) where
    policy-nonneg :
        (o : Option Policy) → IsSigned (enforce_policy floats authorize_by rec o).delta_pct
    unfolding enforce_policy non_policy rejection band_decision hard_guardrail_violations
    policy-nonneg none = le_refl zero_float
    policy-nonneg (some p) = ground (arith, compute_delta_pct-IsSigned p rec.current_policy)

    deferral-nonneg :
        (o : Option Policy) → rec.policy ≡ o → IsSigned (deferral floats rec).delta_pct
    unfolding deferral
    deferral-nonneg none e = rw e (le_refl zero_float)
    deferral-nonneg (some p) e = rw e (compute_delta_pct-IsSigned p rec.current_policy)

    pub decide-nonneg : IsSigned (decide floats authorize_by rec).delta_pct
    unfolding decide
    decide-nonneg =
        let d = deferral-nonneg rec.policy refl in
        let p = policy-nonneg rec.policy in ground (arith, d, p)

    if_queued-valid :
        (status : GuardrailStatus) (tier : AutonomyTier) (reason : String)
        → rec.criticality_tier ≤ 6
        → le rec.confidence_score one ≡ true
        → valid_task floats (task_if_queued floats status (task floats rec tier reason)) ≡ true
    unfolding valid_task
    if_queued-valid GuardrailStatus.queued_for_approval tier reason low sure =
        task-IsSigned rec tier reason low sure
    if_queued-valid GuardrailStatus.approved_for_write tier reason low sure = refl
    if_queued-valid GuardrailStatus.deferred_open_order tier reason low sure = refl
    if_queued-valid GuardrailStatus.rejected_hard_guardrail tier reason low sure = refl

    policy-valid :
        (o : Option Policy)
        → rec.criticality_tier ≤ 6
        → le rec.confidence_score one ≡ true
        → valid_task floats (enforce_policy floats authorize_by rec o).approval_task ≡ true
    unfolding enforce_policy non_policy rejection band_decision hard_guardrail_violations valid_task
    policy-valid none low sure = task-IsSigned rec rec.suggested_autonomy_tier "non_policy" low sure
    policy-valid (some p) low sure =
        elim (Bool-cases (le (compute_delta_pct floats p rec.current_policy) one)) [
          | inl fits ↦ rw fits (if_queued-valid _ _ "band" low sure)
          | inr over ↦ rw over refl
        ]

    -- An outcome of a recommendation of criticality tier 6 at most and confidence 1 at most is valid.
    pub decide-valid :
        rec.criticality_tier ≤ 6
        → le rec.confidence_score one ≡ true
        → valid_outcome floats (decide floats authorize_by rec) ≡ true
    unfolding decide valid_outcome deferral valid_task
    decide-valid low sure =
        let n = decide-nonneg in
        let p = policy-valid rec.policy low sure in
        elim (Bool-cases (contains "open_order_deferral" rec.guardrail_flags)) [
          | inl flagged ↦ ground (arith, n, flagged)
          | inr free ↦ ground (arith, n, free, p)
        ]
