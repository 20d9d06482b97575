-- ===== src/Supervisor/Report.antt =====
-- A run under the guardrails of the source, and the lists of its result.
use aeronta_inventory.Base.{
  ℕ, ◌+◌, ◌≤◌, All, ◌≡◌, ◌≢◌, refl, Bool, true, false, Option, none, some, List, [], ◌∷◌, ◌++◌,
  arith, length, length-append,
}
use aeronta_inventory.Enums.{AutonomyTier}
use aeronta_inventory.Contracts.{Floats, Policy, Recommendation}
use aeronta_inventory.Guardrail.{
  GuardrailStatus, approved_for_write, queued_for_approval, deferred_open_order,
  rejected_hard_guardrail, ApprovalTask, GuardrailOutcome, decide, enforce,
}
use aeronta_inventory.Guardrail.Approval.{enforce-some, task-of_queued, policy-of_approved}
use aeronta_inventory.Guardrail.Sign.{decide-valid}
use aeronta_inventory.Writeback.{WritebackResult, WritebackStatus, Target, write}
use aeronta_inventory.Supervisor.{
  Outcomes, no_outcomes, file_result, file_task, deferred_result, to_writeback_request,
  handle_queued, handle_approved, dispatch, handle, run_from, run,
}

-- How many entries the lists of a result hold.
abbrev pub total : {F : Type 0} → Outcomes F → ℕ
total o =
    length o.written
    + length o.deferred
    + length o.failed
    + length o.shadowed
    + length o.queued
    + length o.rejected

length-snoc {ℓ} : {A : Type ℓ} (xs : List A) (x : A) → length (xs ++ x ∷ []) ≡ length xs + 1
length-snoc xs x = omega (arith, length-append xs (x ∷ []))

module _ {F : Type 0} where
  total-file_result :
      (status : WritebackStatus) (r : WritebackResult) (o : Outcomes F)
      → total (file_result status r o) ≡ total o + 1
  unfolding file_result
  total-file_result WritebackStatus.written r o = omega (arith, length-snoc o.written r)
  total-file_result WritebackStatus.shadowed r o = omega (arith, length-snoc o.shadowed r)
  total-file_result WritebackStatus.deferred_open_order r o =
      omega (arith, length-snoc o.deferred r)
  total-file_result WritebackStatus.failed r o = omega (arith, length-snoc o.failed r)

  total-file_task :
      (task : Option (ApprovalTask F)) (o : Outcomes F)
      → task ≢ none
      → total (file_task task o) ≡ total o + 1
  total-file_task none o has = absurd (has refl)
  total-file_task (some t) o has = omega (arith, length-snoc o.queued t)

  -- A step that returns, with one entry more.
  abbrev Counted : Outcomes F → Option (Outcomes F × Target) → Type 0
  Counted o r = (o' : Outcomes F) × (t' : Target) × (r ≡ some (o', t')) × (total o' ≡ total o + 1)

  -- A queued recommendation that carries a task.
  total-handle_queued :
      (shadow : Bool) (rec : Recommendation F) (outcome : GuardrailOutcome F)
      (policy : Option Policy) (now : ℕ) (o : Outcomes F) (t : Target)
      → outcome.approval_task ≢ none
      → total (handle_queued shadow rec outcome policy now o t).0 ≡ total o + 1
  unfolding handle_queued
  total-handle_queued true rec outcome (some p) now o t has =
      omega (
        arith,
        length-snoc o.shadowed (write (to_writeback_request rec p outcome.tier true) now t).0,
      )
  total-handle_queued true rec outcome none now o t has =
      total-file_task outcome.approval_task o has
  total-handle_queued false rec outcome none now o t has =
      total-file_task outcome.approval_task o has
  total-handle_queued false rec outcome (some p) now o t has =
      total-file_task outcome.approval_task o has

  handle_approved-Counted :
      (shadow : Bool) (rec : Recommendation F) (outcome : GuardrailOutcome F)
      (policy : Option Policy) (now : ℕ) (o : Outcomes F) (t : Target)
      → policy ≢ none
      → Counted o (handle_approved shadow rec outcome policy now o t)
  unfolding handle_approved
  handle_approved-Counted shadow rec outcome none now o t has = absurd (has refl)
  handle_approved-Counted shadow rec outcome (some p) now o t has =
      let (r, t') = write (to_writeback_request rec p outcome.tier shadow) now t in
      (file_result r.status r o, t', refl, total-file_result r.status r o)

  dispatch-Counted :
      (shadow : Bool) (rec : Recommendation F) (outcome : GuardrailOutcome F)
      (status : GuardrailStatus) (now : ℕ) (o : Outcomes F) (t : Target)
      → (status ≡ queued_for_approval → outcome.approval_task ≢ none)
      → (status ≡ approved_for_write → rec.policy ≢ none)
      → Counted o (dispatch shadow rec outcome status now o t)
  unfolding dispatch handle_queued handle_approved
  dispatch-Counted shadow rec outcome rejected_hard_guardrail now o t q a = (
    record o { rejected = o.rejected ++ outcome ∷ [] },
    t,
    refl,
    omega (arith, length-snoc o.rejected outcome),
  )
  dispatch-Counted shadow rec outcome deferred_open_order now o t q a = (
    record o { deferred = o.deferred ++ deferred_result rec ∷ [] },
    t,
    refl,
    omega (arith, length-snoc o.deferred (deferred_result rec)),
  )
  dispatch-Counted shadow rec outcome queued_for_approval now o t q a = (
    (handle_queued shadow rec outcome rec.policy now o t).0,
    (handle_queued shadow rec outcome rec.policy now o t).1,
    refl,
    total-handle_queued shadow rec outcome rec.policy now o t (q refl),
  )
  dispatch-Counted shadow rec outcome approved_for_write now o t q a =
      handle_approved-Counted shadow rec outcome rec.policy now o t (a refl)

module _ (floats : Floats) where
  open floats use {F, le, one}

  -- A recommendation that the validators of its task accept.
  abbrev pub IsRanked : Recommendation F → Type 0
  IsRanked rec = (rec.criticality_tier ≤ 6) × (le rec.confidence_score one ≡ true)

  module _ (authorize_by : AutonomyTier → F → ℕ → GuardrailStatus) (shadow : Bool) where
    abbrev guard : Recommendation F → Option (GuardrailOutcome F)
    guard = enforce floats authorize_by

    handle-Counted :
        (rec : Recommendation F) (now : ℕ) (o : Outcomes F) (t : Target)
        → IsRanked rec
        → Counted o (handle guard shadow rec now o t)
    unfolding handle
    handle-Counted rec now o t (low, sure) =
        let outcome = decide floats authorize_by rec in
        rw (enforce-some floats authorize_by rec (decide-valid floats authorize_by rec low sure)) (
          dispatch-Counted shadow rec outcome outcome.status now o t
            (λ queued missing.
              let (task, e) = task-of_queued floats authorize_by rec queued in cc (missing, e))
            (λ approved missing.
              let (p, e) = policy-of_approved floats authorize_by rec approved in cc (missing, e)))

    run_from-total :
        (recs : List (Recommendation F × ℕ)) (o : Outcomes F) (t : Target)
        → All (λ p. IsRanked p.0) recs
        → (o' : Outcomes F) × ((run_from guard shadow recs o t).0 ≡ some o')
          × (total o' ≡ total o + length recs)
    unfolding run_from
    run_from-total [] o t ranked = (o, refl, omega arith)
    run_from-total ((rec, now) ∷ recs) o t (first, ranked) =
        let (o₁, t₁, e, counted) = handle-Counted rec now o t first in
        let (o₂, returned, rest) = run_from-total recs o₁ t₁ ranked in
        (o₂, rw (e, run_from) returned, omega (arith, rest, counted))

    -- Whatever the autonomy policy, the mode and the clock, a run over recommendations of criticality
    -- tier 6 at most and confidence 1 at most returns, and its six lists hold as many entries as the
    -- batch has recommendations.
    pub run-total :
        (recs : List (Recommendation F × ℕ)) (t : Target)
        → All (λ p. IsRanked p.0) recs
        → (o : Outcomes F) × ((run guard shadow recs t).0 ≡ some o) × (total o ≡ length recs)
    unfolding run
    run-total recs t ranked =
        let (o, returned, counted) = run_from-total recs no_outcomes t ranked in
        (o, returned, omega (arith, counted))
