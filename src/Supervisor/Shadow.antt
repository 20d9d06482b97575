-- ===== src/Supervisor/Shadow.antt =====
-- A supervisor in shadow mode never sets a level.
use aeronta_inventory.Base.{
  ℕ, ◌≡◌, refl, ◌∙◌, true, Option, none, some, List, [], ◌∷◌, arith, inl, inr, Option-cases,
  string_eq, triple_eq,
}
use aeronta_inventory.Base.Dict.{lookup}
use aeronta_inventory.Contracts.{Policy, Recommendation}
use aeronta_inventory.Guardrail.{
  GuardrailStatus, approved_for_write, queued_for_approval, deferred_open_order,
  rejected_hard_guardrail, GuardrailOutcome,
}
use aeronta_inventory.Writeback.{
  WritebackRequest, Target, write, write_new, write_shadow, record_entry,
}
use aeronta_inventory.Supervisor.{
  Outcomes, no_outcomes, to_writeback_request, handle_queued, handle_approved, dispatch,
  dispatch_outcome, handle, run_from, run,
}

-- The target has the levels and the history of live writes that `t` has.
pub record SameLevels (t t' : Target) : Type 0 where
  pub levels : t'.levels ≡ t.levels
  pub history : t'.history ≡ t.history

abbrev SameLevels-refl : (t : Target) → SameLevels t t
SameLevels-refl t = record { levels = refl; history = refl }

SameLevels-trans : {t u v : Target} → SameLevels t u → SameLevels u v → SameLevels t v
SameLevels-trans a b = record { levels = b.levels ∙ a.levels; history = b.history ∙ a.history }

write_shadow-SameLevels :
    (req : WritebackRequest) (now : ℕ) (t : Target)
    → req.shadow ≡ true
    → SameLevels t (write req now t).1
unfolding write write_new write_shadow record_entry
write_shadow-SameLevels req now t h = elim (Option-cases (lookup req.idempotency_key t.seen)) [
  | inl fresh ↦ record { levels = ground arith; history = ground arith }
  | inr (r, again) ↦ rw (again, write) (SameLevels-refl t)
]

module _ {F : Type 0} (enforce : Recommendation F → Option (GuardrailOutcome F)) where
  -- What a step of the loop leaves, if it does not raise.
  abbrev StepSame : Target → Option (Outcomes F × Target) → Type 0
  StepSame t none = Unit
  StepSame t (some (o, t')) = SameLevels t t'

  dispatch-StepSame :
      (rec : Recommendation F) (outcome : GuardrailOutcome F) (status : GuardrailStatus)
      (policy : Option Policy) (now : ℕ) (o : Outcomes F) (t : Target)
      → rec.policy ≡ policy
      → StepSame t (dispatch true rec outcome status now o t)
  unfolding dispatch handle_queued handle_approved to_writeback_request
  dispatch-StepSame rec outcome rejected_hard_guardrail policy now o t e = SameLevels-refl t
  dispatch-StepSame rec outcome deferred_open_order policy now o t e = SameLevels-refl t
  dispatch-StepSame rec outcome queued_for_approval none now o t e =
      rw (e, handle_queued) (SameLevels-refl t)
  dispatch-StepSame rec outcome queued_for_approval (some p) now o t e =
      rw (e, handle_queued)
        (write_shadow-SameLevels (to_writeback_request rec p outcome.tier true) now t refl)
  dispatch-StepSame rec outcome approved_for_write none now o t e = rw (e, handle_approved) tt
  dispatch-StepSame rec outcome approved_for_write (some p) now o t e =
      rw (e, handle_approved)
        (write_shadow-SameLevels (to_writeback_request rec p outcome.tier true) now t refl)

  outcome-StepSame :
      (rec : Recommendation F) (outcome : Option (GuardrailOutcome F)) (now : ℕ) (o : Outcomes F)
      (t : Target)
      → StepSame t (dispatch_outcome true rec outcome now o t)
  outcome-StepSame rec none now o t = tt
  outcome-StepSame rec (some outcome) now o t =
      dispatch-StepSame rec outcome outcome.status rec.policy now o t refl

  handle-StepSame :
      (rec : Recommendation F) (now : ℕ) (o : Outcomes F) (t : Target)
      → StepSame t (handle enforce true rec now o t)
  unfolding handle
  handle-StepSame rec now o t = outcome-StepSame rec (enforce rec) now o t

  run_from-SameLevels :
      (recs : List (Recommendation F × ℕ)) (o : Outcomes F) (t : Target)
      → SameLevels t (run_from enforce true recs o t).1
  unfolding run_from
  run_from-SameLevels [] o t = SameLevels-refl t
  run_from-SameLevels ((rec, now) ∷ recs) o t =
      elim (Option-cases (handle enforce true rec now o t)) [
        | inl raised ↦ rw (raised, run_from) (SameLevels-refl t)
        | inr ((o', t'), e) ↦
            rw (e, run_from)
              (SameLevels-trans (rw e at (handle-StepSame rec now o t))
                (run_from-SameLevels recs o' t'))
      ]

  -- Whatever the guardrails decide and the clock reads, a run in shadow mode leaves the levels and
  -- the history of live writes of the target as they were.
  pub run-SameLevels :
      (recs : List (Recommendation F × ℕ)) (t : Target) → SameLevels t (run enforce true recs t).1
  unfolding run
  run-SameLevels recs t = run_from-SameLevels recs no_outcomes t
