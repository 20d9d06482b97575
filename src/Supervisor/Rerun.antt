-- ===== src/Supervisor/Rerun.antt =====
-- A second run over the same batch writes nothing: each write repeats an idempotency key.
use mathlib.Core.Path.{subst}
use aeronta_inventory.Base.{
  sym, ℕ, String, ◌≡◌, refl, ap, Bool, true, false, Option, none, some, List, [], ◌∷◌, arith, inl,
  inr, map, All, Option-cases, string_eq,
}
use aeronta_inventory.Base.Dict.{lookup}
use aeronta_inventory.Contracts.{Policy, Recommendation}
use aeronta_inventory.Guardrail.{
  GuardrailStatus, approved_for_write, queued_for_approval, deferred_open_order,
  rejected_hard_guardrail, GuardrailOutcome,
}
use aeronta_inventory.Writeback.{WritebackRequest, WritebackResult, Target, write}
use aeronta_inventory.Writeback.Idempotence.{lookup-write_self, write_keeps_seen, write-of_seen}
use aeronta_inventory.Supervisor.{
  Outcomes, no_outcomes, idempotency_key, to_writeback_request, handle_queued, handle_approved,
  dispatch, dispatch_outcome, handle, run_from, run,
}

-- The target remembers `key`.
abbrev Knows : String → Target → Type 0
Knows key t = (r : WritebackResult) × (lookup key t.seen ≡ some r)

-- `t'` remembers all that `t` does.
abbrev Grows : Target → Target → Type 0
Grows t t' =
    (key : String) (r : WritebackResult) → lookup key t.seen ≡ some r → lookup key t'.seen ≡ some r

module _ {F : Type 0} where
  -- Whether a recommendation reaches the target, and if so that the target knows its key.
  abbrev IsSettled : Bool → Recommendation F → GuardrailStatus → Option Policy → Target → Type 0
  IsSettled shadow rec approved_for_write (some p) t = Knows (idempotency_key rec) t
  IsSettled true rec queued_for_approval (some p) t = Knows (idempotency_key rec) t
  IsSettled shadow rec status policy t = Unit

  -- What a step leaves: a target that remembers more and has settled the recommendation.
  abbrev Settles : (Target → Type 0) → Target → Option (Outcomes F × Target) → Type 0
  Settles P t none = Unit
  Settles P t (some (o, t')) = Grows t t' × P t'

  dispatch-Settles :
      (shadow : Bool) (rec : Recommendation F) (outcome : GuardrailOutcome F)
      (status : GuardrailStatus) (policy : Option Policy) (now : ℕ) (o : Outcomes F) (t : Target)
      → rec.policy ≡ policy
      → Settles (IsSettled shadow rec status policy) t (dispatch shadow rec outcome status now o t)
  unfolding dispatch handle_queued handle_approved to_writeback_request idempotency_key
  dispatch-Settles shadow rec outcome rejected_hard_guardrail policy now o t e = (λ key r h. h, tt)
  dispatch-Settles shadow rec outcome deferred_open_order policy now o t e = (λ key r h. h, tt)
  dispatch-Settles true rec outcome queued_for_approval none now o t e =
      rw (e, handle_queued) (λ key r h. h, tt)
  dispatch-Settles false rec outcome queued_for_approval none now o t e = (λ key r h. h, tt)
  dispatch-Settles false rec outcome queued_for_approval (some p) now o t e = (λ key r h. h, tt)
  dispatch-Settles true rec outcome queued_for_approval (some p) now o t e =
      let req : WritebackRequest = to_writeback_request rec p outcome.tier true in
      rw (e, handle_queued)
        (write_keeps_seen req now t, ((write req now t).0, lookup-write_self req now t))
  dispatch-Settles shadow rec outcome approved_for_write none now o t e = rw (e, handle_approved) tt
  dispatch-Settles shadow rec outcome approved_for_write (some p) now o t e =
      let req : WritebackRequest = to_writeback_request rec p outcome.tier shadow in
      rw (e, handle_approved)
        (write_keeps_seen req now t, ((write req now t).0, lookup-write_self req now t))

  -- What a step leaves where the recommendation is settled already: the same target.
  abbrev Keeps : Target → Option (Outcomes F × Target) → Type 0
  Keeps t none = Unit
  Keeps t (some (o, t')) = t' ≡ t

  dispatch-Keeps :
      (shadow : Bool) (rec : Recommendation F) (outcome : GuardrailOutcome F)
      (status : GuardrailStatus) (policy : Option Policy) (now : ℕ) (o : Outcomes F) (t : Target)
      → rec.policy ≡ policy
      → IsSettled shadow rec status policy t
      → Keeps t (dispatch shadow rec outcome status now o t)
  unfolding dispatch handle_queued handle_approved to_writeback_request idempotency_key
  dispatch-Keeps shadow rec outcome rejected_hard_guardrail policy now o t e s = refl
  dispatch-Keeps shadow rec outcome deferred_open_order policy now o t e s = refl
  dispatch-Keeps true rec outcome queued_for_approval none now o t e s = rw (e, handle_queued) refl
  dispatch-Keeps false rec outcome queued_for_approval none now o t e s = refl
  dispatch-Keeps false rec outcome queued_for_approval (some p) now o t e s = refl
  dispatch-Keeps true rec outcome queued_for_approval (some p) now o t e (r, known) =
      rw (e, handle_queued)
        (ap (λ (x : WritebackResult × Target). x.1)
          (write-of_seen (to_writeback_request rec p outcome.tier true) now t r known))
  dispatch-Keeps shadow rec outcome approved_for_write none now o t e s = rw (e, handle_approved) tt
  dispatch-Keeps shadow rec outcome approved_for_write (some p) now o t e (r, known) =
      rw (e, handle_approved)
        (ap (λ (x : WritebackResult × Target). x.1)
          (write-of_seen (to_writeback_request rec p outcome.tier shadow) now t r known))

  IsSettled-Grows :
      (shadow : Bool) (rec : Recommendation F) (status : GuardrailStatus) (policy : Option Policy)
      (t t' : Target)
      → Grows t t'
      → IsSettled shadow rec status policy t
      → IsSettled shadow rec status policy t'
  IsSettled-Grows shadow rec approved_for_write (some p) t t' g (r, known) =
      (r, g (idempotency_key rec) r known)
  IsSettled-Grows true rec queued_for_approval (some p) t t' g (r, known) =
      (r, g (idempotency_key rec) r known)
  IsSettled-Grows shadow rec status policy t t' g s = tt

  -- The same by the outcome, if the guardrails return one.
  abbrev SettledBy : Bool → Recommendation F → Option (GuardrailOutcome F) → Target → Type 0
  SettledBy shadow rec none t = Unit
  SettledBy shadow rec (some outcome) t = IsSettled shadow rec outcome.status rec.policy t

  SettledBy-Grows :
      (shadow : Bool) (rec : Recommendation F) (outcome : Option (GuardrailOutcome F))
      (t t' : Target)
      → Grows t t'
      → SettledBy shadow rec outcome t
      → SettledBy shadow rec outcome t'
  SettledBy-Grows shadow rec none t t' g s = tt
  SettledBy-Grows shadow rec (some outcome) t t' g s =
      IsSettled-Grows shadow rec outcome.status rec.policy t t' g s

  outcome-Settles :
      (shadow : Bool) (rec : Recommendation F) (outcome : Option (GuardrailOutcome F)) (now : ℕ)
      (o : Outcomes F) (t : Target)
      → Settles (SettledBy shadow rec outcome) t (dispatch_outcome shadow rec outcome now o t)
  outcome-Settles shadow rec none now o t = tt
  outcome-Settles shadow rec (some outcome) now o t =
      dispatch-Settles shadow rec outcome outcome.status rec.policy now o t refl

  outcome-Keeps :
      (shadow : Bool) (rec : Recommendation F) (outcome : Option (GuardrailOutcome F)) (now : ℕ)
      (o : Outcomes F) (t : Target)
      → SettledBy shadow rec outcome t
      → Keeps t (dispatch_outcome shadow rec outcome now o t)
  outcome-Keeps shadow rec none now o t s = tt
  outcome-Keeps shadow rec (some outcome) now o t s =
      dispatch-Keeps shadow rec outcome outcome.status rec.policy now o t refl s

module _ {F : Type 0} (enforce : Recommendation F → Option (GuardrailOutcome F))
    (shadow : Bool) where
  -- Every recommendation of a list is settled.
  abbrev AllSettled : List (Recommendation F) → Target → Type 0
  AllSettled recs t = All (λ rec. SettledBy shadow rec (enforce rec) t) recs

  AllSettled-Grows :
      (recs : List (Recommendation F)) (t t' : Target)
      → Grows t t'
      → AllSettled recs t
      → AllSettled recs t'
  AllSettled-Grows [] t t' g s = tt
  AllSettled-Grows (rec ∷ recs) t t' g s =
      (SettledBy-Grows shadow rec (enforce rec) t t' g s.0, AllSettled-Grows recs t t' g s.1)

  abbrev recommendations : List (Recommendation F × ℕ) → List (Recommendation F)
  recommendations = map (λ p. p.0)

  handle-Settles :
      (rec : Recommendation F) (now : ℕ) (o : Outcomes F) (t : Target)
      → Settles (SettledBy shadow rec (enforce rec)) t (handle enforce shadow rec now o t)
  unfolding handle
  handle-Settles rec now o t = outcome-Settles shadow rec (enforce rec) now o t

  run_from-next :
      (rec : Recommendation F) (now : ℕ) (recs : List (Recommendation F × ℕ)) (o o₁ : Outcomes F)
      (t t₁ : Target)
      → handle enforce shadow rec now o t ≡ some (o₁, t₁)
      → run_from enforce shadow ((rec, now) ∷ recs) o t ≡ run_from enforce shadow recs o₁ t₁
  unfolding run_from
  run_from-next rec now recs o o₁ t t₁ e = rw (e, run_from) refl

  -- A run that returns has settled its batch, and remembers what it did before.
  run_from-Settles :
      (recs : List (Recommendation F × ℕ)) (o o' : Outcomes F) (t : Target)
      → (run_from enforce shadow recs o t).0 ≡ some o'
      → Grows t (run_from enforce shadow recs o t).1
        × AllSettled (recommendations recs) (run_from enforce shadow recs o t).1
  unfolding run_from
  run_from-Settles [] o o' t h = (λ key r k. k, tt)
  run_from-Settles ((rec, now) ∷ recs) o o' t h =
      elim (Option-cases (handle enforce shadow rec now o t)) [
        | inl raised ↦ absurd (ground arith)
        | inr ((o₁, t₁), e) ↦
            let (grows, settled) : Grows t t₁ × SettledBy shadow rec (enforce rec) t₁ =
              rw e at (handle-Settles rec now o t) in
            let (later, rest) = run_from-Settles recs o₁ o' t₁ (rw (e, run_from) at h) in
            let t₂ : Target = (run_from enforce shadow recs o₁ t₁).1 in
            subst
              (λ (x : Option (Outcomes F) × Target).
                Grows t x.1 × AllSettled (rec ∷ recommendations recs) x.1)
              (sym (run_from-next rec now recs o o₁ t t₁ e))
              (
                λ key r k. later key r (grows key r k),
                (SettledBy-Grows shadow rec (enforce rec) t₁ t₂ later settled, rest),
              )
      ]

  handle-Keeps :
      (rec : Recommendation F) (now : ℕ) (o : Outcomes F) (t : Target)
      → SettledBy shadow rec (enforce rec) t
      → Keeps t (handle enforce shadow rec now o t)
  unfolding handle
  handle-Keeps rec now o t s = outcome-Keeps shadow rec (enforce rec) now o t s

  run_from-Keeps :
      (recs : List (Recommendation F × ℕ)) (o : Outcomes F) (t : Target)
      → AllSettled (recommendations recs) t
      → (run_from enforce shadow recs o t).1 ≡ t
  unfolding run_from
  run_from-Keeps [] o t s = refl
  run_from-Keeps ((rec, now) ∷ recs) o t s =
      elim (Option-cases (handle enforce shadow rec now o t)) [
        | inl raised ↦ rw (raised, run_from) refl
        | inr ((o₁, t₁), e) ↦
            let same : t₁ ≡ t = rw e at (handle-Keeps rec now o t s.0) in
            rw (e, run_from) (rw same (run_from-Keeps recs o₁ t s.1))
      ]

  -- After a run that returns, a second run over the same recommendations, with other readings of
  -- the clock, leaves the target exactly as the first one left it.
  pub run-run :
      (recs again : List (Recommendation F × ℕ)) (o : Outcomes F) (t : Target)
      → map (λ p. p.0) again ≡ map (λ p. p.0) recs
      → (run enforce shadow recs t).0 ≡ some o
      → (run enforce shadow again (run enforce shadow recs t).1).1 ≡ (run enforce shadow recs t).1
  unfolding run
  run-run recs again o t same returned =
      run_from-Keeps again no_outcomes (run_from enforce shadow recs no_outcomes t).1
        (rw same (run_from-Settles recs no_outcomes o t returned).1)
