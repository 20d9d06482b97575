-- ===== src/Tests/Runs.antt =====
-- Runs of the supervisor.
use aeronta_inventory.Base.{ℕ, ◌≡◌, refl, arith, Option, true, false, some, List, [], ◌∷◌, length}
use aeronta_inventory.Contracts.{Recommendation}
use aeronta_inventory.Guardrail.{authorize, enforce, GuardrailOutcome}
use aeronta_inventory.Writeback.{Target, init}
use aeronta_inventory.Supervisor.{Outcomes, run}
use aeronta_inventory.Supervisor.Shadow.{SameLevels, run-SameLevels}
use aeronta_inventory.Supervisor.Report.{total, run-total}
use aeronta_inventory.Supervisor.Rerun.{run-run}
use aeronta_inventory.Tests.Fixtures.{bps, default_config, wheel, brake}

abbrev guard : Recommendation ℕ → Option (GuardrailOutcome ℕ)
guard = enforce bps (authorize bps default_config)

abbrev batch : List (Recommendation ℕ × ℕ)
batch = (wheel, 100) ∷ (brake, 101) ∷ []

abbrev later_batch : List (Recommendation ℕ × ℕ)
later_batch = (wheel, 500) ∷ (brake, 501) ∷ []

empty : Target
empty = init [] 90

run-SameLevels_example : SameLevels empty (run guard true batch empty).1
run-SameLevels_example = run-SameLevels guard batch empty

run-total_example :
    (o : Outcomes ℕ) × ((run guard false batch empty).0 ≡ some o) × (total o ≡ length batch)
run-total_example =
    run-total bps (authorize bps default_config) false batch empty
      ((omega arith, refl), ((omega arith, refl), tt))

run-run_example :
    (run guard false later_batch (run guard false batch empty).1).1
    ≡ (run guard false batch empty).1
run-run_example =
    run-run guard false batch later_batch run-total_example.0 empty refl run-total_example.1
