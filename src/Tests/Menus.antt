-- ===== src/Tests/Menus.antt =====
-- Menus of candidates.
use aeronta_inventory.Base.{
  ◌≢◌, ℕ, ◌≡◌, ◌⊎◌, refl, String, ◌<>◌, Bool, true, false, none, some, List, [], ◌∷◌, All, arith,
  string_eq, ◌==◌,
}
use aeronta_inventory.Base.Sort.{sorted, place}
use aeronta_inventory.Base.Int.{ℤ, pos}
use aeronta_inventory.Base.Shuffle.{Shuffle, Apart}
use aeronta_inventory.Candidate.{
  PolicyCandidate, CandidateKind, CandidateFrontier, CandidateFingerprintInputs, ModelIdentity,
  CandidateTargetLevels, planner_version,
}
use aeronta_inventory.Candidate.Frontier.{
  Pruned, prune_dominated, partition, is_beaten, beats, dominates, better, strictly_better,
  no_worse, all_le, any_lt, minimized, maximized,
}
use aeronta_inventory.Candidate.Frontier.Front.{IsOf, OtherId}
use aeronta_inventory.Candidate.Frontier.Cover.{IsFront, prune_dominated-IsFront}
use aeronta_inventory.Candidate.Frontier.Unordered.{prune_dominated-Shuffle}
use aeronta_inventory.Candidate.Planner.{
  build_frontier, IsCoherent, accepts, matches, same_model, valid_inputs, valid_forecasts,
  valid_members,
}
use aeronta_inventory.Candidate.Planner.Coherence.{admits, build_frontier-IsCoherent}
use aeronta_inventory.Tests.Amounts.{whole}

abbrev pub model : ModelIdentity
model = record {
  forecast_model = "croston";
  forecast_version = "1";
  policy_model = "sS";
  policy_version = "2";
  repair_model = none;
  repair_version = none;
  member_forecasts = [];
}

abbrev pub levels : CandidateTargetLevels
levels = record { rop = 2; eoq = 3; safety_stock = 1; max_stock = 6 }

-- A candidate of a cash amount that leaves a shortage.
abbrev option : String → CandidateKind → Bool → ℕ → ℕ → PolicyCandidate ℤ
option id kind no_change cash shortage = record {
  candidate_id = id;
  tenant_id = "acme";
  pn = "wheel";
  location = "LHR";
  decision_key = "wheel@LHR";
  member_keys = "wheel@LHR" ∷ [];
  candidate_kind = kind;
  label = id;
  is_no_change = no_change;
  feasible = true;
  infeasibility_reasons = [];
  model_identity = model;
  current_levels = levels;
  target_levels = levels;
  actions = [];
  action_quantity = pos 0;
  lifecycle_costs = record {
    currency = "USD";
    acquisition_cash = pos cash;
    holding_cost = pos 0;
    ordering_cost = pos 0;
    shortage_cost = pos 0;
    other_cost = pos 0;
    total_lifecycle_cost = pos cash;
  };
  outcome = record {
    projected_demand = pos 4;
    available_before = pos 0;
    expected_receipts_before = pos 0;
    inbound_quantity = pos 0;
    outbound_quantity = pos 0;
    ending_net_position = pos 0;
    expected_shortage = pos shortage;
    expected_excess = pos 0;
    expected_service_level = pos 1;
    expected_aog_risk = pos 0;
  };
  confidence = pos 1;
  constraints = [];
  evidence = [];
  reconciliation = record {
    currency = "USD";
    available_before = pos 0;
    expected_receipts_before = pos 0;
    projected_demand = pos 4;
    transfer_in_quantity = pos 0;
    purchase_quantity = pos 0;
    outbound_quantity = pos 0;
    total_inbound_quantity = pos 0;
    action_quantity = pos 0;
    ending_net_position = pos 0;
    expected_shortage = pos shortage;
    acquisition_cash = pos cash;
  };
}

abbrev pub unchanged : PolicyCandidate ℤ
unchanged = option "c-none" CandidateKind.no_change true 0 4

abbrev pub cheap : PolicyCandidate ℤ
cheap = option "c-cheap" CandidateKind.purchase false 10 1

-- `cheap` costs less and leaves as little.
abbrev dear : PolicyCandidate ℤ
dear = option "c-dear" CandidateKind.purchase false 30 1

abbrev menu : List (PolicyCandidate ℤ)
menu = dear ∷ unchanged ∷ cheap ∷ []

option-IsOf :
    (id : String) (kind : CandidateKind) (b : Bool) (cash shortage : ℕ)
    → IsOf "wheel@LHR" "USD" (option id kind b cash shortage)
option-IsOf id kind b cash shortage = record { key_eq = refl; currency_eq = refl }

menu-comparable : All (IsOf "wheel@LHR" "USD") menu
menu-comparable = (
  option-IsOf "c-dear" CandidateKind.purchase false 30 1,
  (
    option-IsOf "c-none" CandidateKind.no_change true 0 4,
    (option-IsOf "c-cheap" CandidateKind.purchase false 10 1, tt),
  ),
)

differ : (a b : String) → (a == b) ≡ false → a ≢ b
differ a b h e = absurd (ground (arith, h, (string_eq.same_iff a b).1 e))

menu-distinct : Apart OtherId menu
menu-distinct = (
  (differ "c-dear" "c-none" refl, (differ "c-dear" "c-cheap" refl, tt)),
  ((differ "c-none" "c-cheap" refl, tt), (tt, tt)),
)

kept :
    prune_dominated whole menu
    ≡ some (record { candidates = unchanged ∷ cheap ∷ []; removed_candidate_ids = "c-dear" ∷ [] })
unfolding prune_dominated partition is_beaten beats dominates better strictly_better no_worse all_le
    any_lt minimized maximized sorted place
kept = refl

reordered : Shuffle menu (unchanged ∷ dear ∷ cheap ∷ [])
reordered = Shuffle.swap dear unchanged (cheap ∷ [])

prune_dominated-IsFront_example :
    (p : Pruned ℤ) × ((prune_dominated whole menu ≡ some p) × IsFront whole menu p)
prune_dominated-IsFront_example =
    prune_dominated-IsFront whole "wheel@LHR" "USD" menu menu-comparable menu-distinct

prune_dominated-Shuffle_example :
    prune_dominated whole menu ≡ prune_dominated whole (unchanged ∷ dear ∷ cheap ∷ [])
prune_dominated-Shuffle_example =
    prune_dominated-Shuffle whole "wheel@LHR" "USD" menu (unchanged ∷ dear ∷ cheap ∷ [])
      menu-comparable menu-distinct reordered

abbrev inputs : CandidateFingerprintInputs
inputs = record {
  tenant_id = "acme";
  decision_key = "wheel@LHR";
  member_keys = "wheel@LHR" ∷ [];
  source_snapshot_hash = "s";
  context_digest = "d";
  tenant_policy_version = "1";
  observation_start = none;
  observation_end = none;
  as_of = 9;
  horizon_days = 30;
  currency = "USD";
  model_identity = model;
  constraint_set_version = "1";
  arbitration_version = "1";
  economics_version = "1";
  objective_definition_version = "1";
  objective_inputs = [];
  additional_result_inputs = [];
  candidate_planner_version = planner_version;
}

-- Stand-ins for the digests.
abbrev print_of : CandidateFingerprintInputs → String
print_of i = i.decision_key

abbrev id_of : String → PolicyCandidate ℤ → String
id_of print c = c.label

abbrev digest_of : String → CandidateFingerprintInputs → Pruned ℤ → String
digest_of print i p = "out-" <> print

admitted : admits whole print_of id_of digest_of inputs menu ≡ true
unfolding accepts matches same_model
admitted = refl

build_frontier-IsCoherent_example :
    ((admits whole print_of id_of digest_of inputs menu ≡ true)
      × ((f : CandidateFrontier ℤ) × ((build_frontier whole print_of id_of digest_of inputs menu
              ≡ some f)
            × IsCoherent whole f)))
    ⊎ ((admits whole print_of id_of digest_of inputs menu ≡ false)
        × (build_frontier whole print_of id_of digest_of inputs menu ≡ none))
unfolding valid_inputs valid_forecasts valid_members sorted place
build_frontier-IsCoherent_example =
    build_frontier-IsCoherent whole print_of id_of digest_of inputs menu refl
