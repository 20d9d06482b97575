-- ===== src/Candidate/Planner.antt =====
-- candidate/planner.py, with the validators of the fingerprint inputs and of the frontier in
-- contracts/candidate.py.
pub mod Coherence
use aeronta_inventory.Base.{
  ℕ, ◌≡◌, ◌≤◌, ◌+◌, String, Bool, true, false, not, ◌&&◌, ◌||◌, Option, none, some, List, [], ◌∷◌,
  ◌++◌, map, ◌==◌, string_eq, if◌then◌else◌, length, count, all, any, contains, sorted, text_le,
  leb, nat_beq, All,
}
use aeronta_inventory.Base.Shuffle.{Apart}
use aeronta_inventory.Candidate.Decimals.{Decimals}
use aeronta_inventory.Candidate.Types.{
  PolicyCandidate, CandidateFrontier, CandidateFingerprintInputs, FingerprintComponent,
  ModelIdentity, ServedForecastIdentity, planner_version,
}
use aeronta_inventory.Candidate.Frontier.{Pruned, prune_dominated, stable_le}
use aeronta_inventory.Candidate.Frontier.Front.{OtherId}

-- `len(set(texts)) == len(texts)`
abbrev pub unique : List String → Bool
unique [] = true
unique (x ∷ xs) = not (contains x xs) && unique xs

-- `==` of tuples of texts.
abbrev pub same_texts : List String → List String → Bool
same_texts [] [] = true
same_texts [] (y ∷ ys) = false
same_texts (x ∷ xs) [] = false
same_texts (x ∷ xs) (y ∷ ys) = x == y && same_texts xs ys

abbrev pub same_optional : Option String → Option String → Bool
same_optional none none = true
same_optional none (some b) = false
same_optional (some a) none = false
same_optional (some a) (some b) = a == b

abbrev pub same_forecasts : List ServedForecastIdentity → List ServedForecastIdentity → Bool
same_forecasts [] [] = true
same_forecasts [] (y ∷ ys) = false
same_forecasts (x ∷ xs) [] = false
same_forecasts (x ∷ xs) (y ∷ ys) =
    (x.decision_key == y.decision_key
      && (x.forecast_model == y.forecast_model && x.forecast_version == y.forecast_version))
    && same_forecasts xs ys

-- `==` of model identities.
unfoldable pub same_model : ModelIdentity → ModelIdentity → Bool
same_model a b =
    (a.forecast_model == b.forecast_model && a.forecast_version == b.forecast_version)
    && ((a.policy_model == b.policy_model && a.policy_version == b.policy_version)
        && ((same_optional a.repair_model b.repair_model
              && same_optional a.repair_version b.repair_version)
            && same_forecasts a.member_forecasts b.member_forecasts))

-- `==` of sets of texts.
abbrev pub same_set : List String → List String → Bool
same_set xs ys = all (λ x. contains x ys) xs && all (λ y. contains y xs) ys

abbrev pub is_nil : {A : Type 0} → List A → Bool
is_nil [] = true
is_nil (x ∷ xs) = false

-- The forecast of the decision key agrees with the primary one; without one, `next` raises.
abbrev pub primary_agrees : String → ModelIdentity → List ServedForecastIdentity → Bool
primary_agrees key m [] = false
primary_agrees key m (f ∷ fs) =
    let rest = primary_agrees key m fs in
    if f.decision_key == key
    then f.forecast_model == m.forecast_model && f.forecast_version == m.forecast_version
    else rest

abbrev pub window_ok : Option ℕ → Option ℕ → Bool
window_ok none none = true
window_ok none (some b) = false
window_ok (some a) none = false
window_ok (some a) (some b) = leb a b

-- What the validators ask of the forecasts of the members.
unfoldable pub valid_forecasts : String → List String → ModelIdentity → Bool
valid_forecasts key members m =
    let keys = map ServedForecastIdentity.decision_key m.member_forecasts in
    if is_nil keys
    then leb (length members) 1
    else (same_set keys members && primary_agrees key m m.member_forecasts)

-- What the validators ask of the member keys.
unfoldable pub valid_members : String → List String → Bool
valid_members key members =
    contains key members && (unique members && same_texts members (sorted text_le members))

-- `CandidateFingerprintInputs._complete_and_unique`.
unfoldable pub valid_inputs : CandidateFingerprintInputs → Bool
valid_inputs i =
    valid_members i.decision_key i.member_keys
    && (valid_forecasts i.decision_key i.member_keys i.model_identity
        && (window_ok i.observation_start i.observation_end
            && (unique (map FingerprintComponent.name i.objective_inputs)
                && unique (map FingerprintComponent.name i.additional_result_inputs))))

-- The digests of candidate/identity.py, over JSON and SHA-256, are parameters.
module _ (decimals : Decimals) where
  open decimals use {D}

  abbrev pub no_changes : List (PolicyCandidate D) → ℕ
  no_changes cs = count PolicyCandidate.is_no_change cs

  module _ (frontier_fingerprint : CandidateFingerprintInputs → String)
      (candidate_identifier : String → PolicyCandidate D → String)
      (output_digest : String → CandidateFingerprintInputs → Pruned D → String) where
    -- `fingerprint`.
    unfoldable pub fingerprint : CandidateFingerprintInputs → Option String
    fingerprint i =
        if i.candidate_planner_version == planner_version
        then some (frontier_fingerprint i)
        else none

    -- The tests of `build_frontier` on one candidate.
    unfoldable pub matches : CandidateFingerprintInputs → String → PolicyCandidate D → Bool
    matches i print c =
        (c.tenant_id == i.tenant_id && c.decision_key == i.decision_key)
        && ((same_texts c.member_keys i.member_keys && c.lifecycle_costs.currency == i.currency)
            && (same_model c.model_identity i.model_identity
                && c.candidate_id == candidate_identifier print c))

    -- The tests of `build_frontier` on the menu.
    unfoldable pub accepts : CandidateFingerprintInputs → String → List (PolicyCandidate D) → Bool
    accepts i print cs =
        not (is_nil cs)
        && (unique (map PolicyCandidate.candidate_id cs)
            && (nat_beq (no_changes cs) 1 && all (matches i print) cs))

    unfoldable pub frontier_of :
        CandidateFingerprintInputs → String → ℕ → Pruned D → CandidateFrontier D
    frontier_of i print total p = record {
      frontier_fingerprint = print;
      output_digest = output_digest print i p;
      planner_version = planner_version;
      tenant_id = i.tenant_id;
      decision_key = i.decision_key;
      member_keys = i.member_keys;
      currency = i.currency;
      candidates = p.candidates;
      total_options_considered = total;
      dominated_options_removed = length p.removed_candidate_ids;
    }

    -- The end of `build_frontier`, from `prune_dominated` on.
    unfoldable pub finish :
        CandidateFingerprintInputs
        → String
        → List (PolicyCandidate D)
        → Option (Pruned D)
        → Option (CandidateFrontier D)
    finish i print cs none = none
    finish i print cs (some p) = some (frontier_of i print (length cs) p)

    unfoldable pub build_from :
        CandidateFingerprintInputs
        → List (PolicyCandidate D)
        → Option String
        → Option (CandidateFrontier D)
    build_from i cs none = none
    build_from i cs (some print) =
        if accepts i print cs then finish i print cs (prune_dominated decimals cs) else none

    -- `build_frontier`; `none` stands for a `ValueError`.
    unfoldable pub build_frontier :
        CandidateFingerprintInputs → List (PolicyCandidate D) → Option (CandidateFrontier D)
    build_frontier i cs = build_from i cs (fingerprint i)

  -- `CandidateFrontier._frontier_is_coherent`, on one candidate.
  unfoldable pub belongs : CandidateFrontier D → PolicyCandidate D → Bool
  belongs f c =
      (c.tenant_id == f.tenant_id && c.decision_key == f.decision_key)
      && (same_texts c.member_keys f.member_keys && c.lifecycle_costs.currency == f.currency)

  -- `CandidateFrontier._frontier_is_coherent`.
  pub record IsCoherent (f : CandidateFrontier D) : Type 0 where
    pub some_candidate : is_nil f.candidates ≡ false
    pub members : valid_members f.decision_key f.member_keys ≡ true
    pub distinct : Apart OtherId f.candidates
    pub one_no_change : no_changes f.candidates ≡ 1
    pub belonging : All (λ c. belongs f c ≡ true) f.candidates
    pub total : f.total_options_considered ≡ length f.candidates + f.dominated_options_removed
    pub in_order : sorted stable_le f.candidates ≡ f.candidates
