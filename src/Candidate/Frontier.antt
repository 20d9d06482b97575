-- ===== src/Candidate/Frontier.antt =====
-- candidate/frontier.py: candidates that another feasible candidate dominates are removed.
use aeronta_inventory.Base.{
  String, Bool, true, false, not, ◌&&◌, ◌||◌, Option, none, some, List, [], ◌∷◌, ◌++◌, map, ◌==◌,
  string_eq, if◌then◌else◌, length, sorted, text_le,
}
use aeronta_inventory.Candidate.Decimals.{Decimals}
use aeronta_inventory.Candidate.Types.{PolicyCandidate}
pub mod Dominance
pub mod Front
pub mod Cover
pub mod Unordered

-- `PrunedCandidates`.
pub record Pruned (D : Type 0) : Type 0 where
  pub candidates : List (PolicyCandidate D)
  pub removed_candidate_ids : List String

-- The order of ids after the test whether a candidate changes nothing.
abbrev pub flag_le : Bool → Bool → Bool → Bool
flag_le true true tail = tail
flag_le true false tail = true
flag_le false true tail = false
flag_le false false tail = tail

module _ {D : Type 0} where
  -- The key by which `retained` is sorted.
  abbrev pub stable_le : PolicyCandidate D → PolicyCandidate D → Bool
  stable_le a b = flag_le a.is_no_change b.is_no_change (text_le a.candidate_id b.candidate_id)

module _ (decimals : Decimals) where
  open decimals use {D, le}

  abbrev pub Candidate : Type 0
  Candidate = PolicyCandidate D

  -- `_optimizer_dimensions`: what is minimized and what is maximized.
  unfoldable pub minimized : Candidate → List D
  minimized c =
      let costs = c.lifecycle_costs in
      let ledger = c.reconciliation in
      costs.acquisition_cash ∷ ledger.purchase_quantity ∷ ledger.transfer_in_quantity
      ∷ ledger.outbound_quantity ∷ ledger.action_quantity ∷ costs.holding_cost ∷ costs.ordering_cost
      ∷ costs.shortage_cost ∷ costs.other_cost ∷ c.outcome.expected_shortage
      ∷ c.outcome.expected_excess ∷ c.outcome.expected_aog_risk ∷ []

  unfoldable pub maximized : Candidate → List D
  maximized c = c.outcome.expected_service_level ∷ c.confidence ∷ []

  -- `all(a <= b for a, b in zip(left, right, strict=True))`; the lists are of one length.
  unfoldable pub all_le : List D → List D → Bool
  all_le [] [] = true
  all_le [] (b ∷ bs) = false
  all_le (a ∷ ls) [] = false
  all_le (a ∷ ls) (b ∷ bs) = le a b && all_le ls bs

  -- `any(a < b for a, b in zip(left, right, strict=True))`
  unfoldable pub any_lt : List D → List D → Bool
  any_lt [] _ = false
  any_lt (a ∷ ls) [] = false
  any_lt (a ∷ ls) (b ∷ bs) = not (le b a) || any_lt ls bs

  unfoldable pub no_worse : Candidate → Candidate → Bool
  no_worse l r = all_le (minimized l) (minimized r) && all_le (maximized r) (maximized l)

  unfoldable pub strictly_better : Candidate → Candidate → Bool
  strictly_better l r = any_lt (minimized l) (minimized r) || any_lt (maximized r) (maximized l)

  -- `dominates` on candidates that may be compared.
  unfoldable pub better : Candidate → Candidate → Bool
  better l r = (l.feasible && r.feasible) && (no_worse l r && strictly_better l r)

  -- `dominates`; `none` stands for the `ValueError`.
  unfoldable pub dominates : Candidate → Candidate → Option Bool
  dominates l r =
      if l.decision_key == r.decision_key
      then (if l.lifecycle_costs.currency == r.lifecycle_costs.currency
          then some (better l r)
          else none)
      else none

  -- The test of `prune_dominated` on one other candidate.
  unfoldable pub beats : Candidate → Candidate → Option Bool
  beats other c =
      if other.feasible && not (other.candidate_id == c.candidate_id)
      then dominates other c
      else some false

  abbrev pub or_then : Option Bool → Option Bool → Option Bool
  or_then none rest = none
  or_then (some true) rest = some true
  or_then (some false) rest = rest

  -- `any(...)` over the menu.
  unfoldable pub is_beaten : List Candidate → Candidate → Option Bool
  is_beaten [] c = some false
  is_beaten (other ∷ others) c = or_then (beats other c) (is_beaten others c)

  -- Candidates that are always retained.
  abbrev pub is_exempt : Candidate → Bool
  is_exempt c = c.is_no_change || not c.feasible

  abbrev pub retain : Candidate → Pruned D → Pruned D
  retain c p = record p { candidates = c ∷ p.candidates }

  abbrev pub remove : Candidate → Pruned D → Pruned D
  remove c p = record p { removed_candidate_ids = c.candidate_id ∷ p.removed_candidate_ids }

  abbrev pub place_in : Candidate → Option Bool → Option (Pruned D) → Option (Pruned D)
  place_in c none rest = none
  place_in c (some true) none = none
  place_in c (some true) (some p) = some (remove c p)
  place_in c (some false) none = none
  place_in c (some false) (some p) = some (retain c p)

  -- The loop of `prune_dominated`.
  unfoldable pub partition : List Candidate → List Candidate → Option (Pruned D)
  partition menu [] = some (record { candidates = []; removed_candidate_ids = [] })
  partition menu (c ∷ cs) =
      let rest = partition menu cs in
      place_in c (if is_exempt c then some false else is_beaten menu c) rest

  abbrev pub arranged : Pruned D → Pruned D
  arranged p = record {
    candidates = sorted stable_le p.candidates;
    removed_candidate_ids = sorted text_le p.removed_candidate_ids;
  }

  abbrev pub arrange : Option (Pruned D) → Option (Pruned D)
  arrange none = none
  arrange (some p) = some (arranged p)

  -- `prune_dominated`.
  unfoldable pub prune_dominated : List Candidate → Option (Pruned D)
  prune_dominated menu = arrange (partition menu menu)
