-- ===== src/Candidate/Frontier/Front.antt =====
-- The specification of `prune_dominated`, by two tests on each candidate, and that it is met.
use aeronta_inventory.Base.{
  ◌≡◌, ◌≢◌, refl, String, Bool, not, ◌&&◌, ◌||◌, some, List, [], ◌∷◌, arith, All, any, filter, map,
  sorted, text_le, ◌==◌, string_eq,
}
use aeronta_inventory.Candidate.Decimals.{Decimals}
use aeronta_inventory.Candidate.Types.{PolicyCandidate}
use aeronta_inventory.Candidate.Frontier.{
  Candidate, Pruned, stable_le, better, dominates, beats, is_beaten, is_exempt, partition,
  prune_dominated,
}

module _ {D : Type 0} where
  -- Candidates that may be compared: one decision and one currency.
  pub record IsOf (key currency : String) (c : PolicyCandidate D) : Type 0 where
    pub key_eq : c.decision_key ≡ key
    pub currency_eq : c.lifecycle_costs.currency ≡ currency

  abbrev pub OtherId : PolicyCandidate D → PolicyCandidate D → Type 0
  OtherId a b = a.candidate_id ≢ b.candidate_id

module _ (decimals : Decimals) where
  abbrev C : Type 0
  C = Candidate decimals

  -- `o` is another feasible candidate, and dominates `c`.
  abbrev pub rival : C → C → Bool
  rival c o = (o.feasible && not (o.candidate_id == c.candidate_id)) && better decimals o c

  abbrev pub keeps : List C → C → Bool
  keeps menu c = is_exempt decimals c || not (any (rival c) menu)

  -- The specification of `prune_dominated`.
  abbrev pub front : List C → Pruned (Decimals.D decimals)
  front menu = record {
    candidates = sorted stable_le (filter (keeps menu) menu);
    removed_candidate_ids =
        sorted text_le (map PolicyCandidate.candidate_id (filter (λ c. not (keeps menu c)) menu));
  }

  module _ (key currency : String) where
    beats-some :
        (o c : C)
        → IsOf key currency o
        → IsOf key currency c
        → beats decimals o c ≡ some (rival c o)
    unfolding beats dominates
    beats-some o c h k = ground (
      arith,
      h.key_eq,
      k.key_eq,
      h.currency_eq,
      k.currency_eq,
      string_eq.same_iff o.decision_key c.decision_key,
      string_eq.same_iff o.lifecycle_costs.currency c.lifecycle_costs.currency,
    )

    is_beaten-some :
        (others : List C) (c : C)
        → All (IsOf key currency) others
        → IsOf key currency c
        → is_beaten decimals others c ≡ some (any (rival c) others)
    unfolding is_beaten
    is_beaten-some [] c h k = refl
    is_beaten-some (o ∷ others) c (p, h) k =
        rw (beats-some o c p k, is_beaten-some others c h k) (ground arith)

    split : List C → List C → Pruned (Decimals.D decimals)
    split menu cs = record {
      candidates = filter (keeps menu) cs;
      removed_candidate_ids =
          map PolicyCandidate.candidate_id (filter (λ c. not (keeps menu c)) cs);
    }

    partition-some :
        (menu cs : List C)
        → All (IsOf key currency) menu
        → All (IsOf key currency) cs
        → partition decimals menu cs ≡ some (split menu cs)
    unfolding partition split
    partition-some menu [] h k = refl
    partition-some menu (c ∷ cs) h (q, k) =
        ground (arith, is_beaten-some menu c h q, partition-some menu cs h k)

    pub prune_dominated-front :
        (menu : List C)
        → All (IsOf key currency) menu
        → prune_dominated decimals menu ≡ some (front menu)
    unfolding prune_dominated split
    prune_dominated-front menu h = rw (partition-some menu menu h h) refl
