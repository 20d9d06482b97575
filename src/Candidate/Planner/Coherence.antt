-- ===== src/Candidate/Planner/Coherence.antt =====
-- What `build_frontier` returns passes the frontier's validator.
use aeronta_inventory.Base.{
  ◌≡◌, ◌≢◌, ◌⊎◌, refl, sym, ap, ◌∙◌, String, Bool, true, false, ◌&&◌, none, some, List, [], ◌∷◌,
  map, ◌==◌, string_eq, length, count, filter, contains, sorted, All, arith, inl, inr, Bool-cases,
}
use aeronta_inventory.Base.Shuffle.{
  Shuffle-sym, Apart, All-Shuffle, Apart-Shuffle, All-imp, sorted-IsSorted, sorted_of_IsSorted,
}
use aeronta_inventory.Base.Members.{Apart-filter, All-filter, all-All, count-filter, count-Shuffle}
use aeronta_inventory.Candidate.Decimals.{Decimals}
use aeronta_inventory.Candidate.Types.{
  PolicyCandidate, CandidateFrontier, CandidateFingerprintInputs, planner_version,
}
use aeronta_inventory.Candidate.Frontier.{Pruned, prune_dominated, stable_le}
use aeronta_inventory.Candidate.Frontier.Front.{IsOf, OtherId, keeps, front, prune_dominated-front}
use aeronta_inventory.Candidate.Frontier.Cover.{kept-Shuffle, counted_front}
use aeronta_inventory.Candidate.Frontier.Unordered.{stable_le_total, stable_le_trans}
use aeronta_inventory.Candidate.Planner.{
  unique, is_nil, no_changes, fingerprint, matches, accepts, frontier_of, finish, build_from,
  build_frontier, belongs, IsCoherent, valid_inputs,
}

All-not_contains :
    {A : Type 0} (f : A → String) (x : A) (xs : List A)
    → contains (f x) (map f xs) ≡ false
    → All (λ y. f x ≢ f y) xs
All-not_contains f x [] h = tt
All-not_contains f x (y ∷ xs) h = (
  λ e. absurd (ground (arith, h, (string_eq.same_iff (f x) (f y)).1 e)),
  All-not_contains f x xs (ground (arith, h)),
)

-- Distinct keys, as the validators test it.
Apart-of_unique :
    {A : Type 0} (f : A → String) (xs : List A)
    → unique (map f xs) ≡ true
    → Apart (λ a b. f a ≢ f b) xs
Apart-of_unique f [] h = tt
Apart-of_unique f (x ∷ xs) h =
    (All-not_contains f x xs (ground (arith, h)), Apart-of_unique f xs (ground (arith, h)))

some_of_count : {A : Type 0} (p : A → Bool) (xs : List A) → count p xs ≡ 1 → is_nil xs ≡ false
some_of_count p [] h = absurd (omega (arith, h))
some_of_count p (x ∷ xs) h = refl

module _ (decimals : Decimals) where
  open decimals use {D}

  abbrev C : Type 0
  C = PolicyCandidate D

  module _ (menu : List C) where
    front-one :
        no_changes decimals menu ≡ 1 → no_changes decimals (front decimals menu).candidates ≡ 1
    front-one h =
        count-Shuffle PolicyCandidate.is_no_change (kept-Shuffle decimals menu)
        ∙ (count-filter PolicyCandidate.is_no_change (keeps decimals menu) menu
              (λ c e. ground (arith, e))
            ∙ h)

    front-All : (P : C → Type 0) → All P menu → All P (front decimals menu).candidates
    front-All P h =
        All-Shuffle P (Shuffle-sym (kept-Shuffle decimals menu))
          (All-filter P (keeps decimals menu) menu h)

    front-Apart : Apart OtherId menu → Apart OtherId (front decimals menu).candidates
    front-Apart h =
        Apart-Shuffle OtherId (λ a b k e. k (sym e)) (Shuffle-sym (kept-Shuffle decimals menu))
          (Apart-filter OtherId (keeps decimals menu) menu h)

    front-sorted :
        sorted stable_le (front decimals menu).candidates ≡ (front decimals menu).candidates
    front-sorted =
        sorted_of_IsSorted stable_le (stable_le_total decimals) (stable_le_trans decimals)
          (front decimals menu).candidates
          (sorted-IsSorted stable_le (stable_le_total decimals) (stable_le_trans decimals)
            (filter (keeps decimals menu) menu))

  module _ (frontier_fingerprint : CandidateFingerprintInputs → String)
      (candidate_identifier : String → PolicyCandidate D → String)
      (output_digest : String → CandidateFingerprintInputs → Pruned D → String) where
    module _ (i : CandidateFingerprintInputs) (print : String) (menu : List C)
        (h : accepts decimals frontier_fingerprint candidate_identifier output_digest i print menu
          ≡ true) where
      belongs-of_matches :
          (c : C)
          → matches decimals frontier_fingerprint candidate_identifier output_digest i print c
            ≡ true
          → belongs decimals
              (frontier_of decimals frontier_fingerprint candidate_identifier output_digest i print
                (length menu)
                (front decimals menu))
              c
            ≡ true
      unfolding matches belongs frontier_of
      belongs-of_matches c e = ground (arith, e)

      matches-IsOf :
          (c : C)
          → matches decimals frontier_fingerprint candidate_identifier output_digest i print c
            ≡ true
          → IsOf i.decision_key i.currency c
      unfolding matches
      matches-IsOf c e = record {
        key_eq = (string_eq.same_iff c.decision_key i.decision_key).0 (ground (arith, e));
        currency_eq =
            (string_eq.same_iff c.lifecycle_costs.currency i.currency).0 (ground (arith, e));
      }

      all_match :
          All
            (λ c.
              matches decimals frontier_fingerprint candidate_identifier output_digest i print c
              ≡ true)
            menu
      unfolding accepts
      all_match =
          all-All (matches decimals frontier_fingerprint candidate_identifier output_digest i print)
            menu (ground (arith, h))

      one : no_changes decimals menu ≡ 1
      unfolding accepts
      one = ground (arith, h)

      distinct : Apart OtherId menu
      unfolding accepts
      distinct = Apart-of_unique PolicyCandidate.candidate_id menu (ground (arith, h))

      build_some :
          finish decimals frontier_fingerprint candidate_identifier output_digest i print menu
            (prune_dominated decimals menu)
          ≡ some (
              frontier_of decimals frontier_fingerprint candidate_identifier output_digest i print
                (length menu)
                (front decimals menu))
      unfolding finish
      build_some =
          ap (finish decimals frontier_fingerprint candidate_identifier output_digest i print menu)
            (prune_dominated-front decimals i.decision_key i.currency menu
              (All-imp _ _ matches-IsOf menu all_match))

      coherent :
          valid_inputs i ≡ true
          → IsCoherent decimals (
              frontier_of decimals frontier_fingerprint candidate_identifier output_digest i print
                (length menu)
                (front decimals menu))
      unfolding frontier_of valid_inputs
      coherent valid = record {
        some_candidate =
            some_of_count PolicyCandidate.is_no_change (front decimals menu).candidates
              (front-one menu one);
        members = ground (arith, valid);
        distinct = front-Apart menu distinct;
        one_no_change = front-one menu one;
        belonging = front-All menu _ (All-imp _ _ belongs-of_matches menu all_match);
        total = sym (counted_front decimals menu);
        in_order = front-sorted menu;
      }

    -- What `build_frontier` asks before it prunes.
    abbrev pub admits : CandidateFingerprintInputs → List C → Bool
    admits i menu =
        (i.candidate_planner_version == planner_version)
        && accepts decimals frontier_fingerprint candidate_identifier output_digest i
            (frontier_fingerprint i) menu

    -- For valid fingerprint inputs `build_frontier` returns exactly when the inputs name its version
    -- and the menu passes its tests: pruning then raises nothing, and the frontier that is returned
    -- passes its own validator (distinct ids, one no-change candidate, each of its decision, the
    -- counts add up, in the canonical order). Otherwise it raises.
    pub build_frontier-IsCoherent :
        (i : CandidateFingerprintInputs) (menu : List C)
        → valid_inputs i ≡ true
        → ((admits i menu ≡ true)
            × ((f : CandidateFrontier D) × ((build_frontier decimals frontier_fingerprint
                      candidate_identifier output_digest i menu
                    ≡ some f)
                  × IsCoherent decimals f)))
          ⊎ ((admits i menu ≡ false)
              × (build_frontier decimals frontier_fingerprint candidate_identifier output_digest i
                    menu
                  ≡ none))
    unfolding build_frontier build_from fingerprint
    build_frontier-IsCoherent i menu valid =
        elim (Bool-cases (i.candidate_planner_version == planner_version)) [
          | inr old ↦ inr (rw old refl, rw old refl)
          | inl current ↦
              elim (Bool-cases (
                accepts decimals frontier_fingerprint candidate_identifier output_digest i
                  (frontier_fingerprint i) menu)) [
                    | inr refused ↦ inr (rw (current, refused) refl, rw (current, refused) refl)
                    | inl taken ↦ inl (
                      rw (current, taken) refl,
                      (
                        _,
                        (
                          rw (current, taken) (build_some i (frontier_fingerprint i) menu taken),
                          coherent i (frontier_fingerprint i) menu taken valid,
                        ),
                      ),
                    )
                  ]
        ]
