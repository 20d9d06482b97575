-- ===== src/Portfolio/Budget.antt =====
-- The checks before the solver are exact: they pass when some choice of eligible candidates fits the budget.
use mathlib.Core.Path.{subst}
use aeronta_inventory.Base.{
  ◌≡◌, refl, sym, ap, ◌∙◌, ◌↔◌, ◌⊎◌, true, false, Option, none, some, List, [], ◌∷◌, ◌++◌, arith,
  inl, inr, Bool-cases, nat_eq,
}
use aeronta_inventory.Base.Shuffle.{In}
use aeronta_inventory.Base.Members.{In-filter, In-of-filter}
use aeronta_inventory.Base.Dict.{lookup}
use aeronta_inventory.Candidate.Decimals.{Decimals}
use aeronta_inventory.Candidate.Amounts.{smaller, smaller_left, smaller_right}
use aeronta_inventory.Candidate.Amounts.Groups.{add_le_both}
use aeronta_inventory.Candidate.{PolicyCandidate}
use aeronta_inventory.Candidate.Planner.{is_nil}
use aeronta_inventory.Portfolio.{
  PortfolioKeyMenu, PortfolioSolveRequest, Gathered, eligible, cash, baseline_of, choices,
  least_from,
}
use aeronta_inventory.Portfolio.Solve.{
  note, extend, add_choices, add_menu, after, gather, nothing_yet, preflight,
}

module _ (decimals : Decimals) where
  open decimals use {D, zero_decimal, le, add, le_refl, le_trans}

  abbrev C : Type 0
  C = PolicyCandidate D

  -- One eligible candidate of each menu.
  abbrev pub Choice : List (PortfolioKeyMenu D) → Type 0
  Choice [] = Unit
  Choice (m ∷ ms) =
      ((c : C) × (In c m.frontier.candidates × (eligible decimals m.mandatory_floors c ≡ true)))
      × Choice ms

  -- What a choice costs, from `a` on.
  abbrev pub cost_from : D → (ms : List (PortfolioKeyMenu D)) → Choice ms → D
  cost_from a [] x = a
  cost_from a (m ∷ ms) ((c, _), x) = cost_from (add a (cash decimals c)) ms x

  least_from-le : (a : D) (cs : List C) → le (least_from decimals a cs) a ≡ true
  least_from-le a [] = le_refl a
  least_from-le a (c ∷ cs) =
      le_trans _ _ _ (least_from-le (smaller decimals a (cash decimals c)) cs)
        (smaller_left decimals a (cash decimals c))

  least_from-le_In :
      (a : D) (c : C) (cs : List C)
      → In c cs
      → le (least_from decimals a cs) (cash decimals c) ≡ true
  least_from-le_In a c [] i = absurd i
  least_from-le_In a c (d ∷ cs) (inl same) =
      subst (λ x. le (least_from decimals a (d ∷ cs)) (cash decimals x) ≡ true) (sym same)
        (le_trans _ _ _ (least_from-le (smaller decimals a (cash decimals d)) cs)
          (smaller_right decimals a (cash decimals d)))
  least_from-le_In a c (d ∷ cs) (inr i) =
      least_from-le_In (smaller decimals a (cash decimals d)) c cs i

  least_le :
      (c : C) (cs : List C) (x : C)
      → In x (c ∷ cs)
      → le (least_from decimals (cash decimals c) cs) (cash decimals x) ≡ true
  least_le c cs x (inl same) =
      subst (λ y. le (least_from decimals (cash decimals c) cs) (cash decimals y) ≡ true) (sym same)
        (least_from-le (cash decimals c) cs)
  least_le c cs x (inr i) = least_from-le_In (cash decimals c) x cs i

  -- The least is the cash of one of them.
  attained_from :
      (a : C) (cs : List C) (P : C → Type 0)
      → P a
      → ((x : C) → In x cs → P x)
      → (x : C) × (P x × (cash decimals x ≡ least_from decimals (cash decimals a) cs))
  unfolding smaller
  attained_from a [] P p h = (a, (p, refl))
  attained_from a (c ∷ cs) P p h = elim (Bool-cases (le (cash decimals a) (cash decimals c))) [
    | inl first ↦
        let (x, (q, e)) = attained_from a cs P p (λ y i. h y (inr i)) in (x, (q, rw first e))
    | inr second ↦
        let (x, (q, e)) = attained_from c cs P (h c (inl refl)) (λ y i. h y (inr i)) in
        (x, (q, rw second e))
  ]

  -- What one menu does to the loop's state.
  Step : PortfolioKeyMenu D → Gathered D → Gathered D → Type 0
  Step m g g' =
      ((choices decimals m ≡ []) × (is_nil g'.infeasible_keys ≡ false))
      ⊎ ((c : C) × ((cs : List C) × ((choices decimals m ≡ c ∷ cs)
              × ((g'.minimum_budget
                    ≡ add g.minimum_budget (least_from decimals (cash decimals c) cs))
                  × (g'.infeasible_keys ≡ g.infeasible_keys)))))

  not_nil : {A : Type 0} (xs : List A) (x : A) → is_nil (xs ++ x ∷ []) ≡ false
  not_nil [] x = refl
  not_nil (y ∷ xs) x = refl

  module _ (r : PortfolioSolveRequest D) where
    add_choices-Step :
        (m : PortfolioKeyMenu D) (baseline : C) (cs : List C) (g g' : Gathered D)
        → choices decimals m ≡ cs
        → add_choices decimals r m baseline cs g ≡ some g'
        → Step m g g'
    unfolding Step
    add_choices-Step m baseline [] g g' e h =
        let same : note decimals m g ≡ g' = ground (arith, h) in
        inl (
          e,
          subst (λ x. is_nil (Gathered.infeasible_keys x) ≡ false) same
              (not_nil g.infeasible_keys m.frontier.decision_key),
        )
    add_choices-Step m baseline (c ∷ cs) g g' e h =
        elim (lookup m.criticality_tier r.objective_weights.criticality_weights)
            as (λ o.
              elim o [ none ↦ none | some w ↦ some (extend decimals r m baseline c cs w g) ]
                ≡ some g'
              → Step m g g') [
                | none ↦ λ k. absurd (ground (arith, k))
                | some w ↦ λ k.
                    let same : extend decimals r m baseline c cs w g ≡ g' = ground (arith, k) in
                    inr (
                      c,
                      (
                        cs,
                        (
                          e,
                          (
                            ap Gathered.minimum_budget (sym same),
                            ap Gathered.infeasible_keys (sym same),
                          ),
                        ),
                      ),
                    )
              ]
          h

    add_menu-Step :
        (m : PortfolioKeyMenu D) (b : Option C) (g g' : Gathered D)
        → add_menu decimals r m g b ≡ some g'
        → Step m g g'
    add_menu-Step m none g g' h = absurd (ground (arith, h))
    add_menu-Step m (some baseline) g g' h =
        add_choices-Step m baseline (choices decimals m) g g' refl h

    after-some :
        (o : Option (Gathered D)) (f : Gathered D → Option (Gathered D)) (g' : Gathered D)
        → after decimals o f ≡ some g'
        → (g : Gathered D) × ((o ≡ some g) × (f g ≡ some g'))
    after-some none f g' h = absurd (ground (arith, h))
    after-some (some g) f g' h = (g, (refl, h))

    gather-Step :
        (m : PortfolioKeyMenu D) (ms : List (PortfolioKeyMenu D)) (g g' : Gathered D)
        → gather decimals r (m ∷ ms) g ≡ some g'
        → (g₁ : Gathered D) × (Step m g g₁ × (gather decimals r ms g₁ ≡ some g'))
    unfolding gather
    gather-Step m ms g g' h =
        let (g₁, (e, k)) =
          after-some (add_menu decimals r m g (baseline_of decimals m.frontier.candidates))
            (gather decimals r ms) g' h in
        (g₁, (add_menu-Step m (baseline_of decimals m.frontier.candidates) g g₁ e, k))

    gather-nil : (g g' : Gathered D) → gather decimals r [] g ≡ some g' → g ≡ g'
    unfolding gather
    gather-nil g g' h = ground (arith, h)

    -- A key that is noted stays noted.
    gather-noted :
        (ms : List (PortfolioKeyMenu D)) (g g' : Gathered D)
        → gather decimals r ms g ≡ some g'
        → is_nil g.infeasible_keys ≡ false
        → is_nil g'.infeasible_keys ≡ false
    unfolding Step
    gather-noted [] g g' h k =
        subst (λ x. is_nil (Gathered.infeasible_keys x) ≡ false) (gather-nil g g' h) k
    gather-noted (m ∷ ms) g g' h k =
        let (g₁, (s, e)) = gather-Step m ms g g' h in
        gather-noted ms g₁ g' e
          (elim s [ inl (_, noted) ↦ noted | inr (_, (_, (_, (_, same)))) ↦ ap is_nil same ∙ k ])

    -- With a choice for each menu no key is noted, and the minimum is no more than its cost.
    gather-least :
        (ms : List (PortfolioKeyMenu D)) (g g' : Gathered D) (a : D) (x : Choice ms)
        → gather decimals r ms g ≡ some g'
        → le g.minimum_budget a ≡ true
        → (g'.infeasible_keys ≡ g.infeasible_keys)
          × (le g'.minimum_budget (cost_from a ms x) ≡ true)
    unfolding Step
    gather-least [] g g' a x h k = (
      ap Gathered.infeasible_keys (sym (gather-nil g g' h)),
      subst (λ y. le (Gathered.minimum_budget y) a ≡ true) (gather-nil g g' h) k,
    )
    gather-least (m ∷ ms) g g' a ((c, (i, o)), x) h k =
        let (g₁, (s, e)) = gather-Step m ms g g' h in
        let chosen = In-filter (eligible decimals m.mandatory_floors) c m.frontier.candidates i o in
        elim s [
          | inl (empty, _) ↦ absurd (subst (In c) empty chosen)
          | inr (d, (ds, (full, (least, same)))) ↦
              let (keys, bound) = gather-least ms g₁ g' (add a (cash decimals c)) x e (
                subst (λ y. le y (add a (cash decimals c)) ≡ true) (sym least)
                  (add_le_both decimals _ _ _ _ k (least_le d ds c (subst (In c) full chosen)))) in
              (keys ∙ same, bound)
        ]

    -- Where no key is noted, some choice costs the minimum.
    gather-attained :
        (ms : List (PortfolioKeyMenu D)) (g g' : Gathered D)
        → gather decimals r ms g ≡ some g'
        → is_nil g'.infeasible_keys ≡ true
        → (x : Choice ms) × (cost_from g.minimum_budget ms x ≡ g'.minimum_budget)
    unfolding Step
    gather-attained [] g g' h k = (tt, ap Gathered.minimum_budget (gather-nil g g' h))
    gather-attained (m ∷ ms) g g' h k =
        let (g₁, (s, e)) = gather-Step m ms g g' h in
        elim s [
          | inl (_, noted) ↦ absurd (ground (arith, gather-noted ms g₁ g' e noted, k))
          | inr (d, (ds, (full, (least, _)))) ↦
              let all_in : (y : C)
                  → In y (d ∷ ds)
                  → In y m.frontier.candidates × (eligible decimals m.mandatory_floors y ≡ true) =
                λ y i.
                  In-of-filter (eligible decimals m.mandatory_floors) y m.frontier.candidates
                    (subst (In y) (sym full) i) in
              let (c, (q, f)) =
                attained_from d ds
                  (λ y.
                    In y m.frontier.candidates × (eligible decimals m.mandatory_floors y ≡ true))
                  (all_in d (inl refl)) (λ y i. all_in y (inr i)) in
              let (x, total) = gather-attained ms g₁ g' e k in
              (
                ((c, q), x),
                ap (λ y. cost_from y ms x) (ap (add g.minimum_budget) f ∙ sym least) ∙ total,
              )
        ]

    preflight-clear :
        (g : Gathered D)
        → preflight decimals r.budget g ≡ none
        → (is_nil g.infeasible_keys ≡ true) × (le g.minimum_budget r.budget ≡ true)
    unfolding preflight
    preflight-clear g h = elim (Bool-cases (is_nil g.infeasible_keys)) [
      | inr noted ↦ absurd (ground (arith, noted, h))
      | inl free ↦ elim (Bool-cases (le g.minimum_budget r.budget)) [
        | inr poor ↦ absurd (ground (arith, free, poor, h))
        | inl enough ↦ (free, enough)
      ]
    ]

    -- When the loop over the menus raises nothing, the checks before the solver pass exactly if one
    -- eligible candidate per menu can be chosen within the budget: an infeasible verdict before the
    -- solver is never wrong, and none is missed.
    pub preflight-none_iff :
        (g : Gathered D)
        → gather decimals r r.menus (nothing_yet decimals) ≡ some g
        → (preflight decimals r.budget g ≡ none)
          ↔ ((x : Choice r.menus) × (le (cost_from zero_decimal r.menus x) r.budget ≡ true))
    unfolding preflight nothing_yet
    preflight-none_iff g h = (
      λ clear.
          let (free, enough) = preflight-clear g clear in
          let (x, total) = gather-attained r.menus (nothing_yet decimals) g h free in
          (x, subst (λ y. le y r.budget ≡ true) (sym total) enough),
      λ (x, fits).
          let (keys, bound) =
            gather-least r.menus (nothing_yet decimals) g zero_decimal x h (le_refl zero_decimal) in
          rw (ap is_nil keys, le_trans _ _ _ bound fits) refl,
    )
