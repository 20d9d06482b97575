-- ===== src/Portfolio/Selected.antt =====
-- A completed portfolio: what is selected, and what it costs.
use mathlib.Core.Path.{subst}
use aeronta_inventory.Base.{
  ◌≡◌, refl, ◌∙◌, Bool, true, Option, none, some, List, [], ◌∷◌, All, map, length, count, sorted,
  arith, inl, inr, Bool-cases, nat_beq, nat_beq_iff, nat_eq,
}
use aeronta_inventory.Base.Sort.{All-sorted, All-append}
use aeronta_inventory.Base.Shuffle.{In, sorted-is_Shuffle}
use aeronta_inventory.Base.Members.{All-of-In, In-of-filter, length-Shuffle, length-map}
use aeronta_inventory.Base.Dict.{lookup}
use aeronta_inventory.Candidate.Decimals.{Decimals}
use aeronta_inventory.Candidate.Amounts.{larger, larger_left, larger_right}
use aeronta_inventory.Candidate.Amounts.Groups.{add_sub}
use aeronta_inventory.Candidate.{PolicyCandidate}
use aeronta_inventory.Candidate.Planner.{unique, is_nil}
use aeronta_inventory.Portfolio.{
  PortfolioKeyMenu, PortfolioSolveRequest, Variable, Gathered, PortfolioSelection, PortfolioSummary,
  Outcome, Incumbent, eligible, cash, baseline_of, choices, id_le, variable,
}
use aeronta_inventory.Portfolio.Solve.{
  add_menu, add_choices, extend, after, gather, nothing_yet, preflight, selection, key_le, total_of,
  greatest_from, greatest, summary_of, valid_selections, finish, picked, conclude, run,
  solve_gathered, solve,
}

module _ (decimals : Decimals) where
  open decimals use {D, le, le_refl, le_trans, add}

  abbrev C : Type 0
  C = PolicyCandidate D

  -- A variable stands for an eligible candidate of one of the menus.
  pub record IsChoice (menus : List (PortfolioKeyMenu D)) (v : Variable D) : Type 0 where
    pub menu_in : In v.menu menus
    pub candidate_in : In v.candidate v.menu.frontier.candidates
    pub is_eligible : eligible decimals v.menu.mandatory_floors v.candidate ≡ true
    pub spend_eq : v.spend ≡ cash decimals v.candidate

  -- A selection is of an eligible candidate of one of the menus.
  pub record IsSelection (menus : List (PortfolioKeyMenu D)) (s : PortfolioSelection D)
      : Type 0 where
    pub menu : PortfolioKeyMenu D
    pub candidate : C
    pub menu_in : In menu menus
    pub candidate_in : In candidate menu.frontier.candidates
    pub is_eligible : eligible decimals menu.mandatory_floors candidate ≡ true
    pub key_eq : s.decision_key ≡ menu.frontier.decision_key
    pub id_eq : s.selected_candidate_id ≡ candidate.candidate_id
    pub cash_eq : s.acquisition_cash ≡ cash decimals candidate

  selection-IsSelection :
      (menus : List (PortfolioKeyMenu D)) (v : Variable D)
      → IsChoice menus v
      → IsSelection menus (selection decimals v)
  selection-IsSelection menus v h = record {
    menu = v.menu;
    candidate = v.candidate;
    menu_in = h.menu_in;
    candidate_in = h.candidate_in;
    is_eligible = h.is_eligible;
    key_eq = refl;
    id_eq = refl;
    cash_eq = h.spend_eq;
  }

  All-map :
      {A B : Type 0} (P : A → Type 0) (Q : B → Type 0) (f : A → B)
      → ((x : A) → P x → Q (f x))
      → (xs : List A) → All P xs
      → All Q (map f xs)
  All-map P Q f g [] h = tt
  All-map P Q f g (x ∷ xs) (p, h) = (g x p, All-map P Q f g xs h)

  abbrev Below : D → List (PortfolioSelection D) → Type 0
  Below a ss = All (λ s. le s.expected_aog_risk a ≡ true) ss

  greatest_from-le :
      (a : D) (ss : List (PortfolioSelection D)) → le a (greatest_from decimals a ss) ≡ true
  greatest_from-le a [] = le_refl a
  greatest_from-le a (s ∷ ss) =
      le_trans a (larger decimals a s.expected_aog_risk)
        (greatest_from decimals (larger decimals a s.expected_aog_risk) ss)
        (larger_left decimals a s.expected_aog_risk)
        (greatest_from-le (larger decimals a s.expected_aog_risk) ss)

  Below-greatest_from :
      (a : D) (ss : List (PortfolioSelection D)) → Below (greatest_from decimals a ss) ss
  Below-greatest_from a [] = tt
  Below-greatest_from a (s ∷ ss) =
      let b = larger decimals a s.expected_aog_risk in
      (
        le_trans s.expected_aog_risk b (greatest_from decimals b ss)
            (larger_right decimals a s.expected_aog_risk) (greatest_from-le b ss),
        Below-greatest_from b ss,
      )

  Below-greatest : (ss : List (PortfolioSelection D)) → Below (greatest decimals ss) ss
  Below-greatest [] = tt
  Below-greatest (s ∷ ss) =
      (greatest_from-le s.expected_aog_risk ss, Below-greatest_from s.expected_aog_risk ss)

  module _ (r : PortfolioSolveRequest D) where
    Choices : Gathered D → Type 0
    Choices g = All (IsChoice r.menus) g.variables

    abbrev ChoicesOf : Option (Gathered D) → Type 0
    ChoicesOf none = Unit
    ChoicesOf (some g) = Choices g

    extend-Choices :
        (m : PortfolioKeyMenu D) (baseline c : C) (cs : List C) (w : D) (g : Gathered D)
        → In m r.menus
        → choices decimals m ≡ c ∷ cs
        → Choices g
        → Choices (extend decimals r m baseline c cs w g)
    unfolding Choices
    extend-Choices m baseline c cs w g k e h =
        All-append (IsChoice r.menus) g.variables
          (map (variable decimals r m w baseline) (sorted (id_le decimals) (c ∷ cs))) h
          (All-map
            (λ x. In x m.frontier.candidates × (eligible decimals m.mandatory_floors x ≡ true))
            (IsChoice r.menus) (variable decimals r m w baseline)
            (λ x (i, o). record { menu_in = k; candidate_in = i; is_eligible = o; spend_eq = refl })
            (sorted (id_le decimals) (c ∷ cs))
            (All-sorted (id_le decimals)
              (λ x. In x m.frontier.candidates × (eligible decimals m.mandatory_floors x ≡ true))
              (c ∷ cs)
              (subst
                (All (λ x.
                  In x m.frontier.candidates × (eligible decimals m.mandatory_floors x ≡ true)))
                e
                (All-of-In
                  (λ x.
                    In x m.frontier.candidates × (eligible decimals m.mandatory_floors x ≡ true))
                  (choices decimals m)
                  (λ x.
                    In-of-filter (eligible decimals m.mandatory_floors) x m.frontier.candidates)))))

    add_choices-Choices :
        (m : PortfolioKeyMenu D) (baseline : C) (cs : List C) (g : Gathered D)
        → In m r.menus
        → choices decimals m ≡ cs
        → Choices g
        → ChoicesOf (add_choices decimals r m baseline cs g)
    unfolding Choices
    add_choices-Choices m baseline [] g k e h = h
    add_choices-Choices m baseline (c ∷ cs) g k e h =
        elim (lookup m.criticality_tier r.objective_weights.criticality_weights)
          as (λ o.
            ChoicesOf
              (elim o [ none ↦ none | some w ↦ some (extend decimals r m baseline c cs w g) ])) [
                | none ↦ tt
                | some w ↦ extend-Choices m baseline c cs w g k e h
              ]

    add_menu-Choices :
        (m : PortfolioKeyMenu D) (g : Gathered D) (baseline : Option C)
        → In m r.menus
        → Choices g
        → ChoicesOf (add_menu decimals r m g baseline)
    add_menu-Choices m g none k h = tt
    add_menu-Choices m g (some baseline) k h =
        add_choices-Choices m baseline (choices decimals m) g k refl h

    gather-Choices :
        (ms : List (PortfolioKeyMenu D)) (g : Gathered D)
        → ((m : PortfolioKeyMenu D) → In m ms → In m r.menus)
        → Choices g
        → ChoicesOf (gather decimals r ms g)
    unfolding gather
    gather-Choices [] g k h = h
    gather-Choices (m ∷ ms) g k h =
        elim (add_menu decimals r m g (baseline_of decimals m.frontier.candidates))
            as (λ o. ChoicesOf o → ChoicesOf (after decimals o (gather decimals r ms))) [
              | none ↦ λ c. tt
              | some g' ↦ λ c. gather-Choices ms g' (λ x i. k x (inr i)) c
            ]
          (add_menu-Choices m g (baseline_of decimals m.frontier.candidates) (k m (inl refl)) h)

    -- What `solve` promises of a completed portfolio.
    pub record IsLawful (ss : List (PortfolioSelection D)) (summary : PortfolioSummary D)
        : Type 0 where
      pub eligible_choices : All (IsSelection r.menus) ss
      pub one_per_key : unique (map PortfolioSelection.decision_key ss) ≡ true
      pub all_keys : length ss ≡ length r.menus
      pub within_budget :
          le (total_of decimals PortfolioSelection.acquisition_cash ss) r.budget ≡ true
      pub summarized : summary ≡ summary_of decimals r ss
      pub currency_eq : summary.currency ≡ r.currency
      pub budget_eq : summary.budget ≡ r.budget
      pub cash_sum :
          summary.selected_acquisition_cash
          ≡ total_of decimals PortfolioSelection.acquisition_cash ss
      pub slack : add summary.selected_acquisition_cash summary.budget_slack ≡ r.budget
      pub key_count : summary.selected_key_count ≡ length r.menus
      pub no_change_count :
          summary.no_change_key_count ≡ count PortfolioSelection.selected_is_no_change ss
      pub objective_sum : summary.selected_objective ≡ total_of decimals (λ s. s.objective.total) ss
      pub shortage_sum :
          summary.expected_shortage ≡ total_of decimals PortfolioSelection.expected_shortage ss
      pub highest_risk : All (λ s. le s.expected_aog_risk summary.maximum_aog_risk ≡ true) ss

    summed :
        (ss : List (PortfolioSelection D))
        → All (IsSelection r.menus) ss
        → length ss ≡ length r.menus
        → le (total_of decimals PortfolioSelection.acquisition_cash ss) r.budget ≡ true
        → unique (map PortfolioSelection.decision_key ss) ≡ true
        → IsLawful ss (summary_of decimals r ss)
    unfolding summary_of
    summed ss h n fits apart = record {
      eligible_choices = h;
      one_per_key = apart;
      all_keys = n;
      within_budget = fits;
      summarized = refl;
      currency_eq = refl;
      budget_eq = refl;
      cash_sum = refl;
      slack = add_sub decimals r.budget (total_of decimals PortfolioSelection.acquisition_cash ss);
      key_count = n;
      no_change_count = refl;
      objective_sum = refl;
      shortage_sum = refl;
      highest_risk = Below-greatest ss;
    }

    abbrev LawfulOutcome : Outcome D → Type 0
    LawfulOutcome (Outcome.completed ss summary) = IsLawful ss summary
    LawfulOutcome (Outcome.infeasible a b keys floors) = Unit
    LawfulOutcome Outcome.failed = Unit

    abbrev Lawful : Option (Outcome D) → Type 0
    Lawful none = Unit
    Lawful (some o) = LawfulOutcome o

    finish-Lawful :
        (ss : List (PortfolioSelection D))
        → All (IsSelection r.menus) ss
        → length ss ≡ length r.menus
        → Lawful (finish decimals r ss)
    unfolding finish valid_selections
    finish-Lawful ss h n =
        elim (Bool-cases (le (total_of decimals PortfolioSelection.acquisition_cash ss) r.budget)) [
          | inr over ↦ rw over tt
          | inl fits ↦ elim (Bool-cases (valid_selections decimals ss)) [
            | inr invalid ↦ rw (fits, invalid) tt
            | inl valid ↦ rw (fits, valid) (summed ss h n fits (ground (arith, valid)))
          ]
        ]

    preflight-Lawful : (g : Gathered D) → Lawful (preflight decimals r.budget g)
    unfolding preflight
    preflight-Lawful g = elim (Bool-cases (is_nil g.infeasible_keys)) [
      | inr stuck ↦ rw stuck tt
      | inl open_keys ↦ elim (Bool-cases (le g.minimum_budget r.budget)) [
        | inr poor ↦ rw (open_keys, poor) tt
        | inl enough ↦ rw (open_keys, enough) tt
      ]
    ]

    module _ {V : Type 0} (search : D → List (Variable D) → Incumbent V)
        (within : D → List (Variable D) → List V → Bool) (chosen : V → Bool) where
      picked-All :
          (P : Variable D → Type 0) (vs : List (Variable D)) (xs : List V)
          → All P vs
          → All P (picked decimals search within chosen vs xs)
      unfolding picked
      picked-All P [] xs h = tt
      picked-All P (v ∷ vs) [] h = tt
      picked-All P (v ∷ vs) (x ∷ xs) (p, h) = elim (Bool-cases (chosen x)) [
        | inl hit ↦ rw hit (p, picked-All P vs xs h)
        | inr miss ↦ rw miss (picked-All P vs xs h)
      ]

      conclude-Lawful :
          (g : Gathered D) (i : Incumbent V)
          → Choices g
          → Lawful (conclude decimals search within chosen r g i)
      unfolding conclude Choices
      conclude-Lawful g Incumbent.none_exists h = tt
      conclude-Lawful g Incumbent.gave_up h = tt
      conclude-Lawful g (Incumbent.found xs) h =
          let vs = picked decimals search within chosen g.variables xs in
          elim (Bool-cases (within r.budget g.variables xs)) [
            | inr outside ↦ rw outside tt
            | inl inside ↦ elim (Bool-cases (nat_beq (length vs) (length r.menus))) [
              | inr uneven ↦ rw (inside, uneven) tt
              | inl even ↦
                  rw (inside, even)
                    (finish-Lawful (map (selection decimals) (sorted (key_le decimals) vs))
                      (All-map (IsChoice r.menus) (IsSelection r.menus) (selection decimals)
                        (selection-IsSelection r.menus) (sorted (key_le decimals) vs)
                        (All-sorted (key_le decimals) (IsChoice r.menus) vs
                          (picked-All (IsChoice r.menus) g.variables xs h)))
                      (length-map (selection decimals) (sorted (key_le decimals) vs)
                        ∙ (length-Shuffle (sorted-is_Shuffle (key_le decimals) vs)
                            ∙ (nat_beq_iff (length vs) (length r.menus)).0 even)))
            ]
          ]

      run-Lawful :
          (g : Gathered D) (o : Option (Outcome D))
          → Choices g
          → Lawful o
          → Lawful (run decimals search within chosen r g o)
      run-Lawful g none h k = conclude-Lawful g (search r.budget g.variables) h
      run-Lawful g (some o) h k = k

      gathered-Lawful :
          (o : Option (Gathered D))
          → ChoicesOf o
          → Lawful (solve_gathered decimals search within chosen r o)
      gathered-Lawful none h = tt
      gathered-Lawful (some g) h =
          run-Lawful g (preflight decimals r.budget g) h (preflight-Lawful g)

      -- Whatever the solver returns, a completed portfolio has one selection for each menu and no two
      -- for one key, each of a candidate of its menu that is feasible and meets its mandatory floors,
      -- spends at most the budget in exact decimals, and is what its summary sums up: the summary has the
      -- request's currency and budget, one key for each menu, the sums of cash, objective and shortage,
      -- the number of unchanged keys and a risk that no selection exceeds; cash and slack make the
      -- budget.
      pub solve-IsLawful :
          (ss : List (PortfolioSelection D)) (summary : PortfolioSummary D)
          → solve decimals search within chosen r ≡ some (Outcome.completed ss summary)
          → IsLawful ss summary
      unfolding solve nothing_yet Choices
      solve-IsLawful ss summary h = subst Lawful h (
          gathered-Lawful (gather decimals r r.menus (nothing_yet decimals))
            (gather-Choices r.menus (nothing_yet decimals) (λ m i. i) tt))
