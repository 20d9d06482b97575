-- ===== src/Candidate/Frontier/Cover.antt =====
-- The front of a menu: what `prune_dominated` keeps is what no feasible candidate of the menu
-- dominates, besides the exempt ones, and it dominates all that is removed.
use aeronta_inventory.Base.{
  ℕ, zero, suc, ◌+◌, ◌<◌, ◌≡◌, ◌⊎◌, refl, String, true, false, not, some, List, arith, inl, inr,
  Bool-cases, All, any, filter, count, length, map, sorted, text_le, ◌==◌, string_eq,
}
use aeronta_inventory.Base.Shuffle.{In, Apart, Shuffle, Shuffle-sym, sorted-is_Shuffle}
use aeronta_inventory.Base.Members.{
  any-In, any-of-In, In-filter, In-of-filter, In-Shuffle, length-Shuffle, Apart-unique, count-lt,
  length-filter-not, length-map,
}
use aeronta_inventory.Candidate.Decimals.{Decimals}
use aeronta_inventory.Candidate.Types.{PolicyCandidate}
use aeronta_inventory.Candidate.Frontier.{
  Candidate, Pruned, stable_le, better, is_exempt, prune_dominated,
}
use aeronta_inventory.Candidate.Frontier.Dominance.{better_irrefl, better_trans}
use aeronta_inventory.Candidate.Frontier.Front.{
  IsOf, OtherId, rival, keeps, front, prune_dominated-front,
}

module _ (decimals : Decimals) where
  abbrev C : Type 0
  C = Candidate decimals

  abbrev Dominated : List C → C → Type 0
  Dominated menu c =
      (o : C) × (In o menu × ((keeps decimals menu o ≡ true) × (better decimals o c ≡ true)))

  -- A removed candidate has a rival.
  rival-of_removed :
      (menu : List C) (c : C)
      → keeps decimals menu c ≡ false
      → (o : C) × (In o menu × (better decimals o c ≡ true))
  rival-of_removed menu c h =
      let (o, (m, e)) = any-In (rival decimals c) menu (ground (arith, h)) in
      (o, (m, ground (arith, e)))

  fewer_rivals :
      (menu : List C) (o c : C)
      → In o menu
      → better decimals o c ≡ true
      → count (λ x. better decimals x o) menu < count (λ x. better decimals x c) menu
  fewer_rivals menu o c m e =
      count-lt (λ x. better decimals x o) (λ x. better decimals x c) o menu
        (λ x k. better_trans decimals x o c k e) m (better_irrefl decimals o) e

  -- Above each removed candidate stands a kept one: each step up has fewer rivals.
  covered :
      (n : ℕ) (menu : List C) (c : C)
      → count (λ o. better decimals o c) menu < n
      → keeps decimals menu c ≡ false
      → Dominated menu c
  covered zero menu c bound h = absurd (omega arith)
  covered (suc n) menu c bound h =
      let (o, (m, e)) = rival-of_removed menu c h in
      elim (Bool-cases (keeps decimals menu o)) [
        | inl kept ↦ (o, (m, (kept, e)))
        | inr dropped ↦
            let (top, (k, (f, g))) =
              covered n menu o (omega (arith, fewer_rivals menu o c m e)) dropped in
            (top, (k, (f, better_trans decimals top o c g e)))
      ]

  -- What the optimizer may rely on: the retained candidates are those of the menu that are exempt
  -- or that no feasible candidate dominates, and every other candidate is dominated by one of them.
  pub record IsFront (menu : List C) (p : Pruned (Decimals.D decimals)) : Type 0 where
    pub sound :
        (c : C)
        → In c p.candidates
        → In c menu
          × ((is_exempt decimals c ≡ true) ⊎ ((o : C) → In o menu → better decimals o c ≡ false))
    pub complete :
        (c : C)
        → In c menu
        → (is_exempt decimals c ≡ true) ⊎ ((o : C) → In o menu → better decimals o c ≡ false)
        → In c p.candidates
    pub covering :
        (c : C)
        → In c menu
        → In c p.candidates ⊎ ((o : C) × (In o p.candidates × (better decimals o c ≡ true)))
    pub counted : length p.candidates + length p.removed_candidate_ids ≡ length menu

  pub kept-Shuffle :
      (menu : List C)
      → Shuffle
          (sorted stable_le (filter (keeps decimals menu) menu))
          (filter (keeps decimals menu) menu)
  kept-Shuffle menu = sorted-is_Shuffle stable_le (filter (keeps decimals menu) menu)

  better-same :
      (menu : List C) (o c : C)
      → Apart OtherId menu
      → In o menu
      → In c menu
      → o.candidate_id ≡ c.candidate_id
      → better decimals o c ≡ false
  better-same menu o c d m k e =
      rw (Apart-unique PolicyCandidate.candidate_id o c menu d m k e) (better_irrefl decimals c)

  rival-of_better :
      (o c : C)
      → (o.candidate_id == c.candidate_id) ≡ false
      → better decimals o c ≡ true
      → rival decimals c o ≡ true
  unfolding better
  rival-of_better o c h e = ground (arith, h, e)

  not_better :
      (menu : List C) (o c : C)
      → Apart OtherId menu
      → In o menu
      → In c menu
      → any (rival decimals c) menu ≡ false
      → better decimals o c ≡ false
  not_better menu o c d m k h = elim (Bool-cases (o.candidate_id == c.candidate_id)) [
    | inl same ↦
        better-same menu o c d m k ((string_eq.same_iff o.candidate_id c.candidate_id).0 same)
    | inr other ↦ elim (Bool-cases (better decimals o c)) [
      | inl e ↦
          absurd
            (ground (arith, h, any-of-In (rival decimals c) o menu m (rival-of_better o c other e)))
      | inr e ↦ e
    ]
  ]

  kept-cases :
      (menu : List C) (c : C)
      → Apart OtherId menu
      → In c menu
      → keeps decimals menu c ≡ true
      → (is_exempt decimals c ≡ true) ⊎ ((o : C) → In o menu → better decimals o c ≡ false)
  kept-cases menu c d m h = elim (Bool-cases (is_exempt decimals c)) [
    | inl e ↦ inl e
    | inr plain ↦ inr (λ o k. not_better menu o c d k m (ground (arith, plain, h)))
  ]

  kept-of :
      (menu : List C) (c : C)
      → (is_exempt decimals c ≡ true) ⊎ ((o : C) → In o menu → better decimals o c ≡ false)
      → keeps decimals menu c ≡ true
  kept-of menu c (inl e) = rw e refl
  kept-of menu c (inr h) = elim (Bool-cases (any (rival decimals c) menu)) [
    | inl hit ↦
        let (o, (m, e)) = any-In (rival decimals c) menu hit in absurd (ground (arith, e, h o m))
    | inr miss ↦ ground (arith, miss)
  ]

  In-front :
      (menu : List C) (c : C)
      → In c menu
      → keeps decimals menu c ≡ true
      → In c (front decimals menu).candidates
  In-front menu c m e =
      In-Shuffle c (Shuffle-sym (kept-Shuffle menu)) (In-filter (keeps decimals menu) c menu m e)

  pub counted_front :
      (menu : List C)
      → length (front decimals menu).candidates + length (front decimals menu).removed_candidate_ids
        ≡ length menu
  counted_front menu = omega (
    arith,
    length-Shuffle (kept-Shuffle menu),
    length-Shuffle (
        sorted-is_Shuffle text_le
          (map PolicyCandidate.candidate_id (filter (λ c. not (keeps decimals menu c)) menu))),
    length-map PolicyCandidate.candidate_id (filter (λ c. not (keeps decimals menu c)) menu),
    length-filter-not (keeps decimals menu) menu,
  )

  front-IsFront : (menu : List C) → Apart OtherId menu → IsFront menu (front decimals menu)
  front-IsFront menu d = record {
    sound = λ c m.
        let (k, e) =
          In-of-filter (keeps decimals menu) c menu (In-Shuffle c (kept-Shuffle menu) m) in
        (k, kept-cases menu c d k e);
    complete = λ c m h. In-front menu c m (kept-of menu c h);
    covering = λ c m. elim (Bool-cases (keeps decimals menu c)) [
      | inl kept ↦ inl (In-front menu c m kept)
      | inr dropped ↦
          let (o, (k, (e, f))) =
            covered (suc (count (λ o. better decimals o c) menu)) menu c (omega arith) dropped in
          inr (o, (In-front menu o k e, f))
    ];
    counted = counted_front menu;
  }

  -- On a menu of one decision and one currency with distinct ids, `prune_dominated` raises nothing
  -- and returns its front, whatever the order of the menu: the retained candidates are exactly those
  -- that are exempt or undominated, each removed one is dominated by a retained one, and the retained
  -- and the removed ones together are as many as the menu has.
  pub prune_dominated-IsFront :
      (key currency : String) (menu : List C)
      → All (IsOf key currency) menu
      → Apart OtherId menu
      → (p : Pruned (Decimals.D decimals)) × ((prune_dominated decimals menu ≡ some p)
          × IsFront menu p)
  prune_dominated-IsFront key currency menu h d = (
    front decimals menu,
    (prune_dominated-front decimals key currency menu h, front-IsFront menu d),
  )
