-- ===== src/Candidate/Frontier/Unordered.antt =====
-- The result of `prune_dominated` does not depend on the order of the menu.
use aeronta_inventory.Base.{
  ◌≡◌, ◌⊎◌, refl, sym, ap, ◌∙◌, String, Bool, true, not, some, List, arith, All, filter, map,
  sorted, text_le,
}
use aeronta_inventory.Base.Order.{text_le_total, text_le_trans, text_le_antisymm}
use aeronta_inventory.Base.Shuffle.{
  Apart, Shuffle, NotTied, sorted-Shuffle, any-Shuffle, filter-Shuffle, map-Shuffle, All-Shuffle,
  Apart-imp, Apart-map,
}
use aeronta_inventory.Base.Members.{Apart-filter, filter-ext}
use aeronta_inventory.Candidate.Decimals.{Decimals}
use aeronta_inventory.Candidate.Types.{PolicyCandidate}
use aeronta_inventory.Candidate.Frontier.{Candidate, stable_le, prune_dominated}
use aeronta_inventory.Candidate.Frontier.Front.{
  IsOf, OtherId, rival, keeps, front, prune_dominated-front,
}

module _ (decimals : Decimals) where
  abbrev C : Type 0
  C = Candidate decimals

  pub stable_le_total : (a b : C) → (stable_le a b ≡ true) ⊎ (stable_le b a ≡ true)
  stable_le_total a b = ground (arith, text_le_total a.candidate_id b.candidate_id)

  pub stable_le_trans :
      (a b c : C) → stable_le a b ≡ true → stable_le b c ≡ true → stable_le a c ≡ true
  stable_le_trans a b c h k =
      ground (arith, text_le_trans a.candidate_id b.candidate_id c.candidate_id)

  NotTied-of_OtherId : (a b : C) → OtherId a b → NotTied stable_le a b
  NotTied-of_OtherId a b h k l =
      h (text_le_antisymm a.candidate_id b.candidate_id (ground arith) (ground arith))

  keeps-Shuffle : {m n : List C} → Shuffle m n → (c : C) → keeps decimals m c ≡ keeps decimals n c
  keeps-Shuffle s c = rw (any-Shuffle (rival decimals c) s) refl

  module _ (m n : List C) (s : Shuffle m n) (d : Apart OtherId m) where
    kept-Shuffle :
        sorted stable_le (filter (keeps decimals m) m)
        ≡ sorted stable_le (filter (keeps decimals n) n)
    kept-Shuffle =
        sorted-Shuffle stable_le stable_le_total stable_le_trans
          (filter-Shuffle (keeps decimals m) s)
          (Apart-filter (NotTied stable_le) (keeps decimals m) m
            (Apart-imp OtherId (NotTied stable_le) NotTied-of_OtherId m d))
        ∙ ap (sorted stable_le)
            (filter-ext (keeps decimals m) (keeps decimals n) n (keeps-Shuffle s))

    abbrev drops : List C → C → Bool
    drops menu c = not (keeps decimals menu c)

    removed-Shuffle :
        sorted text_le (map PolicyCandidate.candidate_id (filter (drops m) m))
        ≡ sorted text_le (map PolicyCandidate.candidate_id (filter (drops n) n))
    removed-Shuffle =
        sorted-Shuffle text_le text_le_total text_le_trans
          (map-Shuffle PolicyCandidate.candidate_id (filter-Shuffle (drops m) s))
          (Apart-map (NotTied text_le) PolicyCandidate.candidate_id (filter (drops m) m) (
            Apart-filter (λ a b. NotTied text_le a.candidate_id b.candidate_id) (drops m) m
              (Apart-imp OtherId (λ a b. NotTied text_le a.candidate_id b.candidate_id)
                (λ a b h k l. h (text_le_antisymm a.candidate_id b.candidate_id k l)) m d)))
        ∙ ap (λ l. sorted text_le (map PolicyCandidate.candidate_id l))
            (filter-ext (drops m) (drops n) n (λ c. ap not (keeps-Shuffle s c)))

    front-Shuffle : front decimals m ≡ front decimals n
    front-Shuffle = rw (kept-Shuffle, removed-Shuffle) refl

  -- A menu in another order, of one decision and one currency with distinct ids, gives the same
  -- retained candidates and the same removed ids, in the same order.
  pub prune_dominated-Shuffle :
      (key currency : String) (m n : List C)
      → All (IsOf key currency) m
      → Apart OtherId m
      → Shuffle m n
      → prune_dominated decimals m ≡ prune_dominated decimals n
  prune_dominated-Shuffle key currency m n h d s =
      prune_dominated-front decimals key currency m h
      ∙ (ap some (front-Shuffle m n s d)
          ∙ sym
              (prune_dominated-front decimals key currency n (All-Shuffle (IsOf key currency) s h)))
