-- ===== src/Candidate/Frontier/Dominance.antt =====
-- Dominance is a strict partial order.
use aeronta_inventory.Base.{◌≡◌, refl, true, false, List, [], ◌∷◌, arith}
use aeronta_inventory.Candidate.Decimals.{Decimals}
use aeronta_inventory.Candidate.Frontier.{
  Candidate, minimized, maximized, all_le, any_lt, no_worse, strictly_better, better,
}

module _ (decimals : Decimals) where
  open decimals use {D, le, le_refl, le_trans}

  all_le_trans :
      (xs ys zs : List D)
      → all_le decimals xs ys ≡ true
      → all_le decimals ys zs ≡ true
      → all_le decimals xs zs ≡ true
  unfolding all_le
  all_le_trans [] [] zs h k = k
  all_le_trans [] (y ∷ ys) zs h k = absurd (ground arith)
  all_le_trans (x ∷ xs) [] zs h k = absurd (ground arith)
  all_le_trans (x ∷ xs) (y ∷ ys) [] h k = absurd (ground arith)
  all_le_trans (x ∷ xs) (y ∷ ys) (z ∷ zs) h k =
      ground (arith, le_trans x y z, all_le_trans xs ys zs)

  any_lt_irrefl : (xs : List D) → any_lt decimals xs xs ≡ false
  unfolding any_lt
  any_lt_irrefl [] = refl
  any_lt_irrefl (x ∷ xs) = ground (arith, le_refl x, any_lt_irrefl xs)

  any_lt-of-lt_le :
      (xs ys zs : List D)
      → any_lt decimals xs ys ≡ true
      → all_le decimals ys zs ≡ true
      → any_lt decimals xs zs ≡ true
  unfolding any_lt all_le
  any_lt-of-lt_le [] ys zs h k = absurd (ground arith)
  any_lt-of-lt_le (x ∷ xs) [] zs h k = absurd (ground arith)
  any_lt-of-lt_le (x ∷ xs) (y ∷ ys) [] h k = absurd (ground arith)
  any_lt-of-lt_le (x ∷ xs) (y ∷ ys) (z ∷ zs) h k =
      ground (arith, le_trans y z x, any_lt-of-lt_le xs ys zs)

  any_lt-of-le_lt :
      (xs ys zs : List D)
      → all_le decimals xs ys ≡ true
      → any_lt decimals ys zs ≡ true
      → any_lt decimals xs zs ≡ true
  unfolding any_lt all_le
  any_lt-of-le_lt [] [] zs h k = absurd (ground arith)
  any_lt-of-le_lt [] (y ∷ ys) zs h k = absurd (ground arith)
  any_lt-of-le_lt (x ∷ xs) [] zs h k = absurd (ground arith)
  any_lt-of-le_lt (x ∷ xs) (y ∷ ys) [] h k = absurd (ground arith)
  any_lt-of-le_lt (x ∷ xs) (y ∷ ys) (z ∷ zs) h k =
      ground (arith, le_trans z x y, any_lt-of-le_lt xs ys zs)

  -- Of two comparable candidates at most one dominates the other, and none itself.
  pub better_irrefl : (c : Candidate decimals) → better decimals c c ≡ false
  unfolding better strictly_better
  better_irrefl c =
      ground (arith, any_lt_irrefl (minimized decimals c), any_lt_irrefl (maximized decimals c))

  pub better_trans :
      (a b c : Candidate decimals)
      → better decimals a b ≡ true
      → better decimals b c ≡ true
      → better decimals a c ≡ true
  unfolding better strictly_better no_worse
  better_trans a b c h k =
      let ma = minimized decimals a in
      let mb = minimized decimals b in
      let mc = minimized decimals c in
      let xa = maximized decimals a in
      let xb = maximized decimals b in
      let xc = maximized decimals c in
      ground (
        arith,
        all_le_trans ma mb mc,
        all_le_trans xc xb xa,
        any_lt-of-lt_le ma mb mc,
        any_lt-of-le_lt xc xb xa,
        any_lt-of-le_lt ma mb mc,
        any_lt-of-lt_le xc xb xa,
      )
