-- ===== src/Candidate/Transfers/Lines.antt =====
-- The lines of a transfer with a residual purchase.
use aeronta_inventory.Base.{
  ◌≡◌, refl, Bool, true, false, not, ◌&&◌, ◌||◌, List, [], ◌∷◌, ◌++◌, all, any, map, ◌==◌,
  string_eq, arith, inl, inr, Bool-cases, if◌then◌else◌,
}
use aeronta_inventory.Base.Sort.{place, sorted}
use aeronta_inventory.Candidate.Decimals.{Decimals}
use aeronta_inventory.Candidate.Amounts.{sum_from, eq_refl}
use aeronta_inventory.Candidate.Types.{CandidateActionLine}
use aeronta_inventory.Candidate.Planner.{unique, is_nil}
use aeronta_inventory.Candidate.Valid.{valid_action, buys, receives, releases, idles, fits}
use aeronta_inventory.Candidate.Reconcile.{Request, quantity_of, sorted_actions}
use aeronta_inventory.Candidate.Transfers.{
  TransferTerms, positive, finalized_transfer, purchase_quantity, transfer_line, purchase_line,
  lines_of, kind_of,
}

module _ (decimals : Decimals) where
  open decimals use {D, zero_decimal, le, add, le_refl, le_total, add_zero, add_comm}

  module _ (r : Request D) (t : TransferTerms D) where
    -- The lines that two tests choose.
    abbrev pub chosen : Bool → Bool → List (CandidateActionLine D)
    chosen b c =
        (if b then transfer_line decimals r t ∷ [] else [])
        ++ (if c then purchase_line decimals r t ∷ [] else [])

    -- A quantity that a test may leave out.
    abbrev pub part : Bool → D → D
    part b a = if b then add zero_decimal a else zero_decimal

    pub bought :
        (b c : Bool)
        → quantity_of decimals buys (sorted_actions (chosen b c))
          ≡ part c (purchase_quantity decimals r t)
    unfolding sorted_actions sorted place sum_from
    bought true true = refl
    bought true false = refl
    bought false true = refl
    bought false false = refl

    pub received :
        (b c : Bool)
        → quantity_of decimals receives (sorted_actions (chosen b c))
          ≡ part b (finalized_transfer decimals r t)
    unfolding sorted_actions sorted place sum_from
    received true true = refl
    received true false = refl
    received false true = refl
    received false false = refl

    pub released :
        (b c : Bool) → quantity_of decimals releases (sorted_actions (chosen b c)) ≡ zero_decimal
    unfolding sorted_actions sorted place sum_from
    released true true = refl
    released true false = refl
    released false true = refl
    released false false = refl

    pub part-covers : (a : D) → le a (part (positive decimals a) a) ≡ true
    part-covers a = elim (Bool-cases (le a zero_decimal)) [
      | inl none_of ↦ rw none_of none_of
      | inr some_of ↦ rw (some_of, add_zero a) (le_refl a)
    ]

    pub chosen-fits :
        (b c : Bool)
        → (b || c) ≡ true
        → (not (any (λ a. idles a.kind) (chosen b c))
            && fits decimals (kind_of decimals b c) (chosen b c))
          ≡ true
    chosen-fits true true h = refl
    chosen-fits true false h = refl
    chosen-fits false true h = refl
    chosen-fits false false h = absurd (ground (arith, h))

    pub chosen-ids : (b c : Bool) → unique (map CandidateActionLine.line_id (chosen b c)) ≡ true
    chosen-ids true true = refl
    chosen-ids true false = refl
    chosen-ids false true = refl
    chosen-ids false false = refl

    pub chosen-currency :
        (b c : Bool)
        → all (λ a. a.currency == r.economics.currency) (sorted_actions (chosen b c)) ≡ true
    unfolding sorted_actions sorted place
    chosen-currency true true =
        ground (arith, (string_eq.same_iff r.economics.currency r.economics.currency).1 refl)
    chosen-currency true false =
        ground (arith, (string_eq.same_iff r.economics.currency r.economics.currency).1 refl)
    chosen-currency false true =
        ground (arith, (string_eq.same_iff r.economics.currency r.economics.currency).1 refl)
    chosen-currency false false = refl

    pub some_lines : (b c : Bool) → is_nil (chosen b c) ≡ not (b || c)
    some_lines true true = refl
    some_lines true false = refl
    some_lines false true = refl
    some_lines false false = refl

    transfer-valid :
        positive decimals (finalized_transfer decimals r t) ≡ true
        → valid_action decimals (transfer_line decimals r t) ≡ true
    unfolding valid_action
    transfer-valid h = ground (
      arith,
      h,
      le_total zero_decimal (finalized_transfer decimals r t),
      le_refl zero_decimal,
      eq_refl decimals zero_decimal,
    )

    purchase-valid :
        le zero_decimal t.purchase_unit_cost ≡ true
        → positive decimals (purchase_quantity decimals r t) ≡ true
        → valid_action decimals (purchase_line decimals r t) ≡ true
    unfolding valid_action
    purchase-valid k h =
        ground (arith, h, k, le_total zero_decimal (purchase_quantity decimals r t))

    chosen-valid :
        (b c : Bool)
        → (b ≡ true → valid_action decimals (transfer_line decimals r t) ≡ true)
        → (c ≡ true → valid_action decimals (purchase_line decimals r t) ≡ true)
        → all (valid_action decimals) (chosen b c) ≡ true
    chosen-valid true true h k = ground (arith, h refl, k refl)
    chosen-valid true false h k = ground (arith, h refl)
    chosen-valid false true h k = ground (arith, k refl)
    chosen-valid false false h k = refl

    pub lines_of-valid :
        le zero_decimal t.purchase_unit_cost ≡ true
        → all (valid_action decimals) (lines_of decimals r t) ≡ true
    unfolding lines_of
    lines_of-valid k = chosen-valid _ _ transfer-valid (purchase-valid k)
