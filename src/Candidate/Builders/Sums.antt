-- ===== src/Candidate/Builders/Sums.antt =====
-- The sums over valid action lines.
use aeronta_inventory.Base.{
  ◌≡◌, refl, sym, ap, ◌∙◌, Bool, true, not, List, [], ◌∷◌, All, arith, if◌then◌else◌,
}
use aeronta_inventory.Candidate.Decimals.{Decimals}
use aeronta_inventory.Candidate.Amounts.{sum_from, sum_from-nonneg}
use aeronta_inventory.Candidate.Amounts.Groups.{add_last}
use aeronta_inventory.Candidate.Types.{ActionKind, CandidateActionLine}
use aeronta_inventory.Candidate.Valid.{
  valid_action, acquisition_cash, buys, receives, releases, adjusts, idles, moved, committed,
}
use aeronta_inventory.Candidate.Reconcile.{quantity_of}

module _ (decimals : Decimals) where
  open decimals use {
    D, zero_decimal, le, eq, add, le_refl, eq_iff, add_comm, add_assoc, add_zero, mul_nonneg,
  }

  abbrev Line : Type 0
  Line = CandidateActionLine D

  abbrev pub IsValid : Line → Type 0
  IsValid a = valid_action decimals a ≡ true

  quantity-nonneg : (a : Line) → IsValid a → le zero_decimal a.quantity ≡ true
  unfolding valid_action
  quantity-nonneg a h = ground (arith, h)

  quantities-nonneg :
      (ls : List Line) → All IsValid ls → All (λ a. le zero_decimal a.quantity ≡ true) ls
  quantities-nonneg [] h = tt
  quantities-nonneg (a ∷ ls) (v, h) = (quantity-nonneg a v, quantities-nonneg ls h)

  cash-nonneg : (a : Line) → IsValid a → le zero_decimal (acquisition_cash decimals a) ≡ true
  unfolding valid_action
  cash-nonneg a h =
      mul_nonneg a.quantity a.unit_acquisition_cash (ground (arith, h)) (ground (arith, h))

  cashes-nonneg :
      (ls : List Line)
      → All IsValid ls
      → All (λ a. le zero_decimal (acquisition_cash decimals a) ≡ true) ls
  cashes-nonneg [] h = tt
  cashes-nonneg (a ∷ ls) (v, h) = (cash-nonneg a v, cashes-nonneg ls h)

  pub quantity_of-nonneg :
      (p : ActionKind → Bool) (ls : List Line)
      → All IsValid ls
      → le zero_decimal (quantity_of decimals p ls) ≡ true
  quantity_of-nonneg p ls h =
      sum_from-nonneg decimals zero_decimal (λ a. p a.kind) CandidateActionLine.quantity ls
        (le_refl zero_decimal) (quantities-nonneg ls h)

  pub committed-nonneg :
      (ls : List Line) → All IsValid ls → le zero_decimal (committed decimals ls) ≡ true
  committed-nonneg ls h =
      sum_from-nonneg decimals zero_decimal (λ a. true) (acquisition_cash decimals) ls
        (le_refl zero_decimal) (cashes-nonneg ls h)

  -- A line that changes nothing moves nothing.
  idle-quantity : (a : Line) → IsValid a → idles a.kind ≡ true → a.quantity ≡ zero_decimal
  unfolding valid_action
  idle-quantity a h e = (eq_iff a.quantity zero_decimal).0 (ground (arith, h, e))

  add_middle : (a b c : D) → add (add a b) c ≡ add (add a c) b
  add_middle a b c = add_assoc a b c ∙ (ap (add a) (add_comm b c) ∙ sym (add_assoc a c b))

  abbrev Split : D → D → D → D → Type 0
  Split n t p o = n ≡ add (add t p) o

  step :
      (k : ActionKind) (q n t p o : D)
      → (idles k ≡ true → q ≡ zero_decimal)
      → Split n t p o
      → Split
          (if not (adjusts k) then add n q else n)
          (if receives k then add t q else t)
          (if buys k then add p q else p)
          (if releases k then add o q else o)
  step ActionKind.no_change q n t p o z h = ap (add n) (z refl) ∙ (add_last decimals n ∙ h)
  step ActionKind.purchase q n t p o z h =
      ap (λ m. add m q) h ∙ (add_middle (add t p) o q ∙ ap (λ m. add m o) (add_assoc t p q))
  step ActionKind.transfer_in q n t p o z h =
      ap (λ m. add m q) h ∙ (add_middle (add t p) o q ∙ ap (λ m. add m o) (add_middle t p q))
  step ActionKind.transfer_out q n t p o z h = ap (λ m. add m q) h ∙ add_assoc (add t p) o q
  step ActionKind.adjust_policy q n t p o z h = h
  step ActionKind.reduce_stock q n t p o z h = ap (λ m. add m q) h ∙ add_assoc (add t p) o q
  step ActionKind.sell q n t p o z h = ap (λ m. add m q) h ∙ add_assoc (add t p) o q

  split_from :
      (ls : List Line) (n t p o : D)
      → All IsValid ls
      → Split n t p o
      → Split
          (sum_from decimals n (λ a. not (adjusts a.kind)) CandidateActionLine.quantity ls)
          (sum_from decimals t (λ a. receives a.kind) CandidateActionLine.quantity ls)
          (sum_from decimals p (λ a. buys a.kind) CandidateActionLine.quantity ls)
          (sum_from decimals o (λ a. releases a.kind) CandidateActionLine.quantity ls)
  unfolding sum_from
  split_from [] n t p o h e = e
  split_from (a ∷ ls) n t p o (v, h) e =
      split_from ls _ _ _ _ h (step a.kind a.quantity n t p o (idle-quantity a v) e)

  -- What valid lines move is what they receive, buy and release.
  pub moved-split :
      (ls : List Line)
      → All IsValid ls
      → moved decimals ls
        ≡ add
            (add (quantity_of decimals buys ls) (quantity_of decimals receives ls))
            (quantity_of decimals releases ls)
  moved-split ls h =
      split_from ls zero_decimal zero_decimal zero_decimal zero_decimal h
        (sym (add_last decimals (add zero_decimal zero_decimal) ∙ add_zero zero_decimal))
      ∙ ap (λ m. add m (quantity_of decimals releases ls))
          (add_comm (quantity_of decimals receives ls) (quantity_of decimals buys ls))
