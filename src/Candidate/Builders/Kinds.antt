-- ===== src/Candidate/Builders/Kinds.antt =====
-- The kind of a candidate does not depend on the order of its lines, and an idle line moves nothing.
use aeronta_inventory.Base.{
  ◌≡◌, refl, ◌∙◌, Bool, true, false, not, ◌&&◌, ◌||◌, List, [], ◌∷◌, All, all, any, arith,
  if◌then◌else◌,
}
use aeronta_inventory.Base.Sort.{place, sorted}
use aeronta_inventory.Base.Shuffle.{Shuffle, any-Shuffle, sorted-is_Shuffle}
use aeronta_inventory.Candidate.Decimals.{Decimals}
use aeronta_inventory.Candidate.Amounts.{sum_from}
use aeronta_inventory.Candidate.Types.{ActionKind, CandidateKind, CandidateActionLine}
use aeronta_inventory.Candidate.Valid.{
  adjusts, idles, same_kind, same_levels, valid_action, moved, committed, moves_exactly, fits,
  baseline, only_idle,
}
use aeronta_inventory.Candidate.Reconcile.{Request, sorted_actions, action_le}

all-Shuffle : {A : Type 0} (p : A → Bool) {xs ys : List A} → Shuffle xs ys → all p xs ≡ all p ys
all-Shuffle p Shuffle.nil = refl
all-Shuffle p (Shuffle.cons x s) = ground (arith, all-Shuffle p s)
all-Shuffle p (Shuffle.swap x y xs) = ground arith
all-Shuffle p (Shuffle.trans s t) = all-Shuffle p s ∙ all-Shuffle p t

idles-adjusts : (k : ActionKind) → idles k ≡ true → adjusts k ≡ false
idles-adjusts ActionKind.no_change h = refl
idles-adjusts ActionKind.purchase h = refl
idles-adjusts ActionKind.transfer_in h = refl
idles-adjusts ActionKind.transfer_out h = refl
idles-adjusts ActionKind.adjust_policy h = absurd (ground (arith, h))
idles-adjusts ActionKind.reduce_stock h = refl
idles-adjusts ActionKind.sell h = refl

module _ (decimals : Decimals) where
  open decimals use {D, zero_decimal, eq, eq_iff, add_zero, mul_zero}

  abbrev Line : Type 0
  Line = CandidateActionLine D

  -- The lines of a request fit its kind: one idle line and the current levels for no change, else
  -- no idle line and the movements of the kind.
  abbrev pub lines_fit : Request D → Bool
  lines_fit r =
      if r.is_no_change
      then baseline decimals r.candidate_kind
        && (same_levels r.current_levels r.target_levels && only_idle decimals r.actions)
      else (not (any (λ a. idles a.kind) r.actions) && fits decimals r.candidate_kind r.actions)

  every-Shuffle :
      (ks : List ActionKind) {xs ys : List Line}
      → Shuffle xs ys
      → all (λ k. any (λ a. same_kind a.kind k) xs) ks
        ≡ all (λ k. any (λ a. same_kind a.kind k) ys) ks
  every-Shuffle [] s = refl
  every-Shuffle (k ∷ ks) s =
      ground (arith, any-Shuffle (λ a. same_kind a.kind k) s, every-Shuffle ks s)

  moves-Shuffle :
      (ks : List ActionKind) {xs ys : List Line}
      → Shuffle xs ys
      → moves_exactly decimals ks xs ≡ moves_exactly decimals ks ys
  moves-Shuffle ks s =
      ground (
        arith,
        every-Shuffle ks s,
        all-Shuffle (λ a. adjusts a.kind || any (same_kind a.kind) ks) s,
      )

  fits-Shuffle :
      (k : CandidateKind) {xs ys : List Line}
      → Shuffle xs ys
      → fits decimals k xs ≡ fits decimals k ys
  fits-Shuffle CandidateKind.no_change s = refl
  fits-Shuffle CandidateKind.purchase s = moves-Shuffle (ActionKind.purchase ∷ []) s
  fits-Shuffle CandidateKind.transfer s =
      rw
        (
          moves-Shuffle (ActionKind.transfer_in ∷ []) s,
          moves-Shuffle (ActionKind.transfer_out ∷ []) s,
        )
        refl
  fits-Shuffle CandidateKind.transfer_purchase s =
      moves-Shuffle (ActionKind.transfer_in ∷ ActionKind.purchase ∷ []) s
  fits-Shuffle CandidateKind.adjust_policy s =
      rw (moves-Shuffle [] s, any-Shuffle (λ a. adjusts a.kind) s) refl
  fits-Shuffle CandidateKind.reduce_stock s = moves-Shuffle (ActionKind.reduce_stock ∷ []) s
  fits-Shuffle CandidateKind.sell s = moves-Shuffle (ActionKind.sell ∷ []) s

  -- The sorted lines of a candidate that changes something fit its kind as the given ones do.
  pub sorted-fits :
      (k : CandidateKind) (ls : List Line)
      → (not (any (λ a. idles a.kind) ls) && fits decimals k ls) ≡ true
      → (not (any (λ a. idles a.kind) (sorted_actions ls)) && fits decimals k (sorted_actions ls))
        ≡ true
  unfolding sorted_actions
  sorted-fits k ls h =
      let s = sorted-is_Shuffle action_le ls in
      rw (any-Shuffle (λ a. idles a.kind) s, fits-Shuffle k s) h

  abbrev IsValid : Line → Type 0
  IsValid a = valid_action decimals a ≡ true

  idle-zero :
      (a : Line)
      → IsValid a
      → idles a.kind ≡ true
      → (a.quantity ≡ zero_decimal) × (a.unit_acquisition_cash ≡ zero_decimal)
  unfolding valid_action
  idle-zero a v i = (
    (eq_iff a.quantity zero_decimal).0 (ground (arith, v, i)),
    (eq_iff a.unit_acquisition_cash zero_decimal).0 (ground (arith, v, i)),
  )

  -- One idle line is sorted, moves nothing and costs nothing.
  pub idle-plain :
      (ls : List Line)
      → All IsValid ls
      → only_idle decimals ls ≡ true
      → (sorted_actions ls ≡ ls)
        × ((moved decimals (sorted_actions ls) ≡ zero_decimal)
            × (committed decimals (sorted_actions ls) ≡ zero_decimal))
  unfolding sorted_actions sorted place sum_from
  idle-plain [] v h = absurd (ground (arith, h))
  idle-plain (a ∷ []) (v, tt) h =
      let i : idles a.kind ≡ true = ground (arith, h) in
      let (q, u) = idle-zero a v i in
      (
        refl,
        (
          rw (idles-adjusts a.kind i, q) (add_zero zero_decimal),
          rw (q, u) (add_zero _ ∙ mul_zero zero_decimal),
        ),
      )
  idle-plain (a ∷ b ∷ ls) v h = absurd (ground (arith, h))
