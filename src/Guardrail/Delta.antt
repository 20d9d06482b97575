-- ===== src/Guardrail/Delta.antt =====
-- `compute_delta_pct` bounds the change of every field of the policy.
use aeronta_inventory.Base.{
  ℕ, zero, suc, ◌<◌, ◌≡◌, refl, true, false, some, List, [], ◌∷◌, ◌++◌, arith, All, if_elim,
  if◌then◌else◌,
}
use aeronta_inventory.Contracts.{Floats, Policy, CurrentPolicy}
use aeronta_inventory.Guardrail.{
  relative_change, field_deltas, max_from, max_or_zero, deltas, compute_delta_pct,
}

module _ (floats : Floats) where
  open floats use {F, one, le, le_refl, le_total, le_trans}

  -- Every number of the list is at most `m`.
  abbrev IsBelow : F → List F → Type 0
  IsBelow m ds = All (λ d. le d m ≡ true) ds

  IsBelow-trans : (m n : F) (ds : List F) → le m n ≡ true → IsBelow m ds → IsBelow n ds
  IsBelow-trans m n [] h b = tt
  IsBelow-trans m n (d ∷ ds) h b = (le_trans d m n b.0 h, IsBelow-trans m n ds h b.1)

  le-of-not : (d m : F) → le d m ≡ false → le m d ≡ true
  le-of-not d m h = ground (arith, le_total d m)

  -- The larger of two numbers, as the loop of `max` keeps it.
  abbrev larger : F → F → F
  larger m d = if le d m then m else d

  le-larger : (m d : F) → (le m (larger m d) ≡ true) × (le d (larger m d) ≡ true)
  le-larger m d =
      if_elim (λ (x : F). (le m x ≡ true) × (le d x ≡ true)) (le d m) m d
        (λ keep. (le_refl m, keep)) (λ replace. (le-of-not d m replace, le_refl d))

  le-max_from :
      (m : F) (ds : List F)
      → (le m (max_from floats m ds) ≡ true) × IsBelow (max_from floats m ds) ds
  unfolding max_from
  le-max_from m [] = (le_refl m, tt)
  le-max_from m (d ∷ ds) =
      let m' = larger m d in
      let r : (le m' (max_from floats m' ds) ≡ true) × IsBelow (max_from floats m' ds) ds =
        le-max_from m' ds in
      let (a, b) = le-larger m d in
      (
        le_trans m m' (max_from floats m' ds) a r.0,
        (le_trans d m' (max_from floats m' ds) b r.0, r.1),
      )

  max_or_zero-IsBelow : (ds : List F) → IsBelow (max_or_zero floats ds) ds
  unfolding max_or_zero
  max_or_zero-IsBelow [] = tt
  max_or_zero-IsBelow (d ∷ ds) = le-max_from d ds

  -- The change from `old` to `new` is within `limit`; a change from 0 counts as 1.
  pub data IsWithin (limit : F) (old new : ℕ) : Type 0 where
    still_zero : old ≡ 0 → new ≡ 0 → IsWithin limit old new
    from_zero : old ≡ 0 → le one limit ≡ true → IsWithin limit old new
    relative : 0 < old → le (relative_change floats old new) limit ≡ true → IsWithin limit old new

  field-IsWithin :
      (limit : F) (old new : ℕ)
      → IsBelow limit (field_deltas floats old new)
      → IsWithin limit old new
  unfolding field_deltas
  field-IsWithin limit zero zero h = still_zero refl refl
  field-IsWithin limit zero (suc new) h = from_zero refl (ground arith)
  field-IsWithin limit (suc old) new h = relative (omega arith) (ground arith)

  IsBelow-append : (m : F) (xs ys : List F) → IsBelow m (xs ++ ys) → IsBelow m xs × IsBelow m ys
  IsBelow-append m [] ys h = (tt, h)
  IsBelow-append m (x ∷ xs) ys h = let (a, b) = IsBelow-append m xs ys h.1 in ((h.0, a), b)

  -- All four fields of `p` differ from those of `c` within `limit`.
  pub record IsNear (limit : F) (p : Policy) (c : CurrentPolicy) : Type 0 where
    pub rop : IsWithin limit c.rop p.rop
    pub eoq : IsWithin limit c.eoq p.eoq
    pub safety_stock : IsWithin limit c.safety_stock p.safety_stock
    pub max_stock : IsWithin limit c.max_stock p.max_stock

  -- What bounds the computed change bounds the change of each field.
  pub compute_delta_pct-IsNear :
      (limit : F) (p : Policy) (c : CurrentPolicy)
      → le (compute_delta_pct floats p (some c)) limit ≡ true
      → IsNear limit p c
  unfolding compute_delta_pct deltas
  compute_delta_pct-IsNear limit p c h =
      let all : IsBelow limit (deltas floats p c) =
        IsBelow-trans (max_or_zero floats (deltas floats p c)) limit (deltas floats p c) h
          (max_or_zero-IsBelow (deltas floats p c)) in
      let s : List F = field_deltas floats c.safety_stock p.safety_stock in
      let m : List F = field_deltas floats c.max_stock p.max_stock in
      let e : List F = field_deltas floats c.eoq p.eoq in
      let r : List F = field_deltas floats c.rop p.rop in
      let (hr, rest) = IsBelow-append limit r (e ++ (s ++ m)) all in
      let (he, rest') = IsBelow-append limit e (s ++ m) rest in
      let (hs, hm) = IsBelow-append limit s m rest' in
      record {
        rop = field-IsWithin limit c.rop p.rop hr;
        eoq = field-IsWithin limit c.eoq p.eoq he;
        safety_stock = field-IsWithin limit c.safety_stock p.safety_stock hs;
        max_stock = field-IsWithin limit c.max_stock p.max_stock hm;
      }
