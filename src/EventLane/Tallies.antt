-- ===== src/EventLane/Tallies.antt =====
-- The counters of `IngestReport.from_outcomes`: how many outcomes have a status.
use mathlib.Core.Path.{subst}
use aeronta_inventory.Base.{
  ℕ, ◌≡◌, ◌≢◌, ◌+◌, Bool, true, false, List, [], ◌∷◌, arith, inl, inr, Bool-cases, length, count,
}
use aeronta_inventory.EventLane.{
  IngestStatus, processed, no_op, duplicate, invalid, IngestOutcome, is_processed, is_no_op,
  is_duplicate, is_invalid,
}

pub is_processed-true : (o : IngestOutcome) → is_processed o ≡ true → o.status ≡ processed
is_processed-true o h = ground (arith, h)

pub is_processed-false : (o : IngestOutcome) → is_processed o ≡ false → o.status ≢ processed
is_processed-false o h e = ground (arith, h, e)

pub is_no_op-true : (o : IngestOutcome) → is_no_op o ≡ true → o.status ≡ no_op
is_no_op-true o h = ground (arith, h)

pub is_no_op-false : (o : IngestOutcome) → is_no_op o ≡ false → o.status ≢ no_op
is_no_op-false o h e = ground (arith, h, e)

pub is_duplicate-true : (o : IngestOutcome) → is_duplicate o ≡ true → o.status ≡ duplicate
is_duplicate-true o h = ground (arith, h)

pub is_duplicate-false : (o : IngestOutcome) → is_duplicate o ≡ false → o.status ≢ duplicate
is_duplicate-false o h e = ground (arith, h, e)

pub is_invalid-true : (o : IngestOutcome) → is_invalid o ≡ true → o.status ≡ invalid
is_invalid-true o h = ground (arith, h)

pub is_invalid-false : (o : IngestOutcome) → is_invalid o ≡ false → o.status ≢ invalid
is_invalid-false o h e = ground (arith, h, e)

-- `n` of the outcomes have the status.
pub data Tallied (s : IngestStatus) : List IngestOutcome → ℕ → Type 0 where
  nothing : Tallied s [] 0
  hit :
      (o : IngestOutcome) {os : List IngestOutcome} {n : ℕ}
      → o.status ≡ s
      → Tallied s os n
      → Tallied s (o ∷ os) (1 + n)
  miss :
      (o : IngestOutcome) {os : List IngestOutcome} {n : ℕ}
      → o.status ≢ s
      → Tallied s os n
      → Tallied s (o ∷ os) n

pub Tallied-count :
    (s : IngestStatus) (p : IngestOutcome → Bool)
    → ((o : IngestOutcome) → p o ≡ true → o.status ≡ s)
    → ((o : IngestOutcome) → p o ≡ false → o.status ≢ s)
    → (os : List IngestOutcome) → Tallied s os (count p os)
Tallied-count s p t f [] = nothing
Tallied-count s p t f (o ∷ os) = elim (Bool-cases (p o)) [
  | inl h ↦ rw h (hit o (t o h) (Tallied-count s p t f os))
  | inr h ↦
      let same : count p os ≡ 0 + count p os = omega arith in
      rw h (subst (Tallied s (o ∷ os)) same (miss o (f o h) (Tallied-count s p t f os)))
]

-- Every outcome counts once.
pub count-status :
    (os : List IngestOutcome)
    → length os
      ≡ count is_processed os + (count is_no_op os + (count is_duplicate os + count is_invalid os))
count-status [] = omega arith
count-status (o ∷ os) = ground (arith, count-status os)
