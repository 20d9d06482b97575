-- ===== src/Repair/Lawful.antt =====
-- The canonical orders: each is an open repair line with an identity and a positive quantity.
use aeronta_inventory.Base.{
  ℕ, ◌≡◌, ◌≢◌, ◌<◌, String, true, Option, none, some, List, [], ◌∷◌, ◌++◌, arith, All, All-append,
  All-sorted, pair_eq, string_eq, if_elim, Option-cases, inl, inr, texts_le, sorted, ◌==◌,
  if◌then◌else◌,
}
use aeronta_inventory.Base.Dict.{Dict, lookup, insert}
use aeronta_inventory.Repair.{
  Order, Identity, units, identity, is_open_repair, repair_orders, group_from, orders_at, before,
  least, canonical_from, canonical_orders,
}

module _ (strip lower upper : String → String) (parse : Option String → Option (Option ℕ)) where
  abbrev identify : Order → Option Identity
  identify o = identity strip lower upper parse o

  pub record IsLine (o : Order) : Type 0 where
    pub positive : 0 < units o
    pub key : Identity
    pub identified : identify o ≡ some key
    pub readable : parse o.opened_at ≢ none

  abbrev pub IsReadable : Order → Type 0
  IsReadable o = parse o.opened_at ≢ none

  abbrev IsPositive : Order → Type 0
  IsPositive o = (0 < units o) × IsReadable o

  abbrev AreLines : Identity × List Order → Type 0
  AreLines (k, os) = All IsLine os

  open-IsPositive :
      (o : Order) → IsReadable o → is_open_repair strip lower upper parse o ≡ true → IsPositive o
  unfolding is_open_repair
  open-IsPositive o r h = (ground (arith, h), r)

  repair_orders-IsPositive :
      (os : List Order)
      → All IsReadable os
      → All IsPositive (repair_orders strip lower upper parse os)
  unfolding repair_orders
  repair_orders-IsPositive [] r = tt
  repair_orders-IsPositive (o ∷ os) (r, rs) =
      if_elim (All IsPositive) (is_open_repair strip lower upper parse o)
        (o ∷ repair_orders strip lower upper parse os) (repair_orders strip lower upper parse os)
        (λ open_repair. (open-IsPositive o r open_repair, repair_orders-IsPositive os rs))
        (λ _. repair_orders-IsPositive os rs)

  orders_at-IsLine :
      (k : Identity) (d : Dict Identity (List Order))
      → All AreLines d
      → All IsLine (orders_at (lookup k d))
  unfolding lookup
  orders_at-IsLine k [] h = tt
  orders_at-IsLine k ((j, os) ∷ d) (p, h) =
      if_elim (λ g. All IsLine (orders_at g)) (j == k) (some os) (lookup k d) (λ _. p)
        (λ _. orders_at-IsLine k d h)

  insert-AreLines :
      (k : Identity) (os : List Order) (d : Dict Identity (List Order))
      → All IsLine os
      → All AreLines d
      → All AreLines (insert k os d)
  unfolding insert
  insert-AreLines k os [] p h = (p, h)
  insert-AreLines k os ((j, js) ∷ d) p (q, h) =
      if_elim (All AreLines) (j == k) ((j, os) ∷ d) ((j, js) ∷ insert k os d) (λ _. (p, h))
        (λ _. (q, insert-AreLines k os d p h))

  abbrev group :
      List Order → Dict Identity (List Order) → List Order → Dict Identity (List Order) × List Order
  group os d un = group_from strip lower upper parse os d un

  group_from-none :
      (o : Order) (os : List Order) (d : Dict Identity (List Order)) (un : List Order)
      → identify o ≡ none
      → group (o ∷ os) d un ≡ group os d (un ++ o ∷ [])
  unfolding group_from
  group_from-none o os d un e = ground (arith, e)

  group_from-some :
      (o : Order) (os : List Order) (d : Dict Identity (List Order)) (un : List Order)
      (k : Identity)
      → identify o ≡ some k
      → group (o ∷ os) d un ≡ group os (insert k (orders_at (lookup k d) ++ o ∷ []) d) un
  unfolding group_from
  group_from-some o os d un k e = ground (arith, e)

  group_from-AreLines :
      (os : List Order) (d : Dict Identity (List Order)) (un : List Order)
      → All IsPositive os
      → All AreLines d
      → All AreLines (group os d un).0
  unfolding group_from
  group_from-AreLines [] d un h k = k
  group_from-AreLines (o ∷ os) d un (p, h) k = elim (Option-cases (identify o)) [
    | inl e ↦ rw (group_from-none o os d un e) (group_from-AreLines os d (un ++ o ∷ []) h k)
    | inr (key, e) ↦ rw (group_from-some o os d un key e) (
        group_from-AreLines os (insert key (orders_at (lookup key d) ++ o ∷ []) d) un h (
          insert-AreLines key (orders_at (lookup key d) ++ o ∷ []) d
            (All-append IsLine (orders_at (lookup key d)) (o ∷ []) (orders_at-IsLine key d k)
              (record { positive = p.0; key = key; identified = e; readable = p.1 }, tt))
            k))
  ]

  least-IsLine :
      (o : Order) (os : List Order)
      → IsLine o
      → All IsLine os
      → IsLine (least strip lower upper parse o os)
  unfolding least
  least-IsLine o [] h k = h
  least-IsLine o (p ∷ ps) h (q, k) =
      least-IsLine (if before strip lower upper parse o p then o else p) ps
        (if_elim IsLine (before strip lower upper parse o p) o p (λ _. h) (λ _. q)) k

  canonical_from-IsLine :
      (groups : List (Identity × List Order))
      → All AreLines groups
      → All IsLine (canonical_from strip lower upper parse groups)
  unfolding canonical_from
  canonical_from-IsLine [] h = tt
  canonical_from-IsLine ((k, []) ∷ groups) (p, h) = canonical_from-IsLine groups h
  canonical_from-IsLine ((k, o ∷ os) ∷ groups) ((p, ps), h) =
      (least-IsLine o os p ps, canonical_from-IsLine groups h)

  -- Every line that the loop of the pipeline screens has an identity and a positive quantity.
  pub canonical-IsLine :
      (orders : List Order)
      → All IsReadable orders
      → All IsLine (
          canonical_orders strip lower upper parse
            (group (repair_orders strip lower upper parse orders) [] []).0)
  unfolding canonical_orders
  canonical-IsLine orders readable =
      let by_line = (group (repair_orders strip lower upper parse orders) [] []).0 in
      canonical_from-IsLine (sorted (λ a b. texts_le a.0 b.0) by_line) (
        All-sorted (λ a b. texts_le a.0 b.0) AreLines by_line
          (group_from-AreLines (repair_orders strip lower upper parse orders) [] []
            (repair_orders-IsPositive orders readable) tt))
