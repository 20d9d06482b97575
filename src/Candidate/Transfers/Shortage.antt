-- ===== src/Candidate/Transfers/Shortage.antt =====
-- The quantities of a transfer with a residual purchase cover the shortage.
use aeronta_inventory.Base.{◌≡◌, refl, true, false, ◌||◌, ◌⊎◌, arith, inl, inr, Bool-cases, ltb}
use aeronta_inventory.Candidate.Decimals.{Decimals}
use aeronta_inventory.Candidate.Amounts.{
  larger_left, larger_right, larger_least, smaller_left, smaller_right, smaller_greatest,
}
use aeronta_inventory.Candidate.Amounts.Groups.{le_of_sub, sub_nonpos, add_le_both}
use aeronta_inventory.Candidate.Reconcile.{Request}
use aeronta_inventory.Candidate.Transfers.{
  TransferTerms, positive, shortage_before, finalized_transfer, residual, rounded_residual,
  purchase_quantity,
}

module _ (decimals : Decimals) where
  open decimals use {
    D, zero_decimal, le, add, sub, of_nat, le_refl, le_trans, le_total, add_zero, add_le, le_ceil,
  }

  -- What `build_transfer_purchase_candidate` asks of its terms.
  pub record IsTerms (t : TransferTerms D) : Type 0 where
    pub order : ltb 0 t.minimum_order_quantity ≡ true
    pub requested : le zero_decimal t.requested_transfer_quantity ≡ true
    pub donor : le zero_decimal t.donor_available_quantity ≡ true
    pub cost : le zero_decimal t.purchase_unit_cost ≡ true

  module _ (r : Request D) (t : TransferTerms D) where
    abbrev short : D
    short = shortage_before decimals r

    abbrev transfer : D
    transfer = finalized_transfer decimals r t

    abbrev purchase : D
    purchase = purchase_quantity decimals r t

    pub transfer-le_donor : le transfer t.donor_available_quantity ≡ true
    unfolding finalized_transfer
    transfer-le_donor =
        le_trans _ _ _ (smaller_left decimals _ short)
          (smaller_right decimals t.requested_transfer_quantity _)

    transfer-le_short : le transfer short ≡ true
    unfolding finalized_transfer
    transfer-le_short = smaller_right decimals _ short

    short-nonneg : le zero_decimal short ≡ true
    unfolding shortage_before
    short-nonneg = larger_left decimals zero_decimal _

    residual-le_purchase : le (residual decimals r t) purchase ≡ true
    unfolding purchase_quantity rounded_residual
    residual-le_purchase = elim (Bool-cases (le (residual decimals r t) zero_decimal)) [
      | inl spent ↦ rw spent spent
      | inr left ↦ rw left (
          le_trans _ _ _ (le_ceil (residual decimals r t))
            (larger_right decimals (of_nat t.minimum_order_quantity) _))
    ]

    -- A purchase is at least the minimum order.
    pub purchase-order :
        (purchase ≡ zero_decimal) ⊎ (le (of_nat t.minimum_order_quantity) purchase ≡ true)
    unfolding purchase_quantity
    purchase-order = elim (Bool-cases (le (residual decimals r t) zero_decimal)) [
      | inl spent ↦ inl (rw spent refl)
      | inr left ↦ inr (rw left (larger_left decimals (of_nat t.minimum_order_quantity) _))
    ]

    pub short-covered : le short (add transfer purchase) ≡ true
    unfolding residual
    short-covered =
        le_trans _ _ _
          (le_of_sub decimals short transfer _
            (larger_right decimals zero_decimal (sub short transfer)))
          (add_le (residual decimals r t) purchase transfer residual-le_purchase)

    -- Demand is met from the stock, the receipts, the transfer and the purchase.
    pub demand-covered :
        le r.projected_demand
          (add r.available_before (add r.expected_receipts_before (add transfer purchase)))
        ≡ true
    unfolding shortage_before
    demand-covered = le_of_sub decimals _ _ _ (
        le_of_sub decimals _ _ _
          (le_trans _ _ _ (larger_right decimals zero_decimal _) short-covered))

    -- A shortage leaves something to do.
    pub some_line :
        positive decimals short ≡ true
        → (positive decimals transfer || positive decimals purchase) ≡ true
    some_line h = elim (Bool-cases (le transfer zero_decimal)) [
      | inr sent ↦ rw sent refl
      | inl unsent ↦ elim (Bool-cases (le purchase zero_decimal)) [
        | inr bought ↦ ground (arith, bought)
        | inl unbought ↦ absurd (
            ground (
              arith,
              h,
              le_trans short _ zero_decimal
                  (le_trans _ _ _ short-covered (
                    add_le_both decimals transfer zero_decimal purchase zero_decimal unsent
                      unbought))
                  (rw (add_zero zero_decimal) (le_refl zero_decimal)),
            ))
      ]
    ]

    -- Without a shortage there is nothing to do.
    pub no_line :
        IsTerms t
        → positive decimals short ≡ false
        → (positive decimals transfer || positive decimals purchase) ≡ false
    unfolding purchase_quantity residual finalized_transfer
    no_line h none_short =
        let low : le short zero_decimal ≡ true = ground (arith, none_short) in
        let unsent : le transfer zero_decimal ≡ true = le_trans _ _ _ transfer-le_short low in
        let kept : le zero_decimal transfer ≡ true =
          smaller_greatest decimals _ _ _ (smaller_greatest decimals _ _ _ h.requested h.donor)
            short-nonneg in
        let spent : le (residual decimals r t) zero_decimal ≡ true =
          larger_least decimals _ _ _ (le_refl zero_decimal)
            (sub_nonpos decimals short transfer (le_trans _ _ _ low kept)) in
        rw (unsent, spent, le_refl zero_decimal) refl
