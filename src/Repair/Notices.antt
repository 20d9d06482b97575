-- ===== src/Repair/Notices.antt =====
-- What is excluded for a reason of its own leaves a warning: the codes that the loops observe.
use aeronta_inventory.Base.{
  ℕ, ◌≡◌, ◌⊎◌, inl, inr, refl, String, Bool, true, false, not, ◌||◌, Option, none, some, List, [],
  ◌∷◌, ◌++◌, arith, any, all, append-nil, any-append, all-append, map, if◌then◌else◌, if_elim,
  contains, string_eq, ltb, nat_beq, count,
}
use mathlib.Core.Path.{subst}
use aeronta_inventory.Repair.{
  Order, Identity, unidentified_exclusion, terminal_statuses, open_statuses, terminal_status,
  ineligible_status, duplicate_order_line, duplicate_serial, serial_quantity_mismatch, is_identity,
  is_serial, Code, Exclusion, Warning, repair_residual_unidentified, repair_wip_mismatch,
  repair_work_excluded, repair_age_missing, repair_identity_excluded, repair_pipeline_unavailable,
  repair_source_duplicates, missing_opened_at, future_opened_at, missing_order_identity,
  missing_line_identity, includes_any, includes, has_unavailable_warning, aggregate_wip_cap,
  is_residual, reasons_of, age_reasons, time_of, location_reasons, status_reasons, line_reasons,
  serial_reasons, identity_reason, identity, clean, status_of, units, warning_codes, flag,
}

-- A reason other than the unexplained rest.
abbrev pub is_own : Code → Bool
is_own c = not (is_residual c)

-- Nothing is excluded, or an own reason is observed.
abbrev pub IsNoticed : List Exclusion → List Code → Type 0
IsNoticed exclusions observed = (exclusions ≡ []) ⊎ (any is_own observed ≡ true)

all-own-append :
    (xs ys : List Code) → all is_own xs ≡ true → all is_own ys ≡ true → all is_own (xs ++ ys) ≡ true
all-own-append xs ys h k = rw (all-append is_own xs ys, h, k) refl

if-own :
    (b : Bool) (xs ys : List Code)
    → all is_own xs ≡ true
    → all is_own ys ≡ true
    → all is_own (if b then xs else ys) ≡ true
if-own b xs ys h k = if_elim (λ l. all is_own l ≡ true) b xs ys (λ _. h) (λ _. k)

module _ (strip lower upper : String → String) (parse : Option String → Option (Option ℕ))
    (orders : List Order) (location_code : String) (as_of : ℕ) where
  age-own :
      (t : Option ℕ)
      → all is_own (age_reasons strip lower upper parse orders location_code as_of t) ≡ true
  age-own none = refl
  age-own (some t) = ground arith

  location-own :
      (l : Option String)
      → all is_own (location_reasons strip lower upper parse orders location_code as_of l) ≡ true
  location-own none = refl
  location-own (some l) = ground arith

  status-own :
      (s : String)
      → all is_own (status_reasons strip lower upper parse orders location_code as_of s) ≡ true
  status-own s =
      if-own (contains s terminal_statuses) (terminal_status ∷ [])
        (if contains s open_statuses then [] else ineligible_status ∷ []) refl
        (if-own (contains s open_statuses) [] (ineligible_status ∷ []) refl refl)

  line-own :
      (k : Option Identity)
      → all is_own (line_reasons strip lower upper parse orders location_code as_of k) ≡ true
  line-own none = refl
  line-own (some k) =
      if-own (ltb 1 (count (λ o. is_identity k (identity strip lower upper parse o)) orders))
        (duplicate_order_line ∷ []) [] refl refl

  serial-own :
      (s : Option String) (n : ℕ)
      → all is_own (serial_reasons strip lower upper parse orders location_code as_of s n) ≡ true
  serial-own none n = refl
  serial-own (some s) n =
      let repeated =
        ltb 1 (count (λ o. is_serial s (clean strip lower upper parse o.serial_number)) orders) in
      all-own-append (if repeated then duplicate_serial ∷ [] else [])
        (if nat_beq n 1 then [] else serial_quantity_mismatch ∷ [])
        (if-own repeated (duplicate_serial ∷ []) [] refl refl)
        (if-own (nat_beq n 1) [] (serial_quantity_mismatch ∷ []) refl refl)

  pub reasons-own :
      (o : Order)
      → all is_own (reasons_of strip lower upper parse orders location_code as_of o) ≡ true
  unfolding reasons_of
  reasons-own o =
      let age =
        age_reasons strip lower upper parse orders location_code as_of
          (time_of (parse o.opened_at)) in
      let place =
        location_reasons strip lower upper parse orders location_code as_of
          (clean strip lower upper parse o.location) in
      let stat =
        status_reasons strip lower upper parse orders location_code as_of
          (status_of strip lower upper parse o.status) in
      let line =
        line_reasons strip lower upper parse orders location_code as_of
          (identity strip lower upper parse o) in
      let serial =
        serial_reasons strip lower upper parse orders location_code as_of
          (clean strip lower upper parse o.serial_number) (units o) in
      all-own-append age (place ++ (stat ++ (line ++ serial)))
        (age-own (time_of (parse o.opened_at)))
        (all-own-append place (stat ++ (line ++ serial))
          (location-own (clean strip lower upper parse o.location))
          (all-own-append stat (line ++ serial)
            (status-own (status_of strip lower upper parse o.status))
            (all-own-append line serial (line-own (identity strip lower upper parse o))
              (serial-own (clean strip lower upper parse o.serial_number) (units o)))))

  -- A reason of a line, noticed after what was noticed before.
  pub any-reasons :
      (observed : List Code) (o : Order) (r : Code) (rs : List Code)
      → reasons_of strip lower upper parse orders location_code as_of o ≡ r ∷ rs
      → any is_own (observed ++ r ∷ rs) ≡ true
  any-reasons observed o r rs e = ground (
    arith,
    any-append is_own observed (r ∷ rs),
    subst (λ l. all is_own l ≡ true) e (reasons-own o),
  )

-- The loop over the unidentified orders.
module _ (strip lower upper : String → String) (parse : Option String → Option (Option ℕ)) where
  identity_reason-own : (o : Order) → is_own (identity_reason strip lower upper parse o) ≡ true
  unfolding identity_reason
  identity_reason-own o = ground arith

  pub unidentified-IsNoticed :
      (os : List Order)
      → IsNoticed
          (map (unidentified_exclusion strip lower upper parse) os)
          (map (identity_reason strip lower upper parse) os)
  unidentified-IsNoticed [] = inl refl
  unidentified-IsNoticed (o ∷ os) = inr (rw (identity_reason-own o) refl)

flag-nil : (b : Bool) (w : Warning) → flag b w ≡ [] → b ≡ false
flag-nil true w h = absurd (ground arith)
flag-nil false w h = refl

flags-nil :
    (a b c d e f g : Bool) (s t u v w x y : Warning)
    → flag a s ++ (flag b t ++ (flag c u ++ (flag d v ++ (flag e w ++ (flag f x ++ flag g y)))))
      ≡ []
    → (d ≡ false) × ((f ≡ false) × (g ≡ false))
flags-nil a b c d e f g s t u v w x y h =
    let (h₀, h₁) = append-nil (flag a s) _ h in
    let (i₀, i₁) = append-nil (flag b t) _ h₁ in
    let (j₀, j₁) = append-nil (flag c u) _ i₁ in
    let (k₀, k₁) = append-nil (flag d v) _ j₁ in
    let (l₀, l₁) = append-nil (flag e w) _ k₁ in
    let (m₀, m₁) = append-nil (flag f x) _ l₁ in
    (flag-nil d v k₀, (flag-nil f x m₀, flag-nil g y m₁))

-- Without a warning, no quantity is left over and none is missing, and no own reason is observed.
pub warning_codes-nil :
    (exclusions : List Exclusion) (residual overflow : ℕ) (observed : List Code)
    → warning_codes exclusions false residual overflow observed ≡ []
    → (residual ≡ 0) × ((overflow ≡ 0) × (any is_own observed ≡ false))
unfolding warning_codes
warning_codes-nil exclusions residual overflow observed h =
    let rs = map Exclusion.reason exclusions ++ observed in
    let (d, (f, g)) =
      flags-nil (includes_any (missing_opened_at ∷ future_opened_at ∷ []) rs)
        (includes_any (missing_order_identity ∷ missing_line_identity ∷ []) rs) false
        (ltb 0 residual)
        (includes_any (duplicate_order_line ∷ duplicate_serial ∷ serial_quantity_mismatch ∷ []) rs)
        (ltb 0 overflow || includes aggregate_wip_cap rs) (any is_own rs) repair_age_missing
        repair_identity_excluded repair_pipeline_unavailable repair_residual_unidentified
        repair_source_duplicates repair_wip_mismatch repair_work_excluded h in
    (
      ground (arith, d),
      (
        ground (arith, f),
        ground (arith, g, any-append is_own (map Exclusion.reason exclusions) observed),
      ),
    )

flags-unavailable :
    (a b : Bool) (s t : Warning) (ws : List Warning)
    → has_unavailable_warning (flag a s ++ (flag b t ++ (repair_pipeline_unavailable ∷ ws))) ≡ true
flags-unavailable true true s t ws = ground arith
flags-unavailable true false s t ws = ground arith
flags-unavailable false true s t ws = ground arith
flags-unavailable false false s t ws = refl

-- Without orders, the warnings say so.
pub warning_codes-unavailable :
    (exclusions : List Exclusion) (residual overflow : ℕ) (observed : List Code)
    → has_unavailable_warning (warning_codes exclusions true residual overflow observed) ≡ true
unfolding warning_codes
warning_codes-unavailable exclusions residual overflow observed =
    let rs = map Exclusion.reason exclusions ++ observed in
    flags-unavailable (includes_any (missing_opened_at ∷ future_opened_at ∷ []) rs)
      (includes_any (missing_order_identity ∷ missing_line_identity ∷ []) rs) repair_age_missing
      repair_identity_excluded _
