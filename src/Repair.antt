-- ===== src/Repair.antt =====
-- services/recommendation-engine/src/trax_io_reco/position/repair_pipeline.py: the open repair
-- orders of a part are reconciled with the aggregate quantity in repair.
mod Types
mod Lines
pub mod Notices
pub mod Lawful
pub mod Screening
pub mod Capping
pub mod Totals
use aeronta_inventory.Base.{
  ℕ, ◌≡◌, ◌+◌, ◌-◌, ◌/◌, String, Bool, true, false, not, ◌&&◌, ◌||◌, Option, none, some, List, [],
  ◌∷◌, ◌++◌, ltb, nat_beq, min, any, map, sum_of, sorted, texts_le, if◌then◌else◌,
}
use aeronta_inventory.Base.Int.{ℤ}
unfoldable pub use Types.*
unfoldable pub use Lines.*

-- What the loop over the canonical orders fills: `valid`, `exclusions`, `observed_reasons`,
-- `identified_quantity` and `preexcluded_quantity`.
pub record Screened : Type 0 where
  pub valid : List (Order × WorkItem × ℕ)
  pub exclusions : List Exclusion
  pub observed : List Code
  pub identified : ℕ
  pub preexcluded : ℕ

-- What the loop over `valid` fills.
pub record Capped : Type 0 where
  pub included : List Position
  pub exclusions : List Exclusion
  pub observed : List Code
  pub remaining : ℕ

abbrev pub flag : Bool → Warning → List Warning
flag true w = w ∷ []
flag false w = []

abbrev pub is_residual : Code → Bool
is_residual unidentified_aggregate_residual = true
is_residual _ = false

abbrev pub includes_any : List Code → List Code → Bool
includes_any [] reasons = false
includes_any (c ∷ cs) reasons = includes c reasons || includes_any cs reasons

-- `_warning_codes`, in the order of the texts of the warnings.
unfoldable pub warning_codes : List Exclusion → Bool → ℕ → ℕ → List Code → List Warning
warning_codes exclusions no_orders residual overflow observed =
    let reasons = map Exclusion.reason exclusions ++ observed in
    flag (includes_any (missing_opened_at ∷ future_opened_at ∷ []) reasons) repair_age_missing
    ++ (flag (includes_any (missing_order_identity ∷ missing_line_identity ∷ []) reasons)
          repair_identity_excluded
        ++ (flag no_orders repair_pipeline_unavailable
            ++ (flag (ltb 0 residual) repair_residual_unidentified
                ++ (flag
                      (includes_any
                        (duplicate_order_line ∷ duplicate_serial ∷ serial_quantity_mismatch ∷ [])
                        reasons)
                      repair_source_duplicates
                    ++ (flag (ltb 0 overflow || includes aggregate_wip_cap reasons)
                          repair_wip_mismatch
                        ++ flag (any (λ r. not (is_residual r)) reasons) repair_work_excluded)))))

abbrev pub status_from : List Warning → PipelineStatus
status_from [] = available
status_from (w ∷ ws) = partial

-- The exclusion of a quantity that no order explains, if there is one.
abbrev pub residual_exclusions : ℕ → List Exclusion
residual_exclusions residual =
    if ltb 0 residual
    then record {
      repair_order_id = none;
      repair_line_id = none;
      serial_number = none;
      quantity = residual;
      reason = unidentified_aggregate_residual;
      detail = reason_detail unidentified_aggregate_residual;
    }
      ∷ []
    else []

module _ (strip lower upper : String → String) (parse : Option String → Option (Option ℕ)) where
  -- The reason in the loop over the unidentified orders.
  unfoldable pub identity_reason : Order → Code
  identity_reason o = elim (clean strip lower upper parse o.order_id) [
    | none ↦ missing_order_identity
    | some _ ↦ missing_line_identity
  ]

  abbrev pub unidentified_exclusion : Order → Exclusion
  unidentified_exclusion o = exclusion strip lower upper parse o (units o) (identity_reason o)

  module _ (tenant_id part_number location_code : String) (as_of : ℕ) where
    -- The work item of a line; `none` stands for an assertion that fails. A work item strips its
    -- texts; those of `_clean` and `_status` are stripped already.
    unfoldable pub work_item :
        Order → Option Identity → Option ℕ → Option String → Option (WorkItem × ℕ)
    work_item o (some (order_id, line_id)) (some opened) (some location) = some (
      record {
        tenant_id = strip tenant_id;
        repair_order_id = order_id;
        repair_line_id = line_id;
        part_number = strip part_number;
        quantity = units o;
        location_code = location;
        opened_at = opened;
        status = status_of strip lower upper parse o.status;
        shop_code = clean strip lower upper parse o.shop;
        vendor_code = clean strip lower upper parse o.vendor;
        serial_number = clean strip lower upper parse o.serial_number;
      },
      as_of - opened / day,
    )
    work_item _ _ _ _ = none

    -- A line with reasons; `_primary_reason` may raise.
    unfoldable pub exclude : Order → List Code → Option Code → Screened → Option Screened
    exclude o reasons none s = none
    exclude o reasons (some primary) s = some (record {
      valid = s.valid;
      exclusions = s.exclusions ++ exclusion strip lower upper parse o (units o) primary ∷ [];
      observed = s.observed ++ reasons;
      identified = s.identified + units o;
      preexcluded = s.preexcluded + units o;
    })

    -- A line without a reason.
    unfoldable pub admit : Order → Option (WorkItem × ℕ) → Screened → Option Screened
    admit o none s = none
    admit o (some (item, age)) s = some (record {
      valid = s.valid ++ (o, item, age) ∷ [];
      exclusions = s.exclusions;
      observed = s.observed;
      identified = s.identified + units o;
      preexcluded = s.preexcluded;
    })

    -- The body of the loop over the canonical orders.
    unfoldable pub screen : Order → List Code → Screened → Option Screened
    screen o [] s =
        admit o
          (work_item o (identity strip lower upper parse o) (time_of (parse o.opened_at))
            (clean strip lower upper parse o.location))
          s
    screen o (r ∷ rs) s = exclude o (r ∷ rs) (primary_reason (r ∷ rs)) s

    module _ (orders : List Order) where
      -- The loop; the time of a line is read first, which may raise.
      unfoldable pub screen_from : List Order → Screened → Option Screened
      screen_from [] s = some s
      screen_from (o ∷ os) s = elim (parse o.opened_at) [
        | none ↦ none
        | some _ ↦
            elim (screen o (reasons_of strip lower upper parse orders location_code as_of o) s) [
              | none ↦ none
              | some s' ↦ screen_from os s'
            ]
      ]

  -- The body of the loop over `valid`.
  unfoldable pub cap : Order → WorkItem → ℕ → Capped → Capped
  cap o item age s =
      let accepted = min item.quantity s.remaining in
      let overflow = item.quantity - accepted in
      record {
        included =
            s.included
            ++ (if ltb 0 accepted
                then record { work_item = item; eligible_quantity = accepted; age_days = age } ∷ []
                else []);
        exclusions =
            s.exclusions
            ++ (if ltb 0 overflow
                then exclusion strip lower upper parse o overflow aggregate_wip_cap ∷ []
                else []);
        observed = s.observed ++ (if ltb 0 overflow then aggregate_wip_cap ∷ [] else []);
        remaining = s.remaining - accepted;
      }

  unfoldable pub cap_from : List (Order × WorkItem × ℕ) → Capped → Capped
  cap_from [] s = s
  cap_from ((o, item, age) ∷ valid) s = cap_from valid (cap o item age s)

  abbrev pub item_before : Order × WorkItem × ℕ → Order × WorkItem × ℕ → Bool
  item_before (_, a, _) (_, b, _) =
      texts_le (a.repair_order_id, a.repair_line_id) (b.repair_order_id, b.repair_line_id)

  module _ (tenant_id part_number location_code : String) (as_of : ℕ) where
    -- The branch of `build_repair_pipeline` without open orders.
    unfoldable pub unavailable_pipeline : ℕ → Pipeline
    unavailable_pipeline wip = record {
      tenant_id = tenant_id;
      part_number = part_number;
      location_code = location_code;
      as_of = as_of;
      status = unavailable;
      aggregate_wip_quantity = wip;
      identified_open_quantity = 0;
      unidentified_source_quantity = 0;
      eligible_quantity = 0;
      excluded_identifiable_quantity = 0;
      aggregate_residual_quantity = wip;
      source_overflow_quantity = 0;
      included = [];
      exclusions = residual_exclusions wip;
      warning_codes = warning_codes (residual_exclusions wip) true wip 0 [];
    }

    -- The end of `build_repair_pipeline`, after the loops.
    unfoldable pub close : ℕ → ℕ → ℕ → Capped → Pipeline
    close wip identified unidentified s =
        let eligible = sum_of Position.eligible_quantity s.included in
        let residual = wip - (identified + unidentified) in
        let overflow = (identified + unidentified) - wip in
        let exclusions = s.exclusions ++ residual_exclusions residual in
        let observed =
          s.observed ++ (if ltb 0 residual then unidentified_aggregate_residual ∷ [] else []) in
        let warnings = warning_codes exclusions false residual overflow observed in
        record {
          tenant_id = tenant_id;
          part_number = part_number;
          location_code = location_code;
          as_of = as_of;
          status = status_from warnings;
          aggregate_wip_quantity = wip;
          identified_open_quantity = identified;
          unidentified_source_quantity = unidentified;
          eligible_quantity = eligible;
          excluded_identifiable_quantity = identified - eligible;
          aggregate_residual_quantity = residual;
          source_overflow_quantity = overflow;
          included = s.included;
          exclusions = exclusions;
          warning_codes = warnings;
        }

    -- From the loop over the canonical orders on.
    unfoldable pub settle : ℕ → List Order → List Order → List Order → Option Pipeline
    settle wip orders canonical unidentified =
        let missing = sum_of units unidentified in
        elim (screen_from tenant_id part_number location_code as_of orders canonical (record {
          valid = [];
          exclusions = map unidentified_exclusion unidentified;
          observed = map identity_reason unidentified;
          identified = 0;
          preexcluded = 0;
        })) [
          | none ↦ none
          | some s ↦ some (
              close wip s.identified missing (
                cap_from (sorted item_before s.valid) (record {
                  included = [];
                  exclusions = s.exclusions;
                  observed = s.observed;
                  remaining = (wip - s.preexcluded) - missing;
                })))
        ]

    -- `build_repair_pipeline`.
    unfoldable pub build_repair_pipeline : Option (List Order) → ℤ → Option Pipeline
    build_repair_pipeline none wip = some (unavailable_pipeline (to_nat wip))
    build_repair_pipeline (some open_orders) wip =
        let orders = repair_orders strip lower upper parse open_orders in
        let (by_line, unidentified) = group_from strip lower upper parse orders [] [] in
        settle (to_nat wip) orders (canonical_orders strip lower upper parse by_line) unidentified
