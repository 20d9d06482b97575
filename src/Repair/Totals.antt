-- ===== src/Repair/Totals.antt =====
-- What `build_repair_pipeline` returns: a pipeline that its own validator accepts, of positions
-- that may be counted on, in which no unit is lost or counted twice.
use aeronta_inventory.Base.{
  ℕ, ◌≡◌, ◌&&◌, ◌+◌, ◌-◌, String, true, Option, List, [], All, sum_of, sorted, map,
}
use aeronta_inventory.Base.Int.{ℤ}
use aeronta_inventory.Repair.{
  Order, Position, Exclusion, Pipeline, Screened, Capped, valid_pipeline, cap_from, item_before,
  close, settle, build_repair_pipeline, unidentified_exclusion, identity_reason, units, present,
  parse_repair_timestamp,
}
use aeronta_inventory.Repair.Capping.{IsCounted}

module _ (strip lower upper : String → String) (parse : Option String → Option (Option ℕ))
    (tenant_id part_number location_code : String) (as_of : ℕ) where
  abbrev Counted : List Position → Type 0
  Counted ps = All (IsCounted strip lower upper parse location_code as_of) ps

  -- What holds of a pipeline that is returned.
  pub record IsSound (p : Pipeline) : Type 0 where
    pub valid : valid_pipeline p ≡ true
    pub counted : Counted p.included
    pub balance :
        p.eligible_quantity + sum_of Exclusion.quantity p.exclusions
        ≡ (p.identified_open_quantity + p.unidentified_source_quantity)
          + p.aggregate_residual_quantity

  module _
      (some_names : (present tenant_id && (present part_number && present location_code))
        ≡ true) where
    abbrev closed : ℕ → ℕ → ℕ → Capped → Pipeline
    closed wip identified missing s =
        close strip lower upper parse tenant_id part_number location_code as_of wip identified
          missing s

    abbrev start : List Order → Screened
    start un = record {
      valid = [];
      exclusions = map (unidentified_exclusion strip lower upper parse) un;
      observed = map (identity_reason strip lower upper parse) un;
      identified = 0;
      preexcluded = 0;
    }

    -- The start of the second loop.
    abbrev to_cap : ℕ → List Order → Screened → Capped
    to_cap wip un s = record {
      included = [];
      exclusions = s.exclusions;
      observed = s.observed;
      remaining = (wip - s.preexcluded) - sum_of units un;
    }

    abbrev finish : ℕ → List Order → Screened → Pipeline
    finish wip un s = closed wip s.identified (sum_of units un) (
        cap_from strip lower upper parse (sorted (item_before strip lower upper parse) s.valid)
          (to_cap wip un s))

    abbrev settled : ℕ → List Order → List Order → List Order → Option Pipeline
    settled wip orders canonical un =
        settle strip lower upper parse tenant_id part_number location_code as_of wip orders
          canonical un

module _ {T : Type 0} (strip lower upper zulu : String → String) (fromisoformat : String → Option T)
    (astimezone : T → Option ℕ) (tenant_id part_number location_code : String) (as_of : ℕ) where
  abbrev parse : Option String → Option (Option ℕ)
  parse = parse_repair_timestamp strip zulu fromisoformat astimezone

  abbrev build : Option (List Order) → ℤ → Option Pipeline
  build = build_repair_pipeline strip lower upper parse tenant_id part_number location_code as_of
