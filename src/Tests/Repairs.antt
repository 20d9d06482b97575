-- ===== src/Tests/Repairs.antt =====
-- Runs of the repair pipeline.
use aeronta_inventory.Base.{ℕ, ◌≡◌, ◌*◌, refl, String, Option, none, some, List, [], ◌∷◌}
use aeronta_inventory.Base.Int.{pos}
use aeronta_inventory.Repair.{
  Order, Pipeline, build_repair_pipeline, settle, screen_from, canonical_orders, canonical_from,
  group_from, repair_orders, is_open_repair, identity, clean, screen, reasons_of, least, status_of,
  before, exclusion, primary_reason, reason_detail, admit, cap, cap_from, close, exclude,
  identity_reason, warning_codes, work_item, parse_repair_timestamp,
}
use aeronta_inventory.Base.Dict.{lookup, insert}
use aeronta_inventory.Base.Sort.{sorted, place}

-- The texts of the orders below are trimmed and in the right case.
abbrev same_text : String → String
same_text s = s

-- Every time that is given is the start of day 10.
abbrev tenth : String → Option ℕ
tenth s = some 10

abbrev in_microseconds : ℕ → Option ℕ
in_microseconds d = some (d * 86_400_000_000)

abbrev parse_day : Option String → Option (Option ℕ)
parse_day = parse_repair_timestamp same_text same_text tenth in_microseconds

abbrev repair_order : String → String → Option String → ℕ → Order
repair_order id line serial qty = record {
  order_type = some "RO";
  qty_open = some (pos qty);
  order_id = some id;
  order_line_id = some line;
  opened_at = some "d10";
  location = some "SYD";
  status = some "open";
  serial_number = serial;
  shop = none;
  vendor = none;
}

-- A repeated line, a serialized unit, and more units than the aggregate quantity leaves.
abbrev open_orders : List Order
open_orders =
    repair_order "R2" "1" none 4
    ∷ repair_order "R1" "1" (some "S1") 1
    ∷ repair_order "R3" "1" none 1
    ∷ repair_order "R3" "1" none 2
    ∷ repair_order "none" "1" none 1
    ∷ []

abbrev eligible : Option Pipeline → ℕ
eligible none = 0
eligible (some p) = p.eligible_quantity

abbrev built : Option Pipeline
built =
    build_repair_pipeline same_text same_text same_text parse_day "acme" "PN-1" "SYD" 12
      (some open_orders) (pos 6)

-- Of six units, two go to the repeated line and one to the order without an identity: three are left.
three_eligible : eligible built ≡ 3
unfolding parse_repair_timestamp build_repair_pipeline settle screen_from canonical_orders
    canonical_from sorted group_from repair_orders is_open_repair identity clean insert place lookup
    screen reasons_of least status_of before exclusion primary_reason reason_detail admit cap
    cap_from close exclude identity_reason warning_codes work_item
three_eligible = refl
