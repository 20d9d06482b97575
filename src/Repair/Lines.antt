-- ===== src/Repair/Lines.antt =====
-- The lines of open orders: identities, the canonical line of each identity, and the reasons that
-- exclude a line.
use aeronta_inventory.Base.{
  ℕ, ◌+◌, ◌*◌, String, Bool, true, false, ◌&&◌, ◌||◌, Option, none, some, List, [], ◌∷◌, ◌++◌, ltb,
  leb, nat_beq, contains, string_eq, pair_eq, count, filter, ◌==◌, text_le, texts_le, sorted,
  if◌then◌else◌,
}
use aeronta_inventory.Base.Dict.{Dict, lookup, insert}
use aeronta_inventory.Base.Int.{ℤ, pos, negsuc}
use aeronta_inventory.Repair.Types.{
  Code, missing_order_identity, missing_line_identity, missing_opened_at, future_opened_at,
  missing_location, location_mismatch, terminal_status, ineligible_status, duplicate_order_line,
  duplicate_serial, serial_quantity_mismatch, aggregate_wip_cap, unidentified_aggregate_residual,
  includes, Exclusion, open_statuses, terminal_statuses,
}

-- What the pipeline reads of an open order; `none` stands for a missing or empty attribute.
pub record Order : Type 0 where
  pub order_type : Option String
  pub qty_open : Option ℤ
  pub order_id : Option String
  pub order_line_id : Option String
  pub opened_at : Option String
  pub location : Option String
  pub status : Option String
  pub serial_number : Option String
  pub shop : Option String
  pub vendor : Option String

abbrev pub Identity : Type 0
Identity = String × String

-- `max(0, n)`
abbrev pub to_nat : ℤ → ℕ
to_nat (pos n) = n
to_nat (negsuc n) = 0

abbrev pub nat_or_zero : Option ℤ → ℕ
nat_or_zero none = 0
nat_or_zero (some n) = to_nat n

-- `int(order.qty_open or 0)` where it is positive, else 0.
abbrev pub units : Order → ℕ
units o = nat_or_zero o.qty_open

-- `value or default`, for a text.
abbrev pub or_else : String → Option String → String
or_else default none = default
or_else default (some v) = if v == "" then default else v

abbrev pub missing_identities : List String
missing_identities = "" ∷ "?" ∷ "none" ∷ "null" ∷ "unknown" ∷ []

-- `_reason_detail`.
unfoldable pub reason_detail : Code → String
reason_detail missing_order_identity = "Stable repair-order identity is missing."
reason_detail missing_line_identity = "Stable repair-order line identity is missing."
reason_detail missing_opened_at = "Repair lifecycle start is missing; current age is unknown."
reason_detail future_opened_at = "Repair lifecycle start is later than the planning as-of."
reason_detail missing_location = "Repair work has no location identity."
reason_detail location_mismatch = "Repair work belongs to a different part-location key."
reason_detail terminal_status = "Terminal repair work cannot be future return supply."
reason_detail ineligible_status = "Repair status is not an approved open-work state."
reason_detail duplicate_order_line = "Duplicate repair-order line identity is ambiguous."
reason_detail duplicate_serial = "Serial identity appears on more than one open repair line."
reason_detail serial_quantity_mismatch =
    "A serialized repair position must represent exactly one physical unit."
reason_detail aggregate_wip_cap = "Identified work exceeds reconciled aggregate repair WIP."
reason_detail unidentified_aggregate_residual =
    "Aggregate in-repair WIP remains after identified order lines are removed."

-- The tuple `priority`.
abbrev pub priority : List Code
priority =
    missing_order_identity ∷ missing_line_identity ∷ missing_opened_at ∷ future_opened_at
    ∷ missing_location ∷ location_mismatch ∷ terminal_status ∷ ineligible_status
    ∷ duplicate_order_line ∷ duplicate_serial ∷ serial_quantity_mismatch ∷ aggregate_wip_cap
    ∷ unidentified_aggregate_residual ∷ []

abbrev pub first_in : List Code → List Code → Option Code
first_in [] reasons = none
first_in (c ∷ cs) reasons = if includes c reasons then some c else first_in cs reasons

-- `_primary_reason`; `none` stands for the `StopIteration` of `next`.
unfoldable pub primary_reason : List Code → Option Code
primary_reason reasons = first_in priority reasons

abbrev pub equals : Option String → Option String → Bool
equals none none = true
equals (some a) (some b) = a == b
equals _ _ = false

abbrev pub both : Option String → Option String → Option Identity
both (some a) (some b) = some (a, b)
both _ _ = none

abbrev pub is_identity : Identity → Option Identity → Bool
is_identity k none = false
is_identity k (some j) = j == k

abbrev pub is_serial : String → Option String → Bool
is_serial s none = false
is_serial s (some t) = t == s

abbrev pub orders_at : Option (List Order) → List Order
orders_at none = []
orders_at (some group) = group

-- A day in microseconds. `datetime.combine(as_of, time.max)` is the last microsecond of its day.
abbrev pub day : ℕ
day = 86_400_000_000

-- `parse_repair_timestamp` of a text. `zulu` writes "+00:00" for a "Z"; `fromisoformat` is the library's
-- parser, with `none` for its ValueError; `astimezone` takes a time without an offset as UTC and
-- brings it to UTC, with `none` for the OverflowError of a time that leaves the calendar. The outer
-- `none` stands for that exception, the inner one for the result None.
module _ {T : Type 0} (strip zulu : String → String) (fromisoformat : String → Option T)
    (astimezone : T → Option ℕ) where
  abbrev pub in_utc : Option ℕ → Option (Option ℕ)
  in_utc none = none
  in_utc (some u) = some (some u)

  abbrev pub read_time : Option T → Option (Option ℕ)
  read_time none = some none
  read_time (some t) = in_utc (astimezone t)

  unfoldable pub parse_repair_timestamp : Option String → Option (Option ℕ)
  parse_repair_timestamp value =
      let raw = strip (or_else "" value) in
      if raw == "" then some none else read_time (fromisoformat (zulu raw))

-- What was read, if nothing was raised.
abbrev pub time_of : Option (Option ℕ) → Option ℕ
time_of none = none
time_of (some t) = t

-- `str.strip`, `str.lower` and `str.upper` of the language, and `parse_repair_timestamp` with its
-- arguments.
module _ (strip lower upper : String → String) (parse : Option String → Option (Option ℕ)) where
  -- `_clean`. No cleaned text is empty, so that one that is there is also true.
  unfoldable pub clean : Option String → Option String
  clean value =
      let normalized = strip (or_else "" value) in
      if contains (lower normalized) missing_identities then none else some normalized

  -- `_status`.
  unfoldable pub status_of : Option String → String
  status_of value = lower (strip (or_else "OPEN" value))

  unfoldable pub is_open_repair : Order → Bool
  is_open_repair o = upper (strip (or_else "" o.order_type)) == "RO" && ltb 0 (units o)

  unfoldable pub identity : Order → Option Identity
  identity o = both (clean o.order_id) (clean o.order_line_id)

  unfoldable pub repair_orders : List Order → List Order
  repair_orders orders = filter is_open_repair orders

  -- `_exclusion`.
  unfoldable pub exclusion : Order → ℕ → Code → Exclusion
  exclusion o quantity reason = record {
    repair_order_id = clean o.order_id;
    repair_line_id = clean o.order_line_id;
    serial_number = clean o.serial_number;
    quantity = quantity;
    reason = reason;
    detail = reason_detail reason;
  }

  -- The loop that fills `by_line` and `unidentified`.
  unfoldable pub group_from :
      List Order → Dict Identity (List Order) → List Order → Dict Identity (List Order) × List Order
  group_from [] by_line unidentified = (by_line, unidentified)
  group_from (o ∷ os) by_line unidentified = elim (identity o) [
    | none ↦ group_from os by_line (unidentified ++ o ∷ [])
    | some k ↦
        group_from os (insert k (orders_at (lookup k by_line) ++ o ∷ []) by_line) unidentified
  ]

  -- The key by which a group is sorted: the larger quantity first, then the smaller serial number.
  unfoldable pub before : Order → Order → Bool
  before a b =
      ltb (units b) (units a)
      || (nat_beq (units a) (units b)
          && text_le (or_else "" (clean a.serial_number)) (or_else "" (clean b.serial_number)))

  -- `sorted(group, key=...)[0]`: the first of the least.
  unfoldable pub least : Order → List Order → Order
  least o [] = o
  least o (p ∷ ps) = least (if before o p then o else p) ps

  unfoldable pub canonical_from : List (Identity × List Order) → List Order
  canonical_from [] = []
  canonical_from ((k, []) ∷ groups) = canonical_from groups
  canonical_from ((k, o ∷ os) ∷ groups) = least o os ∷ canonical_from groups

  -- `canonical_orders`: one line of each identity, in the order of the identities.
  unfoldable pub canonical_orders : Dict Identity (List Order) → List Order
  canonical_orders by_line = canonical_from (sorted (λ a b. texts_le a.0 b.0) by_line)

  module _ (orders : List Order) (location_code : String) (as_of : ℕ) where
    abbrev pub age_reasons : Option ℕ → List Code
    age_reasons none = missing_opened_at ∷ []
    age_reasons (some t) = if leb (as_of * day + day) t then future_opened_at ∷ [] else []

    abbrev pub location_reasons : Option String → List Code
    location_reasons none = missing_location ∷ []
    location_reasons (some l) = if l == location_code then [] else location_mismatch ∷ []

    abbrev pub status_reasons : String → List Code
    status_reasons s =
        if contains s terminal_statuses
        then terminal_status ∷ []
        else if contains s open_statuses
        then []
        else ineligible_status ∷ []

    -- `line_counts[(order_id, line_id)] > 1`
    abbrev pub line_reasons : Option Identity → List Code
    line_reasons none = []
    line_reasons (some k) =
        if ltb 1 (count (λ o. is_identity k (identity o)) orders)
        then duplicate_order_line ∷ []
        else []

    abbrev pub serial_reasons : Option String → ℕ → List Code
    serial_reasons none qty = []
    serial_reasons (some s) qty =
        (if ltb 1 (count (λ o. is_serial s (clean o.serial_number)) orders)
          then duplicate_serial ∷ []
          else [])
        ++ (if nat_beq qty 1 then [] else serial_quantity_mismatch ∷ [])

    -- The list `reasons` of a line.
    unfoldable pub reasons_of : Order → List Code
    reasons_of o =
        age_reasons (time_of (parse o.opened_at))
        ++ (location_reasons (clean o.location)
            ++ (status_reasons (status_of o.status)
                ++ (line_reasons (identity o) ++ serial_reasons (clean o.serial_number) (units o))))
