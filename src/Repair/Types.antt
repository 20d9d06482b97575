-- ===== src/Repair/Types.antt =====
-- services/recommendation-engine/src/trax_io_reco/contracts/repair.py: the messages of the repair
-- pipeline and their validators. A time counts microseconds, a date its days.
use aeronta_inventory.Base.{
  ℕ, ◌+◌, ◌-◌, String, Bool, true, false, not, ◌&&◌, ◌||◌, Option, none, some, List, [], ◌∷◌, leb,
  ltb, nat_beq, contains, string_eq, sum_of, ◌==◌,
}

-- `RepairWorkExclusionCode`.
pub data Code : Type 0 where
  missing_order_identity missing_line_identity missing_opened_at future_opened_at : Code
  missing_location location_mismatch terminal_status ineligible_status : Code
  duplicate_order_line duplicate_serial serial_quantity_mismatch aggregate_wip_cap : Code
  unidentified_aggregate_residual : Code

abbrev pub rank : Code → ℕ
rank missing_order_identity = 0
rank missing_line_identity = 1
rank missing_opened_at = 2
rank future_opened_at = 3
rank missing_location = 4
rank location_mismatch = 5
rank terminal_status = 6
rank ineligible_status = 7
rank duplicate_order_line = 8
rank duplicate_serial = 9
rank serial_quantity_mismatch = 10
rank aggregate_wip_cap = 11
rank unidentified_aggregate_residual = 12

-- `a in codes`
abbrev pub includes : Code → List Code → Bool
includes a [] = false
includes a (b ∷ bs) = nat_beq (rank a) (rank b) || includes a bs

-- `RepairPipelineWarningCode`.
pub data Warning : Type 0 where
  repair_pipeline_unavailable repair_work_excluded repair_identity_excluded : Warning
  repair_age_missing repair_source_duplicates repair_wip_mismatch : Warning
  repair_residual_unidentified : Warning

abbrev pub is_unavailable_warning : Warning → Bool
is_unavailable_warning repair_pipeline_unavailable = true
is_unavailable_warning _ = false

pub record WorkItem : Type 0 where
  pub tenant_id : String
  pub repair_order_id : String
  pub repair_line_id : String
  pub part_number : String
  pub quantity : ℕ
  pub location_code : String
  pub opened_at : ℕ
  pub status : String
  pub shop_code : Option String
  pub vendor_code : Option String
  pub serial_number : Option String

abbrev pub open_statuses : List String
open_statuses =
    "open" ∷ "in_progress" ∷ "in progress" ∷ "awaiting_parts" ∷ "awaiting parts" ∷ "awaiting_vendor"
    ∷ "awaiting vendor" ∷ "on_hold" ∷ "on hold" ∷ []

abbrev pub terminal_statuses : List String
terminal_statuses =
    "completed" ∷ "closed" ∷ "cancelled" ∷ "canceled" ∷ "scrapped" ∷ "condemned" ∷ []

abbrev pub single : Option String → ℕ → Bool
single none n = true
single (some _) n = nat_beq n 1

-- `Field(min_length=1)`
abbrev pub present : String → Bool
present s = not (s == "")

-- `RepairWorkItem`: `_coherent_open_work`, the positive quantity, and the texts that are not empty.
unfoldable pub valid_item : WorkItem → Bool
valid_item i =
    (ltb 0 i.quantity
      && (single i.serial_number i.quantity
          && (not (contains i.status terminal_statuses) && contains i.status open_statuses)))
    && ((present i.tenant_id && (present i.repair_order_id && present i.repair_line_id))
        && (present i.part_number && (present i.location_code && present i.status)))

-- `IncludedRepairPosition`.
pub record Position : Type 0 where
  pub work_item : WorkItem
  pub eligible_quantity : ℕ
  pub age_days : ℕ

-- `_eligible_does_not_exceed_line`, and the positive quantity.
unfoldable pub valid_position : Position → Bool
valid_position p = ltb 0 p.eligible_quantity && leb p.eligible_quantity p.work_item.quantity

pub record Exclusion : Type 0 where
  pub repair_order_id : Option String
  pub repair_line_id : Option String
  pub serial_number : Option String
  pub quantity : ℕ
  pub reason : Code
  pub detail : String

pub data PipelineStatus : Type 0 where
  available partial unavailable : PipelineStatus

-- `RepairPipeline`; `time_phased_credit_quantity` is the constant 0.
pub record Pipeline : Type 0 where
  pub tenant_id : String
  pub part_number : String
  pub location_code : String
  pub as_of : ℕ
  pub status : PipelineStatus
  pub aggregate_wip_quantity : ℕ
  pub identified_open_quantity : ℕ
  pub unidentified_source_quantity : ℕ
  pub eligible_quantity : ℕ
  pub excluded_identifiable_quantity : ℕ
  pub aggregate_residual_quantity : ℕ
  pub source_overflow_quantity : ℕ
  pub included : List Position
  pub exclusions : List Exclusion
  pub warning_codes : List Warning

abbrev pub is_empty : {A : Type 0} → List A → Bool
is_empty [] = true
is_empty (x ∷ xs) = false

abbrev pub has_unavailable_warning : List Warning → Bool
has_unavailable_warning [] = false
has_unavailable_warning (w ∷ ws) = is_unavailable_warning w || has_unavailable_warning ws

-- The last two tests of `_quantities_reconcile`.
abbrev pub valid_status : PipelineStatus → Pipeline → Bool
valid_status available p =
    is_empty p.exclusions
    && (is_empty p.warning_codes
        && (nat_beq p.aggregate_residual_quantity 0 && nat_beq p.source_overflow_quantity 0))
valid_status partial p = true
valid_status unavailable p = has_unavailable_warning p.warning_codes

-- `RepairPipeline`: the texts that are not empty, and `_quantities_reconcile`. What is subtracted stops at 0, as `max(0, ...)` does.
unfoldable pub valid_pipeline : Pipeline → Bool
valid_pipeline p =
    let observed = p.identified_open_quantity + p.unidentified_source_quantity in
    (present p.tenant_id && (present p.part_number && present p.location_code))
    && (leb p.eligible_quantity p.aggregate_wip_quantity
        && (leb p.eligible_quantity p.identified_open_quantity
            && (nat_beq (p.eligible_quantity + p.excluded_identifiable_quantity)
                  p.identified_open_quantity
                && (nat_beq p.aggregate_residual_quantity (p.aggregate_wip_quantity - observed)
                    && (nat_beq p.source_overflow_quantity (observed - p.aggregate_wip_quantity)
                        && (nat_beq (sum_of Position.eligible_quantity p.included)
                              p.eligible_quantity
                            && valid_status p.status p))))))
