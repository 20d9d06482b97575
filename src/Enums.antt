-- ===== src/Enums.antt =====
-- The enumerations of services/recommendation-engine/src/trax_io_reco/contracts/enums.py.
use aeronta_inventory.Base.{ℕ}

-- `AutonomyTier`, an `IntEnum`.
pub data AutonomyTier : Type 0 where
  advisor bounded autonomous : AutonomyTier

-- `AogRiskLevel`, an `IntEnum` ordered for thresholds.
pub data AogRiskLevel : Type 0 where
  no_risk low medium high critical : AogRiskLevel

-- `int(level)`.
unfoldable pub aog_value : AogRiskLevel → ℕ
aog_value no_risk = 0
aog_value low = 1
aog_value medium = 2
aog_value high = 3
aog_value critical = 4

-- `RecommendationType`.
pub data RecommendationType : Type 0 where
  purchase transfer reduce_stock sell adjust_min_max : RecommendationType

-- `Regime`.
pub data Regime : Type 0 where
  ultra_rare intermittent moderate high_volume : Regime

-- `EvidenceKind`.
pub data EvidenceKind : Type 0 where
  work_order maintenance_event task_card requisition open_order : EvidenceKind
  demand_history donor_stock shelf_life aog_event : EvidenceKind
