-- ===== src/Contracts.antt =====
-- The messages of the recommendation engine that the later stages read: contracts/policy.py,
-- contracts/context.py and contracts/recommendation.py of
-- services/recommendation-engine/src/trax_io_reco, with Python's floats and decimals as
-- parameters. Of a recommendation these are the fields that a modelled stage reads.
use aeronta_inventory.Base.{ℕ, ◌≡◌, ◌≤◌, ◌⊎◌, String, Bool, true, Option, List}
use aeronta_inventory.Enums.{AutonomyTier, AogRiskLevel}

-- The float operations that the guardrails use. The laws are those of `<=` on floats that are no
-- NaN, which a quotient of two integers with a divisor other than 0 is not, and those of the signs of
-- rounded results.
pub record Floats : Type 1 where
  pub F : Type 0
  pub zero_float : F
  pub one : F
  -- `a / b`
  pub ratio : ℕ → ℕ → F
  -- `a <= b`
  pub le : F → F → Bool
  -- `float(a - b)` of two integers
  pub diff : ℕ → ℕ → F
  pub add : F → F → F
  pub sub : F → F → F
  pub mul : F → F → F
  pub le_refl : (a : F) → le a a ≡ true
  pub le_total : (a b : F) → (le a b ≡ true) ⊎ (le b a ≡ true)
  pub le_trans : (a b c : F) → le a b ≡ true → le b c ≡ true → le a c ≡ true
  pub zero_le_one : le zero_float one ≡ true
  pub ratio_nonneg : (a b : ℕ) → le zero_float (ratio a b) ≡ true
  pub diff_nonneg : (a b : ℕ) → b ≤ a → le zero_float (diff a b) ≡ true
  pub add_nonneg :
      (a b : F) → le zero_float a ≡ true → le zero_float b ≡ true → le zero_float (add a b) ≡ true
  pub sub_nonneg : (a b : F) → le b a ≡ true → le zero_float (sub a b) ≡ true
  pub mul_nonneg :
      (a b : F) → le zero_float a ≡ true → le zero_float b ≡ true → le zero_float (mul a b) ≡ true

pub data PolicyKind : Type 0 where
  base_stock s_S r_Q : PolicyKind

pub record AppliedConstraint : Type 0 where
  pub name : String
  pub value : Option String
  pub binding : Bool
  pub source : String

-- `PolicyRecommendation` before its validator: the fields that a modelled stage reads.
pub record Policy : Type 0 where
  pub rop : ℕ
  pub eoq : ℕ
  pub safety_stock : ℕ
  pub max_stock : ℕ
  pub provenance_id : String

pub record CurrentPolicy : Type 0 where
  pub rop : ℕ
  pub eoq : ℕ
  pub safety_stock : ℕ
  pub max_stock : ℕ

-- `F` stands for float.
pub record Recommendation (F : Type 0) : Type 0 where
  pub recommendation_id : String
  pub tenant_id : String
  pub part_number : String
  pub current_location : String
  pub aog_risk_level : AogRiskLevel
  pub criticality_tier : ℕ
  pub confidence_score : F
  pub suggested_autonomy_tier : AutonomyTier
  pub guardrail_flags : List String
  pub input_snapshot_hash : String
  pub policy : Option Policy
  pub current_policy : Option CurrentPolicy
