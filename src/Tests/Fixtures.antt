-- ===== src/Tests/Fixtures.antt =====
-- Shared values: floats as basis points, printing, and recommendations.
use aeronta_inventory.Base.{
  ℕ, zero, suc, ◌+◌, ◌-◌, ◌*◌, ◌/◌, ◌≡◌, refl, ◌⊎◌, String, ◌<>◌, true, false, none, some, [],
  arith, leb,
}
use aeronta_inventory.Enums.{bounded, no_risk}
use aeronta_inventory.Contracts.{Floats, Policy, CurrentPolicy, Recommendation}
use aeronta_inventory.Guardrail.{AutonomyConfig}
use aeronta_inventory.Writeback.{WritebackRequest, RollbackRequest}

pub leb_refl : (a : ℕ) → leb a a ≡ true
leb_refl a = ground arith

pub leb_total : (a b : ℕ) → (leb a b ≡ true) ⊎ (leb b a ≡ true)
leb_total a b = ground arith

pub leb_trans : (a b c : ℕ) → leb a b ≡ true → leb b c ≡ true → leb a c ≡ true
leb_trans a b c h k = ground arith

pub leb_zero : (a : ℕ) → leb 0 a ≡ true
leb_zero a = ground arith

-- Numbers in basis points, rounded down.
abbrev pub bps : Floats
bps = record {
  F = ℕ;
  zero_float = 0;
  one = 10000;
  ratio = λ a b. a * 10000 / b;
  le = leb;
  diff = λ a b. (a - b) * 10000;
  add = ◌+◌;
  sub = ◌-◌;
  mul = λ a b. a * b / 10000;
  le_refl = leb_refl;
  le_total = leb_total;
  le_trans = leb_trans;
  zero_le_one = refl;
  ratio_nonneg = λ a b. leb_zero (a * 10000 / b);
  diff_nonneg = λ a b h. leb_zero ((a - b) * 10000);
  add_nonneg = λ a b h k. leb_zero (a + b);
  sub_nonneg = λ a b h. leb_zero (a - b);
  mul_nonneg = λ a b h k. leb_zero (a * b / 10000);
}

-- A tally, as a way to print a number.
pub print : ℕ → String
print zero = ""
print (suc n) = "i" <> print n

-- The defaults of `AutonomyConfig`.
abbrev pub default_config : AutonomyConfig ℕ
default_config = record {
  bounded_max_delta_pct = 2500;
  autonomous_max_delta_pct = 10000;
  min_autonomous_criticality_tier = 4;
}

abbrev pub policy : Policy
policy = record { rop = 11; eoq = 4; safety_stock = 5; max_stock = 20; provenance_id = "p1" }

abbrev pub current : CurrentPolicy
current = record { rop = 10; eoq = 4; safety_stock = 5; max_stock = 20 }

abbrev pub wheel : Recommendation ℕ
wheel = record {
  recommendation_id = "r1";
  tenant_id = "acme";
  part_number = "A320-WHEEL";
  current_location = "LHR";
  aog_risk_level = no_risk;
  criticality_tier = 4;
  confidence_score = 9000;
  suggested_autonomy_tier = bounded;
  guardrail_flags = [];
  input_snapshot_hash = "h1";
  policy = some policy;
  current_policy = some current;
}

abbrev pub brake : Recommendation ℕ
brake = record wheel { recommendation_id = "r2"; part_number = "A320-BRAKE"; policy = none }

-- A live write.
abbrev pub order : WritebackRequest
order = record {
  tenant_id = "acme";
  pn = "A320-WHEEL";
  location = "LHR";
  rop = 11;
  eoq = 4;
  safety_stock = 5;
  max_stock = 20;
  provenance_id = "p1";
  idempotency_key = "k1";
  tier = some bounded;
  shadow = false;
}

abbrev pub next_order : WritebackRequest
next_order = record order { rop = 12; idempotency_key = "k2" }

abbrev pub undo : RollbackRequest
undo = record {
  tenant_id = "acme";
  pn = "A320-WHEEL";
  location = "LHR";
  reason = "test";
  principal = "planner";
  requested_at = 300;
}
