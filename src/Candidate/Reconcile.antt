-- ===== src/Candidate/Reconcile.antt =====
-- candidate/reconcile.py: a candidate is built from its action lines and the source quantities.
use aeronta_inventory.Base.{
  ℕ, ◌+◌, String, ◌<>◌, Bool, true, false, not, ◌&&◌, ◌||◌, Option, none, some, List, [], ◌∷◌, ◌++◌,
  map, filter, count, contains, sorted, text_le, leb, nat_beq, ◌==◌, string_eq, if◌then◌else◌,
}
use aeronta_inventory.Candidate.Decimals.{Decimals}
use aeronta_inventory.Candidate.Amounts.{larger, sum_from}
use aeronta_inventory.Candidate.Types.{
  ActionKind, CandidateKind, CandidateTargetLevels, CandidateActionLine, LifecycleEconomics,
  LifecycleCostComponents, ConstraintScope, ConstraintEvidence, CandidateEvidence, ModelIdentity,
}
use aeronta_inventory.Candidate.Valid.{
  kind_text, buys, receives, releases, net_of, service_of, moved, committed,
}

-- The arguments of `reconcile_candidate`.
pub record Request (D : Type 0) : Type 0 where
  pub frontier_id : String
  pub tenant_id : String
  pub pn : String
  pub location : String
  pub decision_key : String
  pub member_keys : List String
  pub candidate_kind : CandidateKind
  pub label : String
  pub is_no_change : Bool
  pub model_identity : ModelIdentity
  pub current_levels : CandidateTargetLevels
  pub target_levels : CandidateTargetLevels
  pub actions : List (CandidateActionLine D)
  pub available_before : D
  pub expected_receipts_before : D
  pub projected_demand : D
  pub economics : LifecycleEconomics D
  pub expected_aog_risk : D
  pub confidence : D
  pub constraints : List ConstraintEvidence
  pub evidence : List CandidateEvidence
  pub infeasibility_reasons : List String

-- `value or ""`
abbrev pub text_of : Option String → String
text_of none = ""
text_of (some s) = s

abbrev pub scope_text : ConstraintScope → String
scope_text ConstraintScope.policy = "policy"
scope_text ConstraintScope.action = "action"

-- `<=` of tuples of texts.
abbrev pub keys_le : List String → List String → Bool
keys_le [] _ = true
keys_le (x ∷ xs) [] = false
keys_le (x ∷ xs) (y ∷ ys) = let tail = keys_le xs ys in if x == y then tail else text_le x y

abbrev pub constraint_key : ConstraintEvidence → List String
constraint_key c =
    c.constraint_id ∷ scope_text c.scope ∷ c.source ∷ text_of c.value ∷ text_of c.detail ∷ []

abbrev pub constraint_le : ConstraintEvidence → ConstraintEvidence → Bool
constraint_le a b = keys_le (constraint_key a) (constraint_key b)

abbrev pub evidence_key : CandidateEvidence → List String
evidence_key e = e.kind ∷ e.source ∷ text_of e.reference_id ∷ e.detail ∷ []

abbrev pub evidence_le : CandidateEvidence → CandidateEvidence → Bool
evidence_le a b = keys_le (evidence_key a) (evidence_key b)

-- `_sorted_constraints`.
unfoldable pub sorted_constraints : List ConstraintEvidence → List ConstraintEvidence
sorted_constraints cs = sorted constraint_le cs

-- `_sorted_evidence`.
unfoldable pub sorted_evidence : List CandidateEvidence → List CandidateEvidence
sorted_evidence es = sorted evidence_le es

module _ {D : Type 0} where
  abbrev pub action_key : CandidateActionLine D → List String
  action_key a =
      kind_text a.kind
      ∷ a.line_id
      ∷ text_of a.source_location
      ∷ text_of a.destination_location
      ∷ text_of a.source_reference
      ∷ []

  abbrev pub action_le : CandidateActionLine D → CandidateActionLine D → Bool
  action_le a b = keys_le (action_key a) (action_key b)

  -- `_sorted_actions`.
  unfoldable pub sorted_actions : List (CandidateActionLine D) → List (CandidateActionLine D)
  sorted_actions ls = sorted action_le ls

-- `set(texts)`, each text once.
unfoldable pub distinct_texts : List String → List String
distinct_texts [] = []
distinct_texts (x ∷ xs) = let rest = distinct_texts xs in if contains x rest then rest else x ∷ rest

abbrev pub reserved_ids : List String
reserved_ids = "reorder_point_floor" ∷ "maximum_stock_floor" ∷ "physical_outbound_limit" ∷ []

-- The generated constraint, unless one has its id.
abbrev pub unless_named : List String → ConstraintEvidence → List ConstraintEvidence
unless_named ids c = if contains c.constraint_id ids then [] else c ∷ []

module _ (decimals : Decimals) where
  open decimals use {D, zero_decimal, one_decimal, le, eq, add, sub, mul, div, neg, of_nat, money}

  -- The quantities that `reconcile_candidate` sums.
  abbrev pub quantity_of : (ActionKind → Bool) → List (CandidateActionLine D) → D
  quantity_of p ls = sum_from decimals zero_decimal (λ a. p a.kind) CandidateActionLine.quantity ls

  -- `lifecycle_costs`.
  unfoldable pub costs_of :
      LifecycleEconomics D → List (CandidateActionLine D) → D → D → LifecycleCostComponents D
  costs_of e ls shortage excess =
      let cash = committed decimals ls in
      let holding = money (
        div
          (mul (mul (mul excess e.inventory_unit_value) e.annual_holding_rate)
            (of_nat e.horizon_days))
          (of_nat 365)) in
      let orders = count (λ a. buys a.kind && not (le a.quantity zero_decimal)) ls in
      let ordering = money (mul e.ordering_cost_per_purchase (of_nat orders)) in
      let short = money (mul shortage e.shortage_cost_per_unit) in
      let other = money e.other_cost in
      record {
        currency = e.currency;
        acquisition_cash = cash;
        holding_cost = holding;
        ordering_cost = ordering;
        shortage_cost = short;
        other_cost = other;
        total_lifecycle_cost = add (add (add (add cash holding) ordering) short) other;
      }

  -- The quantities of a request, over its lines in order.
  pub record Quantities : Type 0 where
    pub purchase : D
    pub transfer_in : D
    pub outbound : D
    pub inbound : D
    pub action : D
    pub ending_net : D
    pub shortage : D
    pub excess : D
    pub service_level : D

  unfoldable pub quantities : Request D → List (CandidateActionLine D) → Quantities
  quantities r ls =
      let purchase = quantity_of buys ls in
      let transfer_in = quantity_of receives ls in
      let outbound = quantity_of releases ls in
      let inbound = add purchase transfer_in in
      let net =
        net_of decimals r.available_before r.expected_receipts_before inbound outbound
          r.projected_demand in
      let shortage = larger decimals zero_decimal (neg net) in
      record {
        purchase = purchase;
        transfer_in = transfer_in;
        outbound = outbound;
        inbound = inbound;
        action = moved decimals ls;
        ending_net = net;
        shortage = shortage;
        excess = larger decimals zero_decimal net;
        service_level = service_of decimals shortage r.projected_demand;
      }

module _ (decimals : Decimals) (show : ℕ → String) where
  open decimals use {D, zero_decimal, le, format}

  abbrev pub rop_floor : CandidateTargetLevels → ConstraintEvidence
  rop_floor t =
      let satisfied = leb t.safety_stock t.rop in
      record {
        constraint_id = "reorder_point_floor";
        source = "target_levels.rop>=target_levels.safety_stock";
        value = some (show t.rop <> (">=" <> show t.safety_stock));
        scope = ConstraintScope.policy;
        hard = true;
        satisfied = satisfied;
        binding = not satisfied || nat_beq t.rop t.safety_stock;
        detail = none;
      }

  abbrev pub max_floor : CandidateTargetLevels → ConstraintEvidence
  max_floor t =
      let satisfied = leb (t.rop + t.eoq) t.max_stock in
      record {
        constraint_id = "maximum_stock_floor";
        source = "target_levels.max_stock>=target_levels.rop+target_levels.eoq";
        value = some (show t.max_stock <> (">=" <> show (t.rop + t.eoq)));
        scope = ConstraintScope.policy;
        hard = true;
        satisfied = satisfied;
        binding = not satisfied || nat_beq t.max_stock (t.rop + t.eoq);
        detail = none;
      }

  -- The limit is what is available, received and brought in.
  abbrev pub outbound_limit : D → D → ConstraintEvidence
  outbound_limit limit outbound = record {
    constraint_id = "physical_outbound_limit";
    source = "candidate.reconciliation.available_plus_inbound";
    value = some (format limit);
    scope = ConstraintScope.action;
    hard = true;
    satisfied = le outbound limit;
    binding = le limit outbound && not (le outbound zero_decimal);
    detail = none;
  }

  abbrev pub unreserved : List ConstraintEvidence → List ConstraintEvidence
  unreserved cs = filter (λ c. not (contains c.constraint_id reserved_ids)) cs

  -- `_generated_hard_constraints`.
  unfoldable pub generated_hard_constraints :
      List ConstraintEvidence → CandidateTargetLevels → D → D → List ConstraintEvidence
  generated_hard_constraints current t limit outbound =
      let own = unreserved current in
      let ids = map ConstraintEvidence.constraint_id own in
      sorted_constraints (
        ((own ++ unless_named ids (rop_floor t)) ++ unless_named ids (max_floor t))
        ++ unless_named ids (outbound_limit limit outbound))
