-- ===== src/Candidate/Builders/Returns.antt =====
-- `reconcile_candidate` returns: its own arithmetic passes the validators.
use aeronta_inventory.Base.{
  ℕ, ◌≡◌, refl, ◌∙◌, String, true, false, not, some, if_elim, all, List, [], ◌∷◌, ◌++◌, All, map,
  contains, sorted, text_le, string_eq, arith, inl, inr, Bool-cases,
}
use aeronta_inventory.Base.Sort.{All-sorted}
use aeronta_inventory.Base.Order.{text_le_total, text_le_trans}
use aeronta_inventory.Base.Shuffle.{
  Shuffle, map-Shuffle, sorted-is_Shuffle, sorted-IsSorted, sorted_of_IsSorted,
}
use aeronta_inventory.Candidate.Decimals.{Decimals}
use aeronta_inventory.Candidate.Amounts.{smaller, eq_refl, larger_left, smaller_left, smaller_right}
use aeronta_inventory.Candidate.Types.{
  CandidateActionLine, ConstraintEvidence, PolicyCandidate, CandidateTargetLevels,
}
use aeronta_inventory.Candidate.Planner.{unique, is_nil, valid_members, valid_forecasts}
use aeronta_inventory.Candidate.Valid.{
  in_unit, valid_economics, valid_candidate, valid_kinds, explained, agrees, one_currency, moved,
  committed,
}
use aeronta_inventory.Candidate.Reconcile.{
  Request, reserved_ids, unreserved, rop_floor, max_floor, outbound_limit, constraint_le, action_le,
  evidence_le, sorted_constraints, sorted_evidence, sorted_actions, generated_hard_constraints,
  quantities, costs_of, distinct_texts,
}
use aeronta_inventory.Candidate.Builders.{
  constraints_of, candidate_of, identified, acceptable, valid, stripped, non_empty, valid_texts,
  reasons_of, reconcile_candidate, outcome_of, ledger_of,
}
use aeronta_inventory.Candidate.Builders.Keys.{
  same_texts_refl, contains-Shuffle, unique-Shuffle, unique-filter, contains-filter_out,
  contains-append, unique-append,
}
use aeronta_inventory.Candidate.Builders.Kinds.{lines_fit, sorted-fits, idle-plain}
use aeronta_inventory.Candidate.Builders.Sums.{IsValid}
use aeronta_inventory.Candidate.Builders.Ledger.{costs_of-valid, outcome_of-valid, ledger_of-valid}

-- The canonical order of distinct member keys is valid.
sorted-valid_members :
    (key : String) (members : List String)
    → contains key members ≡ true
    → unique members ≡ true
    → valid_members key (sorted text_le members) ≡ true
unfolding valid_members
sorted-valid_members key members h k =
    let s = sorted-is_Shuffle text_le members in
    let again : sorted text_le (sorted text_le members) ≡ sorted text_le members =
      sorted_of_IsSorted text_le text_le_total text_le_trans (sorted text_le members)
        (sorted-IsSorted text_le text_le_total text_le_trans members) in
    rw again (
      ground (
        arith,
        contains-Shuffle key s,
        h,
        unique-Shuffle s,
        k,
        same_texts_refl (sorted text_le members),
      ))

is_nil-Shuffle : {A : Type 0} {xs ys : List A} → Shuffle xs ys → is_nil xs ≡ is_nil ys
is_nil-Shuffle Shuffle.nil = refl
is_nil-Shuffle (Shuffle.cons x s) = refl
is_nil-Shuffle (Shuffle.swap x y xs) = refl
is_nil-Shuffle (Shuffle.trans s t) = is_nil-Shuffle s ∙ is_nil-Shuffle t

abbrev id_of : ConstraintEvidence → String
id_of = ConstraintEvidence.constraint_id

not_unreserved :
    (decimals : Decimals) (show : ℕ → String) (id : String) (cs : List ConstraintEvidence)
    → contains id reserved_ids ≡ true
    → contains id (map id_of (unreserved decimals show cs)) ≡ false
not_unreserved decimals show id cs h =
    contains-filter_out id_of (λ c. not (contains c.constraint_id reserved_ids)) id cs
      (λ c e. rw (e, h) refl)

module _ (decimals : Decimals) (show : ℕ → String) where
  open decimals use {D}

  unique-generated :
      (cs : List ConstraintEvidence) (t : CandidateTargetLevels) (limit outbound : D)
      → unique (map id_of cs) ≡ true
      → unique (map id_of (generated_hard_constraints decimals show cs t limit outbound)) ≡ true
  unfolding generated_hard_constraints sorted_constraints
  unique-generated cs t limit outbound h =
      let own = unreserved decimals show cs in
      let a = rop_floor decimals show t in
      let b = max_floor decimals show t in
      let c = outbound_limit decimals show limit outbound in
      let free_a = not_unreserved decimals show a.constraint_id cs refl in
      let free_b = not_unreserved decimals show b.constraint_id cs refl in
      let free_c = not_unreserved decimals show c.constraint_id cs refl in
      let u = unique-filter id_of (λ c. not (contains c.constraint_id reserved_ids)) cs h in
      rw (free_a, free_b, free_c)
        (unique-Shuffle (
            map-Shuffle id_of
              (sorted-is_Shuffle constraint_le (((own ++ a ∷ []) ++ b ∷ []) ++ c ∷ [])))
          ∙ unique-append id_of c ((own ++ a ∷ []) ++ b ∷ [])
              (unique-append id_of b (own ++ a ∷ []) (unique-append id_of a own u free_a)
                (contains-append id_of b.constraint_id a own ∙ rw free_b refl))
              (contains-append id_of c.constraint_id b (own ++ a ∷ [])
                ∙ rw (contains-append id_of c.constraint_id a own, free_c) refl))

module _ (decimals : Decimals) (show : ℕ → String)
    (candidate_identifier : String → PolicyCandidate (Decimals.D decimals) → String)
    (strip : String → String) where
  open decimals use {D, zero_decimal, le, le_trans, eq_iff}

  -- A text that is stripped and not empty.
  abbrev pub IsClean : String → Type 0
  IsClean s = (strip s ≡ s) × (non_empty decimals show candidate_identifier strip s ≡ true)

  -- The texts of a request that its candidate takes, but for the label.
  pub record IsNamed (r : Request D) : Type 0 where
    pub tenant : IsClean r.tenant_id
    pub part : IsClean r.pn
    pub place : IsClean r.location
    pub key : IsClean r.decision_key
    pub members : All IsClean r.member_keys
    pub reasons : All IsClean r.infeasibility_reasons

  All-distinct : (P : String → Type 0) (xs : List String) → All P xs → All P (distinct_texts xs)
  unfolding distinct_texts
  All-distinct P [] h = tt
  All-distinct P (x ∷ xs) (p, h) =
      if_elim (All P) (contains x (distinct_texts xs)) (distinct_texts xs) (x ∷ distinct_texts xs)
        (λ e. All-distinct P xs h) (λ e. (p, All-distinct P xs h))

  map-clean : (xs : List String) → All IsClean xs → map strip xs ≡ xs
  map-clean [] h = refl
  map-clean (x ∷ xs) ((same, full), h) = rw (same, map-clean xs h) refl

  all-clean :
      (xs : List String)
      → All IsClean xs
      → all (non_empty decimals show candidate_identifier strip) xs ≡ true
  all-clean [] h = refl
  all-clean (x ∷ xs) ((same, full), h) = rw (full, all-clean xs h) refl

  -- What `reconcile_candidate` leaves to its caller.
  pub record IsRequest (r : Request D) : Type 0 where
    pub lines : All (IsValid decimals) r.actions
    pub economics : valid_economics decimals r.economics ≡ true
    pub accepted : acceptable decimals show candidate_identifier strip r ≡ true
    pub own_key : contains r.decision_key r.member_keys ≡ true
    pub forecasts :
        valid_forecasts r.decision_key (sorted text_le r.member_keys) r.model_identity ≡ true
    pub some_evidence : is_nil r.evidence ≡ false
    pub line_ids : unique (map CandidateActionLine.line_id r.actions) ≡ true
    pub constraint_ids : unique (map ConstraintEvidence.constraint_id r.constraints) ≡ true
    pub risk : in_unit decimals r.expected_aog_risk ≡ true
    pub confidence : in_unit decimals r.confidence ≡ true
    pub names : IsNamed r
    pub label : IsClean r.label
    pub kinds : lines_fit decimals r ≡ true

  module _ (r : Request D) (h : IsRequest r) where
    abbrev lines : List (CandidateActionLine D)
    lines = sorted_actions r.actions

    lines-valid : All (IsValid decimals) lines
    unfolding sorted_actions
    lines-valid = All-sorted action_le (IsValid decimals) r.actions h.lines

    least : D
    least =
        smaller decimals (smaller decimals r.available_before r.expected_receipts_before)
          r.projected_demand

    least-nonneg : le zero_decimal least ≡ true
    unfolding least acceptable
    least-nonneg = ground (arith, h.accepted)

    available : le zero_decimal r.available_before ≡ true
    unfolding least
    available =
        le_trans _ _ _ least-nonneg
          (le_trans _ _ _ (smaller_left decimals _ r.projected_demand) (smaller_left decimals _ _))

    receipts : le zero_decimal r.expected_receipts_before ≡ true
    unfolding least
    receipts =
        le_trans _ _ _ least-nonneg
          (le_trans _ _ _ (smaller_left decimals _ r.projected_demand) (smaller_right decimals _ _))

    demand : le zero_decimal r.projected_demand ≡ true
    unfolding least
    demand = le_trans _ _ _ least-nonneg (smaller_right decimals _ _)

    members-valid : valid_members r.decision_key (sorted text_le r.member_keys) ≡ true
    unfolding acceptable
    members-valid =
        sorted-valid_members r.decision_key r.member_keys h.own_key (ground (arith, h.accepted))

    line_ids-unique : unique (map CandidateActionLine.line_id lines) ≡ true
    unfolding sorted_actions
    line_ids-unique =
        unique-Shuffle
          (map-Shuffle CandidateActionLine.line_id (sorted-is_Shuffle action_le r.actions))
        ∙ h.line_ids

    some_lines : is_nil lines ≡ false
    unfolding sorted_actions acceptable
    some_lines = is_nil-Shuffle (sorted-is_Shuffle action_le r.actions) ∙ ground (arith, h.accepted)

    some_evidence : is_nil (sorted_evidence r.evidence) ≡ false
    unfolding sorted_evidence
    some_evidence = is_nil-Shuffle (sorted-is_Shuffle evidence_le r.evidence) ∙ h.some_evidence

    module _ (id : String) where
      abbrev result : PolicyCandidate D
      result = candidate_of decimals show candidate_identifier strip id r

      result-explained : explained decimals result ≡ true
      unfolding explained candidate_of
      result-explained = ground arith

      result-agrees : agrees decimals result ≡ true
      unfolding agrees candidate_of outcome_of ledger_of quantities costs_of
      result-agrees =
          let q = quantities decimals r lines in
          ground (
            arith,
            eq_refl decimals q.action,
            eq_refl decimals result.lifecycle_costs.acquisition_cash,
            eq_refl decimals r.available_before,
            eq_refl decimals r.expected_receipts_before,
            eq_refl decimals r.projected_demand,
            eq_refl decimals q.inbound,
            eq_refl decimals q.outbound,
            eq_refl decimals q.ending_net,
            eq_refl decimals q.shortage,
          )

      result-currency : one_currency decimals result ≡ true
      unfolding candidate_of acceptable costs_of ledger_of
      result-currency =
          ground (
            arith,
            h.accepted,
            (string_eq.same_iff r.economics.currency r.economics.currency).1 refl,
          )

      result-constraints : unique (map ConstraintEvidence.constraint_id result.constraints) ≡ true
      unfolding candidate_of constraints_of
      result-constraints =
          unique-generated decimals show r.constraints r.target_levels _ _ h.constraint_ids

      result-kinds : valid_kinds decimals result ≡ true
      unfolding valid_kinds candidate_of quantities costs_of
      result-kinds = elim (Bool-cases r.is_no_change) [
        | inr changes ↦
            rw changes
              (sorted-fits decimals r.candidate_kind r.actions (ground (arith, h.kinds, changes)))
        | inl same ↦
            let (order, (still, free)) =
              idle-plain decimals r.actions h.lines (ground (arith, h.kinds, same)) in
            ground (
              arith,
              same,
              h.kinds,
              order,
              (eq_iff (moved decimals lines) zero_decimal).1 still,
              (eq_iff (committed decimals lines) zero_decimal).1 free,
            )
      ]

      result-valid_candidate : valid_candidate decimals result ≡ true
      unfolding valid_candidate candidate_of
      result-valid_candidate = ground (
        arith, members-valid, h.forecasts, some_lines, some_evidence, line_ids-unique,
        result-constraints, result-explained, result-currency, result-agrees, h.confidence,
        result-kinds,
      )

      members-clean : All IsClean (sorted text_le r.member_keys)
      members-clean = All-sorted text_le IsClean r.member_keys h.names.members

      reasons-clean : All IsClean (reasons_of decimals show candidate_identifier strip r)
      reasons-clean =
          All-sorted text_le IsClean (distinct_texts r.infeasibility_reasons)
            (All-distinct IsClean r.infeasibility_reasons h.names.reasons)

      result-texts : valid_texts decimals show candidate_identifier strip result ≡ true
      unfolding valid_texts candidate_of
      result-texts =
          rw
            (
              h.names.tenant.1,
              h.names.part.1,
              h.names.place.1,
              h.names.key.1,
              h.label.1,
              all-clean (sorted text_le r.member_keys) members-clean,
              all-clean (reasons_of decimals show candidate_identifier strip r) reasons-clean,
            )
            refl

      result-stripped : stripped decimals show candidate_identifier strip result ≡ result
      unfolding stripped candidate_of
      result-stripped =
          rw
            (
              h.names.tenant.0,
              h.names.part.0,
              h.names.place.0,
              h.names.key.0,
              h.label.0,
              map-clean (sorted text_le r.member_keys) members-clean,
              map-clean (reasons_of decimals show candidate_identifier strip r) reasons-clean,
            )
            refl

      result-valid : valid decimals show candidate_identifier strip result ≡ true
      unfolding valid candidate_of quantities
      result-valid =
          let q = quantities decimals r lines in
          ground (
            arith,
            result-valid_candidate,
            result-texts,
            costs_of-valid decimals r.economics lines q.shortage q.excess h.economics lines-valid
                (larger_left decimals zero_decimal _) (larger_left decimals zero_decimal _),
            outcome_of-valid decimals show candidate_identifier strip r lines lines-valid available
                receipts demand h.risk,
            ledger_of-valid decimals show candidate_identifier strip r lines lines-valid available
                receipts demand,
          )

    identified-valid :
        valid decimals show candidate_identifier strip
          (identified decimals show candidate_identifier strip r)
        ≡ true
    identified-valid =
        let id =
          candidate_identifier r.frontier_id
            (candidate_of decimals show candidate_identifier strip "" r) in
        rw (result-stripped id) (result-valid id)

    -- `reconcile_candidate` returns its candidate on a request that passes its own checks (some lines,
    -- all in the currency of the economics, stock, receipts and demand not negative, and distinct
    -- member keys), with valid action lines and economics, its own key among the member keys, valid
    -- forecasts, some evidence, distinct line and constraint ids, a risk and a confidence in the unit
    -- interval, texts that are stripped and not empty, and lines that fit its kind: one idle line and
    -- the current levels for no change, else the movements of the kind. No validator of the costs, the
    -- outcome, the ledger or the candidate then refuses what `reconcile_candidate` derives.
    pub reconcile_candidate-some :
        reconcile_candidate decimals show candidate_identifier strip r
        ≡ some (identified decimals show candidate_identifier strip r)
    unfolding reconcile_candidate
    reconcile_candidate-some = rw (h.accepted, identified-valid) refl
