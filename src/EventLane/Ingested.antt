-- ===== src/EventLane/Ingested.antt =====
-- Each event id is handled at most once, and a report accounts for every item of its batch.
use aeronta_inventory.Base.{
  ℕ, ◌≡◌, ◌≢◌, refl, sym, ◌∙◌, ◌+◌, String, Bool, true, Option, none, some, List, [], ◌∷◌, arith,
  inl, inr, Bool-cases, Option-cases, contains, string_eq, length, ==-refl,
}
use mathlib.Core.Path.{subst}
use aeronta_inventory.Base.Dict.{Dict}
use aeronta_inventory.Contracts.{Recommendation}
use aeronta_inventory.Guardrail.{GuardrailOutcome}
use aeronta_inventory.Events.{
  EventEnvelope, EventKind, Payload, Datetime, kind_matches, valid_envelope,
}
use aeronta_inventory.EventLane.Tallies.{
  Tallied, Tallied-count, count-status, is_processed-true, is_processed-false, is_no_op-true,
  is_no_op-false, is_duplicate-true, is_duplicate-false, is_invalid-true, is_invalid-false,
}
use aeronta_inventory.EventLane.{
  DomainEvent, SlimPayload, processed, no_op, duplicate, invalid, IngestOutcome, IngestReport, Lane,
  Item, envelope, raw, adapt, with_payload, to_domain_event, from_outcomes, duplicate_outcome,
  ingest, ingest_item, outcomes_from, ingest_batch, is_processed, is_no_op, is_duplicate,
  is_invalid,
}

module _ {F : Type 0} where
  adapt-none : (k : EventKind) (p : Payload F) → kind_matches k p ≡ true → adapt k p ≢ none
  unfolding adapt kind_matches
  adapt-none k p h e = ground (arith, h, e)

  -- What an envelope and its projection have in common; the payload is the one of the kind's adapter.
  pub record IsProjection (e : EventEnvelope F) (d : DomainEvent F) : Type 0 where
    pub tenant_eq : d.tenant_id ≡ e.tenant_id
    pub kind_eq : d.kind ≡ e.kind
    pub time_eq : d.occurred_at ≡ e.occurred_at
    pub version_eq : d.schema_version ≡ e.schema_version
    pub id_eq : d.event_id ≡ e.event_id
    pub payload_eq : adapt e.kind e.payload ≡ some d.payload

  adapts-some :
      (e : EventEnvelope F) (o : Option (SlimPayload F))
      → adapt e.kind e.payload ≡ o
      → kind_matches e.kind e.payload ≡ true
      → (d : DomainEvent F) × ((to_domain_event e ≡ some d) × IsProjection e d)
  unfolding to_domain_event
  adapts-some e none h k = absurd (adapt-none e.kind e.payload k h)
  adapts-some e (some p) h k = (
    with_payload e p,
    (
      ground (arith, h),
      record {
        tenant_eq = refl;
        kind_eq = refl;
        time_eq = refl;
        version_eq = refl;
        id_eq = refl;
        payload_eq = h;
      },
    ),
  )

  -- An envelope that its validators accept is projected without an exception, whatever the library's
  -- tests of ids and digits say. The event has the envelope's tenant, kind, time of occurrence, schema
  -- version and event id, and the payload that the adapter of the kind makes.
  pub to_domain_event-some :
      (is_uuid7 : String → Bool) (is_digit : ℕ → Bool) (e : EventEnvelope F)
      → valid_envelope is_uuid7 is_digit e ≡ true
      → (d : DomainEvent F) × ((to_domain_event e ≡ some d) × IsProjection e d)
  unfolding valid_envelope
  to_domain_event-some is_uuid7 is_digit e h =
      adapts-some e (adapt e.kind e.payload) refl (ground (arith, h))

some_injective : {A : Type 0} (x y : A) → some x ≡ some y → x ≡ y
some_injective x y h = ground (arith, h)

module _ {F B : Type 0} (online : Dict (String × String × String) B)
    (resolve_keys : DomainEvent F → List (String × String))
    (recommend : String → Datetime → Dict (String × String) B → List (Recommendation F × ℕ) × ℕ)
    (enforce : Recommendation F → Option (GuardrailOutcome F))
    (decode : String → Option (EventEnvelope F)) (refusal : String → String) where
  abbrev ingest_one : EventEnvelope F → Lane → Option IngestOutcome × Lane
  ingest_one e l = ingest online resolve_keys recommend enforce decode refusal e l

  abbrev item : Item F → Lane → Option IngestOutcome × Lane
  item i l = ingest_item online resolve_keys recommend enforce decode refusal i l

  abbrev outcomes : List (Item F) → Lane → Option (List IngestOutcome) × Lane
  outcomes is l = outcomes_from online resolve_keys recommend enforce decode refusal is l

  abbrev batch : List (Item F) → Lane → Option IngestReport × Lane
  batch is l = ingest_batch online resolve_keys recommend enforce decode refusal is l

  ingest-seen :
      (e : EventEnvelope F) (l : Lane) → contains e.event_id (ingest_one e l).1.seen ≡ true
  unfolding ingest
  ingest-seen e l = elim (Bool-cases (contains e.event_id l.seen)) [
    | inl old ↦ rw (old, old) refl
    | inr new ↦ rw new (ground (arith, ==-refl e.event_id))
  ]

  ingest-keeps :
      (id : String) (e : EventEnvelope F) (l : Lane)
      → contains id l.seen ≡ true
      → contains id (ingest_one e l).1.seen ≡ true
  unfolding ingest
  ingest-keeps id e l h = elim (Bool-cases (contains e.event_id l.seen)) [
    | inl old ↦ rw old h
    | inr new ↦ rw new (ground (arith, h))
  ]

  item-refused :
      (text : String) (l : Lane) → decode text ≡ none → (item (raw text) l).1.seen ≡ l.seen
  unfolding ingest_item
  item-refused text l e = ground (arith, e)

  item-decoded :
      (text : String) (e : EventEnvelope F) (l : Lane)
      → decode text ≡ some e
      → item (raw text) l ≡ ingest_one e l
  unfolding ingest_item
  item-decoded text e l h = ground (arith, h)

  item-keeps :
      (id : String) (i : Item F) (l : Lane)
      → contains id l.seen ≡ true
      → contains id (item i l).1.seen ≡ true
  unfolding ingest_item
  item-keeps id (envelope e) l h = ingest-keeps id e l h
  item-keeps id (raw text) l h = elim (Option-cases (decode text)) [
    | inl refused ↦ rw (item-refused text l refused) h
    | inr (e, decoded) ↦ rw (item-decoded text e l decoded) (ingest-keeps id e l h)
  ]

  ingest-old :
      (e : EventEnvelope F) (l : Lane)
      → contains e.event_id l.seen ≡ true
      → ingest_one e l ≡ (some (duplicate_outcome e), l)
  unfolding ingest
  ingest-old e l h = rw h refl

  -- The two ways in which a batch goes on after an item.
  outcomes-none :
      (i : Item F) (is : List (Item F)) (l : Lane)
      → (item i l).0 ≡ none
      → outcomes (i ∷ is) l ≡ (none, (item i l).1)
  unfolding outcomes_from
  outcomes-none i is l e = ground (arith, e)

  outcomes-lane :
      (i : Item F) (is : List (Item F)) (l : Lane) (o : IngestOutcome)
      → (item i l).0 ≡ some o
      → (outcomes (i ∷ is) l).1 ≡ (outcomes is (item i l).1).1
  unfolding outcomes_from
  outcomes-lane i is l o e = ground (arith, e)

  outcomes-keeps :
      (id : String) (is : List (Item F)) (l : Lane)
      → contains id l.seen ≡ true
      → contains id (outcomes is l).1.seen ≡ true
  unfolding outcomes_from
  outcomes-keeps id [] l h = h
  outcomes-keeps id (i ∷ is) l h = elim (Option-cases (item i l).0) [
    | inl raised ↦ rw (outcomes-none i is l raised) (item-keeps id i l h)
    | inr (o, e) ↦
        rw (outcomes-lane i is l o e) (outcomes-keeps id is (item i l).1 (item-keeps id i l h))
  ]

  batch-lane : (is : List (Item F)) (l : Lane) → (batch is l).1 ≡ (outcomes is l).1
  unfolding ingest_batch
  batch-lane is l = ground arith

  -- An event that was given to the lane once is a duplicate from then on, after any batch in between
  -- and whatever the rest of the second envelope says: nothing is recomputed and nothing changes.
  -- This holds as well if the handling of the first one raised.
  pub ingest-ingest :
      (first second : EventEnvelope F) (is : List (Item F)) (l : Lane)
      → second.event_id ≡ first.event_id
      → ingest_one second (batch is (ingest_one first l).1).1
        ≡ (some (duplicate_outcome second), (batch is (ingest_one first l).1).1)
  ingest-ingest first second is l e = ingest-old second (batch is (ingest_one first l).1).1 (
      rw (e, batch-lane is (ingest_one first l).1)
        (outcomes-keeps first.event_id is (ingest_one first l).1 (ingest-seen first l)))

  outcomes-stopped :
      (i : Item F) (is : List (Item F)) (l : Lane) (o : IngestOutcome)
      → (item i l).0 ≡ some o
      → (outcomes is (item i l).1).0 ≡ none
      → (outcomes (i ∷ is) l).0 ≡ none
  unfolding outcomes_from
  outcomes-stopped i is l o e f = ground (arith, e, f)

  outcomes-cons :
      (i : Item F) (is : List (Item F)) (l : Lane) (o : IngestOutcome) (os : List IngestOutcome)
      → (item i l).0 ≡ some o
      → (outcomes is (item i l).1).0 ≡ some os
      → (outcomes (i ∷ is) l).0 ≡ some (o ∷ os)
  unfolding outcomes_from
  outcomes-cons i is l o os e f = ground (arith, e, f)

  outcomes-length :
      (is : List (Item F)) (l : Lane) (os : List IngestOutcome)
      → (outcomes is l).0 ≡ some os
      → length os ≡ length is
  unfolding outcomes_from
  outcomes-length [] l os h = ground (arith, h)
  outcomes-length (i ∷ is) l os h = elim (Option-cases (item i l).0) [
    | inl raised ↦ absurd (ground (arith, h, outcomes-none i is l raised))
    | inr (o, e) ↦ elim (Option-cases (outcomes is (item i l).1).0) [
      | inl stopped ↦ absurd (ground (arith, h, outcomes-stopped i is l o e stopped))
      | inr (rest, f) ↦
          let n = outcomes-length is (item i l).1 rest f in
          ground (arith, h, outcomes-cons i is l o rest e f, n)
    ]
  ]

  batch-report :
      (is : List (Item F)) (l : Lane) (r : IngestReport)
      → (batch is l).0 ≡ some r
      → (os : List IngestOutcome) × (((outcomes is l).0 ≡ some os) × (from_outcomes os ≡ r))
  unfolding ingest_batch
  batch-report is l r h = elim (Option-cases (outcomes is l).0) [
    | inl raised ↦ absurd (ground (arith, h, raised))
    | inr (os, e) ↦ (os, (e, ground (arith, h, e)))
  ]

  -- The outcomes of the items, one by one, each on the lane that the items before it leave.
  abbrev pub Handled : List (Item F) → Lane → List IngestOutcome → Type 0
  Handled [] l [] = Unit
  Handled (i ∷ is) l (o ∷ os) = ((item i l).0 ≡ some o) × Handled is (item i l).1 os
  Handled _ l _ = ⊥

  outcomes-Handled :
      (is : List (Item F)) (l : Lane) (os : List IngestOutcome)
      → (outcomes is l).0 ≡ some os
      → Handled is l os
  unfolding outcomes_from
  outcomes-Handled [] l os h = subst (Handled [] l) (some_injective [] os h) tt
  outcomes-Handled (i ∷ is) l os h = elim (Option-cases (item i l).0) [
    | inl raised ↦ absurd (ground (arith, h, outcomes-none i is l raised))
    | inr (o, e) ↦ elim (Option-cases (outcomes is (item i l).1).0) [
      | inl stopped ↦ absurd (ground (arith, h, outcomes-stopped i is l o e stopped))
      | inr (rest, f) ↦
          subst (Handled (i ∷ is) l)
            (some_injective (o ∷ rest) os (sym (outcomes-cons i is l o rest e f) ∙ h))
            (e, outcomes-Handled is (item i l).1 rest f)
    ]
  ]

  -- A report that accounts for the items of its batch.
  pub record IsAccount (is : List (Item F)) (l : Lane) (r : IngestReport) : Type 0 where
    pub handled : Handled is l r.outcomes
    pub received_eq : r.received ≡ length is
    pub processed_tally : Tallied processed r.outcomes r.processed
    pub no_op_tally : Tallied no_op r.outcomes r.no_op
    pub duplicate_tally : Tallied duplicate r.outcomes r.duplicate
    pub invalid_tally : Tallied invalid r.outcomes r.invalid
    pub total : r.received ≡ r.processed + (r.no_op + (r.duplicate + r.invalid))

  from_outcomes-IsAccount :
      (is : List (Item F)) (l : Lane) (os : List IngestOutcome)
      → (outcomes is l).0 ≡ some os
      → IsAccount is l (from_outcomes os)
  unfolding from_outcomes
  from_outcomes-IsAccount is l os e = record {
    handled = outcomes-Handled is l os e;
    received_eq = outcomes-length is l os e;
    processed_tally = Tallied-count processed is_processed is_processed-true is_processed-false os;
    no_op_tally = Tallied-count no_op is_no_op is_no_op-true is_no_op-false os;
    duplicate_tally = Tallied-count duplicate is_duplicate is_duplicate-true is_duplicate-false os;
    invalid_tally = Tallied-count invalid is_invalid is_invalid-true is_invalid-false os;
    total = count-status os;
  }

  -- A report that a batch returns has the outcomes of its items, one for each and in their order, each
  -- handled on the lane that the items before it leave. It has received as many as there are items,
  -- its four counters are the numbers of outcomes that are processed, without effect, duplicate and
  -- invalid, and these add up to what was received.
  pub ingest_batch-received :
      (is : List (Item F)) (l : Lane) (r : IngestReport)
      → (batch is l).0 ≡ some r
      → IsAccount is l r
  ingest_batch-received is l r h =
      let (os, (e, f)) = batch-report is l r h in
      subst (IsAccount is l) f (from_outcomes-IsAccount is l os e)
