-- ===== src/Writeback/Invariant.antt =====
-- Every ledger is a chain, and replaying it gives the level in force: kept by every call.
use mathlib.Core.Path.{subst}
use aeronta_inventory.Base.{
  ℕ, String, ◌≡◌, refl, ap, ◌∙◌, inl, inr, Bool, true, false, Option, some, List, [], ◌∷◌, ◌++◌,
  arith, ◌==◌, string_eq, triple_eq, triple_beq_iff, Bool-cases, ltb, if◌then◌else◌,
}
use aeronta_inventory.Base.Dict.{lookup, insert, lookup-insert}
use aeronta_inventory.Writeback.{
  Key, Levels, WritebackRequest, WritebackStatus, written, shadowed, HistoryEntry, Target, init,
  create, or_empty, entries_of, new_entry, record_entry,
}
use aeronta_inventory.Writeback.Ledger.{
  Head, start, advance, head_from, Continues, Chained, Chained-snoc, head_from-snoc,
  version-head_from, parent-head_from,
}

abbrev head_of : Key → Target → Head
head_of k t = head_from start (entries_of k t)

pub record IsConsistent (t : Target) : Type 0 where
  pub chained : (k : Key) → Chained k start (entries_of k t)
  pub in_force : (k : Key) → lookup k t.levels ≡ (head_from start (entries_of k t)).level

pub init-IsConsistent :
    (open_orders : List Key) (window : ℕ) → IsConsistent (init open_orders window)
unfolding init entries_of lookup
init-IsConsistent open_orders window = record { chained = λ k. tt; in_force = λ k. refl }

-- A target that the constructor returns.
pub create-IsConsistent :
    (open_orders : List Key) (window : ℕ) (t : Target)
    → create open_orders window ≡ some t
    → IsConsistent t
unfolding create
create-IsConsistent open_orders window t h = elim (Bool-cases (ltb 0 window)) [
  | inl ok ↦ subst IsConsistent (ground (arith, ok, h)) (init-IsConsistent open_orders window)
  | inr bad ↦ absurd (ground (arith, bad, h))
]

-- `t'` is `t` with entry `e` added to the ledger of `k`, and the level of `k` set by it.
record Extends (t : Target) (k : Key) (e : HistoryEntry) (t' : Target) : Type 0 where
  continues : Continues k (head_of k t) e
  entries :
      (j : Key) → entries_of j t' ≡ (if k == j then entries_of k t ++ e ∷ [] else entries_of j t)
  levels :
      (j : Key)
      → lookup j t'.levels ≡ (if k == j then (advance (head_of k t) e).level else lookup j t.levels)

extend-IsConsistent :
    {t : Target} {k : Key} {e : HistoryEntry} {t' : Target}
    → Extends t k e t'
    → IsConsistent t
    → IsConsistent t'
extend-IsConsistent {t} {k} {e} {t'} x c = record {
  chained = λ j. elim (Bool-cases (k == j)) [
    | inl same ↦
        rw (x.entries j, same)
          (rw (← (triple_beq_iff k j).0 same)
            (Chained-snoc k start (entries_of k t) e (c.chained k) x.continues))
    | inr other ↦ rw (x.entries j, other) (c.chained j)
  ];
  in_force = λ j. elim (Bool-cases (k == j)) [
    | inl same ↦
        rw (x.entries j, x.levels j, same) (rw (head_from-snoc start (entries_of k t) e) refl)
    | inr other ↦ rw (x.entries j, x.levels j, other) (c.in_force j)
  ];
}

or_empty-if :
    (b : Bool) (es : List HistoryEntry) (o : Option (List HistoryEntry))
    → or_empty (if b then some es else o) ≡ (if b then es else or_empty o)
or_empty-if true es o = refl
or_empty-if false es o = refl

module _ (k : Key) (req : WritebackRequest) (status : WritebackStatus) (old : Option Levels)
    (new : Levels) (principal : String) (at : ℕ) (t : Target) where
  abbrev added : HistoryEntry
  added = new_entry k req status old new principal at (entries_of k t)

  pub entries_of-record_entry :
      (j : Key)
      → entries_of j (record_entry k req status old new principal at t)
        ≡ (if k == j then entries_of k t ++ added ∷ [] else entries_of j t)
  unfolding entries_of record_entry
  entries_of-record_entry j =
      ap or_empty (lookup-insert k j (entries_of k t ++ added ∷ []) t.ledger)
      ∙ or_empty-if (k == j) (entries_of k t ++ added ∷ []) (lookup j t.ledger)

  added-Continues : old ≡ (head_of k t).level → Continues k (head_of k t) added
  unfolding new_entry
  added-Continues e = record {
    of_key = refl;
    next_version = omega (arith, version-head_from start (entries_of k t));
    old_level = e;
    parent = ground (arith, parent-head_from start (entries_of k t));
  }

-- `self._levels[key] = new`.
abbrev pub set_level : Key → Levels → Target → Target
set_level k new t = record t { levels = insert k new t.levels }

-- Writing `new` as the level of `k` and recording it.
module _ (k : Key) (req : WritebackRequest) (new : Levels) (principal : String) (at : ℕ)
    (t : Target) where
  entries_of-set_level : (j : Key) → entries_of j (set_level k new t) ≡ entries_of j t
  unfolding entries_of
  entries_of-set_level j = refl

  abbrev entry : HistoryEntry
  entry =
      new_entry k req written (lookup k t.levels) new principal at
        (entries_of k (set_level k new t))

  levels-written :
      (j : Key)
      → lookup j
          (record_entry k req written
            (lookup k t.levels)
            new
            principal
            at
            (set_level k new t)).levels
        ≡ (if k == j then (advance (head_of k t) entry).level else lookup j t.levels)
  unfolding record_entry new_entry
  levels-written j = lookup-insert k j new t.levels

  pub written-IsConsistent :
      IsConsistent t
      → IsConsistent
          (record_entry k req written (lookup k t.levels) new principal at (set_level k new t))
  unfolding entries_of
  written-IsConsistent c =
      extend-IsConsistent
        (record {
          continues =
              added-Continues k req written (lookup k t.levels) new principal at (set_level k new t)
                (c.in_force k);
          entries =
              entries_of-record_entry k req written (lookup k t.levels) new principal at
                (set_level k new t);
          levels = levels-written;
        })
        c

  levels-shadowed :
      IsConsistent t
      → (j : Key)
      → lookup j (record_entry k req shadowed (lookup k t.levels) new principal at t).levels ≡ (
          if k == j
          then (advance (head_of k t) (
              new_entry k req shadowed (lookup k t.levels) new principal at (entries_of k t))).level
          else lookup j t.levels)
  unfolding record_entry new_entry
  levels-shadowed c j = elim (Bool-cases (k == j)) [
    | inl same ↦ rw same (rw (← (triple_beq_iff k j).0 same) (c.in_force k))
    | inr other ↦ rw other refl
  ]

  -- Recording a shadowed write leaves the levels alone.
  pub shadowed-IsConsistent :
      IsConsistent t
      → IsConsistent (record_entry k req shadowed (lookup k t.levels) new principal at t)
  shadowed-IsConsistent c =
      extend-IsConsistent
        (record {
          continues =
              added-Continues k req shadowed (lookup k t.levels) new principal at t (c.in_force k);
          entries = entries_of-record_entry k req shadowed (lookup k t.levels) new principal at t;
          levels = levels-shadowed c;
        })
        c
