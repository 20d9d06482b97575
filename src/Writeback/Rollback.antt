-- ===== src/Writeback/Rollback.antt =====
-- What `rollback` undoes: the last written level of its key, within the window.
use aeronta_inventory.Base.{
  ℕ, ◌+◌, ◌*◌, ◌≤◌, String, ◌≡◌, refl, ap, ◌∙◌, inl, inr, false, Option, none, some, arith, ltb,
  contains, string_eq, triple_eq, ==-refl, Option-cases,
}
use aeronta_inventory.Base.Dict.{lookup, insert, lookup-insert_back}
use aeronta_inventory.Writeback.{
  Key, Levels, WritebackRequest, written, HistoryEntry, RollbackRequest, rolled_back, Target, day,
  latest_written, entries_of, new_entry, record_entry, key_of, levels_of, write_level, write_new,
  write, revert, rollback_from, rollback, rollback_entry,
}
use aeronta_inventory.Writeback.Ledger.{latest_written-snoc}
use aeronta_inventory.Writeback.Invariant.{entries_of-record_entry, set_level}

abbrev rollback_key : RollbackRequest → Key
rollback_key req = (req.tenant_id, req.pn, req.location)

-- The entry that a write of `new` over `old` leaves is the one that a rollback finds.
module _ (k : Key) (req : WritebackRequest) (old : Option Levels) (new : Levels)
    (principal : String) (at : ℕ) (t : Target) where
  abbrev entry : HistoryEntry
  entry = new_entry k req written old new principal at (entries_of k t)

  latest-record_entry :
      latest_written (entries_of k (record_entry k req written old new principal at t)) ≡ some entry
  unfolding new_entry
  latest-record_entry =
      ap latest_written
        (entries_of-record_entry k req written old new principal at t k ∙ rw (==-refl k) refl)
      ∙ latest_written-snoc (entries_of k t) entry

-- The latest written entry of `k` in `t` was made at `at`, over the level `old`.
abbrev Latest : Key → Option Levels → ℕ → Target → Type 0
Latest k old at t =
    (e : HistoryEntry) × (latest_written (entries_of k t) ≡ some e)
    × (e.old_values ≡ old)
    × (e.changed_at ≡ at)

write_level-Latest :
    (req : WritebackRequest) (now : ℕ) (t : Target)
    → Latest (key_of req) (lookup (key_of req) t.levels) now (write_level req now t).1
unfolding write_level entries_of new_entry
write_level-Latest req now t =
    let t₁ : Target = set_level (key_of req) (levels_of req) t in
    (
      entry (key_of req) req (lookup (key_of req) t.levels) (levels_of req) "agent-spine" now t₁,
      latest-record_entry (key_of req) req (lookup (key_of req) t.levels) (levels_of req)
          "agent-spine" now t₁,
      refl,
      refl,
    )

-- A write that is live, new and free of open orders takes the last branch.
write-eq-write_level :
    (req : WritebackRequest) (now : ℕ) (t : Target)
    → req.shadow ≡ false
    → contains (key_of req) t.open_orders ≡ false
    → lookup req.idempotency_key t.seen ≡ none
    → write req now t ≡ write_level req now t
unfolding write write_new
write-eq-write_level req now t live free fresh = ground arith

module _ (str isoformat : ℕ → String) where
  -- The levels after a rollback that finds `e`.
  levels-rollback_from :
      (req : RollbackRequest) (e : HistoryEntry) (to : Levels) (t : Target)
      → e.old_values ≡ some to
      → req.requested_at ≤ e.changed_at + t.window * day
      → ((rollback_from str isoformat req t (some e)).0.status ≡ rolled_back)
        × ((rollback_from str isoformat req t (some e)).0.from_values
            ≡ lookup (rollback_key req) t.levels)
        × ((rollback_from str isoformat req t (some e)).0.to_values ≡ some to)
        × ((rollback_from str isoformat req t (some e)).1.levels
            ≡ insert (rollback_key req) to t.levels)
  unfolding rollback_from revert record_entry
  levels-rollback_from req e to t old timely =
      let open_window : ltb (e.changed_at + t.window * day) req.requested_at ≡ false =
        ground arith in
      rw (old, open_window, rollback_from) (refl, refl, refl, refl)

  revert-Latest :
      (req : RollbackRequest) (e : HistoryEntry) (to : Levels) (t : Target)
      → Latest
          (rollback_key req)
          (lookup (rollback_key req) t.levels)
          req.requested_at
          (revert str isoformat req e to t).1
  unfolding revert new_entry
  revert-Latest req e to t =
      let k = rollback_key req in
      let again : WritebackRequest = rollback_entry str isoformat req e to in
      let old : Option Levels = lookup k t.levels in
      let t₁ : Target = set_level k to t in
      (
        entry k again old to req.principal req.requested_at t₁,
        latest-record_entry k again old to req.principal req.requested_at t₁,
        refl,
        refl,
      )

  -- A rollback that finds the level `old` over which `k` was last written restores it.
  restore :
      (req : RollbackRequest) (old new : Levels) (at : ℕ) (t t' : Target)
      → Latest (rollback_key req) (some old) at t'
      → req.requested_at ≤ at + t'.window * day
      → t'.levels ≡ insert (rollback_key req) new t.levels
      → lookup (rollback_key req) t.levels ≡ some old
      → ((rollback str isoformat req t').0.status ≡ rolled_back)
        × ((rollback str isoformat req t').0.to_values ≡ some old)
        × ((j : Key) → lookup j (rollback str isoformat req t').1.levels ≡ lookup j t.levels)
  unfolding rollback
  restore req old new at t t' (e, found, over, made) timely levels was =
      let (status, from, to, after) = levels-rollback_from req e old t' over (rw made timely) in
      rw (found, rollback)
        (
          status,
          to,
          λ j. rw (after, levels) (lookup-insert_back (rollback_key req) j old new t.levels was),
        )

  -- A write of a key that had a level, rolled back within the window, restores the levels of all
  -- keys. The write is live, its idempotency key is new, and no open order defers it.
  pub rollback-write :
      (req : WritebackRequest) (now : ℕ) (back : RollbackRequest) (t : Target) (old : Levels)
      → rollback_key back ≡ key_of req
      → req.shadow ≡ false
      → contains (key_of req) t.open_orders ≡ false
      → lookup req.idempotency_key t.seen ≡ none
      → lookup (key_of req) t.levels ≡ some old
      → back.requested_at ≤ now + t.window * day
      → let (result, t') = rollback str isoformat back (write req now t).1 in
        (result.status ≡ rolled_back)
        × (result.to_values ≡ some old)
        × ((j : Key) → lookup j t'.levels ≡ lookup j t.levels)
  unfolding write_level record_entry
  rollback-write req now back t old same live free fresh was timely =
      rw (write-eq-write_level req now t live free fresh) (
        restore back old (levels_of req) now t (write_level req now t).1
          (rw same (rw (← was) (write_level-Latest req now t))) timely (rw same refl) (rw same was))

  -- What a rollback that reports `rolled_back` did.
  rollback-inv :
      (req : RollbackRequest) (t : Target) (latest : Option HistoryEntry)
      → (rollback_from str isoformat req t latest).0.status ≡ rolled_back
      → (e : HistoryEntry) × (to : Levels) × (latest ≡ some e)
        × (e.old_values ≡ some to)
        × (req.requested_at ≤ e.changed_at + t.window * day)
        × (rollback_from str isoformat req t latest ≡ revert str isoformat req e to t)
  unfolding rollback_from
  rollback-inv req t none h = cc
  rollback-inv req t (some e) h = elim (Option-cases e.old_values) [
    | inl first ↦ ground arith
    | inr (to, old) ↦ (e, to, refl, old, ground arith, ground arith)
  ]

  -- A second rollback of the key, within the window of the first, undoes the first: it restores
  -- the level that the first one took away, and goes no further back.
  pub rollback-rollback :
      (first second : RollbackRequest) (t : Target) (current : Levels)
      → rollback_key second ≡ rollback_key first
      → lookup (rollback_key first) t.levels ≡ some current
      → (rollback str isoformat first t).0.status ≡ rolled_back
      → second.requested_at ≤ first.requested_at + t.window * day
      → let (result, t') = rollback str isoformat second (rollback str isoformat first t).1 in
        (result.status ≡ rolled_back)
        × (result.to_values ≡ some current)
        × ((j : Key) → lookup j t'.levels ≡ lookup j t.levels)
  unfolding rollback revert record_entry
  rollback-rollback first second t current same was done timely =
      let latest : Option HistoryEntry = latest_written (entries_of (rollback_key first) t) in
      let (e, to, found, old, open_window, did) = rollback-inv first t latest done in
      rw did (
        restore second current to first.requested_at t (revert str isoformat first e to t).1
          (rw same (rw (← was) (revert-Latest first e to t))) timely (rw same refl) (rw same was))
