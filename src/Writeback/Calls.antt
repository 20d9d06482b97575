-- ===== src/Writeback/Calls.antt =====
-- Every call of the target keeps the invariant of its ledgers.
use aeronta_inventory.Base.{
  ℕ, ◌+◌, ◌*◌, String, inl, inr, Option, none, some, List, [], ◌∷◌, ltb, contains, string_eq,
  triple_eq, Bool-cases, if_elim, Option-cases,
}
use aeronta_inventory.Base.Dict.{lookup}
use aeronta_inventory.Writeback.{
  WritebackRequest, WritebackResult, HistoryEntry, Levels, RollbackRequest, Target, Call,
  write_call, rollback_call, day, latest_written, entries_of, key_of, levels_of, write_shadow,
  write_deferred, write_level, write_new, write, revert, rollback_from, rollback, rollback_entry,
  step, run,
}
use aeronta_inventory.Writeback.Invariant.{
  IsConsistent, written-IsConsistent, shadowed-IsConsistent,
}

write_level-IsConsistent :
    (req : WritebackRequest) (now : ℕ) (t : Target)
    → IsConsistent t
    → IsConsistent (write_level req now t).1
unfolding write_level entries_of
write_level-IsConsistent req now t c =
    let d : IsConsistent _ =
      written-IsConsistent (key_of req) req (levels_of req) "agent-spine" now t c in
    record { chained = d.chained; in_force = d.in_force }

write_shadow-IsConsistent :
    (req : WritebackRequest) (now : ℕ) (t : Target)
    → IsConsistent t
    → IsConsistent (write_shadow req now t).1
unfolding write_shadow entries_of
write_shadow-IsConsistent req now t c =
    let d : IsConsistent _ =
      shadowed-IsConsistent (key_of req) req (levels_of req) "agent-spine" now t c in
    record { chained = d.chained; in_force = d.in_force }

write_deferred-IsConsistent :
    (req : WritebackRequest) (t : Target) → IsConsistent t → IsConsistent (write_deferred req t).1
unfolding write_deferred entries_of
write_deferred-IsConsistent req t c = record { chained = c.chained; in_force = c.in_force }

write_new-IsConsistent :
    (req : WritebackRequest) (now : ℕ) (t : Target)
    → IsConsistent t
    → IsConsistent (write_new req now t).1
unfolding write_new
write_new-IsConsistent req now t c =
    if_elim (λ (r : WritebackResult × Target). IsConsistent r.1) req.shadow _ _
      (λ _. write_shadow-IsConsistent req now t c)
      (λ _.
        if_elim (λ (r : WritebackResult × Target). IsConsistent r.1)
          (contains (key_of req) t.open_orders) _ _ (λ _. write_deferred-IsConsistent req t c)
          (λ _. write_level-IsConsistent req now t c))

pub write-IsConsistent :
    (req : WritebackRequest) (now : ℕ) (t : Target)
    → IsConsistent t
    → IsConsistent (write req now t).1
unfolding write
write-IsConsistent req now t c = elim (Option-cases (lookup req.idempotency_key t.seen)) [
  | inl fresh ↦ rw (fresh, write) (write_new-IsConsistent req now t c)
  | inr (result, again) ↦ rw (again, write) c
]

module _ (str isoformat : ℕ → String) where
  revert-IsConsistent :
      (req : RollbackRequest) (latest : HistoryEntry) (to : Levels) (t : Target)
      → IsConsistent t
      → IsConsistent (revert str isoformat req latest to t).1
  unfolding revert
  revert-IsConsistent req latest to t c =
      written-IsConsistent (req.tenant_id, req.pn, req.location)
        (rollback_entry str isoformat req latest to) to req.principal req.requested_at t c

  rollback_from-IsConsistent :
      (req : RollbackRequest) (t : Target) (latest : Option HistoryEntry)
      → IsConsistent t
      → IsConsistent (rollback_from str isoformat req t latest).1
  unfolding rollback_from
  rollback_from-IsConsistent req t none c = c
  rollback_from-IsConsistent req t (some latest) c = elim (Option-cases latest.old_values) [
    | inl first ↦ rw (first, rollback_from) c
    | inr (to, e) ↦ elim (Bool-cases (ltb (latest.changed_at + t.window * day) req.requested_at)) [
      | inl late ↦ rw (e, late, rollback_from) c
      | inr timely ↦ rw (e, timely, rollback_from) (revert-IsConsistent req latest to t c)
    ]
  ]

  pub step-IsConsistent :
      (call : Call) (t : Target) → IsConsistent t → IsConsistent (step str isoformat call t)
  unfolding step rollback
  step-IsConsistent (write_call req now) t c = write-IsConsistent req now t c
  step-IsConsistent (rollback_call req) t c =
      rollback_from-IsConsistent req t
        (latest_written (entries_of (req.tenant_id, req.pn, req.location) t)) c

  -- After any calls, from a target that is consistent, every ledger numbers its entries from 1,
  -- each entry carries the level that was in force before it and the version that set that level,
  -- and the level of every key is the one that its ledger ends with.
  pub run-IsConsistent :
      (calls : List Call) (t : Target) → IsConsistent t → IsConsistent (run str isoformat calls t)
  unfolding run
  run-IsConsistent [] t c = c
  run-IsConsistent (call ∷ calls) t c =
      run-IsConsistent calls (step str isoformat call t) (step-IsConsistent call t c)
