-- ===== src/Writeback/Idempotence.antt =====
-- A write is idempotent by its key: what a later write with the same key finds.
use aeronta_inventory.Base.{
  ℕ, String, ◌≡◌, refl, inl, inr, Option, none, some, List, [], ◌∷◌, arith, contains, string_eq,
  triple_eq, if_elim, Option-cases,
}
use aeronta_inventory.Base.Dict.{lookup, insert, lookup-insert, lookup-insert_self}
use aeronta_inventory.Writeback.{
  WritebackRequest, WritebackResult, HistoryEntry, RollbackRequest, Target, Call, write_call,
  rollback_call, latest_written, entries_of, record_entry, key_of, write_shadow, write_deferred,
  write_level, write_new, write, revert, rollback_from, rollback, step, run,
}

-- `t'` remembers what `t` remembers, and the result of `req` besides.
abbrev Remembers : WritebackRequest → Target → WritebackResult × Target → Type 0
Remembers req t (r, t') = t'.seen ≡ insert req.idempotency_key r t.seen

write_new-Remembers :
    (req : WritebackRequest) (now : ℕ) (t : Target) → Remembers req t (write_new req now t)
unfolding write_new write_shadow write_deferred write_level record_entry
write_new-Remembers req now t =
    if_elim (Remembers req t) req.shadow _ _ (λ _. refl)
      (λ _.
        if_elim (Remembers req t) (contains (key_of req) t.open_orders) _ _ (λ _. refl) (λ _. refl))

pub lookup-write_self :
    (req : WritebackRequest) (now : ℕ) (t : Target)
    → lookup req.idempotency_key (write req now t).1.seen ≡ some (write req now t).0
unfolding write
lookup-write_self req now t = elim (Option-cases (lookup req.idempotency_key t.seen)) [
  | inl fresh ↦
      rw (fresh, write)
        (rw (write_new-Remembers req now t)
          (lookup-insert_self req.idempotency_key (write_new req now t).0 t.seen))
  | inr (result, again) ↦ rw (again, write) again
]

pub write_keeps_seen :
    (req : WritebackRequest) (now : ℕ) (t : Target) (key : String) (r : WritebackResult)
    → lookup key t.seen ≡ some r
    → lookup key (write req now t).1.seen ≡ some r
unfolding write
write_keeps_seen req now t key r h = elim (Option-cases (lookup req.idempotency_key t.seen)) [
  | inl fresh ↦
      rw (fresh, write)
        (rw (write_new-Remembers req now t) (
          ground (
            arith,
            h,
            fresh,
            string_eq.same_iff req.idempotency_key key,
            lookup-insert req.idempotency_key key (write_new req now t).0 t.seen,
          )))
  | inr (result, again) ↦ rw (again, write) h
]

-- A write whose key is known.
pub write-of_seen :
    (req : WritebackRequest) (now : ℕ) (t : Target) (r : WritebackResult)
    → lookup req.idempotency_key t.seen ≡ some r
    → write req now t ≡ (r, t)
unfolding write
write-of_seen req now t r e = rw (e, write) refl

module _ (str isoformat : ℕ → String) where
  seen-rollback_from :
      (req : RollbackRequest) (t : Target) (latest : Option HistoryEntry)
      → (rollback_from str isoformat req t latest).1.seen ≡ t.seen
  unfolding rollback_from revert record_entry
  seen-rollback_from req t none = refl
  seen-rollback_from req t (some latest) = ground arith

  run_keeps_seen :
      (calls : List Call) (t : Target) (key : String) (r : WritebackResult)
      → lookup key t.seen ≡ some r
      → lookup key (run str isoformat calls t).seen ≡ some r
  unfolding run step rollback
  run_keeps_seen [] t key r h = h
  run_keeps_seen (write_call req now ∷ calls) t key r h =
      run_keeps_seen calls (write req now t).1 key r (write_keeps_seen req now t key r h)
  run_keeps_seen (rollback_call req ∷ calls) t key r h =
      run_keeps_seen calls (rollback str isoformat req t).1 key r (
        rw
          (seen-rollback_from req t
            (latest_written (entries_of (req.tenant_id, req.pn, req.location) t)))
          h)

  -- A write that repeats an idempotency key, after any calls in between and whatever else it asks
  -- for, returns the first result and changes nothing.
  pub write-write_seen :
      (first again : WritebackRequest) (now later : ℕ) (calls : List Call) (t : Target)
      → again.idempotency_key ≡ first.idempotency_key
      → write again later (run str isoformat calls (write first now t).1)
        ≡ ((write first now t).0, run str isoformat calls (write first now t).1)
  write-write_seen first again now later calls t same =
      let t' : Target = run str isoformat calls (write first now t).1 in
      let e : lookup again.idempotency_key t'.seen ≡ some (write first now t).0 = rw same (
        run_keeps_seen calls (write first now t).1 first.idempotency_key (write first now t).0
          (lookup-write_self first now t)) in
      write-of_seen again later t' (write first now t).0 e
