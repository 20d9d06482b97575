-- ===== src/Tests/WritebackRuns.antt =====
-- Runs of the writeback target.
use aeronta_inventory.Base.{◌≡◌, refl, none, some, [], ◌∷◌, arith, string_eq, triple_eq}
use aeronta_inventory.Base.Dict.{lookup, insert}
use aeronta_inventory.Writeback.{
  Key, RollbackRequest, Target, write_call, rollback_call, rolled_back, init, create, levels_of,
  key_of, write, write_new, write_level, record_entry, rollback, run,
}
use aeronta_inventory.Writeback.Invariant.{IsConsistent, create-IsConsistent}
use aeronta_inventory.Writeback.Calls.{run-IsConsistent}
use aeronta_inventory.Writeback.Idempotence.{write-write_seen}
use aeronta_inventory.Writeback.Rollback.{rollback-write, rollback-rollback}
use aeronta_inventory.Tests.Fixtures.{print, order, next_order, undo}

abbrev empty : Target
empty = init [] 90

abbrev after_first : Target
after_first = (write order 100 empty).1

created : create [] 90 ≡ some empty
unfolding create
created = refl

run-IsConsistent_example :
    IsConsistent (run print print (write_call order 100 ∷ rollback_call undo ∷ []) empty)
run-IsConsistent_example =
    run-IsConsistent print print (write_call order 100 ∷ rollback_call undo ∷ []) empty
      (create-IsConsistent [] 90 empty created)

no_window : create [] 0 ≡ none
unfolding create
no_window = refl

write-write_seen_example :
    write order 400 (run print print (write_call next_order 200 ∷ []) (write order 100 empty).1) ≡ (
      (write order 100 empty).0,
      run print print (write_call next_order 200 ∷ []) (write order 100 empty).1,
    )
write-write_seen_example =
    write-write_seen print print order order 100 400 (write_call next_order 200 ∷ []) empty refl

level_after_first : lookup (key_of order) after_first.levels ≡ some (levels_of order)
unfolding write write_new write_level record_entry lookup insert init
level_after_first = refl

rollback-write_example :
    let (result, t') = rollback print print undo (write next_order 200 after_first).1 in
    (result.status ≡ rolled_back)
    × (result.to_values ≡ some (levels_of order))
    × ((j : Key) → lookup j t'.levels ≡ lookup j after_first.levels)
unfolding write write_new write_level record_entry lookup insert init
rollback-write_example =
    rollback-write print print next_order 200 undo after_first (levels_of order) refl refl refl refl
      refl (omega arith)

after_second : Target
after_second = (write next_order 200 after_first).1

abbrev redo : RollbackRequest
redo = record undo { requested_at = 400 }

rollback-rollback_example :
    let (result, t') = rollback print print redo (rollback print print undo after_second).1 in
    (result.status ≡ rolled_back)
    × (result.to_values ≡ some (levels_of next_order))
    × ((j : Key) → lookup j t'.levels ≡ lookup j after_second.levels)
unfolding after_second write write_new write_level record_entry lookup insert init
rollback-rollback_example =
    rollback-rollback print print undo redo after_second (levels_of next_order) refl refl
      (rollback-write_example.0) (omega arith)
