-- ===== src/Tests/Commands.antt =====
-- Runs of src/commands/, src/state/, src/ports.rs and src/docker/wait.rs.
use pg_forge_cli.Base.{
  zero, suc, ◌*◌, Bool, text_lt, true, false, Text, codes, text_eq, List, [], ◌∷◌, none, some, all,
  any, ◌≡◌, refl, arith,
}
use pg_forge_cli.Base.Int.{pos}
use pg_forge_cli.Base.Dict.{lookup, insert}
use pg_forge_cli.Error.{Result, ok, err, io}
use pg_forge_cli.Domain.Instance.{validate_name, is_valid_name}
use pg_forge_cli.Ports.{allocate_port, Allocated, allocate_port-Allocated}
use pg_forge_cli.State.Store.{
  load_under, save_under, update_loaded, with_dir, remove_dir, absent, holds,
}
use pg_forge_cli.Docker.Wait.{Waiting, exited, judge, wait_from, wait_for_pg_ready}
use pg_forge_cli.Docker.Wait.Returns.{Answered, wait_for_pg_ready-returns, wait_for_pg_ready-ready}
use pg_forge_cli.Commands.Destroy.{
  destroy_loaded, wipe, remove_parts, remove_state, DestroyArgs, destroy,
}
use pg_forge_cli.Domain.Instance.{volume_name}
use pg_forge_cli.Commands.Destroy.Volume.{removes, destroy-removes}
use pg_forge_cli.Commands.Destroy.Left.{Left, left_by, destroy-Left}
use pg_forge_cli.Commands.Destroy.Order.{is_guarded, has_no_exec, destroy-guarded, destroy-no_exec}
use pg_forge_cli.Commands.Snapshot.Recorded.{Recorded, run_with_engine-Recorded}
use pg_forge_cli.Commands.Snapshot.{SnapshotArgs, run_with_engine, run_due}
use pg_forge_cli.Commands.Snapshot.Chain.Scheduler.{run_due-AllChained}
use pg_forge_cli.Commands.Snapshot.Chain.{AllChained, file_chained, is_chained}
use pg_forge_cli.State.Store.{update_under}
use pg_forge_cli.State.Updates.{Updated, update_under-Updated}
use pg_forge_cli.Commands.Dump.{dumps_to_prune}
use pg_forge_cli.Commands.Dump.Retention.{Pruned, kept_of, dumps_to_prune-Pruned}
use pg_forge_cli.Tests.Fixtures.{
  pg, pg_instance, pg_state, pg_dir, first_full, disk, stuck_disk, stuck_world, world, engine, noon,
}

abbrev with_backups : DestroyArgs
with_backups = record { name = pg; delete_backups = true }

abbrev without_backups : DestroyArgs
without_backups = record { name = pg; delete_backups = false }

pg-loads : load_under disk pg ≡ ok pg_state
unfolding load_under validate_name is_valid_name all lookup text_eq
pg-loads = refl

destroy-guarded_example : is_guarded (destroy engine with_backups world).1.steps ≡ true
destroy-guarded_example =
    destroy-guarded engine with_backups world pg_state pg-loads refl refl
      (unfold is_guarded in refl)

destroy-no_exec_example : has_no_exec (destroy engine without_backups world).1.steps ≡ true
destroy-no_exec_example =
    destroy-no_exec engine without_backups world refl (unfold has_no_exec in refl)

destroy-Left_example : Left pg disk (left_by (destroy engine with_backups world))
destroy-Left_example = destroy-Left engine with_backups world

-- A removal that fails halfway: the state is gone, the snapshots are there.
half_removed :
    lookup pg (destroy engine without_backups stuck_world).1.disk.dirs
    ≡ some (record { state = absent; snapshots = holds (first_full ∷ []); conf = none })
unfolding destroy destroy_loaded remove_parts remove_state remove_dir volume_name load_under
    validate_name is_valid_name all lookup insert text_eq
half_removed = refl

-- A save that fails after the rename: an error, and the new state is loaded.
saved_late : update_under stuck_disk pg (λ s. ok (record s { created_at = [] })) ≡ (
  err io,
  with_dir stuck_disk pg (record pg_dir { state = holds (record pg_state { created_at = [] }) }),
)
unfolding update_under update_loaded save_under load_under validate_name is_valid_name all lookup
    insert text_eq
saved_late = refl

disk-AllChained : AllChained disk
unfolding lookup file_chained is_chained
disk-AllChained = record { chained = λ m. ground arith }

run_due-AllChained_example : AllChained (run_due engine (λ i. noon) world).1.disk
run_due-AllChained_example = run_due-AllChained engine (λ i. noon) world disk-AllChained

abbrev before_today : Text → Bool
before_today t = text_lt t (codes "2026-05-13")

-- The container answers at the second turn.
abbrev waiting : Waiting
waiting = record {
  id = codes "c";
  seconds = 3;
  poll = λ i. exited (elim i [ zero ↦ pos 2 | suc j ↦ pos 0 ]);
  now = λ i. 1000 * i;
  deadline = 3000;
}

wait_for_pg_ready-returns_example : (r : Result (Unit {0})) × (wait_for_pg_ready 4 waiting ≡ some r)
wait_for_pg_ready-returns_example =
    wait_for_pg_ready-returns waiting (λ i. omega arith) (omega arith)

wait_for_pg_ready-ready_example : Answered waiting
unfolding wait_for_pg_ready wait_from judge
wait_for_pg_ready-ready_example = wait_for_pg_ready-ready 4 waiting refl

allocate_port-Allocated_example :
    Allocated
      (5433 ∷ [])
      (λ p. true)
      5433
      5500
      5433
      5500
      (allocate_port (5433 ∷ []) (λ p. true) 5433 5500)
allocate_port-Allocated_example =
    allocate_port-Allocated (5433 ∷ []) (λ p. true) 5433 5500 (omega arith)

update_under-Updated_example :
    Updated disk pg
      (λ s. ok (record s { created_at = codes "now" }))
      (update_under disk pg (λ s. ok (record s { created_at = codes "now" })))
update_under-Updated_example =
    update_under-Updated disk pg (λ s. ok (record s { created_at = codes "now" }))

abbrev three_dumps : List Text
three_dumps = codes "pg-3.dump" ∷ codes "pg-1.dump" ∷ codes "pg-2.dump" ∷ []

dumps_to_prune-Pruned_example :
    Pruned three_dumps 2 (dumps_to_prune three_dumps 2) (kept_of three_dumps 2)
dumps_to_prune-Pruned_example = dumps_to_prune-Pruned three_dumps 2 (omega arith)

abbrev manual : SnapshotArgs
manual = record { instance = pg; user_label = some (codes "manual") }

run_with_engine-Recorded_example : Recorded pg disk (run_with_engine engine noon manual world)
run_with_engine-Recorded_example = run_with_engine-Recorded engine noon manual world

destroy-removes_example :
    any (removes (volume_name pg_instance)) (destroy engine with_backups world).1.steps ≡ true
unfolding destroy destroy_loaded wipe remove_parts remove_state validate_name load_under all lookup
    text_eq
destroy-removes_example = destroy-removes engine with_backups world pg_state pg-loads refl
