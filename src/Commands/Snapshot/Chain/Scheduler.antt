-- ===== src/Commands/Snapshot/Chain/Scheduler.antt =====
-- What a snapshot command and a pass of the scheduler leave of the chains.
use pg_forge_cli.Base.{
  ℕ, suc, Bool, true, false, not, Text, codes, List, [], ◌∷◌, some, if◌then◌else◌,
}
use pg_forge_cli.Domain.Snapshot.{SnapshotRecord}
use pg_forge_cli.Error.{Result, ok, err, anyhow, no_backup_instance}
use pg_forge_cli.State.Store.{InstanceState, load_under, list_under, load_for}
use pg_forge_cli.Docker.Engine.{Engine, World, Action, continue, fail, only_if}
use pg_forge_cli.Commands.Snapshot.{
  Clock, SnapshotArgs, next_kind, back_up, run_with_engine, run, running_or_fail, container_of,
  is_due, finish_attempt, save_attempt, each_listed, note_attempt, attempt, run_each, run_due,
}
use pg_forge_cli.Commands.Snapshot.Chain.{AllChained, save_under-AllChained, continue-AllChained}
use pg_forge_cli.Commands.Snapshot.Chain.Records.{next_kind-follows, back_up-AllChained}

-- The rest of the run, once the instance is loaded.
abbrev pub back_up_loaded : Engine → Clock → SnapshotArgs → InstanceState → Action SnapshotRecord
back_up_loaded engine clock args s w =
    back_up engine clock args (next_kind clock s.instance (load_for w.disk args.instance)) w

back_up_loaded-AllChained :
    (engine : Engine) (clock : Clock) (args : SnapshotArgs) (s : InstanceState) (w : World)
    → AllChained w.disk
    → AllChained (back_up_loaded engine clock args s w).1.disk
back_up_loaded-AllChained engine clock args s w h =
    back_up-AllChained engine clock args
      (next_kind clock s.instance (load_for w.disk args.instance)) w
      (record {
        chains = h;
        follows = λ r e. next_kind-follows clock s.instance (load_for w.disk args.instance) r e;
      })

abbrev pub load_and_back_up : Engine → Clock → SnapshotArgs → Action SnapshotRecord
load_and_back_up engine clock args w =
    continue (load_under w.disk args.instance, w) (back_up_loaded engine clock args)

load_and_back_up-AllChained :
    (engine : Engine) (clock : Clock) (args : SnapshotArgs) (w : World)
    → AllChained w.disk
    → AllChained (load_and_back_up engine clock args w).1.disk
load_and_back_up-AllChained engine clock args w h =
    continue-AllChained (load_under w.disk args.instance, w) (back_up_loaded engine clock args) h
      (back_up_loaded-AllChained engine clock args)

run_with_engine-AllChained :
    (engine : Engine) (clock : Clock) (args : SnapshotArgs) (w : World)
    → AllChained w.disk
    → AllChained (run_with_engine engine clock args w).1.disk
unfolding run_with_engine
run_with_engine-AllChained engine clock args w h =
    continue-AllChained (engine.container_running w.steps (container_of args), w)
      (λ running v.
        continue (running_or_fail (container_of args) running v)
          (λ _. load_and_back_up engine clock args))
      h checked
  where
    checked :
        (running : Bool) (v : World)
        → AllChained v.disk
        → AllChained
            (continue
              (running_or_fail (container_of args) running v)
              (λ _. load_and_back_up engine clock args)).1.disk
    checked true v g = load_and_back_up-AllChained engine clock args v g
    checked false v g = g

run-AllChained :
    (engine : Engine) (clock : Clock) (args : SnapshotArgs) (w : World)
    → AllChained w.disk
    → AllChained (run engine clock args w).1.disk
unfolding run
run-AllChained engine clock args w h =
    continue-AllChained (load_under w.disk args.instance, w)
      (λ s v.
        continue
          (only_if (not s.instance.backup_enabled)
            (fail (anyhow (no_backup_instance args.instance))) v)
          (λ _. run_with_engine engine clock args))
      h (λ s. checked (not s.instance.backup_enabled))
  where
    checked :
        (b : Bool) (v : World)
        → AllChained v.disk
        → AllChained
            (continue
              (only_if b (fail (anyhow (no_backup_instance args.instance))) v)
              (λ _. run_with_engine engine clock args)).1.disk
    checked true v g = g
    checked false v g = run_with_engine-AllChained engine clock args v g

note_attempt-AllChained :
    (clock : Clock) (name : Text) (w : World)
    → AllChained w.disk
    → AllChained (note_attempt clock name w).disk
unfolding note_attempt
note_attempt-AllChained clock name w h = locked w.disk.can_lock (load_under w.disk name)
  where
    locked :
        (b : Bool) (r : Result InstanceState)
        → AllChained (if b then record w { disk = save_attempt clock r w.disk } else w).disk
    locked true (ok s) = save_under-AllChained w.disk _ h
    locked true (err e) = h
    locked false r = h

attempt-AllChained :
    (engine : Engine) (clock : Clock) (name : Text) (w : World)
    → AllChained w.disk
    → AllChained (attempt engine clock name w).1.disk
unfolding attempt
attempt-AllChained engine clock name w h = due (is_due clock (load_under w.disk name))
  where
    args : SnapshotArgs
    args = record { instance = name; user_label = some (codes "auto-scheduled") }

    finished :
        (p : Result SnapshotRecord × World)
        → AllChained p.1.disk
        → AllChained (finish_attempt clock name p).1.disk
    finished (ok r, v) g = g
    finished (err e, v) g = note_attempt-AllChained clock name v g

    due :
        (b : Bool)
        → AllChained
            (if b then finish_attempt clock name (run engine clock args w) else (0, w)).1.disk
    due true = finished (run engine clock args w) (run-AllChained engine clock args w h)
    due false = h

run_each-AllChained :
    (engine : Engine) (clocks : ℕ → Clock) (i : ℕ) (names : List Text) (w : World)
    → AllChained w.disk
    → AllChained (run_each engine clocks i names w).1.disk
unfolding run_each
run_each-AllChained engine clocks i [] w h = h
run_each-AllChained engine clocks i (name ∷ names) w h =
    run_each-AllChained engine clocks (suc i) names (attempt engine (clocks i) name w).1
      (attempt-AllChained engine (clocks i) name w h)

-- From a state root whose snapshots files have a full record before each differential one, a pass
-- of the scheduler, whatever the containers answer, leaves such a state root.
pub run_due-AllChained :
    (engine : Engine) (clocks : ℕ → Clock) (w : World)
    → AllChained w.disk
    → AllChained (run_due engine clocks w).1.disk
unfolding run_due
run_due-AllChained engine clocks w h = listed (list_under w.disk)
  where
    listed : (r : Result (List Text)) → AllChained (each_listed engine clocks r w).1.disk
    listed (ok names) = run_each-AllChained engine clocks 0 names w h
    listed (err e) = h
