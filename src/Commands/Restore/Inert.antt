-- ===== src/Commands/Restore/Inert.antt =====
-- A restored instance stays out of the backups of its source.
use pg_forge_cli.Base.{not, false, ◌≡◌, refl, Text, Option, arith}
use pg_forge_cli.Error.{
  Result, ok, err, anyhow, s3_missing, source_without_backups, no_backup_instance,
}
use pg_forge_cli.Config.{GlobalConfig}
use pg_forge_cli.Domain.Instance.{Instance, validate_name}
use pg_forge_cli.Pgbackrest.Conf.{S3Settings}
use pg_forge_cli.Time.{Jiff}
use pg_forge_cli.State.Store.{InstanceState, load_under}
use pg_forge_cli.Docker.Engine.{Engine, World, continue, reading, only_if, fail}
use pg_forge_cli.Commands.Host.{Host, allocate_host_port}
use pg_forge_cli.Commands.Create.Run.{check_absent, needed, save_made}
use pg_forge_cli.Commands.Snapshot.{Clock, SnapshotArgs, run, attempt, is_due}
use pg_forge_cli.Commands.Made.{Holds, continue-Holds, Holds-ok, Made-ok, IsMade, save_made-Holds}
use pg_forge_cli.Commands.Restore.{
  RestoreArgs, restored_instance_state, check_time, build_restore, restore_with_engine, restore,
}
use pg_forge_cli.Commands.Restore.Outcome.{build_restore-Holds, restore-Made}

abbrev HasNoBackups : InstanceState → Type 0
HasNoBackups s = s.instance.backup_enabled ≡ false

finish-HasNoBackups :
    (p : Result InstanceState × World)
    → Holds HasNoBackups p.0
    → Holds HasNoBackups (continue p save_made).0
finish-HasNoBackups (ok s, w) h = save_made-Holds HasNoBackups s w h
finish-HasNoBackups (err e, w) h = tt

restore_with_engine-HasNoBackups :
    (jiff : Jiff) (args : RestoreArgs) (engine : Engine) (host : Host) (global : GlobalConfig)
    (s3 : S3Settings) (source : Instance) (w : World)
    → Holds HasNoBackups (restore_with_engine jiff args engine host global s3 source w).0
unfolding restore_with_engine restored_instance_state
restore_with_engine-HasNoBackups jiff args engine host global s3 source w =
    continue-Holds HasNoBackups (reading (allocate_host_port global host.probe) w) _ (λ port v.
      finish-HasNoBackups (build_restore jiff engine args s3 source host.now_iso port v)
        (build_restore-Holds HasNoBackups args source host.now_iso jiff engine s3 port v refl))

restore-HasNoBackups :
    (jiff : Jiff) (host : Host) (args : RestoreArgs) (w : World)
    → Holds HasNoBackups (restore jiff host args w).0
unfolding restore
restore-HasNoBackups jiff host args w =
    continue-Holds P (validate_name args.as_name, w) _
      (λ _ z.
        continue-Holds P (check_time jiff args.target_time, z) _
          (λ _ a.
            continue-Holds P (host.global, a) _
              (λ global b.
                continue-Holds P (needed (anyhow s3_missing) global.s3, b) _
                  (λ s3 c.
                    continue-Holds P (load_under c.disk args.source, c) _
                      (λ source d.
                        continue-Holds P
                          (only_if (not source.instance.backup_enabled)
                            (fail (anyhow (source_without_backups args.source))) d)
                          _
                          (λ _ e.
                            continue-Holds P (check_absent args.as_name e.disk, e) _
                              (λ _ f.
                                continue-Holds P (host.connect, f) _
                                  (λ engine g.
                                    restore_with_engine-HasNoBackups jiff args engine host global s3
                                      source.instance g))))))))
  where
    P : InstanceState → Type 0
    P = HasNoBackups

due_without_backups :
    (clock : Clock) (r : Result InstanceState) (s : InstanceState)
    → r ≡ ok s
    → HasNoBackups s
    → is_due clock r ≡ false
unfolding is_due
due_without_backups clock r s e h = ground (arith, e, h)

run_without_backups :
    (engine : Engine) (clock : Clock) (args : SnapshotArgs) (w : World) (s : InstanceState)
    → load_under w.disk args.instance ≡ ok s
    → HasNoBackups s
    → run engine clock args w ≡ (err (anyhow (no_backup_instance args.instance)), w)
unfolding run
run_without_backups engine clock args w s l h = ground (arith, l, h)

attempt_without_backups :
    (engine : Engine) (clock : Clock) (name : Text) (w : World) (s : InstanceState)
    → load_under w.disk name ≡ ok s
    → HasNoBackups s
    → attempt engine clock name w ≡ (0, w)
unfolding attempt
attempt_without_backups engine clock name w s l h =
    ground (arith, due_without_backups clock (load_under w.disk name) s l h)

-- After a restore that has succeeded, the scheduler passes the new instance over, at any time, and
-- a snapshot of it is refused before anything is called.
pub restore-inert :
    (jiff : Jiff) (host : Host) (args : RestoreArgs) (w : World) (s : InstanceState)
    → (restore jiff host args w).0 ≡ ok s
    → (engine : Engine) (clock : Clock) (label : Option Text)
    → (attempt engine clock args.as_name (restore jiff host args w).1
        ≡ (0, (restore jiff host args w).1))
      × (run engine clock
            (record { instance = args.as_name; user_label = label })
            (restore jiff host args w).1
          ≡ (err (anyhow (no_backup_instance args.as_name)), (restore jiff host args w).1))
restore-inert jiff host args w s e engine clock label = (
  attempt_without_backups engine clock args.as_name (restore jiff host args w).1 s made.loads
      without,
  run_without_backups engine clock _ (restore jiff host args w).1 s made.loads without,
)
  where
    made : IsMade args.as_name w.disk s (restore jiff host args w).1.disk
    made =
        Made-ok args.as_name w.disk (restore jiff host args w) s (restore-Made jiff host args w) e

    without : HasNoBackups s
    without =
        Holds-ok HasNoBackups (restore jiff host args w).0 s (restore-HasNoBackups jiff host args w)
          e
