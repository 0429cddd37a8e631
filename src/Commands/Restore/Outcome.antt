-- ===== src/Commands/Restore/Outcome.antt =====
-- What a restore leaves: the new instance with a port of its own, or states as they were.
use pg_forge_cli.Base.{ℕ, not, refl, Text, Option}
use pg_forge_cli.Domain.Instance.{Instance, validate_name}
use pg_forge_cli.Error.{anyhow, s3_missing}
use pg_forge_cli.Base.{false}
use pg_forge_cli.Pgbackrest.Conf.{S3Settings, generate_pgbackrest_conf}
use pg_forge_cli.Time.{Jiff}
use pg_forge_cli.State.Store.{
  Disk, DiskStep, InstanceState, script_mode, bind_mount_mode, load_under,
}
use pg_forge_cli.State.Conf.{write_with, write_plain, set_permissions}
use pg_forge_cli.State.Same.{
  SameFiles-refl, write_with-SameFiles, write_plain-SameFiles, set_permissions-SameFiles,
}
use pg_forge_cli.Docker.Entrypoints.{generate_restore_entrypoint}
use pg_forge_cli.Docker.Wait.Polling.{wait_for_recovery_end}
use pg_forge_cli.Docker.Engine.{Engine, World, reading}
use pg_forge_cli.Commands.Host.{Host}
use pg_forge_cli.Commands.Create.{for_instance, write_postgres, prepare_engine, make_container}
use pg_forge_cli.Commands.Create.Bootstrap.{boot}
use pg_forge_cli.Commands.Create.Run.{check_absent, needed}
use pg_forge_cli.Commands.Kept.{IsKeeping, same, bind-IsKeeping, written-IsKeeping}
use pg_forge_cli.Commands.Kept.Waits.{wait_for_recovery_end-IsKeeping}
use pg_forge_cli.Commands.Kept.Parts.{
  write_postgres-IsKeeping, prepare_engine-IsKeeping, boot-IsKeeping, clean_after-IsKeeping,
}
use pg_forge_cli.Commands.Made.{
  Holds, continue-Holds, Made, continue-Made, Fits, guarded-Made, allocated-Made, clean_after-Holds,
}
use pg_forge_cli.Commands.Restore.{
  RestoreArgs, restore_script, canonical_target, write_restore_files, restore_spec,
  restored_instance_state, bootstrap_restore, build_restore, restore_with_engine, check_time,
  restore,
}

write_restore_files-IsKeeping :
    (jiff : Jiff) (args : RestoreArgs) (source : Instance) (s3 : S3Settings)
    → IsKeeping (write_restore_files jiff args source s3)
unfolding write_restore_files
write_restore_files-IsKeeping jiff args source s3 =
    bind-IsKeeping (write_postgres name source.preset false source.db_name source.app_user) _
      (write_postgres-IsKeeping name source.preset false source.db_name source.app_user)
      (λ _. written-IsKeeping repository _ (write_with-SameFiles bind_mount_mode name _ _) (λ _.
        bind-IsKeeping (reading (λ _. canonical_target jiff args.target_time)) _ same (λ target.
          written-IsKeeping (script target) _ (write_plain-SameFiles name _ _) (λ _.
            written-IsKeeping (set_permissions script_mode name (restore_script name)) _
              (set_permissions-SameFiles script_mode name (restore_script name)) (λ _. same)))))
  where
    name : Text
    name = args.as_name

    repository : Disk → DiskStep (Unit {0})
    repository =
        write_with bind_mount_mode name (for_instance name).pgbackrest_conf
          (generate_pgbackrest_conf args.source s3 source.retain_days)

    script : Option Text → Disk → DiskStep (Unit {0})
    script target = write_plain name (restore_script name) (generate_restore_entrypoint target)

bootstrap_restore-IsKeeping :
    (engine : Engine) (id : Text) (args : RestoreArgs) (source : Instance) (port : ℕ) (now : Text)
    → IsKeeping (bootstrap_restore engine id args source port now)
unfolding bootstrap_restore
bootstrap_restore-IsKeeping engine id args source port now =
    bind-IsKeeping (boot engine id 600) _ (boot-IsKeeping engine id 600) (λ _.
      bind-IsKeeping (wait_for_recovery_end engine id 600) _
        (wait_for_recovery_end-IsKeeping engine id 600) (λ _. same))

module _ (P : InstanceState → Type 0) (args : RestoreArgs) (source : Instance) (now : Text) where
  bootstrap_restore-Holds :
      (engine : Engine) (id : Text) (port : ℕ) (w : World)
      → P (restored_instance_state source args.as_name port now)
      → Holds P (bootstrap_restore engine id args source port now w).0
  unfolding bootstrap_restore
  bootstrap_restore-Holds engine id port w h =
      continue-Holds P (boot engine id 600 w) _
        (λ _ v. continue-Holds P (wait_for_recovery_end engine id 600 v) _ (λ _ u. h))

  pub build_restore-Holds :
      (jiff : Jiff) (engine : Engine) (s3 : S3Settings) (port : ℕ) (w : World)
      → P (restored_instance_state source args.as_name port now)
      → Holds P (build_restore jiff engine args s3 source now port w).0
  unfolding build_restore
  build_restore-Holds jiff engine s3 port w h =
      continue-Holds P (write_restore_files jiff args source s3 w) _ (λ target v.
        continue-Holds P (prepare_engine engine source.pg_version v) _ (λ _ u.
          continue-Holds P (make_container engine (restore_spec args source target port) u) _
            (λ id t.
              clean_after-Holds P engine args.as_name
                (bootstrap_restore engine id args source port now) t
                (bootstrap_restore-Holds engine id port t h))))

build_restore-IsKeeping :
    (jiff : Jiff) (engine : Engine) (args : RestoreArgs) (s3 : S3Settings) (source : Instance)
    (now : Text) (port : ℕ)
    → IsKeeping (build_restore jiff engine args s3 source now port)
unfolding build_restore
build_restore-IsKeeping jiff engine args s3 source now port =
    bind-IsKeeping (write_restore_files jiff args source s3) _
      (write_restore_files-IsKeeping jiff args source s3)
      (λ target.
        bind-IsKeeping (prepare_engine engine source.pg_version) _
          (prepare_engine-IsKeeping engine source.pg_version)
          (λ _.
            bind-IsKeeping (make_container engine (restore_spec args source target port)) _ same
              (λ id.
                clean_after-IsKeeping engine args.as_name
                  (bootstrap_restore engine id args source port now)
                  (bootstrap_restore-IsKeeping engine id args source port now))))

build_restore-Fits :
    (jiff : Jiff) (engine : Engine) (args : RestoreArgs) (s3 : S3Settings) (source : Instance)
    (now : Text) (port : ℕ) (w : World)
    → Holds (Fits args.as_name port) (build_restore jiff engine args s3 source now port w).0
unfolding restored_instance_state
build_restore-Fits jiff engine args s3 source now port w =
    build_restore-Holds (Fits args.as_name port) args source now jiff engine s3 port w (refl, refl)

-- If a restore answers a state, it is that of the new name, the next load of that name answers it,
-- every other name's load answers what it did, and no instance that loaded before has its port. If
-- it answers an error, the load of every name answers what it did before; or the disk does not grant
-- whole writes, and the instance is made all the same, with what is said of a success.
pub restore-Made :
    (jiff : Jiff) (host : Host) (args : RestoreArgs) (w : World)
    → Made args.as_name w.disk (restore jiff host args w)
unfolding restore restore_with_engine
restore-Made jiff host args w =
    continue-Made name w.disk (validate_name name, w) _ (SameFiles-refl w.disk)
      (λ _ z _ g.
        continue-Made name w.disk (check_time jiff args.target_time, z) _ g
          (λ _ a _ h.
            continue-Made name w.disk (host.global, a) _ h
              (λ global b _ i.
                continue-Made name w.disk (needed (anyhow s3_missing) global.s3, b) _ i
                  (λ s3 c _ j.
                    continue-Made name w.disk (load_under c.disk args.source, c) _ j
                      (λ source d _ k.
                        guarded-Made name w.disk (not source.instance.backup_enabled) _ d _ k (λ _.
                          continue-Made name w.disk (check_absent name d.disk, d) _ k
                            (λ _ e _ l.
                              continue-Made name w.disk (host.connect, e) _ l
                                (λ engine f _ m.
                                  allocated-Made name global host.probe w.disk
                                    (build_restore jiff engine args s3 source.instance host.now_iso)
                                    f m
                                    (build_restore-IsKeeping jiff engine args s3 source.instance
                                      host.now_iso)
                                    (build_restore-Fits jiff engine args s3 source.instance
                                      host.now_iso)))))))))
  where
    name : Text
    name = args.as_name
