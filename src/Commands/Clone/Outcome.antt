-- ===== src/Commands/Clone/Outcome.antt =====
-- What a clone leaves: the new instance with a port of its own, or states as they were.
use pg_forge_cli.Base.{ℕ, not, refl, Text, arith}
use pg_forge_cli.Domain.Instance.{Instance, validate_name}
use pg_forge_cli.Error.{anyhow, s3_missing}
use pg_forge_cli.Config.{GlobalConfig}
use pg_forge_cli.Base.{true}
use pg_forge_cli.Pgbackrest.Conf.{S3Settings, generate_pgbackrest_conf}
use pg_forge_cli.Pgbackrest.Pgpass.{generate_pgpass}
use pg_forge_cli.State.Store.{Disk, DiskStep, secret_mode, script_mode, load_under}
use pg_forge_cli.State.Conf.{write_with, write_plain, set_permissions}
use pg_forge_cli.State.Same.{
  SameFiles, SameFiles-refl, write_with-SameFiles, write_plain-SameFiles, set_permissions-SameFiles,
}
use pg_forge_cli.Docker.Entrypoints.{generate_clone_entrypoint}
use pg_forge_cli.Docker.Wait.Polling.{wait_for_recovery_end}
use pg_forge_cli.Docker.Engine.{Engine, World, running_exec}
use pg_forge_cli.Commands.Host.{Host, container_named}
use pg_forge_cli.Commands.Create.{for_instance, write_postgres, prepare_engine, make_container}
use pg_forge_cli.Commands.Create.Bootstrap.{boot, stanza_create}
use pg_forge_cli.Commands.Create.Run.{check_absent, needed}
use pg_forge_cli.Commands.Kept.{
  IsKeeping, same, bind-IsKeeping, writing-IsKeeping, written-IsKeeping,
}
use pg_forge_cli.Commands.Kept.Waits.{wait_for_recovery_end-IsKeeping}
use pg_forge_cli.Commands.Kept.Parts.{
  write_postgres-IsKeeping, prepare_engine-IsKeeping, boot-IsKeeping, clean_after-IsKeeping,
  quiet-IsKeeping,
}
use pg_forge_cli.Commands.Made.{
  Holds, continue-Holds, Made, continue-Made, Fits, guarded-Made, allocated-Made, clean_after-Holds,
}
use pg_forge_cli.Commands.Clone.{
  CloneArgs, clone_script, pgpass_path, write_clone_files, clone_spec, check_stanza,
  bootstrap_clone, build_clone, clone_with_engine, clone,
}

write_clone_files-IsKeeping :
    (args : CloneArgs) (source : Instance) (s3 : S3Settings)
    → IsKeeping (write_clone_files args source s3)
unfolding write_clone_files
write_clone_files-IsKeeping args source s3 =
    bind-IsKeeping (write_postgres name source.preset true source.db_name source.app_user) _
      (write_postgres-IsKeeping name source.preset true source.db_name source.app_user)
      (λ _. written-IsKeeping repository _ (write_with-SameFiles secret_mode name _ _) (λ _.
        written-IsKeeping script _ (write_plain-SameFiles name _ _) (λ _.
          written-IsKeeping password _ (write_with-SameFiles secret_mode name _ _) (λ _.
            writing-IsKeeping (set_permissions script_mode name (clone_script name))
              (set_permissions-SameFiles script_mode name (clone_script name))))))
  where
    name : Text
    name = args.as_name

    repository : Disk → DiskStep (Unit {0})
    repository =
        write_with secret_mode name (for_instance name).pgbackrest_conf
          (generate_pgbackrest_conf name s3 30)

    script : Disk → DiskStep (Unit {0})
    script =
        write_plain name (clone_script name)
          (generate_clone_entrypoint (container_named args.source) 5432)

    password : Disk → DiskStep (Unit {0})
    password =
        write_with secret_mode name (pgpass_path name) (generate_pgpass source.pgbackrest_password)

bootstrap_clone-IsKeeping :
    (engine : Engine) (id : Text) (args : CloneArgs) (source : Instance) (port : ℕ) (now : Text)
    → IsKeeping (bootstrap_clone engine id args source port now)
unfolding bootstrap_clone
bootstrap_clone-IsKeeping engine id args source port now =
    bind-IsKeeping (boot engine id 600) _ (boot-IsKeeping engine id 600) (λ _.
      bind-IsKeeping (wait_for_recovery_end engine id 600) _
        (wait_for_recovery_end-IsKeeping engine id 600)
        (λ _.
          bind-IsKeeping (running_exec id stanza_create (λ h. engine.exec h id stanza_create)) _
            same
            (λ out.
              bind-IsKeeping (check_stanza out) _
                (quiet-IsKeeping (check_stanza out) (λ w. ground arith)) (λ _. same))))

bootstrap_clone-Fits :
    (engine : Engine) (id : Text) (args : CloneArgs) (source : Instance) (port : ℕ) (now : Text)
    (w : World)
    → Holds (Fits args.as_name port) (bootstrap_clone engine id args source port now w).0
unfolding bootstrap_clone
bootstrap_clone-Fits engine id args source port now w =
    continue-Holds (Fits args.as_name port) (boot engine id 600 w) _ (λ _ v.
      continue-Holds (Fits args.as_name port) (wait_for_recovery_end engine id 600 v) _ (λ _ u.
        continue-Holds (Fits args.as_name port)
          (running_exec id stanza_create (λ h. engine.exec h id stanza_create) u) _
          (λ out t.
            continue-Holds (Fits args.as_name port) (check_stanza out t) _ (λ _ r. (refl, refl)))))

build_clone-IsKeeping :
    (engine : Engine) (args : CloneArgs) (s3 : S3Settings) (source : Instance) (now : Text)
    (port : ℕ)
    → IsKeeping (build_clone engine args s3 source now port)
unfolding build_clone
build_clone-IsKeeping engine args s3 source now port =
    bind-IsKeeping (write_clone_files args source s3) _ (write_clone_files-IsKeeping args source s3)
      (λ _.
        bind-IsKeeping (prepare_engine engine source.pg_version) _
          (prepare_engine-IsKeeping engine source.pg_version)
          (λ _. bind-IsKeeping (make_container engine (clone_spec args source port)) _ same (λ id.
            clean_after-IsKeeping engine args.as_name
              (bootstrap_clone engine id args source port now)
              (bootstrap_clone-IsKeeping engine id args source port now))))

build_clone-Fits :
    (engine : Engine) (args : CloneArgs) (s3 : S3Settings) (source : Instance) (now : Text)
    (port : ℕ) (w : World)
    → Holds (Fits args.as_name port) (build_clone engine args s3 source now port w).0
unfolding build_clone
build_clone-Fits engine args s3 source now port w =
    continue-Holds (Fits args.as_name port) (write_clone_files args source s3 w) _ (λ _ v.
      continue-Holds (Fits args.as_name port) (prepare_engine engine source.pg_version v) _ (λ _ u.
        continue-Holds (Fits args.as_name port)
          (make_container engine (clone_spec args source port) u) _
          (λ id t.
            clean_after-Holds (Fits args.as_name port) engine args.as_name
              (bootstrap_clone engine id args source port now) t
              (bootstrap_clone-Fits engine id args source port now t))))

clone_with_engine-Made :
    (args : CloneArgs) (engine : Engine) (host : Host) (global : GlobalConfig) (s3 : S3Settings)
    (source : Instance) (before : Disk) (w : World)
    → SameFiles before w.disk
    → Made args.as_name before (clone_with_engine args engine host global s3 source w)
unfolding clone_with_engine
clone_with_engine-Made args engine host global s3 source before w h =
    continue-Made args.as_name before
      (engine.container_running w.steps (container_named args.source), w) _ h
      (λ running v _ k. guarded-Made args.as_name before (not running) _ v _ k (λ _.
        allocated-Made args.as_name global host.probe before
          (build_clone engine args s3 source host.now_iso) v k
          (build_clone-IsKeeping engine args s3 source host.now_iso)
          (build_clone-Fits engine args s3 source host.now_iso)))

-- If a clone answers a state, it is that of the new name, the next load of that name answers it,
-- every other name's load answers what it did, and no instance that loaded before has its port. If
-- it answers an error, the load of every name answers what it did before; or the disk does not grant
-- whole writes, and the instance is made all the same, with what is said of a success.
pub clone-Made :
    (host : Host) (args : CloneArgs) (w : World) → Made args.as_name w.disk (clone host args w)
unfolding clone
clone-Made host args w =
    continue-Made args.as_name w.disk (validate_name args.as_name, w) _ (SameFiles-refl w.disk)
      (λ _ a _ h.
        continue-Made args.as_name w.disk (host.global, a) _ h
          (λ global b _ i.
            continue-Made args.as_name w.disk (needed (anyhow s3_missing) global.s3, b) _ i
              (λ s3 c _ j.
                continue-Made args.as_name w.disk (load_under c.disk args.source, c) _ j
                  (λ source d _ k.
                    guarded-Made args.as_name w.disk (not source.instance.backup_enabled) _ d _ k
                      (λ _.
                        continue-Made args.as_name w.disk (check_absent args.as_name d.disk, d) _ k
                          (λ _ e _ l.
                            continue-Made args.as_name w.disk (host.connect, e) _ l
                              (λ engine f _ m.
                                clone_with_engine-Made args engine host global s3 source.instance
                                  w.disk f m)))))))
