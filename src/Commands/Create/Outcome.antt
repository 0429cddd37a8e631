-- ===== src/Commands/Create/Outcome.antt =====
-- What a create leaves: the new instance with a port of its own, or states as they were.
use pg_forge_cli.Base.{
  ℕ, zero, suc, Bool, true, false, not, ◌≡◌, refl, Text, Option, arith, if◌then◌else◌,
}
use pg_forge_cli.Pgbackrest.Conf.{S3Settings}
use pg_forge_cli.State.Store.{bind_mount_mode}
use pg_forge_cli.State.Same.{SameFiles-refl, SameFiles-trans}
use pg_forge_cli.Docker.Engine.{
  Engine, ExecOutput, World, Action, skip, fail, only_if, running_exec, sleep,
}
use pg_forge_cli.Commands.Host.{Host}
use pg_forge_cli.Commands.Create.{CreateArgs, write_postgres, prepare_engine, make_container}
use pg_forge_cli.Commands.Create.Bootstrap.{
  retry_stanza, stanza_failed, after_stanza, stanza_create, stanza_attempts, boot, bootstrap_create,
}
use pg_forge_cli.Commands.Create.Run.{
  check_new, write_configs, create_spec, build_created, create_with_engine, some_needed, create,
}
use pg_forge_cli.Commands.Kept.{IsKeeping, same, bind-IsKeeping, only_if-IsKeeping}
use pg_forge_cli.Commands.Kept.Parts.{
  write_postgres-IsKeeping, write_backup_files-IsKeeping, prepare_engine-IsKeeping, boot-IsKeeping,
  clean_after-IsKeeping, quiet-IsKeeping,
}
use pg_forge_cli.Commands.Made.{
  Holds, continue-Holds, Made, continue-Made, Fits, allocated-Made, clean_after-Holds,
}

retry_if-IsKeeping :
    (b c : Bool) (left : ℕ) (out : ExecOutput) (next : Action (Unit {0}))
    → IsKeeping next
    → IsKeeping
        (if b then skip else if c then retry_stanza left out next else fail (stanza_failed out))
retry_if-IsKeeping true c left out next h = same
retry_if-IsKeeping false true zero out next h = same
retry_if-IsKeeping false true (suc left) out next h = λ w. h (sleep 1500 w).1
retry_if-IsKeeping false false left out next h = same

after_stanza-IsKeeping :
    (left : ℕ) (out : ExecOutput) (next : Action (Unit {0}))
    → IsKeeping next
    → IsKeeping (after_stanza left out next)
after_stanza-IsKeeping left out next h = retry_if-IsKeeping _ _ left out next h

stanza_attempts-IsKeeping :
    (engine : Engine) (id : Text) (left : ℕ) → IsKeeping (stanza_attempts engine id left)
unfolding stanza_attempts
stanza_attempts-IsKeeping engine id zero =
    bind-IsKeeping (running_exec id stanza_create (λ h. engine.exec h id stanza_create)) _ same
      (λ out. after_stanza-IsKeeping zero out skip same)
stanza_attempts-IsKeeping engine id (suc left) =
    bind-IsKeeping (running_exec id stanza_create (λ h. engine.exec h id stanza_create)) _ same
      (λ out.
        after_stanza-IsKeeping (suc left) out (stanza_attempts engine id left)
          (stanza_attempts-IsKeeping engine id left))

bootstrap_create-IsKeeping :
    (engine : Engine) (id : Text) (args : CreateArgs) (port : ℕ) (now : Text)
    → IsKeeping (bootstrap_create engine id args port now)
unfolding bootstrap_create
bootstrap_create-IsKeeping engine id args port now =
    bind-IsKeeping (boot engine id 30) _ (boot-IsKeeping engine id 30) (λ _.
      bind-IsKeeping (only_if (not args.no_backup) (stanza_attempts engine id 4)) _
        (only_if-IsKeeping (not args.no_backup) (stanza_attempts engine id 4)
          (stanza_attempts-IsKeeping engine id 4))
        (λ _. same))

write_configs-IsKeeping :
    (args : CreateArgs) (s3 : Option S3Settings) → IsKeeping (write_configs args s3)
unfolding write_configs
write_configs-IsKeeping args s3 =
    bind-IsKeeping
      (write_postgres args.name args.preset (not args.no_backup) args.name args.app_user) _
      (write_postgres-IsKeeping args.name args.preset (not args.no_backup) args.name args.app_user)
      (λ _.
        write_backup_files-IsKeeping bind_mount_mode args.name args.retain_days
          args.pgbackrest_password s3)

build_created-IsKeeping :
    (engine : Engine) (args : CreateArgs) (s3 : Option S3Settings) (now : Text) (port : ℕ)
    → IsKeeping (build_created engine args s3 now port)
unfolding build_created
build_created-IsKeeping engine args s3 now port =
    bind-IsKeeping (write_configs args s3) _ (write_configs-IsKeeping args s3) (λ _.
      bind-IsKeeping (prepare_engine engine args.pg_version) _
        (prepare_engine-IsKeeping engine args.pg_version)
        (λ _. bind-IsKeeping (make_container engine (create_spec args port)) _ same (λ id.
          clean_after-IsKeeping engine args.name (bootstrap_create engine id args port now)
            (bootstrap_create-IsKeeping engine id args port now))))

bootstrap_create-Fits :
    (engine : Engine) (id : Text) (args : CreateArgs) (port : ℕ) (now : Text) (w : World)
    → Holds (Fits args.name port) (bootstrap_create engine id args port now w).0
unfolding bootstrap_create
bootstrap_create-Fits engine id args port now w =
    continue-Holds (Fits args.name port) (boot engine id 30 w) _ (λ _ v.
      continue-Holds (Fits args.name port)
        (only_if (not args.no_backup) (stanza_attempts engine id 4) v) _ (λ _ u. (refl, refl)))

build_created-Fits :
    (engine : Engine) (args : CreateArgs) (s3 : Option S3Settings) (now : Text) (port : ℕ)
    (w : World)
    → Holds (Fits args.name port) (build_created engine args s3 now port w).0
unfolding build_created
build_created-Fits engine args s3 now port w =
    continue-Holds (Fits args.name port) (write_configs args s3 w) _ (λ _ v.
      continue-Holds (Fits args.name port) (prepare_engine engine args.pg_version v) _ (λ _ u.
        continue-Holds (Fits args.name port) (make_container engine (create_spec args port) u) _
          (λ id t.
            clean_after-Holds (Fits args.name port) engine args.name
              (bootstrap_create engine id args port now) t
              (bootstrap_create-Fits engine id args port now t))))

check_new-disk :
    (engine : Engine) (args : CreateArgs) (w : World) → (check_new engine args w).1.disk ≡ w.disk
unfolding check_new
check_new-disk engine args w = ground arith

-- If a create answers a state, it is that of the name, the next load of the name answers it, every
-- other name's load answers what it did, and no instance that loaded before has its port. If it
-- answers an error, the load of every name answers what it did before; or the disk does not grant
-- whole writes, and the instance is made all the same, with what is said of a success.
pub create-Made :
    (host : Host) (args : CreateArgs) (w : World) → Made args.name w.disk (create host args w)
unfolding create create_with_engine
create-Made host args w =
    continue-Made args.name w.disk (host.global, w) _ (SameFiles-refl w.disk)
      (λ global v _ h.
        continue-Made args.name w.disk (some_needed args.no_backup global.s3, v) _ h
          (λ s3 u _ k.
            continue-Made args.name w.disk (host.connect, u) _ k
              (λ engine t _ l.
                continue-Made args.name w.disk (check_new engine args t) _
                  (SameFiles-trans w.disk t.disk _ l
                    (quiet-IsKeeping (check_new engine args) (check_new-disk engine args) t))
                  (λ _ r _ m.
                    allocated-Made args.name global host.probe w.disk
                      (build_created engine args s3 host.now_iso) r m
                      (build_created-IsKeeping engine args s3 host.now_iso)
                      (build_created-Fits engine args s3 host.now_iso)))))
