-- ===== src/Commands/Kept/Parts.antt =====
-- The parts that create, clone, restore, rotate and upgrade share keep states and snapshots.
use pg_forge_cli.Base.{ℕ, ◌≡◌, Bool, Text, Option, none, some, arith}
use pg_forge_cli.Base.Dict.{Dict}
use pg_forge_cli.Domain.Preset.{Preset}
use pg_forge_cli.Pgbackrest.Conf.{S3Settings, generate_pgbackrest_conf}
use pg_forge_cli.Postgres.Conf.{generate_postgresql_conf_with_archive}
use pg_forge_cli.State.Conf.{create_secret_dir, write_plain, write_with}
use pg_forge_cli.State.Store.{Mode, ConfFile, dir_of}
use pg_forge_cli.State.Same.{
  SameFiles, SameFiles-refl, create_secret_dir-SameFiles, write_with-SameFiles,
  write_plain-SameFiles, remove_conf-SameFiles,
}
use pg_forge_cli.Docker.Engine.{Engine, World, Action, fail, log, ◌>>◌, starting, awaiting_running}
use pg_forge_cli.Docker.Cleanup.{cleanup_partial, remove_if_there}
use pg_forge_cli.Commands.Host.{container_named, volume_named}
use pg_forge_cli.Commands.Create.{for_instance, write_postgres, write_backup_files, prepare_engine}
use pg_forge_cli.Commands.Create.Bootstrap.{boot}
use pg_forge_cli.Commands.Create.Run.{clean_after}
use pg_forge_cli.Commands.Kept.{
  IsKeeping, same, bind-IsKeeping, rescue-IsKeeping, writing-IsKeeping, written-IsKeeping,
}
use pg_forge_cli.Commands.Kept.Waits.{wait_for_pg_ready-IsKeeping}

pub write_postgres-IsKeeping :
    (name : Text) (preset : Preset) (with_archive : Bool) (db user : Text)
    → IsKeeping (write_postgres name preset with_archive db user)
unfolding write_postgres
write_postgres-IsKeeping name preset with_archive db user =
    written-IsKeeping (create_secret_dir name) _ (create_secret_dir-SameFiles name) (λ _.
      written-IsKeeping (write_plain name path conf) _ (write_plain-SameFiles name path conf)
        (λ _. writing-IsKeeping (write_plain name _ _) (write_plain-SameFiles name _ _)))
  where
    path : Text
    path = (for_instance name).postgresql_conf

    conf : Text
    conf = generate_postgresql_conf_with_archive preset with_archive

pub write_backup_files-IsKeeping :
    (mode : Mode) (name : Text) (days : ℕ) (password : Text) (s3 : Option S3Settings)
    → IsKeeping (write_backup_files mode name days password s3)
unfolding write_backup_files
write_backup_files-IsKeeping mode name days password none = same
write_backup_files-IsKeeping mode name days password (some s3) =
    written-IsKeeping (write_with mode name path conf) _ (write_with-SameFiles mode name path conf)
      (λ _.
        written-IsKeeping (create_secret_dir name) _ (create_secret_dir-SameFiles name)
          (λ _. writing-IsKeeping (write_with mode name _ _) (write_with-SameFiles mode name _ _)))
  where
    path : Text
    path = (for_instance name).pgbackrest_conf

    conf : Text
    conf = generate_pgbackrest_conf name s3 days

pub prepare_engine-disk :
    (engine : Engine) (version : ℕ) (w : World) → (prepare_engine engine version w).1.disk ≡ w.disk
unfolding prepare_engine
prepare_engine-disk engine version w = ground arith

-- Calls that leave the disk as it is.
pub quiet-IsKeeping {ℓ} :
    {A : Type ℓ} (m : Action A) → ((w : World) → (m w).1.disk ≡ w.disk) → IsKeeping m
quiet-IsKeeping m h w = rw (h w) (SameFiles-refl w.disk)

pub prepare_engine-IsKeeping :
    (engine : Engine) (version : ℕ) → IsKeeping (prepare_engine engine version)
prepare_engine-IsKeeping engine version =
    quiet-IsKeeping (prepare_engine engine version) (prepare_engine-disk engine version)

pub boot-IsKeeping :
    (engine : Engine) (id : Text) (seconds : ℕ) → IsKeeping (boot engine id seconds)
unfolding boot
boot-IsKeeping engine id seconds =
    bind-IsKeeping (log (starting id) (λ h. engine.start_container h id)) _ same (λ _.
      bind-IsKeeping (log (awaiting_running id) (λ h. engine.wait_for_container_running h id 30)) _
        same (λ _. wait_for_pg_ready-IsKeeping engine id seconds))

pub cleanup_partial-IsKeeping :
    (engine : Engine) (container volume name : Text)
    → IsKeeping (cleanup_partial engine container volume name)
unfolding cleanup_partial
cleanup_partial-IsKeeping engine container volume name w = removed (dir_of w.disk name).conf
  where
    removed :
        (files : Option (Dict ConfFile)) → SameFiles w.disk (remove_if_there name files w.disk).1
    removed none = SameFiles-refl w.disk
    removed (some files) = remove_conf-SameFiles name w.disk

pub clean_after-IsKeeping {ℓ} :
    {A : Type ℓ} (engine : Engine) (name : Text) (m : Action A)
    → IsKeeping m
    → IsKeeping (clean_after engine name m)
unfolding clean_after
clean_after-IsKeeping engine name m h =
    rescue-IsKeeping m (λ e. cleanup >> fail e) h
      (λ e.
        bind-IsKeeping cleanup (λ _. fail e) (cleanup_partial-IsKeeping engine _ _ name)
          (λ _. same))
  where
    cleanup : Action (Unit {0})
    cleanup = cleanup_partial engine (container_named name) (volume_named name) name
