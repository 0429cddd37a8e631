-- ===== src/Commands/Restore.antt =====
-- commands/restore.rs: another instance from the backups of one, up to a point in time.
pub mod Outcome
pub mod Inert
use pg_forge_cli.Base.{ℕ, false, not, Text, codes, [], ◌∷◌, ◌++◌, Option, none, some}
use pg_forge_cli.Base.Dict.{Dict}
use pg_forge_cli.Base.Int.{ℤ}
use pg_forge_cli.Domain.Instance.{Instance, validate_name}
use pg_forge_cli.Error.{Result, ok, err, anyhow, s3_missing, source_without_backups}
use pg_forge_cli.Config.{GlobalConfig}
use pg_forge_cli.Time.{Jiff, parse_target_time, canonicalize_target_time}
use pg_forge_cli.Pgbackrest.Conf.{S3Settings, generate_pgbackrest_conf}
use pg_forge_cli.State.Store.{bind_mount_mode, script_mode, InstanceState, load_under}
use pg_forge_cli.State.Conf.{write_plain, write_with, set_permissions}
use pg_forge_cli.Docker.Entrypoints.{generate_restore_entrypoint}
use pg_forge_cli.Docker.Wait.Polling.{wait_for_recovery_end}
use pg_forge_cli.Docker.Engine.{
  ◌>>=◌, ◌>>◌, Engine, Action, CreateContainerSpec, no_restart, done, fail, reading, writing,
  only_if,
}
use pg_forge_cli.Commands.Host.{Host, volume_named, allocate_host_port}
use pg_forge_cli.Commands.Create.{
  conf_root, for_instance, write_postgres, prepare_engine, postgres_env, postgres_binds,
  read_only_bind, instance_spec, make_container,
}
use pg_forge_cli.Commands.Create.Bootstrap.{boot}
use pg_forge_cli.Commands.Create.Run.{check_absent, clean_after, save_made, needed}

pub record RestoreArgs : Type 0 where
  pub source : Text
  pub as_name : Text
  pub target_time : Option Text

abbrev pub restore_script : Text → Text
restore_script name = conf_root name ++ codes "/restore-entrypoint.sh"

abbrev pub canonical_target : Jiff → Option Text → Result (Option Text)
canonical_target jiff none = ok none
canonical_target jiff (some t) = some_of (canonicalize_target_time jiff t)
  where
    some_of : Result Text → Result (Option Text)
    some_of (ok s) = ok (some s)
    some_of (err e) = err e

-- Without archiving, and with the source's name in pgbackrest.conf. Answers the target.
unfoldable pub write_restore_files :
    Jiff → RestoreArgs → Instance → S3Settings → Action (Option Text)
write_restore_files jiff args source s3 = do
  write_postgres args.as_name source.preset false source.db_name source.app_user
  writing (
      write_with bind_mount_mode args.as_name (for_instance args.as_name).pgbackrest_conf
        (generate_pgbackrest_conf args.source s3 source.retain_days))
  target ← reading (λ _. canonical_target jiff args.target_time)
  writing
      (write_plain args.as_name (restore_script args.as_name) (generate_restore_entrypoint target))
  writing (set_permissions script_mode args.as_name (restore_script args.as_name))
  done target

abbrev target_env : Option Text → Dict Text
target_env none = []
target_env (some t) = (codes "PGFORGE_TARGET", t) ∷ []

abbrev pub restore_spec : RestoreArgs → Instance → Option Text → ℕ → CreateContainerSpec
restore_spec args source target port =
    record (instance_spec args.as_name source.pg_version
      (postgres_env source.app_user source.app_password args.as_name ++ target_env target)
      (postgres_binds args.as_name
        ++ read_only_bind (for_instance args.as_name).pgbackrest_conf
            (codes "/etc/pgbackrest/pgbackrest.conf")
          ∷ read_only_bind (restore_script args.as_name)
              (codes "/usr/local/bin/pgforge-restore-entrypoint.sh")
          ∷ [])
      (volume_named args.as_name) port source.preset) {
        entrypoint_override = some (codes "/usr/local/bin/pgforge-restore-entrypoint.sh" ∷ []);
        cmd_override = none;
        restart_policy = no_restart;
      }

unfoldable pub restored_instance_state : Instance → Text → ℕ → Text → InstanceState
restored_instance_state source as_name port now = record {
  instance = record source {
    name = as_name;
    host_port = port;
    backup_enabled = false;
    volume_name_override = none;
    snapshot_hour = none;
    last_snapshot_at = none;
    last_snapshot_attempt_at = none;
  };
  created_at = now;
}

unfoldable pub bootstrap_restore :
    Engine → Text → RestoreArgs → Instance → ℕ → Text → Action InstanceState
bootstrap_restore engine id args source port now = do
  boot engine id 600
  wait_for_recovery_end engine id 600
  done (restored_instance_state source args.as_name port now)

unfoldable pub build_restore :
    Jiff → Engine → RestoreArgs → S3Settings → Instance → Text → ℕ → Action InstanceState
build_restore jiff engine args s3 source now port = do
  target ← write_restore_files jiff args source s3
  prepare_engine engine source.pg_version
  id ← make_container engine (restore_spec args source target port)
  clean_after engine args.as_name (bootstrap_restore engine id args source port now)

unfoldable pub restore_with_engine :
    Jiff → RestoreArgs → Engine → Host → GlobalConfig → S3Settings → Instance → Action InstanceState
restore_with_engine jiff args engine host global s3 source = do
  port ← reading (allocate_host_port global host.probe)
  state ← build_restore jiff engine args s3 source host.now_iso port
  save_made state

abbrev pub check_time : Jiff → Option Text → Result (Unit {0})
check_time jiff none = ok tt
check_time jiff (some t) = unit_of (parse_target_time jiff t)
  where
    unit_of : Result ℤ → Result (Unit {0})
    unit_of (ok a) = ok tt
    unit_of (err e) = err e

unfoldable pub restore : Jiff → Host → RestoreArgs → Action InstanceState
restore jiff host args = do
  reading (λ _. validate_name args.as_name)
  reading (λ _. check_time jiff args.target_time)
  global ← reading (λ _. host.global)
  s3 ← reading (λ _. needed (anyhow s3_missing) global.s3)
  source ← reading (λ disk. load_under disk args.source)
  only_if (not source.instance.backup_enabled) (fail (anyhow (source_without_backups args.source)))
  reading (check_absent args.as_name)
  engine ← reading (λ _. host.connect)
  restore_with_engine jiff args engine host global s3 source.instance
