-- ===== src/Commands/Clone.antt =====
-- commands/clone.rs: another instance from a base backup of a running one.
pub mod Outcome
use pg_forge_cli.Base.{ℕ, true, not, Text, codes, [], ◌∷◌, ◌++◌, none, some, if◌then◌else◌}
use pg_forge_cli.Base.Int.{is_zero}
use pg_forge_cli.Domain.Instance.{Instance, validate_name}
use pg_forge_cli.Error.{
  anyhow, docker, s3_missing, source_without_backups, source_not_running, clone_stanza_failed,
}
use pg_forge_cli.Config.{GlobalConfig}
use pg_forge_cli.Pgbackrest.Conf.{S3Settings, generate_pgbackrest_conf}
use pg_forge_cli.Pgbackrest.Pgpass.{generate_pgpass}
use pg_forge_cli.State.Store.{secret_mode, script_mode, InstanceState, load_under}
use pg_forge_cli.State.Conf.{write_plain, write_with, set_permissions}
use pg_forge_cli.Docker.Entrypoints.{generate_clone_entrypoint}
use pg_forge_cli.Docker.Wait.Polling.{wait_for_recovery_end}
use pg_forge_cli.Docker.Engine.{
  ◌>>=◌, ◌>>◌, Engine, ExecOutput, Action, CreateContainerSpec, no_restart, done, fail, skip,
  reading, writing, ask, only_if, running_exec,
}
use pg_forge_cli.Commands.Host.{Host, container_named, volume_named, allocate_host_port}
use pg_forge_cli.Commands.Create.{
  conf_root, for_instance, write_postgres, prepare_engine, postgres_env, postgres_binds,
  read_only_bind, instance_spec, make_container,
}
use pg_forge_cli.Commands.Create.Bootstrap.{boot, stanza_create}
use pg_forge_cli.Commands.Create.Run.{check_absent, clean_after, save_made, needed}

pub record CloneArgs : Type 0 where
  pub source : Text
  pub as_name : Text

abbrev pub clone_script : Text → Text
clone_script name = conf_root name ++ codes "/clone-entrypoint.sh"

abbrev pub pgpass_path : Text → Text
pgpass_path name = conf_root name ++ codes "/pgpass"

-- The retention of the new pgbackrest.conf is 30 days.
unfoldable pub write_clone_files : CloneArgs → Instance → S3Settings → Action (Unit {0})
write_clone_files args source s3 = do
  write_postgres args.as_name source.preset true source.db_name source.app_user
  writing (
      write_with secret_mode args.as_name (for_instance args.as_name).pgbackrest_conf
        (generate_pgbackrest_conf args.as_name s3 30))
  writing (
      write_plain args.as_name (clone_script args.as_name)
        (generate_clone_entrypoint (container_named args.source) 5432))
  writing (
      write_with secret_mode args.as_name (pgpass_path args.as_name)
        (generate_pgpass source.pgbackrest_password))
  writing (set_permissions script_mode args.as_name (clone_script args.as_name))

abbrev pub clone_spec : CloneArgs → Instance → ℕ → CreateContainerSpec
clone_spec args source port =
    record (instance_spec args.as_name source.pg_version
      (postgres_env source.app_user source.app_password source.db_name)
      (postgres_binds args.as_name
        ++ read_only_bind (for_instance args.as_name).pgbackrest_conf
            (codes "/etc/pgbackrest/pgbackrest.conf")
          ∷ read_only_bind (clone_script args.as_name)
              (codes "/usr/local/bin/pgforge-clone-entrypoint.sh")
          ∷ read_only_bind (pgpass_path args.as_name) (codes "/var/lib/postgresql/.pgpass")
          ∷ [])
      (volume_named args.as_name) port source.preset) {
        entrypoint_override = some (codes "/usr/local/bin/pgforge-clone-entrypoint.sh" ∷ []);
        cmd_override = none;
        restart_policy = no_restart;
      }

abbrev pub check_stanza : ExecOutput → Action (Unit {0})
check_stanza out =
    if is_zero out.exit_code
    then skip
    else fail (docker (clone_stanza_failed out.exit_code out.stdout out.stderr))

abbrev pub cloned_state : CloneArgs → Instance → ℕ → Text → InstanceState
cloned_state args source port now = record {
  instance = record source {
    name = args.as_name;
    host_port = port;
    backup_enabled = true;
    volume_name_override = none;
    last_snapshot_at = none;
    last_snapshot_attempt_at = none;
  };
  created_at = now;
}

unfoldable pub bootstrap_clone :
    Engine → Text → CloneArgs → Instance → ℕ → Text → Action InstanceState
bootstrap_clone engine id args source port now = do
  boot engine id 600
  wait_for_recovery_end engine id 600
  out ← running_exec id stanza_create (λ h. engine.exec h id stanza_create)
  check_stanza out
  done (cloned_state args source port now)

unfoldable pub build_clone :
    Engine → CloneArgs → S3Settings → Instance → Text → ℕ → Action InstanceState
build_clone engine args s3 source now port = do
  write_clone_files args source s3
  prepare_engine engine source.pg_version
  id ← make_container engine (clone_spec args source port)
  clean_after engine args.as_name (bootstrap_clone engine id args source port now)

unfoldable pub clone_with_engine :
    CloneArgs → Engine → Host → GlobalConfig → S3Settings → Instance → Action InstanceState
clone_with_engine args engine host global s3 source = do
  running ← ask (λ h. engine.container_running h (container_named args.source))
  only_if (not running)
      (fail (anyhow (source_not_running args.source (container_named args.source))))
  port ← reading (allocate_host_port global host.probe)
  state ← build_clone engine args s3 source host.now_iso port
  save_made state

unfoldable pub clone : Host → CloneArgs → Action InstanceState
clone host args = do
  reading (λ _. validate_name args.as_name)
  global ← reading (λ _. host.global)
  s3 ← reading (λ _. needed (anyhow s3_missing) global.s3)
  source ← reading (λ disk. load_under disk args.source)
  only_if (not source.instance.backup_enabled) (fail (anyhow (source_without_backups args.source)))
  reading (check_absent args.as_name)
  engine ← reading (λ _. host.connect)
  clone_with_engine args engine host global s3 source.instance
