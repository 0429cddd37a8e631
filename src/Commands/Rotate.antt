-- ===== src/Commands/Rotate.antt =====
-- commands/rotate.rs: the container of an instance, made anew on its volume.
pub mod Volume
pub mod States
use pg_forge_cli.Base.{Text, codes, List, [], ◌∷◌, ◌++◌, Option, none, some, if◌then◌else◌}
use pg_forge_cli.Base.Int.{is_zero}
use pg_forge_cli.Domain.Instance.{Instance, volume_name, validate_name}
use pg_forge_cli.Error.{Result, ok, err, anyhow, docker, s3_missing_for, ensure_pgreplica_failed}
use pg_forge_cli.Config.{GlobalConfig}
use pg_forge_cli.Pgbackrest.Conf.{S3Settings}
use pg_forge_cli.Postgres.InitSql.{double_quotes}
use pg_forge_cli.State.Store.{secret_mode, Mode, load_under}
use pg_forge_cli.Docker.Engine.{
  ◌>>=◌, ◌>>◌, Engine, ExecOutput, Action, CreateContainerSpec, fail, skip, reading, ask, log,
  running_piped, only_if, stopping, removing_container,
}
use pg_forge_cli.Commands.Host.{Host, container_named}
use pg_forge_cli.Commands.Create.{
  write_postgres, write_backup_files, prepare_engine, postgres_env, regular_binds, instance_spec,
  make_container,
}
use pg_forge_cli.Commands.Create.Bootstrap.{boot}
use pg_forge_cli.Commands.Create.Run.{needed}

-- The container goes, the volume stays.
unfoldable pub remove_old : Engine → Text → Action (Unit {0})
remove_old engine container = do
  running ← ask (λ h. engine.container_running h container)
  only_if running (log (stopping container) (λ h. engine.stop_container h container))
  there ← ask (λ h. engine.container_exists h container)
  only_if there (log (removing_container container) (λ h. engine.remove_container h container))

abbrev pub backup_settings : GlobalConfig → Instance → Result (Option S3Settings)
backup_settings global i =
    if i.backup_enabled
    then some_of (needed (anyhow (s3_missing_for i.name)) global.s3)
    else ok none
  where
    some_of : Result S3Settings → Result (Option S3Settings)
    some_of (ok s3) = ok (some s3)
    some_of (err e) = err e

unfoldable pub rewrite_configs : Mode → GlobalConfig → Instance → Action (Unit {0})
rewrite_configs mode global i = do
  s3 ← reading (λ _. backup_settings global i)
  write_postgres i.name i.preset i.backup_enabled i.db_name i.app_user
  write_backup_files mode i.name i.retain_days i.pgbackrest_password s3

-- The same volume and the same port as before.
abbrev pub recreate_spec : Instance → CreateContainerSpec
recreate_spec i =
    instance_spec i.name i.pg_version (postgres_env i.app_user i.app_password i.db_name)
      (regular_binds i.name i.backup_enabled) (volume_name i) i.host_port i.preset

abbrev psql_argv : List Text
psql_argv = codes "su" ∷ codes "-" ∷ codes "postgres" ∷ codes "-c" ∷ codes "psql" ∷ []

abbrev role_sql : Text → Text
role_sql password =
    codes "DO $$ BEGIN IF NOT EXISTS (SELECT 1 FROM pg_roles WHERE rolname = 'pgreplica') THEN "
    ++ codes "CREATE ROLE pgreplica WITH LOGIN REPLICATION PASSWORD '"
    ++ double_quotes password
    ++ codes "'; END IF; END $$;"

abbrev check_role : ExecOutput → Action (Unit {0})
check_role out =
    if is_zero out.exit_code
    then skip
    else fail (docker (ensure_pgreplica_failed out.exit_code out.stdout out.stderr))

unfoldable pub ensure_role : Engine → Text → Instance → Action (Unit {0})
ensure_role engine id i = do
  out ←
      running_piped id psql_argv (role_sql i.pgbackrest_password)
        (λ h. engine.exec_with_stdin h id psql_argv (role_sql i.pgbackrest_password))
  check_role out

-- From the rewritten files to a container that accepts connections.
unfoldable pub start_anew : Mode → Engine → GlobalConfig → Instance → Action Text
start_anew mode engine global i = do
  rewrite_configs mode global i
  prepare_engine engine i.pg_version
  id ← make_container engine (recreate_spec i)
  boot engine id 60
  reading (λ _. ok id)

-- The rest, with the loaded instance.
unfoldable pub rotate_loaded : Engine → GlobalConfig → Instance → Action (Unit {0})
rotate_loaded engine global i = do
  remove_old engine (container_named i.name)
  id ← start_anew secret_mode engine global i
  only_if i.backup_enabled (ensure_role engine id i)

unfoldable pub rotate_with_engine : Text → Engine → GlobalConfig → Action (Unit {0})
rotate_with_engine name engine global = do
  reading (λ _. validate_name name)
  state ← reading (λ disk. load_under disk name)
  rotate_loaded engine global state.instance

unfoldable pub rotate : Host → Text → Action (Unit {0})
rotate host name = do
  global ← reading (λ _. host.global)
  engine ← reading (λ _. host.connect)
  rotate_with_engine name engine global
