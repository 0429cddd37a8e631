-- ===== src/Commands/Create/Run.antt =====
-- commands/create.rs, `run_with_engine` and `run`.
use pg_forge_cli.Base.{
  ℕ, Bool, true, false, not, ◌&&◌, Text, [], ◌∷◌, Option, none, some, if◌then◌else◌,
}
use pg_forge_cli.Domain.Instance.{validate_name}
use pg_forge_cli.Error.{
  PgForgeError, Result, ok, err, anyhow, password_required, s3_missing, instance_exists,
}
use pg_forge_cli.Config.{GlobalConfig}
use pg_forge_cli.Pgbackrest.Conf.{S3Settings}
use pg_forge_cli.State.Store.{bind_mount_mode, Disk, InstanceState, exists_under, save_under_locked}
use pg_forge_cli.Docker.Engine.{
  ◌>>=◌, ◌>>◌, Engine, Action, CreateContainerSpec, done, fail, reading, writing, ask, only_if,
  rescue,
}
use pg_forge_cli.Docker.Cleanup.{cleanup_partial}
use pg_forge_cli.Commands.Host.{Host, container_named, volume_named, allocate_host_port}
use pg_forge_cli.Commands.Create.{
  CreateArgs, write_postgres, write_backup_files, prepare_engine, postgres_env, regular_binds,
  instance_spec, make_container,
}
use pg_forge_cli.Commands.Create.Bootstrap.{bootstrap_create}

abbrev is_empty : Text → Bool
is_empty [] = true
is_empty (c ∷ s) = false

abbrev pub check_absent : Text → Disk → Result (Unit {0})
check_absent name disk = if exists_under disk name then err (instance_exists name) else ok tt

-- The guards before anything is written.
unfoldable pub check_new : Engine → CreateArgs → Action (Unit {0})
check_new engine args = do
  reading (λ _. validate_name args.name)
  only_if (not args.no_backup && is_empty args.pgbackrest_password)
      (fail (anyhow password_required))
  reading (check_absent args.name)
  there ← ask (λ h. engine.container_exists h (container_named args.name))
  only_if there (fail (instance_exists args.name))

-- The other files are written whenever the settings are there.
unfoldable pub write_configs : CreateArgs → Option S3Settings → Action (Unit {0})
write_configs args s3 = do
  write_postgres args.name args.preset (not args.no_backup) args.name args.app_user
  write_backup_files bind_mount_mode args.name args.retain_days args.pgbackrest_password s3

abbrev pub create_spec : CreateArgs → ℕ → CreateContainerSpec
create_spec args port =
    instance_spec args.name args.pg_version (postgres_env args.app_user args.app_password args.name)
      (regular_binds args.name (not args.no_backup)) (volume_named args.name) port args.preset

-- A failure takes the half-made instance away.
unfoldable pub clean_after {ℓ} : {A : Type ℓ} → Engine → Text → Action A → Action A
clean_after engine name m =
    rescue m (λ e. cleanup_partial engine (container_named name) (volume_named name) name >> fail e)

-- The state is saved outside of the cleanup.
unfoldable pub save_made : InstanceState → Action InstanceState
save_made state = do writing (λ disk. save_under_locked disk state); done state

unfoldable pub build_created :
    Engine → CreateArgs → Option S3Settings → Text → ℕ → Action InstanceState
build_created engine args s3 now port = do
  write_configs args s3
  prepare_engine engine args.pg_version
  id ← make_container engine (create_spec args port)
  clean_after engine args.name (bootstrap_create engine id args port now)

unfoldable pub create_with_engine :
    CreateArgs → Engine → Host → GlobalConfig → Option S3Settings → Action InstanceState
create_with_engine args engine host global s3 = do
  check_new engine args
  port ← reading (allocate_host_port global host.probe)
  state ← build_created engine args s3 host.now_iso port
  save_made state

-- `ok_or_else`
abbrev pub needed {ℓ} : {A : Type ℓ} → PgForgeError → Option A → Result A
needed e none = err e
needed e (some a) = ok a

abbrev pub some_needed : Bool → Option S3Settings → Result (Option S3Settings)
some_needed true s3 = ok s3
some_needed false none = err (anyhow s3_missing)
some_needed false (some s3) = ok (some s3)

unfoldable pub create : Host → CreateArgs → Action InstanceState
create host args = do
  global ← reading (λ _. host.global)
  s3 ← reading (λ _. some_needed args.no_backup global.s3)
  engine ← reading (λ _. host.connect)
  create_with_engine args engine host global s3
