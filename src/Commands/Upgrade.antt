-- ===== src/Commands/Upgrade.antt =====
-- commands/upgrade.rs: a new major version of PostgreSQL on a new volume.
pub mod OldVolume
use pg_forge_cli.Base.{ℕ, Text, codes, [], ◌∷◌, ◌++◌, none, some, leb, if◌then◌else◌}
use pg_forge_cli.Base.Decimal.{show_u8}
use pg_forge_cli.Base.Int.{ℤ, is_zero}
use pg_forge_cli.Domain.Preset.{tuning}
use pg_forge_cli.Domain.Instance.{Instance, volume_name, validate_name}
use pg_forge_cli.Error.{Result, ok, err, anyhow, docker, not_an_upgrade, upgrade_failed}
use pg_forge_cli.Config.{GlobalConfig}
use pg_forge_cli.Pgbackrest.{redact_pgbackrest_output}
use pg_forge_cli.State.Store.{bind_mount_mode, script_mode, InstanceState, load_under, update_under}
use pg_forge_cli.State.Conf.{write_plain, set_permissions}
use pg_forge_cli.Docker.Image.{upgrade_dockerfile}
use pg_forge_cli.Docker.Entrypoints.{generate_upgrade_entrypoint}
use pg_forge_cli.Docker.Engine.{
  ◌>>=◌, ◌>>◌, Engine, Action, CreateContainerSpec, BuildImageSpec, no_restart, fail, skip, reading,
  writing, ask, log, only_if, ignore, building, starting, awaiting_exit, removing_container,
  removing_volume,
}
use pg_forge_cli.Commands.Snapshot.{Clock, run_with_engine}
use pg_forge_cli.Commands.Host.{Host, container_named, volume_named}
use pg_forge_cli.Commands.Create.{conf_root, read_only_bind, network_name, make_container}
use pg_forge_cli.Commands.Rotate.{remove_old, start_anew}

abbrev pub new_volume : Instance → ℕ → Text
new_volume i to = volume_named i.name ++ codes "_v" ++ show_u8 to

abbrev pub upgrade_container : Instance → ℕ → Text
upgrade_container i to = codes "pgforge_upgrade_" ++ i.name ++ codes "_v" ++ show_u8 to

abbrev versions : Instance → ℕ → Text
versions i to = show_u8 i.pg_version ++ codes "-to-" ++ show_u8 to

-- Of an instance with backups
unfoldable pub pre_snapshot : Engine → Clock → Instance → ℕ → Action (Unit {0})
pre_snapshot engine clock i to = do
  _ ←
      run_with_engine engine clock
        (record { instance = i.name; user_label = some (codes "pre-upgrade-" ++ versions i to) })
  skip

abbrev pub upgrade_image : Instance → ℕ → BuildImageSpec
upgrade_image i to = record {
  tag = codes "pgforge/upgrade:" ++ versions i to;
  dockerfile = upgrade_dockerfile i.pg_version to;
}

abbrev upgrade_script : Instance → ℕ → Text
upgrade_script i to = conf_root i.name ++ codes "/upgrade-" ++ versions i to ++ codes ".sh"

unfoldable pub write_script : Instance → ℕ → Action (Unit {0})
write_script i to = do
  writing (write_plain i.name (upgrade_script i to) (generate_upgrade_entrypoint i.pg_version to))
  writing (set_permissions script_mode i.name (upgrade_script i to))

abbrev pub upgrade_spec : Instance → ℕ → CreateContainerSpec
upgrade_spec i to = record {
  container_name = upgrade_container i to;
  image = (upgrade_image i to).tag;
  env = [];
  binds = read_only_bind (upgrade_script i to) (codes "/usr/local/bin/pgforge-upgrade.sh") ∷ [];
  volumes =
      record { volume_name = volume_name i; container_path = codes "/old" }
      ∷ record { volume_name = new_volume i to; container_path = codes "/new" }
      ∷ [];
  host_port = 0;
  container_port = 5432;
  memory_mb = (tuning i.preset).ram_mb;
  network = network_name;
  shm_size_mb = 256;
  entrypoint_override = some (codes "/usr/local/bin/pgforge-upgrade.sh" ∷ []);
  cmd_override = none;
  restart_policy = no_restart;
}

-- The one-shot container, up to its exit code.
unfoldable pub run_pg_upgrade : Engine → Instance → ℕ → Action ℤ
run_pg_upgrade engine i to = do
  write_script i to
  id ← make_container engine (upgrade_spec i to)
  log (starting id) (λ h. engine.start_container h id)
  log (awaiting_exit id) (λ h. engine.wait_for_container_exit h id 3600)

abbrev or_no_logs : Result Text → Result Text
or_no_logs (ok t) = ok t
or_no_logs (err e) = ok []

abbrev pub remove_one_shot : Engine → Instance → ℕ → Action (Unit {0})
remove_one_shot engine i to = ignore (
    log (removing_container (upgrade_container i to))
      (λ h. engine.remove_container h (upgrade_container i to)))

unfoldable pub give_up : Engine → Instance → ℕ → ℤ → Action (Unit {0})
give_up engine i to code = do
  logs ← ask (λ h. or_no_logs (engine.logs h (upgrade_container i to)))
  remove_one_shot engine i to
  ignore (log (removing_volume (new_volume i to)) (λ h. engine.remove_volume h (new_volume i to)))
  fail (docker (upgrade_failed code (volume_name i) i.name (redact_pgbackrest_output logs)))

abbrev pub upgraded : Instance → ℕ → InstanceState → Result InstanceState
upgraded i to s = ok (record s {
  instance = record s.instance { pg_version = to; volume_name_override = some (new_volume i to) };
})

unfoldable pub switch_over : Engine → GlobalConfig → Text → Instance → ℕ → Action (Unit {0})
switch_over engine global name i to = do
  remove_one_shot engine i to
  s ← writing (λ disk. update_under disk name (upgraded i to))
  _ ← start_anew bind_mount_mode engine global s.instance
  skip

abbrev pub by_exit_code : Engine → GlobalConfig → Text → Instance → ℕ → ℤ → Action (Unit {0})
by_exit_code engine global name i to code =
    if is_zero code then switch_over engine global name i to else give_up engine i to code

-- From the image on, which is built before anything is stopped.
unfoldable pub upgrade_built : Engine → GlobalConfig → Text → Instance → ℕ → Action (Unit {0})
upgrade_built engine global name i to = do
  remove_old engine (container_named i.name)
  code ← run_pg_upgrade engine i to
  by_exit_code engine global name i to code

unfoldable pub upgrade_loaded :
    Engine → Clock → GlobalConfig → Text → Instance → ℕ → Action (Unit {0})
upgrade_loaded engine clock global name i to = do
  only_if (leb to i.pg_version) (fail (anyhow (not_an_upgrade to i.pg_version)))
  only_if i.backup_enabled (pre_snapshot engine clock i to)
  log (building (upgrade_image i to)) (λ h. engine.build_image h (upgrade_image i to))
  upgrade_built engine global name i to

unfoldable pub upgrade_with_engine : Engine → Clock → GlobalConfig → Text → ℕ → Action (Unit {0})
upgrade_with_engine engine clock global name to = do
  reading (λ _. validate_name name)
  state ← reading (λ disk. load_under disk name)
  upgrade_loaded engine clock global name state.instance to

unfoldable pub upgrade : Host → Clock → Text → ℕ → Action (Unit {0})
upgrade host clock name to = do
  global ← reading (λ _. host.global)
  engine ← reading (λ _. host.connect)
  upgrade_with_engine engine clock global name to
