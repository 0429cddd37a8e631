-- ===== src/Commands/Destroy.antt =====
-- commands/destroy.rs, `run_with_engine`.
pub mod Order
pub mod Left
pub mod Volume
use pg_forge_cli.Base.{
  Bool, true, false, ◌&&◌, Text, codes, List, [], ◌∷◌, ◌++◌, Option, none, some, if◌then◌else◌,
}
use pg_forge_cli.Base.Int.{is_zero}
use pg_forge_cli.Base.Dict.{lookup}
use pg_forge_cli.Domain.Instance.{Instance, volume_name, validate_name}
use pg_forge_cli.Error.{ok, err, io, anyhow, stanza_needs_container, stanza_delete_failed}
use pg_forge_cli.State.Store.{Disk, DiskStep, InstanceDir, load_under, remove_dir, partly_removed}
use pg_forge_cli.Docker.Engine.{
  ◌>>=◌, ◌>>◌, ExecOutput, stopping, removing_container, removing_volume, Engine, Action, fail,
  skip, reading, writing, ask, log, running_exec, only_if,
}

pub record DestroyArgs : Type 0 where
  pub name : Text
  pub delete_backups : Bool

abbrev pub container_name : Instance → Text
container_name i = codes "pgforge_" ++ i.name

abbrev pub stanza_delete : List Text
stanza_delete =
    codes "su"
    ∷ codes "-"
    ∷ codes "postgres"
    ∷ codes "-c"
    ∷ codes "pgbackrest --stanza=main stop && pgbackrest --stanza=main --force stanza-delete"
    ∷ []

abbrev check_exit : ExecOutput → Action (Unit {0})
check_exit out =
    if is_zero out.exit_code then skip else fail (anyhow (stanza_delete_failed out.exit_code))

abbrev wipe_running : Engine → Instance → Bool → Action (Unit {0})
wipe_running docker i true = do
  out ←
      running_exec (container_name i) stanza_delete
        (λ h. docker.exec h (container_name i) stanza_delete)
  check_exit out
wipe_running docker i false = fail (anyhow (stanza_needs_container i.name))

-- The backups are deleted by the running container.
unfoldable pub wipe : Engine → Instance → Action (Unit {0})
wipe docker i = do
  running ← ask (λ h. docker.container_running h (container_name i))
  wipe_running docker i running

unfoldable pub remove_parts : Engine → Instance → Action (Unit {0})
remove_parts docker i = do
  running ← ask (λ h. docker.container_running h (container_name i))
  only_if running
      (log (stopping (container_name i)) (λ h. docker.stop_container h (container_name i)))
  there ← ask (λ h. docker.container_exists h (container_name i))
  only_if there (
      log (removing_container (container_name i))
        (λ h. docker.remove_container h (container_name i)))
  log (removing_volume (volume_name i)) (λ h. docker.remove_volume h (volume_name i))

abbrev pub remove_under : Disk → Text → Option InstanceDir → DiskStep (Unit {0})
remove_under disk name none = (ok tt, disk)
remove_under disk name (some d) =
    if disk.can_lock
    then (if disk.can_write
        then (ok tt, remove_dir disk name)
        else (err io, partly_removed disk name d))
    else (err io, disk)

-- The directory, under the lock, if it is there.
unfoldable pub remove_state : Text → Disk → DiskStep (Unit {0})
remove_state name disk = remove_under disk name (lookup name disk.dirs)

-- The rest, with the loaded instance.
unfoldable pub destroy_loaded : Engine → DestroyArgs → Instance → Action (Unit {0})
destroy_loaded docker args i = do
  only_if (args.delete_backups && i.backup_enabled) (wipe docker i)
  remove_parts docker i
  writing (remove_state args.name)

unfoldable pub destroy : Engine → DestroyArgs → Action (Unit {0})
destroy docker args = do
  reading (λ _. validate_name args.name)
  state ← reading (λ disk. load_under disk args.name)
  destroy_loaded docker args state.instance
