-- ===== src/Docker/Cleanup.antt =====
-- docker/cleanup.rs, `cleanup_partial`: what fails is only logged.
use pg_forge_cli.Base.{Text, Option, none, some}
use pg_forge_cli.Base.Dict.{Dict}
use pg_forge_cli.State.Store.{ConfFile, Disk, dir_of, DiskStep}
use pg_forge_cli.State.Conf.{remove_conf}
use pg_forge_cli.Error.{ok}
use pg_forge_cli.Docker.Engine.{
  ◌>>◌, Engine, Action, writing, log, ignore, removing_container, removing_volume,
}

-- `conf_dir.exists()` guards the removal.
abbrev pub remove_if_there : Text → Option (Dict ConfFile) → Disk → DiskStep (Unit {0})
remove_if_there name none disk = (ok tt, disk)
remove_if_there name (some files) disk = remove_conf name disk

unfoldable pub cleanup_partial : Engine → Text → Text → Text → Action (Unit {0})
cleanup_partial engine container volume name = do
  ignore (log (removing_container container) (λ h. engine.remove_container h container))
  ignore (log (removing_volume volume) (λ h. engine.remove_volume h volume))
  ignore (writing (λ disk. remove_if_there name (dir_of disk name).conf disk))
