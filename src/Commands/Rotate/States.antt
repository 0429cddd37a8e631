-- ===== src/Commands/Rotate/States.antt =====
-- A rotation changes no state.
use pg_forge_cli.Base.{◌≡◌, Text, arith}
use pg_forge_cli.Domain.Instance.{Instance, validate_name}
use pg_forge_cli.Config.{GlobalConfig}
use pg_forge_cli.State.Store.{Mode, secret_mode, load_under}
use pg_forge_cli.Docker.Engine.{Engine, World, reading}
use pg_forge_cli.Commands.Host.{Host, container_named}
use pg_forge_cli.Commands.Create.{write_postgres, prepare_engine, make_container}
use pg_forge_cli.Commands.Create.Bootstrap.{boot}
use pg_forge_cli.Commands.Rotate.{
  remove_old, backup_settings, rewrite_configs, recreate_spec, ensure_role, start_anew,
  rotate_loaded, rotate_with_engine, rotate,
}
use pg_forge_cli.Commands.Kept.{IsKeeping, same, bind-IsKeeping, only_if-IsKeeping}
use pg_forge_cli.Commands.Kept.Parts.{
  write_postgres-IsKeeping, write_backup_files-IsKeeping, prepare_engine-IsKeeping, boot-IsKeeping,
  quiet-IsKeeping,
}

remove_old-disk :
    (engine : Engine) (container : Text) (w : World)
    → (remove_old engine container w).1.disk ≡ w.disk
unfolding remove_old
remove_old-disk engine container w = ground arith

pub remove_old-IsKeeping :
    (engine : Engine) (container : Text) → IsKeeping (remove_old engine container)
remove_old-IsKeeping engine container =
    quiet-IsKeeping (remove_old engine container) (remove_old-disk engine container)

ensure_role-disk :
    (engine : Engine) (id : Text) (i : Instance) (w : World)
    → (ensure_role engine id i w).1.disk ≡ w.disk
unfolding ensure_role
ensure_role-disk engine id i w = ground arith

rewrite_configs-IsKeeping :
    (mode : Mode) (global : GlobalConfig) (i : Instance) → IsKeeping (rewrite_configs mode global i)
unfolding rewrite_configs
rewrite_configs-IsKeeping mode global i =
    bind-IsKeeping (reading (λ _. backup_settings global i)) _ same (λ s3.
      bind-IsKeeping (write_postgres i.name i.preset i.backup_enabled i.db_name i.app_user) _
        (write_postgres-IsKeeping i.name i.preset i.backup_enabled i.db_name i.app_user)
        (λ _. write_backup_files-IsKeeping mode i.name i.retain_days i.pgbackrest_password s3))

pub start_anew-IsKeeping :
    (mode : Mode) (engine : Engine) (global : GlobalConfig) (i : Instance)
    → IsKeeping (start_anew mode engine global i)
unfolding start_anew
start_anew-IsKeeping mode engine global i =
    bind-IsKeeping (rewrite_configs mode global i) _ (rewrite_configs-IsKeeping mode global i) (λ _.
      bind-IsKeeping (prepare_engine engine i.pg_version) _
        (prepare_engine-IsKeeping engine i.pg_version)
        (λ _.
          bind-IsKeeping (make_container engine (recreate_spec i)) _ same
            (λ id. bind-IsKeeping (boot engine id 60) _ (boot-IsKeeping engine id 60) (λ _. same))))

rotate_loaded-IsKeeping :
    (engine : Engine) (global : GlobalConfig) (i : Instance)
    → IsKeeping (rotate_loaded engine global i)
unfolding rotate_loaded
rotate_loaded-IsKeeping engine global i =
    bind-IsKeeping (remove_old engine (container_named i.name)) _
      (remove_old-IsKeeping engine (container_named i.name))
      (λ _.
        bind-IsKeeping (start_anew secret_mode engine global i) _
          (start_anew-IsKeeping secret_mode engine global i)
          (λ id.
            only_if-IsKeeping i.backup_enabled (ensure_role engine id i)
              (quiet-IsKeeping (ensure_role engine id i) (ensure_role-disk engine id i))))

-- A rotation leaves every instance's state and snapshots as they were.
pub rotate-IsKeeping : (host : Host) (name : Text) → IsKeeping (rotate host name)
unfolding rotate rotate_with_engine
rotate-IsKeeping host name = bind-IsKeeping (reading (λ _. host.global)) _ same (λ global.
    bind-IsKeeping (reading (λ _. host.connect)) _ same (λ engine.
      bind-IsKeeping (reading (λ _. validate_name name)) _ same (λ _.
        bind-IsKeeping (reading (λ disk. load_under disk name)) _ same
          (λ state. rotate_loaded-IsKeeping engine global state.instance))))
