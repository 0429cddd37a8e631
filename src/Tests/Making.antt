-- ===== src/Tests/Making.antt =====
-- Runs of create, clone, restore, rotate and resize, and of the texts that they write.
use pg_forge_cli.Base.{false, ◌≡◌, refl, Text, text_eq, codes, none, some, all}
use pg_forge_cli.Base.Dict.{lookup}
use pg_forge_cli.Domain.Preset.{small, large}
use pg_forge_cli.Domain.Instance.{validate_name, is_valid_name}
use pg_forge_cli.Error.{ok}
use pg_forge_cli.State.Store.{load_under}
use pg_forge_cli.Commands.Made.{Made}
use pg_forge_cli.Commands.Create.{CreateArgs}
use pg_forge_cli.Commands.Create.Run.{create}
use pg_forge_cli.Commands.Create.Outcome.{create-Made}
use pg_forge_cli.Commands.Clone.{CloneArgs, clone}
use pg_forge_cli.Commands.Clone.Outcome.{clone-Made}
use pg_forge_cli.Commands.Restore.{
  RestoreArgs, restore, restore_with_engine, build_restore, write_restore_files, bootstrap_restore,
  restored_instance_state,
}
use pg_forge_cli.Commands.Host.{allocate_host_port, taken_ports, ports_of}
use pg_forge_cli.Commands.Create.{write_postgres, prepare_engine}
use pg_forge_cli.Commands.Create.Bootstrap.{boot}
use pg_forge_cli.Commands.Create.Run.{clean_after, save_made}
use pg_forge_cli.State.Conf.{
  create_secret_dir, write_plain, write_into, write_with, set_permissions, set_mode,
}
use pg_forge_cli.State.Store.{
  InstanceState, list_under, exists_under, save_under, save_under_locked,
}
use pg_forge_cli.Ports.{allocate_port, scan}
use pg_forge_cli.Docker.Wait.{judge}
use pg_forge_cli.Docker.Wait.Polling.{
  wait_for_pg_ready, ready_turns, wait_for_recovery_end, recovery_turns, has_left_recovery,
}
use pg_forge_cli.Base.{any}
use pg_forge_cli.Base.Dict.{insert, keys}
use pg_forge_cli.Commands.Restore.Inert.{restore-inert}
use pg_forge_cli.Base.Lines.{trim, trim_start}
use pg_forge_cli.Error.{anyhow, err, io, no_backup_instance}
use pg_forge_cli.Commands.Snapshot.{run, attempt}
use pg_forge_cli.Commands.Restore.Outcome.{restore-Made}
use pg_forge_cli.Commands.Rotate.{rotate}
use pg_forge_cli.Commands.Rotate.States.{rotate-IsKeeping}
use pg_forge_cli.Commands.Rotate.Volume.{KeepsData, rotate-KeepsData}
use pg_forge_cli.Commands.Kept.{Same}
use pg_forge_cli.Commands.Upgrade.{upgrade}
use pg_forge_cli.Commands.Upgrade.OldVolume.{Spared, upgrade-Spared}
use pg_forge_cli.Domain.Instance.{volume_name}
use pg_forge_cli.Commands.Resize.{resize}
use pg_forge_cli.Commands.Resize.Rollback.{Resized, resize-Resized}
use pg_forge_cli.Postgres.InitSql.{generate_init_sql}
use pg_forge_cli.Postgres.InitSql.Quoting.{read_passwords, read_passwords-generate_init_sql}
use pg_forge_cli.Pgbackrest.Pgpass.{generate_pgpass}
use pg_forge_cli.Pgbackrest.Pgpass.Escaping.{read_line, read_line-generate_pgpass}
use pg_forge_cli.Tests.Fixtures.{
  engine, noon, stuck_world, pg, pg_instance, pg_state, disk, world, host, jiff,
}

pg-loads : load_under disk pg ≡ ok pg_state
unfolding load_under validate_name is_valid_name all lookup text_eq
pg-loads = refl

abbrev billing : Text
billing = codes "billing"

abbrev create_billing : CreateArgs
create_billing = record {
  name = billing;
  preset = small;
  pg_version = 18;
  app_user = codes "app";
  app_password = codes "pw";
  pgbackrest_password = codes "pb";
  no_backup = false;
  retain_days = 30;
  snapshot_hour = some 3;
}

create-Made_example : Made billing disk (create host create_billing world)
create-Made_example = create-Made host create_billing world

abbrev clone_pg : CloneArgs
clone_pg = record { source = pg; as_name = billing }

clone-Made_example : Made billing disk (clone host clone_pg world)
clone-Made_example = clone-Made host clone_pg world

abbrev restore_pg : RestoreArgs
restore_pg = record { source = pg; as_name = billing; target_time = none }

restore-Made_example : Made billing disk (restore jiff host restore_pg world)
restore-Made_example = restore-Made jiff host restore_pg world

abbrev restored : InstanceState
restored = record {
  instance = record pg_instance {
    name = billing;
    host_port = 5434;
    backup_enabled = false;
    snapshot_hour = none;
  };
  created_at = codes "2026-05-13T10:00:00Z";
}

restores : (restore jiff host restore_pg world).0 ≡ ok restored
unfolding restore restore_with_engine build_restore write_restore_files write_postgres
    create_secret_dir write_plain write_into write_with set_permissions set_mode prepare_engine
    clean_after bootstrap_restore boot wait_for_pg_ready ready_turns judge wait_for_recovery_end
    recovery_turns has_left_recovery save_made save_under_locked save_under restored_instance_state
    allocate_host_port taken_ports list_under ports_of allocate_port scan load_under exists_under
    validate_name is_valid_name all any lookup insert keys text_eq trim trim_start
restores = refl

-- The state is saved last, and saving it fails after the rename.
restores_late :
    ((restore jiff host restore_pg stuck_world).0 ≡ err io)
    × (load_under (restore jiff host restore_pg stuck_world).1.disk billing ≡ ok restored)
unfolding restore restore_with_engine build_restore write_restore_files write_postgres
    create_secret_dir write_plain write_into write_with set_permissions set_mode prepare_engine
    clean_after bootstrap_restore boot wait_for_pg_ready ready_turns judge wait_for_recovery_end
    recovery_turns has_left_recovery save_made save_under_locked save_under restored_instance_state
    allocate_host_port taken_ports list_under ports_of allocate_port scan load_under exists_under
    validate_name is_valid_name all any lookup insert keys text_eq trim trim_start
restores_late = (refl, refl)

restore-inert_example :
    (attempt engine noon billing (restore jiff host restore_pg world).1
      ≡ (0, (restore jiff host restore_pg world).1))
    × (run engine noon
          (record { instance = billing; user_label = none })
          (restore jiff host restore_pg world).1
        ≡ (err (anyhow (no_backup_instance billing)), (restore jiff host restore_pg world).1))
restore-inert_example = restore-inert jiff host restore_pg world restored restores engine noon none

rotate-IsKeeping_example : Same world (rotate host pg world).1
rotate-IsKeeping_example = rotate-IsKeeping host pg world

rotate-KeepsData_example : KeepsData pg_instance (rotate host pg world).1
rotate-KeepsData_example = rotate-KeepsData pg world pg_state pg-loads (unfold all in refl) host

resize-Resized_example : Resized pg pg_state large (resize host pg large world)
resize-Resized_example =
    resize-Resized host pg pg_state large world
      (record { loads = pg-loads; named = refl; lock = refl; write = refl })

read_passwords-generate_init_sql_example :
    read_passwords (generate_init_sql (codes "it's"))
    ≡ some (codes "it's", (codes "it's", codes ";\n"))
read_passwords-generate_init_sql_example = read_passwords-generate_init_sql (codes "it's")

read_line-generate_pgpass_example :
    read_line (generate_pgpass (codes "a:b")) ≡ (codes "pgreplica", codes "a:b")
read_line-generate_pgpass_example =
    read_line-generate_pgpass (codes "a:b") ((refl, refl), ((refl, refl), ((refl, refl), tt)))

upgrade-Spared_example : Spared (volume_name pg_instance) (upgrade host noon pg 19 world).1
unfolding text_eq volume_name
upgrade-Spared_example =
    upgrade-Spared noon pg 19 world pg_state pg-loads refl (unfold all in refl) host
