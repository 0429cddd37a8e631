-- ===== src/Tests/Fixtures.antt =====
-- An instance on a disk, an engine and a clock, for the runs.
use pg_forge_cli.Base.{true, false, Text, codes, [], ◌∷◌, none, some}
use pg_forge_cli.Base.Int.{pos}
use pg_forge_cli.Error.{ok}
use pg_forge_cli.Domain.Instance.{Instance}
use pg_forge_cli.Domain.Preset.{small}
use pg_forge_cli.Domain.Snapshot.{SnapshotRecord, full}
use pg_forge_cli.State.Store.{Disk, InstanceDir, InstanceState, holds, renamed}
use pg_forge_cli.Docker.Engine.{Engine, World}
use pg_forge_cli.Config.{GlobalConfig}
use pg_forge_cli.Pgbackrest.Conf.{S3Settings}
use pg_forge_cli.Time.{Jiff}
use pg_forge_cli.Commands.Host.{Host}
use pg_forge_cli.Commands.Snapshot.{Clock}

abbrev pub pg : Text
pg = codes "pg"

abbrev pub pg_instance : Instance
pg_instance = record {
  name = pg;
  db_name = pg;
  app_user = codes "app";
  app_password = codes "pw";
  pgbackrest_password = codes "pb";
  preset = small;
  pg_version = 18;
  host_port = 5433;
  backup_enabled = true;
  volume_name_override = none;
  retain_days = 30;
  snapshot_hour = some 3;
  last_snapshot_at = none;
  last_snapshot_attempt_at = none;
  full_backup_day = 0;
}

abbrev pub pg_state : InstanceState
pg_state = record { instance = pg_instance; created_at = codes "2026-05-12T10:00:00Z" }

abbrev pub first_full : SnapshotRecord
first_full = record {
  label = codes "F";
  kind = full;
  user_label = none;
  taken_at = codes "2026-05-12";
}

abbrev pub pg_dir : InstanceDir
pg_dir = record { state = holds pg_state; snapshots = holds (first_full ∷ []); conf = none }

abbrev pub disk : Disk
disk = record {
  dirs = (pg, pg_dir) ∷ [];
  can_lock = true;
  can_write = true;
  can_conf = true;
  can_list = true;
  can_hold = λ path text. true;
  reaches = renamed;
  leaves = λ path text. some [];
  remains = record { keeps_state = false; keeps_snapshots = true; keeps_conf = none };
}

abbrev pub world : World
world = record { disk = disk; steps = [] }

-- Every container runs, and every command ends with 0.
abbrev pub engine : Engine
engine = record {
  container_running = λ h c. ok true;
  container_exists = λ h c. ok true;
  exec = λ h c argv. ok (record { stdout = []; stderr = []; exit_code = pos 0 });
  exec_as = λ h c user argv.
      ok (record { stdout = codes "new backup label = L"; stderr = []; exit_code = pos 0 });
  stop_container = λ h c. ok tt;
  remove_container = λ h c. ok tt;
  remove_volume = λ h v. ok tt;
  build_image = λ h s. ok tt;
  ensure_network = λ h n. ok tt;
  create_container = λ h s. ok (codes "id");
  start_container = λ h c. ok tt;
  exec_with_stdin = λ h c argv stdin. ok (record { stdout = []; stderr = []; exit_code = pos 0 });
  exec_to_file = λ h c argv. record {
    written = some (codes "PGDMP");
    outcome = some (ok (record { exit_code = pos 0; stderr = [] }));
  };
  wait_for_container_running = λ h c s. ok tt;
  wait_for_container_exit = λ h c s. ok (pos 0);
  logs = λ h c. ok [];
  clock = λ h. 0;
  to_string = λ e. [];
}

abbrev pub noon : Clock
noon = record {
  seconds_of_day = 43200;
  weekday = 2;
  now_iso = codes "2026-05-13";
  is_today = λ t. some false;
  seconds_ago = λ t. none;
}

-- As before, and out of recovery.
abbrev pub promoted_engine : Engine
promoted_engine = record engine {
  exec = λ h c argv. ok (record { stdout = codes "f"; stderr = []; exit_code = pos 0 });
}

abbrev pub bucket : S3Settings
bucket = record {
  bucket = codes "b";
  region = codes "r";
  endpoint = codes "e";
  access_key = codes "k";
  secret_key = codes "s";
}

abbrev pub config : GlobalConfig
config = record { s3 = some bucket; port_range_start = 5433; port_range_end = 5500 }

abbrev pub host : Host
host = record {
  global = ok config;
  connect = ok promoted_engine;
  probe = λ p. true;
  now_iso = codes "2026-05-13T10:00:00Z";
}

abbrev pub jiff : Jiff
jiff = record { parse_seconds = λ t. some (pos 0); show_seconds = λ n. none }

-- Writes of state files and removals stop halfway.
abbrev pub stuck_disk : Disk
stuck_disk = record disk { can_write = false }

abbrev pub stuck_world : World
stuck_world = record { disk = stuck_disk; steps = [] }
