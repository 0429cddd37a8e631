-- ===== src/Tests/Health.antt =====
-- Runs of src/disk/ and src/smart/, and the presets.
use pg_forge_cli.Base.{ℕ, ◌-◌, ◌≤◌, true, Text, codes, List, [], ◌∷◌, none, some, ◌≡◌, arith}
use pg_forge_cli.Base.Int.{pos}
use pg_forge_cli.State.Store.{holds}
use pg_forge_cli.Disk.Health.{MountUsage, compute_pct}
use pg_forge_cli.Disk.Health as DiskHealth
use pg_forge_cli.Disk.Worst.{IsWorst, aggregate-IsWorst}
use pg_forge_cli.Disk.Percent.{IsCeiling, compute_pct-IsCeiling}
use pg_forge_cli.Smart.Types.{DriveSmart, SmartHealth, good, warn, unknown}
use pg_forge_cli.Smart.Types as SmartTypes
use pg_forge_cli.Smart.Worst.{Reports, aggregate-Reports}
use pg_forge_cli.Smart.Cache.{read_cache, Fresh, read_cache-Fresh}
use pg_forge_cli.Smart.Check.{DiscoveredDisk, printed, SmartctlJson, drive_report}
use pg_forge_cli.Smart.Check.Consistent.{IsConsistent, drive_report-IsConsistent}

abbrev hot_disk : SmartctlJson
hot_disk = record {
  protocol = some (codes "ATA");
  name = none;
  model_name = none;
  passed = some true;
  temperature = none;
  table = record { id = 5; raw_value = pos 3 } ∷ record { id = 194; raw_value = pos 70 } ∷ [];
  nvme_log = none;
}

abbrev sda : DiscoveredDisk
sda = record { path = codes "/dev/sda"; transport = codes "sata"; model = codes "M" }

drive_report-IsConsistent_example :
    ((drive_report sda (printed (some hot_disk))).device ≡ sda.path)
    × ((drive_report sda (printed (some hot_disk))).transport ≡ sda.transport)
    × IsConsistent (drive_report sda (printed (some hot_disk)))
drive_report-IsConsistent_example = drive_report-IsConsistent sda (printed (some hot_disk))

abbrev drive : Text → SmartTypes.SmartStatus → DriveSmart
drive device status = record {
  device = device;
  model = [];
  transport = [];
  status = status;
  reasons = [];
  unknown_reason = none;
}

abbrev two_drives : List DriveSmart
two_drives = drive (codes "b") warn ∷ drive (codes "c") unknown ∷ []

aggregate-Reports_example :
    Reports
      (drive (codes "a") good ∷ two_drives)
      (SmartTypes.aggregate (drive (codes "a") good ∷ two_drives) (pos 0))
aggregate-Reports_example = aggregate-Reports (drive (codes "a") good) two_drives (pos 0)

abbrev cached_health : SmartHealth
cached_health = record {
  status = good;
  worst_device = none;
  worst_reasons = [];
  unknown_reason = none;
  drives = [];
  checked_at = pos 1000;
}

read_cache-Fresh_example :
    Fresh
      (holds cached_health)
      (pos 5000)
      48
      (read_cache (holds cached_health) (pos 5000) 48 (pos 5000))
read_cache-Fresh_example = read_cache-Fresh (holds cached_health) (pos 5000) 48 (pos 5000)

abbrev mount : Text → ℕ → MountUsage
mount label pct = record {
  mount_label = label;
  mount_path = [];
  used_pct = pct;
  free_bytes = 100 - pct;
  total_bytes = 100;
}

aggregate-IsWorst_example :
    IsWorst
      (mount (codes "root") 50 ∷ mount (codes "data") 85 ∷ [])
      (DiskHealth.aggregate (mount (codes "root") 50 ∷ mount (codes "data") 85 ∷ []))
aggregate-IsWorst_example =
    aggregate-IsWorst (mount (codes "root") 50) (mount (codes "data") 85 ∷ [])

compute_pct-IsCeiling_example : IsCeiling 200 3 (compute_pct 3 1) × (compute_pct 3 1 ≤ 100)
compute_pct-IsCeiling_example = compute_pct-IsCeiling 3 1 (omega arith) (omega arith)
