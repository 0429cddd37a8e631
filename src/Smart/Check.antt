-- ===== src/Smart/Check.antt =====
-- smart/check.rs. What serde_json decodes is a value of the record it decodes to, or none; lsblk's
-- and smartctl's outputs are arguments.
pub mod Consistent
use pg_forge_cli.Base.{
  ℕ, ◌/◌, ◌%◌, ◌^◌, Bool, true, false, not, ◌&&◌, ◌||◌, Text, text_eq, codes, List, [], ◌∷◌, ◌++◌,
  Option, none, some, ltb, leb, ◌==◌, select, map, if◌then◌else◌,
}
use pg_forge_cli.Base.Lines.{has_part}
use pg_forge_cli.Base.Int.{ℤ, pos, ◌-ℤ◌, ltb_ℤ, is_positive}
use pg_forge_cli.Smart.Types

pub record DiscoveredDisk : Type 0 where
  pub path : Text
  pub transport : Text
  pub model : Text

pub record LsblkDevice : Type 0 where
  pub name : Text
  pub dev_type : Option Text
  pub tran : Option Text
  pub model : Option Text

abbrev pub or_none : Option Text → Text
or_none none = []
or_none (some t) = t

abbrev pub or_unnamed : Option Text → Text
or_unnamed none = codes "?"
or_unnamed (some t) = t

unfoldable pub is_physical : Text → Bool
is_physical t = text_eq t (codes "sata") || text_eq t (codes "sas") || text_eq t (codes "nvme")

abbrev is_disk : Option Text → Bool
is_disk none = false
is_disk (some t) = text_eq t (codes "disk")

abbrev disk_of : LsblkDevice → Option Text → Option DiscoveredDisk
disk_of d none = none
disk_of d (some tran) =
    if is_disk d.dev_type && is_physical tran
    then some (record { path = codes "/dev/" ++ d.name; transport = tran; model = or_none d.model })
    else none

abbrev with_disk : Option DiscoveredDisk → List DiscoveredDisk → List DiscoveredDisk
with_disk none ds = ds
with_disk (some d) ds = d ∷ ds

unfoldable pub physical_disks : List LsblkDevice → List DiscoveredDisk
physical_disks [] = []
physical_disks (d ∷ ds) = with_disk (disk_of d d.tran) (physical_disks ds)

-- One device that serde cannot decode makes the whole text undecodable.
unfoldable pub parse_lsblk_json : Option (List LsblkDevice) → List DiscoveredDisk
parse_lsblk_json none = []
parse_lsblk_json (some ds) = physical_disks ds

unfoldable pub classify_smartctl_failure : Text → Types.SmartUnknownReason
classify_smartctl_failure stderr =
    if has_part (codes "a password is required") stderr
    then Types.no_sudoers
    else if has_part (codes "command not found") stderr
    then Types.not_installed
    else if has_part (codes "No such file or directory") stderr
    then Types.device_missing
    else if has_part (codes "Unknown USB bridge") stderr
        || has_part (codes "does not support SMART") stderr
    then Types.device_not_supported
    else Types.parse_error

pub record AtaAttribute : Type 0 where
  pub id : ℕ
  pub raw_value : ℤ

pub record NvmeSmartLog : Type 0 where
  pub critical_warning : Option ℕ
  pub available_spare : Option ℕ
  pub available_spare_threshold : Option ℕ
  pub percentage_used : Option ℕ
  pub media_errors : Option ℕ
  pub temperature : Option ℤ

pub record SmartctlJson : Type 0 where
  pub protocol : Option Text
  pub name : Option Text
  pub model_name : Option Text
  pub passed : Option Bool
  pub temperature : Option ℤ
  pub table : List AtaAttribute
  pub nvme_log : Option NvmeSmartLog

-- The status and the reasons so far.
abbrev pub Found : Type 0
Found = Types.SmartStatus × List Types.Reason

unfoldable pub bump : Types.SmartStatus → Types.Reason → Found → Found
bump s r (status, reasons) =
    (if ltb (Types.rank status) (Types.rank s) then s else status, reasons ++ r ∷ [])

unfoldable pub bump_if : Bool → Types.SmartStatus → Types.Reason → Found → Found
unfolding bump
bump_if true s r f = bump s r f
bump_if false s r f = f

abbrev pub unknown_drive : Text → Text → Types.SmartUnknownReason → Types.Reason → Types.DriveSmart
unknown_drive device transport reason msg = record {
  device = device;
  model = [];
  transport = transport;
  status = Types.unknown;
  reasons = msg ∷ [];
  unknown_reason = some reason;
}

abbrev has_failed : Option Bool → Bool
has_failed none = false
has_failed (some b) = not b

unfoldable pub overall : SmartctlJson → Found
unfolding bump_if
overall p =
    bump_if (has_failed p.passed) Types.critical Types.overall_health_failed (Types.good, [])

unfoldable pub check_attribute : AtaAttribute → Found → Found
unfolding bump_if
check_attribute a f =
    if a.id == 5
    then bump_if (is_positive a.raw_value) Types.critical (Types.reallocated_sectors a.raw_value) f
    else if a.id == 197
    then bump_if (is_positive a.raw_value) Types.critical (Types.pending_sectors a.raw_value) f
    else if a.id == 198
    then bump_if (is_positive a.raw_value) Types.critical (Types.offline_uncorrectable a.raw_value)
        f
    else bump_if ((a.id == 190 || a.id == 194) && ltb_ℤ (pos 60) a.raw_value) Types.warn
        (Types.temperature a.raw_value) f

unfoldable pub check_table : List AtaAttribute → Found → Found
check_table [] f = f
check_table (a ∷ rest) f = check_table rest (check_attribute a f)

abbrev drive_of : Text → Text → Text → Found → Types.DriveSmart
drive_of device model transport (status, reasons) = record {
  device = device;
  model = model;
  transport = transport;
  status = status;
  reasons = reasons;
  unknown_reason = none;
}

unfoldable pub parse_sata : SmartctlJson → Text → Text → Text → Types.DriveSmart
parse_sata p device model transport =
    drive_of device model transport (check_table p.table (overall p))

-- The names of the set bits, by their numbers.
unfoldable pub decode_nvme_critical_warning : ℕ → List ℕ
decode_nvme_critical_warning bits =
    select (λ bit. bits / 2 ^ bit % 2 == 1) (0 ∷ 1 ∷ 2 ∷ 3 ∷ 4 ∷ 5 ∷ [])

abbrev warning_text : ℕ → List ℕ → Types.Reason
warning_text cw [] = Types.critical_warning_bits cw
warning_text cw (b ∷ bs) = Types.critical_warning (b ∷ bs)

unfoldable pub check_warning : Option ℕ → Found → Found
check_warning none f = f
check_warning (some cw) f =
    bump_if (ltb 0 cw) Types.critical (warning_text cw (decode_nvme_critical_warning cw)) f

unfoldable pub check_media : Option ℕ → Found → Found
check_media none f = f
check_media (some me) f = bump_if (ltb 0 me) Types.critical (Types.media_errors me) f

unfoldable pub check_spare : Option ℕ → Option ℕ → Found → Found
check_spare (some spare) (some thr) f =
    bump_if (ltb spare thr) Types.critical (Types.spare_below_threshold spare thr) f
check_spare _ _ f = f

unfoldable pub check_wear : Option ℕ → Found → Found
check_wear none f = f
check_wear (some pct) f = bump_if (leb 80 pct) Types.warn (Types.percentage_used pct) f

-- The top-level temperature, else the log's in kelvin.
abbrev celsius : Option ℤ → Option ℤ → Option ℤ
celsius (some c) _ = some c
celsius none none = none
celsius none (some k) = some (k -ℤ pos 273)

unfoldable pub check_temperature : Option ℤ → Found → Found
check_temperature none f = f
check_temperature (some c) f = bump_if (ltb_ℤ (pos 70) c) Types.warn (Types.temperature c) f

unfoldable pub check_log : SmartctlJson → NvmeSmartLog → Found → Found
check_log p log f = check_temperature (celsius p.temperature log.temperature) (
    check_wear log.percentage_used (
      check_spare log.available_spare log.available_spare_threshold
        (check_media log.media_errors (check_warning log.critical_warning f))))

abbrev pub nvme_drive : SmartctlJson → Text → Text → Text → Option NvmeSmartLog → Types.DriveSmart
nvme_drive p device model transport none =
    unknown_drive device transport Types.parse_error Types.missing_nvme_log
nvme_drive p device model transport (some log) =
    drive_of device model transport (check_log p log (overall p))

unfoldable pub parse_nvme : SmartctlJson → Text → Text → Text → Types.DriveSmart
parse_nvme p device model transport = nvme_drive p device model transport p.nvme_log

abbrev pub by_protocol : SmartctlJson → Text → Text → Text → Types.DriveSmart
by_protocol p device model protocol =
    if text_eq protocol (codes "ATA") || text_eq protocol (codes "SCSI")
    then parse_sata p device model protocol
    else if text_eq protocol (codes "NVMe")
    then parse_nvme p device model protocol
    else unknown_drive device [] Types.parse_error (Types.unsupported_protocol protocol)

unfoldable pub parse_smartctl_json : Option SmartctlJson → Types.DriveSmart
parse_smartctl_json none = unknown_drive (codes "?") [] Types.parse_error Types.json_parse_failed
parse_smartctl_json (some p) =
    by_protocol p (or_unnamed p.name) (or_none p.model_name) (or_none p.protocol)

abbrev or_known : Text → Text → Text
or_known [] known = known
or_known (c ∷ s) known = c ∷ s

-- `run_smartctl`: decoded output of a disk, or why there is none.
pub data Smartctl : Type 0 where
  printed : Option SmartctlJson → Smartctl
  failed : Types.SmartUnknownReason → Smartctl

unfoldable pub drive_report : DiscoveredDisk → Smartctl → Types.DriveSmart
drive_report disk (printed json) =
    let d = parse_smartctl_json json in
    record d { device = disk.path; model = or_known d.model disk.model; transport = disk.transport }
drive_report disk (failed reason) = record {
  device = disk.path;
  model = disk.model;
  transport = disk.transport;
  status = Types.unknown;
  reasons = Types.because reason ∷ [];
  unknown_reason = some reason;
}

unfoldable pub not_installed_report : DiscoveredDisk → Types.DriveSmart
not_installed_report disk = record {
  device = disk.path;
  model = disk.model;
  transport = disk.transport;
  status = Types.unknown;
  reasons = Types.install_not_run ∷ [];
  unknown_reason = some Types.no_installed_state;
}

-- `installed` is `smartctl` of the installed state, if there is one.
unfoldable pub check_all :
    Option (DiscoveredDisk → Smartctl) → List DiscoveredDisk → ℤ → Types.SmartHealth
check_all installed [] now = Types.unknown_health Types.no_devices_found now
check_all none (d ∷ ds) now = Types.aggregate (map not_installed_report (d ∷ ds)) now
check_all (some smartctl) (d ∷ ds) now =
    Types.aggregate (map (λ disk. drive_report disk (smartctl disk)) (d ∷ ds)) now
