-- ===== src/Smart/Check/Consistent.antt =====
-- A drive's report is consistent with its reasons.
use pg_forge_cli.Base.{
  ℕ, ◌==◌, ◌≡◌, refl, Bool, true, false, Text, text_eq, codes, ◌||◌, List, [], ◌∷◌, Option, none,
  some, arith, if◌then◌else◌,
}
use pg_forge_cli.Base.Int.{ℤ, is_positive}
use pg_forge_cli.Smart.Types.{
  SmartStatus, good, warn, critical, unknown, rank, Reason, DriveSmart, parse_error,
  unsupported_protocol, SmartUnknownReason, overall_health_failed, reallocated_sectors,
  pending_sectors, offline_uncorrectable, temperature, media_errors, spare_below_threshold,
  percentage_used,
}
use pg_forge_cli.Smart.Check.{
  Found, AtaAttribute, SmartctlJson, NvmeSmartLog, DiscoveredDisk, Smartctl, printed, failed, bump,
  bump_if, overall, check_attribute, check_table, check_warning, check_media, check_spare,
  check_wear, check_temperature, check_log, by_protocol, or_unnamed, or_none, unknown_drive,
  nvme_drive, parse_sata, parse_nvme, parse_smartctl_json, drive_report,
}

-- Good without reasons, or worse than good with some.
unfoldable pub agrees : SmartStatus → List Reason → Bool
agrees good [] = true
agrees warn (r ∷ rs) = true
agrees critical (r ∷ rs) = true
agrees _ _ = false

-- Raised by a warning or by a failure.
abbrev is_alarm : SmartStatus → Bool
is_alarm warn = true
is_alarm critical = true
is_alarm _ = false

bump-agrees :
    (s : SmartStatus) (r : Reason) (t : SmartStatus) (rs : List Reason)
    → is_alarm s ≡ true
    → agrees t rs ≡ true
    → agrees (bump s r (t, rs)).0 (bump s r (t, rs)).1 ≡ true
unfolding agrees bump rank
bump-agrees warn r good [] a h = refl
bump-agrees warn r warn (x ∷ rs) a h = refl
bump-agrees warn r critical (x ∷ rs) a h = refl
bump-agrees critical r good [] a h = refl
bump-agrees critical r warn (x ∷ rs) a h = refl
bump-agrees critical r critical (x ∷ rs) a h = refl
bump-agrees s r t rs a h = ground (arith, a, h)

abbrev Agrees : Found → Type 0
Agrees f = agrees f.0 f.1 ≡ true

bump_if-Agrees :
    (b : Bool) (s : SmartStatus) (r : Reason) (f : Found)
    → is_alarm s ≡ true
    → Agrees f
    → Agrees (bump_if b s r f)
unfolding bump_if
bump_if-Agrees true s r f a h = bump-agrees s r f.0 f.1 a h
bump_if-Agrees false s r f a h = h

if-Agrees : (b : Bool) (f g : Found) → Agrees f → Agrees g → Agrees (if b then f else g)
if-Agrees true f g h k = h
if-Agrees false f g h k = k

check_attribute-Agrees : (a : AtaAttribute) (f : Found) → Agrees f → Agrees (check_attribute a f)
unfolding check_attribute
check_attribute-Agrees a f h =
    if-Agrees (a.id == 5) _ _
      (bump_if-Agrees (is_positive a.raw_value) critical (reallocated_sectors a.raw_value) f refl h)
      (if-Agrees (a.id == 197) _ _
        (bump_if-Agrees (is_positive a.raw_value) critical (pending_sectors a.raw_value) f refl h)
        (if-Agrees (a.id == 198) _ _
          (bump_if-Agrees (is_positive a.raw_value) critical (offline_uncorrectable a.raw_value) f
            refl h)
          (bump_if-Agrees _ warn (temperature a.raw_value) f refl h)))

check_table-Agrees :
    (table : List AtaAttribute) (f : Found) → Agrees f → Agrees (check_table table f)
unfolding check_table
check_table-Agrees [] f h = h
check_table-Agrees (a ∷ rest) f h =
    check_table-Agrees rest (check_attribute a f) (check_attribute-Agrees a f h)

overall-Agrees : (p : SmartctlJson) → Agrees (overall p)
unfolding overall agrees
overall-Agrees p = bump_if-Agrees _ critical overall_health_failed (good, []) refl refl

check_warning-Agrees : (o : Option ℕ) (f : Found) → Agrees f → Agrees (check_warning o f)
unfolding check_warning
check_warning-Agrees none f h = h
check_warning-Agrees (some n) f h = bump_if-Agrees _ critical _ f refl h

check_media-Agrees : (o : Option ℕ) (f : Found) → Agrees f → Agrees (check_media o f)
unfolding check_media
check_media-Agrees none f h = h
check_media-Agrees (some n) f h = bump_if-Agrees _ critical (media_errors n) f refl h

check_spare-Agrees : (o t : Option ℕ) (f : Found) → Agrees f → Agrees (check_spare o t f)
unfolding check_spare
check_spare-Agrees (some n) (some t) f h =
    bump_if-Agrees _ critical (spare_below_threshold n t) f refl h
check_spare-Agrees none t f h = h
check_spare-Agrees (some n) none f h = h

check_wear-Agrees : (o : Option ℕ) (f : Found) → Agrees f → Agrees (check_wear o f)
unfolding check_wear
check_wear-Agrees none f h = h
check_wear-Agrees (some n) f h = bump_if-Agrees _ warn (percentage_used n) f refl h

check_temperature-Agrees : (o : Option ℤ) (f : Found) → Agrees f → Agrees (check_temperature o f)
unfolding check_temperature
check_temperature-Agrees none f h = h
check_temperature-Agrees (some c) f h = bump_if-Agrees _ warn (temperature c) f refl h

check_log-Agrees :
    (p : SmartctlJson) (log : NvmeSmartLog) (f : Found) → Agrees f → Agrees (check_log p log f)
unfolding check_log
check_log-Agrees p log f h = check_temperature-Agrees _ _ (
    check_wear-Agrees log.percentage_used _ (
      check_spare-Agrees log.available_spare log.available_spare_threshold _
        (check_media-Agrees log.media_errors _ (check_warning-Agrees log.critical_warning f h))))

-- What a drive's report says of itself: unknown exactly with a reason for that, else good exactly
-- without reasons.
pub data IsConsistent (d : DriveSmart) : Type 0 where
  not_known :
      (r : SmartUnknownReason) → d.status ≡ unknown → d.unknown_reason ≡ some r → IsConsistent d
  known : d.unknown_reason ≡ none → agrees d.status d.reasons ≡ true → IsConsistent d

parse_sata-IsConsistent :
    (p : SmartctlJson) (device model transport : Text)
    → IsConsistent (parse_sata p device model transport)
unfolding parse_sata
parse_sata-IsConsistent p device model transport =
    known refl (check_table-Agrees p.table (overall p) (overall-Agrees p))

parse_nvme-IsConsistent :
    (p : SmartctlJson) (device model transport : Text)
    → IsConsistent (parse_nvme p device model transport)
unfolding parse_nvme
parse_nvme-IsConsistent p device model transport = read p.nvme_log
  where
    read : (o : Option NvmeSmartLog) → IsConsistent (nvme_drive p device model transport o)
    read none = not_known parse_error refl refl
    read (some log) = known refl (check_log-Agrees p log (overall p) (overall-Agrees p))

if-IsConsistent :
    (b : Bool) (d e : DriveSmart)
    → IsConsistent d
    → IsConsistent e
    → IsConsistent (if b then d else e)
if-IsConsistent true d e h g = h
if-IsConsistent false d e h g = g

by_protocol-IsConsistent :
    (p : SmartctlJson) (device model protocol : Text)
    → IsConsistent (by_protocol p device model protocol)
by_protocol-IsConsistent p device model protocol =
    if-IsConsistent (text_eq protocol (codes "ATA") || text_eq protocol (codes "SCSI"))
      (parse_sata p device model protocol) _ (parse_sata-IsConsistent p device model protocol)
      (if-IsConsistent (text_eq protocol (codes "NVMe")) (parse_nvme p device model protocol)
        (unknown_drive device [] parse_error (unsupported_protocol protocol))
        (parse_nvme-IsConsistent p device model protocol) (not_known parse_error refl refl))

parse_smartctl_json-IsConsistent : (o : Option SmartctlJson) → IsConsistent (parse_smartctl_json o)
unfolding parse_smartctl_json
parse_smartctl_json-IsConsistent none = not_known parse_error refl refl
parse_smartctl_json-IsConsistent (some p) =
    by_protocol-IsConsistent p (or_unnamed p.name) (or_none p.model_name) (or_none p.protocol)

-- Whatever lsblk and smartctl print for a disk, its report names the disk's path and transport, is
-- unknown exactly with a reason for that, and else is good exactly without reasons.
pub drive_report-IsConsistent :
    (disk : DiscoveredDisk) (out : Smartctl)
    → ((drive_report disk out).device ≡ disk.path)
      × ((drive_report disk out).transport ≡ disk.transport)
      × IsConsistent (drive_report disk out)
unfolding drive_report
drive_report-IsConsistent disk (printed o) = (refl, refl, kept (parse_smartctl_json-IsConsistent o))
  where
    kept : IsConsistent (parse_smartctl_json o) → IsConsistent (drive_report disk (printed o))
    kept (not_known r s u) = not_known r s u
    kept (known u a) = known u a
drive_report-IsConsistent disk (failed reason) = (refl, refl, not_known reason refl refl)
