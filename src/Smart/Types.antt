-- ===== src/Smart/Types.antt =====
-- smart/types.rs: statuses, one drive's report, and the worst-of aggregate. Instants are seconds.
use pg_forge_cli.Base.{ℕ, ◌*◌, Bool, true, false, not, Text, List, [], ◌∷◌, Option, none, some}
use pg_forge_cli.Base.{leb, all, if◌then◌else◌}
use pg_forge_cli.Base.Int.{ℤ, pos, ◌-ℤ◌, ltb_ℤ}

pub data SmartStatus : Type 0 where
  good warn critical unknown : SmartStatus

unfoldable pub rank : SmartStatus → ℕ
rank unknown = 0
rank good = 1
rank warn = 2
rank critical = 3

pub data SmartUnknownReason : Type 0 where
  not_installed no_sudoers no_installed_state no_devices_found : SmartUnknownReason
  device_not_supported device_missing stale no_cache parse_error : SmartUnknownReason

-- What a report gives as a reason: one constructor for each `format!`.
pub data Reason : Type 0 where
  overall_health_failed : Reason
  reallocated_sectors pending_sectors offline_uncorrectable temperature : ℤ → Reason
  critical_warning_bits : ℕ → Reason
  critical_warning : List ℕ → Reason
  media_errors : ℕ → Reason
  spare_below_threshold : ℕ → ℕ → Reason
  percentage_used : ℕ → Reason
  json_parse_failed missing_nvme_log install_not_run : Reason
  unsupported_protocol : Text → Reason
  because : SmartUnknownReason → Reason

pub record DriveSmart : Type 0 where
  pub device : Text
  pub model : Text
  pub transport : Text
  pub status : SmartStatus
  pub reasons : List Reason
  pub unknown_reason : Option SmartUnknownReason

pub record SmartHealth : Type 0 where
  pub status : SmartStatus
  pub worst_device : Option Text
  pub worst_reasons : List Reason
  pub unknown_reason : Option SmartUnknownReason
  pub drives : List DriveSmart
  pub checked_at : ℤ

-- `SmartHealth::unknown`, at the instant of the call
unfoldable pub unknown_health : SmartUnknownReason → ℤ → SmartHealth
unknown_health reason now = record {
  status = unknown;
  worst_device = none;
  worst_reasons = [];
  unknown_reason = some reason;
  drives = [];
  checked_at = now;
}

abbrev pub is_unknown : DriveSmart → Bool
is_unknown d = elim d.status [ unknown ↦ true | _ ↦ false ]

-- `max_by_key`, from the best so far: on ties the last one wins.
unfoldable pub worst_from : DriveSmart → List DriveSmart → DriveSmart
worst_from best [] = best
worst_from best (d ∷ ds) =
    worst_from (if leb (rank best.status) (rank d.status) then d else best) ds

-- The report of one or more drives, of which all are unknown or not.
abbrev pub report : Bool → DriveSmart → DriveSmart → List DriveSmart → ℤ → SmartHealth
report all_unknown worst d ds now = record {
  status = if all_unknown then unknown else worst.status;
  worst_device = some worst.device;
  worst_reasons = worst.reasons;
  unknown_reason = if all_unknown then d.unknown_reason else none;
  drives = d ∷ ds;
  checked_at = now;
}

unfoldable pub aggregate : List DriveSmart → ℤ → SmartHealth
aggregate [] now = unknown_health no_devices_found now
aggregate (d ∷ ds) now = report (all is_unknown (d ∷ ds)) (worst_from d ds) d ds now

-- Ages are compared in seconds, which the quotient of hours stands for.
unfoldable pub is_stale : SmartHealth → ℤ → ℕ → Bool
is_stale h now max_age_hours =
    if ltb_ℤ now h.checked_at
    then true
    else not (ltb_ℤ (now -ℤ h.checked_at) (pos (max_age_hours * 3600)))
