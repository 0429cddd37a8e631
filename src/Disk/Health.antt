-- ===== src/Disk/Health.antt =====
-- disk/health.rs: the used percentage of a mount, its status, and the worst-of aggregate.
use pg_forge_cli.Base.{
  ℕ, ◌+◌, ◌-◌, ◌*◌, ◌/◌, min, Bool, Text, List, [], ◌∷◌, Option, none, some, ltb, leb, ◌==◌, ◌&&◌,
  ◌||◌, any, max_u64, if◌then◌else◌,
}

pub data DiskStatus : Type 0 where
  good warn critical unknown : DiskStatus

unfoldable pub from_used_pct : ℕ → DiskStatus
from_used_pct pct = if leb pct 79 then good else if leb pct 89 then warn else critical

unfoldable pub rank : DiskStatus → ℕ
rank unknown = 0
rank good = 1
rank warn = 2
rank critical = 3

pub record MountUsage : Type 0 where
  pub mount_label : Text
  pub mount_path : Text
  pub used_pct : ℕ
  pub free_bytes : ℕ
  pub total_bytes : ℕ

-- On `u64`: the subtraction stops at 0 and the product at `u64::MAX`.
unfoldable pub compute_pct : ℕ → ℕ → ℕ
compute_pct total_bytes free_bytes =
    if total_bytes == 0
    then 0
    else (let used = total_bytes - free_bytes in
        let hundredfold = min (used * 100) max_u64 in
        min ((hundredfold + (total_bytes - 1)) / total_bytes) 100)

pub record DiskHealth : Type 0 where
  pub status : DiskStatus
  pub worst_pct : ℕ
  pub worst_label : Text
  pub worst_mount : Text

-- `DiskHealth::unknown`
unfoldable pub unknown_health : DiskHealth
unknown_health = record { status = unknown; worst_pct = 0; worst_label = []; worst_mount = [] }

-- Whether `m` takes the place of the worst so far.
abbrev pub takes : MountUsage → MountUsage → Bool
takes m w =
    let s = rank (from_used_pct m.used_pct) in
    let t = rank (from_used_pct w.used_pct) in ltb t s || ((s == t) && ltb w.used_pct m.used_pct)

-- The loop: the worst mount so far, with its status.
unfoldable pub worst_loop :
    List MountUsage → Option MountUsage → DiskStatus → Option MountUsage × DiskStatus
worst_loop [] worst status = (worst, status)
worst_loop (m ∷ ms) none status = worst_loop ms (some m) (from_used_pct m.used_pct)
worst_loop (m ∷ ms) (some w) status =
    worst_loop ms (if takes m w then some m else some w)
      (if takes m w then from_used_pct m.used_pct else status)

abbrev pub summary : Option MountUsage × DiskStatus → DiskHealth
summary (none, status) = unknown_health
summary (some w, status) = record {
  status = status;
  worst_pct = w.used_pct;
  worst_label = w.mount_label;
  worst_mount = w.mount_path;
}

-- `DiskHealth::aggregate`
unfoldable pub aggregate : List MountUsage → DiskHealth
unfolding worst_loop unknown_health
aggregate [] = unknown_health
aggregate (m ∷ ms) = summary (worst_loop (m ∷ ms) none good)

-- What the file system answers about a labelled path: nothing, if `statvfs` or its metadata fails.
pub record Measured : Type 0 where
  pub usage : MountUsage
  pub device_id : Option ℕ

-- `measure_dedup`, with the device ids that were seen
unfoldable pub dedup : List (Option Measured) → List ℕ → List MountUsage
dedup [] seen = []
dedup (none ∷ ms) seen = dedup ms seen
dedup (some m ∷ ms) seen = elim m.device_id [
  | none ↦ dedup ms seen
  | some dev ↦
      (let fresh = m.usage ∷ dedup ms (dev ∷ seen) in
        let known = dedup ms seen in if any (λ d. d == dev) seen then known else fresh)
]
