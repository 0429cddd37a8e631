-- ===== src/Commands/Snapshot.antt =====
-- commands/snapshot.rs. jiff's reading of the clock and of timestamps is a parameter.
pub mod Chain
pub mod Due
pub mod Recorded
use pg_forge_cli.Base.{
  ℕ, suc, ◌+◌, ◌*◌, Bool, true, false, not, ◌&&◌, ◌||◌, Text, codes, List, [], ◌∷◌, ◌++◌, Option,
  none, some, any, ltb, ◌==◌, if◌then◌else◌,
}
use pg_forge_cli.Base.Int.{ℤ, pos, ltb_ℤ, is_zero}
use pg_forge_cli.Domain.Instance.{Instance}
use pg_forge_cli.Domain.Snapshot.{SnapshotKind, full, diff, SnapshotRecord}
use pg_forge_cli.Error.{
  Result, ok, err, io, docker, anyhow, no_backup_instance, container_not_running, backup_failed,
  label_not_found,
}
use pg_forge_cli.State.Store.{
  Disk, InstanceState, load_under, list_under, save_under, load_for, save_for,
}
use pg_forge_cli.Pgbackrest.{
  parse_backup_label, pgbackrest_indicates_failure, redact_pgbackrest_output,
}
use pg_forge_cli.Docker.Engine.{
  ◌>>=◌, ◌>>◌, ExecOutput, Engine, World, Action, done, fail, skip, reading, writing, ask,
  running_exec, only_if,
}

pub record SnapshotArgs : Type 0 where
  pub instance : Text
  pub user_label : Option Text

-- The clock in local time: seconds since midnight, the weekday from Sunday, the timestamp; whether
-- a timestamp (if it is one) is of today, and how many seconds ago it was.
pub record Clock : Type 0 where
  pub seconds_of_day : ℕ
  pub weekday : ℕ
  pub now_iso : Text
  pub is_today : Text → Option Bool
  pub seconds_ago : Text → Option ℤ

abbrev pub is_full : SnapshotRecord → Bool
is_full r = elim r.kind [ full ↦ true | diff ↦ false ]

-- A file that cannot be read counts as no snapshot.
unfoldable pub has_prior_full : Result (List SnapshotRecord) → Bool
has_prior_full (ok l) = any is_full l
has_prior_full (err e) = false

unfoldable pub next_kind : Clock → Instance → Result (List SnapshotRecord) → SnapshotKind
unfolding has_prior_full
next_kind clock i prior =
    if not (has_prior_full prior) || clock.weekday == i.full_backup_day then full else diff

abbrev type_flag : SnapshotKind → Text
type_flag full = codes "--type=full"
type_flag diff = codes "--type=diff"

abbrev pub backup_argv : SnapshotKind → List Text
backup_argv kind = codes "pgbackrest" ∷ codes "--stanza=main" ∷ type_flag kind ∷ codes "backup" ∷ []

abbrev label_or_fail : ExecOutput → Option Text → Action Text
label_or_fail out none = fail (anyhow (label_not_found (redact_pgbackrest_output out.stdout)))
label_or_fail out (some label) = done label

unfoldable pub check_backup : ExecOutput → Action Text
check_backup out =
    if not (is_zero out.exit_code)
      || pgbackrest_indicates_failure out.stderr
      || pgbackrest_indicates_failure out.stdout
    then fail (docker (backup_failed out.exit_code (redact_pgbackrest_output out.stderr)))
    else label_or_fail out (parse_backup_label out.stdout)

abbrev pub lock : Action (Unit {0})
lock = reading (λ disk. if disk.can_lock then ok tt else err io)

abbrev pub stamped : Text → InstanceState → InstanceState
stamped at s = record s {
  instance = record s.instance { last_snapshot_at = some at; last_snapshot_attempt_at = some at };
}

-- The timestamps of the instance, once the record is written.
unfoldable pub stamp : Text → SnapshotRecord → Action SnapshotRecord
stamp name r = do
  s ← reading (λ disk. load_under disk name)
  writing (λ disk. save_under disk (stamped r.taken_at s))
  done r

unfoldable pub append_record : Text → SnapshotRecord → List SnapshotRecord → Action SnapshotRecord
append_record name r file = do writing (λ disk. save_for disk name (file ++ r ∷ [])); stamp name r

-- What is written once the backup is made, under the lock.
unfoldable pub record_snapshot : Text → SnapshotRecord → Action SnapshotRecord
record_snapshot name r = do
  lock
  file ← reading (λ disk. load_for disk name)
  append_record name r file

abbrev pub running_or_fail : Text → Bool → Action (Unit {0})
running_or_fail container true = skip
running_or_fail container false = fail (anyhow (container_not_running container))

abbrev pub make_record : Clock → SnapshotArgs → SnapshotKind → Text → SnapshotRecord
make_record clock args kind label = record {
  label = label;
  kind = kind;
  user_label = args.user_label;
  taken_at = clock.now_iso;
}

abbrev pub container_of : SnapshotArgs → Text
container_of args = codes "pgforge_" ++ args.instance

-- The backup of the given kind, with its record.
unfoldable pub back_up : Engine → Clock → SnapshotArgs → SnapshotKind → Action SnapshotRecord
back_up engine clock args kind = do
  out ←
      running_exec (container_of args) (backup_argv kind)
        (λ h. engine.exec_as h (container_of args) (codes "postgres") (backup_argv kind))
  label ← check_backup out
  record_snapshot args.instance (make_record clock args kind label)

unfoldable pub run_with_engine : Engine → Clock → SnapshotArgs → Action SnapshotRecord
run_with_engine engine clock args = do
  running ← ask (λ h. engine.container_running h (container_of args))
  running_or_fail (container_of args) running
  s ← reading (λ disk. load_under disk args.instance)
  kind ← reading (λ disk. ok (next_kind clock s.instance (load_for disk args.instance)))
  back_up engine clock args kind

-- The engine is given; connecting to it is left out.
unfoldable pub run : Engine → Clock → SnapshotArgs → Action SnapshotRecord
run engine clock args = do
  s ← reading (λ disk. load_under disk args.instance)
  only_if (not s.instance.backup_enabled) (fail (anyhow (no_backup_instance args.instance)))
  run_with_engine engine clock args

abbrev pub covered_today : Clock → Option Text → Bool
covered_today clock none = false
covered_today clock (some last) = elim (clock.is_today last) [ none ↦ true | some b ↦ b ]

abbrev pub backing_off : Clock → Option Text → Bool
backing_off clock none = false
backing_off clock (some att) = elim (clock.seconds_ago att) [
  | none ↦ false
  | some age ↦ ltb_ℤ age (pos 3600)
]

unfoldable pub is_snapshot_due : Clock → ℕ → Option Text → Option Text → Bool
is_snapshot_due clock hour last_ok last_attempt =
    not (ltb clock.seconds_of_day (hour * 3600))
    && not (covered_today clock last_ok)
    && not (backing_off clock last_attempt)

abbrev due_hour : Clock → Instance → Option ℕ → Bool
due_hour clock i none = false
due_hour clock i (some hour) =
    is_snapshot_due clock hour i.last_snapshot_at i.last_snapshot_attempt_at

-- The guards of the loop in `run_due`.
unfoldable pub is_due : Clock → Result InstanceState → Bool
is_due clock (err e) = false
is_due clock (ok s) =
    s.instance.backup_enabled && due_hour clock s.instance s.instance.snapshot_hour

abbrev pub save_attempt : Clock → Result InstanceState → Disk → Disk
save_attempt clock (err e) disk = disk
save_attempt clock (ok s) disk =
    (save_under disk (record s {
      instance = record s.instance { last_snapshot_attempt_at = some clock.now_iso };
    })).1

-- The attempt is noted after a failure, if the lock and the load succeed.
unfoldable pub note_attempt : Clock → Text → World → World
note_attempt clock name w =
    if w.disk.can_lock
    then record w { disk = save_attempt clock (load_under w.disk name) w.disk }
    else w

abbrev pub finish_attempt : Clock → Text → Result SnapshotRecord × World → ℕ × World
finish_attempt clock name (ok r, w) = (1, w)
finish_attempt clock name (err e, w) = (0, note_attempt clock name w)

-- One instance of the loop.
unfoldable pub attempt : Engine → Clock → Text → World → ℕ × World
attempt engine clock name w =
    if is_due clock (load_under w.disk name)
    then finish_attempt clock name (
        run engine clock (record { instance = name; user_label = some (codes "auto-scheduled") }) w)
    else (0, w)

-- The clock of each turn is its own: time passes while a backup runs.
unfoldable pub run_each : Engine → (ℕ → Clock) → ℕ → List Text → World → ℕ × World
run_each engine clocks i [] w = (0, w)
run_each engine clocks i (name ∷ names) w =
    let (n, w') = attempt engine (clocks i) name w in
    let (m, w'') = run_each engine clocks (suc i) names w' in (n + m, w'')

abbrev counted : ℕ × World → Result ℕ × World
counted (n, w) = (ok n, w)

abbrev pub each_listed : Engine → (ℕ → Clock) → Result (List Text) → Action ℕ
each_listed engine clocks (err e) w = (err e, w)
each_listed engine clocks (ok names) w = counted (run_each engine clocks 0 names w)

unfoldable pub run_due : Engine → (ℕ → Clock) → Action ℕ
run_due engine clocks w = each_listed engine clocks (list_under w.disk) w
