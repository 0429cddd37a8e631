-- ===== src/Commands/Snapshot/Recorded.antt =====
-- What a successful snapshot has written.
use pg_forge_cli.Base.{
  ◌≡◌, refl, sym, ap, ◌∙◌, Bool, true, false, Text, text_eq_iff, List, [], ◌∷◌, ◌++◌, arith,
  if◌then◌else◌,
}
use pg_forge_cli.Base.Dict.{lookup-insert}
use pg_forge_cli.Domain.Snapshot.{SnapshotRecord, SnapshotKind}
use pg_forge_cli.Error.{Result, ok, err, io}
use pg_forge_cli.State.Store.{
  holds, Disk, InstanceState, dir_of, load_under, save_under, load_for, save_for,
}
use pg_forge_cli.State.Updates.{snapshots-save_under}
use pg_forge_cli.Docker.Engine.{Engine, World, Action, ExecOutput, continue, done}
use pg_forge_cli.Commands.Snapshot.Chain.Records.{finish_backup}
use pg_forge_cli.Commands.Snapshot.Chain.Scheduler.{back_up_loaded, load_and_back_up}
use pg_forge_cli.Commands.Snapshot.{
  Clock, SnapshotArgs, check_backup, stamp, stamped, append_record, record_snapshot, make_record,
  container_of, running_or_fail, back_up, next_kind, run_with_engine,
}

-- On success the file of the instance is what it was before, and the record behind it.
abbrev pub Recorded : Text → Disk → Result SnapshotRecord × World → Type 0
Recorded name before (err e, w) = Unit
Recorded name before (ok r, w) =
    (l : List SnapshotRecord) × (load_for before name ≡ ok l)
    × (load_for w.disk name ≡ ok (l ++ r ∷ []))

load_for-save_for :
    (disk : Disk) (name : Text) (l : List SnapshotRecord)
    → (save_for disk name l).0 ≡ ok tt
    → load_for (save_for disk name l).1 name ≡ ok l
unfolding load_for save_for
load_for-save_for disk name l h = ground (
  arith,
  h,
  lookup-insert name name (record (dir_of disk name) { snapshots = holds l }) disk.dirs,
  text_eq_iff name name,
)

load_for-save_under :
    (disk : Disk) (s : InstanceState) (name : Text)
    → load_for (save_under disk s).1 name ≡ load_for disk name
unfolding load_for
load_for-save_under disk s name = ground (arith, snapshots-save_under disk s name)

-- The stamp answers the record and leaves the snapshots files alone.
abbrev Kept : Text → SnapshotRecord → Disk → Result SnapshotRecord × World → Type 0
Kept name r before (err e, w) = Unit
Kept name r before (ok q, w) = (q ≡ r) × (load_for w.disk name ≡ load_for before name)

stamp-Kept : (name : Text) (r : SnapshotRecord) (w : World) → Kept name r w.disk (stamp name r w)
unfolding stamp
stamp-Kept name r w = loaded (load_under w.disk name)
  where
    saved :
        (s : InstanceState) (o : Result (Unit {0}))
        → Kept name r w.disk
            (continue (o, record w { disk = (save_under w.disk s).1 }) (λ _. done r))
    saved s (ok _) = (refl, load_for-save_under w.disk s name)
    saved s (err e) = tt

    loaded :
        (o : Result InstanceState)
        → Kept name r w.disk (
            continue
              (o, w)
              (λ s v.
                continue
                  (
                    (save_under v.disk (stamped r.taken_at s)).0,
                    record v { disk = (save_under v.disk (stamped r.taken_at s)).1 },
                  )
                  (λ _. done r)))
    loaded (ok s) = saved (stamped r.taken_at s) (save_under w.disk (stamped r.taken_at s)).0
    loaded (err e) = tt

Kept-Recorded :
    (name : Text) (r : SnapshotRecord) (l : List SnapshotRecord) (before disk : Disk)
    (p : Result SnapshotRecord × World)
    → load_for before name ≡ ok l
    → load_for disk name ≡ ok (l ++ r ∷ [])
    → Kept name r disk p
    → Recorded name before p
Kept-Recorded name r l before disk (err e, w) h g k = tt
Kept-Recorded name r l before disk (ok q, w) h g (same, kept) =
    (l, h, kept ∙ g ∙ ap (λ z. ok (l ++ z ∷ [])) (sym same))

append_record-Recorded :
    (name : Text) (r : SnapshotRecord) (l : List SnapshotRecord) (w : World)
    → load_for w.disk name ≡ ok l
    → Recorded name w.disk (append_record name r l w)
unfolding append_record
append_record-Recorded name r l w h = saved (save_for w.disk name (l ++ r ∷ [])).0 refl
  where
    after_save : World
    after_save = record w { disk = (save_for w.disk name (l ++ r ∷ [])).1 }

    saved :
        (o : Result (Unit {0}))
        → (save_for w.disk name (l ++ r ∷ [])).0 ≡ o
        → Recorded name w.disk (continue (o, after_save) (λ _. stamp name r))
    saved (ok tt) e =
        Kept-Recorded name r l w.disk after_save.disk (stamp name r after_save) h
          (load_for-save_for w.disk name (l ++ r ∷ []) e) (stamp-Kept name r after_save)
    saved (err e) f = tt

record_snapshot-Recorded :
    (name : Text) (r : SnapshotRecord) (w : World) → Recorded name w.disk (record_snapshot name r w)
unfolding record_snapshot
record_snapshot-Recorded name r w = locked w.disk.can_lock
  where
    read :
        (o : Result (List SnapshotRecord))
        → load_for w.disk name ≡ o
        → Recorded name w.disk (continue (o, w) (append_record name r))
    read (ok l) e = append_record-Recorded name r l w e
    read (err f) e = tt

    from_load : World → Result SnapshotRecord × World
    from_load v = continue (load_for v.disk name, v) (append_record name r)

    locked :
        (b : Bool)
        → Recorded name w.disk
            (continue {A = Unit {0}} (if b then ok tt else err io, w) (λ _. from_load))
    locked true = read (load_for w.disk name) refl
    locked false = tt

-- What comes before the records leaves the disk alone.
continue-Recorded {ℓ} :
    {A : Type ℓ} (name : Text) (before : Disk) (p : Result A × World)
    (f : A → Action SnapshotRecord)
    → p.1.disk ≡ before
    → ((a : A) (w : World) → w.disk ≡ before → Recorded name before (f a w))
    → Recorded name before (continue p f)
continue-Recorded name before (ok a, w) f e h = h a w e
continue-Recorded name before (err x, w) f e h = tt

check_backup-disk : (out : ExecOutput) (w : World) → (check_backup out w).1.disk ≡ w.disk
unfolding check_backup
check_backup-disk out w = ground arith

Recorded-at :
    (name : Text) (before : Disk) (r : SnapshotRecord) (w : World)
    → w.disk ≡ before
    → Recorded name before (record_snapshot name r w)
Recorded-at name before r w e = rw⁻¹ e (record_snapshot-Recorded name r w)

back_up-Recorded :
    (engine : Engine) (clock : Clock) (args : SnapshotArgs) (kind : SnapshotKind) (before : Disk)
    (w : World)
    → w.disk ≡ before
    → Recorded args.instance before (back_up engine clock args kind w)
unfolding back_up
back_up-Recorded engine clock args kind before w e =
    continue-Recorded args.instance before _ (finish_backup clock args kind) e (λ out v g.
      continue-Recorded args.instance before (check_backup out v)
        (λ label. record_snapshot args.instance (make_record clock args kind label))
        (check_backup-disk out v ∙ g)
        (λ label u. Recorded-at args.instance before (make_record clock args kind label) u))

-- A snapshot that succeeds has appended its record to the instance's snapshots file as that was
-- before the command.
pub run_with_engine-Recorded :
    (engine : Engine) (clock : Clock) (args : SnapshotArgs) (w : World)
    → Recorded args.instance w.disk (run_with_engine engine clock args w)
unfolding run_with_engine
run_with_engine-Recorded engine clock args w =
    continue-Recorded args.instance w.disk (engine.container_running w.steps (container_of args), w)
      (λ running v.
        continue (running_or_fail (container_of args) running v)
          (λ _. load_and_back_up engine clock args))
      refl checked
  where
    loaded :
        (v : World)
        → v.disk ≡ w.disk
        → Recorded args.instance w.disk (load_and_back_up engine clock args v)
    loaded v e =
        continue-Recorded args.instance w.disk (load_under v.disk args.instance, v)
          (back_up_loaded engine clock args) e
          (λ s u g.
            back_up-Recorded engine clock args
              (next_kind clock s.instance (load_for u.disk args.instance)) w.disk u g)

    checked :
        (running : Bool) (v : World)
        → v.disk ≡ w.disk
        → Recorded args.instance w.disk (
            continue
              (running_or_fail (container_of args) running v)
              (λ _. load_and_back_up engine clock args))
    checked true v e = loaded v e
    checked false v e = tt
