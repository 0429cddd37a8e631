-- ===== src/Commands/Snapshot/Chain/Records.antt =====
-- What the recording of one backup leaves of the chains.
use pg_forge_cli.Base.{
  Bool, true, false, ◌≡◌, refl, Text, List, [], ◌∷◌, ◌++◌, if◌then◌else◌, arith,
}
use pg_forge_cli.Domain.Instance.{Instance}
use pg_forge_cli.Domain.Snapshot.{SnapshotKind, SnapshotRecord}
use pg_forge_cli.Error.{Result, ok, err, io}
use pg_forge_cli.State.Store.{load_under, load_for}
use pg_forge_cli.Docker.Engine.{ExecOutput, Engine, World, Action, continue}
use pg_forge_cli.Commands.Snapshot.{
  Clock, SnapshotArgs, next_kind, check_backup, stamp, append_record, record_snapshot, make_record,
  back_up,
}
use pg_forge_cli.Commands.Snapshot.Chain.{
  is_chained, AllChained, save_for-AllChained, load_for-chained, continue-AllChained, save_stamped,
  save_stamped-AllChained, may_follow, append-chained,
}

pub stamp-AllChained :
    (name : Text) (r : SnapshotRecord) (w : World)
    → AllChained w.disk
    → AllChained (stamp name r w).1.disk
unfolding stamp
stamp-AllChained name r w h =
    continue-AllChained (load_under w.disk name, w) (save_stamped r) h (save_stamped-AllChained r)

pub append_record-AllChained :
    (name : Text) (r : SnapshotRecord) (file : List SnapshotRecord) (w : World)
    → AllChained w.disk
    → is_chained false (file ++ r ∷ []) ≡ true
    → AllChained (append_record name r file w).1.disk
unfolding append_record
append_record-AllChained name r file w h c =
    continue-AllChained _ (λ _. stamp name r) (save_for-AllChained w.disk name (file ++ r ∷ []) c h)
      (λ _. stamp-AllChained name r)

pub record_loaded :
    (name : Text) (r : SnapshotRecord) (w : World) (o : Result (List SnapshotRecord))
    → load_for w.disk name ≡ o
    → AllChained w.disk
    → may_follow r o ≡ true
    → AllChained (continue (o, w) (append_record name r)).1.disk
record_loaded name r w (ok l) e h m =
    append_record-AllChained name r l w h
      (append-chained l r (load_for-chained w.disk name l h e) m)
record_loaded name r w (err f) e h m = h

pub record_snapshot-AllChained :
    (name : Text) (r : SnapshotRecord) (w : World)
    → AllChained w.disk
    → may_follow r (load_for w.disk name) ≡ true
    → AllChained (record_snapshot name r w).1.disk
unfolding record_snapshot
record_snapshot-AllChained name r w h m = locked w.disk.can_lock
  where
    from_load : (v : World) → Result SnapshotRecord × World
    from_load v = continue (load_for v.disk name, v) (append_record name r)

    locked :
        (b : Bool)
        → AllChained
            (continue {A = Unit {0}} (if b then ok tt else err io, w) (λ _. from_load)).1.disk
    locked true = record_loaded name r w (load_for w.disk name) refl h m
    locked false = h

pub check_backup-world : (out : ExecOutput) (w : World) → (check_backup out w).1 ≡ w
unfolding check_backup
check_backup-world out w = ground arith

-- Chains, and a record of the given kind may follow in the instance's file.
pub record Ready (name : Text) (kind : SnapshotKind) (w : World) : Type 0 where
  pub chains : AllChained w.disk
  pub follows : (r : SnapshotRecord) → r.kind ≡ kind → may_follow r (load_for w.disk name) ≡ true

pub continue-Ready {ℓ κ} :
    {A : Type ℓ} {B : Type κ} (name : Text) (kind : SnapshotKind) (p : Result A × World)
    (f : A → Action B)
    → Ready name kind p.1
    → ((a : A) (w : World) → Ready name kind w → AllChained (f a w).1.disk)
    → AllChained (continue p f).1.disk
continue-Ready name kind (ok a, w) f h g = g a w h
continue-Ready name kind (err e, w) f h g = h.chains

pub next_kind-follows :
    (clock : Clock) (i : Instance) (prior : Result (List SnapshotRecord)) (r : SnapshotRecord)
    → r.kind ≡ next_kind clock i prior
    → may_follow r prior ≡ true
unfolding next_kind
next_kind-follows clock i prior r e = ground (arith, e)

abbrev pub finish_backup : Clock → SnapshotArgs → SnapshotKind → ExecOutput → Action SnapshotRecord
finish_backup clock args kind out w =
    continue (check_backup out w)
      (λ label. record_snapshot args.instance (make_record clock args kind label))

pub finish_backup-AllChained :
    (clock : Clock) (args : SnapshotArgs) (kind : SnapshotKind) (out : ExecOutput) (w : World)
    → Ready args.instance kind w
    → AllChained (finish_backup clock args kind out w).1.disk
finish_backup-AllChained clock args kind out w h =
    continue-Ready args.instance kind (check_backup out w)
      (λ label. record_snapshot args.instance (make_record clock args kind label))
      (rw (check_backup-world out w) h)
      (λ label v g.
        record_snapshot-AllChained args.instance (make_record clock args kind label) v g.chains
          (g.follows (make_record clock args kind label) refl))

pub back_up-AllChained :
    (engine : Engine) (clock : Clock) (args : SnapshotArgs) (kind : SnapshotKind) (w : World)
    → Ready args.instance kind w
    → AllChained (back_up engine clock args kind w).1.disk
unfolding back_up
back_up-AllChained engine clock args kind w h =
    continue-Ready args.instance kind _ (finish_backup clock args kind)
      (record { chains = h.chains; follows = h.follows }) (finish_backup-AllChained clock args kind)
