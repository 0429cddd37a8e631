-- ===== src/Commands/Snapshot/Chain.antt =====
-- The snapshots file: a differential backup is never recorded without a full one before it.
pub mod Records
pub mod Scheduler
use pg_forge_cli.Base.{
  Bool, true, false, ◌&&◌, ◌||◌, ◌≡◌, ◌∙◌, ap, Text, text_eq_iff, List, [], ◌∷◌, ◌++◌, any, arith,
}
use pg_forge_cli.Base.Dict.{lookup-insert}
use pg_forge_cli.Domain.Snapshot.{SnapshotRecord}
use pg_forge_cli.Error.{Result, ok, err}
use pg_forge_cli.State.Store.{
  File, holds, Disk, InstanceState, dir_of, save_under, load_for, save_for,
}
use pg_forge_cli.State.Updates.{snapshots-save_under}
use pg_forge_cli.Docker.Engine.{World, Action, continue, done}
use pg_forge_cli.Commands.Snapshot.{is_full, has_prior_full, stamped}

-- Whether each differential record has a full one before it; `seen` says that one came before.
unfoldable pub is_chained : Bool → List SnapshotRecord → Bool
is_chained seen [] = true
is_chained seen (r ∷ rs) = (is_full r || seen) && is_chained (is_full r || seen) rs

pub is_chained-append :
    (seen : Bool) (l : List SnapshotRecord) (r : SnapshotRecord)
    → is_chained seen l ≡ true
    → is_full r ≡ true
    → is_chained seen (l ++ r ∷ []) ≡ true
unfolding is_chained
is_chained-append seen [] r h f = ground (arith, f)
is_chained-append seen (x ∷ l) r h f = ground (arith, h, is_chained-append (is_full x || seen) l r)

pub is_chained-append_diff :
    (seen : Bool) (l : List SnapshotRecord) (r : SnapshotRecord)
    → is_chained seen l ≡ true
    → (any is_full l || seen) ≡ true
    → is_chained seen (l ++ r ∷ []) ≡ true
unfolding is_chained any
is_chained-append_diff seen [] r h f = ground (arith, f)
is_chained-append_diff seen (x ∷ l) r h f =
    ground (arith, h, f, is_chained-append_diff (is_full x || seen) l r)

unfoldable pub file_chained : File (List SnapshotRecord) → Bool
file_chained (holds l) = is_chained false l
file_chained _ = true

-- Every instance's snapshots file is a chain.
pub record AllChained (disk : Disk) : Type 0 where
  pub chained : (m : Text) → file_chained (dir_of disk m).snapshots ≡ true

pub save_under-AllChained :
    (disk : Disk) (s : InstanceState) → AllChained disk → AllChained (save_under disk s).1
save_under-AllChained disk s h = record {
  chained = λ m. ap file_chained (snapshots-save_under disk s m) ∙ h.chained m;
}

pub save_for-AllChained :
    (disk : Disk) (name : Text) (l : List SnapshotRecord)
    → is_chained false l ≡ true
    → AllChained disk
    → AllChained (save_for disk name l).1
unfolding save_for file_chained
save_for-AllChained disk name l c h = record {
  chained = λ m. ground (
    arith,
    c,
    h.chained m,
    lookup-insert m name (record (dir_of disk name) { snapshots = holds l }) disk.dirs,
    lookup-insert m name (dir_of disk name) disk.dirs,
    text_eq_iff name m,
  );
}

pub load_for-chained :
    (disk : Disk) (name : Text) (l : List SnapshotRecord)
    → AllChained disk
    → load_for disk name ≡ ok l
    → is_chained false l ≡ true
unfolding load_for file_chained is_chained
load_for-chained disk name l h e = ground (arith, e, h.chained name)

-- An action that leaves every chain a chain, when it is continued by such actions.
pub continue-AllChained {ℓ κ} :
    {A : Type ℓ} {B : Type κ} (p : Result A × World) (f : A → Action B)
    → AllChained p.1.disk
    → ((a : A) (w : World) → AllChained w.disk → AllChained (f a w).1.disk)
    → AllChained (continue p f).1.disk
continue-AllChained (ok a, w) f h g = g a w h
continue-AllChained (err e, w) f h g = h

-- Saving the stamped instance.
abbrev pub save_stamped : SnapshotRecord → InstanceState → Action SnapshotRecord
save_stamped r s w =
    continue
      (
        (save_under w.disk (stamped r.taken_at s)).0,
        record w { disk = (save_under w.disk (stamped r.taken_at s)).1 },
      )
      (λ _. done r)

pub save_stamped-AllChained :
    (r : SnapshotRecord) (s : InstanceState) (w : World)
    → AllChained w.disk
    → AllChained (save_stamped r s w).1.disk
save_stamped-AllChained r s w h =
    continue-AllChained _ (λ _. done r) (save_under-AllChained w.disk (stamped r.taken_at s) h)
      (λ _ v g. g)

-- A record that may follow what is there: a full one, or one behind a full one.
abbrev pub may_follow : SnapshotRecord → Result (List SnapshotRecord) → Bool
may_follow r prior = is_full r || has_prior_full prior

pub append-chained :
    (l : List SnapshotRecord) (r : SnapshotRecord)
    → is_chained false l ≡ true
    → may_follow r (ok l) ≡ true
    → is_chained false (l ++ r ∷ []) ≡ true
unfolding has_prior_full
append-chained l r c h =
    ground (arith, h, c, is_chained-append false l r, is_chained-append_diff false l r)
