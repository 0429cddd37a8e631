-- ===== src/State/Updates.antt =====
-- What a save and an update leave on the disk, whether they succeed or fail.
use pg_forge_cli.Base.{
  Bool, true, false, if◌then◌else◌, refl, ap, ◌≡◌, ◌≢◌, ◌⊎◌, inl, inr, Text, text_eq_iff, arith,
}
use pg_forge_cli.Base.Dict.{lookup-insert}
use pg_forge_cli.Domain.Instance.{validate_name}
use pg_forge_cli.Error.{io, err, ◌>>=◌, Result, ok, ◌>>◌, Result-cases}
use pg_forge_cli.State.Store.{
  DiskStep, update_under, update_loaded, save_changed, Disk, InstanceDir, InstanceState, dir_of,
  load_under, save_under, read_state, with_dir, with_state, written, reached, Progress, untouched,
  made_dir, renamed,
}
use pg_forge_cli.State.Same.{SameFiles}

-- Every directory has the files that it had, and the same is granted.
pub record SameDirs (disk after : Disk) : Type 0 where
  pub dirs : (n : Text) → dir_of after n ≡ dir_of disk n
  pub lock : after.can_lock ≡ disk.can_lock
  pub write : after.can_write ≡ disk.can_write

pub SameDirs-refl : (disk : Disk) → SameDirs disk disk
SameDirs-refl disk = record { dirs = λ n. refl; lock = refl; write = refl }

pub SameFiles-SameDirs : (disk after : Disk) → SameDirs disk after → SameFiles disk after
SameFiles-SameDirs disk after h = record {
  states = λ n. ap (λ d. d.state) (h.dirs n);
  snapshots = λ n. ap (λ d. d.snapshots) (h.dirs n);
  lock = h.lock;
  write = h.write;
}

-- The state is what the next load of its name answers, and every other directory is as it was.
pub record IsSaved (disk : Disk) (s : InstanceState) (after : Disk) : Type 0 where
  pub loads : load_under after s.instance.name ≡ ok s
  pub others : (other : Text) → s.instance.name ≢ other → dir_of after other ≡ dir_of disk other
  pub write : after.can_write ≡ disk.can_write

-- A save that succeeds has saved the state; one that fails has left every directory as it was, or,
-- if the disk does not grant whole writes, has saved the state after all.
abbrev pub Saved : Disk → InstanceState → DiskStep (Unit {0}) → Type 0
Saved disk s (ok u, after) = IsSaved disk s after
Saved disk s (err e, after) =
    SameDirs disk after ⊎ ((disk.can_write ≡ false) × IsSaved disk s after)

with_dir-other :
    (disk : Disk) (name other : Text) (d : InstanceDir)
    → name ≢ other
    → dir_of (with_dir disk name d) other ≡ dir_of disk other
with_dir-other disk name other d h =
    ground (arith, lookup-insert other name d disk.dirs, text_eq_iff name other, h)

with_dir-same :
    (disk : Disk) (name n : Text) → dir_of (with_dir disk name (dir_of disk name)) n ≡ dir_of disk n
with_dir-same disk name n =
    ground (arith, lookup-insert n name (dir_of disk name) disk.dirs, text_eq_iff name n)

with_dir-IsSaved :
    (disk : Disk) (s : InstanceState)
    → validate_name s.instance.name ≡ ok tt
    → IsSaved disk s (with_dir disk s.instance.name (with_state disk s))
unfolding load_under
with_dir-IsSaved disk s h = record {
  loads = ground (
    arith,
    h,
    lookup-insert s.instance.name s.instance.name (with_state disk s) disk.dirs,
    text_eq_iff s.instance.name s.instance.name,
  );
  others = λ other. with_dir-other disk s.instance.name other (with_state disk s);
  write = refl;
}

reached-Saved :
    (p : Progress) (disk : Disk) (s : InstanceState)
    → validate_name s.instance.name ≡ ok tt
    → disk.can_write ≡ false
    → Saved disk s (err io, reached p disk s.instance.name (with_state disk s))
reached-Saved untouched disk s h denied = inl (SameDirs-refl disk)
reached-Saved made_dir disk s h denied =
    inl (record { dirs = with_dir-same disk s.instance.name; lock = refl; write = refl })
reached-Saved renamed disk s h denied = inr (denied, with_dir-IsSaved disk s h)

written-Saved :
    (disk : Disk) (s : InstanceState)
    → validate_name s.instance.name ≡ ok tt
    → Saved disk s (written disk s.instance.name (with_state disk s))
written-Saved disk s valid = granted disk.can_write refl
  where
    granted :
        (b : Bool)
        → disk.can_write ≡ b
        → Saved disk s (
            if b
            then (ok tt, with_dir disk s.instance.name (with_state disk s))
            else (err io, reached disk.reaches disk s.instance.name (with_state disk s)))
    granted true e = with_dir-IsSaved disk s valid
    granted false e = reached-Saved disk.reaches disk s valid e

pub save_under-Saved : (disk : Disk) (s : InstanceState) → Saved disk s (save_under disk s)
unfolding save_under
save_under-Saved disk s = elim (Result-cases (validate_name s.instance.name)) [
  | inl valid ↦ rw valid (written-Saved disk s valid)
  | inr (e, invalid) ↦ rw invalid (inl (SameDirs-refl disk))
]

-- If a save succeeds, the next load of its instance's name answers exactly what was saved.
pub load_under-save_under :
    (disk : Disk) (s : InstanceState)
    → (save_under disk s).0 ≡ ok tt
    → load_under (save_under disk s).1 s.instance.name ≡ ok s
load_under-save_under disk s h = of_result (save_under disk s) (save_under-Saved disk s) h
  where
    of_result :
        (r : DiskStep (Unit {0}))
        → Saved disk s r
        → r.0 ≡ ok tt
        → load_under r.1 s.instance.name ≡ ok s
    of_result (ok u, after) k e = k.loads
    of_result (err x, after) k e = cc

-- A save leaves the snapshots alone.
pub snapshots-save_under :
    (disk : Disk) (s : InstanceState) (m : Text)
    → (dir_of (save_under disk s).1 m).snapshots ≡ (dir_of disk m).snapshots
unfolding save_under
snapshots-save_under disk s m = ground (
  arith,
  lookup-insert m s.instance.name (with_state disk s) disk.dirs,
  lookup-insert m s.instance.name (dir_of disk s.instance.name) disk.dirs,
  text_eq_iff s.instance.name m,
)

-- An update of the instance `name` by `f`. It answers the changed state: that was made from what
-- was loaded, and is saved. Or it answers an error: every directory is as it was, or the disk does
-- not grant whole writes and the changed state is saved after all.
pub record IsUpdated (disk : Disk) (name : Text) (f : InstanceState → Result InstanceState)
    (t : InstanceState) (after : Disk) : Type 0 where
  pub loaded : InstanceState
  pub loads : load_under disk name ≡ ok loaded
  pub changes : f loaded ≡ ok t
  pub saved : IsSaved disk t after

pub record IsLate (disk : Disk) (name : Text) (f : InstanceState → Result InstanceState)
    (after : Disk) : Type 0 where
  pub refused : disk.can_write ≡ false
  pub changed : InstanceState
  pub updated : IsUpdated disk name f changed after

abbrev pub Updated :
    Disk → Text → (InstanceState → Result InstanceState) → DiskStep InstanceState → Type 0
Updated disk name f (ok t, after) = IsUpdated disk name f t after
Updated disk name f (err e, after) = SameDirs disk after ⊎ IsLate disk name f after

-- What was saved, with the error or the state that is answered.
Saved-Updated :
    (disk : Disk) (name : Text) (f : InstanceState → Result InstanceState) (s t : InstanceState)
    (r : DiskStep (Unit {0}))
    → load_under disk name ≡ ok s
    → f s ≡ ok t
    → Saved disk t r
    → Updated disk name f (r.0 >>= (λ _. ok t), r.1)
Saved-Updated disk name f s t (ok u, after) l c h = record {
  loaded = s;
  loads = l;
  changes = c;
  saved = h;
}
Saved-Updated disk name f s t (err x, after) l c (inl h) = inl h
Saved-Updated disk name f s t (err x, after) l c (inr (denied, h)) = inr (record {
  refused = denied;
  changed = t;
  updated = record { loaded = s; loads = l; changes = c; saved = h };
})

changed-Updated :
    (disk : Disk) (name : Text) (f : InstanceState → Result InstanceState) (s : InstanceState)
    (r : Result InstanceState)
    → load_under disk name ≡ ok s
    → f s ≡ r
    → Updated disk name f (save_changed disk r)
changed-Updated disk name f s (ok t) l c =
    Saved-Updated disk name f s t (save_under disk t) l c (save_under-Saved disk t)
changed-Updated disk name f s (err e) l c = inl (SameDirs-refl disk)

loaded-Updated :
    (disk : Disk) (name : Text) (f : InstanceState → Result InstanceState)
    (r : Result InstanceState)
    → load_under disk name ≡ r
    → Updated disk name f (update_loaded disk f r)
unfolding update_loaded
loaded-Updated disk name f (ok s) l = changed-Updated disk name f s (f s) l refl
loaded-Updated disk name f (err e) l = inl (SameDirs-refl disk)

-- An update that answers a state has made it from what was loaded, the next load of its name
-- answers it, and every other directory is as it was. An update that answers an error has left
-- every directory as it was; or the disk does not grant whole writes, and the same holds of a
-- changed state as after a success.
pub update_under-Updated :
    (disk : Disk) (name : Text) (f : InstanceState → Result InstanceState)
    → Updated disk name f (update_under disk name f)
unfolding update_under
update_under-Updated disk name f = locked disk.can_lock
  where
    locked :
        (b : Bool)
        → Updated disk name f
            (if b then update_loaded disk f (load_under disk name) else (err io, disk))
    locked true = loaded-Updated disk name f (load_under disk name) refl
    locked false = inl (SameDirs-refl disk)

-- Only a valid name loads.
pub name_valid :
    (disk : Disk) (name : Text) (s : InstanceState)
    → load_under disk name ≡ ok s
    → validate_name name ≡ ok tt
unfolding load_under
name_valid disk name s h = checked (validate_name name) refl h
  where
    checked :
        (v : Result (Unit {0}))
        → validate_name name ≡ v
        → (v >> read_state name (dir_of disk name).state) ≡ ok s
        → validate_name name ≡ ok tt
    checked (ok u) e l = e
    checked (err x) e l = cc
