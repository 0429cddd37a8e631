-- ===== src/State/Store.antt =====
-- state/instance.rs and state/snapshots.rs over the state root. A directory of `instances/` is an
-- entry of `dirs`; a file is absent, unreadable, malformed, or holds what was last serialised into
-- it. A write is atomic (util/fs.rs), and one that fails may have come as far as the rename.
use pg_forge_cli.Base.{Bool, true, false, Text, List, [], Option, none, some, select, if◌then◌else◌}
use pg_forge_cli.Base.Dict.{Dict, lookup, insert, erase, keys}
use pg_forge_cli.Domain.Instance.{Instance, validate_name}
use pg_forge_cli.Domain.Snapshot.{SnapshotRecord}
use pg_forge_cli.Error.{◌>>◌, Result, ok, err, io, config_malformed, instance_not_found, ◌>>=◌}

pub data File {ℓ} (A : Type ℓ) : Type ℓ where
  absent unreadable malformed : File A
  holds : A → File A

pub record InstanceState : Type 0 where
  pub instance : Instance
  pub created_at : Text

-- `secret_mode` is 0600, `bind_mount_mode` 0644, `script_mode` 0755; else the umask decides.
pub data Mode : Type 0 where
  default_mode secret_mode bind_mount_mode script_mode : Mode

pub record ConfFile : Type 0 where
  pub mode : Mode
  pub content : Text

-- `conf` is the directory `conf/` with the files under it, by their path from the state root.
pub record InstanceDir : Type 0 where
  pub state : File InstanceState
  pub snapshots : File (List SnapshotRecord)
  pub conf : Option (Dict ConfFile)

-- How far an atomic write that fails has come: the directory may be there for it, and the file may
-- be renamed into its place, if the directory cannot be synced or the mode not be set.
pub data Progress : Type 0 where
  untouched made_dir renamed : Progress

-- What `remove_dir_all` leaves if it fails: `conf/` may be there with the files of a test.
pub record Remains : Type 0 where
  pub keeps_state : Bool
  pub keeps_snapshots : Bool
  pub keeps_conf : Option (Text → Bool)

-- What the file system grants: the lock, listing, whole writes of the two state files and whole
-- removals (`can_write`), directories and modes at `conf/` (`can_conf`), and on top of that a file
-- there with its new content (`can_hold`). `reaches`, `leaves` and `remains` say what an atomic
-- write, a `std::fs::write` (of a path and a text) and a removal leave behind if they fail.
pub record Disk : Type 0 where
  pub dirs : Dict InstanceDir
  pub can_lock : Bool
  pub can_write : Bool
  pub can_conf : Bool
  pub can_list : Bool
  pub can_hold : Text → Text → Bool
  pub reaches : Progress
  pub leaves : Text → Text → Option Text
  pub remains : Remains

abbrev pub empty_dir : InstanceDir
empty_dir = record { state = absent; snapshots = absent; conf = none }

abbrev pub or_empty : Option InstanceDir → InstanceDir
or_empty none = empty_dir
or_empty (some d) = d

-- The directory of an instance; one that is not there has no files.
abbrev pub dir_of : Disk → Text → InstanceDir
dir_of disk name = or_empty (lookup name disk.dirs)

abbrev pub read_state : Text → File InstanceState → Result InstanceState
read_state name absent = err (instance_not_found name)
read_state name unreadable = err io
read_state name malformed = err config_malformed
read_state name (holds s) = ok s

unfoldable pub load_under : Disk → Text → Result InstanceState
load_under disk name = do validate_name name; read_state name (dir_of disk name).state

abbrev is_there {ℓ} : {A : Type ℓ} → File A → Bool
is_there absent = false
is_there unreadable = true
is_there malformed = true
is_there (holds _) = true

unfoldable pub exists_under : Disk → Text → Bool
exists_under disk name = is_there (dir_of disk name).state

unfoldable pub list_under : Disk → Result (List Text)
list_under disk = if disk.can_list then ok (keys disk.dirs) else err io

abbrev pub with_dir : Disk → Text → InstanceDir → Disk
with_dir disk name d = record disk { dirs = insert name d disk.dirs }

-- A fallible step that may change the disk.
abbrev pub DiskStep {ℓ} : Type ℓ → Type ℓ
DiskStep A = Result A × Disk

abbrev pub reached : Progress → Disk → Text → InstanceDir → Disk
reached untouched disk name d = disk
reached made_dir disk name d = with_dir disk name (dir_of disk name)
reached renamed disk name d = with_dir disk name d

-- `atomic_write` and the mode, with the directory as it is afterwards.
abbrev pub written : Disk → Text → InstanceDir → DiskStep (Unit {0})
written disk name d =
    if disk.can_write
    then (ok tt, with_dir disk name d)
    else (err io, reached disk.reaches disk name d)

abbrev pub with_state : Disk → InstanceState → InstanceDir
with_state disk s = record (dir_of disk s.instance.name) { state = holds s }

write_state : Disk → InstanceState → DiskStep (Unit {0})
write_state disk s = written disk s.instance.name (with_state disk s)

abbrev after_check : Result (Unit {0}) → Disk → DiskStep (Unit {0}) → DiskStep (Unit {0})
after_check (ok _) disk next = next
after_check (err e) disk next = (err e, disk)

unfoldable pub save_under : Disk → InstanceState → DiskStep (Unit {0})
unfolding write_state
save_under disk s = after_check (validate_name s.instance.name) disk (write_state disk s)

-- The closure's answer is saved; the state is answered if that succeeds.
abbrev pub save_changed : Disk → Result InstanceState → DiskStep InstanceState
save_changed disk (err e) = (err e, disk)
save_changed disk (ok t) = ((save_under disk t).0 >>= (λ _. ok t), (save_under disk t).1)

-- The rest of `update_under`, after the load.
unfoldable pub update_loaded :
    Disk → (InstanceState → Result InstanceState) → Result InstanceState → DiskStep InstanceState
update_loaded disk f (err e) = (err e, disk)
update_loaded disk f (ok s) = save_changed disk (f s)

-- The lock is held from the load to the save.
unfoldable pub update_under :
    Disk → Text → (InstanceState → Result InstanceState) → DiskStep InstanceState
unfolding update_loaded
update_under disk name f =
    if disk.can_lock then update_loaded disk f (load_under disk name) else (err io, disk)

unfoldable pub save_under_locked : Disk → InstanceState → DiskStep (Unit {0})
save_under_locked disk s = if disk.can_lock then save_under disk s else (err io, disk)

abbrev read_snapshots : File (List SnapshotRecord) → Result (List SnapshotRecord)
read_snapshots absent = ok []
read_snapshots unreadable = err io
read_snapshots malformed = err config_malformed
read_snapshots (holds l) = ok l

-- `SnapshotsFile::load_for`
unfoldable pub load_for : Disk → Text → Result (List SnapshotRecord)
load_for disk name = do validate_name name; read_snapshots (dir_of disk name).snapshots

write_snapshots : Disk → Text → List SnapshotRecord → DiskStep (Unit {0})
write_snapshots disk name l =
    if exists_under disk name
    then written disk name (record (dir_of disk name) { snapshots = holds l })
    else (err (instance_not_found name), disk)

-- `SnapshotsFile::save_for`
unfoldable pub save_for : Disk → Text → List SnapshotRecord → DiskStep (Unit {0})
unfolding write_snapshots
save_for disk name l = after_check (validate_name name) disk (write_snapshots disk name l)

-- `remove_dir_all` of an instance's directory
unfoldable pub remove_dir : Disk → Text → Disk
remove_dir disk name = record disk { dirs = erase name disk.dirs }

abbrev pub kept_file {ℓ} : {A : Type ℓ} → Bool → File A → File A
kept_file true f = f
kept_file false f = absent

abbrev pub kept_conf : Option (Text → Bool) → Option (Dict ConfFile) → Option (Dict ConfFile)
kept_conf none files = none
kept_conf (some keeps) none = none
kept_conf (some keeps) (some files) = some (select (λ f. keeps f.0) files)

abbrev pub remains_of : Remains → InstanceDir → InstanceDir
remains_of r d = record {
  state = kept_file r.keeps_state d.state;
  snapshots = kept_file r.keeps_snapshots d.snapshots;
  conf = kept_conf r.keeps_conf d.conf;
}

-- `remove_dir_all` that fails.
abbrev pub partly_removed : Disk → Text → InstanceDir → Disk
partly_removed disk name d = with_dir disk name (remains_of disk.remains d)
