-- ===== src/State/Conf.antt =====
-- util/fs.rs and std::fs over `conf/` of an instance, with what failures leave behind.
use pg_forge_cli.Base.{◌&&◌, Text, [], Option, none, some, if◌then◌else◌}
use pg_forge_cli.Base.Dict.{Dict, lookup, insert}
use pg_forge_cli.Error.{ok, err, io}
use pg_forge_cli.State.Store.{
  Progress, untouched, made_dir, renamed, kept_conf, Mode, default_mode, ConfFile, Disk, dir_of,
  with_dir, DiskStep,
}

abbrev or_no_files : Option (Dict ConfFile) → Dict ConfFile
or_no_files none = []
or_no_files (some files) = files

abbrev pub with_conf : Disk → Text → Option (Dict ConfFile) → Disk
with_conf disk name files = with_dir disk name (record (dir_of disk name) { conf = files })

abbrev some_conf : Disk → Text → Option (Dict ConfFile)
some_conf disk name = some (or_no_files (dir_of disk name).conf)

-- The directory may be there although its mode could not be set.
abbrev pub conf_reached :
    Progress → Disk → Text → Option (Dict ConfFile) → Option (Dict ConfFile) → Disk
conf_reached untouched disk name made files = disk
conf_reached made_dir disk name made files = with_conf disk name made
conf_reached renamed disk name made files = with_conf disk name files

-- `create_dir_all` of `conf/` or of a directory under it; files stay.
unfoldable pub create_secret_dir : Text → Disk → DiskStep (Unit {0})
create_secret_dir name disk =
    let made = some_conf disk name in
    if disk.can_conf
    then (ok tt, with_conf disk name made)
    else (err io, conf_reached disk.reaches disk name made made)

abbrev put : Text → ConfFile → Option (Dict ConfFile) → Option (Dict ConfFile)
put path file files = some (insert path file (or_no_files files))

-- `atomic_write` of a path under `conf/`, which creates the directory, and the mode, which a file
-- that was only renamed does not have.
unfoldable pub write_with : Mode → Text → Text → Text → Disk → DiskStep (Unit {0})
write_with mode name path text disk =
    let files = (dir_of disk name).conf in
    if disk.can_conf && disk.can_hold path text
    then (ok tt, with_conf disk name (put path (record { mode = mode; content = text }) files))
    else (
      err io,
      conf_reached disk.reaches disk name (some_conf disk name)
          (put path (record { mode = default_mode; content = text }) files),
    )

-- A file that is there keeps its mode.
abbrev kept_mode : Option ConfFile → Mode
kept_mode none = default_mode
kept_mode (some file) = file.mode

abbrev put_part : Text → Mode → Option Text → Dict ConfFile → Option (Dict ConfFile)
put_part path mode none files = some files
put_part path mode (some text) files =
    some (insert path (record { mode = mode; content = text }) files)

unfoldable pub write_into : Text → Text → Text → Option (Dict ConfFile) → Disk → DiskStep (Unit {0})
write_into name path text none disk = (err io, disk)
write_into name path text (some files) disk =
    let mode = kept_mode (lookup path files) in
    if disk.can_conf && disk.can_hold path text
    then (ok tt, with_conf disk name (put_part path mode (some text) files))
    else (err io, with_conf disk name (put_part path mode (disk.leaves path text) files))

-- `std::fs::write`, which needs the directory, and may leave a part of the text if it fails.
unfoldable pub write_plain : Text → Text → Text → Disk → DiskStep (Unit {0})
unfolding write_into
write_plain name path text disk = write_into name path text (dir_of disk name).conf disk

abbrev moded : Mode → Text → Option ConfFile → Dict ConfFile → Option (Dict ConfFile)
moded mode path none files = some files
moded mode path (some file) files = some (insert path (record file { mode = mode }) files)

unfoldable pub set_mode : Mode → Text → Text → Option (Dict ConfFile) → Disk → DiskStep (Unit {0})
set_mode mode name path none disk = (err io, disk)
set_mode mode name path (some files) disk =
    if disk.can_conf
    then (ok tt, with_conf disk name (moded mode path (lookup path files) files))
    else (err io, disk)

-- `set_permissions`
unfoldable pub set_permissions : Mode → Text → Text → Disk → DiskStep (Unit {0})
unfolding set_mode
set_permissions mode name path disk = set_mode mode name path (dir_of disk name).conf disk

-- `remove_dir_all` of `conf/`
unfoldable pub remove_conf : Text → Disk → DiskStep (Unit {0})
remove_conf name disk =
    if disk.can_conf
    then (ok tt, with_conf disk name none)
    else (err io, with_conf disk name (kept_conf disk.remains.keeps_conf (dir_of disk name).conf))
