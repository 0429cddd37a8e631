-- ===== src/State/Same.antt =====
-- What writing under `conf/` leaves alone: every instance's state and snapshots.
use pg_forge_cli.Base.{
  if◌then◌else◌, Bool, true, false, ◌≡◌, refl, ◌∙◌, Text, text_eq_iff, Option, none, some, arith,
}
use pg_forge_cli.Base.Dict.{Dict, lookup-insert}
use pg_forge_cli.Error.{Result}
use pg_forge_cli.State.Store.{
  Progress, untouched, made_dir, renamed, Mode, ConfFile, Disk, DiskStep, dir_of, load_under,
}
use pg_forge_cli.State.Conf.{
  with_conf, conf_reached, set_mode, create_secret_dir, write_with, write_plain, write_into,
  set_permissions, remove_conf,
}

pub record SameFiles (d e : Disk) : Type 0 where
  pub states : (n : Text) → (dir_of e n).state ≡ (dir_of d n).state
  pub snapshots : (n : Text) → (dir_of e n).snapshots ≡ (dir_of d n).snapshots
  pub lock : e.can_lock ≡ d.can_lock
  pub write : e.can_write ≡ d.can_write

pub SameFiles-refl : (d : Disk) → SameFiles d d
SameFiles-refl d = record { states = λ n. refl; snapshots = λ n. refl; lock = refl; write = refl }

pub SameFiles-trans : (d e f : Disk) → SameFiles d e → SameFiles e f → SameFiles d f
SameFiles-trans d e f h k = record {
  states = λ n. k.states n ∙ h.states n;
  snapshots = λ n. k.snapshots n ∙ h.snapshots n;
  lock = k.lock ∙ h.lock;
  write = k.write ∙ h.write;
}

-- What loading a state answers is then the same.
pub load_under-SameFiles : (d e : Disk) (n : Text) → SameFiles d e → load_under e n ≡ load_under d n
unfolding load_under
load_under-SameFiles d e n h = ground (arith, h.states n)

with_conf-SameFiles :
    (d : Disk) (name : Text) (files : Option (Dict ConfFile)) → SameFiles d (with_conf d name files)
with_conf-SameFiles d name files = record {
  states = λ n. ground (
    arith,
    lookup-insert n name (record (dir_of d name) { conf = files }) d.dirs,
    text_eq_iff name n,
  );
  snapshots = λ n. ground (
    arith,
    lookup-insert n name (record (dir_of d name) { conf = files }) d.dirs,
    text_eq_iff name n,
  );
  lock = refl;
  write = refl;
}

-- Whatever becomes of `conf/`, if anything.
abbrev guarded : Bool → DiskStep (Unit {0}) → DiskStep (Unit {0}) → DiskStep (Unit {0})
guarded b written refused = if b then written else refused

guarded-SameFiles :
    (b : Bool) (r : Result (Unit {0})) (other : DiskStep (Unit {0})) (d : Disk) (name : Text)
    (files : Option (Dict ConfFile))
    → SameFiles d other.1
    → SameFiles d (guarded b (r, with_conf d name files) other).1
guarded-SameFiles true r other d name files h = with_conf-SameFiles d name files
guarded-SameFiles false r other d name files h = h

conf_reached-SameFiles :
    (p : Progress) (d : Disk) (name : Text) (made files : Option (Dict ConfFile))
    → SameFiles d (conf_reached p d name made files)
conf_reached-SameFiles untouched d name made files = SameFiles-refl d
conf_reached-SameFiles made_dir d name made files = with_conf-SameFiles d name made
conf_reached-SameFiles renamed d name made files = with_conf-SameFiles d name files

-- A write to the disk that is one of these.
abbrev pub IsConfWrite : (Disk → DiskStep (Unit {0})) → Type 0
IsConfWrite f = (d : Disk) → SameFiles d (f d).1

pub create_secret_dir-SameFiles : (name : Text) → IsConfWrite (create_secret_dir name)
unfolding create_secret_dir
create_secret_dir-SameFiles name d =
    guarded-SameFiles d.can_conf _ _ d name _ (conf_reached-SameFiles d.reaches d name _ _)

pub write_with-SameFiles :
    (mode : Mode) (name path text : Text) → IsConfWrite (write_with mode name path text)
unfolding write_with
write_with-SameFiles mode name path text d =
    guarded-SameFiles _ _ _ d name _ (conf_reached-SameFiles d.reaches d name _ _)

pub write_plain-SameFiles : (name path text : Text) → IsConfWrite (write_plain name path text)
unfolding write_plain write_into
write_plain-SameFiles name path text d = from_conf (dir_of d name).conf
  where
    from_conf : (files : Option (Dict ConfFile)) → SameFiles d (write_into name path text files d).1
    from_conf none = SameFiles-refl d
    from_conf (some files) = guarded-SameFiles _ _ _ d name _ (with_conf-SameFiles d name _)

pub set_permissions-SameFiles :
    (mode : Mode) (name path : Text) → IsConfWrite (set_permissions mode name path)
unfolding set_permissions set_mode
set_permissions-SameFiles mode name path d = from_conf (dir_of d name).conf
  where
    from_conf : (files : Option (Dict ConfFile)) → SameFiles d (set_mode mode name path files d).1
    from_conf none = SameFiles-refl d
    from_conf (some files) = guarded-SameFiles _ _ _ d name _ (SameFiles-refl d)

pub remove_conf-SameFiles : (name : Text) → IsConfWrite (remove_conf name)
unfolding remove_conf
remove_conf-SameFiles name d =
    guarded-SameFiles d.can_conf _ _ d name none (with_conf-SameFiles d name _)
