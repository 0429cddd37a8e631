-- ===== src/Commands/Destroy/Left.antt =====
-- What a destroy leaves of the state root.
use mathlib.Core.Path.{subst}
use pg_forge_cli.Base.{
  Bool, true, false, ◌&&◌, ◌≡◌, refl, ◌⊎◌, inl, inr, Bool-cases, Text, text_eq, text_eq_refl,
  text_eq_iff, [], ◌∷◌, select, ap, Option, none, some, ◌∙◌, arith, if◌then◌else◌,
}
use pg_forge_cli.Base.Dict.{Dict, lookup, lookup-erase, lookup-insert}
use pg_forge_cli.Error.{PgForgeError, Result, ok, err, io}
use pg_forge_cli.Domain.Instance.{Instance}
use pg_forge_cli.State.Store.{
  File, absent, ConfFile, InstanceDir, Disk, Remains, remove_dir, remains_of, partly_removed,
  kept_conf, kept_file,
}
use pg_forge_cli.Docker.Engine.{Engine, World, continue, writing, only_if}
use pg_forge_cli.Commands.Destroy.{
  DestroyArgs, wipe, remove_parts, remove_under, remove_state, destroy_loaded, destroy,
}
use pg_forge_cli.Commands.Destroy.Order.{remove_all, remove_parts-disk, wiped-disk, destroy-cases}

-- A file is as it was or gone.
abbrev pub IsRest {ℓ} : {A : Type ℓ} → File A → File A → Type ℓ
IsRest f g = (g ≡ f) ⊎ (g ≡ absent)

abbrev conf_file : Text → Option (Dict ConfFile) → Option ConfFile
conf_file path none = none
conf_file path (some files) = lookup path files

-- Every file of the directory is as it was or gone.
pub record IsPart (d rest : InstanceDir) : Type 0 where
  pub state : IsRest d.state rest.state
  pub snapshots : IsRest d.snapshots rest.snapshots
  pub conf :
      (path : Text)
      → (conf_file path rest.conf ≡ conf_file path d.conf) ⊎ (conf_file path rest.conf ≡ none)

kept_file-IsRest {ℓ} : {A : Type ℓ} (b : Bool) (f : File A) → IsRest f (kept_file b f)
kept_file-IsRest true f = inl refl
kept_file-IsRest false f = inr refl

lookup-kept :
    (path : Text) (keeps : Text → Bool)
    → keeps path ≡ true
    → (fs : Dict ConfFile) → lookup path (select (λ f. keeps f.0) fs) ≡ lookup path fs
unfolding lookup select
lookup-kept path keeps kept [] = refl
lookup-kept path keeps kept ((j, f) ∷ fs) = elim (Bool-cases (text_eq j path)) [
  | inl same ↦ ground (arith, same, kept, (text_eq_iff j path).0 same)
  | inr other ↦ ground (arith, other, lookup-kept path keeps kept fs)
]

lookup-removed :
    (path : Text) (keeps : Text → Bool)
    → keeps path ≡ false
    → (fs : Dict ConfFile) → lookup path (select (λ f. keeps f.0) fs) ≡ none
unfolding lookup select
lookup-removed path keeps removed [] = refl
lookup-removed path keeps removed ((j, f) ∷ fs) = elim (Bool-cases (text_eq j path)) [
  | inl same ↦
      ground (arith, removed, (text_eq_iff j path).0 same, lookup-removed path keeps removed fs)
  | inr other ↦ ground (arith, other, lookup-removed path keeps removed fs)
]

kept_conf-rest :
    (keeps : Option (Text → Bool)) (files : Option (Dict ConfFile)) (path : Text)
    → (conf_file path (kept_conf keeps files) ≡ conf_file path files)
      ⊎ (conf_file path (kept_conf keeps files) ≡ none)
kept_conf-rest none files path = inr refl
kept_conf-rest (some keeps) none path = inr refl
kept_conf-rest (some keeps) (some files) path = selected files
  where
    selected :
        (fs : Dict ConfFile)
        → (lookup path (select (λ f. keeps f.0) fs) ≡ lookup path fs)
          ⊎ (lookup path (select (λ f. keeps f.0) fs) ≡ none)
    selected fs = elim (Bool-cases (keeps path)) [
      | inl kept ↦ inl (lookup-kept path keeps kept fs)
      | inr removed ↦ inr (lookup-removed path keeps removed fs)
    ]

remains_of-IsPart : (r : Remains) (d : InstanceDir) → IsPart d (remains_of r d)
remains_of-IsPart r d = record {
  state = kept_file-IsRest r.keeps_state d.state;
  snapshots = kept_file-IsRest r.keeps_snapshots d.snapshots;
  conf = kept_conf-rest r.keeps_conf d.conf;
}

-- The instance's directory after a removal that failed halfway.
pub record IsPartlyRemoved (name : Text) (before after : Disk) : Type 0 where
  pub refused : before.can_write ≡ false
  pub dir : InstanceDir
  pub was : lookup name before.dirs ≡ some dir
  pub rest : InstanceDir
  pub is : lookup name after.dirs ≡ some rest
  pub part : IsPart dir rest

abbrev pub Others : Text → Disk → Disk → Type 0
Others name before after =
    (m : Text) → text_eq name m ≡ false → lookup m after.dirs ≡ lookup m before.dirs

-- The other instances are as they were. Success: the instance is gone. Failure: the state root is
-- as it was, or the instance's directory has been removed in part.
abbrev pub Left : Text → Disk → Result (Unit {0}) × Disk → Type 0
Left name before (ok u, after) = (lookup name after.dirs ≡ none) × Others name before after
Left name before (err e, after) =
    ((after ≡ before) ⊎ IsPartlyRemoved name before after) × Others name before after

removed_dir :
    (name : Text) (disk : Disk) (d : InstanceDir)
    → lookup name disk.dirs ≡ some d
    → Left name disk (remove_under disk name (some d))
unfolding remove_dir
removed_dir name disk d there = locked disk.can_lock
  where
    removed :
        (b : Bool)
        → disk.can_write ≡ b
        → Left name disk
            (if b then (ok tt, remove_dir disk name) else (err io, partly_removed disk name d))
    removed true e = (
      ground (arith, lookup-erase name name disk.dirs, text_eq_refl name),
      λ m ne. ground (arith, lookup-erase m name disk.dirs, ne),
    )
    removed false e = (
      inr (record {
        refused = e;
        dir = d;
        was = there;
        rest = remains_of disk.remains d;
        is = ground (
          arith,
          lookup-insert name name (remains_of disk.remains d) disk.dirs,
          text_eq_refl name,
        );
        part = remains_of-IsPart disk.remains d;
      }),
      λ m ne. ground (arith, lookup-insert m name (remains_of disk.remains d) disk.dirs, ne),
    )

    locked :
        (b : Bool)
        → Left name disk (
            if b
            then (if disk.can_write
                then (ok tt, remove_dir disk name)
                else (err io, partly_removed disk name d))
            else (err io, disk))
    locked true = removed disk.can_write refl
    locked false = (inl refl, λ m ne. refl)

remove_state-Left : (name : Text) (disk : Disk) → Left name disk (remove_state name disk)
unfolding remove_state
remove_state-Left name disk = of_dir (lookup name disk.dirs) refl
  where
    of_dir :
        (o : Option InstanceDir)
        → lookup name disk.dirs ≡ o
        → Left name disk (remove_under disk name o)
    of_dir none e = (e, λ m ne. refl)
    of_dir (some d) e = removed_dir name disk d e

abbrev pub left_by : Result (Unit {0}) × World → Result (Unit {0}) × Disk
left_by p = (p.0, p.1.disk)

failed-Left :
    (name : Text) (before after : Disk) (e : PgForgeError)
    → after ≡ before
    → Left name before (err e, after)
failed-Left name before after e same = (inl same, λ m ne. ap (λ d. lookup m d.dirs) same)

after-Left :
    (name : Text) (before : Disk) (p : Result (Unit {0}) × World)
    → p.1.disk ≡ before
    → Left name before (left_by (continue p (λ _. writing (remove_state name))))
after-Left name before (ok tt, w) e =
    subst (λ d. Left name d (remove_state name w.disk)) e (remove_state-Left name w.disk)
after-Left name before (err f, w) e = failed-Left name before w.disk f e

remove_all-Left :
    (docker : Engine) (args : DestroyArgs) (i : Instance) (before : Disk)
    (p : Result (Unit {0}) × World)
    → p.1.disk ≡ before
    → Left args.name before (left_by (remove_all docker args i p))
remove_all-Left docker args i before (ok tt, w) e =
    after-Left args.name before (remove_parts docker i w) (remove_parts-disk docker i w ∙ e)
remove_all-Left docker args i before (err f, w) e = failed-Left args.name before w.disk f e

-- After destroy no other instance is touched. On success the instance's directory is gone. On
-- failure the state root is as it was; or the disk does not grant whole removals, the directory is
-- there, and each of its files is as it was or gone.
pub destroy-Left :
    (docker : Engine) (args : DestroyArgs) (w : World)
    → Left args.name w.disk (left_by (destroy docker args w))
unfolding destroy_loaded
destroy-Left docker args w =
    destroy-cases docker args w (λ p. Left args.name w.disk (left_by p))
      (λ e. failed-Left args.name w.disk w.disk e refl)
      (λ i.
        remove_all-Left docker args i w.disk
          (only_if (args.delete_backups && i.backup_enabled) (wipe docker i) w)
          (wiped-disk docker i w (args.delete_backups && i.backup_enabled)))
