-- ===== src/Commands/Destroy/Order.antt =====
-- In which order an instance is destroyed.
use pg_forge_cli.Base.{
  Bool, true, false, not, ◌&&◌, ◌||◌, Text, List, [], ◌∷◌, none, some, any, arith, ◌≡◌, refl,
}
use pg_forge_cli.Base.Int.{is_zero}
use pg_forge_cli.Domain.Instance.{Instance, volume_name, validate_name}
use pg_forge_cli.Error.{Result, ok, err, PgForgeError}
use pg_forge_cli.State.Store.{Disk, InstanceState, load_under}
use pg_forge_cli.Docker.Engine.{
  Step, executed, piped, stopping, removing_container, removing_volume, Engine, World, continue,
  writing, only_if,
}
use pg_forge_cli.Commands.Destroy.{
  DestroyArgs, wipe, remove_parts, remove_state, destroy_loaded, destroy,
}

-- The calls that stop the container or lose data.
unfoldable pub is_destructive : Step → Bool
is_destructive (stopping c) = true
is_destructive (removing_container c) = true
is_destructive (removing_volume v) = true
is_destructive _ = false

-- An `exec` that came back with 0.
unfoldable pub has_succeeded : Step → Bool
has_succeeded (executed c argv none) = false
has_succeeded (executed c argv (some exit)) = is_zero exit
has_succeeded _ = false

-- Before each destructive call (the newest call is the head) an `exec` has succeeded.
unfoldable pub is_guarded : List Step → Bool
unfolding is_destructive has_succeeded
is_guarded [] = true
is_guarded (s ∷ older) = is_guarded older && (not (is_destructive s) || any has_succeeded older)

wipe-guarded :
    (docker : Engine) (i : Instance) (w : World)
    → is_guarded w.steps ≡ true
    → (is_guarded (wipe docker i w).1.steps ≡ true)
      × ((wipe docker i w).0 ≡ ok tt → any has_succeeded (wipe docker i w).1.steps ≡ true)
unfolding wipe is_guarded any has_succeeded is_destructive
wipe-guarded docker i w h = ground (arith, h)

remove_parts-guarded :
    (docker : Engine) (i : Instance) (w : World)
    → is_guarded w.steps ≡ true
    → any has_succeeded w.steps ≡ true
    → is_guarded (remove_parts docker i w).1.steps ≡ true
unfolding remove_parts is_guarded any has_succeeded is_destructive
remove_parts-guarded docker i w h g = ground (arith, h, g)

-- No `exec` at all.
unfoldable pub has_no_exec : List Step → Bool
has_no_exec [] = true
has_no_exec (executed c argv exit ∷ older) = false
has_no_exec (piped c argv stdin exit ∷ older) = false
has_no_exec (_ ∷ older) = has_no_exec older

pub remove_parts-disk :
    (docker : Engine) (i : Instance) (w : World) → (remove_parts docker i w).1.disk ≡ w.disk
unfolding remove_parts
remove_parts-disk docker i w = ground arith

remove_parts-no_exec :
    (docker : Engine) (i : Instance) (w : World)
    → has_no_exec w.steps ≡ true
    → has_no_exec (remove_parts docker i w).1.steps ≡ true
unfolding remove_parts has_no_exec
remove_parts-no_exec docker i w h = ground (arith, h)

wipe-disk : (docker : Engine) (i : Instance) (w : World) → (wipe docker i w).1.disk ≡ w.disk
unfolding wipe
wipe-disk docker i w = ground arith

pub wiped-disk :
    (docker : Engine) (i : Instance) (w : World) (b : Bool)
    → (only_if b (wipe docker i) w).1.disk ≡ w.disk
wiped-disk docker i w true = wipe-disk docker i w
wiped-disk docker i w false = refl

load_under-named :
    (disk : Disk) (name : Text) (st : InstanceState)
    → load_under disk name ≡ ok st
    → validate_name name ≡ ok tt
unfolding load_under validate_name
load_under-named disk name st e = ground (arith, e)

-- A run from a loaded instance is the rest of the handler.
pub destroy-loaded :
    (docker : Engine) (args : DestroyArgs) (w : World) (st : InstanceState)
    → load_under w.disk args.name ≡ ok st
    → destroy docker args w ≡ destroy_loaded docker args st.instance w
unfolding destroy
destroy-loaded docker args w st e = rw (load_under-named w.disk args.name st e) (rw e refl)

-- The parts go, and then the directory, if what came before succeeded.
abbrev pub remove_all :
    Engine → DestroyArgs → Instance → Result (Unit {0}) × World → Result (Unit {0}) × World
remove_all docker args i p =
    continue p (λ _ w. continue (remove_parts docker i w) (λ _. writing (remove_state args.name)))

write_state-steps :
    (name : Text) (p : Result (Unit {0}) × World)
    → (continue p (λ _. writing (remove_state name))).1.steps ≡ p.1.steps
write_state-steps name (ok _, w) = refl
write_state-steps name (err e, w) = refl

remove_all-guarded :
    (docker : Engine) (args : DestroyArgs) (i : Instance) (p : Result (Unit {0}) × World)
    → is_guarded p.1.steps ≡ true
    → (p.0 ≡ ok tt → any has_succeeded p.1.steps ≡ true)
    → is_guarded (remove_all docker args i p).1.steps ≡ true
remove_all-guarded docker args i (err e, w) h g = h
remove_all-guarded docker args i (ok tt, w) h g =
    rw (write_state-steps args.name (remove_parts docker i w))
      (remove_parts-guarded docker i w h (g refl))

-- With `--delete-backups` on an instance that loads and has backups, if every destructive call so
-- far came after a successful `exec`, so does every one of this command: nothing is stopped or
-- removed before an `exec` has ended with 0.
pub destroy-guarded :
    (docker : Engine) (args : DestroyArgs) (w : World) (st : InstanceState)
    → load_under w.disk args.name ≡ ok st
    → args.delete_backups ≡ true
    → st.instance.backup_enabled ≡ true
    → is_guarded w.steps ≡ true
    → is_guarded (destroy docker args w).1.steps ≡ true
unfolding destroy_loaded wipe remove_parts volume_name
destroy-guarded docker args w st e flag backed h = rw (destroy-loaded docker args w st e) (
    rw flag (
      rw backed (
        let (kept, wiped) = wipe-guarded docker st.instance w h in
        remove_all-guarded docker args st.instance (wipe docker st.instance w) kept wiped)))

remove_all-no_exec :
    (docker : Engine) (args : DestroyArgs) (i : Instance) (w : World)
    → has_no_exec w.steps ≡ true
    → has_no_exec (remove_all docker args i (ok tt, w)).1.steps ≡ true
remove_all-no_exec docker args i w h =
    rw (write_state-steps args.name (remove_parts docker i w)) (remove_parts-no_exec docker i w h)

-- What holds of a rejected run and of the rest of the handler holds of the handler.
pub destroy-cases {κ} :
    (docker : Engine) (args : DestroyArgs) (w : World) (P : Result (Unit {0}) × World → Type κ)
    → ((e : PgForgeError) → P (err e, w))
    → ((i : Instance) → P (destroy_loaded docker args i w))
    → P (destroy docker args w)
unfolding destroy
destroy-cases docker args w P rejected loaded = named (validate_name args.name)
  where
    read :
        (r : Result InstanceState)
        → P (continue (r, w) (λ st. destroy_loaded docker args st.instance))
    read (ok st) = loaded st.instance
    read (err e) = rejected e

    named :
        (r : Result (Unit {0}))
        → P (
            continue
              (r, w)
              (λ _ v.
                continue
                  (load_under v.disk args.name, v)
                  (λ st. destroy_loaded docker args st.instance)))
    named (ok tt) = read (load_under w.disk args.name)
    named (err e) = rejected e

-- Without `--delete-backups`, if no `exec` was called before, none is called at all.
pub destroy-no_exec :
    (docker : Engine) (args : DestroyArgs) (w : World)
    → args.delete_backups ≡ false
    → has_no_exec w.steps ≡ true
    → has_no_exec (destroy docker args w).1.steps ≡ true
unfolding destroy_loaded
destroy-no_exec docker args w flag h =
    destroy-cases docker args w (λ p. has_no_exec p.1.steps ≡ true) (λ e. h)
      (λ i. rw flag (remove_all-no_exec docker args i w h))
