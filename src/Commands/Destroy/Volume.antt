-- ===== src/Commands/Destroy/Volume.antt =====
-- A destroyed instance's data volume is removed.
use mathlib.Core.Path.{subst}
use pg_forge_cli.Base.{
  sym, Bool, true, false, ◌&&◌, ◌≡◌, refl, Text, text_eq, text_eq_refl, any, arith,
}
use pg_forge_cli.Domain.Instance.{Instance, volume_name}
use pg_forge_cli.Error.{Result, ok, err}
use pg_forge_cli.State.Store.{InstanceState, load_under}
use pg_forge_cli.Docker.Engine.{Step, removing_volume, Engine, World, continue, writing, only_if}
use pg_forge_cli.Commands.Destroy.{
  DestroyArgs, wipe, remove_parts, remove_state, destroy_loaded, destroy,
}
use pg_forge_cli.Commands.Destroy.Order.{destroy-loaded, remove_all}

abbrev pub removes : Text → Step → Bool
removes v (removing_volume u) = text_eq u v
removes v _ = false

remove_parts-removes :
    (docker : Engine) (i : Instance) (w : World)
    → (remove_parts docker i w).0 ≡ ok tt
    → any (removes (volume_name i)) (remove_parts docker i w).1.steps ≡ true
unfolding remove_parts any
remove_parts-removes docker i w h = ground (arith, h, text_eq_refl (volume_name i))

-- What comes behind the parts succeeds only if they went.
after-parts :
    (name : Text) (v : Text) (p : Result (Unit {0}) × World)
    → (p.0 ≡ ok tt → any (removes v) p.1.steps ≡ true)
    → (continue p (λ _. writing (remove_state name))).0 ≡ ok tt
    → any (removes v) (continue p (λ _. writing (remove_state name))).1.steps ≡ true
after-parts name v (ok tt, w) g h = g refl
after-parts name v (err e, w) g h = cc

remove_all-removes :
    (docker : Engine) (args : DestroyArgs) (i : Instance) (p : Result (Unit {0}) × World)
    → (remove_all docker args i p).0 ≡ ok tt
    → any (removes (volume_name i)) (remove_all docker args i p).1.steps ≡ true
remove_all-removes docker args i (ok tt, w) h =
    after-parts args.name (volume_name i) (remove_parts docker i w)
      (remove_parts-removes docker i w) h
remove_all-removes docker args i (err e, w) h = cc

-- Success comes with the removal of the volume.
abbrev Removes : Text → Result (Unit {0}) × World → Type 0
Removes v p = p.0 ≡ ok tt → any (removes v) p.1.steps ≡ true

destroy_loaded-Removes :
    (docker : Engine) (args : DestroyArgs) (i : Instance) (w : World)
    → Removes (volume_name i) (destroy_loaded docker args i w)
unfolding destroy_loaded
destroy_loaded-Removes docker args i w =
    remove_all-removes docker args i
      (only_if (args.delete_backups && i.backup_enabled) (wipe docker i) w)

-- If destroying an instance that loads succeeds, the removal of its data volume was called.
pub destroy-removes :
    (docker : Engine) (args : DestroyArgs) (w : World) (st : InstanceState)
    → load_under w.disk args.name ≡ ok st
    → (destroy docker args w).0 ≡ ok tt
    → any (removes (volume_name st.instance)) (destroy docker args w).1.steps ≡ true
destroy-removes docker args w st e =
    subst (Removes (volume_name st.instance)) (sym (destroy-loaded docker args w st e))
      (destroy_loaded-Removes docker args st.instance w)
