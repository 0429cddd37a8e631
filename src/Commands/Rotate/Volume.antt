-- ===== src/Commands/Rotate/Volume.antt =====
-- A rotation keeps the data: it removes no volume, and mounts the instance's own.
use mathlib.Core.Path.{subst}
use pg_forge_cli.Base.{[], ◌∷◌, ◌&&◌}
use pg_forge_cli.Base.{text_eq_refl, ℕ, Bool, true, false, ◌≡◌, refl, Text, text_eq, all, arith}
use pg_forge_cli.Domain.Instance.{volume_name, Instance, validate_name}
use pg_forge_cli.Config.{GlobalConfig}
use pg_forge_cli.Error.{Result, ok, err}
use pg_forge_cli.State.Store.{Mode, secret_mode, InstanceState, load_under}
use pg_forge_cli.Docker.Engine.{
  continue, creating, CreateContainerSpec, Engine, World, log, starting, awaiting_running,
}
use pg_forge_cli.Commands.Host.{Host, container_named}
use pg_forge_cli.Commands.Create.{
  instance_spec, write_postgres, write_backup_files, prepare_engine, make_container,
}
use pg_forge_cli.Commands.Create.Bootstrap.{boot}
use pg_forge_cli.Commands.Rotate.{
  remove_old, rewrite_configs, recreate_spec, ensure_role, start_anew, rotate_loaded,
  rotate_with_engine, rotate,
}
use pg_forge_cli.Commands.Kept.{IsPassing, bind-IsPassing, only_if-IsPassing, log-IsPassing}
use pg_forge_cli.Commands.Kept.Waits.{spares, wait_for_pg_ready-spares}

module _ (f : CreateContainerSpec → Bool) (v : Text) where
  pub remove_old-spares :
      (engine : Engine) (container : Text) → IsPassing (spares f v) (remove_old engine container)
  unfolding remove_old all spares
  remove_old-spares engine container w h = ground (arith, h)

  ensure_role-spares :
      (engine : Engine) (id : Text) (i : Instance)
      → IsPassing (spares f v) (ensure_role engine id i)
  unfolding ensure_role all spares
  ensure_role-spares engine id i w h = ground (arith, h)

  rewrite_configs-spares :
      (mode : Mode) (global : GlobalConfig) (i : Instance)
      → IsPassing (spares f v) (rewrite_configs mode global i)
  unfolding rewrite_configs write_postgres write_backup_files
  rewrite_configs-spares mode global i w h = ground (arith, h)

  prepare_engine-spares :
      (engine : Engine) (version : ℕ) → IsPassing (spares f v) (prepare_engine engine version)
  unfolding prepare_engine all spares
  prepare_engine-spares engine version w h = ground (arith, h)

  boot-spares :
      (engine : Engine) (id : Text) (seconds : ℕ) → IsPassing (spares f v) (boot engine id seconds)
  unfolding boot spares
  boot-spares engine id seconds =
      bind-IsPassing (spares f v) (log (starting id) (λ h. engine.start_container h id)) _
        (log-IsPassing (spares f v) (starting id) (λ h. engine.start_container h id) refl)
        (λ _.
          bind-IsPassing (spares f v)
            (log (awaiting_running id) (λ h. engine.wait_for_container_running h id 30)) _
            (log-IsPassing (spares f v) (awaiting_running id)
              (λ h. engine.wait_for_container_running h id 30) refl)
            (λ _. wait_for_pg_ready-spares f v engine id seconds))

  pub start_anew-spares :
      (mode : Mode) (engine : Engine) (global : GlobalConfig) (i : Instance)
      → f (recreate_spec i) ≡ true
      → IsPassing (spares f v) (start_anew mode engine global i)
  unfolding start_anew spares
  start_anew-spares mode engine global i allowed =
      bind-IsPassing (spares f v) (rewrite_configs mode global i) _
        (rewrite_configs-spares mode global i)
        (λ _.
          bind-IsPassing (spares f v) (prepare_engine engine i.pg_version) _
            (prepare_engine-spares engine i.pg_version)
            (λ _.
              bind-IsPassing (spares f v) (make_container engine (recreate_spec i)) _
                (log-IsPassing (spares f v) (creating (recreate_spec i))
                  (λ h. engine.create_container h (recreate_spec i)) allowed)
                (λ id.
                  bind-IsPassing (spares f v) (boot engine id 60) _ (boot-spares engine id 60)
                    (λ _ w h. h))))

  rotate_loaded-spares :
      (engine : Engine) (global : GlobalConfig) (i : Instance)
      → f (recreate_spec i) ≡ true
      → IsPassing (spares f v) (rotate_loaded engine global i)
  unfolding rotate_loaded
  rotate_loaded-spares engine global i allowed =
      bind-IsPassing (spares f v) (remove_old engine (container_named i.name)) _
        (remove_old-spares engine (container_named i.name))
        (λ _.
          bind-IsPassing (spares f v) (start_anew secret_mode engine global i) _
            (start_anew-spares secret_mode engine global i allowed)
            (λ id.
              only_if-IsPassing (spares f v) i.backup_enabled (ensure_role engine id i)
                (ensure_role-spares engine id i)))

-- A container that has the data volume as its only one.
unfoldable pub mounts_only : Text → CreateContainerSpec → Bool
mounts_only v spec = elim spec.volumes [
  | [] ↦ false
  | m ∷ others ↦ text_eq m.volume_name v && elim others [ [] ↦ true | n ∷ more ↦ false ]
]

mounts_only-recreate_spec : (i : Instance) → mounts_only (volume_name i) (recreate_spec i) ≡ true
unfolding mounts_only instance_spec
mounts_only-recreate_spec i = ground (arith, text_eq_refl (volume_name i))

ok_same : (s t : InstanceState) → ok t ≡ ok s → s ≡ t
ok_same s t e = cc

-- Every call keeps the data of the instance: none removes its volume, and a container is only
-- created with that volume alone.
abbrev pub KeepsData : Instance → World → Type 0
KeepsData i w = all (spares (mounts_only (volume_name i)) (volume_name i)) w.steps ≡ true

passes_loaded :
    (engine : Engine) (global : GlobalConfig) (w : World) (s : InstanceState)
    (r : Result InstanceState)
    → r ≡ ok s
    → KeepsData s.instance w
    → KeepsData s.instance (continue (r, w) (λ t. rotate_loaded engine global t.instance)).1
passes_loaded engine global w s (ok t) e h =
    rotate_loaded-spares (mounts_only (volume_name s.instance)) (volume_name s.instance) engine
      global t.instance
      (subst (λ z. mounts_only (volume_name s.instance) (recreate_spec z.instance) ≡ true)
        (ok_same s t e) (mounts_only-recreate_spec s.instance))
      w h
passes_loaded engine global w s (err x) e h = h

module _ (name : Text) (w : World) (s : InstanceState) (loads : load_under w.disk name ≡ ok s)
    (kept : KeepsData s.instance w) where
  rotate_checked :
      (engine : Engine) (global : GlobalConfig) (r : Result (Unit {0}))
      → KeepsData s.instance
          (continue
            (r, w)
            (λ _ v.
              continue (load_under v.disk name, v) (λ t. rotate_loaded engine global t.instance))).1
  rotate_checked engine global (ok u) =
      passes_loaded engine global w s (load_under w.disk name) loads kept
  rotate_checked engine global (err x) = kept

  rotate_connected :
      (global : GlobalConfig) (r : Result Engine)
      → KeepsData s.instance (continue (r, w) (λ engine. rotate_with_engine name engine global)).1
  unfolding rotate_with_engine
  rotate_connected global (ok engine) = rotate_checked engine global (validate_name name)
  rotate_connected global (err x) = kept

  rotate_configured :
      (host : Host) (r : Result GlobalConfig)
      → KeepsData s.instance
          (continue
            (r, w)
            (λ global v.
              continue (host.connect, v) (λ engine. rotate_with_engine name engine global))).1
  rotate_configured host (ok global) = rotate_connected global host.connect
  rotate_configured host (err x) = kept

  -- Of an instance that loads, if every call so far has kept its data, every call of a rotation
  -- does: none removes its volume, and each container is created with that volume alone.
  pub rotate-KeepsData : (host : Host) → KeepsData s.instance (rotate host name w).1
  unfolding rotate
  rotate-KeepsData host = rotate_configured host host.global
