-- ===== src/Commands/Upgrade/OldVolume.antt =====
-- An upgrade never removes the volume that it upgrades from.
use mathlib.Core.Path.{subst}
use pg_forge_cli.Base.{
  if◌then◌else◌, ℕ, Bool, true, false, ◌≡◌, refl, Text, text_eq, all, leb, arith,
}
use pg_forge_cli.Base.Int.{ℤ, is_zero}
use pg_forge_cli.Domain.Instance.{Instance, volume_name, validate_name}
use pg_forge_cli.Error.{Result, ok, err, anyhow, not_an_upgrade}
use pg_forge_cli.Config.{GlobalConfig}
use pg_forge_cli.State.Store.{InstanceState, load_under, update_under, bind_mount_mode}
use pg_forge_cli.Docker.Engine.{
  Engine, World, Action, ◌>>=◌, continue, fail, skip, writing, log, only_if, building,
}
use pg_forge_cli.Commands.Snapshot.{
  Clock, SnapshotArgs, run_with_engine, back_up, check_backup, record_snapshot, append_record,
  stamp,
}
use pg_forge_cli.Commands.Host.{Host, container_named}
use pg_forge_cli.Commands.Rotate.{remove_old, start_anew}
use pg_forge_cli.Commands.Rotate.Volume.{remove_old-spares, start_anew-spares}
use pg_forge_cli.Commands.Kept.{IsPassing, bind-IsPassing, only_if-IsPassing, log-IsPassing}
use pg_forge_cli.Commands.Kept.Waits.{spares}
use pg_forge_cli.Commands.Upgrade.{
  new_volume, pre_snapshot, upgrade_image, write_script, run_pg_upgrade, remove_one_shot, give_up,
  upgraded, switch_over, upgrade_built, upgrade_loaded, upgrade_with_engine, upgrade,
}

-- No call so far removes the volume.
abbrev pub Spared : Text → World → Type 0
Spared v w = all (spares (λ spec. true) v) w.steps ≡ true

module _ (v : Text) where
  abbrev IsSparing {ℓ} : {A : Type ℓ} → Action A → Type 0
  IsSparing m = IsPassing (spares (λ spec. true) v) m

  snapshot-IsSparing :
      (engine : Engine) (clock : Clock) (args : SnapshotArgs)
      → IsSparing (run_with_engine engine clock args)
  unfolding run_with_engine back_up check_backup record_snapshot append_record stamp all spares
  snapshot-IsSparing engine clock args w h = ground (arith, h)

  pre_snapshot-IsSparing :
      (engine : Engine) (clock : Clock) (i : Instance) (to : ℕ)
      → IsSparing (pre_snapshot engine clock i to)
  unfolding pre_snapshot
  pre_snapshot-IsSparing engine clock i to =
      bind-IsPassing (spares (λ spec. true) v) (run_with_engine engine clock _) _
        (snapshot-IsSparing engine clock _) (λ _ w h. h)

  run_pg_upgrade-IsSparing :
      (engine : Engine) (i : Instance) (to : ℕ) → IsSparing (run_pg_upgrade engine i to)
  unfolding run_pg_upgrade write_script all spares
  run_pg_upgrade-IsSparing engine i to w h = ground (arith, h)

  give_up-IsSparing :
      (engine : Engine) (i : Instance) (to : ℕ) (code : ℤ)
      → text_eq (new_volume i to) v ≡ false
      → IsSparing (give_up engine i to code)
  unfolding give_up all spares
  give_up-IsSparing engine i to code other w h = ground (arith, h, other)

  remove_one_shot-IsSparing :
      (engine : Engine) (i : Instance) (to : ℕ) → IsSparing (remove_one_shot engine i to)
  unfolding all spares
  remove_one_shot-IsSparing engine i to w h = ground (arith, h)

  recreate-IsSparing :
      (engine : Engine) (global : GlobalConfig) (s : InstanceState)
      → IsSparing (start_anew bind_mount_mode engine global s.instance >>= λ _. skip)
  recreate-IsSparing engine global s =
      bind-IsPassing (spares (λ spec. true) v) (start_anew bind_mount_mode engine global s.instance)
        (λ _. skip)
        (start_anew-spares (λ spec. true) v bind_mount_mode engine global s.instance refl)
        (λ _ w h. h)

  switch_over-IsSparing :
      (engine : Engine) (global : GlobalConfig) (name : Text) (i : Instance) (to : ℕ)
      → IsSparing (switch_over engine global name i to)
  unfolding switch_over
  switch_over-IsSparing engine global name i to w h =
      bind-IsPassing (spares (λ spec. true) v)
        (writing (λ disk. update_under disk name (upgraded i to))) recreate (λ _ k. k)
        (recreate-IsSparing engine global) (remove_one_shot engine i to w).1
        (remove_one_shot-IsSparing engine i to w h)
    where
      recreate : InstanceState → Action (Unit {0})
      recreate s = start_anew bind_mount_mode engine global s.instance >>= λ _. skip

  by_exit_code-IsSparing :
      (engine : Engine) (global : GlobalConfig) (name : Text) (i : Instance) (to : ℕ) (b : Bool)
      (code : ℤ)
      → text_eq (new_volume i to) v ≡ false
      → IsSparing (if b then switch_over engine global name i to else give_up engine i to code)
  by_exit_code-IsSparing engine global name i to true code other =
      switch_over-IsSparing engine global name i to
  by_exit_code-IsSparing engine global name i to false code other =
      give_up-IsSparing engine i to code other

  upgrade_built-IsSparing :
      (engine : Engine) (global : GlobalConfig) (name : Text) (i : Instance) (to : ℕ)
      → text_eq (new_volume i to) v ≡ false
      → IsSparing (upgrade_built engine global name i to)
  unfolding upgrade_built
  upgrade_built-IsSparing engine global name i to other =
      bind-IsPassing (spares (λ spec. true) v) (remove_old engine (container_named i.name)) _
        (remove_old-spares (λ spec. true) v engine (container_named i.name))
        (λ _.
          bind-IsPassing (spares (λ spec. true) v) (run_pg_upgrade engine i to) _
            (run_pg_upgrade-IsSparing engine i to)
            (λ code. by_exit_code-IsSparing engine global name i to (is_zero code) code other))

  upgrade_loaded-IsSparing :
      (engine : Engine) (clock : Clock) (global : GlobalConfig) (name : Text) (i : Instance)
      (to : ℕ)
      → text_eq (new_volume i to) v ≡ false
      → IsSparing (upgrade_loaded engine clock global name i to)
  unfolding upgrade_loaded spares
  upgrade_loaded-IsSparing engine clock global name i to other =
      bind-IsPassing (spares (λ spec. true) v)
        (only_if (leb to i.pg_version) (fail (anyhow (not_an_upgrade to i.pg_version)))) _
        (only_if-IsPassing (spares (λ spec. true) v) (leb to i.pg_version) _ (λ w h. h))
        (λ _.
          bind-IsPassing (spares (λ spec. true) v)
            (only_if i.backup_enabled (pre_snapshot engine clock i to)) _
            (only_if-IsPassing (spares (λ spec. true) v) i.backup_enabled _
              (pre_snapshot-IsSparing engine clock i to))
            (λ _.
              bind-IsPassing (spares (λ spec. true) v)
                (log (building (upgrade_image i to))
                  (λ h. engine.build_image h (upgrade_image i to)))
                _
                (log-IsPassing (spares (λ spec. true) v) (building (upgrade_image i to))
                  (λ h. engine.build_image h (upgrade_image i to)) refl)
                (λ _. upgrade_built-IsSparing engine global name i to other)))

ok_same : (s t : InstanceState) → ok t ≡ ok s → s ≡ t
ok_same s t e = cc

module _ (clock : Clock) (name : Text) (to : ℕ) (w : World) (s : InstanceState)
    (loads : load_under w.disk name ≡ ok s)
    (other : text_eq (new_volume s.instance to) (volume_name s.instance) ≡ false)
    (kept : Spared (volume_name s.instance) w) where
  upgrade_read :
      (engine : Engine) (global : GlobalConfig) (r : Result InstanceState)
      → r ≡ ok s
      → Spared
          (volume_name s.instance)
          (continue (r, w) (λ t. upgrade_loaded engine clock global name t.instance to)).1
  upgrade_read engine global (ok t) e =
      upgrade_loaded-IsSparing (volume_name s.instance) engine clock global name t.instance to
        (subst (λ z. text_eq (new_volume z.instance to) (volume_name s.instance) ≡ false)
          (ok_same s t e) other)
        w kept
  upgrade_read engine global (err x) e = kept

  upgrade_checked :
      (engine : Engine) (global : GlobalConfig) (r : Result (Unit {0}))
      → Spared
          (volume_name s.instance)
          (continue
            (r, w)
            (λ _ v.
              continue
                (load_under v.disk name, v)
                (λ t. upgrade_loaded engine clock global name t.instance to))).1
  upgrade_checked engine global (ok u) = upgrade_read engine global (load_under w.disk name) loads
  upgrade_checked engine global (err x) = kept

  upgrade_connected :
      (global : GlobalConfig) (r : Result Engine)
      → Spared
          (volume_name s.instance)
          (continue (r, w) (λ engine. upgrade_with_engine engine clock global name to)).1
  unfolding upgrade_with_engine
  upgrade_connected global (ok engine) = upgrade_checked engine global (validate_name name)
  upgrade_connected global (err x) = kept

  upgrade_configured :
      (host : Host) (r : Result GlobalConfig)
      → Spared
          (volume_name s.instance)
          (continue
            (r, w)
            (λ global v.
              continue
                (host.connect, v)
                (λ engine. upgrade_with_engine engine clock global name to))).1
  upgrade_configured host (ok global) = upgrade_connected global host.connect
  upgrade_configured host (err x) = kept

  -- Of an instance that loads and whose volume is not named as the new one would be: if no call so
  -- far has removed its volume, no call of an upgrade does, whether the upgrade succeeds or not.
  pub upgrade-Spared :
      (host : Host) → Spared (volume_name s.instance) (upgrade host clock name to w).1
  unfolding upgrade
  upgrade-Spared host = upgrade_configured host host.global
