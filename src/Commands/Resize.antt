-- ===== src/Commands/Resize.antt =====
-- commands/resize.rs: another preset, and the old one again if the rotation fails.
pub mod Rollback
use pg_forge_cli.Base.{Text}
use pg_forge_cli.Domain.Preset.{Preset, preset_eq}
use pg_forge_cli.Domain.Instance.{validate_name}
use pg_forge_cli.Error.{Result, ok, anyhow, already_on_preset}
use pg_forge_cli.State.Store.{InstanceState, load_under, update_under}
use pg_forge_cli.Docker.Engine.{
  ◌>>=◌, ◌>>◌, Action, done, fail, reading, writing, only_if, ignore, rescue,
}
use pg_forge_cli.Commands.Host.{Host}
use pg_forge_cli.Commands.Rotate.{rotate}

abbrev pub with_preset : Preset → InstanceState → Result InstanceState
with_preset p s = ok (record s { instance = record s.instance { preset = p } })

abbrev pub set_preset : Text → Preset → Action InstanceState
set_preset name p = writing (λ disk. update_under disk name (with_preset p))

-- The rotation, and the way back.
unfoldable pub rotate_or_back : Host → Text → Preset → Action (Unit {0})
rotate_or_back host name old =
    rescue (rotate host name) (λ e. ignore (set_preset name old) >> fail e)

unfoldable pub resize_loaded : Host → Text → Preset → Preset → Action (Preset × Preset)
resize_loaded host name new old = do
  only_if (preset_eq old new) (fail (anyhow (already_on_preset name old)))
  set_preset name new
  rotate_or_back host name old
  done (old, new)

unfoldable pub resize : Host → Text → Preset → Action (Preset × Preset)
resize host name new = do
  reading (λ _. validate_name name)
  state ← reading (λ disk. load_under disk name)
  resize_loaded host name new state.instance.preset
