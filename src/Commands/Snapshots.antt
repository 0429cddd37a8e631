-- ===== src/Commands/Snapshots.antt =====
-- commands/snapshots.rs: the listing of an instance's snapshots and its PITR window. What serde_json
-- reads from the output of `pgbackrest info` is an argument: `none` if it is no array, and of each
-- stanza its backups, if that is an array, with the two timestamps that are integers.
pub mod Civil
pub mod Window
use pg_forge_cli.Base.{
  Bool, true, false, Text, codes, List, [], ◌∷◌, Option, none, some, if◌then◌else◌,
}
use pg_forge_cli.Base.Int.{ℤ, ltb_ℤ, is_zero}
use pg_forge_cli.Error.{Result, docker, pgbackrest_info_failed}
use pg_forge_cli.Domain.Snapshot.{SnapshotRecord}
use pg_forge_cli.State.Store.{Disk, load_under, load_for}
use pg_forge_cli.Docker.Engine.{
  ◌>>=◌, ◌>>◌, Engine, ExecOutput, Action, done, fail, reading, ask, running_exec,
}
use pg_forge_cli.Commands.Host.{container_named}
use pg_forge_cli.Commands.Snapshots.Civil.{epoch_to_iso}
use pg_forge_cli.Tui.Types.{PitrWindow}

pub record Backup : Type 0 where
  pub start : Option ℤ
  pub stop : Option ℤ

abbrev pub Info : Type 0
Info = Option (List (Option (List Backup)))

unfoldable pub list_snapshots : Disk → Text → Result (List SnapshotRecord)
list_snapshots disk instance =
    pg_forge_cli.Error.◌>>=◌ (load_under disk instance) (λ _. load_for disk instance)

-- The smallest and the largest so far, joined by one more.
unfoldable pub smallest : Option ℤ → Option ℤ → Option ℤ
smallest earliest none = earliest
smallest none (some start) = some start
smallest (some cur) (some start) = some (if ltb_ℤ start cur then start else cur)

unfoldable pub largest : Option ℤ → Option ℤ → Option ℤ
largest latest none = latest
largest none (some stop) = some stop
largest (some cur) (some stop) = some (if ltb_ℤ cur stop then stop else cur)

abbrev pub Range : Type 0
Range = Option ℤ × Option ℤ

unfoldable pub over_backups : List Backup → Range → Range
unfolding smallest largest
over_backups [] r = r
over_backups (b ∷ bs) (earliest, latest) =
    over_backups bs (smallest earliest b.start, largest latest b.stop)

unfoldable pub over_stanzas : List (Option (List Backup)) → Range → Range
unfolding over_backups
over_stanzas [] r = r
over_stanzas (none ∷ stanzas) r = over_stanzas stanzas r
over_stanzas (some backups ∷ stanzas) r = over_stanzas stanzas (over_backups backups r)

abbrev in_iso : Option ℤ → Option Text
in_iso none = none
in_iso (some n) = some (epoch_to_iso n)

abbrev pub no_window : PitrWindow
no_window = record { earliest = none; latest = none }

abbrev window_of : Range → PitrWindow
window_of (earliest, latest) = record { earliest = in_iso earliest; latest = in_iso latest }

unfoldable pub parse_pitr_window : Info → PitrWindow
unfolding over_stanzas
parse_pitr_window none = no_window
parse_pitr_window (some stanzas) = window_of (over_stanzas stanzas (none, none))

abbrev info_argv : List Text
info_argv =
    codes "su"
    ∷ codes "-"
    ∷ codes "postgres"
    ∷ codes "-c"
    ∷ codes "pgbackrest --stanza=main --output=json info"
    ∷ []

abbrev read_info : (Text → Info) → ExecOutput → Action PitrWindow
read_info json out =
    if is_zero out.exit_code
    then done (parse_pitr_window (json out.stdout))
    else fail (docker (pgbackrest_info_failed out.exit_code out.stderr))

abbrev window_if : (Text → Info) → Engine → Text → Bool → Action PitrWindow
window_if json engine container true = do
  out ← running_exec container info_argv (λ h. engine.exec h container info_argv)
  read_info json out
window_if json engine container false = done no_window

abbrev ask_if : Engine → Text → Bool → Action Bool
ask_if engine container true = ask (λ h. engine.container_running h container)
ask_if engine container false = done false

-- Nothing is asked of an instance without backups.
unfoldable pub pitr_window : (Text → Info) → Engine → Text → Action PitrWindow
pitr_window json engine instance = do
  st ← reading (λ disk. load_under disk instance)
  running ← ask_if engine (container_named instance) st.instance.backup_enabled
  window_if json engine (container_named instance) running
