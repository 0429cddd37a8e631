-- ===== src/Tui/App/Openers.antt =====
-- tui/app.rs, `open_*_for_selected` and the create wizard.
pub mod Effects
use pg_forge_cli.Base.{
  ℕ, zero, suc, ◌/◌, ◌%◌, ◌^◌, true, false, Text, codes, List, map, contains, Option, none, some,
  if◌then◌else◌,
}
use pg_forge_cli.Base.Dict.{lookup}
use pg_forge_cli.Domain.Preset.{from_str, next_preset, small}
use pg_forge_cli.Error.{ok, err}
use pg_forge_cli.State.Store.{load_under}
use pg_forge_cli.Tui.TextField.{TextField, empty_field}
use pg_forge_cli.Tui.Types.{
  InstanceSummary, InstanceStatus, SnapshotsView, snapshot, clone_as, upgrade_to, restore_as,
  confirm, rotate_op, ask_rotate, schedule_edit, resize_to, destroy_options, snapshots_of,
  create_form, checking_update, info,
}
use pg_forge_cli.Tui.App.{
  AppState, Env, Session, selected_name, selected_instance, show_modal, push_op,
}

-- An action on the selected instance; with none selected nothing happens.
abbrev for_selected : (Text → AppState → AppState) → AppState → AppState
for_selected f s = elim (selected_name s) [ none ↦ s | some n ↦ f n s ]

unfoldable pub open_snapshot_for_selected : AppState → AppState
unfolding selected_name
open_snapshot_for_selected =
    for_selected λ n s. elim (lookup n s.in_progress) [ none ↦ push_op n snapshot s | some _ ↦ s ]

unfoldable pub open_clone_for_selected : AppState → AppState
unfolding selected_name
open_clone_for_selected = for_selected λ n. show_modal (clone_as n empty_field)

-- The current hour is read from the state root.
unfoldable pub open_time_for_selected : Session → Session
unfolding selected_name
open_time_for_selected s = elim (selected_name s.app) [
  | none ↦ s
  | some n ↦ elim (load_under s.disk n) [
    | err e ↦ s
    | ok state ↦
        (let hour = state.instance.snapshot_hour in
          record s { app = show_modal (schedule_edit n hour hour) s.app })
  ]
]

unfoldable pub open_preset_for_selected : AppState → AppState
unfolding selected_instance
open_preset_for_selected s = elim (selected_instance s) [
  | none ↦ s
  | some i ↦ elim (from_str i.preset_label) [
    | none ↦ s
    | some current ↦ show_modal (resize_to i.name current (next_preset current)) s
  ]
]

unfoldable pub trigger_self_update : Env → AppState → AppState
trigger_self_update env s = if s.pending_self_update then s else record s {
  pending_self_update = true;
  flash = some (record { msg = checking_update; kind = info; at = env.instant });
}

-- `(s / 60) as u32`
abbrev minutes_of : Option InstanceStatus → Option ℕ
minutes_of none = none
minutes_of (some st) = elim st.uptime_seconds [ none ↦ none | some n ↦ some (n / 60 % 2 ^ 32) ]

abbrev earliest_of : Option SnapshotsView → Option Text
earliest_of none = none
earliest_of (some v) = v.pitr.earliest

unfoldable pub open_restore_for_selected : AppState → AppState
unfolding selected_name
open_restore_for_selected = for_selected λ n s.
    show_modal
      (restore_as (record {
        source = n;
        as_input = empty_field;
        minutes_ago = 0;
        focus = 0;
        pitr_earliest = earliest_of (lookup n s.snapshots);
        uptime_cap_min = minutes_of (lookup n s.statuses);
      }))
      s

unfoldable pub open_rotate_for_selected : AppState → AppState
unfolding selected_name
open_rotate_for_selected = for_selected λ n. show_modal (confirm (rotate_op n) (ask_rotate n))

unfoldable pub open_destroy_for_selected : AppState → AppState
unfolding selected_name
open_destroy_for_selected = for_selected λ n. show_modal (destroy_options n false)

unfoldable pub open_upgrade_for_selected : AppState → AppState
unfolding selected_name
open_upgrade_for_selected = for_selected λ n. show_modal (upgrade_to n empty_field)

unfoldable pub open_snapshots_history_for_selected : AppState → AppState
unfolding selected_name
open_snapshots_history_for_selected =
    for_selected
      λ n s. elim (lookup n s.snapshots) [ none ↦ s | some v ↦ show_modal (snapshots_of n v) s ]

-- `for _ in 0..16`: the sample `i` was drawn last; another is drawn while the name is in use.
fresh_name : (ℕ → Text) → List Text → ℕ → ℕ → Text
fresh_name sample existing zero i = sample i
fresh_name sample existing (suc left) i =
    let next = fresh_name sample existing left (suc i) in
    if contains existing (sample i) then next else sample i

abbrev pub row_name : InstanceSummary → Text
row_name r = r.name

abbrev filled : Text → TextField
filled s = record { buf = s; cursor = 0 }

unfoldable pub open_create_wizard : Env → AppState → AppState
unfolding fresh_name
open_create_wizard env s =
    let name = fresh_name env.random_name (map row_name s.instances) 16 0 in
    show_modal
      (create_form (record {
        name = filled name;
        app_user = filled (codes "app");
        pg_version = filled (codes "18");
        preset = small;
        no_backup = true;
        retain_days = 30;
        snapshot_hour = some 3;
        focus = 0;
        generated_password = env.random_password 0;
        generated_pgbackrest_password = env.random_password 1;
      }))
      s
