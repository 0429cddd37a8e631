-- ===== src/Tui/App/Keys.antt =====
-- tui/app.rs, `handle_key` and `handle_modal_key`.
mod Menu
pub mod Queue
pub mod Rows
pub mod Creates
use pg_forge_cli.Base.{
  ℕ, ◌+◌, ◌-◌, Bool, true, false, not, Text, codes, List, [], ◌∷◌, ◌++◌, Option, none, some, length,
  ltb, ◌==◌, any, if◌then◌else◌,
}
use pg_forge_cli.Domain.Preset.{next_preset, prev_preset}
use pg_forge_cli.Tui.Types.{
  KeyCode, char, enter, esc, left, right, up, down, Modal, actions_menu, clone_as, upgrade_to,
  restore_as, confirm, error_detail, create_form, help, resize_to, schedule_edit, destroy_options,
  PendingDestructiveOp, Prompt, destroy_op, ask_destroy, ask_destroy_with_backups,
  warn_delete_backups, actions_moved, info,
}
use pg_forge_cli.Tui.App.{AppState, Env, Session, selected_name, show_modal}
use pg_forge_cli.Tui.App.Openers.{
  open_snapshot_for_selected, open_clone_for_selected, open_rotate_for_selected,
  open_preset_for_selected, open_time_for_selected, open_restore_for_selected,
  open_destroy_for_selected, open_upgrade_for_selected, open_snapshots_history_for_selected,
  open_create_wizard,
}
use pg_forge_cli.Tui.App.Pickers.{
  Action, nothing, submit, confirm_yes, confirm_no, edit_field, restore_key, create_key, hour_key,
}
use pg_forge_cli.Tui.App.Submit.{submit_modal, confirm_modal, close, on_app}

-- The keys of the actions menu, each with its opener.
abbrev menu : List (ℕ × (Session → Session))
menu =
    (b's', on_app open_snapshot_for_selected)
    ∷ (b'c', on_app open_clone_for_selected)
    ∷ (b'R', on_app open_rotate_for_selected)
    ∷ (b'p', on_app open_preset_for_selected)
    ∷ (b't', open_time_for_selected)
    ∷ (b'r', on_app open_restore_for_selected)
    ∷ (b'd', on_app open_destroy_for_selected)
    ∷ (b'u', on_app open_upgrade_for_selected)
    ∷ (b'e', on_app open_snapshots_history_for_selected)
    ∷ []

entry_of : ℕ → List (ℕ × (Session → Session)) → Option (Session → Session)
entry_of c [] = none
entry_of c ((d, f) ∷ rest) = if c == d then some f else entry_of c rest

unfoldable pub menu_key : KeyCode → Option (Session → Session)
unfolding entry_of
menu_key (char c) = entry_of c menu
menu_key _ = none

unfoldable pub destroy_key : KeyCode → Text → Bool → Modal
destroy_key (char c) name delete_backups =
    destroy_options name (if c == 32 then not delete_backups else delete_backups)
destroy_key enter name delete_backups =
    confirm (destroy_op name delete_backups)
      (if delete_backups then ask_destroy_with_backups name else ask_destroy name)
destroy_key _ name delete_backups = destroy_options name delete_backups

-- `D` turns a confirmation of a destroy into one that deletes the backups too.
abbrev with_backups : PendingDestructiveOp → Prompt → Modal
with_backups (destroy_op name false) prompt =
    confirm (destroy_op name true) (warn_delete_backups name)
with_backups op prompt = confirm op prompt

unfoldable pub confirm_key : KeyCode → PendingDestructiveOp → Prompt → Modal × Action
confirm_key (char c) op prompt =
    if c == b'y'
    then (confirm op prompt, confirm_yes)
    else if c == b'n'
    then (confirm op prompt, confirm_no)
    else if c == b'D'
    then (with_backups op prompt, nothing)
    else (confirm op prompt, nothing)
confirm_key enter op prompt = (confirm op prompt, confirm_yes)
confirm_key _ op prompt = (confirm op prompt, nothing)

abbrev name_action : KeyCode → Action
name_action enter = submit
name_action _ = nothing

abbrev resize_key : KeyCode → Text → Modal → Modal → Modal → Modal × Action
resize_key (char c) name same next previous = (if c == 32 then next else same, nothing)
resize_key right name same next previous = (next, nothing)
resize_key left name same next previous = (previous, nothing)
resize_key enter name same next previous = (same, submit)
resize_key _ name same next previous = (same, nothing)

abbrev help_key : KeyCode → Option Modal
help_key (char c) = if c == b'?' then none else some help
help_key _ = some help

-- The modal after a key, and the action that the key asks for.
unfoldable pub modal_key : Env → KeyCode → Modal → Option Modal × Action
unfolding edit_field restore_key create_key hour_key confirm_key
modal_key env k (clone_as source input) =
    (some (clone_as source (edit_field k input)), name_action k)
modal_key env k (upgrade_to source input) =
    (some (upgrade_to source (edit_field k input)), name_action k)
modal_key env k (restore_as f) =
    let (f', action) = restore_key env k f in (some (restore_as f'), action)
modal_key env k (confirm op prompt) = let (m, action) = confirm_key k op prompt in (some m, action)
modal_key env k (create_form f) =
    let (f', action) = create_key k f in (some (create_form f'), action)
modal_key env k (resize_to name current new) =
    let (m, action) =
      resize_key k name (resize_to name current new) (resize_to name current (next_preset new))
        (resize_to name current (prev_preset new)) in
    (some m, action)
modal_key env k (schedule_edit name current new) =
    let (new', action) = hour_key k new in (some (schedule_edit name current new'), action)
modal_key env k help = (help_key k, nothing)
modal_key env k m = (some m, nothing)

unfoldable pub act : Env → Action → Session → Session
act env nothing s = s
act env submit s = submit_modal env s
act env confirm_yes s = on_app (confirm_modal true) s
act env confirm_no s = on_app (confirm_modal false) s

abbrev set_modal : Option Modal → AppState → AppState
set_modal m s = record s { modal = m }

-- The menu closes before the opener runs.
abbrev press_menu : Option (Session → Session) → Session → Session
press_menu none s = s
press_menu (some open_modal) s = open_modal (on_app close s)

-- `Esc` closes every modal; the menu and the destroy options come before the other modals.
unfoldable pub handle_modal_key : Env → KeyCode → Modal → Session → Session
unfolding menu_key destroy_key modal_key act
handle_modal_key env esc m s = on_app close s
handle_modal_key env k (actions_menu name) s = press_menu (menu_key k) s
handle_modal_key env k (destroy_options name delete_backups) s =
    on_app (show_modal (destroy_key k name delete_backups)) s
handle_modal_key env k m s =
    let (m', action) = modal_key env k m in act env action (on_app (set_modal m') s)

abbrev move_down : AppState → AppState
move_down s =
    if ltb (s.selected + 1) (length s.instances) then record s { selected = s.selected + 1 } else s

abbrev move_up : AppState → AppState
move_up s = record s { selected = s.selected - 1 }

abbrev question : AppState → AppState
question s = elim s.last_op_error [
  | none ↦ show_modal help s
  | some e ↦ show_modal (error_detail e.msg) s
]

abbrev is_moved : ℕ → Bool
is_moved c = any (λ d. d == c) (codes "scRptrdDue")

abbrev global_char : Env → ℕ → AppState → AppState
global_char env c s =
    if c == b'j'
    then move_down s
    else if c == b'k'
    then move_up s
    else if c == b'q'
    then record s { should_quit = true }
    else if is_moved c
    then record s { flash = some (record { msg = actions_moved; kind = info; at = s.now }) }
    else if c == b'?'
    then question s
    else if c == b'n'
    then open_create_wizard env s
    else if c == b'a'
    then (elim (selected_name s) [ none ↦ s | some n ↦ show_modal (actions_menu n) s ])
    else s

-- The keys when no modal is open.
unfoldable pub global_key : Env → KeyCode → AppState → AppState
unfolding selected_name any
global_key env (char c) s = global_char env c s
global_key env down s = move_down s
global_key env up s = move_up s
global_key env esc s = record s { last_op_error = none }
global_key env enter s = elim (selected_name s) [
  | none ↦ s
  | some n ↦ record s { pending_clipboard = s.pending_clipboard ++ n ∷ [] }
]
global_key env _ s = s

abbrev press : Env → KeyCode → Option Modal → Session → Session
press env k none s = on_app (global_key env k) s
press env k (some m) s = handle_modal_key env k m s

unfoldable pub handle_key : Env → KeyCode → Session → Session
unfolding handle_modal_key global_key
handle_key env k s = press env k s.app.modal s
