-- ===== src/Tui/App/Keys/Rows.antt =====
-- What one key does to the selection.
use pg_forge_cli.Base.{◌<◌, max, ◌≡◌, refl, Option, none, some, length, arith}
use pg_forge_cli.Tui.Types.{
  KeyCode, char, enter, esc, up, down, Modal, actions_menu, destroy_options,
}
use pg_forge_cli.Tui.App.{AppState, Env, Session}
use pg_forge_cli.Tui.App.Openers.Effects.{open_create-Quiet, open_time-Quiet, open_snapshot-rows}
use pg_forge_cli.Tui.App.Openers.{open_snapshot_for_selected, open_time_for_selected}
use pg_forge_cli.Tui.App.Pickers.{Action, nothing, submit, confirm_yes, confirm_no}
use pg_forge_cli.Tui.App.Submit.{confirm_modal, close, on_app}
use pg_forge_cli.Tui.App.Submit.Effects.{submit_modal-rows}
use pg_forge_cli.Tui.App.Keys.{
  press_menu, menu_key, modal_key, act, set_modal, handle_modal_key, press, global_key, handle_key,
}
use pg_forge_cli.Tui.App.Keys.Menu.{Always, menu_key-Always}

-- The selection points into the list, or is 0 while that is empty.
abbrev pub InList : AppState → Type 0
InList s = s.selected < max 1 (length s.instances)

abbrev SameRows : AppState → AppState → Type 0
SameRows s t = (t.instances ≡ s.instances) × (t.selected ≡ s.selected)

InList-of_SameRows : (s t : AppState) → SameRows s t → InList s → InList t
InList-of_SameRows s t (rows, selection) h = ground arith

act-rows : (env : Env) (a : Action) (s : Session) → SameRows s.app (act env a s).app
unfolding act
act-rows env nothing s = (refl, refl)
act-rows env submit s = submit_modal-rows env s
act-rows env confirm_yes s = unfold confirm_modal in ground arith
act-rows env confirm_no s = unfold confirm_modal in (refl, refl)

menu-rows :
    (k : KeyCode) (s : Session) → Always (λ f. SameRows s.app (f (on_app close s)).app) (menu_key k)
menu-rows k s =
    menu_key-Always (λ f. SameRows s.app (f (on_app close s)).app) snap time
      (λ f quiet. ((quiet (close s.app)).rows, (quiet (close s.app)).selection)) k
  where
    snap : SameRows s.app (open_snapshot_for_selected (close s.app))
    snap = let (rows, selection, _) = open_snapshot-rows (close s.app) in (rows, selection)

    time : SameRows s.app (open_time_for_selected (on_app close s)).app
    time = let q = open_time-Quiet (on_app close s) in (q.rows, q.selection)

press_menu-rows :
    (o : Option (Session → Session)) (s : Session)
    → Always (λ f. SameRows s.app (f (on_app close s)).app) o
    → SameRows s.app (press_menu o s).app
press_menu-rows none s h = (refl, refl)
press_menu-rows (some f) s h = h

handle_modal_key-rows :
    (env : Env) (k : KeyCode) (m : Modal) (s : Session)
    → SameRows s.app (handle_modal_key env k m s).app
unfolding handle_modal_key
handle_modal_key-rows env esc m s = (refl, refl)
handle_modal_key-rows env k (actions_menu shown) s = press_menu-rows (menu_key k) s (menu-rows k s)
handle_modal_key-rows env k (destroy_options n b) s = (refl, refl)
handle_modal_key-rows env k m s =
    act-rows env (modal_key env k m).1 (on_app (set_modal (modal_key env k m).0) s)

global_key-InList :
    (env : Env) (k : KeyCode) (s : AppState) → InList s → InList (global_key env k s)
unfolding global_key
global_key-InList env (char c) s h =
    ground (arith, (open_create-Quiet s env).rows, (open_create-Quiet s env).selection)
global_key-InList env enter s h = ground arith
global_key-InList env down s h = ground arith
global_key-InList env up s h = ground arith
global_key-InList env _ s h = h

press-InList :
    (env : Env) (k : KeyCode) (o : Option Modal) (s : Session)
    → InList s.app
    → InList (press env k o s).app
press-InList env k none s h = global_key-InList env k s.app h
press-InList env k (some m) s h =
    InList-of_SameRows s.app (handle_modal_key env k m s).app (handle_modal_key-rows env k m s) h

pub handle_key-InList :
    (env : Env) (k : KeyCode) (s : Session) → InList s.app → InList (handle_key env k s).app
handle_key-InList env k s h = unfold handle_key in press-InList env k s.app.modal s h
