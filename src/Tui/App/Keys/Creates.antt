-- ===== src/Tui/App/Keys/Creates.antt =====
-- What one key does to the queue of creations.
use pg_forge_cli.Base.{◌≡◌, refl, Option, none, some, arith}
use pg_forge_cli.Tui.Types.{KeyCode, char, enter, esc, down, Modal, actions_menu, destroy_options}
use pg_forge_cli.Tui.App.{AppState, Env, Session}
use pg_forge_cli.Tui.App.Openers.Effects.{open_create-Quiet, open_time-Quiet, open_snapshot-rows}
use pg_forge_cli.Tui.App.Openers.{open_snapshot_for_selected, open_time_for_selected}
use pg_forge_cli.Tui.App.Pickers.{Action, nothing, submit, confirm_yes, confirm_no}
use pg_forge_cli.Tui.App.Submit.{confirm_modal, close, on_app}
use pg_forge_cli.Tui.App.Submit.Effects.{CreatesValid, submit_modal-valid}
use pg_forge_cli.Tui.App.Keys.{
  press_menu, menu_key, modal_key, act, set_modal, handle_modal_key, press, global_key, handle_key,
}
use pg_forge_cli.Tui.App.Keys.Menu.{Always, menu_key-Always}

act-creates :
    (env : Env) (a : Action) (s : Session) → CreatesValid s.app → CreatesValid (act env a s).app
unfolding act
act-creates env nothing s h = h
act-creates env submit s h = submit_modal-valid env s h
act-creates env confirm_yes s h = unfold confirm_modal in ground arith
act-creates env confirm_no s h = unfold confirm_modal in h

CreatesValid-of_eq :
    (s t : AppState) → t.pending_creates ≡ s.pending_creates → CreatesValid s → CreatesValid t
CreatesValid-of_eq s t e h = rw e h

menu-creates :
    (k : KeyCode) (s : Session)
    → CreatesValid s.app
    → Always (λ f. CreatesValid (f (on_app close s)).app) (menu_key k)
menu-creates k s h =
    menu_key-Always (λ f. CreatesValid (f (on_app close s)).app) snap time
      (λ f quiet. CreatesValid-of_eq s.app (f (close s.app)) (quiet (close s.app)).creates h) k
  where
    snap : CreatesValid (open_snapshot_for_selected (close s.app))
    snap =
        CreatesValid-of_eq s.app (open_snapshot_for_selected (close s.app))
          (open_snapshot-rows (close s.app)).2 h

    time : CreatesValid (open_time_for_selected (on_app close s)).app
    time =
        CreatesValid-of_eq s.app (open_time_for_selected (on_app close s)).app
          (open_time-Quiet (on_app close s)).creates h

press_menu-creates :
    (o : Option (Session → Session)) (s : Session)
    → CreatesValid s.app
    → Always (λ f. CreatesValid (f (on_app close s)).app) o
    → CreatesValid (press_menu o s).app
press_menu-creates none s valid h = valid
press_menu-creates (some f) s valid h = h

handle_modal_key-creates :
    (env : Env) (k : KeyCode) (m : Modal) (s : Session)
    → CreatesValid s.app
    → CreatesValid (handle_modal_key env k m s).app
unfolding handle_modal_key
handle_modal_key-creates env esc m s h = h
handle_modal_key-creates env k (actions_menu shown) s h =
    press_menu-creates (menu_key k) s h (menu-creates k s h)
handle_modal_key-creates env k (destroy_options n b) s h = h
handle_modal_key-creates env k m s h =
    act-creates env (modal_key env k m).1 (on_app (set_modal (modal_key env k m).0) s) h

global_key-creates :
    (env : Env) (k : KeyCode) (s : AppState)
    → (global_key env k s).pending_creates ≡ s.pending_creates
unfolding global_key
global_key-creates env (char c) s = ground (arith, (open_create-Quiet s env).creates)
global_key-creates env enter s = ground arith
global_key-creates env down s = ground arith
global_key-creates env _ s = refl

press-creates :
    (env : Env) (k : KeyCode) (o : Option Modal) (s : Session)
    → CreatesValid s.app
    → CreatesValid (press env k o s).app
press-creates env k none s h =
    CreatesValid-of_eq s.app (global_key env k s.app) (global_key-creates env k s.app) h
press-creates env k (some m) s h = handle_modal_key-creates env k m s h

-- No key puts an invalid request into the queue of creations.
pub handle_key-creates :
    (env : Env) (k : KeyCode) (s : Session)
    → CreatesValid s.app
    → CreatesValid (handle_key env k s).app
handle_key-creates env k s h = unfold handle_key in press-creates env k s.app.modal s h
