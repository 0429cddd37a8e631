-- ===== src/Tui/App/Keys/Queue.antt =====
-- What one key does to the queue of operations.
use pg_forge_cli.Base.{
  ℕ, ◌≡◌, refl, sym, inl, inr, Bool, true, false, not, Text, [], ◌∷◌, ◌++◌, Option, none, some,
  arith, Bool-cases, ◌==◌,
}
use mathlib.Core.Path.{subst}
use pg_forge_cli.Domain.Instance.{is_valid_name}
use pg_forge_cli.Tui.TextField.{TextField}
use pg_forge_cli.Tui.Types.{
  clone, KeyCode, char, enter, esc, down, PendingDestructiveOp, Prompt, Modal, actions_menu,
  clone_as, upgrade_to, restore_as, confirm, create_form, resize_to, schedule_edit, help,
  destroy_options,
}
use pg_forge_cli.Tui.App.{AppState, Env, Session, selected_name}
use pg_forge_cli.Tui.App.Openers.Effects.{
  SnapshotQueued, open_create-Quiet, open_time-Quiet, open_snapshot-queues,
}
use pg_forge_cli.Tui.App.Openers.{open_snapshot_for_selected, open_time_for_selected}
use pg_forge_cli.Tui.App.Pickers.{Action, nothing, submit, confirm_yes, confirm_no}
use pg_forge_cli.Tui.App.Submit.{encode, confirm_modal, submit_modal, close, on_app}
use pg_forge_cli.Tui.App.Submit.Effects.{is_clone, submit_modal-ops, submit_modal-clone}
use pg_forge_cli.Tui.App.Keys.{
  press_menu, menu_key, modal_key, act, set_modal, handle_modal_key, press, global_key, handle_key,
}
use pg_forge_cli.Tui.App.Keys.Menu.{Always, menu_key-Always}

abbrev is_confirm : Modal → Bool
is_confirm (confirm op prompt) = true
is_confirm _ = false

-- A key's answer that queues nothing by itself: no confirmation, and no submitted clone form.
abbrev plain : Option Modal × Action → Bool
plain (m, nothing) = true
plain (none, submit) = true
plain (some m, submit) = not (is_clone m)
plain (m, confirm_no) = true
plain (m, confirm_yes) = false

modal_key-plain :
    (env : Env) (k : KeyCode) (m : Modal)
    → is_clone m ≡ false
    → is_confirm m ≡ false
    → plain (modal_key env k m) ≡ true
unfolding modal_key
modal_key-plain env k (clone_as n t) h g = cc
modal_key-plain env k (confirm op prompt) h g = cc
modal_key-plain env k (upgrade_to n t) h g = ground arith
modal_key-plain env k (restore_as f) h g = ground arith
modal_key-plain env k (create_form f) h g = ground arith
modal_key-plain env k (resize_to n p q) h g = ground arith
modal_key-plain env k (schedule_edit n a b) h g = ground arith
modal_key-plain env k help h g = ground arith
modal_key-plain env k _ h g = refl

act-plain-ops :
    (env : Env) (m : Option Modal) (a : Action) (s : Session)
    → plain (m, a) ≡ true
    → (act env a (on_app (set_modal m) s)).app.pending_ops ≡ s.app.pending_ops
unfolding act
act-plain-ops env m nothing s h = refl
act-plain-ops env none submit s h = unfold submit_modal in refl
act-plain-ops env (some m) submit s h =
    submit_modal-ops env (on_app (set_modal (some m)) s) m refl (ground arith)
act-plain-ops env m confirm_no s h = unfold confirm_modal in refl
act-plain-ops env m confirm_yes s h = cc

-- The keys that confirm.
abbrev pub is_yes : KeyCode → Bool
is_yes enter = true
is_yes (char c) = c == b'y'
is_yes _ = false

-- How a key may change the queue of operations.
pub data Queued (k : KeyCode) (s t : AppState) : Type 0 where
  unchanged : t.pending_ops ≡ s.pending_ops → Queued k s t
  -- From the actions menu, and the selected instance has no operation running.
  snapshot_queued :
      (shown n : Text) → s.modal ≡ some (actions_menu shown) → SnapshotQueued s t n → Queued k s t
  -- From a clone form whose new name is valid.
  clone_queued :
      (source : Text) (input : TextField)
      → s.modal ≡ some (clone_as source input)
      → is_valid_name input.buf ≡ true
      → t.pending_ops ≡ s.pending_ops ++ (source ++ b':' ∷ input.buf, clone) ∷ []
      → Queued k s t
  -- Every other operation, from its confirmation.
  confirmed :
      (op : PendingDestructiveOp) (prompt : Prompt)
      → s.modal ≡ some (confirm op prompt)
      → is_yes k ≡ true
      → t.pending_ops ≡ s.pending_ops ++ encode op ∷ []
      → Queued k s t

SnapshotQueued-of_close :
    (s t : AppState) (n : Text) → SnapshotQueued (close s) t n → SnapshotQueued s t n
SnapshotQueued-of_close s t n q = record {
  selected = unfold selected_name in q.selected;
  idle = q.idle;
  queued = q.queued;
}

module _ (k : KeyCode) (shown : Text) (s : Session)
    (e : s.app.modal ≡ some (actions_menu shown)) where
  abbrev MenuQueued : (Session → Session) → Type 0
  MenuQueued f = Queued k s.app (f (on_app close s)).app

  snapshot_opener : MenuQueued (on_app open_snapshot_for_selected)
  snapshot_opener = elim (open_snapshot-queues (close s.app)) [
    | inl q ↦ unchanged q.ops
    | inr (n, q) ↦ snapshot_queued shown n e (SnapshotQueued-of_close s.app _ n q)
  ]

  time_opener : MenuQueued open_time_for_selected
  time_opener = unchanged (open_time-Quiet (on_app close s)).ops

  menu-Queued : Always MenuQueued (menu_key k)
  menu-Queued =
      menu_key-Always MenuQueued snapshot_opener time_opener
        (λ f quiet. unchanged (quiet (close s.app)).ops) k

module _ (env : Env) (k : KeyCode) (s : Session) where
  plain-Queued :
      (m : Modal)
      → is_clone m ≡ false
      → is_confirm m ≡ false
      → Queued k s.app
          (act env (modal_key env k m).1 (on_app (set_modal (modal_key env k m).0) s)).app
  plain-Queued m h g = unchanged (
      act-plain-ops env (modal_key env k m).0 (modal_key env k m).1 s (modal_key-plain env k m h g))

  press_menu-Queued :
      (o : Option (Session → Session))
      → Always (λ f. Queued k s.app (f (on_app close s)).app) o
      → Queued k s.app (press_menu o s).app
  press_menu-Queued none h = unchanged refl
  press_menu-Queued (some f) h = h

abbrev after_key : Env → KeyCode → Modal → Session → AppState
after_key env k m s =
    (act env (modal_key env k m).1 (on_app (set_modal (modal_key env k m).0) s)).app

module _ (env : Env) (s : Session) where
  module _ (op : PendingDestructiveOp) (prompt : Prompt)
      (e : s.app.modal ≡ some (confirm op prompt)) where
    yes-Queued :
        (k : KeyCode)
        → is_yes k ≡ true
        → Queued k s.app (act env confirm_yes (on_app (set_modal (some (confirm op prompt))) s)).app
    yes-Queued k yes_key = confirmed op prompt e yes_key (unfold act confirm_modal in refl)

    y_confirms :
        (c : ℕ)
        → (c == b'y') ≡ true
        → modal_key env (char c) (confirm op prompt) ≡ (some (confirm op prompt), confirm_yes)
    y_confirms c y = unfold modal_key in ground arith

    others_plain :
        (c : ℕ) → (c == b'y') ≡ false → plain (modal_key env (char c) (confirm op prompt)) ≡ true
    others_plain c other = unfold modal_key in ground arith

    abbrev Answered : KeyCode → Option Modal × Action → Type 0
    Answered k p = Queued k s.app (act env p.1 (on_app (set_modal p.0) s)).app

    confirm-Queued : (k : KeyCode) → Queued k s.app (after_key env k (confirm op prompt) s)
    confirm-Queued enter = unfold modal_key in yes-Queued enter refl
    confirm-Queued (char c) = elim (Bool-cases (c == b'y')) [
      | inl y ↦ subst (Answered (char c)) (sym (y_confirms c y)) (yes-Queued (char c) y)
      | inr other ↦ unchanged (act-plain-ops env _ _ s (others_plain c other))
    ]
    confirm-Queued _ = unfold modal_key act in unchanged refl

  module _ (source : Text) (input : TextField)
      (e : s.app.modal ≡ some (clone_as source input)) where
    submit-Queued :
        Queued enter s.app
          (submit_modal env (on_app (set_modal (some (clone_as source input))) s)).app
    submit-Queued =
        let queue =
          submit_modal-clone env (on_app (set_modal (some (clone_as source input))) s) source input
            refl in
        elim (Bool-cases (is_valid_name input.buf)) [
          | inl valid ↦ clone_queued source input e valid (rw valid at queue)
          | inr invalid ↦ unchanged (rw invalid at queue)
        ]

    clone-Queued : (k : KeyCode) → Queued k s.app (after_key env k (clone_as source input) s)
    unfolding modal_key act
    clone-Queued enter = submit-Queued
    clone-Queued _ = unchanged refl

-- The modal that is open takes the key.
handle_modal_key-Queued :
    (env : Env) (k : KeyCode) (m : Modal) (s : Session)
    → s.app.modal ≡ some m
    → Queued k s.app (handle_modal_key env k m s).app
unfolding handle_modal_key
handle_modal_key-Queued env esc m s e = unchanged refl
handle_modal_key-Queued env k (actions_menu shown) s e =
    press_menu-Queued env k s (menu_key k) (menu-Queued k shown s e)
handle_modal_key-Queued env k (destroy_options n b) s e = unchanged refl
handle_modal_key-Queued env k (confirm op prompt) s e = confirm-Queued env s op prompt e k
handle_modal_key-Queued env k (clone_as n t) s e = clone-Queued env s n t e k
handle_modal_key-Queued env k m s e = plain-Queued env k s m refl refl

global_key-ops :
    (env : Env) (k : KeyCode) (s : AppState) → (global_key env k s).pending_ops ≡ s.pending_ops
unfolding global_key
global_key-ops env (char c) s = ground (arith, (open_create-Quiet s env).ops)
global_key-ops env enter s = ground arith
global_key-ops env down s = ground arith
global_key-ops env _ s = refl

press-Queued :
    (env : Env) (k : KeyCode) (o : Option Modal) (s : Session)
    → s.app.modal ≡ o
    → Queued k s.app (press env k o s).app
press-Queued env k none s e = unchanged (global_key-ops env k s.app)
press-Queued env k (some m) s e = handle_modal_key-Queued env k m s e

-- Nothing is queued but what the user asked for: a snapshot of the idle selected instance from its
-- menu, a clone with a valid name from its form, and any other operation by confirming exactly it.
pub handle_key-Queued :
    (env : Env) (k : KeyCode) (s : Session) → Queued k s.app (handle_key env k s).app
handle_key-Queued env k s = unfold handle_key in press-Queued env k s.app.modal s refl
