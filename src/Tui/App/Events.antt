-- ===== src/Tui/App/Events.antt =====
-- tui/app.rs, `apply_event`.
pub mod Selection
pub mod Ops
use pg_forge_cli.Base.{
  ℕ, suc, ◌-◌, Bool, true, false, not, ◌&&◌, Text, text_eq, codes, List, [], ◌∷◌, ◌++◌, map, Option,
  none, some, length, ltb, leb, contains, select, if◌then◌else◌,
}
use pg_forge_cli.Base.Dict.{lookup, insert, erase}
use pg_forge_cli.Tui.Types
use pg_forge_cli.Tui.Types.{
  InstanceSummary, InstanceStatus, OpKind, snapshot, create, destroy, reported, went_down,
  self_update_failed, FlashText, op_done, updated, already_current, Flash, success, Modal,
  rotate_op, upgrade_op, restore_op, destroy_op, resize_op, actions_menu, clone_as, upgrade_to,
  restore_as, confirm, snapshots_of, created_success, connection_string, resize_to, schedule_edit,
  destroy_options, Event, key, tick, instances_listed, status_refreshed, snapshots_refreshed,
  op_started, op_finished, refresh_failed, self_update_done, self_update_error,
  disk_health_refreshed, smart_refreshed,
}
use pg_forge_cli.Tui.App.{AppState, Env, Session, selected_name, fail_op}
use pg_forge_cli.Tui.App.Openers.{row_name}
use pg_forge_cli.Tui.App.Keys.{handle_key}
use pg_forge_cli.Tui.App.Submit.{on_app}

-- `CPU_HISTORY_LEN`
abbrev pub cpu_history_len : ℕ
cpu_history_len = 30

-- `iter().position` of the row with a name
unfoldable pub position : Text → List InstanceSummary → Option ℕ
position n [] = none
position n (r ∷ rs) =
    if text_eq r.name n
    then some 0
    else elim (position n rs) [ none ↦ none | some i ↦ some (suc i) ]

abbrev clamp_selected : List InstanceSummary → ℕ → ℕ
clamp_selected [] selected = 0
clamp_selected (r ∷ rs) selected = if leb (length (r ∷ rs)) selected then length rs else selected

abbrev found_or : Option ℕ → ℕ → ℕ
found_or none i = i
found_or (some i) _ = i

-- The selection follows its instance by name, and is clamped where that is gone.
unfoldable pub reanchor : Option Text → List InstanceSummary → ℕ → ℕ
unfolding position
reanchor none rows selected = clamp_selected rows selected
reanchor (some n) rows selected = found_or (position n rows) (clamp_selected rows selected)

-- The instance that a modal is about, if it is about one.
unfoldable pub bound_name : Modal → Option Text
bound_name (actions_menu n) = some n
bound_name (destroy_options n b) = some n
bound_name (clone_as n t) = some n
bound_name (upgrade_to n t) = some n
bound_name (restore_as f) = some f.source
bound_name (resize_to n p q) = some n
bound_name (schedule_edit n h k) = some n
bound_name (snapshots_of n v) = some n
bound_name (connection_string n uri) = some n
bound_name (created_success n uri) = some n
bound_name (confirm (rotate_op n) prompt) = some n
bound_name (confirm (upgrade_op n to) prompt) = some n
bound_name (confirm (restore_op n a t) prompt) = some n
bound_name (confirm (destroy_op n b) prompt) = some n
bound_name (confirm (resize_op n p) prompt) = some n
bound_name _ = none

abbrev keep_bound : Option Text → Modal → List Text → Option Modal
keep_bound none m names = some m
keep_bound (some n) m names = if contains names n then some m else none

unfoldable pub keep_modal : Option Modal → List Text → Option Modal
unfolding bound_name
keep_modal none names = none
keep_modal (some m) names = keep_bound (bound_name m) m names

unfoldable pub list_instances : List InstanceSummary → AppState → AppState
unfolding reanchor keep_modal selected_name
list_instances rows s = record s {
  instances = rows;
  selected = reanchor (selected_name s) rows s.selected;
  modal = keep_modal s.modal (map row_name rows);
}

-- `while hist.len() > CPU_HISTORY_LEN { hist.pop_front(); }`
unfoldable pub trim_history : List ℕ → List ℕ
trim_history [] = []
trim_history (x ∷ xs) =
    let rest = trim_history xs in if ltb cpu_history_len (length (x ∷ xs)) then rest else x ∷ xs

abbrev history_of : Option (List ℕ) → List ℕ
history_of none = []
history_of (some h) = h

abbrev sample_of : Option ℕ → ℕ
sample_of none = 0
sample_of (some n) = n

abbrev was_running : Option InstanceStatus → Bool
was_running none = false
was_running (some st) = st.running

unfoldable pub refresh_status : Env → Text → InstanceStatus → AppState → AppState
unfolding trim_history
refresh_status env name status s =
    let samples = history_of (lookup name s.cpu_history) ++ sample_of status.cpu_tenths ∷ [] in
    let alarm =
      (if was_running (lookup name s.statuses) && not status.running
        then fail_op env name snapshot (went_down name) s
        else s) in
    record alarm {
      stale_status = select (λ n. not (text_eq n name)) s.stale_status;
      cpu_history = insert name (trim_history samples) s.cpu_history;
      statuses = insert name status s.statuses;
    }

abbrev flash_success : Env → FlashText → AppState → AppState
flash_success env msg s = record s {
  flash = some (record { msg = msg; kind = success; at = env.instant });
}

abbrev is_destroy : OpKind → Bool
is_destroy destroy = true
is_destroy _ = false

abbrev is_create : OpKind → Bool
is_create create = true
is_create _ = false

abbrev op_succeeded : Env → Text → OpKind → AppState → AppState
op_succeeded env name kind s =
    let t = flash_success env (op_done kind name) s in
    record t {
      refresh_requests =
          if is_destroy kind then s.refresh_requests else s.refresh_requests ++ name ∷ [];
      pending_show_created =
          if is_create kind then s.pending_show_created ++ name ∷ [] else s.pending_show_created;
    }

-- `result` is the error text of an operation that failed.
unfoldable pub finish_op : Env → Text → OpKind → Option Text → AppState → AppState
finish_op env name kind result s =
    let t = record s { in_progress = erase name s.in_progress } in
    elim result [
      | none ↦ op_succeeded env name kind t
      | some msg ↦ fail_op env name kind (reported msg) t
    ]

-- Nanoseconds in the three seconds that a flash stays.
abbrev pub flash_life : ℕ
flash_life = 3000000000

abbrev expire : ℕ → Option Flash → Option Flash
expire now none = none
expire now (some f) = if ltb flash_life (now - f.at) then none else some f

-- A set holds each name once.
abbrev add_name : Text → List Text → List Text
add_name n names = if contains names n then names else n ∷ names

unfoldable pub apply_event : Env → Event → Session → Session
unfolding list_instances refresh_status finish_op
apply_event env (key k) s = handle_key env k s
apply_event env (instances_listed rows) s = on_app (list_instances rows) s
apply_event env (status_refreshed name status) s = on_app (refresh_status env name status) s
apply_event env (snapshots_refreshed name view) s =
    on_app (λ a. record a { snapshots = insert name view a.snapshots }) s
apply_event env (self_update_done upgraded latest current) s =
    on_app
      (flash_success env
        (if upgraded then updated current latest else already_current current latest))
      s
apply_event env (self_update_error msg) s =
    on_app (fail_op env (codes "pgforge") snapshot (self_update_failed msg)) s
apply_event env (refresh_failed name) s =
    on_app (λ a. record a { stale_status = add_name name a.stale_status }) s
apply_event env (op_started name kind) s =
    on_app
      (λ a. record a {
        in_progress = insert name (record { kind = kind; started_at = env.instant }) a.in_progress;
      })
      s
apply_event env (op_finished name kind result) s = on_app (finish_op env name kind result) s
apply_event env (disk_health_refreshed h) s = on_app (λ a. record a { disk_health = some h }) s
apply_event env (smart_refreshed h) s = on_app (λ a. record a { smart_health = some h }) s
apply_event env tick s =
    on_app (λ a. record a { now = env.instant; flash = expire env.instant a.flash }) s
