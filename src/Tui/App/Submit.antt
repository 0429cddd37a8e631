-- ===== src/Tui/App/Submit.antt =====
-- tui/app.rs, `submit_modal` and `confirm_modal`.
pub mod Effects
use pg_forge_cli.Base.{
  ℕ, Bool, true, false, ◌&&◌, ◌||◌, Text, text_eq, codes, List, [], ◌∷◌, ◌++◌, Option, none, some,
  ltb, leb, ◌==◌, if◌then◌else◌,
}
use pg_forge_cli.Base.Decimal.{show_u8, parse_u8}
use pg_forge_cli.Domain.Instance.{is_lower, is_digit, is_valid_name}
use pg_forge_cli.Domain.Preset.{Preset, preset_eq, lowercase_name}
use pg_forge_cli.Error.{Result, ok, err}
use pg_forge_cli.State.Store.{InstanceState, update_under}
use pg_forge_cli.Tui.TextField.{TextField}
use pg_forge_cli.Tui.Types.{
  InstanceSummary, OpKind, clone, rotate, upgrade, restore, destroy, create, resize, snapshot,
  Message, name_rejected, create_name_rejected, target_not_greater, invalid_version,
  invalid_pg_version, app_user_empty, app_user_bad_char, update_failed, already_on, hour_set,
  hour_off, success, CreateForm, CreateRequest, RestoreForm, PendingDestructiveOp, rotate_op,
  upgrade_op, restore_op, destroy_op, resize_op, ask_upgrade, ask_restore, ask_resize, Modal,
  clone_as, upgrade_to, restore_as, confirm, create_form, schedule_edit, resize_to, FlashText,
}
use pg_forge_cli.Tui.App.{AppState, Env, Session, show_modal, push_op, fail_op}

submit_clone : Env → Text → TextField → AppState → AppState
submit_clone env source input s =
    if is_valid_name input.buf
    then push_op (source ++ b':' ∷ input.buf) clone s
    else show_modal (clone_as source input) (fail_op env source clone (name_rejected input.buf) s)

-- The version in the first row of that name; 0 if there is none.
unfoldable pub version_of : Text → List InstanceSummary → ℕ
version_of n [] = 0
version_of n (r ∷ rs) = if text_eq r.name n then r.pg_version else version_of n rs

abbrev check_target : Env → Text → TextField → ℕ → Option ℕ → AppState → AppState
check_target env source input current none s =
    show_modal (upgrade_to source input) (fail_op env source upgrade (invalid_version input.buf) s)
check_target env source input current (some to) s =
    if ltb current to
    then show_modal (confirm (upgrade_op source to) (ask_upgrade source current to)) s
    else show_modal (upgrade_to source input)
        (fail_op env source upgrade (target_not_greater to current) s)

submit_upgrade : Env → Text → TextField → AppState → AppState
unfolding version_of
submit_upgrade env source input s =
    check_target env source input (version_of source s.instances) (parse_u8 input.buf) s

-- 0 minutes ago is the latest archived WAL.
abbrev target_of : Env → ℕ → Option Text
target_of env minutes = if minutes == 0 then none else some (env.minutes_before minutes)

submit_restore : Env → RestoreForm → AppState → AppState
submit_restore env f s =
    let as_name = f.as_input.buf in
    let target = target_of env f.minutes_ago in
    if is_valid_name as_name
    then show_modal
        (confirm (restore_op f.source as_name target) (ask_restore f.source as_name target)) s
    else show_modal (restore_as f) (fail_op env f.source restore (name_rejected as_name) s)

abbrev is_upper : ℕ → Bool
is_upper c = leb b'A' c && leb c b'Z'

abbrev is_user_char : ℕ → Bool
is_user_char c = is_lower c || is_upper c || is_digit c || c == b'_'

unfoldable pub first_bad : Text → Option ℕ
first_bad [] = none
first_bad (c ∷ s) = if is_user_char c then first_bad s else some c

abbrev request : CreateForm → ℕ → CreateRequest
request f version = record {
  name = f.name.buf;
  app_user = f.app_user.buf;
  app_password = f.generated_password;
  pgbackrest_password = f.generated_pgbackrest_password;
  pg_version = version;
  preset = f.preset;
  no_backup = f.no_backup;
  retain_days = f.retain_days;
  snapshot_hour = f.snapshot_hour;
}

abbrev fail_create : Env → CreateForm → Message → AppState → AppState
fail_create env f msg s =
    show_modal (create_form f) (fail_op env (codes "create wizard") create msg s)

-- The checks in their order: name, version, user.
abbrev check_user : Env → CreateForm → ℕ → Option ℕ → AppState → AppState
check_user env f version (some c) s = fail_create env f (app_user_bad_char f.app_user.buf c) s
check_user env f version none s = record s {
  pending_creates = s.pending_creates ++ request f version ∷ [];
}

abbrev check_version : Env → CreateForm → Option ℕ → AppState → AppState
check_version env f none s = fail_create env f (invalid_pg_version f.pg_version.buf) s
check_version env f (some v) s =
    if v == 0
    then fail_create env f (invalid_pg_version f.pg_version.buf) s
    else if text_eq f.app_user.buf []
    then fail_create env f app_user_empty s
    else check_user env f v (first_bad f.app_user.buf) s

unfoldable pub submit_create : Env → CreateForm → AppState → AppState
submit_create env f s =
    if is_valid_name f.name.buf
    then check_version env f (parse_u8 f.pg_version.buf) s
    else fail_create env f (create_name_rejected f.name.buf) s

abbrev hour_eq : Option ℕ → Option ℕ → Bool
hour_eq none none = true
hour_eq (some a) (some b) = a == b
hour_eq _ _ = false

abbrev hour_flash : Text → Option ℕ → FlashText
hour_flash name (some h) = hour_set name h
hour_flash name none = hour_off name

abbrev set_hour : Option ℕ → InstanceState → Result InstanceState
set_hour hour s = ok (record s { instance = record (s.instance) { snapshot_hour = hour } })

abbrev hour_outcome : Env → Text → Option ℕ → Result InstanceState → AppState → AppState
hour_outcome env name hour (ok _) s = record s {
  flash = some (record { msg = hour_flash name hour; kind = success; at = env.instant });
}
hour_outcome env name hour (err e) s = fail_op env name snapshot (update_failed e) s

unfoldable pub submit_schedule : Env → Text → Option ℕ → Option ℕ → Session → Session
submit_schedule env name current new s =
    let (outcome, disk) = update_under s.disk name (set_hour new) in
    if hour_eq current new
    then s
    else record { app = hour_outcome env name new outcome s.app; disk = disk }

submit_resize : Env → Text → Preset → Preset → AppState → AppState
submit_resize env name current new s =
    if preset_eq current new
    then show_modal (resize_to name current new) (fail_op env name resize (already_on current) s)
    else show_modal (confirm (resize_op name new) (ask_resize name current new)) s

abbrev pub on_app : (AppState → AppState) → Session → Session
on_app f s = record s { app = f s.app }

-- The modal that was taken off the state.
submit_taken : Env → Modal → Session → Session
submit_taken env (clone_as source input) s = on_app (submit_clone env source input) s
submit_taken env (upgrade_to source input) s = on_app (submit_upgrade env source input) s
submit_taken env (restore_as f) s = on_app (submit_restore env f) s
submit_taken env (create_form f) s = on_app (submit_create env f) s
submit_taken env (schedule_edit name current new) s = submit_schedule env name current new s
submit_taken env (resize_to name current new) s = on_app (submit_resize env name current new) s
submit_taken env m s = on_app (show_modal m) s

abbrev pub close : AppState → AppState
close s = record s { modal = none }

unfoldable pub submit_modal : Env → Session → Session
unfolding submit_taken submit_clone submit_upgrade submit_restore submit_create submit_schedule
    submit_resize
submit_modal env s = elim s.app.modal [ none ↦ s | some m ↦ submit_taken env m (on_app close s) ]

-- The text that encodes a confirmed operation, with the kind that will decode it.
unfoldable pub encode : PendingDestructiveOp → Text × OpKind
encode (rotate_op name) = (name, rotate)
encode (upgrade_op name to) = (name ++ b'@' ∷ show_u8 to, upgrade)
encode (restore_op source as_name (some t)) = (source ++ b':' ∷ (as_name ++ b'@' ∷ t), restore)
encode (restore_op source as_name none) = (source ++ b':' ∷ as_name, restore)
encode (destroy_op name delete_backups) =
    (if delete_backups then name ++ codes "@delete" else name, destroy)
encode (resize_op name preset) = (name ++ b'@' ∷ lowercase_name preset, resize)

abbrev confirm_taken : Option Modal → AppState → AppState
confirm_taken (some (confirm op prompt)) s =
    let (encoded, kind) = encode op in push_op encoded kind s
confirm_taken _ s = s

unfoldable pub confirm_modal : Bool → AppState → AppState
unfolding encode
confirm_modal yes_pressed s = if yes_pressed then confirm_taken s.modal (close s) else close s
