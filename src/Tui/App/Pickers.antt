-- ===== src/Tui/App/Pickers.antt =====
-- tui/app.rs: what a key does to the fields of an open modal, and what it asks for.
pub mod Bounds
use pg_forge_cli.Base.{
  ℕ, ◌+◌, ◌-◌, ◌*◌, ◌/◌, ◌%◌, ◌^◌, min, Bool, not, ◌&&◌, ◌||◌, Text, Option, none, some, ltb, leb,
  ◌==◌, max_u32, if◌then◌else◌,
}
use pg_forge_cli.Base.Int.{ℤ, pos, negsuc, is_positive}
use pg_forge_cli.Domain.Instance.{is_digit}
use pg_forge_cli.Domain.Preset.{next_preset, prev_preset}
use pg_forge_cli.Tui.TextField.{TextField, insert_char}
use pg_forge_cli.Tui.TextField
use pg_forge_cli.Tui.Types.{
  KeyCode, char, enter, tab, back_tab, backspace, left, right, CreateForm, RestoreForm,
}
use pg_forge_cli.Tui.App.{Env}

pub data Action : Type 0 where
  nothing submit confirm_yes confirm_no : Action

-- `char::is_control`
abbrev pub is_control : ℕ → Bool
is_control c = ltb c 32 || (leb 127 c && leb c 159)

-- A field after an edit. An edit that panics would end the program: `Tui.TextField.Zipper` shows
-- that none does.
abbrev edited : Option TextField → TextField → TextField
edited none t = t
edited (some t') t = t'

-- The keys of a text field, in every modal that has one.
unfoldable pub edit_field : KeyCode → TextField → TextField
edit_field (char c) t = if is_control c then t else edited (insert_char c t) t
edit_field backspace t = edited (TextField.backspace t) t
edit_field left t = edited (TextField.move_left t) t
edit_field right t = edited (TextField.move_right t) t
edit_field _ t = t

unfoldable pub sat_add : ℕ → ℕ → ℕ
sat_add a b = min (a + b) max_u32

unfoldable pub sat_mul : ℕ → ℕ → ℕ
sat_mul a b = min (a * b) max_u32

-- A number with one more digit typed behind it, on `u32`.
unfoldable pub append_digit : ℕ → ℕ → ℕ
unfolding sat_add sat_mul
append_digit n c = sat_add (sat_mul n 10) (c - b'0')

abbrev minutes_of_seconds : ℤ → ℕ
minutes_of_seconds (pos n) = n / 60 % 2 ^ 32
minutes_of_seconds (negsuc n) = 0

unfoldable pub pitr_max_minutes_ago : Env → Option Text → Option ℕ
pitr_max_minutes_ago env none = none
pitr_max_minutes_ago env (some e) = elim (env.seconds_since e) [
  | none ↦ none
  | some secs ↦ some (minutes_of_seconds secs)
]

abbrev tighter : Option ℕ → Option ℕ → ℕ
tighter (some a) (some b) = min a b
tighter (some a) none = a
tighter none (some b) = b
tighter none none = 0

unfoldable pub effective_restore_cap : Env → Option Text → Option ℕ → ℕ
unfolding pitr_max_minutes_ago
effective_restore_cap env earliest uptime_min =
    tighter (pitr_max_minutes_ago env earliest) uptime_min

unfoldable pub bump_snapshot_hour : Option ℕ → ℤ → Option ℕ
bump_snapshot_hour none d = if is_positive d then some 0 else some 23
bump_snapshot_hour (some h) d =
    if is_positive d
    then (if leb 23 h then none else some (h + 1))
    else if h == 0
    then none
    else some (h - 1)

abbrev or_zero : Option ℕ → ℕ
or_zero none = 0
or_zero (some n) = n

-- An hour with one more digit typed behind it.
unfoldable pub append_hour_digit : Option ℕ → ℕ → Option ℕ
unfolding append_digit
append_hour_digit hour c = some (min (append_digit (or_zero hour) c) 23)

-- The picker of minutes, with the cap of this moment.
unfoldable pub pick_minutes : ℕ → KeyCode → ℕ → ℕ
unfolding sat_add append_digit
pick_minutes cap left m = m - 1
pick_minutes cap right m = min (sat_add m 1) cap
pick_minutes cap (char c) m =
    if c == 32 then min (sat_add m 5) cap else if is_digit c then min (append_digit m c) cap else m
pick_minutes cap backspace m = m / 10
pick_minutes cap _ m = m

unfoldable pub restore_key : Env → KeyCode → RestoreForm → RestoreForm × Action
unfolding edit_field pick_minutes effective_restore_cap
restore_key env tab f = (record f { focus = (f.focus + 1) % 2 }, nothing)
restore_key env enter f = (f, submit)
restore_key env k f =
    let cap = effective_restore_cap env f.pitr_earliest f.uptime_cap_min in
    if f.focus == 0
    then (record f { as_input = edit_field k f.as_input }, nothing)
    else (record f { minutes_ago = pick_minutes cap k f.minutes_ago }, nothing)

-- The text field that has the focus, if one has.
unfoldable pub on_focused : (TextField → TextField) → CreateForm → CreateForm
on_focused g f =
    if f.focus == 0
    then record f { name = g f.name }
    else if f.focus == 1
    then record f { app_user = g f.app_user }
    else if f.focus == 2
    then record f { pg_version = g f.pg_version }
    else f

abbrev press_space : CreateForm → CreateForm
press_space f =
    if f.focus == 3
    then record f { preset = next_preset f.preset }
    else if f.focus == 4
    then record f { no_backup = not f.no_backup }
    else if f.focus == 5
    then record f { retain_days = sat_add f.retain_days 1 }
    else if f.focus == 6
    then record f { snapshot_hour = bump_snapshot_hour f.snapshot_hour (pos 1) }
    else on_focused (edit_field (char 32)) f

abbrev press_char : ℕ → CreateForm → CreateForm
press_char c f =
    if (f.focus == 5) && is_digit c
    then record f { retain_days = append_digit f.retain_days c }
    else if (f.focus == 6) && is_digit c
    then record f { snapshot_hour = append_hour_digit f.snapshot_hour c }
    else on_focused (edit_field (char c)) f

unfoldable pub create_key : KeyCode → CreateForm → CreateForm × Action
unfolding on_focused edit_field sat_add bump_snapshot_hour append_hour_digit append_digit
create_key tab f = (record f { focus = (f.focus + 1) % 7 }, nothing)
create_key back_tab f = (record f { focus = (f.focus + 6) % 7 }, nothing)
create_key enter f = (f, submit)
create_key (char c) f = (if c == 32 then press_space f else press_char c f, nothing)
create_key right f = (
  if f.focus == 3
      then record f { preset = next_preset f.preset }
      else if f.focus == 5
      then record f { retain_days = sat_add f.retain_days 1 }
      else if f.focus == 6
      then record f { snapshot_hour = bump_snapshot_hour f.snapshot_hour (pos 1) }
      else on_focused (edit_field right) f,
  nothing,
)
create_key left f = (
  if f.focus == 3
      then record f { preset = prev_preset f.preset }
      else if f.focus == 5
      then record f { retain_days = f.retain_days - 1 }
      else if f.focus == 6
      then record f { snapshot_hour = bump_snapshot_hour f.snapshot_hour (negsuc 0) }
      else on_focused (edit_field left) f,
  nothing,
)
create_key backspace f = (
  if f.focus == 5
      then record f { retain_days = f.retain_days / 10 }
      else if f.focus == 6
      then record f { snapshot_hour = none }
      else on_focused (edit_field backspace) f,
  nothing,
)
create_key _ f = (f, nothing)

unfoldable pub hour_key : KeyCode → Option ℕ → Option ℕ × Action
unfolding bump_snapshot_hour append_hour_digit
hour_key left h = (bump_snapshot_hour h (negsuc 0), nothing)
hour_key right h = (bump_snapshot_hour h (pos 1), nothing)
hour_key (char c) h = (
  if c == 32 then bump_snapshot_hour h (pos 1) else if is_digit c then append_hour_digit h c else h,
  nothing,
)
hour_key backspace h = (none, nothing)
hour_key enter h = (h, submit)
hour_key _ h = (h, nothing)
