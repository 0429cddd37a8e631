-- ===== src/Tui/App/Pickers/Bounds.antt =====
-- What the pickers of a modal keep in range.
use pg_forge_cli.Base.{ℕ, ◌≤◌, ◌<◌, ◌≡◌, refl, Option, none, some, max_u32, arith}
use pg_forge_cli.Base.Int.{pos, negsuc}
use pg_forge_cli.Tui.Types.{KeyCode, char, tab, back_tab, backspace, left, right, CreateForm}
use pg_forge_cli.Tui.App.Pickers.{
  sat_add, append_digit, pick_minutes, bump_snapshot_hour, append_hour_digit, hour_key, create_key,
  on_focused,
}

-- An hour of the day, or none.
abbrev pub IsHour : Option ℕ → Type 0
IsHour none = Unit
IsHour (some h) = h ≤ 23

bump_up-IsHour : (h : Option ℕ) → IsHour h → IsHour (bump_snapshot_hour h (pos 1))
unfolding bump_snapshot_hour
bump_up-IsHour none h = ground arith
bump_up-IsHour (some n) h = ground (arith, h)

bump_down-IsHour : (h : Option ℕ) → IsHour h → IsHour (bump_snapshot_hour h (negsuc 0))
unfolding bump_snapshot_hour
bump_down-IsHour none h = ground arith
bump_down-IsHour (some n) h = ground (arith, h)

append_hour_digit-IsHour : (h : Option ℕ) (c : ℕ) → IsHour (append_hour_digit h c)
unfolding append_hour_digit
append_hour_digit-IsHour h c = ground arith

-- From an hour of the day, or none, one step up and one down, or the other way round, is where it started: 25 positions in a ring.
pub bump-bump :
    (h : Option ℕ)
    → IsHour h
    → (bump_snapshot_hour (bump_snapshot_hour h (pos 1)) (negsuc 0) ≡ h)
      × (bump_snapshot_hour (bump_snapshot_hour h (negsuc 0)) (pos 1) ≡ h)
unfolding bump_snapshot_hour
bump-bump none h = (refl, refl)
bump-bump (some n) h = ground (arith, h)

-- If the hour of the schedule editor is one of the day, or none, it is so after every key.
pub hour_key-IsHour : (k : KeyCode) (h : Option ℕ) → IsHour h → IsHour (hour_key k h).0
unfolding hour_key
hour_key-IsHour left h g = bump_down-IsHour h g
hour_key-IsHour right h g = bump_up-IsHour h g
hour_key-IsHour (char c) h g = ground (arith, g, bump_up-IsHour h g, append_hour_digit-IsHour h c)
hour_key-IsHour backspace h g = tt
hour_key-IsHour _ h g = g

-- No key takes the minutes over the cap of that moment, if they were under it.
pub pick_minutes-le : (cap : ℕ) (k : KeyCode) (m : ℕ) → m ≤ cap → pick_minutes cap k m ≤ cap
unfolding pick_minutes
pick_minutes-le cap k m h = ground (arith, h)

-- The wizard's fields: the focus is one of seven, the hour is one of the day, and the retention is
-- a `u32`.
pub record FormInRange (f : CreateForm) : Type 0 where
  pub focus_lt : f.focus < 7
  pub hour : IsHour f.snapshot_hour
  pub days : f.retain_days ≤ max_u32

create_key-focus_lt : (k : KeyCode) (f : CreateForm) → FormInRange f → (create_key k f).0.focus < 7
unfolding create_key on_focused
create_key-focus_lt (char c) f h = ground (arith, h.focus_lt)
create_key-focus_lt backspace f h = ground (arith, h.focus_lt)
create_key-focus_lt left f h = ground (arith, h.focus_lt)
create_key-focus_lt right f h = ground (arith, h.focus_lt)
create_key-focus_lt tab f h = omega arith
create_key-focus_lt back_tab f h = omega arith
create_key-focus_lt _ f h = h.focus_lt

create_key-days :
    (k : KeyCode) (f : CreateForm) → FormInRange f → (create_key k f).0.retain_days ≤ max_u32
unfolding create_key on_focused sat_add append_digit
create_key-days (char c) f h = ground (arith, h.days)
create_key-days backspace f h = ground (arith, h.days)
create_key-days left f h = ground (arith, h.days)
create_key-days right f h = ground (arith, h.days)
create_key-days _ f h = h.days

create_key-IsHour :
    (k : KeyCode) (f : CreateForm) → FormInRange f → IsHour (create_key k f).0.snapshot_hour
unfolding create_key on_focused
create_key-IsHour (char c) f h = ground (
  arith,
  h.hour,
  bump_up-IsHour f.snapshot_hour h.hour,
  append_hour_digit-IsHour f.snapshot_hour c,
)
create_key-IsHour backspace f h = ground (arith, h.hour)
create_key-IsHour left f h = ground (arith, h.hour, bump_down-IsHour f.snapshot_hour h.hour)
create_key-IsHour right f h = ground (arith, h.hour, bump_up-IsHour f.snapshot_hour h.hour)
create_key-IsHour _ f h = h.hour

-- If the wizard's focus, hour and retention are in range, they are so after every key.
pub create_key-FormInRange :
    (k : KeyCode) (f : CreateForm) → FormInRange f → FormInRange (create_key k f).0
create_key-FormInRange k f h = record {
  focus_lt = create_key-focus_lt k f h;
  hour = create_key-IsHour k f h;
  days = create_key-days k f h;
}
