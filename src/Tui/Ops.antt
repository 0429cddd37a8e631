-- ===== src/Tui/Ops.antt =====
-- tui/ops.rs: what a queued operation's text is decoded to.
pub mod RoundTrip
use pg_forge_cli.Base.{
  ℕ, Bool, Text, text_eq, codes, [], ◌∷◌, Option, none, some, ◌==◌, if◌then◌else◌,
}
use pg_forge_cli.Base.Decimal.{parse_u8}
use pg_forge_cli.Base.Lines.{split_once}
use pg_forge_cli.Domain.Preset.{Preset, from_str}
use pg_forge_cli.Tui.Types.{
  OpKind, snapshot, clone, rotate, upgrade, restore, destroy, create, resize, clipboard,
}

abbrev or_whole : Text → Option (Text × Text) → Text × Text
or_whole s none = (s, [])
or_whole s (some p) = p

unfoldable pub parse_colon : Text → Text × Text
parse_colon s = or_whole s (split_once b':' s)

abbrev or_zero : Option ℕ → ℕ
or_zero none = 0
or_zero (some n) = n

-- Without an `@` there is no version: 0.
abbrev version_behind : Text → Option (Text × Text) → Text × ℕ
version_behind s none = (s, 0)
version_behind s (some (name, v)) = (name, or_zero (parse_u8 v))

unfoldable pub parse_at : Text → Text × ℕ
parse_at s = version_behind s (split_once b'@' s)

abbrev time_behind : Text → Text → Option (Text × Text) → Text × Text × Option Text
time_behind source right none = (source, right, none)
time_behind source right (some (as_name, t)) = (source, as_name, some t)

unfoldable pub parse_colon_at : Text → Text × Text × Option Text
unfolding parse_colon split_once
parse_colon_at s =
    let (source, right) = parse_colon s in time_behind source right (split_once b'@' right)

-- The command that a task runs, with its arguments.
pub data Job : Type 0 where
  run_snapshot run_rotate : Text → Job
  run_clone : Text → Text → Job
  run_upgrade : Text → ℕ → Job
  run_restore : Text → Text → Option Text → Job
  run_destroy : Text → Bool → Job
  run_resize : Text → Preset → Job
  -- The task only reports an error for that instance.
  bad_preset : Text → Text → Job
  -- The kinds that are never queued.
  no_job : Job

abbrev resize_job : Text → Text → Option Preset → Job
resize_job name suffix none = bad_preset name suffix
resize_job name suffix (some p) = run_resize name p

unfoldable pub decode : OpKind → Text → Job
unfolding parse_at parse_colon parse_colon_at
decode snapshot s = run_snapshot s
decode rotate s = run_rotate s
decode upgrade s = let (name, to) = parse_at s in run_upgrade name to
decode clone s = let (source, as_name) = parse_colon s in run_clone source as_name
decode restore s = let (source, as_name, t) = parse_colon_at s in run_restore source as_name t
decode resize s =
    let (name, suffix) = or_whole s (split_once b'@' s) in resize_job name suffix (from_str suffix)
decode destroy s =
    let (name, suffix) = or_whole s (split_once b'@' s) in
    run_destroy name (text_eq suffix (codes "delete"))
decode create s = no_job
decode clipboard s = no_job

-- The instance whose name the start and finish events carry.
unfoldable pub display_name : Job → Text
display_name (run_snapshot n) = n
display_name (run_rotate n) = n
display_name (run_clone n a) = n
display_name (run_upgrade n to) = n
display_name (run_restore n a t) = n
display_name (run_destroy n b) = n
display_name (run_resize n p) = n
display_name (bad_preset n suffix) = n
display_name no_job = []
