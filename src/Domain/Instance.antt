-- ===== src/Domain/Instance.antt =====
-- domain/instance.rs: the record of one instance, its derived names, and the validators.
pub mod Names
use pg_forge_cli.Base.{ℕ, ◌&&◌, ◌||◌, Bool, true, false, Text, text_lt, codes, ◌++◌, [], ◌∷◌}
use pg_forge_cli.Base.{Option, none, some, all, length, leb, ltb, ◌==◌, if◌then◌else◌}
use pg_forge_cli.Domain.Preset.{Preset}
use pg_forge_cli.Error.{
  Result, ok, err, anyhow, invalid_instance_name, snapshot_hour_range, full_backup_day_range,
}

pub record Instance : Type 0 where
  pub name : Text
  pub db_name : Text
  pub app_user : Text
  pub app_password : Text
  pub pgbackrest_password : Text
  pub preset : Preset
  pub pg_version : ℕ
  pub host_port : ℕ
  pub backup_enabled : Bool
  pub volume_name_override : Option Text
  pub retain_days : ℕ
  pub snapshot_hour : Option ℕ
  pub last_snapshot_at : Option Text
  pub last_snapshot_attempt_at : Option Text
  pub full_backup_day : ℕ

unfoldable pub volume_name : Instance → Text
volume_name i = elim i.volume_name_override [ none ↦ codes "pgforge_data_" ++ i.name | some v ↦ v ]

-- The match on the two timestamps.
abbrev attempt_after : Option Text → Option Text → Bool
attempt_after _ none = false
attempt_after none (some attempt) = true
attempt_after (some good) (some attempt) = text_lt good attempt

unfoldable pub backup_failing : Instance → Bool
backup_failing i =
    if i.backup_enabled then attempt_after i.last_snapshot_at i.last_snapshot_attempt_at else false

unfoldable pub validate_snapshot_hour : ℕ → Result (Unit {0})
validate_snapshot_hour h = if ltb 23 h then err (anyhow (snapshot_hour_range h)) else ok tt

unfoldable pub validate_full_backup_day : ℕ → Result (Unit {0})
validate_full_backup_day d = if ltb 6 d then err (anyhow (full_backup_day_range d)) else ok tt

abbrev pub is_lower : ℕ → Bool
is_lower c = leb b'a' c && leb c b'z'

abbrev pub is_digit : ℕ → Bool
is_digit c = leb b'0' c && leb c b'9'

abbrev pub is_name_char : ℕ → Bool
is_name_char c = is_lower c || is_digit c || c == b'_' || c == b'-'

-- `^[a-z][a-z0-9_-]{0,62}$`
unfoldable pub is_valid_name : Text → Bool
is_valid_name [] = false
is_valid_name (c ∷ s) = is_lower c && all is_name_char s && leb (length s) 62

unfoldable pub validate_name : Text → Result (Unit {0})
unfolding is_valid_name
validate_name name = if is_valid_name name then ok tt else err (invalid_instance_name name)
