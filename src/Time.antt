-- ===== src/Time.antt =====
-- time.rs. jiff's parser and printer, to whole seconds, are parameters.
use pg_forge_cli.Base.{Text, codes, [], ◌∷◌, ◌++◌, Option, none, some}
use pg_forge_cli.Base.Int.{ℤ}
use pg_forge_cli.Base.Lines.{trim, split_once}
use pg_forge_cli.Error.{Result, ok, err, anyhow, bad_target_time}

pub record Jiff : Type 0 where
  pub parse_seconds : Text → Option ℤ
  pub show_seconds : ℤ → Option Text

abbrev bad_time {ℓ} : {A : Type ℓ} → Text → Option A → Result A
bad_time t none = err (anyhow (bad_target_time t))
bad_time t (some a) = ok a

-- The space between date and time is replaced, in UTC.
abbrev with_separator : Option (Text × Text) → Option Text
with_separator none = none
with_separator (some (date, time)) = some (date ++ codes "T" ++ time ++ codes "Z")

abbrev parsed_or : Jiff → Option ℤ → Option Text → Option ℤ
parsed_or jiff (some n) second = some n
parsed_or jiff none none = none
parsed_or jiff none (some candidate) = jiff.parse_seconds candidate

abbrev parse_trimmed : Jiff → Text → Result ℤ
parse_trimmed jiff [] = err (anyhow (bad_target_time []))
parse_trimmed jiff (c ∷ s) =
    bad_time (c ∷ s)
      (parsed_or jiff (jiff.parse_seconds (c ∷ s)) (with_separator (split_once b' ' (c ∷ s))))

unfoldable pub parse_target_time : Jiff → Text → Result ℤ
parse_target_time jiff s = parse_trimmed jiff (trim s)

abbrev or_epoch : Option Text → Text
or_epoch none = codes "1970-01-01T00:00:00Z"
or_epoch (some t) = t

abbrev canonical_of : Jiff → Result ℤ → Result Text
canonical_of jiff (err e) = err e
canonical_of jiff (ok n) = ok (or_epoch (jiff.show_seconds n))

unfoldable pub canonicalize_target_time : Jiff → Text → Result Text
unfolding parse_target_time
canonicalize_target_time jiff s = canonical_of jiff (parse_target_time jiff s)
