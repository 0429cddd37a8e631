-- ===== src/Commands/Snapshots/Civil.antt =====
-- commands/snapshots.rs, `epoch_to_iso` and `civil_from_days`.
pub mod Calendar
use pg_forge_cli.Base.{
  ℕ, zero, suc, ◌+◌, ◌-◌, ◌*◌, ◌/◌, ◌%◌, Text, codes, ◌∷◌, ◌++◌, length, ltb, leb, if◌then◌else◌,
}
use pg_forge_cli.Base.Decimal.{show_u32}
use pg_forge_cli.Base.Int.{ℤ, pos, negsuc, pos_part, ◌+ℤ◌, ◌-ℤ◌}

-- `div_euclid` and `rem_euclid` by the seconds of a day.
abbrev pub day_of : ℤ → ℤ
day_of (pos n) = pos (n / 86400)
day_of (negsuc n) = negsuc (n / 86400)

abbrev pub time_of_day : ℤ → ℕ
time_of_day (pos n) = n % 86400
time_of_day (negsuc n) = 86399 - n % 86400

abbrev negated : ℕ → ℤ
negated zero = pos 0
negated (suc n) = negsuc n

-- The division rounds towards zero.
abbrev pub era_of : ℤ → ℤ
era_of (pos z) = pos (z / 146097)
era_of (negsuc z) = negated ((z + 1 + 146096) / 146097)

abbrev times : ℕ → ℤ → ℤ
times k (pos n) = pos (n * k)
times k (negsuc n) = negated (suc n * k)

unfoldable pub day_of_era : ℤ → ℕ
unfolding ◌-ℤ◌
day_of_era z = pos_part (z -ℤ times 146097 (era_of z))

abbrev pub year_of_era : ℕ → ℕ
year_of_era doe = (doe - doe / 1460 + doe / 36524 - doe / 146096) / 365

abbrev pub day_of_year : ℕ → ℕ
day_of_year doe = doe - (365 * year_of_era doe + year_of_era doe / 4 - year_of_era doe / 100)

-- From March, which is 0.
abbrev pub month_part : ℕ → ℕ
month_part doy = (5 * doy + 2) / 153

abbrev pub day_of_month : ℕ → ℕ
day_of_month doy = doy - (153 * month_part doy + 2) / 5 + 1

abbrev pub month_of : ℕ → ℕ
month_of mp = if ltb mp 10 then mp + 3 else mp - 9

-- Day and month are far from the end of `u32`.
pub record Civil : Type 0 where
  pub year : ℤ
  pub month : ℕ
  pub day : ℕ

-- `as i32`
abbrev in_i32 : ℕ → ℤ
in_i32 r = if ltb r 2147483648 then pos r else negated (4294967296 - r)

abbrev pub wrap_i32 : ℤ → ℤ
wrap_i32 (pos n) = in_i32 (n % 4294967296)
wrap_i32 (negsuc n) = in_i32 (4294967295 - n % 4294967296)

abbrev pub in_year : ℤ → ℕ → Civil
in_year y doy = record {
  year = wrap_i32 (if leb (month_of (month_part doy)) 2 then y +ℤ pos 1 else y);
  month = month_of (month_part doy);
  day = day_of_month doy;
}

unfoldable pub civil_from_days : ℤ → Civil
unfolding ◌+ℤ◌ day_of_era
civil_from_days days =
    let z = days +ℤ pos 719468 in
    let doe = day_of_era z in
    in_year (pos (year_of_era doe) +ℤ times 400 (era_of z)) (day_of_year doe)

abbrev zeros : ℕ → Text → Text
zeros zero s = s
zeros (suc k) s = 48 ∷ zeros k s

-- Zeros up to the width, a sign counted.
abbrev padded : ℕ → Text → Text
padded width s = zeros (width - length s) s

unfoldable two_digits : ℕ → Text
two_digits n = padded 2 (show_u32 n)

unfoldable show_year : ℤ → Text
show_year (pos y) = padded 4 (show_u32 y)
show_year (negsuc y) = 45 ∷ padded 3 (show_u32 (y + 1))

abbrev show_date : Civil → Text
show_date c = show_year c.year ++ codes "-" ++ two_digits c.month ++ codes "-" ++ two_digits c.day

unfoldable pub epoch_to_iso : ℤ → Text
unfolding two_digits show_year
epoch_to_iso secs =
    let t = time_of_day secs in
    show_date (civil_from_days (day_of secs))
    ++ codes "T"
    ++ two_digits (t / 3600)
    ++ codes ":"
    ++ two_digits (t % 3600 / 60)
    ++ codes ":"
    ++ two_digits (t % 60)
    ++ codes "Z"
