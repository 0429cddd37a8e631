-- ===== src/Commands/Snapshots/Civil/Calendar.antt =====
-- A civil date counted back to its day, as an independent description of `civil_from_days`.
use mathlib.Core.Path.{subst}
use pg_forge_cli.Base.{
  ℕ, Bool, true, not, ◌&&◌, ◌||◌, ◌==◌, ◌+◌, ◌-◌, ◌*◌, ◌/◌, ◌%◌, ◌<◌, ◌≤◌, ◌≡◌, ◌∙◌, sym, leb,
  arith, if◌then◌else◌, Bool-cases, ltb→lt, inl, inr, ltb,
}
use pg_forge_cli.Base.Int.{ℤ, pos, ◌+ℤ◌}
use pg_forge_cli.Commands.Snapshots.Civil.{
  Civil, civil_from_days, day_of_era, in_year, wrap_i32, year_of_era, day_of_year, month_part,
  day_of_month, month_of,
}

-- The days before the first of the month, from the first of March.
abbrev pub days_before_month : ℕ → ℕ
days_before_month month = (153 * (if leb month 2 then month + 9 else month - 3) + 2) / 5

-- The days of the 400 years' cycle before the first of March of its year `yoe`.
abbrev pub days_before_year : ℕ → ℕ
days_before_year yoe = 365 * yoe + yoe / 4 - yoe / 100

-- From the first of March of the year 0, of a date that is not before it.
unfoldable pub days_since : ℕ → ℕ → ℕ → ℕ
days_since year month day =
    let y = if leb month 2 then year - 1 else year in
    y / 400 * 146097 + days_before_year (y % 400) + days_before_month month + day - 1

-- The Gregorian calendar.
abbrev pub is_leap : ℕ → Bool
is_leap year = (year % 4 == 0) && (not (year % 100 == 0) || (year % 400 == 0))

abbrev pub days_in_month : ℕ → ℕ → ℕ
days_in_month year month =
    if month == 2
    then (if is_leap year then 29 else 28)
    else if (month == 4 || month == 6) || (month == 9 || month == 11)
    then 30
    else 31

year-lt : (doe : ℕ) → doe < 146097 → year_of_era doe < 400
year-lt doe h = omega arith

year-start :
    (doe : ℕ)
    → doe < 146097
    → 365 * year_of_era doe + year_of_era doe / 4 - year_of_era doe / 100 ≤ doe
year-start doe h = omega arith

year-end : (doe : ℕ) → doe < 146097 → day_of_year doe ≤ 365
year-end doe h = omega arith

month-start : (doy : ℕ) → doy ≤ 365 → (153 * month_part doy + 2) / 5 ≤ doy
month-start doy h = omega arith

day-le : (doy : ℕ) → doy ≤ 365 → day_of_month doy ≤ 31
day-le doy h = omega arith

doy-back :
    (doy : ℕ)
    → doy ≤ 365
    → days_before_month (month_of (month_part doy)) + day_of_month doy ≡ doy + 1
doy-back doy h = ground arith

month-range :
    (doy : ℕ) → doy ≤ 365 → (1 ≤ month_of (month_part doy)) × (month_of (month_part doy) ≤ 12)
month-range doy h = ground arith

doe-back : (doe : ℕ) → doe < 146097 → days_before_year (year_of_era doe) + day_of_year doe ≡ doe
doe-back doe h = omega arith

leap-end : (doe : ℕ) → doe < 146097 → day_of_year doe ≡ 365 → is_leap (year_of_era doe + 1) ≡ true
leap-end doe h e = ground arith

day-in_month :
    (doy year : ℕ)
    → doy ≤ 365
    → (doy ≡ 365 → is_leap year ≡ true)
    → day_of_month doy ≤ days_in_month year (month_of (month_part doy))
day-in_month doy year h e = ground arith

is_leap-era : (era y : ℕ) → is_leap (era * 400 + y) ≡ is_leap y
is_leap-era era y = ground arith

day_of_era-pos : (n : ℕ) → day_of_era (pos n) ≡ n % 146097
unfolding day_of_era
day_of_era-pos n = ground arith

in_range : (n : ℕ) → n < 2147483648 → wrap_i32 (pos n) ≡ pos n
in_range n h = ground arith

sum-pos : (a b : ℕ) → pos a +ℤ pos b ≡ pos (a + b)
unfolding ◌+ℤ◌
sum-pos a b = ground arith

-- The date that is so many days after the first of March of the year 0.
pub record DateOf (n : ℕ) (c : Civil) : Type 0 where
  pub year : ℕ
  pub is_year : c.year ≡ pos year
  pub month_ge : 1 ≤ c.month
  pub month_le : c.month ≤ 12
  pub day_ge : 1 ≤ c.day
  pub day_le : c.day ≤ days_in_month year c.month
  pub counted : days_since year c.month c.day ≡ n

abbrev year_at : ℕ → ℕ → ℕ
year_at y doy = if leb (month_of (month_part doy)) 2 then y + 1 else y

year_at-leap :
    (era doe : ℕ)
    → doe < 146097
    → day_of_year doe ≡ 365
    → is_leap (year_at (year_of_era doe + era * 400) (day_of_year doe)) ≡ true
year_at-leap era doe h e =
    rw after_new_year (is_leap-era era (year_of_era doe + 1) ∙ leap-end doe h e)
  where
    after_new_year :
        year_at (year_of_era doe + era * 400) (day_of_year doe) ≡ era * 400 + (year_of_era doe + 1)
    after_new_year = rw e (omega arith)

year_at-wrap :
    (y doy : ℕ)
    → year_at y doy < 2147483648
    → wrap_i32 (if leb (month_of (month_part doy)) 2 then pos y +ℤ pos 1 else pos y)
      ≡ pos (year_at y doy)
unfolding ◌+ℤ◌
year_at-wrap y doy h = ground arith

-- The last era of the `i32` years ends early.
late-year : (doe : ℕ) → doe < 17472 → year_at (year_of_era doe) (day_of_year doe) < 48
late-year doe h = ground arith

year_at-plus : (y k doy : ℕ) → year_at (y + k) doy ≡ year_at y doy + k
year_at-plus y k doy = ground arith

year_at-le : (y doy : ℕ) → year_at y doy ≤ y + 1
year_at-le y doy = ground arith

year_at-lt :
    (era doe : ℕ)
    → doe < 146097
    → era * 146097 + doe < 784352296245
    → year_at (year_of_era doe + era * 400) (day_of_year doe) < 2147483648
year_at-lt era doe h bound = elim (Bool-cases (ltb era 5368709)) [
  | inl early ↦ within (year_of_era doe) (year-lt doe h) (year_at-le _ _) (ltb→lt era 5368709 early)
  | inr late ↦ rw (year_at-plus (year_of_era doe) (era * 400) (day_of_year doe)) (
      last (year_at (year_of_era doe) (day_of_year doe))
        (late-year doe (ground (arith, late, bound))) (ground (arith, late, bound, h)))
]
  where
    within : (y : ℕ) {z : ℕ} → y < 400 → z ≤ y + era * 400 + 1 → era < 5368709 → z < 2147483648
    within y u v w = omega arith

    last : (y : ℕ) → y < 48 → era ≤ 5368709 → y + era * 400 < 2147483648
    last y u v = omega arith

era-back : (era y : ℕ) → y < 400 → (y + era * 400) / 400 ≡ era
era-back era y h = omega arith

year-back : (era y : ℕ) → y < 400 → (y + era * 400) % 400 ≡ y
year-back era y h = omega arith

year_at-back :
    (y month : ℕ)
    → (if leb month 2
        then (if leb month 2 then y + 1 else y) - 1
        else if leb month 2
        then y + 1
        else y)
      ≡ y
year_at-back y month = ground arith

days_since-parts :
    (era y doe doy month day : ℕ)
    → y < 400
    → days_before_year y + doy ≡ doe
    → days_before_month month + day ≡ doy + 1
    → days_since (if leb month 2 then y + era * 400 + 1 else y + era * 400) month day
      ≡ era * 146097 + doe
unfolding days_since
days_since-parts era y doe doy month day small whole part =
    rw (year_at-back (y + era * 400) month, era-back era y small, year-back era y small)
      (ends (days_before_year y) (days_before_month month) whole part)
  where
    ends :
        (a b : ℕ)
        → a + doy ≡ doe
        → b + day ≡ doy + 1
        → era * 146097 + a + b + day - 1 ≡ era * 146097 + doe
    ends a b u v = omega arith

days_since-year_at :
    (era doe : ℕ)
    → doe < 146097
    → days_since
        (year_at (year_of_era doe + era * 400) (day_of_year doe))
        (month_of (month_part (day_of_year doe)))
        (day_of_month (day_of_year doe))
      ≡ era * 146097 + doe
days_since-year_at era doe h =
    days_since-parts era (year_of_era doe) doe (day_of_year doe) _ _ (year-lt doe h)
      (doe-back doe h) (doy-back (day_of_year doe) (year-end doe h))

in_year-DateOf :
    (era doe : ℕ)
    → doe < 146097
    → era * 146097 + doe < 784352296245
    → DateOf (era * 146097 + doe) (in_year (pos (year_of_era doe + era * 400)) (day_of_year doe))
in_year-DateOf era doe h bound = record {
  year = year_at (year_of_era doe + era * 400) (day_of_year doe);
  is_year =
      year_at-wrap (year_of_era doe + era * 400) (day_of_year doe) (year_at-lt era doe h bound);
  month_ge = (month-range (day_of_year doe) (year-end doe h)).0;
  month_le = (month-range (day_of_year doe) (year-end doe h)).1;
  day_ge = omega arith;
  day_le =
      day-in_month (day_of_year doe) (year_at (year_of_era doe + era * 400) (day_of_year doe))
        (year-end doe h) (year_at-leap era doe h);
  counted = days_since-year_at era doe h;
}

-- A day from the first of March of the year 0 to the last of December of the year 2147483647, the
-- last of an `i32`, is given as a date of the Gregorian calendar: the one that is that many days
-- after the first of March of the year 0.
pub civil_from_days-DateOf :
    (days : ℤ) (n : ℕ)
    → days +ℤ pos 719468 ≡ pos n
    → n < 784352296245
    → DateOf n (civil_from_days days)
unfolding civil_from_days
civil_from_days-DateOf days n e bound =
    rw (e, day_of_era-pos n)
      (subst (λ k. DateOf k (dated (pos (year_of_era (n % 146097)) +ℤ pos (n / 146097 * 400))))
        (omega arith)
        (subst (λ y. DateOf (n / 146097 * 146097 + n % 146097) (dated y))
          (sym (sum-pos (year_of_era (n % 146097)) (n / 146097 * 400)))
          (in_year-DateOf (n / 146097) (n % 146097) (omega arith) (omega arith))))
  where
    dated : ℤ → Civil
    dated y = in_year y (day_of_year (n % 146097))
