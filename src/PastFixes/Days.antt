-- ===== src/PastFixes/Days.antt =====
-- `date.fromisoformat` and the difference of two dates, in days.
use logbook.Prelude.{
  ℕ, zero, suc, ◌+◌, ◌*◌, ◌/◌, ◌-◌, String, ◌≡◌, refl, Option, some, number, after,
}
use logbook.Validate.{days_in_month, ◌>>=◌}

-- The days of a year before a month.
days_before_month : ℕ → ℕ → ℕ
unfolding days_in_month
days_before_month y zero = 0
days_before_month y (suc zero) = 0
days_before_month y (suc (suc m)) = days_before_month y (suc m) + days_in_month y (suc m)

-- `date(y, m, d).toordinal()`
unfoldable pub ordinal : ℕ → ℕ → ℕ → ℕ
unfolding days_before_month
ordinal y m d =
    let past = y - 1 in 365 * past + past / 4 - past / 100 + past / 400 + days_before_month y m + d

-- A day that the calendar has, as its ordinal.
unfoldable pub day_of : String → Option ℕ
unfolding number after ordinal
day_of s = do
  year ← number 4 0 s
  s1 ← after "-" year.rest
  month ← number 2 0 s1
  s2 ← after "-" month.rest
  day ← number 2 0 s2
  some (ordinal year.value month.value day.value)

new_year : ordinal 2026 1 1 ≡ 739_617
unfolding ordinal
new_year = refl

leap_day : day_of "2024-03-01" ≡ some 738_946
unfolding day_of
leap_day = refl
