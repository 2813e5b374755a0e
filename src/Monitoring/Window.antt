-- ===== src/Monitoring/Window.antt =====
-- The days of a monitoring window, `[start, until)`.
use logbook.Prelude.{
  ℕ, zero, suc, ◌+◌, ◌-◌, ◌/◌, min, String, ◌≡◌, refl, Option, some, List, [], ◌∷◌, ◌==◌, eqb, ltb,
  plus, number, after, digit, first_chars, drop_chars, text_ltb, if◌then◌else◌,
}
use Prim.Native.Nat.{◌%◌}
use logbook.Validate.{real_day, days_in_month, check, ◌>>=◌, ◌>>◌}
use logbook.Incident.{MonitoringWindow, manual}
use logbook.PastFixes.Days.{ordinal}

-- `datetime.date`
pub record CalendarDay : Type 0 where
  pub year : ℕ
  pub month : ℕ
  pub of_month : ℕ

-- `date.fromisoformat`, of `YYYY-MM-DD`
unfoldable pub date_of : String → Option CalendarDay
unfolding real_day number after
date_of s = do
  behind ← real_day s
  check (behind == "")
  year ← number 4 0 s
  s1 ← after "-" year.rest
  month ← number 2 0 s1
  s2 ← after "-" month.rest
  day ← number 2 0 s2
  some (record { year = year.value; month = month.value; of_month = day.value })

-- `d + timedelta(days=1)`
unfoldable pub next_day : CalendarDay → CalendarDay
unfolding days_in_month
next_day d =
    if ltb d.of_month (days_in_month d.year d.month)
    then record { year = d.year; month = d.month; of_month = d.of_month + 1 }
    else if eqb d.month 12
    then record { year = d.year + 1; month = 1; of_month = 1 }
    else record { year = d.year; month = d.month + 1; of_month = 1 }

two_digits : ℕ → String
unfolding digit
two_digits n = plus (digit (n / 10 % 10)) (digit (n % 10))

-- `d.isoformat()`
unfoldable pub iso : CalendarDay → String
unfolding two_digits
iso d = plus (two_digits (d.year / 100)) (
    plus (two_digits d.year)
      (plus "-" (plus (two_digits d.month) (plus "-" (two_digits d.of_month)))))

-- `timedelta.days` of two dates needs the number of a day.
abbrev day_number : CalendarDay → ℕ
day_number d = ordinal d.year d.month d.of_month

abbrev last_day : String → ℕ
last_day time = if text_ltb "00:00:00Z" time then 1 else 0

-- The days that the window spans. One that ends before it starts spans none here; the source has a number
-- below zero, which it reads the same way.
unfoldable pub window_day_count : MonitoringWindow → Option ℕ
unfolding date_of ordinal first_chars drop_chars text_ltb
window_day_count w = do
  until ← date_of (first_chars 10 w.until)
  start ← date_of (first_chars 10 w.start)
  some (day_number until + last_day (drop_chars 11 w.until) - day_number start)

-- `MAX_WINDOW_DAYS`
abbrev pub max_window_days : ℕ
max_window_days = 92

unfoldable pub days_from : ℕ → CalendarDay → List String
unfolding iso next_day
days_from zero d = []
days_from (suc n) d = iso d ∷ days_from n (next_day d)

unfoldable pub window_days : MonitoringWindow → Option (List String)
unfolding date_of window_day_count days_from first_chars
window_days w = do
  first ← date_of (first_chars 10 w.start)
  count ← window_day_count w
  some (days_from (min count max_window_days) first)

over_new_year :
    window_days (record {
      signal = manual "";
      start = "2027-12-30T08:00:00Z";
      until = "2028-01-02T00:00:00Z";
    })
    ≡ some ("2027-12-30" ∷ "2027-12-31" ∷ "2028-01-01" ∷ [])
unfolding window_days
over_new_year = refl
