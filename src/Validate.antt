-- ===== src/Validate.antt =====
-- src/dbwiki/validate.py: the checks of what arrives from outside. `none` is the `ValueError`; a value
-- is a text already, so `isinstance(s, str)` holds. `confined` asks the file system and is not here.
pub mod Ids
mod Scenarios
use logbook.Prelude.{
  ℕ, zero, suc, ◌*◌, ◌/◌, ◌-◌, String, ◌≡◌, refl, Bool, true, false, not, ◌&&◌, ◌||◌, Option, none,
  some, ltb, leb, eqb, ◌==◌, every, size, after, starts_with, contains, breaks_line, is_digit,
  number, if◌then◌else◌,
}
use Prim.Native.Nat.{◌%◌}
use Prim.Native.Char.{code}

infixl 5 ◌>>=◌ ◌>>◌
abbrev pub ◌>>=◌ : {A B : Type 0} → Option A → (A → Option B) → Option B
none >>= f = none
some a >>= f = f a

abbrev pub ◌>>◌ : {A B : Type 0} → Option A → Option B → Option B
m >> n = m >>= λ _. n

-- `if not test: raise ValueError`
abbrev pub check : Bool → Option {0} Unit
check true = some tt
check false = none

-- `try: check except ValueError: return False`
abbrev pub passes : {A : Type 0} → Option A → Bool
passes none = false
passes (some a) = true

-- `[A-Za-z0-9]`
unfoldable pub is_word_start : ℕ → Bool
unfolding is_digit
is_word_start c = is_digit c || (leb 65 c && leb c 90) || (leb 97 c && leb c 122)

-- `[A-Za-z0-9._-]`
unfoldable pub is_id_char : ℕ → Bool
unfolding is_word_start
is_id_char c = is_word_start c || eqb c 46 || eqb c 95 || eqb c 45

-- `SAFE_ID_RE.match(s)`
unfoldable pub has_id_shape : String → Bool
unfolding is_id_char every
has_id_shape String.[] = false
has_id_shape (String.◌∷◌ c s) = is_word_start (code c) && every is_id_char s

abbrev pub safe_id_max : ℕ
safe_id_max = 200

unfoldable pub safe_id : String → Option String
unfolding has_id_shape size contains
safe_id s = do
  check (has_id_shape s)
  check (leb (size s) safe_id_max)
  check (not (contains ".." s))
  some s

unfoldable pub is_safe_id : String → Bool
unfolding safe_id
is_safe_id s = passes (safe_id s)

unfoldable pub review_id : String → Option String
unfolding number after
review_id s = do
  year ← number 4 0 s
  tail ← after "-W" year.rest
  week ← number 2 0 tail
  check (week.rest == "")
  check (leb 1 week.value && leb week.value 53)
  some s

unfoldable pub is_leap : ℕ → Bool
is_leap y = eqb (y % 4) 0 && (not (eqb (y % 100) 0) || eqb (y % 400) 0)

-- The days of a month of the calendar that `datetime` keeps.
unfoldable pub days_in_month : ℕ → ℕ → ℕ
unfolding is_leap
days_in_month y m =
    if eqb m 2
    then (if is_leap y then 29 else 28)
    else if eqb m 4 || eqb m 6 || eqb m 9 || eqb m 11
    then 30
    else 31

-- The day at the head of a text, if the calendar has it; what is behind it is returned.
unfoldable pub real_day : String → Option String
unfolding number after days_in_month
real_day s = do
  year ← number 4 0 s
  s1 ← after "-" year.rest
  month ← number 2 0 s1
  s2 ← after "-" month.rest
  day ← number 2 0 s2
  check (leb 1 year.value)
  check (leb 1 month.value && leb month.value 12)
  check (leb 1 day.value && leb day.value (days_in_month year.value month.value))
  some day.rest

unfoldable pub instant : String → Option String
unfolding number after real_day
instant s = do
  s1 ← real_day s
  s2 ← after "T" s1
  hour ← number 2 0 s2
  s3 ← after ":" hour.rest
  minute ← number 2 0 s3
  s4 ← after ":" minute.rest
  second ← number 2 0 s4
  check (second.rest == "Z")
  check (leb hour.value 23)
  check (leb minute.value 59)
  check (leb second.value 59)
  some s

unfoldable pub is_instant : String → Bool
unfolding instant
is_instant s = passes (instant s)

unfoldable pub one_line : String → Option String
unfolding every breaks_line
one_line s = do check (every (λ c. not (breaks_line c)) s); some s

february : real_day "2026-02-30T" ≡ none
unfolding real_day
february = refl

leap : instant "2028-02-29T10:00:00Z" ≡ some "2028-02-29T10:00:00Z"
unfolding instant
leap = refl

week_53 : review_id "2026-W53" ≡ some "2026-W53"
unfolding review_id
week_53 = refl

dots : safe_id "a..b" ≡ none
unfolding safe_id
dots = refl
