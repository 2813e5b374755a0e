-- ===== src/Prelude/Words.antt =====
-- What the source asks of the characters of a text: `startswith`, `in`, `split`, `splitlines`, `\d`.
use Prim.Native.Char.{code}
use Prim.Native.Nat.{ℕ, ◌+◌, ◌-◌, ◌*◌, suc, zero}
use Prim.Native.String.{String}
use mathlib.Core.Path.{◌≡◌, refl}
use mathlib.Core.Bool.{Bool, true, false, ◌&&◌, ◌||◌}
use mathlib.Core.List.{List, [], ◌∷◌}
use mathlib.Core.Option.{Option, none, some}
use text.Mathlib.Text.{◌==◌}
use logbook.Prelude.Tests.{leb, eqb, if◌then◌else◌}

unfoldable pub every : (ℕ → Bool) → String → Bool
every test String.[] = true
every test (String.◌∷◌ c s) = test (code c) && every test s

unfoldable pub size : String → ℕ
size String.[] = 0
size (String.◌∷◌ c s) = suc (size s)

-- `s + t`
abbrev pub plus : String → String → String
plus String.[] t = t
plus (String.◌∷◌ c s) t = String.◌∷◌ c (plus s t)

-- What is left of a text behind a prefix.
unfoldable pub after : String → String → Option String
after String.[] s = some s
after (String.◌∷◌ c p) String.[] = none
after (String.◌∷◌ c p) (String.◌∷◌ d s) =
    let rest = after p s in if eqb (code c) (code d) then rest else none

abbrev pub was_found : Option String → Bool
was_found none = false
was_found (some rest) = true

unfoldable pub starts_with : String → String → Bool
unfolding after
starts_with p s = was_found (after p s)

-- `t in s`
unfoldable pub contains : String → String → Bool
unfolding starts_with
contains t String.[] = starts_with t String.[]
contains t (String.◌∷◌ c s) = starts_with t (String.◌∷◌ c s) || contains t s

-- `s.endswith(t)`
unfoldable pub has_end : String → String → Bool
has_end t String.[] = t == String.[]
has_end t (String.◌∷◌ c s) = t == String.◌∷◌ c s || has_end t s

-- The text up to a character, and the text behind it.
pub record Cut : Type 0 where
  pub before : String
  pub behind : String

unfoldable pub cut : ℕ → String → Option Cut
cut mark String.[] = none
cut mark (String.◌∷◌ c s) =
    let rest = cut mark s in
    if eqb (code c) mark then some (record { before = String.[]; behind = s }) else elim rest [
      | none ↦ none
      | some r ↦ some (record { before = String.◌∷◌ c r.before; behind = r.behind })
    ]

-- `s.split(mark)`
unfoldable pub split : ℕ → String → List String
split mark String.[] = String.[] ∷ []
split mark (String.◌∷◌ c s) =
    let rest = split mark s in
    if eqb (code c) mark
    then String.[] ∷ rest
    else elim rest [ [] ↦ String.◌∷◌ c String.[] ∷ [] | t ∷ parts ↦ String.◌∷◌ c t ∷ parts ]

-- `s.split("\n")`
unfoldable pub lines_of : String → List String
unfolding split
lines_of s = split 10 s

-- `s.removesuffix(suffix)`, for a suffix that is not empty.
unfoldable pub remove_suffix : String → String → String
remove_suffix suffix String.[] = String.[]
remove_suffix suffix (String.◌∷◌ c s) =
    let rest = remove_suffix suffix s in
    if String.◌∷◌ c s == suffix then String.[] else String.◌∷◌ c rest

-- `s[:-n]`
unfoldable pub drop_end : ℕ → String → String
unfolding size
drop_end n String.[] = String.[]
drop_end n (String.◌∷◌ c s) =
    let rest = drop_end n s in if leb (suc (size s)) n then String.[] else String.◌∷◌ c rest

-- What `str.splitlines` breaks on, by code point.
unfoldable pub breaks_line : ℕ → Bool
breaks_line c =
    (leb 10 c && leb c 13) || (leb 28 c && leb c 30) || eqb c 133 || eqb c 8232 || eqb c 8233

-- `s.replace("\r\n", "\n")`
unfoldable pub unix_breaks : String → String
unix_breaks String.[] = String.[]
unix_breaks (String.◌∷◌ c s) =
    let rest = unix_breaks s in
    if eqb (code c) 13 && starts_with "\n" s then rest else String.◌∷◌ c rest

-- The pieces between line breaks of any kind.
unfoldable pub pieces : String → List String
unfolding breaks_line
pieces String.[] = String.[] ∷ []
pieces (String.◌∷◌ c s) =
    let rest = pieces s in
    if breaks_line (code c)
    then String.[] ∷ rest
    else elim rest [ [] ↦ String.◌∷◌ c String.[] ∷ [] | t ∷ parts ↦ String.◌∷◌ c t ∷ parts ]

-- A last piece that is empty is no line.
unfoldable pub without_last_empty : List String → List String
without_last_empty [] = []
without_last_empty (s ∷ parts) = elim parts [
  | [] ↦ if s == String.[] then [] else s ∷ []
  | t ∷ more ↦ s ∷ without_last_empty parts
]

-- `s.splitlines()`; a carriage return and a line feed behind it are one break.
unfoldable pub split_lines : String → List String
unfolding unix_breaks pieces without_last_empty
split_lines s = without_last_empty (pieces (unix_breaks s))

unfoldable pub is_digit : ℕ → Bool
is_digit c = leb 48 c && leb c 57

-- A number of exactly so many digits, and the text behind it.
pub record Reading : Type 0 where
  pub value : ℕ
  pub rest : String

unfoldable pub number : ℕ → ℕ → String → Option Reading
unfolding is_digit
number zero acc s = some (record { value = acc; rest = s })
number (suc n) acc String.[] = none
number (suc n) acc (String.◌∷◌ c s) =
    let more = number n (10 * acc + (code c - 48)) s in if is_digit (code c) then more else none

year_reading : number 4 0 "2026-09" ≡ some (record { value = 2026; rest = "-09" })
unfolding number
year_reading = refl

-- `s[:n]`
unfoldable pub first_chars : ℕ → String → String
first_chars zero s = String.[]
first_chars (suc n) String.[] = String.[]
first_chars (suc n) (String.◌∷◌ c s) = String.◌∷◌ c (first_chars n s)

-- `s[n:]`
unfoldable pub drop_chars : ℕ → String → String
drop_chars zero s = s
drop_chars (suc n) String.[] = String.[]
drop_chars (suc n) (String.◌∷◌ c s) = drop_chars n s

-- `str(n)` of a number below ten
unfoldable pub digit : ℕ → String
digit n =
    if eqb n 0
    then "0"
    else if eqb n 1
    then "1"
    else if eqb n 2
    then "2"
    else if eqb n 3
    then "3"
    else if eqb n 4
    then "4"
    else if eqb n 5
    then "5"
    else if eqb n 6
    then "6"
    else if eqb n 7
    then "7"
    else if eqb n 8
    then "8"
    else "9"
