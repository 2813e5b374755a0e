-- ===== src/PastFixes/Apply.antt =====
-- `render` and `apply`: the section of an error page as text, and its write.
use logbook.Prelude.{
  among, ℕ, zero, suc, ◌+◌, ◌/◌, String, ◌≡◌, refl, Bool, true, false, ◌&&◌, ◌||◌, Option, none,
  some, List, [], ◌∷◌, filter, map, length, leb, ltb, eqb, plus, nonempty, is_space, concat, sorted,
  if◌then◌else◌, ◌==◌, digit,
}
use Prim.Native.Nat.{◌%◌}
use Prim.Native.Char.{code}
use logbook.Incident.{Outcome, pending, succeeded, failed, rejected}
use logbook.Pagetext.{log_append, join_lines}
use logbook.PastFixes.Verdicts.{
  FixVerdict, Judged, PastFix, open_yet, reopened, recurred, held, too_soon, not_applicable,
}
use logbook.PastFixes.Splice.{splice_section}

-- `str(n)`
decimal_in : ℕ → ℕ → String → String
unfolding digit
decimal_in zero n behind = behind
decimal_in (suc rounds) n behind =
    let text = plus (digit (n % 10)) behind in
    elim (ltb n 10) [ true ↦ text | false ↦ decimal_in rounds (n / 10) text ]

unfoldable pub decimal : ℕ → String
unfolding decimal_in
decimal n = decimal_in (suc n) n ""

-- The value of a verdict, and its place in `Verdict`.
verdict_text : FixVerdict → String
verdict_text open_yet = "open"
verdict_text reopened = "reopened"
verdict_text recurred = "recurred"
verdict_text held = "held"
verdict_text too_soon = "too soon"
verdict_text not_applicable = "n/a"

place_of : FixVerdict → ℕ
place_of open_yet = 0
place_of reopened = 1
place_of recurred = 2
place_of held = 3
place_of too_soon = 4
place_of not_applicable = 5

outcome_text : Outcome → String
outcome_text pending = "pending"
outcome_text succeeded = "succeeded"
outcome_text failed = "failed"
outcome_text rejected = "rejected"

with_day : String → Option String → String
unfolding nonempty
with_day text none = text
with_day text (some day) = if nonempty day then plus text (plus " " day) else text

-- `held_cell`
unfoldable pub held_cell : ℕ → Judged → String
unfolding decimal with_day verdict_text
held_cell wait j = elim j.verdict [
  | held ↦ plus "held (" (plus (decimal wait) "d)")
  | reopened ↦ with_day "reopened" j.day
  | recurred ↦ with_day "recurred" j.day
  | _ ↦ verdict_text j.verdict
]

-- `counts`, by the order in which a verdict comes first.
counted : FixVerdict → List (FixVerdict × ℕ) → List (FixVerdict × ℕ)
unfolding place_of
counted v [] = (v, 1) ∷ []
counted v ((w, n) ∷ counts) =
    let rest = counted v counts in
    if eqb (place_of v) (place_of w) then (w, n + 1) ∷ counts else (w, n) ∷ rest

unfoldable pub verdict_counts : List (FixVerdict × ℕ) → List PastFix → List (FixVerdict × ℕ)
unfolding counted
verdict_counts counts [] = counts
verdict_counts counts (fix ∷ fixes) = verdict_counts (counted fix.judged.verdict counts) fixes

-- `(-n, order)`
before_count : FixVerdict × ℕ → FixVerdict × ℕ → Bool
unfolding place_of
before_count (v, n) (w, m) = ltb m n || (eqb n m && leb (place_of v) (place_of w))

plural : ℕ → String → String → String
unfolding decimal
plural n one many = plus (decimal n) (plus " " (if eqb n 1 then one else many))

different : List String → List String → List String
different seen [] = seen
different seen (s ∷ ss) = different (if among s seen then seen else s ∷ seen) ss

joined_by : String → List String → String
joined_by mark [] = ""
joined_by mark (s ∷ ss) = elim ss [ [] ↦ s | t ∷ more ↦ plus s (plus mark (joined_by mark ss)) ]

unfoldable pub summary_line : List PastFix → String
unfolding verdict_counts before_count plural different joined_by verdict_text decimal sorted
summary_line fixes =
    let tail = joined_by ", " (
      map (λ (v, n). plus (decimal n) (plus " " (verdict_text v)))
        (sorted before_count (verdict_counts [] fixes))) in
    concat (
      plural (length fixes) "fix" "fixes"
      ∷ " across "
      ∷ plural (length (different [] (map (λ f. f.incident) fixes))) "incident" "incidents"
      ∷ " on "
      ∷ plural (length (different [] (map (λ f. f.db) fixes))) "database" "databases"
      ∷ ": "
      ∷ tail
      ∷ [])

-- The words of a text, and `oneline` of src/dbwiki/pagetext.py.
words_of : String → List String
unfolding is_space
words_of String.[] = String.[] ∷ []
words_of (String.◌∷◌ c s) =
    let rest = words_of s in
    if is_space (code c)
    then String.[] ∷ rest
    else elim rest [ [] ↦ String.◌∷◌ c String.[] ∷ [] | t ∷ parts ↦ String.◌∷◌ c t ∷ parts ]

escaped : String → String
escaped String.[] = String.[]
escaped (String.◌∷◌ c s) =
    let rest = String.◌∷◌ c (escaped s) in if eqb (code c) 124 then String.◌∷◌ "\\" rest else rest

unfoldable pub oneline : String → String
unfolding words_of escaped joined_by filter nonempty
oneline text = escaped (joined_by " " (filter nonempty (words_of text)))

abbrev table_head : String
table_head = "| when | db | incident | what was done | outcome | held |\n|---|---|---|---|---|---|"

-- The cell of what was done is an argument: it leaves out the URLs that src/dbwiki/research.py finds.
unfoldable pub render : (PastFix → String) → ℕ → List PastFix → String
unfolding summary_line oneline held_cell outcome_text join_lines
render action_cell wait fixes = concat (
    summary_line fixes
    ∷ ".\n\n"
    ∷ table_head
    ∷ "\n"
    ∷ join_lines (
        map
          (λ f. concat (
            "| "
            ∷ f.day
            ∷ " | "
            ∷ oneline f.db
            ∷ " | [[incidents/"
            ∷ f.incident
            ∷ "]] | "
            ∷ action_cell f
            ∷ " | "
            ∷ outcome_text f.outcome
            ∷ " | "
            ∷ held_cell wait f.judged
            ∷ " |"
            ∷ []))
          fixes)
    ∷ [])

-- The error page and log.md, and whether the page changed.
pub record Applied : Type 0 where
  pub page : String
  pub log : Option String
  pub changed : Bool

unfoldable pub body_of : (PastFix → String) → ℕ → List PastFix → Option String
unfolding render
body_of action_cell wait [] = none
body_of action_cell wait (f ∷ fixes) = some (render action_cell wait (f ∷ fixes))

unfoldable pub apply :
    (PastFix → String) → ℕ → String → String → String → Option String → List PastFix → Applied
unfolding splice_section body_of log_append decimal
apply action_cell wait today rel_page text log fixes =
    let next = splice_section text (body_of action_cell wait fixes) in
    let line = concat (
      "["
      ∷ today
      ∷ "] research (history) — "
      ∷ rel_page
      ∷ ": "
      ∷ decimal (length fixes)
      ∷ " fix(es)"
      ∷ []) in
    if next == text
    then record { page = text; log = log; changed = false }
    else record { page = next; log = some (log_append log line); changed = true }

printed : decimal 1_204 ≡ "1204"
unfolding decimal
printed = refl

one_cell : oneline " a |\n b\t" ≡ "a \\| b"
unfolding oneline nonempty
one_cell = refl
