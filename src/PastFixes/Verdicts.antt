-- ===== src/PastFixes/Verdicts.antt =====
-- `verdict_for` and `gather`: every record of a fix on the pages that link an error, judged.
pub mod Held
use logbook.Prelude.{
  ℕ, zero, suc, ◌+◌, String, ◌≡◌, refl, Bool, true, false, not, ◌&&◌, ◌||◌, Option, none, some,
  List, [], ◌∷◌, ◌++◌, any, filter, map, flat_map, ◌==◌, leb, text_ltb, text_leb, strip, nonempty,
  sorted, if◌then◌else◌, first_chars,
}
use logbook.Validate.{◌>>=◌}
use logbook.Incident.{
  Incident, ActionRecord, ActionKind, Outcome, record_action, start_monitoring, extend_monitoring,
  resolve, reopen, merge, rejected, failed, same_kind,
}
use logbook.PastFixes.Days.{day_of}
use logbook.PastFixes.Lineage.{Corpus, is_closed}

pub record Occurrence : Type 0 where
  pub day : String
  pub db : String

pub data FixVerdict : Type 0 where
  open_yet reopened recurred held too_soon not_applicable : FixVerdict

-- `tuple[Verdict, str | None]`
pub record Judged : Type 0 where
  pub verdict : FixVerdict
  pub day : Option String

-- `record.at[:10]`
unfoldable pub day_at : ActionRecord → String
unfolding first_chars
day_at r = first_chars 10 r.at

-- `FIX_KINDS` and `MERGE_INTENT`
abbrev is_fix_kind : ActionKind → Bool
is_fix_kind extend_monitoring = false
is_fix_kind merge = false
is_fix_kind _ = true

unfoldable pub is_fix : ActionRecord → Bool
unfolding same_kind strip
is_fix r =
    is_fix_kind r.kind
    && not (same_kind r.kind record_action && strip r.intent == "keep one page for this db and day")

abbrev pub is_no_fix : Outcome → Bool
is_no_fix rejected = true
is_no_fix failed = true
is_no_fix _ = false

-- `next((r for r in later if r.kind == kind), None)`
unfoldable pub first_kind : ActionKind → List ActionRecord → Option ActionRecord
unfolding same_kind
first_kind kind [] = none
first_kind kind (r ∷ rs) =
    let rest = first_kind kind rs in if same_kind r.kind kind then some r else rest

unfoldable pub has_kind : ActionKind → List ActionRecord → Bool
unfolding same_kind
has_kind kind = any λ r. same_kind r.kind kind

abbrev smaller : String → Option String → Option String
smaller s none = some s
smaller s (some t) = if text_leb s t then some s else some t

-- `min(days, default=None)`
unfoldable pub earliest : List String → Option String
unfolding text_leb
earliest [] = none
earliest (s ∷ ss) = smaller s (earliest ss)

-- The days after a fix on which the error was seen again on its database.
unfoldable pub seen_again : String → String → List Occurrence → List String
unfolding filter text_ltb
seen_again db day occurrences =
    map (λ o. o.day) (filter (λ o. o.db == db && text_ltb day o.day) occurrences)

-- Silence, read as the fix holding; `today` is a number of days.
abbrev pub after_silence : ℕ → ℕ → Option ℕ → Option Judged
after_silence today wait none = none
after_silence today wait (some day) =
    if leb (day + wait) today
    then some (record { verdict = held; day = none })
    else some (record { verdict = too_soon; day = none })

module _ (occurrences : List Occurrence) (db : String) (today wait : ℕ) where
  abbrev by_recurrence : String → Option String → Option Judged
  by_recurrence day none = after_silence today wait (day_of day)
  by_recurrence day (some again) = some (record { verdict = recurred; day = some again })

  abbrev by_reopen : ActionRecord → List ActionRecord → Bool → Option ActionRecord → Option Judged
  by_reopen r later closed (some q) = some (record { verdict = reopened; day = some (day_at q) })
  by_reopen r later closed none =
      if not (same_kind r.kind resolve) && not closed && not (has_kind resolve later)
      then some (record { verdict = open_yet; day = none })
      else by_recurrence (day_at r) (earliest (seen_again db (day_at r) occurrences))

  -- `none` is the `ValueError` of a day that the calendar does not have.
  unfoldable pub verdict_for : ActionRecord → List ActionRecord → Bool → Option Judged
  unfolding same_kind first_kind has_kind day_at earliest seen_again day_of
  verdict_for r later closed =
      if same_kind r.kind reopen || is_no_fix r.outcome
      then some (record { verdict = not_applicable; day = none })
      else by_reopen r later closed (first_kind reopen later)

-- A page of `incidents/`, with its slug and the codes that it links.
pub record Linked : Type 0 where
  pub incident : Incident
  pub slug : String
  pub codes : List String

pub record PastFix : Type 0 where
  pub code : String
  pub incident : String
  pub db : String
  pub day : String
  pub kind : ActionKind
  pub at : String
  pub summary : String
  pub outcome : Outcome
  pub judged : Judged

module _ (code : String) (occurrences : List Occurrence) (today wait : ℕ) (closed : Bool) where
  abbrev fix_of : Linked → ActionRecord → Judged → PastFix
  fix_of page r j = record {
    code = code;
    incident = page.slug;
    db = page.incident.db;
    day = day_at r;
    kind = r.kind;
    at = r.at;
    summary = r.summary;
    outcome = r.outcome;
    judged = j;
  }

  abbrev with_row : Option PastFix → Option (List PastFix) → Option (List PastFix)
  with_row none rows = none
  with_row (some row) none = none
  with_row (some row) (some rows) = some (row ∷ rows)

  abbrev row_of : Linked → ActionRecord → Option Judged → Option PastFix
  row_of page r none = none
  row_of page r (some j) = some (fix_of page r j)

  -- The records of one page, oldest first, each with those behind it.
  unfoldable pub rows_of : Linked → List ActionRecord → Option (List PastFix)
  unfolding is_fix verdict_for day_at
  rows_of page [] = some []
  rows_of page (r ∷ later) =
      let rest = rows_of page later in
      let verdict = verdict_for occurrences page.incident.db today wait r later closed in
      if is_fix r then with_row (row_of page r verdict) rest else rest

abbrev earlier : ActionRecord → ActionRecord → Bool
earlier a b = text_leb a.at b.at

-- The rows by `(at, slug)`, newest first.
abbrev newer : PastFix → PastFix → Bool
newer a b = text_ltb b.at a.at || (a.at == b.at && text_leb b.incident a.incident)

abbrev appended_rows : Option (List PastFix) → Option (List PastFix) → Option (List PastFix)
appended_rows none more = none
appended_rows (some rows) none = none
appended_rows (some rows) (some more) = some (rows ++ more)

-- The rows of one error page.
unfoldable pub page_rows :
    Corpus → String → List Occurrence → ℕ → ℕ → List Linked → Option (List PastFix)
unfolding rows_of is_closed sorted text_leb
page_rows corpus code occurrences today wait [] = some []
page_rows corpus code occurrences today wait (page ∷ pages) =
    appended_rows
      (rows_of code occurrences today wait (is_closed corpus page.incident) page
        (sorted earlier page.incident.actions))
      (page_rows corpus code occurrences today wait pages)

-- One turn of the loop of `gather`: the history of a code, none where it has no fix.
unfoldable pub history_of :
    Corpus → List Linked → String → List Occurrence → ℕ → ℕ → Option (List PastFix)
unfolding page_rows filter sorted text_ltb text_leb
history_of corpus pages code occurrences today wait = do
  rows ←
      page_rows corpus code occurrences today wait
        (filter (λ p. any (λ c. c == code) p.codes) pages)
  some (sorted newer rows)
