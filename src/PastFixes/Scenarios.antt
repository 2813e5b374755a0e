-- ===== src/PastFixes/Scenarios.antt =====
-- The theorems of src/dbwiki/past_fixes.py at concrete incidents and pages.
use logbook.Prelude.{
  String, ◌≡◌, refl, ◌↔◌, false, none, some, List, [], ◌∷◌, nonempty, starts_with,
}
use logbook.Incident.{
  Incident, ActionRecord, ActionKind, Status, resolved, open_status, succeeded, merge, resolve,
}
use logbook.Pagetext.{page_lines}
use logbook.PastFixes.Lineage.{Corpus, held_by, Trail, IsLast, held_by-IsFollowed}
use logbook.PastFixes.Verdicts.{Occurrence, PastFix, held, verdict_for}
use logbook.PastFixes.Verdicts.Held.{HasLasted, verdict_for-HasLasted}
use logbook.PastFixes.Apply.{body_of, apply}
use logbook.PastFixes.Applied.{apply-again}

abbrev act : String → ActionKind → String → Status → ActionRecord
act at kind summary after = record {
  at = at;
  kind = kind;
  actor = "ops";
  intent = "";
  summary = summary;
  status_after = after;
  ticket = "";
  outcome = succeeded;
  rollback = "";
  window = none;
  evidence = [];
  notes = "";
  error_pages = false;
}

abbrev page_of : String → Status → List ActionRecord → Incident
page_of path status actions = record {
  path = path;
  db = "db1";
  status = status;
  updated = "2026-07-01";
  monitoring_window = none;
  unknown_status = none;
  actions = actions;
}

-- Two pages that were folded into each other.
abbrev first_page : Incident
first_page =
    page_of "incidents/a.md" resolved
      (act "2026-07-01T10:00:00Z" merge "duplicate of b" resolved ∷ [])

abbrev second_page : Incident
second_page =
    page_of "incidents/b.md" open_status
      (act "2026-07-02T10:00:00Z" merge "duplicate of a" resolved ∷ [])

abbrev circle : Corpus
circle = ("incidents/a.md", first_page) ∷ ("incidents/b.md", second_page) ∷ []

circle_ends : held_by circle first_page ≡ some second_page
unfolding held_by nonempty
circle_ends = refl

held_by-IsFollowed_example :
    (page : Incident) × (seen : List String) × (held_by circle first_page ≡ some page)
    × Trail circle first_page seen page
    × IsLast circle seen page
held_by-IsFollowed_example = held_by-IsFollowed circle first_page

abbrev grown : ActionRecord
grown = act "2026-07-01T10:00:00Z" resolve "added a datafile" resolved

abbrev other_db : List Occurrence
other_db = record { day = "2026-07-03"; db = "db2" } ∷ []

it_held :
    verdict_for other_db "db1" 739_812 14 grown [] false
    ≡ some (record { verdict = held; day = none })
unfolding verdict_for
it_held = refl

verdict_for-HasLasted_example :
    (verdict_for other_db "db1" 739_812 14 grown [] false
      ≡ some (record { verdict = held; day = none }))
    ↔ HasLasted other_db "db1" 739_812 14 grown [] false
verdict_for-HasLasted_example = verdict_for-HasLasted other_db "db1" 739_812 14 grown [] false

abbrev error_page : String
error_page = "# ORA-1653\n\n## Resolution history\n- a\n\n## Notes\nx\n"

abbrev one_fix : PastFix
one_fix = record {
  code = "ORA-1653";
  incident = "a";
  db = "db1";
  day = "2026-07-01";
  kind = resolve;
  at = "2026-07-01T10:00:00Z";
  summary = "added a datafile";
  outcome = succeeded;
  judged = record { verdict = held; day = none };
}

abbrev one_body : String
one_body =
    "1 fix across 1 incident on 1 database: 1 held.\n\n| when | db | incident | what was done | outcome | held |\n|---|---|---|---|---|---|\n| 2026-07-01 | db1 | [[incidents/a]] | added a datafile | succeeded | held (14d) |"

section_rendered : body_of (λ f. f.summary) 14 (one_fix ∷ []) ≡ some one_body
unfolding body_of nonempty
section_rendered = refl

apply-again_example :
    let done =
      apply (λ f. f.summary) 14 "2026-08-01" "errors/ORA-1653.md" error_page none (one_fix ∷ []) in
    apply (λ f. f.summary) 14 "2026-08-01" "errors/ORA-1653.md" done.page done.log (one_fix ∷ [])
    ≡ record { page = done.page; log = done.log; changed = false }
unfolding page_lines starts_with nonempty
apply-again_example =
    apply-again (λ f. f.summary) 14 "2026-08-01" "errors/ORA-1653.md" (one_fix ∷ []) error_page
      one_body none section_rendered (refl, (refl, (refl, (refl, (refl, tt)))))
