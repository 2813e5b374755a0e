-- ===== src/Lifecycle/Scenarios.antt =====
-- src/dbwiki/lifecycle.py on two open pages of one database, one monitored page and one resolved page.
use logbook.Prelude.{
  String, ◌≡◌, refl, true, Option, none, some, List, [], ◌∷◌, any, text_leb, text_ltb,
}
use logbook.Prelude.Dict.{Dict}
use logbook.Incident.{
  Status, open_status, monitoring, resolved, error_absent, MonitoringWindow, Incident, is_active,
}
use logbook.Lifecycle.{Command, starts, extends, resolves, merges, Resolve, Merge, ok, extended}
use logbook.Lifecycle.Table.{run, closes_page, run-closes}
use logbook.Lifecycle.Build.{build}
use logbook.Lifecycle.Build.Statuses.{IsMove, build-IsMove}
use logbook.Lifecycle.Build.Windows.{
  IsWatched, All-IsWatched, watched, Attempt, attempts, attempts-IsWatched, settled,
}
use logbook.Lifecycle.Build.Audit.{IsAudited, build-IsAudited}
use logbook.Lifecycle.Build.Merges.{IsFolded, build-IsFolded}

abbrev page : String → Status → Option MonitoringWindow → Incident
page path status w = record {
  path = path;
  db = "cdb1";
  status = status;
  updated = "";
  monitoring_window = w;
  unknown_status = none;
  actions = [];
}

abbrev window : MonitoringWindow
window = record {
  signal = error_absent "TNS-12564";
  start = "2026-09-01T10:00:00Z";
  until = "2026-09-03T10:00:00Z";
}

abbrev tree : Dict Incident
tree =
    ("incidents/a.md", page "incidents/a.md" open_status none)
    ∷ ("incidents/b.md", page "incidents/b.md" open_status none)
    ∷ ("incidents/m.md", page "incidents/m.md" monitoring (some window))
    ∷ ("incidents/r.md", page "incidents/r.md" resolved none)
    ∷ []

abbrev merge_a : Merge
merge_a = record { into = "b"; notes = "same listener" }

abbrev merged : Dict Incident
merged =
    settled tree
      (build tree "incidents/a.md" (merges merge_a) "ops@example.org" "2026-09-02T08:00:00Z")

merge_taken :
    build tree "incidents/a.md" (merges merge_a) "ops@example.org" "2026-09-02T08:00:00Z"
    ≡ ok merged
unfolding build
merge_taken = refl

build-IsFolded_example : IsFolded tree "incidents/a.md" merge_a merged
build-IsFolded_example =
    build-IsFolded tree "incidents/a.md" merge_a "ops@example.org" "2026-09-02T08:00:00Z" merged
      merge_taken

abbrev start : Command
start = starts (record {
  signal = error_absent "ORA-00600";
  until = "2026-09-04T10:00:00Z";
  intent = "watch the patch";
  summary = "patched";
  ticket = "";
  evidence = "digests/cdb1/2026-09-01.md" ∷ [];
  notes = "";
})

abbrev extension : Command
extension = extends (record { until = "2026-09-05T10:00:00Z"; intent = "one more day"; notes = "" })

abbrev fix : Resolve
fix = record {
  summary = "fixed";
  residual_risk = "may come back";
  ticket = "";
  evidence = [];
  notes = "see log";
  update_error_pages = true;
}

abbrev started : Dict Incident
started = settled tree (build tree "incidents/a.md" start "ops@example.org" "2026-09-02T08:00:00Z")

start_taken :
    build tree "incidents/a.md" start "ops@example.org" "2026-09-02T08:00:00Z" ≡ ok started
unfolding build text_leb
start_taken = refl

build-IsMove_example :
    IsMove tree "incidents/a.md" start "2026-09-02T08:00:00Z" started "incidents/a.md"
build-IsMove_example =
    build-IsMove tree "incidents/a.md" start "ops@example.org" "2026-09-02T08:00:00Z" started
      start_taken "incidents/a.md"

build-IsAudited_example :
    IsAudited tree "incidents/a.md" start "ops@example.org" "2026-09-02T08:00:00Z" started
      "incidents/a.md"
build-IsAudited_example =
    build-IsAudited tree "incidents/a.md" start "ops@example.org" "2026-09-02T08:00:00Z" started
      start_taken "incidents/a.md"

extension_taken :
    extended (some window) [] "2026-09-05T10:00:00Z" "2026-09-02T08:00:00Z"
    ≡ ok (some (record window { until = "2026-09-05T10:00:00Z" }))
unfolding extended text_ltb
extension_taken = refl

closed_run : run open_status (start ∷ extension ∷ resolves fix ∷ []) ≡ some resolved
unfolding run
closed_run = refl

active : is_active open_status ≡ true
unfolding is_active
active = refl

run-closes_example : any closes_page (start ∷ extension ∷ resolves fix ∷ []) ≡ true
run-closes_example =
    run-closes open_status (start ∷ extension ∷ resolves fix ∷ []) active closed_run

abbrev story : List Attempt
story =
    record {
      path = "incidents/a.md";
      command = start;
      actor = "ops@example.org";
      at = "2026-09-02T08:00:00Z";
    }
    ∷ record {
      path = "incidents/a.md";
      command = extension;
      actor = "ops@example.org";
      at = "2026-09-03T08:00:00Z";
    }
    ∷ record {
      path = "incidents/r.md";
      command = extension;
      actor = "ops@example.org";
      at = "2026-09-03T09:00:00Z";
    }
    ∷ record {
      path = "incidents/a.md";
      command = resolves fix;
      actor = "ops@example.org";
      at = "2026-09-04T08:00:00Z";
    }
    ∷ []

tree-IsWatched : IsWatched tree
unfolding watched text_ltb
tree-IsWatched = All-IsWatched tree (refl, (refl, (refl, (refl, tt))))

attempts-IsWatched_example : IsWatched (attempts tree story)
attempts-IsWatched_example = attempts-IsWatched tree story tree-IsWatched
