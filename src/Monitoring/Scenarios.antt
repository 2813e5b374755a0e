-- ===== src/Monitoring/Scenarios.antt =====
-- The theorem of src/dbwiki/monitoring.py at a concrete incident, and runs on small digests.
use logbook.Prelude.{
  ◌≢◌, String, ◌≡◌, refl, some, none, List, [], ◌∷◌, true, false, among, map, Memᴰ, ◌⊎◌,
}
use logbook.Monitoring.Window.{window_days}
use logbook.Monitoring.Closure.{closure_case, is_manual, entry_day, not_examined}
use logbook.Monitoring.Closure.Against.{closure_case-IsComplete}
use logbook.Prelude.Dict.{get}
use logbook.Monitoring.Publish.{Tick, no_answer, Shelf, probe_of, evaluate_all}
use logbook.Monitoring.Publish.Turns.{IsOutcome}
use logbook.Monitoring.Publish.Published.{monitored_slugs, evaluate_all-IsPublished}
use logbook.Incident.{Incident, MonitoringWindow, monitoring, error_absent, flow_resumed}
use logbook.Monitoring.Evidence.{NotableGroup, DayDigest, placed_events, events_in_window}
use logbook.Monitoring.Verdicts.{
  Matches, child_failed, MonitoringFacts, met, judged_as, code_seen, evaluate,
}

abbrev window : MonitoringWindow
window = record {
  signal = error_absent "TNS-00513";
  start = "2026-08-30T12:00:00Z";
  until = "2026-09-01T00:00:00Z";
}

abbrev watched_page : Incident
watched_page = record {
  path = "incidents/2026-08-30-db1-tns.md";
  db = "db1";
  status = monitoring;
  updated = "2026-08-30";
  monitoring_window = some window;
  unknown_status = none;
  actions = [];
}

abbrev group : String → String → NotableGroup
group first last = record {
  codes = "TNS-513" ∷ [];
  count = 2;
  message = "TNS-00513 unable to start";
  rule = "tns";
  first_ts = first;
  last_ts = last;
}

abbrev digest : String → List NotableGroup → DayDigest
digest day groups = record {
  path = "digests/db1/day.json";
  day = day;
  from = "";
  to = "";
  sources = ("listener", record { total_events = 2; notable = groups }) ∷ [];
  deltas = [];
}

-- The error was last seen before the window starts.
abbrev quiet : List DayDigest
quiet =
    digest "2026-08-30" (group "2026-08-30T01:00:00.100Z" "2026-08-30T02:00:00.100Z" ∷ [])
    ∷ digest "2026-08-31" []
    ∷ []

abbrev no_search : String → List String → Matches
no_search pattern messages = child_failed

-- The error stayed away, and the window has ended.
abbrev facts : MonitoringFacts
facts = record {
  incident = "2026-08-30-db1-tns";
  db = "db1";
  signal = error_absent "TNS-00513";
  start = "2026-08-30T12:00:00Z";
  until = "2026-09-01T00:00:00Z";
  judgement =
      judged_as met
        (code_seen "2026-08-30" "digests/db1/day.json" "TNS-00513" 0
          ∷ code_seen "2026-08-31" "digests/db1/day.json" "TNS-00513" 0
          ∷ [])
        [];
  evaluated_at = "2026-09-01T00:30:00Z";
  source_revision = "c0ffee";
}

at_end :
    evaluate no_search watched_page "2026-08-30-db1-tns" quiet "2026-09-01T00:30:00Z" "c0ffee" none
    ≡ some facts
unfolding evaluate
at_end = refl

-- Two events, one before the window and one after it, count as one inside.
abbrev short_window : MonitoringWindow
short_window = record {
  signal = flow_resumed "listener";
  start = "2026-08-30T03:00:00Z";
  until = "2026-08-30T04:00:00Z";
}

around_window :
    events_in_window short_window
      (record {
        total_events = 2;
        notable = group "2026-08-30T02:00:00Z" "2026-08-30T05:00:00Z" ∷ [];
      })
      (digest "2026-08-30" [])
    ≡ (1, 0)
unfolding events_in_window placed_events
around_window = refl

-- Elasticsearch is down, and the day of the tick has no digest.
abbrev tick : Tick
tick = record {
  matcher = no_search;
  parse = λ text. none;
  digests = [];
  count_live = λ db code start end. no_answer;
  writes = λ slug. true;
  now = "2026-08-31T09:00:00Z";
  revision = "c0ffee";
}

abbrev shelf : Shelf
shelf = record { files = ("an-old-page", facts) ∷ []; es = true }

abbrev pages : List (String × Incident)
pages = ("2026-08-30-db1-tns", watched_page) ∷ []

-- The live count is asked for the day of the tick, and then no more.
asked_once : (probe_of tick true watched_page []) ≡ (none, false)
unfolding probe_of
asked_once = refl

evaluate_all-IsPublished_example :
    (map (λ f. f.incident) (evaluate_all tick pages shelf).0 ≡ monitored_slugs pages)
    × ((s : String)
        → among s (monitored_slugs pages) ≡ false
        → get (evaluate_all tick pages shelf).1 s ≡ none)
    × ((slug : String) (i : Incident) (w : MonitoringWindow)
        → Memᴰ (slug, i) pages
        → i.status ≡ monitoring
        → i.monitoring_window ≡ some w
        → (f : MonitoringFacts) × Memᴰ f (evaluate_all tick pages shelf).0
          × IsOutcome tick slug i w f
              (get shelf.files slug)
              (get (evaluate_all tick pages shelf).1 slug))
evaluate_all-IsPublished_example = evaluate_all-IsPublished tick pages shelf (tt, tt)

closure_case-IsComplete_example :
    ((closure_case facts "c0ffee").verdict ≡ met → (closure_case facts "c0ffee").against ≡ [])
    × ((closure_case facts "c0ffee").verdict ≢ met
        → is_manual facts.signal ≡ false
        → (w : MonitoringWindow) × (days : List String) × (watched_page.monitoring_window ≡ some w)
          × (window_days w ≡ some days)
          × ((d : String)
              → Memᴰ d days
              → (among d (map entry_day facts.judgement.observed) ≡ true)
                ⊎ Memᴰ (not_examined d) (closure_case facts "c0ffee").against))
closure_case-IsComplete_example =
    closure_case-IsComplete no_search watched_page "2026-08-30-db1-tns" quiet "2026-09-01T00:30:00Z"
      "c0ffee" none facts "c0ffee" at_end

two_lines :
    (closure_case facts "c0ffee").supporting
    ≡ "2026-08-30: TNS-00513 absent (digests/db1/day.md)"
      ∷ "2026-08-31: TNS-00513 absent (digests/db1/day.md)" ∷ []
unfolding closure_case
two_lines = refl
