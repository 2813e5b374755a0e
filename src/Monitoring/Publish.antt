-- ===== src/Monitoring/Publish.antt =====
-- `evaluate_all` and the files that it publishes. An incident comes with its slug; Elasticsearch, the JSON of a digest and whether a file can be written are arguments.
pub mod Turns
pub mod Published
use logbook.Prelude.{
  ℕ, String, Bool, true, false, not, ◌&&◌, ◌||◌, Option, some, none, List, [], ◌∷◌, ◌++◌, among,
  plus, map, filter, first_chars, text_leb, text_ltb, if◌then◌else◌,
}
use logbook.Prelude.Dict.{Dict, get, put}
use logbook.Validate.{◌>>=◌}
use logbook.Incident.{
  Incident, MonitoringWindow, RecoverySignal, error_absent, Status, monitoring, same_status,
}
use logbook.Monitoring.Window.{window_days}
use logbook.Monitoring.Evidence.{DayDigest}
use logbook.Monitoring.Verdicts.{
  Matches, MonitoringFacts, Probe, Judgement, failed_to_judge, evaluate, facts_of, is_digest_db,
  judged_as, Contradiction, evaluation_failed,
}

-- What a live count answers: no probe for a code of another shape, or an exception.
pub data ProbeReply : Type 0 where
  answered : Option Probe → ProbeReply
  no_answer : ProbeReply

pub record Tick : Type 0 where
  pub matcher : String → List String → Matches
  pub parse : String → Option DayDigest
  pub digests : Dict String
  pub count_live : String → String → String → String → ProbeReply
  pub writes : String → Bool
  pub now : String
  pub revision : String

-- The files of `monitoring/`, and whether Elasticsearch is still asked.
pub record Shelf : Type 0 where
  pub files : Dict MonitoringFacts
  pub es : Bool

abbrev pub at_path : String → Option DayDigest → List DayDigest → List DayDigest
at_path rel none ds = ds
at_path rel (some d) ds = record d { path = rel } ∷ ds

abbrev pub parsed_digest : (String → Option DayDigest) → Option String → Option DayDigest
parsed_digest parse none = none
parsed_digest parse (some text) = parse text

abbrev pub later_of : String → String → String
later_of s t = if text_leb t s then s else t

abbrev pub sooner_of : String → String → String
sooner_of s t = if text_leb s t then s else t

abbrev pub newest_day : List String → String → Option String
newest_day [] now = none
newest_day (d ∷ []) now = some (sooner_of d (first_chars 10 now))
newest_day (d ∷ e ∷ ds) now = newest_day (e ∷ ds) now

-- The window of an incident that is monitored.
unfoldable pub watched_window : Incident → Option MonitoringWindow
unfolding same_status
watched_window i = if same_status i.status monitoring then i.monitoring_window else none

-- `_prune`
unfoldable pub prune : List String → Dict MonitoringFacts → Dict MonitoringFacts
unfolding filter
prune keep files = filter (λ e. among e.0 keep) files

module _ (tick : Tick) where
  unfoldable pub digests_of : String → List String → List DayDigest
  unfolding get
  digests_of db [] = []
  digests_of db (day ∷ days) =
      let rel = plus "digests/" (plus db (plus "/" (plus day ".json"))) in
      at_path rel (parsed_digest tick.parse (get tick.digests rel)) (digests_of db days)

  -- `load_window_digests`
  unfoldable pub load_window_digests : String → MonitoringWindow → Option (List DayDigest)
  unfolding digests_of window_days is_digest_db
  load_window_digests db w =
      let found = window_days w >>= λ days. some (digests_of db days) in
      if is_digest_db db then found else some []

  abbrev pub asked :
      Incident → MonitoringWindow → String → List DayDigest → List String → String → ProbeReply
  unfolding text_leb
  asked i w code ds days target =
      let t0 = later_of w.start (plus target "T00:00:00Z") in
      let t1 = sooner_of w.until tick.now in
      if not (among target days) || among target (map (λ d. d.day) ds) || text_leb t1 t0
      then answered none
      else tick.count_live i.db code t0 t1

  abbrev pub of_target :
      Incident
      → MonitoringWindow
      → String
      → List DayDigest
      → List String
      → Option String
      → ProbeReply
  of_target i w code ds days none = answered none
  of_target i w code ds days (some target) = asked i w code ds days target

  abbrev pub of_days :
      Incident → MonitoringWindow → String → List DayDigest → Option (List String) → ProbeReply
  of_days i w code ds none = no_answer
  of_days i w code ds (some days) = of_target i w code ds days (newest_day days tick.now)

  abbrev pub of_signal : Incident → MonitoringWindow → List DayDigest → RecoverySignal → ProbeReply
  unfolding window_days
  of_signal i w ds (error_absent code) = of_days i w code ds (window_days w)
  of_signal i w ds signal = answered none

  -- `_probe_for`
  unfoldable pub probe_for : Incident → List DayDigest → ProbeReply
  unfolding window_days text_leb
  probe_for i ds = elim i.monitoring_window [
    | none ↦ answered none
    | some w ↦ of_signal i w ds w.signal
  ]

  abbrev pub kept_up : ProbeReply → Option Probe × Bool
  kept_up (answered p) = (p, true)
  kept_up no_answer = (none, false)

  -- `_Probes.of`: the probe, and whether Elasticsearch is asked again.
  unfoldable pub probe_of : Bool → Incident → List DayDigest → Option Probe × Bool
  unfolding probe_for
  probe_of es i ds = elim es [ false ↦ (none, false) | true ↦ kept_up (probe_for i ds) ]

  -- `_failed`
  abbrev pub failed_of : String → Incident → MonitoringWindow → MonitoringFacts
  failed_of slug i w =
      facts_of i slug w tick.now tick.revision
        (judged_as failed_to_judge [] (evaluation_failed ∷ []))

  abbrev pub on_write :
      String
      → Incident
      → MonitoringWindow
      → Bool
      → Shelf
      → MonitoringFacts
      → Bool
      → MonitoringFacts × Shelf
  unfolding put
  on_write slug i w es shelf facts true =
      (facts, record { files = put shelf.files facts.incident facts; es = es })
  on_write slug i w es shelf facts false =
      (failed_of slug i w, record { files = shelf.files; es = es })

  abbrev pub write_facts :
      String
      → Incident
      → MonitoringWindow
      → Bool
      → Shelf
      → Option MonitoringFacts
      → MonitoringFacts × Shelf
  unfolding put
  write_facts slug i w es shelf none = (failed_of slug i w, record { files = shelf.files; es = es })
  write_facts slug i w es shelf (some facts) =
      on_write slug i w es shelf facts (tick.writes facts.incident)

  abbrev pub with_digests :
      String
      → Incident
      → MonitoringWindow
      → Shelf
      → Option (List DayDigest)
      → MonitoringFacts × Shelf
  unfolding probe_of evaluate
  with_digests slug i w shelf none = (failed_of slug i w, shelf)
  with_digests slug i w shelf (some ds) =
      let (probe, es) = probe_of shelf.es i ds in
      write_facts slug i w es shelf (evaluate tick.matcher i slug ds tick.now tick.revision probe)

  -- One turn of the loop, of a monitored incident.
  unfoldable pub publish_one :
      String → Incident → MonitoringWindow → Shelf → MonitoringFacts × Shelf
  unfolding load_window_digests probe_of evaluate put
  publish_one slug i w shelf = with_digests slug i w shelf (load_window_digests i.db w)

  -- The turn of any incident; `rest` are the turns behind it.
  abbrev pub on_window :
      String
      → Incident
      → (Shelf → List MonitoringFacts × Shelf)
      → Shelf
      → Option MonitoringWindow
      → List MonitoringFacts × Shelf
  unfolding publish_one
  on_window slug i rest shelf none = rest shelf
  on_window slug i rest shelf (some w) =
      let (facts, after) = publish_one slug i w shelf in
      let (more, end) = rest after in (facts ∷ more, end)

  unfoldable pub publish_all : List (String × Incident) → Shelf → List MonitoringFacts × Shelf
  unfolding publish_one watched_window
  publish_all [] shelf = ([], shelf)
  publish_all ((slug, i) ∷ pages) shelf =
      on_window slug i (publish_all pages) shelf (watched_window i)

  -- `evaluate_all`
  unfoldable pub evaluate_all :
      List (String × Incident) → Shelf → List MonitoringFacts × Dict MonitoringFacts
  unfolding publish_all prune
  evaluate_all pages shelf =
      let (out, after) = publish_all pages shelf in
      (out, prune (map (λ f. f.incident) out) after.files)
