-- ===== src/Monitoring/Verdicts.antt =====
-- `evaluate`: the verdict of the digests on a recovery signal. The search of a pattern runs in a child process,
-- which is an argument.
pub mod Grounds
pub mod Settled
pub use logbook.Monitoring.Facts.{
  SignalVerdict, met, not_met, insufficient, failed_to_judge, Probe, Observed, code_seen,
  live_count, pattern_seen, flow_seen, Contradiction, not_covered, past_limit, no_directory,
  code_counted, counted_live, bad_pattern, timed_out, no_message, unplaced, no_source, no_events,
  for_a_human, evaluation_failed, Judgement, Matches, flags, not_a_pattern, too_slow, child_failed,
  judged_as, MonitoringFacts,
}
use logbook.Prelude.{
  ℕ, ◌+◌, String, Bool, true, false, not, ◌&&◌, ◌||◌, Option, some, none, List, [], ◌∷◌, ◌++◌, ◌==◌,
  ltb, leb, eqb, among, any, filter, map, nonempty, first_chars, length, take, drop, text_leb,
  contains, if◌then◌else◌,
}
use logbook.Prelude.Dict.{Dict, get}
use logbook.Validate.{◌>>=◌}
use logbook.Incident.{
  Incident, MonitoringWindow, RecoverySignal, error_absent, event_present, flow_resumed, manual,
}
use logbook.Monitoring.Window.{window_day_count, window_days}
use logbook.Monitoring.Evidence.{
  NotableGroup, SourceSection, DayDigest, sec, notable_groups, spans, code_count, events_in_window,
}

-- `_gaps`
unfoldable pub gaps_of : ℕ → List String → List String → List Contradiction
unfolding filter
gaps_of count days covered =
    let missing = filter (λ d. not (among d covered)) days in
    (if eqb (length missing) 0 then [] else not_covered missing ∷ [])
    ++ (if ltb (length days) count then past_limit ∷ [] else [])

abbrev pub is_none {ℓ} : {A : Type ℓ} → List A → Bool
is_none [] = true
is_none (x ∷ xs) = false

abbrev pub probed : Option Probe → List Observed
probed none = []
probed (some p) = live_count p ∷ []

abbrev pub live_sightings : String → Option Probe → List Contradiction
live_sightings code none = []
live_sightings code (some p) = if eqb p.count 0 then [] else counted_live p.day code p.count ∷ []

-- The rule of the first group with a hit, else "".
unfoldable pub first_rule : List NotableGroup → List Bool → String
first_rule [] hits = ""
first_rule (g ∷ gs) [] = ""
first_rule (g ∷ gs) (hit ∷ hits) = let rest = first_rule gs hits in if hit then g.rule else rest

abbrev pub or_no_section : Option SourceSection → SourceSection
or_no_section none = record { total_events = 0; notable = [] }
or_no_section (some s) = s

abbrev pub is_source : String → DayDigest → Bool
unfolding get
is_source source d = elim (get d.sources source) [ none ↦ false | some s ↦ true ]

module _ (window : MonitoringWindow) where
  unfoldable pub code_sightings : String → List DayDigest → List Contradiction
  unfolding code_count
  code_sightings code [] = []
  code_sightings code (d ∷ ds) =
      let n = code_count window d code in
      let rest = code_sightings code ds in
      if eqb n 0 then rest else code_counted d.day code n ∷ rest

  -- The groups of a digest that reach into the window.
  unfoldable pub spanning : DayDigest → List NotableGroup
  unfolding filter spans notable_groups
  spanning d = filter (λ g. spans g window) (notable_groups d.sources)

  unfoldable pub messages_of : List DayDigest → List String
  unfolding spanning
  messages_of [] = []
  messages_of (d ∷ ds) = map (λ g. g.message) (spanning d) ++ messages_of ds

  -- The rule for each digest; `hits` is what is left of the flags.
  unfoldable pub rules_hit : List DayDigest → List Bool → List (DayDigest × String)
  unfolding spanning first_rule
  rules_hit [] hits = []
  rules_hit (d ∷ ds) hits =
      let n = length (spanning d) in
      (d, first_rule (spanning d) (take n hits)) ∷ rules_hit ds (drop n hits)

  unfoldable pub events_of : String → DayDigest → ℕ × ℕ
  unfolding events_in_window get
  events_of source d = events_in_window window (or_no_section (get d.sources source)) d

  unfoldable pub unplaced_on : String → List DayDigest → List Contradiction
  unfolding events_of
  unplaced_on source [] = []
  unplaced_on source (d ∷ ds) =
      let loose = (events_of source d).1 in
      let rest = unplaced_on source ds in
      if eqb loose 0 then rest else unplaced d.day loose source ∷ rest

module _ (window : MonitoringWindow) (digests : List DayDigest) (closed : Bool)
    (gaps : List Contradiction) where
  -- `_error_absent`
  unfoldable pub judge_absent : String → Option Probe → Judgement
  unfolding code_count code_sightings
  judge_absent code probe =
      let seen =
        map (λ d. code_seen d.day d.path code (code_count window d code)) digests ++ probed probe in
      let found = code_sightings window code digests ++ live_sightings code probe in
      if not (is_none found)
      then judged_as not_met seen found
      else if not (is_none gaps)
      then judged_as insufficient seen gaps
      else if closed
      then judged_as met seen []
      else judged_as insufficient seen []

  unfoldable pub of_flags : String → List (DayDigest × String) → Judgement
  unfolding nonempty
  of_flags pattern rules =
      let seen = map (λ (d, rule). pattern_seen d.day d.path (nonempty rule) rule) rules in
      if any (λ r. nonempty r.1) rules
      then judged_as met seen []
      else if not (is_none gaps)
      then judged_as insufficient seen gaps
      else if closed
      then judged_as not_met seen (no_message pattern (length digests) ∷ [])
      else judged_as insufficient seen []

  -- `_event_present`
  unfoldable pub judge_present : (String → List String → Matches) → String → Option Judgement
  unfolding messages_of rules_hit
  judge_present matcher pattern = elim (matcher pattern (messages_of window digests)) [
    | flags hits ↦ some (of_flags pattern (rules_hit window digests hits))
    | not_a_pattern error ↦ some (judged_as insufficient [] (bad_pattern pattern error ∷ []))
    | too_slow error ↦ some (judged_as failed_to_judge [] (timed_out error ∷ []))
    | child_failed ↦ none
  ]

  -- `_flow_resumed`
  unfoldable pub judge_resumed : String → Judgement
  unfolding events_of unplaced_on get
  judge_resumed source =
      let seen = map (λ d. flow_seen d.day d.path source (events_of window source d).0) digests in
      let loose = unplaced_on window source digests in
      if any (λ d. ltb 0 (events_of window source d).0) digests
      then judged_as met seen []
      else if not (is_none digests) && not (any (is_source source) digests)
      then judged_as insufficient seen (no_source source ∷ [])
      else if not (is_none gaps) || not (is_none loose)
      then judged_as insufficient seen (loose ++ gaps)
      else if closed
      then judged_as not_met seen (no_events source (length digests) ∷ [])
      else judged_as insufficient seen []

-- `is_digest_db`
unfoldable pub is_digest_db : String → Bool
unfolding nonempty contains
is_digest_db db = nonempty db && not (contains "/" db) && not (contains ".." db)

abbrev pub covering_of : List String → List DayDigest → List DayDigest
unfolding filter
covering_of days digests = filter (λ d. among d.day days) digests

abbrev pub all_gaps : String → ℕ → List String → List DayDigest → List Contradiction
unfolding gaps_of is_digest_db
all_gaps db count days covering =
    let gaps = gaps_of count days (map (λ d. d.day) covering) in
    if is_digest_db db then gaps else no_directory db ∷ gaps

abbrev pub has_closed : MonitoringWindow → String → Bool
unfolding first_chars text_leb
has_closed w now = text_leb (sec w.until) (sec now)

abbrev pub facts_of :
    Incident → String → MonitoringWindow → String → String → Judgement → MonitoringFacts
facts_of i slug w now revision j = record {
  incident = slug;
  db = i.db;
  signal = w.signal;
  start = w.start;
  until = w.until;
  judgement = j;
  evaluated_at = now;
  source_revision = revision;
}

module _ (matcher : String → List String → Matches) where
  -- The `match` of `evaluate`; `none` is an exception.
  unfoldable pub judge :
      MonitoringWindow
      → List DayDigest
      → Bool
      → List Contradiction
      → Option Probe
      → RecoverySignal
      → Option Judgement
  unfolding judge_absent judge_present judge_resumed
  judge w ds closed gaps probe (error_absent code) = some (judge_absent w ds closed gaps code probe)
  judge w ds closed gaps probe (event_present pattern) =
      judge_present w ds closed gaps matcher pattern
  judge w ds closed gaps probe (flow_resumed source) = some (judge_resumed w ds closed gaps source)
  judge w ds closed gaps probe (manual description) =
      some (judged_as insufficient [] (for_a_human description ∷ []))

  -- With the window at hand.
  unfoldable pub evaluate_window :
      Incident
      → String
      → List DayDigest
      → String
      → String
      → Option Probe
      → MonitoringWindow
      → Option MonitoringFacts
  unfolding window_days window_day_count judge gaps_of is_digest_db filter first_chars text_leb
  evaluate_window i slug digests now revision probe w = do
    days ← window_days w
    count ← window_day_count w
    let covering = covering_of days digests
    let gaps = all_gaps i.db count days covering
    j ← judge w covering (has_closed w now) gaps probe w.signal
    some (facts_of i slug w now revision j)

  -- `evaluate`, of an incident with its slug; `none` is an exception.
  unfoldable pub evaluate :
      Incident → String → List DayDigest → String → String → Option Probe → Option MonitoringFacts
  unfolding evaluate_window
  evaluate i slug digests now revision probe = do
    w ← i.monitoring_window
    evaluate_window i slug digests now revision probe w
