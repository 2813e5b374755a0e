-- ===== src/Monitoring/Closure.antt =====
-- `closure_case`, of the facts as `evaluate_all` writes them: what argues for closing an incident, and against.
pub mod Against
use logbook.Prelude.{
  ℕ, String, ◌≡◌, refl, Bool, true, false, not, ◌&&◌, ◌||◌, Option, some, none, List, [], ◌∷◌, ◌++◌,
  ◌==◌, eqb, ltb, among, map, filter, flat_map, plus, nonempty, has_end, drop_end, if◌then◌else◌,
}
use logbook.Incident.{
  MonitoringWindow, RecoverySignal, error_absent, event_present, flow_resumed, manual,
}
use logbook.Lint.Rules.{unique}
use logbook.PastFixes.Apply.{decimal}
use logbook.Monitoring.Window.{window_days}
use logbook.Monitoring.Verdicts.{
  SignalVerdict, met, not_met, insufficient, failed_to_judge, Observed, code_seen, live_count,
  pattern_seen, flow_seen, Contradiction, MonitoringFacts, Probe,
}

-- `_rendered`
unfoldable pub rendered : String → String
unfolding has_end drop_end
rendered path = if has_end ".json" path then plus (drop_end 5 path) ".md" else path

-- `_cite`, of a day, a path and what `via` says; "" is an absent key
unfoldable pub cite : String → String → String → String → List String
unfolding rendered nonempty
cite day path via fact =
    let place = if nonempty path then rendered path else plus "via " via in
    if not (nonempty day) || not (nonempty path || nonempty via)
    then []
    else plus day (plus ": " (plus fact (plus " (" (plus place ")")))) ∷ []

-- `_absent_line`
unfoldable pub absent_line : Observed → List String
unfolding cite nonempty
absent_line (code_seen day path code count) =
    if not (nonempty code) || not (eqb count 0) then [] else cite day path "" (plus code " absent")
absent_line (live_count p) =
    if not (nonempty p.code) || not (eqb p.count 0)
    then []
    else cite p.day "" "elasticsearch" (plus p.code " absent")
absent_line (pattern_seen day path matched group) = []
absent_line (flow_seen day path source events) = []

-- `_present_line`
unfoldable pub present_line : Observed → List String
unfolding cite nonempty
present_line (pattern_seen day path matched group) =
    if not matched || not (nonempty group) then [] else cite day path "" (plus group " matched")
present_line (code_seen day path code count) = []
present_line (live_count p) = []
present_line (flow_seen day path source events) = []

-- `_resumed_line`
unfoldable pub resumed_line : Observed → List String
unfolding cite nonempty decimal
resumed_line (flow_seen day path source events) =
    if not (nonempty source) || eqb events 0
    then []
    else cite day path "" (plus source (plus " carried " (plus (decimal events) " events")))
resumed_line (code_seen day path code count) = []
resumed_line (live_count p) = []
resumed_line (pattern_seen day path matched group) = []

unfoldable pub supporting_of : RecoverySignal → List Observed → List String
unfolding absent_line present_line resumed_line
supporting_of (error_absent code) seen = flat_map absent_line seen
supporting_of (event_present pattern) seen = flat_map present_line seen
supporting_of (flow_resumed source) seen = flat_map resumed_line seen
supporting_of (manual description) seen = []

abbrev pub entry_day : Observed → String
entry_day (code_seen day path code count) = day
entry_day (live_count p) = p.day
entry_day (pattern_seen day path matched group) = day
entry_day (flow_seen day path source events) = day

abbrev pub entry_path : Observed → String
entry_path (code_seen day path code count) = path
entry_path (live_count p) = ""
entry_path (pattern_seen day path matched group) = path
entry_path (flow_seen day path source events) = path

pub data Objection : Type 0 where
  stated : Contradiction → Objection
  not_examined : String → Objection

abbrev pub is_met : SignalVerdict → Bool
is_met met = true
is_met _ = false

abbrev pub is_manual : RecoverySignal → Bool
is_manual (manual description) = true
is_manual _ = false

abbrev pub days_or_none : Option (List String) → List String
days_or_none none = []
days_or_none (some days) = days

-- `_case_days`
unfoldable pub case_days : MonitoringFacts → List String
unfolding window_days
case_days f =
    days_or_none (window_days (record { signal = f.signal; start = f.start; until = f.until }))

unfoldable pub unexamined : MonitoringFacts → List Objection
unfolding case_days filter
unexamined f =
    let covered = map entry_day f.judgement.observed in
    if is_manual f.signal || is_met f.judgement.verdict
    then []
    else map not_examined (filter (λ d. not (among d covered)) (case_days f))

pub record ClosureCase : Type 0 where
  pub verdict : SignalVerdict
  pub evaluated_at : String
  pub source_revision : String
  pub stale : Bool
  pub supporting : List String
  pub against : List Objection
  pub digests : List String

unfoldable pub closure_case : MonitoringFacts → String → ClosureCase
unfolding supporting_of unexamined unique rendered nonempty filter
closure_case f revision = record {
  verdict = f.judgement.verdict;
  evaluated_at = f.evaluated_at;
  source_revision = f.source_revision;
  stale = not (f.source_revision == revision);
  supporting = supporting_of f.signal f.judgement.observed;
  against = map stated f.judgement.contradictions ++ unexamined f;
  digests = unique (map rendered (filter nonempty (map entry_path f.judgement.observed)));
}
