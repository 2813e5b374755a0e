-- ===== src/Monitoring/Facts.antt =====
-- What an evaluation says: a verdict, what was observed and what contradicts it.
use logbook.Prelude.{ℕ, String, Bool, List}
use logbook.Incident.{RecoverySignal}

pub data SignalVerdict : Type 0 where
  met not_met insufficient failed_to_judge : SignalVerdict

-- What `_probe` counted live, of one day.
pub record Probe : Type 0 where
  pub day : String
  pub code : String
  pub count : ℕ
  pub from : String
  pub to : String

-- An entry of `observed`: a day, the path of its digest, and what is there.
pub data Observed : Type 0 where
  code_seen : String → String → String → ℕ → Observed
  live_count : Probe → Observed
  pattern_seen : String → String → Bool → String → Observed
  flow_seen : String → String → String → ℕ → Observed

-- The texts of `contradictions`, by what they name.
pub data Contradiction : Type 0 where
  not_covered : List String → Contradiction
  past_limit : Contradiction
  no_directory : String → Contradiction
  code_counted : String → String → ℕ → Contradiction
  counted_live : String → String → ℕ → Contradiction
  bad_pattern : String → String → Contradiction
  timed_out : String → Contradiction
  no_message : String → ℕ → Contradiction
  unplaced : String → ℕ → String → Contradiction
  no_source : String → Contradiction
  no_events : String → ℕ → Contradiction
  for_a_human : String → Contradiction
  evaluation_failed : Contradiction

-- What each of `_error_absent`, `_event_present` and `_flow_resumed` returns.
pub record Judgement : Type 0 where
  pub verdict : SignalVerdict
  pub observed : List Observed
  pub contradictions : List Contradiction

-- The answer of `match_messages`: a flag for each message, or what it raises.
pub data Matches : Type 0 where
  flags : List Bool → Matches
  not_a_pattern : String → Matches
  too_slow : String → Matches
  child_failed : Matches

abbrev pub judged_as : SignalVerdict → List Observed → List Contradiction → Judgement
judged_as v seen reasons = record { verdict = v; observed = seen; contradictions = reasons }

pub record MonitoringFacts : Type 0 where
  pub incident : String
  pub db : String
  pub signal : RecoverySignal
  pub start : String
  pub until : String
  pub judgement : Judgement
  pub evaluated_at : String
  pub source_revision : String
