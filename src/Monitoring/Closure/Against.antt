-- ===== src/Monitoring/Closure/Against.antt =====
-- src/dbwiki/monitoring.py: the objections of a closure case.
use logbook.Prelude.{
  String, ◌≡◌, ◌≢◌, refl, Bool, true, false, not, Option, some, List, [], ◌∷◌, ◌++◌, among, map,
  filter, Memᴰ, ◌⊎◌, inl, inr, arith, subst, ap, Bool-cases, mem-filter,
}
use mathlib.Core.Option.{some-injective}
use logbook.Incident.{
  Incident, MonitoringWindow, RecoverySignal, error_absent, event_present, flow_resumed, manual,
}
use logbook.Monitoring.Window.{window_days}
use logbook.Monitoring.Evidence.{DayDigest}
use logbook.Monitoring.Verdicts.{
  Matches, flags, not_a_pattern, too_slow, child_failed, Judgement, MonitoringFacts, Probe, met,
  SignalVerdict, not_met, insufficient, failed_to_judge, covering_of, has_closed, all_gaps,
  Contradiction, evaluate, judge, judge_absent, judge_present, judge_resumed, of_flags, rules_hit,
  messages_of,
}
use logbook.Monitoring.Verdicts.Settled.{evaluate-Parts, Parts}
use logbook.Monitoring.Closure.{
  Objection, stated, not_examined, closure_case, case_days, unexamined, entry_day, is_manual,
  is_met,
}

-- A judgement that is met contradicts nothing.
abbrev IsClean : Judgement → Type 0
IsClean j = j.verdict ≡ met → j.contradictions ≡ []

module _ (matcher : String → List String → Matches) (w : MonitoringWindow) (ds : List DayDigest)
    (closed : Bool) (gaps : List Contradiction) (probe : Option Probe) where
  absent-IsClean : (code : String) → IsClean (judge_absent w ds closed gaps code probe)
  unfolding judge_absent
  absent-IsClean code h = ground arith

  resumed-IsClean : (source : String) → IsClean (judge_resumed w ds closed gaps source)
  unfolding judge_resumed
  resumed-IsClean source h = ground arith

  flags-IsClean :
      (pattern : String) (hits : List Bool)
      → IsClean (of_flags w ds closed gaps pattern (rules_hit w ds hits))
  unfolding of_flags
  flags-IsClean pattern hits h = ground arith

  present-IsClean :
      (pattern : String) (found : Matches)
      → matcher pattern (messages_of w ds) ≡ found
      → (j : Judgement) → judge_present w ds closed gaps matcher pattern ≡ some j
      → IsClean j
  unfolding judge_present
  present-IsClean pattern (flags hits) eq j h =
      subst IsClean (some-injective _ _ (rw (judge_present, eq) at h)) (flags-IsClean pattern hits)
  present-IsClean pattern (not_a_pattern error) eq j h = λ k. cc
  present-IsClean pattern (too_slow error) eq j h = λ k. cc
  present-IsClean pattern child_failed eq j h = λ k. cc

  judge-IsClean :
      (s : RecoverySignal) (j : Judgement)
      → judge matcher w ds closed gaps probe s ≡ some j
      → IsClean j
  unfolding judge
  judge-IsClean (error_absent code) j h = subst IsClean (some-injective _ _ h) (absent-IsClean code)
  judge-IsClean (event_present pattern) j h =
      present-IsClean pattern (matcher pattern (messages_of w ds)) refl j h
  judge-IsClean (flow_resumed source) j h =
      subst IsClean (some-injective _ _ h) (resumed-IsClean source)
  judge-IsClean (manual description) j h = λ k. cc

mem_behind : (o : Objection) (before os : List Objection) → Memᴰ o os → Memᴰ o (before ++ os)
mem_behind o [] os m = m
mem_behind o (b ∷ before) os m = Memᴰ.tail (mem_behind o before os m)

mem_named :
    (d : String) (days : List String) → Memᴰ d days → Memᴰ (not_examined d) (map not_examined days)
mem_named d [] m = elim m [ ]
mem_named d (e ∷ days) (Memᴰ.head same) = Memᴰ.head (ap not_examined same)
mem_named d (e ∷ days) (Memᴰ.tail m) = Memᴰ.tail (mem_named d days m)

-- Each day is covered, or named among those that are not.
covered_or_named :
    (covered days : List String) (before : List Objection) (d : String)
    → Memᴰ d days
    → (among d covered ≡ true)
      ⊎ Memᴰ
          (not_examined d)
          (before ++ map not_examined (filter (λ e. not (among e covered)) days))
covered_or_named covered days before d m = elim (Bool-cases (among d covered)) [
  | inl covers ↦ inl covers
  | inr fails ↦ inr (
      mem_behind (not_examined d) before _
        (mem_named d _ (mem-filter (λ e. not (among e covered)) d days m (rw fails refl))))
]

not_met_test : (v : SignalVerdict) → v ≢ met → is_met v ≡ false
not_met_test met h = absurd (h refl)
not_met_test not_met h = refl
not_met_test insufficient h = refl
not_met_test failed_to_judge h = refl

-- Nothing stands against a verdict that is met.
clean_case :
    (f : MonitoringFacts) (shown : String)
    → (f.judgement.verdict ≡ met → f.judgement.contradictions ≡ [])
    → f.judgement.verdict ≡ met
    → (closure_case f shown).against ≡ []
unfolding closure_case unexamined
clean_case f shown h k = rw (h k, k) (ground arith)

-- The days that are named elsewhere.
named_case :
    (f : MonitoringFacts) (shown : String) (days : List String)
    → case_days f ≡ days
    → f.judgement.verdict ≢ met
    → is_manual f.signal ≡ false
    → (d : String) → Memᴰ d days
    → (among d (map entry_day f.judgement.observed) ≡ true)
      ⊎ Memᴰ (not_examined d) (closure_case f shown).against
unfolding closure_case unexamined
named_case f shown days at_days other judged d m =
    rw (judged, not_met_test f.judgement.verdict other, at_days)
      (covered_or_named (map entry_day f.judgement.observed) days
        (map stated f.judgement.contradictions) d m)

-- From the facts that `evaluate` returns: where the verdict is met, nothing stands against closing. Where it is not,
-- on any signal but a manual one, each of the days that `window_days` lists, which are 92 at most, has an entry in
-- what was observed, be it a live count only, or is named among what stands against.
pub closure_case-IsComplete :
    (matcher : String → List String → Matches) (i : Incident) (slug : String)
    (digests : List DayDigest) (now revision : String) (probe : Option Probe)
    (facts : MonitoringFacts) (shown : String)
    → evaluate matcher i slug digests now revision probe ≡ some facts
    → ((closure_case facts shown).verdict ≡ met → (closure_case facts shown).against ≡ [])
      × ((closure_case facts shown).verdict ≢ met
          → is_manual facts.signal ≡ false
          → (w : MonitoringWindow) × (days : List String) × (i.monitoring_window ≡ some w)
            × (window_days w ≡ some days)
            × ((d : String)
                → Memᴰ d days
                → (among d (map entry_day facts.judgement.observed) ≡ true)
                  ⊎ Memᴰ (not_examined d) (closure_case facts shown).against))
unfolding closure_case Parts
closure_case-IsComplete matcher i slug digests now revision probe facts shown h =
    let (w, days, count, j, parts) =
      evaluate-Parts matcher i slug digests now revision probe facts h in
    (
      clean_case facts shown (
          subst (λ (f : MonitoringFacts). IsClean f.judgement) parts.4
            (judge-IsClean matcher w (covering_of days digests) (has_closed w now)
              (all_gaps i.db count days (covering_of days digests)) probe w.signal j parts.3)),
      λ other judged. (
        w,
        days,
        parts.0,
        parts.1,
        named_case facts shown days
            (subst (λ (f : MonitoringFacts). case_days f ≡ days) parts.4
              (rw (case_days, parts.1) refl))
            other judged,
      ),
    )
