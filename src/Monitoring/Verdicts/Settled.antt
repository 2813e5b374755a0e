-- ===== src/Monitoring/Verdicts/Settled.antt =====
-- The facts that `evaluate` returns, on each signal.
use logbook.Prelude.{ℕ, String, ◌≡◌, refl, Option, some, none, List, sym, ap}
use mathlib.Core.Option.{some-injective}
use logbook.Validate.{◌>>=◌}
use logbook.Incident.{Incident, MonitoringWindow}
use logbook.Monitoring.Window.{window_days, window_day_count}
use logbook.Monitoring.Evidence.{DayDigest}
use logbook.Monitoring.Verdicts.{
  facts_of, all_gaps, Judgement, judge, Matches, MonitoringFacts, Probe, evaluate, evaluate_window,
  covering_of, has_closed,
}
use logbook.Monitoring.Verdicts.Grounds.{IsExamined, HasGrounds}

-- A chain that returns: its first step did.
pub bind_gives :
    {A B : Type 0} (m : Option A) (f : A → Option B) (b : B)
    → m >>= f ≡ some b
    → (a : A) × (m ≡ some a) × (f a ≡ some b)
bind_gives none f b h = cc
bind_gives (some a) f b h = (a, refl, h)

module _ (matcher : String → List String → Matches) (i : Incident) (slug : String)
    (digests : List DayDigest) (now revision : String) (probe : Option Probe) where
  -- What each step gave.
  unfoldable pub Parts : MonitoringFacts → MonitoringWindow → List String → ℕ → Judgement → Type 0
  unfolding covering_of has_closed all_gaps judge
  Parts facts w days count j =
      (i.monitoring_window ≡ some w)
      × (window_days w ≡ some days)
      × (window_day_count w ≡ some count)
      × (judge matcher w (covering_of days digests) (has_closed w now)
            (all_gaps i.db count days (covering_of days digests)) probe w.signal
          ≡ some j)
      × (facts_of i slug w now revision j ≡ facts)

  pub evaluate-Parts :
      (facts : MonitoringFacts)
      → evaluate matcher i slug digests now revision probe ≡ some facts
      → (w : MonitoringWindow) × (days : List String) × (count : ℕ) × (j : Judgement) × Parts facts
          w days count j
  unfolding evaluate evaluate_window Parts
  evaluate-Parts facts h =
      let (w, at_w, h1) = bind_gives i.monitoring_window _ facts h in
      let (days, at_days, h2) = bind_gives (window_days w) _ facts h1 in
      let (count, at_count, h3) = bind_gives (window_day_count w) _ facts h2 in
      let covering = covering_of days digests in
      let judged : Option Judgement =
        judge matcher w covering (has_closed w now) (all_gaps i.db count days covering) probe
          w.signal in
      let (j, at_j, h4) = bind_gives judged _ facts h3 in
      (w, days, count, j, (at_w, at_days, at_count, at_j, some-injective _ _ h4))

  -- The record names the incident.
  pub evaluate-incident :
      (facts : MonitoringFacts)
      → evaluate matcher i slug digests now revision probe ≡ some facts
      → facts.incident ≡ slug
  unfolding Parts
  evaluate-incident facts h =
      let (w, days, count, j, parts) = evaluate-Parts facts h in
      sym (ap (λ (f : MonitoringFacts). f.incident) parts.4)

  -- The window, its days, and the grounds of the verdict on its signal.
  abbrev pub IsSettled : MonitoringFacts → MonitoringWindow → List String → ℕ → Type 0
  unfolding covering_of has_closed
  IsSettled facts w days count =
      (i.monitoring_window ≡ some w)
      × (window_days w ≡ some days)
      × (window_day_count w ≡ some count)
      × HasGrounds w matcher (covering_of days digests) (has_closed w now)
          (IsExamined i.db count days (covering_of days digests)) probe w.signal
          facts.judgement.verdict
