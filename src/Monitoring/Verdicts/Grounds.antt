-- ===== src/Monitoring/Verdicts/Grounds.antt =====
-- src/dbwiki/monitoring.py: the grounds of a verdict on a recovery signal.
use logbook.Prelude.{
  ℕ, String, ◌≡◌, ◌≢◌, ◌↔◌, refl, Bool, true, false, not, ◌&&◌, ◌||◌, Option, some, none, List, [],
  ◌∷◌, ◌++◌, ltb, eqb, among, any, filter, map, nonempty, length, All, arith, subst,
}
use mathlib.Core.Option.{some-injective}
use logbook.Incident.{
  MonitoringWindow, RecoverySignal, error_absent, event_present, flow_resumed, manual,
}
use logbook.Monitoring.Evidence.{DayDigest, code_count}
use logbook.Monitoring.Verdicts.{
  SignalVerdict, met, not_met, insufficient, Probe, Contradiction, is_none, code_sightings,
  live_sightings, judge_absent, judge_resumed, is_source, events_of, unplaced_on, Matches, flags,
  Judgement, judge_present, not_a_pattern, too_slow, child_failed, rules_hit, messages_of, judge,
  is_digest_db, all_gaps, gaps_of, of_flags,
}

-- The window was looked at as a whole: each of its days has a digest.
abbrev pub IsExamined : String → ℕ → List String → List DayDigest → Type 0
IsExamined db count days covering =
    (is_digest_db db ≡ true)
    × (ltb (length days) count ≡ false)
    × All (λ d. among d (map (λ g. g.day) covering) ≡ true) days

none-append : (xs ys : List Contradiction) → is_none (xs ++ ys) ≡ (is_none xs && is_none ys)
none-append [] ys = refl
none-append (x ∷ xs) ys = refl

filter-none :
    (test : String → Bool) (days : List String)
    → (eqb (length (filter (λ d. not (test d)) days)) 0 ≡ true) ↔ All (λ d. test d ≡ true) days
unfolding filter
filter-none test [] = (λ h. tt, λ h. refl)
filter-none test (d ∷ days) = ground (arith, filter-none test days)

pub gaps-none :
    (db : String) (count : ℕ) (days : List String) (covering : List DayDigest)
    → (is_none (all_gaps db count days covering) ≡ true) ↔ IsExamined db count days covering
unfolding all_gaps gaps_of
gaps-none db count days covering =
    ground (arith, filter-none (λ d. among d (map (λ g. g.day) covering)) days)

module _ (window : MonitoringWindow) where
  sightings-none :
      (code : String) (ds : List DayDigest)
      → (is_none (code_sightings window code ds) ≡ true)
        ↔ All (λ d. code_count window d code ≡ 0) ds
  unfolding code_sightings
  sightings-none code [] = (λ h. tt, λ h. refl)
  sightings-none code (d ∷ ds) = ground (arith, sightings-none code ds)

  unplaced-none :
      (source : String) (ds : List DayDigest)
      → (is_none (unplaced_on window source ds) ≡ true)
        ↔ All (λ d. (events_of window source d).1 ≡ 0) ds
  unfolding unplaced_on
  unplaced-none source [] = (λ h. tt, λ h. refl)
  unplaced-none source (d ∷ ds) = ground (arith, unplaced-none source ds)

  silent-none :
      (source : String) (ds : List DayDigest)
      → (any (λ d. ltb 0 (events_of window source d).0) ds ≡ false)
        ↔ All (λ d. (events_of window source d).0 ≡ 0) ds
  silent-none source [] = (λ h. tt, λ h. refl)
  silent-none source (d ∷ ds) = ground (arith, silent-none source ds)

  -- No digest counts the code, nor does the live count.
  abbrev pub IsUncounted : String → Option Probe → List DayDigest → Type 0
  IsUncounted code none ds = All (λ d. code_count window d code ≡ 0) ds
  IsUncounted code (some p) ds = All (λ d. code_count window d code ≡ 0) ds × (p.count ≡ 0)

  found-none :
      (code : String) (probe : Option Probe) (ds : List DayDigest)
      → (is_none (code_sightings window code ds ++ live_sightings code probe) ≡ true)
        ↔ IsUncounted code probe ds
  found-none code none ds =
      rw (none-append (code_sightings window code ds) []) (ground (arith, sightings-none code ds))
  found-none code (some p) ds =
      rw (none-append (code_sightings window code ds) (live_sightings code (some p)))
        (ground (arith, sightings-none code ds))

  -- No event of the source in the window.
  abbrev pub IsSilent : String → List DayDigest → Type 0
  IsSilent source ds = All (λ d. (events_of window source d).0 ≡ 0) ds

  -- Each event of the source has a time.
  abbrev pub IsPlaced : String → List DayDigest → Type 0
  IsPlaced source ds = All (λ d. (events_of window source d).1 ≡ 0) ds

  module _ (matcher : String → List String → Matches) (ds : List DayDigest) (closed : Bool)
      (examined : Type 0) (probe : Option Probe) where
    -- A group of a digest that the pattern was found in.
    abbrev pub IsHit : List Bool → Type 0
    unfolding nonempty
    IsHit hits = any (λ r. nonempty r.1) (rules_hit window ds hits) ≡ true

    -- What each verdict needs, for each signal.
    abbrev pub HasGrounds : RecoverySignal → SignalVerdict → Type 0
    unfolding messages_of nonempty rules_hit
    HasGrounds (error_absent code) v =
        ((v ≡ met) ↔ (IsUncounted code probe ds × examined × (closed ≡ true)))
        × ((v ≡ not_met) ↔ (¬ IsUncounted code probe ds))
    HasGrounds (event_present pattern) v =
        ((v ≡ met) ↔ (
          (hits : List Bool) × (matcher pattern (messages_of window ds) ≡ flags hits) × IsHit hits))
        × ((v ≡ not_met) ↔ (
            (hits : List Bool) × (matcher pattern (messages_of window ds) ≡ flags hits)
            × (¬ IsHit hits)
            × examined
            × (closed ≡ true)))
    HasGrounds (flow_resumed source) v =
        ((v ≡ met) ↔ (¬ IsSilent source ds))
        × ((v ≡ not_met) ↔ (
            IsSilent source ds
            × IsPlaced source ds
            × examined
            × (closed ≡ true)
            × ((is_none ds || any (is_source source) ds) ≡ true)))
    HasGrounds (manual description) v = v ≡ insufficient

    module _ (gaps : List Contradiction) (e : (is_none gaps ≡ true) ↔ examined) where
      absent-HasGrounds :
          (code : String)
          → HasGrounds (error_absent code) (judge_absent window ds closed gaps code probe).verdict
      unfolding judge_absent HasGrounds
      absent-HasGrounds code = ground (arith, found-none code probe ds, e)

      resumed-HasGrounds :
          (source : String)
          → HasGrounds (flow_resumed source) (judge_resumed window ds closed gaps source).verdict
      unfolding judge_resumed HasGrounds
      resumed-HasGrounds source = ground (arith, silent-none source ds, unplaced-none source ds, e)

      of_flags-met :
          (pattern : String) (hits : List Bool)
          → ((of_flags window ds closed gaps pattern (rules_hit window ds hits)).verdict ≡ met)
            ↔ IsHit hits
      unfolding of_flags IsHit
      of_flags-met pattern hits = ground (arith, e)

      of_flags-not_met :
          (pattern : String) (hits : List Bool)
          → ((of_flags window ds closed gaps pattern (rules_hit window ds hits)).verdict ≡ not_met)
            ↔ ((¬ IsHit hits) × examined × (closed ≡ true))
      unfolding of_flags IsHit
      of_flags-not_met pattern hits = ground (arith, e)

      same_flags :
          (pattern : String) (hits more : List Bool)
          → matcher pattern (messages_of window ds) ≡ flags hits
          → matcher pattern (messages_of window ds) ≡ flags more
          → more ≡ hits
      same_flags pattern hits more h m = cc

      flags-HasGrounds :
          (pattern : String) (hits : List Bool)
          → matcher pattern (messages_of window ds) ≡ flags hits
          → HasGrounds
              (event_present pattern)
              (of_flags window ds closed gaps pattern (rules_hit window ds hits)).verdict
      unfolding HasGrounds
      flags-HasGrounds pattern hits h =
          let (to, fro) = of_flags-met pattern hits in
          let refuted = of_flags-not_met pattern hits in
          (
            (
              λ k. (hits, h, to k),
              λ (more, m, k). fro (subst IsHit (same_flags pattern hits more h m) k),
            ),
            (
              λ k. let (none_hit, whole, late) = refuted.0 k in (hits, h, none_hit, whole, late),
              λ (more, m, none_hit, whole, late).
                  refuted.1 (
                    subst (λ x. ¬ IsHit x) (same_flags pattern hits more h m) none_hit,
                    whole,
                    late,
                  ),
            ),
          )

      -- Where the search gives no flags, there is no verdict.
      unmatched :
          (pattern : String) (v : SignalVerdict)
          → ((hits : List Bool) → matcher pattern (messages_of window ds) ≢ flags hits)
          → v ≢ met
          → v ≢ not_met
          → HasGrounds (event_present pattern) v
      unfolding HasGrounds
      unmatched pattern v h a b = (
        (λ k. absurd (a k), λ (hits, m, k). absurd (h hits m)),
        (λ k. absurd (b k), λ (hits, m, none_hit, whole, late). absurd (h hits m)),
      )

      present-HasGrounds :
          (pattern : String) (found : Matches)
          → matcher pattern (messages_of window ds) ≡ found
          → (j : Judgement) → judge_present window ds closed gaps matcher pattern ≡ some j
          → HasGrounds (event_present pattern) j.verdict
      unfolding judge_present
      present-HasGrounds pattern (flags hits) eq j h =
          subst (λ (j : Judgement). HasGrounds (event_present pattern) j.verdict)
            (some-injective _ _ (rw (judge_present, eq) at h)) (flags-HasGrounds pattern hits eq)
      present-HasGrounds pattern (not_a_pattern error) eq j h =
          unmatched pattern j.verdict (λ hits m. cc) (λ k. cc) (λ k. cc)
      present-HasGrounds pattern (too_slow error) eq j h =
          unmatched pattern j.verdict (λ hits m. cc) (λ k. cc) (λ k. cc)
      present-HasGrounds pattern child_failed eq j h =
          unmatched pattern j.verdict (λ hits m. cc) (λ k. cc) (λ k. cc)

      pub judge-HasGrounds :
          (s : RecoverySignal) (j : Judgement)
          → judge matcher window ds closed gaps probe s ≡ some j
          → HasGrounds s j.verdict
      unfolding judge judge_present HasGrounds
      judge-HasGrounds (error_absent code) j h =
          subst (λ (j : Judgement). HasGrounds (error_absent code) j.verdict) (some-injective _ _ h)
            (absent-HasGrounds code)
      judge-HasGrounds (event_present pattern) j h =
          present-HasGrounds pattern (matcher pattern (messages_of window ds)) refl j h
      judge-HasGrounds (flow_resumed source) j h =
          subst (λ (j : Judgement). HasGrounds (flow_resumed source) j.verdict)
            (some-injective _ _ h) (resumed-HasGrounds source)
      judge-HasGrounds (manual description) j h = cc
