-- ===== src/Monitoring/Publish/Turns.antt =====
-- One turn of `evaluate_all`.
use logbook.Prelude.{
  ◌==◌, eq_refl, ap, sym, String, ◌≡◌, refl, Bool, true, false, Option, some, none, List, ◌⊎◌, inl,
  inr, arith,
}
use logbook.Prelude.Dict.{get, get-put}
use logbook.Incident.{Incident, MonitoringWindow}
use logbook.Monitoring.Evidence.{DayDigest}
use logbook.Monitoring.Verdicts.{MonitoringFacts, Probe, evaluate}
use logbook.Monitoring.Verdicts.Settled.{evaluate-incident}
use logbook.Monitoring.Publish.{
  Tick, Shelf, publish_one, load_window_digests, with_digests, write_facts, failed_of, on_write,
  probe_of,
}

-- What the run makes of a monitored incident, by its file before and after: its facts, which are written; or the
-- record of a failure, where the digests do not load, the evaluation raises or the file cannot be written.
abbrev pub HasFailed : Tick → String → Incident → MonitoringWindow → Type 0
unfolding evaluate load_window_digests
HasFailed tick slug i w =
    (load_window_digests tick i.db w ≡ none)
    ⊎ ((ds : List DayDigest) × (probe : Option Probe) × (load_window_digests tick i.db w ≡ some ds)
        × ((evaluate tick.matcher i slug ds tick.now tick.revision probe ≡ none)
            ⊎ (tick.writes slug ≡ false)))

abbrev pub IsOutcome :
    Tick
    → String
    → Incident
    → MonitoringWindow
    → MonitoringFacts
    → Option MonitoringFacts
    → Option MonitoringFacts
    → Type 0
unfolding evaluate load_window_digests HasFailed
IsOutcome tick slug i w f old new =
    ((ds : List DayDigest) × (probe : Option Probe) × (load_window_digests tick i.db w ≡ some ds)
      × (evaluate tick.matcher i slug ds tick.now tick.revision probe ≡ some f)
      × (tick.writes slug ≡ true)
      × (new ≡ some f))
    ⊎ ((f ≡ failed_of tick slug i w) × (new ≡ old) × HasFailed tick slug i w)

-- The outcome of one turn; no other file changes.
abbrev pub IsDone :
    Tick → String → Incident → MonitoringWindow → Shelf → MonitoringFacts × Shelf → Type 0
unfolding IsOutcome
IsDone tick slug i w a (f, b) =
    (f.incident ≡ slug)
    × ((s : String) → (slug == s) ≡ false → get b.files s ≡ get a.files s)
    × IsOutcome tick slug i w f (get a.files slug) (get b.files slug)

module _ (tick : Tick) (slug : String) (i : Incident) (w : MonitoringWindow) (a : Shelf) where
  failed-IsDone :
      (es : Bool)
      → HasFailed tick slug i w
      → IsDone tick slug i w a (failed_of tick slug i w, record { files = a.files; es = es })
  unfolding IsDone IsOutcome
  failed-IsDone es h = (refl, (λ s k. refl), inr (refl, refl, h))

  module _ (ds : List DayDigest) (probe : Option Probe)
      (loaded : load_window_digests tick i.db w ≡ some ds) where
    on_write-IsDone :
        (es : Bool) (f : MonitoringFacts) (writes : Bool)
        → evaluate tick.matcher i slug ds tick.now tick.revision probe ≡ some f
        → f.incident ≡ slug
        → tick.writes slug ≡ writes
        → IsDone tick slug i w a (on_write tick slug i w es a f writes)
    unfolding on_write IsDone IsOutcome HasFailed
    on_write-IsDone es f false eq named can = failed-IsDone es (inr (ds, probe, loaded, inr can))
    on_write-IsDone es f true eq named can = (
      named,
      (λ s h. ground (arith, get-put a.files f.incident s f, named)),
      inl (
        ds,
        probe,
        loaded,
        eq,
        can,
        ground (arith, get-put a.files f.incident slug f, named, eq_refl slug),
      ),
    )

    write_facts-IsDone :
        (es : Bool) (o : Option MonitoringFacts)
        → evaluate tick.matcher i slug ds tick.now tick.revision probe ≡ o
        → IsDone tick slug i w a (write_facts tick slug i w es a o)
    unfolding write_facts HasFailed
    write_facts-IsDone es none eq = failed-IsDone es (inr (ds, probe, loaded, inl eq))
    write_facts-IsDone es (some f) eq =
        let named = evaluate-incident tick.matcher i slug ds tick.now tick.revision probe f eq in
        on_write-IsDone es f (tick.writes f.incident) eq named (ap tick.writes (sym named))

  with_digests-IsDone :
      (o : Option (List DayDigest))
      → load_window_digests tick i.db w ≡ o
      → IsDone tick slug i w a (with_digests tick slug i w a o)
  unfolding with_digests HasFailed
  with_digests-IsDone none e = failed-IsDone a.es (inl e)
  with_digests-IsDone (some ds) e =
      let asked = probe_of tick a.es i ds in
      write_facts-IsDone ds asked.0 e asked.1
        (evaluate tick.matcher i slug ds tick.now tick.revision asked.0) refl

  pub publish_one-IsDone : IsDone tick slug i w a (publish_one tick slug i w a)
  unfolding publish_one
  publish_one-IsDone = with_digests-IsDone (load_window_digests tick i.db w) refl
