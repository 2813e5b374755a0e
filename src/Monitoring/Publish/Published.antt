-- ===== src/Monitoring/Publish/Published.antt =====
-- `evaluate_all` and the files of `monitoring/`.
use logbook.Prelude.{
  ◌==◌, subst, ap, sym, All-at, String, ◌≡◌, refl, true, false, Option, some, none, List, [], ◌∷◌,
  among, map, filter, Memᴰ, arith, ◌∙◌, eq_iff, if◌then◌else◌,
}
use logbook.Prelude.Dict.{Absent, Distinct, Dict, get}
use mathlib.Core.Option.{some-injective}
use logbook.Incident.{
  Incident, MonitoringWindow, Status, open_status, monitoring, resolved, same_status,
}
use logbook.Monitoring.Verdicts.{MonitoringFacts}
use logbook.Monitoring.Publish.{
  Tick, Shelf, publish_one, publish_all, prune, evaluate_all, watched_window, on_window,
}
use logbook.Monitoring.Publish.Turns.{IsOutcome, publish_one-IsDone}

get-prune :
    (keep : List String) (files : Dict MonitoringFacts) (s : String)
    → get (prune keep files) s ≡ (if among s keep then get files s else none)
unfolding get prune filter
get-prune keep [] s = ground arith
get-prune keep ((j, f) ∷ files) s = ground (arith, eq_iff j s, get-prune keep files s)

abbrev if_watched : String → Option MonitoringWindow → List String → List String
if_watched slug none slugs = slugs
if_watched slug (some w) slugs = slug ∷ slugs

abbrev watched_slugs : List (String × Incident) → List String
unfolding watched_window
watched_slugs [] = []
watched_slugs ((slug, i) ∷ pages) = if_watched slug (watched_window i) (watched_slugs pages)

abbrev pub monitored_slug : String → Status → Option MonitoringWindow → List String → List String
monitored_slug slug monitoring (some w) slugs = slug ∷ slugs
monitored_slug slug monitoring none slugs = slugs
monitored_slug slug open_status o slugs = slugs
monitored_slug slug resolved o slugs = slugs

-- The incidents that are monitored and have a window.
abbrev pub monitored_slugs : List (String × Incident) → List String
monitored_slugs [] = []
monitored_slugs ((slug, i) ∷ pages) =
    monitored_slug slug i.status i.monitoring_window (monitored_slugs pages)

watched_step :
    (slug : String) (s : Status) (o : Option MonitoringWindow) (slugs : List String)
    → if_watched slug (if same_status s monitoring then o else none) slugs
      ≡ monitored_slug slug s o slugs
unfolding same_status
watched_step slug monitoring (some w) slugs = refl
watched_step slug monitoring none slugs = refl
watched_step slug open_status o slugs = refl
watched_step slug resolved o slugs = refl

watched-monitored : (pages : List (String × Incident)) → watched_slugs pages ≡ monitored_slugs pages
unfolding watched_slugs watched_window
watched-monitored [] = refl
watched-monitored ((slug, i) ∷ pages) =
    watched_step slug i.status i.monitoring_window (watched_slugs pages)
    ∙ ap (monitored_slug slug i.status i.monitoring_window) (watched-monitored pages)

watched_now :
    (i : Incident) (w : MonitoringWindow)
    → i.status ≡ monitoring
    → i.monitoring_window ≡ some w
    → watched_window i ≡ some w
unfolding watched_window same_status
watched_now i w at has = rw (at, has) refl

Absent-watched :
    (slug : String) (pages : List (String × Incident))
    → Absent slug pages
    → among slug (watched_slugs pages) ≡ false
unfolding watched_slugs
Absent-watched slug [] h = refl
Absent-watched slug ((s, i) ∷ pages) h = still (watched_window i) (Absent-watched slug pages h.1)
  where
    still :
        (o : Option MonitoringWindow)
        → among slug (watched_slugs pages) ≡ false
        → among slug (if_watched s o (watched_slugs pages)) ≡ false
    still none more = more
    still (some w) more = ground (arith, more, h.0, eq_iff slug s, eq_iff s slug)

mem-watched :
    (pages : List (String × Incident)) (slug : String) (i : Incident) (w : MonitoringWindow)
    → Memᴰ (slug, i) pages
    → watched_window i ≡ some w
    → among slug (watched_slugs pages) ≡ true
unfolding watched_slugs
mem-watched [] slug i w m k = elim m [ ]
mem-watched ((s, j) ∷ pages) slug i w (Memᴰ.head same) k =
    ap (λ o. among slug (if_watched s o (watched_slugs pages)))
      (ap (λ (x : String × Incident). watched_window x.1) (sym same) ∙ k)
    ∙ ground (arith, eq_iff slug s, ap (λ (x : String × Incident). x.0) same)
mem-watched ((s, j) ∷ pages) slug i w (Memᴰ.tail later) k =
    still (watched_window j) (mem-watched pages slug i w later k)
  where
    still :
        (o : Option MonitoringWindow)
        → among slug (watched_slugs pages) ≡ true
        → among slug (if_watched s o (watched_slugs pages)) ≡ true
    still none more = more
    still (some v) more = ground (arith, more)

module _ (tick : Tick) where
  -- A record for each monitored incident, and its outcome; no other file changes.
  abbrev IsPublished :
      List (String × Incident)
      → List MonitoringFacts
      → Dict MonitoringFacts
      → Dict MonitoringFacts
      → Type 0
  unfolding watched_slugs watched_window
  IsPublished pages out a b =
      (map (λ f. f.incident) out ≡ watched_slugs pages)
      × ((s : String) → among s (watched_slugs pages) ≡ false → get b s ≡ get a s)
      × ((slug : String) (i : Incident) (w : MonitoringWindow)
          → Memᴰ (slug, i) pages
          → watched_window i ≡ some w
          → (f : MonitoringFacts) × Memᴰ f out
            × IsOutcome tick slug i w f (get a slug) (get b slug))

  on_window-IsPublished :
      (slug : String) (i : Incident) (rest : Shelf → List MonitoringFacts × Shelf)
      (pages : List (String × Incident)) (a : Shelf) (o : Option MonitoringWindow)
      → watched_window i ≡ o
      → Absent slug pages
      → ((b : Shelf) → IsPublished pages (rest b).0 b.files (rest b).1.files)
      → IsPublished
          ((slug, i) ∷ pages)
          (on_window tick slug i rest a o).0
          a.files
          (on_window tick slug i rest a o).1.files
  unfolding on_window watched_slugs IsPublished
  on_window-IsPublished slug i rest pages a none e absent h =
      let (all, frame, each) = h a in
      let slugs : watched_slugs ((slug, i) ∷ pages) ≡ watched_slugs pages =
        ap (λ o. if_watched slug o (watched_slugs pages)) e in
      (
        all ∙ sym slugs,
        (λ s k. frame s (ap (among s) (sym slugs) ∙ k)),
        λ s j v m k. elim m [
          | Memᴰ.head same ↦
              let other : watched_window j ≡ none =
                ap (λ (x : String × Incident). watched_window x.1) same ∙ e in
              cc (other, k)
          | Memᴰ.tail later ↦ each s j v later k
        ],
      )
  on_window-IsPublished slug i rest pages a (some w) e absent h =
      let one = publish_one tick slug i w a in
      let (named, others, outcome) = publish_one-IsDone tick slug i w a in
      let (all, frame, each) = h one.1 in
      let slugs : watched_slugs ((slug, i) ∷ pages) ≡ slug ∷ watched_slugs pages =
        ap (λ o. if_watched slug o (watched_slugs pages)) e in
      let kept = frame slug (Absent-watched slug pages absent) in
      (
        rw (slugs, named, all) refl,
        (λ s k.
            let apart : among s (slug ∷ watched_slugs pages) ≡ false =
              ap (among s) (sym slugs) ∙ k in
            frame s (ground arith) ∙ others s (ground (arith, eq_iff s slug, eq_iff slug s))),
        λ s j v m k. elim m [
          | Memᴰ.head same ↦ (
            one.0,
            Memᴰ.head refl,
            subst
                (λ (x : String × Incident).
                  IsOutcome tick x.0 x.1 v one.0 (get a.files x.0) (get (rest one.1).1.files x.0))
                (sym same)
                (subst
                  (λ v.
                    IsOutcome tick slug i v one.0 (get a.files slug)
                      (get (rest one.1).1.files slug))
                  (some-injective _ _
                    (sym e ∙ ap (λ (x : String × Incident). watched_window x.1) (sym same) ∙ k))
                  (subst (IsOutcome tick slug i w one.0 (get a.files slug)) (sym kept) outcome)),
          )
          | Memᴰ.tail later ↦
              let (f, there, done) = each s j v later k in
              let apart : (slug == s) ≡ false =
                let no_key = All-at (λ e. (e.0 == slug) ≡ false) pages absent later in
                ground (arith, eq_iff s slug, eq_iff slug s) in
              (
                f,
                Memᴰ.tail there,
                subst (λ old. IsOutcome tick s j v f old (get (rest one.1).1.files s))
                    (others s apart) done,
              )
        ],
      )

  publish_all-IsPublished :
      (pages : List (String × Incident)) (a : Shelf)
      → Distinct pages
      → IsPublished pages (publish_all tick pages a).0 a.files (publish_all tick pages a).1.files
  unfolding publish_all IsPublished watched_slugs
  publish_all-IsPublished [] a h = (refl, (λ s k. refl), λ slug i w m k. elim m [ ])
  publish_all-IsPublished ((slug, i) ∷ pages) a h =
      on_window-IsPublished slug i (publish_all tick pages) pages a (watched_window i) refl h.0
        (λ b. publish_all-IsPublished pages b h.1)

  evaluate_all_lem :
      (pages : List (String × Incident)) (shelf : Shelf)
      → Distinct pages
      → (map (λ f. f.incident) (evaluate_all tick pages shelf).0 ≡ watched_slugs pages)
        × ((s : String)
            → among s (watched_slugs pages) ≡ false
            → get (evaluate_all tick pages shelf).1 s ≡ none)
        × ((slug : String) (i : Incident) (w : MonitoringWindow)
            → Memᴰ (slug, i) pages
            → watched_window i ≡ some w
            → (f : MonitoringFacts) × Memᴰ f (evaluate_all tick pages shelf).0
              × IsOutcome tick slug i w f
                  (get shelf.files slug)
                  (get (evaluate_all tick pages shelf).1 slug))
  unfolding evaluate_all
  evaluate_all_lem pages shelf distinct =
      let (all, frame, each) = publish_all-IsPublished pages shelf distinct in
      let files = (publish_all tick pages shelf).1.files in
      (
        all,
        (λ s h. rw (all, get-prune (watched_slugs pages) files s, h) refl),
        λ slug i w m k.
            let (f, there, done) = each slug i w m k in
            (
              f,
              there,
              subst (IsOutcome tick slug i w f (get shelf.files slug))
                  (sym (
                    rw
                      (
                        all,
                        get-prune (watched_slugs pages) files slug,
                        mem-watched pages slug i w m k,
                      )
                      refl))
                  done,
            ),
      )

  -- For pages with one page for each slug: `evaluate_all` returns a record for each monitored incident that has a
  -- window, in order, and no file of any other slug is left. The record of such an incident is what `evaluate`
  -- gives on its digests and some live count or none, and its file holds just that; or the digests do not load, `evaluate` raises or the
  -- file cannot be written, and then the record says that the evaluation failed and the file is as it was.
  pub evaluate_all-IsPublished :
      (pages : List (String × Incident)) (shelf : Shelf)
      → Distinct pages
      → (map (λ f. f.incident) (evaluate_all tick pages shelf).0 ≡ monitored_slugs pages)
        × ((s : String)
            → among s (monitored_slugs pages) ≡ false
            → get (evaluate_all tick pages shelf).1 s ≡ none)
        × ((slug : String) (i : Incident) (w : MonitoringWindow)
            → Memᴰ (slug, i) pages
            → i.status ≡ monitoring
            → i.monitoring_window ≡ some w
            → (f : MonitoringFacts) × Memᴰ f (evaluate_all tick pages shelf).0
              × IsOutcome tick slug i w f
                  (get shelf.files slug)
                  (get (evaluate_all tick pages shelf).1 slug))
  evaluate_all-IsPublished pages shelf distinct =
      let (all, gone, each) = evaluate_all_lem pages shelf distinct in
      let e = watched-monitored pages in
      (
        all ∙ e,
        (λ s h. gone s (ap (among s) e ∙ h)),
        λ slug i w m at has. each slug i w m (watched_now i w at has),
      )
