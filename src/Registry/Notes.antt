-- ===== src/Registry/Notes.antt =====
-- src/dbwiki/state.py: `note` over the events of a window.
use logbook.Prelude.{
  String, ◌≡◌, refl, sym, ap, subst, ◌∙◌, inl, inr, true, false, Option, none, some, List, [], ◌∷◌,
  ◌==◌, All, All-map, arith, eq_iff, eq_refl, Bool-cases, nonempty, if◌then◌else◌,
}
use logbook.Prelude.Dict.{Dict, get, get-put}
use logbook.Registry.{Instants, Seen, widened, note}

abbrev pub Sighting : Type 0
Sighting = String × String

module _ (order : Instants) where
  unfoldable pub note_all : Dict Seen → List Sighting → Dict Seen
  unfolding note
  note_all d [] = d
  note_all d ((key, ts) ∷ more) = note_all (note order d key ts) more

  -- The instant lies between the first and the last.
  abbrev pub Spans : Seen → String → Type 0
  Spans v ts = (order.before ts v.first_seen ≡ false) × (order.before v.last_seen ts ≡ false)

  abbrev SpansOption : Option Seen → String → Type 0
  SpansOption none ts = ⊥
  SpansOption (some v) ts = Spans v ts

  -- The sighting is in the registry; one without a key never is.
  abbrev pub Holds : Dict Seen → Sighting → Type 0
  Holds d (key, ts) = nonempty key ≡ true → SpansOption (get d key) ts

  widened-Spans : (o : Option Seen) (ts : String) → Spans (widened order o ts) ts
  unfolding widened
  widened-Spans none ts = (order.irreflexive ts, order.irreflexive ts)
  widened-Spans (some cur) ts = ground (arith, order.irreflexive ts)

  widened_again :
      (o : Option Seen) (ts at : String) → SpansOption o ts → Spans (widened order o at) ts
  unfolding widened
  widened_again none ts at h = elim h [ ]
  widened_again (some cur) ts at h = (
    elim (Bool-cases (order.before at cur.first_seen)) [
      | inl e ↦
          rw e
            (order.not_transitive ts cur.first_seen at h.0 (order.asymmetric at cur.first_seen e))
      | inr e ↦ rw e h.0
    ],
    elim (Bool-cases (order.before cur.last_seen at)) [
      | inl e ↦
          rw e (order.not_transitive at cur.last_seen ts (order.asymmetric cur.last_seen at e) h.1)
      | inr e ↦ rw e h.1
    ],
  )

  widened_same : (v : Seen) (ts : String) → Spans v ts → widened order (some v) ts ≡ v
  unfolding widened
  widened_same v ts h = rw (h.0, h.1) refl

  get-note :
      (d : Dict Seen) (key ts j : String)
      → nonempty key ≡ true
      → get (note order d key ts) j
        ≡ (if key == j then some (widened order (get d key) ts) else get d j)
  unfolding note
  get-note d key ts j named = rw named (get-put d key j _)

  note_nameless : (d : Dict Seen) (key ts : String) → nonempty key ≡ false → note order d key ts ≡ d
  unfolding note
  note_nameless d key ts nameless = rw nameless refl

  note-Holds : (d : Dict Seen) (key ts : String) → Holds (note order d key ts) (key, ts)
  note-Holds d key ts named =
      subst (λ o. SpansOption o ts) (sym (get-note d key ts key named ∙ here))
        (widened-Spans (get d key) ts)
    where
      here :
          (if key == key then some (widened order (get d key) ts) else get d key)
          ≡ some (widened order (get d key) ts)
      here = rw (eq_refl key) refl

  -- Whatever else is noted, what is in the registry stays in it.
  note_keeps-Holds :
      (d : Dict Seen) (key ts : String) (s : Sighting) → Holds d s → Holds (note order d key ts) s
  note_keeps-Holds d key ts (k, at) h named = elim (Bool-cases (nonempty key)) [
    | inr nameless ↦
        subst (λ d. SpansOption (get d k) at) (sym (note_nameless d key ts nameless)) (h named)
    | inl other_named ↦
        subst (λ o. SpansOption o at) (sym (get-note d key ts k other_named))
          (elim (Bool-cases (key == k)) [
            | inl same ↦ rw same (
                widened_again (get d key) at ts
                  (subst (λ j. SpansOption (get d j) at) (sym ((eq_iff key k).0 same)) (h named)))
            | inr other ↦ rw other (h named)
          ])
  ]

  spans_same : (o : Option Seen) (ts : String) → SpansOption o ts → some (widened order o ts) ≡ o
  spans_same none ts h = elim h [ ]
  spans_same (some v) ts h = ap some (widened_same v ts h)

  note_same :
      (d : Dict Seen) (key ts j : String)
      → Holds d (key, ts)
      → get (note order d key ts) j ≡ get d j
  note_same d key ts j h = elim (Bool-cases (nonempty key)) [
    | inr nameless ↦ ap (λ d. get d j) (note_nameless d key ts nameless)
    | inl named ↦ get-note d key ts j named ∙ elim (Bool-cases (key == j)) [
      | inl same ↦
          rw same (spans_same (get d key) ts (h named) ∙ ap (get d) ((eq_iff key j).0 same))
      | inr other ↦ rw other refl
    ]
  ]

  note_all_keeps-Holds :
      (d : Dict Seen) (more : List Sighting) (s : Sighting) → Holds d s → Holds (note_all d more) s
  unfolding note_all
  note_all_keeps-Holds d [] s h = h
  note_all_keeps-Holds d ((key, ts) ∷ more) s h =
      note_all_keeps-Holds (note order d key ts) more s (note_keeps-Holds d key ts s h)

  note_all-Holds : (d : Dict Seen) (more : List Sighting) → All (Holds (note_all d more)) more
  unfolding note_all
  note_all-Holds d [] = tt
  note_all-Holds d ((key, ts) ∷ more) = (
    note_all_keeps-Holds (note order d key ts) more (key, ts) (note-Holds d key ts),
    note_all-Holds (note order d key ts) more,
  )

  note_all_same :
      (d : Dict Seen) (more : List Sighting) (j : String)
      → All (Holds d) more
      → get (note_all d more) j ≡ get d j
  unfolding note_all
  note_all_same d [] j h = refl
  note_all_same d ((key, ts) ∷ more) j h =
      note_all_same (note order d key ts) more j
        (All-map (λ s held. note_keeps-Holds d key ts s held) more h.1)
      ∙ note_same d key ts j h.0

  -- A window that is compacted again notes the same events again, and the registry has the same entry for
  -- every key behind it as before; and every noted instant lies between the first and the last one of its
  -- key.
  pub note_all_again :
      (d : Dict Seen) (events : List Sighting) (j : String)
      → (get (note_all (note_all d events) events) j ≡ get (note_all d events) j)
        × All (Holds (note_all d events)) events
  note_all_again d events j = (
    note_all_same (note_all d events) events j (note_all-Holds d events),
    note_all-Holds d events,
  )
