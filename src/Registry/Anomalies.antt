-- ===== src/Registry/Anomalies.antt =====
-- src/dbwiki/state.py: the anomalies of a day and source, by counter.
use logbook.Prelude.{
  String, ◌≡◌, refl, sym, ap, subst, ◌∙◌, inl, inr, false, Option, none, some, List, [], ◌∷◌, ◌==◌,
  Memᴰ, ◌⊎◌, All, eq_iff, eq_refl, Bool-cases, if◌then◌else◌,
}
use mathlib.Core.Option.{some-injective}
use logbook.Prelude.Dict.{Dict, get, get-put}
use logbook.Registry.{Amounts, Anomaly, note_anomaly, note_beside}

module _ {F : Type 0} (amounts : Amounts F) where
  unfoldable pub note_anomalies : Dict (Anomaly F) → List (String × Anomaly F) → Dict (Anomaly F)
  unfolding note_anomaly
  note_anomalies kept [] = kept
  note_anomalies kept ((counter, delta) ∷ more) =
      note_anomalies (note_anomaly amounts kept counter delta).0 more

  -- An anomaly of the counter is kept, and the given one has no higher rate.
  abbrev pub Tops : Option (Anomaly F) → Anomaly F → Type 0
  Tops none delta = ⊥
  Tops (some cur) delta = amounts.exceeds delta.1 cur.1 ≡ false

  -- What `note_anomaly` leaves of a counter.
  abbrev topped : Option (Anomaly F) → Anomaly F → Anomaly F
  topped none delta = delta
  topped (some cur) delta = if amounts.exceeds delta.1 cur.1 then delta else cur

  get-note_anomaly :
      (kept : Dict (Anomaly F)) (counter c : String) (delta : Anomaly F)
      → get (note_anomaly amounts kept counter delta).0 c
        ≡ (if counter == c then some (topped (get kept counter) delta) else get kept c)
  unfolding note_anomaly
  get-note_anomaly kept counter c delta = beside (get kept counter) refl
    where
      beside :
          (o : Option (Anomaly F))
          → get kept counter ≡ o
          → get (note_beside amounts kept counter delta o).0 c
            ≡ (if counter == c then some (topped o delta) else get kept c)
      beside none at = get-put kept counter c delta
      beside (some cur) at = elim (Bool-cases (amounts.exceeds delta.1 cur.1)) [
        | inl higher ↦ rw higher (get-put kept counter c delta)
        | inr lower ↦ rw lower (elim (Bool-cases (counter == c)) [
          | inl same ↦ rw same (ap (get kept) (sym ((eq_iff counter c).0 same)) ∙ at)
          | inr other ↦ rw other refl
        ])
      ]

  topped-Tops : (o : Option (Anomaly F)) (delta : Anomaly F) → Tops (some (topped o delta)) delta
  topped-Tops none delta = amounts.irreflexive delta.1
  topped-Tops (some cur) delta = elim (Bool-cases (amounts.exceeds delta.1 cur.1)) [
    | inl higher ↦ rw higher (amounts.irreflexive delta.1)
    | inr lower ↦ rw lower lower
  ]

  topped_keeps-Tops :
      (o : Option (Anomaly F)) (delta x : Anomaly F) → Tops o x → Tops (some (topped o delta)) x
  topped_keeps-Tops none delta x h = elim h [ ]
  topped_keeps-Tops (some cur) delta x h = elim (Bool-cases (amounts.exceeds delta.1 cur.1)) [
    | inl higher ↦
        rw higher
          (amounts.not_transitive x.1 cur.1 delta.1 h (amounts.asymmetric delta.1 cur.1 higher))
    | inr lower ↦ rw lower h
  ]

  note_keeps-Tops :
      (kept : Dict (Anomaly F)) (counter c : String) (delta x : Anomaly F)
      → Tops (get kept c) x
      → Tops (get (note_anomaly amounts kept counter delta).0 c) x
  note_keeps-Tops kept counter c delta x h =
      subst (λ o. Tops o x) (sym (get-note_anomaly kept counter c delta))
        (elim (Bool-cases (counter == c)) [
          | inl same ↦ rw same (
              topped_keeps-Tops (get kept counter) delta x
                (subst (λ k. Tops (get kept k) x) (sym ((eq_iff counter c).0 same)) h))
          | inr other ↦ rw other h
        ])

  notes_keep-Tops :
      (kept : Dict (Anomaly F)) (more : List (String × Anomaly F)) (c : String) (x : Anomaly F)
      → Tops (get kept c) x
      → Tops (get (note_anomalies kept more) c) x
  unfolding note_anomalies
  notes_keep-Tops kept [] c x h = h
  notes_keep-Tops kept ((counter, delta) ∷ more) c x h =
      notes_keep-Tops (note_anomaly amounts kept counter delta).0 more c x
        (note_keeps-Tops kept counter c delta x h)

  note-Tops :
      (kept : Dict (Anomaly F)) (counter : String) (delta : Anomaly F)
      → Tops (get (note_anomaly amounts kept counter delta).0 counter) delta
  note-Tops kept counter delta =
      subst (λ o. Tops o delta) (sym (get-note_anomaly kept counter counter delta))
        (rw (eq_refl counter) (topped-Tops (get kept counter) delta))

  topped_all :
      (kept : Dict (Anomaly F)) (shown : List (String × Anomaly F))
      → All (λ e. Tops (get (note_anomalies kept shown) e.0) e.1) shown
  unfolding note_anomalies
  topped_all kept [] = tt
  topped_all kept ((counter, delta) ∷ more) = (
    notes_keep-Tops (note_anomaly amounts kept counter delta).0 more counter delta
        (note-Tops kept counter delta),
    topped_all (note_anomaly amounts kept counter delta).0 more,
  )

  -- What is kept of a counter was kept before or was shown.
  abbrev pub IsShown : Dict (Anomaly F) → List (String × Anomaly F) → String → Anomaly F → Type 0
  IsShown kept shown c cur = (get kept c ≡ some cur) ⊎ Memᴰ (c, cur) shown

  topped_one :
      (o : Option (Anomaly F)) (delta cur : Anomaly F)
      → topped o delta ≡ cur
      → (cur ≡ delta) ⊎ (o ≡ some cur)
  topped_one none delta cur h = inl (sym h)
  topped_one (some old) delta cur h = elim (Bool-cases (amounts.exceeds delta.1 old.1)) [
    | inl higher ↦ inl (sym (rw higher at h))
    | inr lower ↦ inr (ap some (rw lower at h))
  ]

  one-IsShown :
      (kept : Dict (Anomaly F)) (counter c : String) (delta cur : Anomaly F)
      → get (note_anomaly amounts kept counter delta).0 c ≡ some cur
      → IsShown kept ((counter, delta) ∷ []) c cur
  one-IsShown kept counter c delta cur h =
      let e = sym (get-note_anomaly kept counter c delta) ∙ h in
      elim (Bool-cases (counter == c)) [
        | inr other ↦ inl (rw other at e)
        | inl same ↦
            let k : counter ≡ c = (eq_iff counter c).0 same in
            elim (topped_one (get kept counter) delta cur (some-injective _ _ (rw same at e))) [
              | inl new ↦ inr (Memᴰ.head (λ i. (sym k i, new i)))
              | inr old ↦ inl (ap (get kept) (sym k) ∙ old)
            ]
      ]

  notes-IsShown :
      (kept : Dict (Anomaly F)) (shown : List (String × Anomaly F)) (c : String) (cur : Anomaly F)
      → get (note_anomalies kept shown) c ≡ some cur
      → IsShown kept shown c cur
  unfolding note_anomalies
  notes-IsShown kept [] c cur h = inl h
  notes-IsShown kept ((counter, delta) ∷ more) c cur h =
      elim (notes-IsShown (note_anomaly amounts kept counter delta).0 more c cur h) [
        | inr later ↦ inr (Memᴰ.tail later)
        | inl now ↦ elim (one-IsShown kept counter c delta cur now) [
          | inl old ↦ inl old
          | inr m ↦ inr (mem_first m)
        ]
      ]
    where
      mem_first :
          Memᴰ {A = String × Anomaly F} (c, cur) ((counter, delta) ∷ [])
          → Memᴰ {A = String × Anomaly F} (c, cur) ((counter, delta) ∷ more)
      mem_first (Memᴰ.head e) = Memᴰ.head e
      mem_first (Memᴰ.tail m) = elim m [ ]

  -- However often a day is compacted, of each counter that has shown an anomaly one is kept that was kept before
  -- or that some run showed, and that none of those that any run showed exceeds.
  pub note_anomalies-Tops :
      (kept : Dict (Anomaly F)) (shown : List (String × Anomaly F))
      → All (λ e. Tops (get (note_anomalies kept shown) e.0) e.1) shown
        × ((c : String) (cur : Anomaly F)
            → get (note_anomalies kept shown) c ≡ some cur
            → IsShown kept shown c cur)
  note_anomalies-Tops kept shown = (topped_all kept shown, notes-IsShown kept shown)
