-- ===== src/Lifecycle/Build/Merges.antt =====
-- src/dbwiki/lifecycle.py: the two pages of a merge.
use logbook.Prelude.{
  String, ◌≡◌, ◌≢◌, refl, sym, ap, ◌∙◌, true, false, Option, none, some, ◌==◌, Bool-cases, inl, inr,
  eq_iff,
}
use logbook.Prelude.Dict.{Dict, get}
use logbook.Incident.{Status, resolved, merge, Incident, is_active, incident_path}
use logbook.Lifecycle.{kind_of, merges, Merge, ok}
use logbook.Lifecycle.Table.{Step, folds, next_status-Step}
use logbook.Lifecycle.Build.{build, page_at, read_as, kept_record}
use logbook.Lifecycle.Build.Steps.{
  Steps, build-Steps, Kept, with_kept-Kept, page_at-put, action_of-IsSame, written-Written,
}
use logbook.Lifecycle.Build.Effects.{acted_page, if_true, if_false}
use logbook.Lifecycle.Build.Audit.{Adds, wrote-Adds}

-- The dropped page is resolved, and the kept one, another page of its database, is as active as it was,
-- with one record more; no merge takes the kept page back into the dropped one.
pub record IsFolded (tree : Dict Incident) (path : String) (m : Merge) (after : Dict Incident)
    : Type 0 where
  pub dropped : (j : Incident) → page_at after path ≡ some j → j.status ≡ resolved
  pub other : incident_path m.into ≢ path
  pub before : Incident
  pub behind : Incident
  pub was : page_at tree (incident_path m.into) ≡ some before
  pub now : page_at after (incident_path m.into) ≡ some behind
  pub same_db : (d : Incident) → page_at tree path ≡ some d → behind.db ≡ d.db
  pub active : is_active behind.status ≡ true
  pub same_status : behind.status ≡ before.status
  pub same_window : behind.monitoring_window ≡ before.monitoring_window
  pub recorded : (r : _) × Adds r before.actions behind.actions
  pub not_back :
      (b : Merge) (actor at : String) (last : Dict Incident)
      → incident_path b.into ≡ path
      → build after (incident_path m.into) (merges b) actor at ≢ ok last

same_page : {a b : Incident} → some a ≡ some b → a ≡ b
same_page h = cc

page_at-path :
    (tree : Dict Incident) (q : String) (i : Incident) → page_at tree q ≡ some i → i.path ≡ q
unfolding page_at
page_at-path tree q i h = read (get tree q) h
  where
    read : (o : Option Incident) → read_as q o ≡ some i → i.path ≡ q
    read none h = cc
    read (some p) h = sym (ap (λ x. x.path) (same_page h))

folds-resolved : {s t : Status} → Step s merge t → t ≡ resolved
folds-resolved (folds _ h) = refl

not_equal : (s t : String) → s ≢ t → (s == t) ≡ false
not_equal s t n = elim (Bool-cases (s == t)) [
  | inl same ↦ elim (n ((eq_iff s t).0 same)) [ ]
  | inr other ↦ other
]

still_resolved : (s : Status) → s ≡ resolved → is_active s ≡ true → ⊥
unfolding is_active
still_resolved s e active = cc (ap is_active (sym e) ∙ active)

module _ (tree : Dict Incident) (path : String) (m : Merge) (actor at : String)
    (after : Dict Incident) where
  dropped_status :
      (s : Steps tree path (merges m) actor at after) (j : Incident)
      → page_at after path ≡ some j
      → j.status ≡ resolved
  unfolding kind_of
  dropped_status s j now =
      let made = action_of-IsSame s.before (merges m) actor at s.status s.made s.recorded in
      let w = written-Written s.before s.made at s.page s.wrote in
      let e = same_page (sym (acted_page tree path (merges m) actor at after s path refl) ∙ now) in
      sym (ap (λ p. p.status) e)
      ∙ w.status
      ∙ made.3
      ∙ folds-resolved ((next_status-Step _ _ _).0 s.legal)

  Kept-page :
      (s : Steps tree path (merges m) actor at after) (k : Kept tree s.before m actor at s.rest)
      → incident_path m.into ≢ path
      → page_at after (incident_path m.into)
        ≡ some (record (k.page) { path = incident_path m.into })
  Kept-page s k apart =
      ap (λ t. page_at t (incident_path m.into)) s.result
      ∙ page_at-put s.rest path (incident_path m.into) s.page
      ∙ if_false _ _ _ (not_equal path (incident_path m.into) (λ e. apart (sym e)))
      ∙ ap (λ t. page_at t (incident_path m.into)) k.result
      ∙ page_at-put tree (incident_path m.into) (incident_path m.into) k.page
      ∙ if_true _ _ (page_at tree (incident_path m.into))
          ((eq_iff (incident_path m.into) (incident_path m.into)).1 refl)

  -- A merge that `build` takes resolves the dropped page and leaves the kept one, which is another page of
  -- the same database, active with its own status and window; the kept page only gains a record. On the
  -- pages it leaves, merging the kept page into the dropped one is refused, whoever asks and at whatever
  -- instant.
  pub build-IsFolded : build tree path (merges m) actor at ≡ ok after → IsFolded tree path m after
  unfolding kept_record
  build-IsFolded h =
      let s = build-Steps tree path (merges m) actor at after h in
      let k = with_kept-Kept tree s.before m actor at s.rest s.kept in
      let w = written-Written k.before k.made at k.page k.wrote in
      let apart : incident_path m.into ≢ path =
        λ e. cc (k.other, (eq_iff _ _).1 (e ∙ sym (page_at-path tree path s.before s.found))) in
      record {
        dropped = dropped_status s;
        other = apart;
        before = k.before;
        behind = record (k.page) { path = incident_path m.into };
        was = k.found;
        now = Kept-page s k apart;
        same_db = λ d found. w.db ∙ k.same_db ∙ ap (λ p. p.db) (same_page (sym s.found ∙ found));
        active = ap is_active (w.status ∙ k.same.status_after) ∙ k.active;
        same_status = w.status ∙ k.same.status_after;
        same_window = w.window ∙ k.same.window;
        recorded = (k.made, wrote-Adds k.before k.made at k.page k.wrote);
        not_back = λ b actor' at' last back again.
            let t = build-Steps after (incident_path m.into) (merges b) actor' at' last again in
            let l = with_kept-Kept after t.before b actor' at' t.rest t.kept in
            still_resolved l.before.status
              (dropped_status s l.before (ap (page_at after) (sym back) ∙ l.found)) l.active;
      }
