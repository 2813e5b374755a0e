-- ===== src/Lifecycle/Build/Statuses.antt =====
-- src/dbwiki/lifecycle.py: how one `build` moves the statuses and the windows of the pages.
use logbook.Prelude.{String, ◌≡◌, sym, ap, subst, ◌∙◌, none, some, inl, inr, ◌⊎◌}
use logbook.Prelude.Dict.{Dict}
use logbook.Incident.{Incident}
use logbook.Lifecycle.{Command, kind_of, ok, window_after}
use logbook.Lifecycle.Table.{Step, next_status-Step}
use logbook.Lifecycle.Build.{build, page_at, kept_record}
use logbook.Lifecycle.Build.Steps.{Steps, build-Steps, action_of-IsSame, written-Written}
use logbook.Lifecycle.Build.Effects.{Effect, untouched, acted, absorbed, build-Effect}

-- The page of `q` keeps status and window, or it is the page of the command, whose status takes a step
-- and whose window is `_window_after`'s. No page comes or goes.
pub record IsMove (tree : Dict Incident) (path : String) (c : Command) (at : String)
    (after : Dict Incident) (q : String) : Type 0 where
  pub creates_none : page_at tree q ≡ none → page_at after q ≡ none
  pub deletes_none :
      (i : Incident) → page_at tree q ≡ some i → (j : Incident) × (page_at after q ≡ some j)
  pub moves :
      (i j : Incident)
      → page_at tree q ≡ some i
      → page_at after q ≡ some j
      → ((j.status ≡ i.status) × (j.monitoring_window ≡ i.monitoring_window))
        ⊎ ((path ≡ q)
            × Step i.status (kind_of c) j.status
            × (window_after i c at ≡ ok j.monitoring_window))

same_page : {a b : Incident} → some a ≡ some b → a ≡ b
same_page h = cc

module _ (tree : Dict Incident) (path : String) (c : Command) (actor at : String)
    (after : Dict Incident) where
  is_move :
      (s : Steps tree path c actor at after) (q : String)
      → Effect tree path c actor at after s q
      → IsMove tree path c at after q
  unfolding kept_record
  is_move s q (untouched same) = record {
    creates_none = λ h. same ∙ h;
    deletes_none = λ i h. (i, same ∙ h);
    moves = λ i j h k.
        let e = same_page (sym k ∙ same ∙ h) in
        inl (ap (λ p. p.status) e, ap (λ p. p.monitoring_window) e);
  }
  is_move s q (acted here now) = record {
    creates_none = λ h. cc (here, h, s.found);
    deletes_none = λ i h. (_, now);
    moves = λ i j h k.
        let made = action_of-IsSame s.before c actor at s.status s.made s.recorded in
        let w = written-Written s.before s.made at s.page s.wrote in
        let was = same_page (sym s.found ∙ ap (page_at tree) here ∙ h) in
        let is_now = same_page (sym now ∙ k) in
        inr (
          here,
          subst (λ p. Step p.status (kind_of c) j.status) was
              (subst (Step s.before.status (kind_of c))
                (sym made.3 ∙ sym w.status ∙ ap (λ p. p.status) is_now)
                ((next_status-Step _ _ _).0 s.legal)),
          subst (λ p. window_after p c at ≡ ok j.monitoring_window) was
              (made.4 ∙ ap ok (sym w.window ∙ ap (λ p. p.monitoring_window) is_now)),
        );
  }
  is_move s q (absorbed m merging k here now) = record {
    creates_none = λ h. cc (here, h, k.found);
    deletes_none = λ i h. (_, now);
    moves = λ i j h l.
        let w = written-Written k.before k.made at k.page k.wrote in
        let was = same_page (sym k.found ∙ ap (page_at tree) here ∙ h) in
        let is_now = same_page (sym now ∙ l) in
        inl (
          sym (ap (λ p. p.status) is_now) ∙ w.status ∙ k.same.status_after ∙ ap (λ p. p.status) was,
          sym (ap (λ p. p.monitoring_window) is_now)
              ∙ w.window
              ∙ k.same.window
              ∙ ap (λ p. p.monitoring_window) was,
        );
  }

  -- A command that `build` takes changes the status and the window of no page but its own: the kept page
  -- of a merge has both unchanged. Its own page's status takes one of the steps of `Step`, its window is
  -- the one that `_window_after` gives, and no page is created or deleted.
  pub build-IsMove :
      build tree path c actor at ≡ ok after → (q : String) → IsMove tree path c at after q
  build-IsMove h q =
      let s = build-Steps tree path c actor at after h in
      is_move s q (build-Effect tree path c actor at after s q)
