-- ===== src/Lifecycle/Build/Audit.antt =====
-- src/dbwiki/lifecycle.py, src/dbwiki/incidents.py: the action records of the pages.
use logbook.Prelude.{
  String, ◌≡◌, refl, sym, ap, subst, ◌∙◌, Bool, true, false, not, ◌&&◌, some, List, [], ◌∷◌, ◌==◌,
  inl, inr, ◌⊎◌, arith, Bool-cases, any, filter, Memᴰ, mem-filter, All, All-map, All-mem,
  All-filter,
}
use logbook.Prelude.Dict.{Dict}
use logbook.Incident.{ActionRecord, ActionRecord-discrete, Incident}
use logbook.Lifecycle.{ok, err, Command, kind_of, action_collision}
use logbook.Lifecycle.Build.{build, page_at, append_action, placed, differs, refuted, written}
use logbook.Lifecycle.Build.Steps.{
  Steps, build-Steps, action_of-IsSame, written-Written, ok-injective,
}
use logbook.Lifecycle.Build.Effects.{Effect, untouched, acted, absorbed, build-Effect, acted_page}

-- The sections of `before` are all in `after`, and the record is the only one that may be new.
pub record Adds (r : ActionRecord) (before after : List ActionRecord) : Type 0 where
  pub lost_none : All (λ h. Memᴰ h after) before
  pub written : Memᴰ r after
  pub no_other : All (λ h. (h ≡ r) ⊎ Memᴰ h before) after

All-any : {A : Type 0} (p : A → Bool) (xs : List A) → any p xs ≡ false → All (λ x. p x ≡ false) xs
All-any p [] h = tt
All-any p (x ∷ xs) h = (ground arith, All-any p xs (ground arith))

abbrev collides : ActionRecord → ActionRecord → Bool
collides r h = h.at == r.at && differs h r

refuted-false : {A : Type 0} (d : Dec A) → refuted d ≡ false → A
refuted-false (yes a) h = a
refuted-false (no n) h = cc

same_act : (r h : ActionRecord) → collides r h ≡ false → (h.at == r.at) ≡ true → h ≡ r
unfolding differs
same_act r h free same = refuted-false (ActionRecord-discrete h r) (ground (arith, free, same))

All-both :
    {A : Type 0} (P Q : A → Type 0) (xs : List A) → All P xs → All Q xs → All (λ x. P x × Q x) xs
All-both P Q [] h k = tt
All-both P Q (x ∷ xs) h k = ((h.0, k.0), All-both P Q xs h.1 k.1)

-- Behind the new record stand those of other instants, and the ones that it replaces are equal to it.
still_there :
    (r : ActionRecord) (more : List ActionRecord) (h : ActionRecord)
    → (collides r h ≡ false) × Memᴰ h more
    → Memᴰ h (r ∷ filter (λ h. not (h.at == r.at)) more)
still_there r more h (free, m) = elim (Bool-cases (h.at == r.at)) [
  | inl same ↦ Memᴰ.head (same_act r h free same)
  | inr other ↦ Memᴰ.tail (mem-filter _ h more m (ap not other))
]

older :
    (r y : ActionRecord) (held : List ActionRecord) (h : ActionRecord)
    → (h ≡ r) ⊎ Memᴰ h held
    → (h ≡ r) ⊎ Memᴰ h (y ∷ held)
older r y held h (inl e) = inl e
older r y held h (inr m) = inr (Memᴰ.tail m)

placed-Adds :
    (r : ActionRecord) (held : List ActionRecord)
    → All (λ h. collides r h ≡ false) held
    → Adds r held (placed r held)
unfolding placed
placed-Adds r [] free = record {
  lost_none = tt;
  written = Memᴰ.head refl;
  no_other = (inl refl, tt);
}
placed-Adds r (h ∷ more) free = elim (Bool-cases (h.at == r.at)) [
  | inl same ↦ rw same (record {
    lost_none = (
      Memᴰ.head (same_act r h free.0 same),
      All-map (still_there r more) more (All-both _ _ more free.1 (All-mem more)),
    );
    written = Memᴰ.head refl;
    no_other =
        (inl refl, All-filter _ _ more (All-map (λ x m. inr (Memᴰ.tail m)) more (All-mem more)));
  })
  | inr other ↦
      let rest = placed-Adds r more free.1 in
      rw other (record {
        lost_none = (Memᴰ.head refl, All-map (λ x m. Memᴰ.tail m) more rest.lost_none);
        written = Memᴰ.tail rest.written;
        no_other = (inr (Memᴰ.head refl), All-map (older r h more) (placed r more) rest.no_other);
      })
]

refusal :
    (r : ActionRecord) (held : List ActionRecord)
    → any (collides r) held ≡ true
    → append_action r held ≡ err action_collision
unfolding append_action
refusal r held taken = rw taken refl

accepted :
    (r : ActionRecord) (held : List ActionRecord)
    → any (collides r) held ≡ false
    → append_action r held ≡ ok (placed r held)
unfolding append_action
accepted r held free = rw free refl

append_action-Adds :
    (r : ActionRecord) (held after : List ActionRecord)
    → append_action r held ≡ ok after
    → Adds r held after
unfolding append_action
append_action-Adds r held after h = elim (Bool-cases (any (collides r) held)) [
  | inl taken ↦ cc (h, refusal r held taken)
  | inr free ↦
      subst (Adds r held) (ok-injective (sym (accepted r held free) ∙ h))
        (placed-Adds r held (All-any (collides r) held free))
]

pub wrote-Adds :
    (i : Incident) (r : ActionRecord) (at : String) (page : Incident)
    → written i r at ≡ ok page
    → Adds r i.actions page.actions
wrote-Adds i r at page h =
    append_action-Adds r i.actions page.actions (written-Written i r at page h).actions

-- The log of the page of `q` loses nothing; the page of the command has a record of it besides, which
-- names its kind, its actor and the status and window that it left, and gets no other record.
pub record IsAudited (tree : Dict Incident) (path : String) (c : Command) (actor at : String)
    (after : Dict Incident) (q : String) : Type 0 where
  pub keeps :
      (i j : Incident)
      → page_at tree q ≡ some i
      → page_at after q ≡ some j
      → All (λ h. Memᴰ h j.actions) i.actions
  pub records :
      (i j : Incident)
      → path ≡ q
      → page_at tree q ≡ some i
      → page_at after q ≡ some j
      → (r : ActionRecord) × Adds r i.actions j.actions
        × (r.at ≡ at)
        × (r.kind ≡ kind_of c)
        × (r.actor ≡ actor)
        × (r.status_after ≡ j.status)
        × (r.window ≡ j.monitoring_window)
        × (j.updated ≡ at)

same_page : {a b : Incident} → some a ≡ some b → a ≡ b
same_page h = cc

moved :
    (a a' b b' : Incident)
    → All (λ h. Memᴰ h b.actions) a.actions
    → a ≡ a'
    → b ≡ b'
    → All (λ h. Memᴰ h b'.actions) a'.actions
moved a a' b b' h e f =
    subst (λ a. All (λ h. Memᴰ h b'.actions) a.actions) e
      (subst (λ b. All (λ h. Memᴰ h b.actions) a.actions) f h)

module _ (tree : Dict Incident) (path : String) (c : Command) (actor at : String)
    (after : Dict Incident) where
  lost_none :
      (s : Steps tree path c actor at after) (q : String) (i j : Incident)
      → Effect tree path c actor at after s q
      → page_at tree q ≡ some i
      → page_at after q ≡ some j
      → All (λ h. Memᴰ h j.actions) i.actions
  lost_none s q i j (untouched same) was now =
      subst (λ p. All (λ h. Memᴰ h p.actions) i.actions) (same_page (sym was ∙ sym same ∙ now))
        (All-mem i.actions)
  lost_none s q i j (acted here done) was now =
      moved _ _ _ _ (wrote-Adds s.before s.made at s.page s.wrote).lost_none
        (same_page (sym s.found ∙ ap (page_at tree) here ∙ was)) (same_page (sym done ∙ now))
  lost_none s q i j (absorbed m merging k here done) was now =
      moved _ _ _ _ (wrote-Adds k.before k.made at k.page k.wrote).lost_none
        (same_page (sym k.found ∙ ap (page_at tree) here ∙ was)) (same_page (sym done ∙ now))

  recorded :
      (s : Steps tree path c actor at after) (q : String)
      → path ≡ q
      → page_at after q ≡ some (record (s.page) { path = q })
      → (i j : Incident) → page_at tree q ≡ some i
      → page_at after q ≡ some j
      → (r : ActionRecord) × Adds r i.actions j.actions
        × (r.at ≡ at)
        × (r.kind ≡ kind_of c)
        × (r.actor ≡ actor)
        × (r.status_after ≡ j.status)
        × (r.window ≡ j.monitoring_window)
        × (j.updated ≡ at)
  recorded s q here done i j was now =
      let made = action_of-IsSame s.before c actor at s.status s.made s.recorded in
      let w = written-Written s.before s.made at s.page s.wrote in
      let before = same_page (sym s.found ∙ ap (page_at tree) here ∙ was) in
      let behind = same_page (sym done ∙ now) in
      let adds = wrote-Adds s.before s.made at s.page s.wrote in
      (
        s.made,
        subst (λ p. Adds s.made p.actions j.actions) before
            (subst (λ p. Adds s.made s.before.actions p.actions) behind adds),
        made.0,
        made.1,
        made.2,
        sym w.status ∙ ap (λ p. p.status) behind,
        sym w.window ∙ ap (λ p. p.monitoring_window) behind,
        sym (ap (λ p. p.updated) behind) ∙ w.updated,
      )

  -- When `build` takes a command, every page keeps every action that it recorded. The page of the command
  -- then holds a record with the command's instant, kind and actor and with the status and the window that
  -- the page now has, and besides its earlier actions no other.
  pub build-IsAudited :
      build tree path c actor at ≡ ok after → (q : String) → IsAudited tree path c actor at after q
  build-IsAudited h q =
      let s = build-Steps tree path c actor at after h in
      record {
        keeps =
            λ i j was now. lost_none s q i j (build-Effect tree path c actor at after s q) was now;
        records = λ i j here was now.
            recorded s q here (acted_page tree path c actor at after s q here) i j was now;
      }
