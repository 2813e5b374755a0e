-- ===== src/Queue/Select/Picks.antt =====
-- src/dbwiki/queue.py: the pick of a group, and the best pick.
use mathlib.Core.Option.{some-injective}
use logbook.Prelude.{
  String, ◌≡◌, ◌∙◌, refl, sym, subst, ◌⊎◌, inl, inr, true, Option, none, some, List, [], ◌∷◌, Memᴰ,
  map, sorted, IsSorted, All, All-map, text_leb, text_ltb, text_leb_total, text_leb_trans, arith,
  eq_iff, mem-sorted, mem_of_sorted, All_of_sorted, sorted-IsSorted, if◌then◌else◌,
}
use logbook.Queue.Records.{Named, created_le}
use logbook.Queue.Select.{Group, Pick, split_last, pick_sorted, pick_of, rank_ltb, better, best_of}

-- What the pick of a list of members is: one of them, none of them younger, and the names of the
-- others.
pub record PickOf (members : List Named) (p : Pick) : Type 0 where
  pub member : Memᴰ (p.name, p.rec) members
  pub newest : All (λ e. text_leb e.1.created_at p.rec.created_at ≡ true) members
  pub complete : All (λ e. (e.0 ≡ p.name) ⊎ Memᴰ e.0 p.older) members

created_total : (a b : Named) → (created_le a b ≡ true) ⊎ (created_le b a ≡ true)
created_total a b = text_leb_total a.1.created_at b.1.created_at

created_trans :
    (a b c : Named) → created_le a b ≡ true → created_le b c ≡ true → created_le a c ≡ true
created_trans a b c = text_leb_trans a.1.created_at b.1.created_at c.1.created_at

created_refl : (a : Named) → created_le a a ≡ true
created_refl a = elim (created_total a a) [ inl h ↦ h | inr h ↦ h ]

abbrev pick_from : List Named × Named → Pick
pick_from (before, newest) = record {
  name = newest.0;
  rec = newest.1;
  older = map (λ e. e.0) before;
}

split_last-PickOf :
    (x : Named) (xs : List Named)
    → IsSorted created_le (x ∷ xs)
    → PickOf (x ∷ xs) (pick_from (split_last x xs))
unfolding split_last
split_last-PickOf x [] h = record {
  member = Memᴰ.head refl;
  newest = (created_refl x, tt);
  complete = (inl refl, tt);
}
split_last-PickOf x (y ∷ ys) h =
    let ih = split_last-PickOf y ys h.1 in
    record {
      member = Memᴰ.tail ih.member;
      newest = (created_trans x y (split_last y ys).1 h.0.0 ih.newest.0, ih.newest);
      complete = (inr (Memᴰ.head refl), All-map (later) (y ∷ ys) ih.complete);
    }
  where
    later :
        (e : Named)
        → (e.0 ≡ (split_last y ys).1.0) ⊎ Memᴰ e.0 (map (λ e. e.0) (split_last y ys).0)
        → (e.0 ≡ (split_last y ys).1.0) ⊎ Memᴰ e.0 (x.0 ∷ map (λ e. e.0) (split_last y ys).0)
    later e (inl same) = inl same
    later e (inr m) = inr (Memᴰ.tail m)

pick_sorted-PickOf :
    (xs : List Named) (p : Pick) → IsSorted created_le xs → pick_sorted xs ≡ some p → PickOf xs p
unfolding pick_sorted
pick_sorted-PickOf [] p h e = cc
pick_sorted-PickOf (x ∷ xs) p h e =
    subst (PickOf (x ∷ xs)) (some-injective _ _ e) (split_last-PickOf x xs h)

pub pick_of-PickOf : (g : Group) (p : Pick) → pick_of g ≡ some p → PickOf g.1 p
unfolding pick_of
pick_of-PickOf (k, members) p e =
    let q =
      pick_sorted-PickOf (sorted created_le members) p
        (sorted-IsSorted created_le created_total created_trans members) e in
    record {
      member = mem_of_sorted created_le (p.name, p.rec) members q.member;
      newest = All_of_sorted created_le _ members q.newest;
      complete = All_of_sorted created_le _ members q.complete;
    }

-- A group that has a member has a pick.
pub pick_of_member : (g : Group) (x : Named) → Memᴰ x g.1 → (p : Pick) × (pick_of g ≡ some p)
unfolding pick_of pick_sorted
pick_of_member (k, members) x m = go (sorted created_le members) (mem-sorted created_le x members m)
  where
    go : (xs : List Named) → Memᴰ x xs → (p : Pick) × (pick_sorted xs ≡ some p)
    go [] m = elim m [ ]
    go (y ∷ ys) m = (pick_from (split_last y ys), refl)

text_leb_refl : (s : String) → text_leb s s ≡ true
text_leb_refl s = elim (text_leb_total s s) [ inl h ↦ h | inr h ↦ h ]

-- Whichever of two picks is kept, its day is no later than either's.
better_day :
    (a b : Pick)
    → (p : Pick) → better (some a) (some b) ≡ some p
    → (text_leb p.rec.day a.rec.day ≡ true)
      × (text_leb p.rec.day b.rec.day ≡ true)
      × ((p ≡ a) ⊎ (p ≡ b))
unfolding better text_ltb
better_day a b p h = ground (
  arith,
  text_leb_total a.rec.day b.rec.day,
  text_leb_refl a.rec.day,
  text_leb_refl b.rec.day,
  eq_iff b.rec.day a.rec.day,
)

-- `p` is the pick of one of the groups.
abbrev pub PickedIn : Pick → List Group → Type 0
PickedIn p [] = ⊥
PickedIn p (g ∷ gs) = (pick_of g ≡ some p) ⊎ PickedIn p gs

abbrev pub NoLater : Pick → Group → Type 0
NoLater p g = (q : Pick) → pick_of g ≡ some q → text_leb p.rec.day q.rec.day ≡ true

record BestOf (start : Pick) (gs : List Group) (p : Pick) : Type 0 where
  source : (p ≡ start) ⊎ PickedIn p gs
  start_day : text_leb p.rec.day start.rec.day ≡ true
  days : All (NoLater p) gs

-- One more group before those that `best_of` has gone through.
BestOf-cons :
    (g : Group) (gs : List Group) (start next p q : Pick)
    → pick_of g ≡ some q
    → better (some start) (some q) ≡ some next
    → BestOf next gs p
    → BestOf start (g ∷ gs) p
BestOf-cons g gs start next p q eq step rest =
    let (to_start, to_q, which) = better_day start q next step in
    record {
      source = from rest.source which;
      start_day = text_leb_trans p.rec.day next.rec.day start.rec.day rest.start_day to_start;
      days = (
        (λ r er. text_leb_trans p.rec.day next.rec.day r.rec.day rest.start_day (
            subst (λ z. text_leb next.rec.day z.rec.day ≡ true) (some-injective _ _ (sym eq ∙ er))
              to_q)),
        rest.days,
      );
    }
  where
    from :
        (p ≡ next) ⊎ PickedIn p gs → (next ≡ start) ⊎ (next ≡ q) → (p ≡ start) ⊎ PickedIn p (g ∷ gs)
    from (inl e) (inl f) = inl (e ∙ f)
    from (inl e) (inr f) = inr (inl (cc))
    from (inr m) w = inr (inr m)

best_of-BestOf :
    (gs : List Group) (start p : Pick) → best_of (some start) gs ≡ some p → BestOf start gs p
unfolding best_of
best_of-BestOf [] start p e = record {
  source = inl (sym (some-injective _ _ e));
  start_day =
      subst (λ q. text_leb q.rec.day start.rec.day ≡ true) (some-injective _ _ e)
        (text_leb_refl start.rec.day);
  days = tt;
}
best_of-BestOf (g ∷ gs) start p e = go (pick_of g) refl (λ next. best_of-BestOf gs next p) e
  where
    go :
        (o : Option Pick)
        → pick_of g ≡ o
        → ((next : Pick) → best_of (some next) gs ≡ some p → BestOf next gs p)
        → best_of (better (some start) o) gs ≡ some p
        → BestOf start (g ∷ gs) p
    go none eo ih f =
        let rest = ih start f in
        record {
          source = elim rest.source [ inl h ↦ inl h | inr m ↦ inr (inr m) ];
          start_day = rest.start_day;
          days = ((λ q eq. cc), rest.days);
        }
    go (some q) eo ih f =
        let next : Pick = if rank_ltb q.rec start.rec then q else start in
        BestOf-cons g gs start next p q eo refl (ih next f)

-- From no start: the answer is a pick of a group, and no pick has an earlier day.
pub best_of-none :
    (gs : List Group) (p : Pick) → best_of none gs ≡ some p → PickedIn p gs × All (NoLater p) gs
unfolding best_of
best_of-none [] p e = cc
best_of-none (g ∷ gs) p e = go (pick_of g) refl (best_of-none gs p) e
  where
    go :
        (o : Option Pick)
        → pick_of g ≡ o
        → (best_of none gs ≡ some p → PickedIn p gs × All (NoLater p) gs)
        → best_of (better none o) gs ≡ some p
        → PickedIn p (g ∷ gs) × All (NoLater p) (g ∷ gs)
    go none eo ih f = let (m, days) = ih f in (inr m, ((λ q eq. cc), days))
    go (some q) eo ih f =
        let b = best_of-BestOf gs q p f in
        (
          elim b.source [ inl h ↦ inl (cc) | inr m ↦ inr m ],
          (
            (λ r er.
                subst (λ z. text_leb p.rec.day z.rec.day ≡ true) (some-injective _ _ (sym eo ∙ er))
                  b.start_day),
            b.days,
          ),
        )

best_of-some : (gs : List Group) (p : Pick) → ¬ (best_of (some p) gs ≡ none)
unfolding best_of
best_of-some [] p e = cc
best_of-some (g ∷ gs) p e = go (pick_of g) (best_of-some gs) e
  where
    go :
        (o : Option Pick)
        → ((q : Pick) → ¬ (best_of (some q) gs ≡ none))
        → ¬ (best_of (better (some p) o) gs ≡ none)
    go none ih f = ih p f
    go (some q) ih f = ih (if rank_ltb q.rec p.rec then q else p) f

-- No answer means that no group has a pick.
pub best_of-eq-none : (gs : List Group) → best_of none gs ≡ none → All (λ g. pick_of g ≡ none) gs
unfolding best_of
best_of-eq-none [] e = tt
best_of-eq-none (g ∷ gs) e = go (pick_of g) refl (best_of-eq-none gs) e
  where
    go :
        (o : Option Pick)
        → pick_of g ≡ o
        → (best_of none gs ≡ none → All (λ g. pick_of g ≡ none) gs)
        → best_of (better none o) gs ≡ none
        → All (λ g. pick_of g ≡ none) (g ∷ gs)
    go none eo ih f = (eo, ih f)
    go (some q) eo ih f = absurd (best_of-some gs q f)
