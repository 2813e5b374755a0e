-- ===== src/Queue/Select/Oldest.antt =====
-- src/dbwiki/queue.py: what `_select_claim_target` chooses, told by the files of `pending/`.
use logbook.Prelude.{
  String, ◌≡◌, ◌∙◌, refl, sym, subst, ap, false≢true, ◌⊎◌, inl, inr, true, false, Option, none,
  some, List, [], ◌∷◌, Memᴰ, sorted, mem-sorted, mem_of_sorted, All, All-at, All-map, All-mem,
  text_leb, arith, eq_iff, Bool-cases,
}
use logbook.Prelude.Dict.{Dict, get, Distinct, mem_of_get, get_of_mem}
use logbook.Queue.Records.{
  Request, RequestFile, corrupt, request, Named, parsed, name_le, created_le, read_records,
}
use logbook.Queue.Select.{
  wanted, key, same_key, Group, groups_of, Pick, pick_of, select_claim_target,
}
use logbook.Queue.Select.Groups.{
  Covered, Sound, DistinctKeys, groups-Sound, groups-Covered, groups-DistinctKeys,
}
use logbook.Queue.Select.Picks.{
  PickedIn, NoLater, pick_of-PickOf, pick_of_member, best_of-none, best_of-eq-none,
}

-- A file that parses is read.
mem-parsed :
    (name : String) (rec : Request) (dir : Dict RequestFile)
    → Memᴰ (name, request rec) dir
    → Memᴰ (name, rec) (parsed dir)
unfolding parsed
mem-parsed name rec [] m = elim m [ ]
mem-parsed name rec ((n, corrupt) ∷ dir) (Memᴰ.head e) = cc
mem-parsed name rec ((n, corrupt) ∷ dir) (Memᴰ.tail m) = mem-parsed name rec dir m
mem-parsed name rec ((n, request r) ∷ dir) (Memᴰ.head e) = Memᴰ.head (cc)
mem-parsed name rec ((n, request r) ∷ dir) (Memᴰ.tail m) = Memᴰ.tail (mem-parsed name rec dir m)

mem_of_parsed :
    (name : String) (rec : Request) (dir : Dict RequestFile)
    → Memᴰ (name, rec) (parsed dir)
    → Memᴰ (name, request rec) dir
unfolding parsed
mem_of_parsed name rec [] m = elim m [ ]
mem_of_parsed name rec ((n, corrupt) ∷ dir) m = Memᴰ.tail (mem_of_parsed name rec dir m)
mem_of_parsed name rec ((n, request r) ∷ dir) (Memᴰ.head e) = Memᴰ.head (cc)
mem_of_parsed name rec ((n, request r) ∷ dir) (Memᴰ.tail m) =
    Memᴰ.tail (mem_of_parsed name rec dir m)

-- `_read_records` is exactly the files that parse.
pub mem-read_records :
    (dir : Dict RequestFile) (name : String) (rec : Request)
    → get dir name ≡ some (request rec)
    → Memᴰ (name, rec) (read_records dir)
unfolding read_records
mem-read_records dir name rec e =
    mem-sorted created_le (name, rec) (parsed (sorted name_le dir))
      (mem-parsed name rec (sorted name_le dir)
        (mem-sorted name_le (name, request rec) dir (mem_of_get dir name (request rec) e)))

pub get_of_read :
    (dir : Dict RequestFile) (name : String) (rec : Request)
    → Distinct dir
    → Memᴰ (name, rec) (read_records dir)
    → get dir name ≡ some (request rec)
unfolding read_records
get_of_read dir name rec h m = get_of_mem dir name (request rec) h (
    mem_of_sorted name_le (name, request rec) dir
      (mem_of_parsed name rec (sorted name_le dir)
        (mem_of_sorted created_le (name, rec) (parsed (sorted name_le dir)) m)))

abbrev IsRead : Option String → Dict RequestFile → Named → Type 0
IsRead kind dir e = Memᴰ e (read_records dir) × (wanted kind e.1 ≡ true)

abbrev pub pick_key : Pick → String × String
pick_key p = (p.rec.kind, p.rec.day)

same_key_refl : (k : String × String) → same_key k k ≡ true
same_key_refl (a, b) = ground (arith, eq_iff a a, eq_iff b b)

-- A key that no group has covers nothing and is picked nowhere.
uncovered :
    (k : String × String) (gs : List Group) (e : Named)
    → All (λ g. same_key k g.0 ≡ false) gs
    → Covered e gs
    → same_key k (key e) ≡ false
uncovered k [] e h c = elim c [ ]
uncovered k (g ∷ gs) e h (inl (same, m)) = subst (λ j. same_key k j ≡ false) same h.0
uncovered k (g ∷ gs) e h (inr c) = uncovered k gs e h.1 c

module _ (P : Named → Type 0) (p : Pick) where
  picked_key :
      (g : Group)
      → All (λ e. (key e ≡ g.0) × P e) g.1
      → pick_of g ≡ some p
      → (pick_key p ≡ g.0) × P (p.name, p.rec)
  picked_key g h e = All-at _ g.1 h (pick_of-PickOf g p e).member

  picked_P : (gs : List Group) → Sound P gs → PickedIn p gs → P (p.name, p.rec)
  picked_P [] h m = elim m [ ]
  picked_P (g ∷ gs) h (inl e) = (picked_key g h.0 e).1
  picked_P (g ∷ gs) h (inr m) = picked_P gs h.1 m

  unpicked :
      (k : String × String) (gs : List Group)
      → Sound P gs
      → All (λ g. same_key k g.0 ≡ false) gs
      → PickedIn p gs
      → same_key k (pick_key p) ≡ false
  unpicked k [] s h m = elim m [ ]
  unpicked k (g ∷ gs) s h (inl e) =
      subst (λ j. same_key k j ≡ false) (sym (picked_key g s.0 e).0) h.0
  unpicked k (g ∷ gs) s h (inr m) = unpicked k gs s.1 h.1 m

  Covered-day :
      (gs : List Group) (e : Named)
      → Sound P gs
      → All (NoLater p) gs
      → Covered e gs
      → text_leb p.rec.day e.1.day ≡ true
  Covered-day [] e s d c = elim c [ ]
  Covered-day (g ∷ gs) e s d (inl (same, m)) =
      let (q, picked) = pick_of_member g e m in
      let at_key = All-at (λ e. (key e ≡ g.0) × P e) g.1 s.0 (pick_of-PickOf g q picked).member in
      subst (λ j. text_leb p.rec.day j ≡ true) (ap (λ k. k.1) (at_key.0 ∙ same)) (d.0 q picked)
  Covered-day (g ∷ gs) e s d (inr c) = Covered-day gs e s.1 d.1 c

  -- The members of the picked group, and no others, share its key.
  Covered-group :
      (gs : List Group) (e : Named)
      → DistinctKeys gs
      → Sound P gs
      → PickedIn p gs
      → Covered e gs
      → key e ≡ pick_key p
      → (text_leb e.1.created_at p.rec.created_at ≡ true) × ((e.0 ≡ p.name) ⊎ Memᴰ e.0 p.older)
  Covered-group [] e d s m c k = elim c [ ]
  Covered-group (g ∷ gs) e d s (inl picked) (inl (same, m)) k =
      let pick = pick_of-PickOf g p picked in
      (All-at _ g.1 pick.newest m, All-at _ g.1 pick.complete m)
  Covered-group (g ∷ gs) e d s (inl picked) (inr c) k =
      let clash : same_key g.0 (key e) ≡ false = uncovered g.0 gs e d.0 c in
      let same : key e ≡ g.0 = k ∙ (picked_key g s.0 picked).0 in
      absurd (false≢true (sym clash ∙ (ap (same_key g.0) same ∙ same_key_refl g.0)))
  Covered-group (g ∷ gs) e d s (inr m) (inl (same, _)) k =
      let clash : same_key g.0 (pick_key p) ≡ false = unpicked g.0 gs s.1 d.0 m in
      absurd (false≢true (sym clash ∙ (ap (same_key g.0) (sym k ∙ sym same) ∙ same_key_refl g.0)))
  Covered-group (g ∷ gs) e d s (inr m) (inr c) k = Covered-group gs e d.1 s.1 m c k

wanted_of_kind :
    (kind : Option String) (a b : Request)
    → b.kind ≡ a.kind
    → wanted kind a ≡ true
    → wanted kind b ≡ true
wanted_of_kind none a b e w = refl
wanted_of_kind (some k) a b e w = rw e w

-- The pick is in the directory and of the asked kind, no request of that kind has an earlier day, and
-- none with its kind and day is newer or missing among the older ones.
pub record IsOldestDay (dir : Dict RequestFile) (kind : Option String) (p : Pick) : Type 0 where
  pub pending : get dir p.name ≡ some (request p.rec)
  pub of_kind : wanted kind p.rec ≡ true
  pub oldest_day :
      (name : String) (rec : Request)
      → get dir name ≡ some (request rec)
      → wanted kind rec ≡ true
      → text_leb p.rec.day rec.day ≡ true
  pub newest_of_day :
      (name : String) (rec : Request)
      → get dir name ≡ some (request rec)
      → rec.kind ≡ p.rec.kind
      → rec.day ≡ p.rec.day
      → (text_leb rec.created_at p.rec.created_at ≡ true) × ((name ≡ p.name) ⊎ Memᴰ name p.older)

-- The request that is picked from a directory with one file for each name is pending and of the asked
-- kind. Its day is the oldest on which such a request waits, and every pending request of its own kind
-- and day is no newer than it and is the pick itself or one of those superseded with it.
pub select-IsOldestDay :
    (dir : Dict RequestFile) (kind : Option String) (p : Pick)
    → Distinct dir
    → select_claim_target dir kind ≡ some p
    → IsOldestDay dir kind p
unfolding select_claim_target
select-IsOldestDay dir kind p distinct picked = record {
  pending = get_of_read dir p.name p.rec distinct found.0;
  of_kind = found.1;
  oldest_day = λ name rec at w. Covered-day P p gs (name, rec) sound best.1 (cover name rec at w);
  newest_of_day = λ name rec at k d.
      Covered-group P p gs (name, rec) keys sound best.0 (cover name rec at (same_wanted rec k))
        (cc);
}
  where
    P : Named → Type 0
    P = IsRead kind dir

    gs : List Group
    gs = groups_of kind [] (read_records dir)

    best : PickedIn p gs × All (NoLater p) gs
    best = best_of-none gs p picked

    sound : Sound P gs
    sound =
        groups-Sound P kind (read_records dir) []
          (All-map (λ e m w. (m, w)) (read_records dir) (All-mem (read_records dir))) tt

    keys : DistinctKeys gs
    keys = groups-DistinctKeys kind (read_records dir) [] tt

    found : P (p.name, p.rec)
    found = picked_P P p gs sound best.0

    cover :
        (name : String) (rec : Request)
        → get dir name ≡ some (request rec)
        → wanted kind rec ≡ true
        → Covered (name, rec) gs
    cover name rec at w =
        groups-Covered kind (read_records dir) [] (name, rec) (mem-read_records dir name rec at) w

    same_wanted : (rec : Request) → rec.kind ≡ p.rec.kind → wanted kind rec ≡ true
    same_wanted rec k = wanted_of_kind kind p.rec rec k found.1

no_pick_uncovered : (gs : List Group) (e : Named) → All (λ g. pick_of g ≡ none) gs → ¬ Covered e gs
no_pick_uncovered [] e h c = c
no_pick_uncovered (g ∷ gs) e h (inl (same, m)) =
    let (q, picked) = pick_of_member g e m in cc (h.0, picked)
no_pick_uncovered (g ∷ gs) e h (inr c) = no_pick_uncovered gs e h.1 c

-- It picks nothing only when no file of `pending/` is a request of the asked kind.
pub select-eq-none :
    (dir : Dict RequestFile) (kind : Option String) (name : String) (rec : Request)
    → select_claim_target dir kind ≡ none
    → get dir name ≡ some (request rec)
    → wanted kind rec ≡ false
unfolding select_claim_target
select-eq-none dir kind name rec nothing at = elim (Bool-cases (wanted kind rec)) [
  | inl w ↦ absurd (
      no_pick_uncovered (groups_of kind [] (read_records dir)) (name, rec)
        (best_of-eq-none _ nothing)
        (groups-Covered kind (read_records dir) [] (name, rec) (mem-read_records dir name rec at)
          w))
  | inr w ↦ w
]
