-- ===== src/Queue/Select/Groups.antt =====
-- src/dbwiki/queue.py: the groups that `_select_claim_target` builds.
use mathlib.Core.List.Memᴰ
use logbook.Prelude.{
  String, ◌≡◌, refl, sym, subst, ◌⊎◌, inl, inr, true, false, Option, List, [], ◌∷◌, Memᴰ, All,
  All-append, arith, eq_iff, if◌then◌else◌, Bool-cases,
}
use logbook.Queue.Records.{Named}
use logbook.Queue.Select.{wanted, Key, key, same_key, Group, add_to_groups, groups_of}

-- Some group holds `e` under the key of `e`.
abbrev pub Covered : Named → List Group → Type 0
Covered e [] = ⊥
Covered e (g ∷ gs) = ((g.0 ≡ key e) × Memᴰ e g.1) ⊎ Covered e gs

-- Every member of a group has the group's key, and `P` holds of it.
abbrev pub Sound : (Named → Type 0) → List Group → Type 0
Sound P gs = All (λ g. All (λ e. (key e ≡ g.0) × P e) g.1) gs

-- No two groups have one key.
abbrev pub DistinctKeys : List Group → Type 0
DistinctKeys [] = Unit
DistinctKeys (g ∷ gs) = All (λ h. same_key g.0 h.0 ≡ false) gs × DistinctKeys gs

pub same_key→eq : (a b : Key) → same_key a b ≡ true → a ≡ b
same_key→eq (a, b) (c, d) h = ground (arith, eq_iff a c, eq_iff b d)

Covered-add_self : (gs : List Group) (e : Named) → Covered e (add_to_groups gs e)
unfolding add_to_groups
Covered-add_self [] e = inl (refl, Memᴰ.head refl)
Covered-add_self ((k, members) ∷ gs) e = elim (Bool-cases (same_key k (key e))) [
  | inl same ↦
      rw same (inl (same_key→eq k (key e) same, Memᴰ.append_right members (Memᴰ.head refl)))
  | inr other ↦ rw other (inr (Covered-add_self gs e))
]

Covered-add : (gs : List Group) (e x : Named) → Covered x gs → Covered x (add_to_groups gs e)
unfolding add_to_groups
Covered-add [] e x c = elim c [ ]
Covered-add ((k, members) ∷ gs) e x (inl (same, m)) = elim (Bool-cases (same_key k (key e))) [
  | inl here ↦ rw here (inl (same, Memᴰ.append_left (e ∷ []) m))
  | inr there ↦ rw there (inl (same, m))
]
Covered-add ((k, members) ∷ gs) e x (inr c) = elim (Bool-cases (same_key k (key e))) [
  | inl here ↦ rw here (inr c)
  | inr there ↦ rw there (inr (Covered-add gs e x c))
]

Sound-add :
    (P : Named → Type 0) (gs : List Group) (e : Named)
    → P e
    → Sound P gs
    → Sound P (add_to_groups gs e)
unfolding add_to_groups
Sound-add P [] e w h = (((refl, w), tt), tt)
Sound-add P ((k, members) ∷ gs) e w h = elim (Bool-cases (same_key k (key e))) [
  | inl here ↦
      rw here (All-append _ members (e ∷ []) h.0 ((sym (same_key→eq k (key e) here), w), tt), h.1)
  | inr there ↦ rw there (h.0, Sound-add P gs e w h.1)
]

-- The loop over the records keeps the groups sound.
pub groups-Sound :
    (P : Named → Type 0) (kind : Option String) (es : List Named) (gs : List Group)
    → All (λ e. wanted kind e.1 ≡ true → P e) es
    → Sound P gs
    → Sound P (groups_of kind gs es)
unfolding groups_of
groups-Sound P kind [] gs ps h = h
groups-Sound P kind (e ∷ es) gs ps h = elim (Bool-cases (wanted kind e.1)) [
  | inl w ↦ rw w (groups-Sound P kind es (add_to_groups gs e) ps.1 (Sound-add P gs e (ps.0 w) h))
  | inr w ↦ rw w (groups-Sound P kind es gs ps.1 h)
]

keys-add :
    (k : Key) (gs : List Group) (e : Named)
    → same_key k (key e) ≡ false
    → All (λ h. same_key k h.0 ≡ false) gs
    → All (λ h. same_key k h.0 ≡ false) (add_to_groups gs e)
unfolding add_to_groups
keys-add k [] e new h = (new, tt)
keys-add k ((j, members) ∷ gs) e new h = elim (Bool-cases (same_key j (key e))) [
  | inl here ↦ rw here h
  | inr there ↦ rw there (h.0, keys-add k gs e new h.1)
]

DistinctKeys-add :
    (gs : List Group) (e : Named) → DistinctKeys gs → DistinctKeys (add_to_groups gs e)
unfolding add_to_groups
DistinctKeys-add [] e h = (tt, tt)
DistinctKeys-add ((k, members) ∷ gs) e h = elim (Bool-cases (same_key k (key e))) [
  | inl here ↦ rw here h
  | inr there ↦ rw there (keys-add k gs e there h.0, DistinctKeys-add gs e h.1)
]

pub groups-DistinctKeys :
    (kind : Option String) (es : List Named) (gs : List Group)
    → DistinctKeys gs
    → DistinctKeys (groups_of kind gs es)
unfolding groups_of
groups-DistinctKeys kind [] gs h = h
groups-DistinctKeys kind (e ∷ es) gs h = elim (Bool-cases (wanted kind e.1)) [
  | inl w ↦ rw w (groups-DistinctKeys kind es (add_to_groups gs e) (DistinctKeys-add gs e h))
  | inr w ↦ rw w (groups-DistinctKeys kind es gs h)
]

pub groups-keep :
    (kind : Option String) (es : List Named) (gs : List Group) (x : Named)
    → Covered x gs
    → Covered x (groups_of kind gs es)
unfolding groups_of
groups-keep kind [] gs x c = c
groups-keep kind (e ∷ es) gs x c = elim (Bool-cases (wanted kind e.1)) [
  | inl w ↦ rw w (groups-keep kind es (add_to_groups gs e) x (Covered-add gs e x c))
  | inr w ↦ rw w (groups-keep kind es gs x c)
]

-- ... and leaves no wanted record out.
pub groups-Covered :
    (kind : Option String) (es : List Named) (gs : List Group) (x : Named)
    → Memᴰ x es
    → wanted kind x.1 ≡ true
    → Covered x (groups_of kind gs es)
unfolding groups_of
groups-Covered kind [] gs x m w = elim m [ ]
groups-Covered kind (e ∷ es) gs x (Memᴰ.head same) w =
    subst (λ y. Covered y (groups_of kind gs (e ∷ es))) (sym same)
      (rw (← same, w) (groups-keep kind es (add_to_groups gs x) x (Covered-add_self gs x)))
groups-Covered kind (e ∷ es) gs x (Memᴰ.tail m) w =
    groups-Covered kind es (if wanted kind e.1 then add_to_groups gs e else gs) x m w
