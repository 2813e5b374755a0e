-- ===== src/PastFixes/Verdicts/Held.antt =====
-- src/dbwiki/past_fixes.py: the verdict `held`.
use logbook.Prelude.{
  All, filter, filter-none, map, text_ltb, ◌==◌, ℕ, ◌+◌, ◌≤◌, String, ◌≡◌, refl, ap, ◌↔◌, inl, inr,
  Bool, true, false, false≢true, not, ◌&&◌, ◌||◌, Option, none, some, List, [], ◌∷◌, leb, arith,
  Bool-cases, if◌then◌else◌, text_leb,
}
use logbook.Incident.{ActionRecord, ActionKind, resolve, reopen, same_kind}
use logbook.PastFixes.Days.{day_of}
use logbook.PastFixes.Verdicts.{
  Occurrence, Judged, held, too_soon, open_yet, not_applicable, verdict_for, by_reopen,
  by_recurrence, after_silence, first_kind, has_kind, is_no_fix, day_at, seen_again, earliest,
  smaller,
}

abbrev held_judgement : Judged
held_judgement = record { verdict = held; day = none }

first_kind-none :
    (k : ActionKind) (rs : List ActionRecord) → first_kind k rs ≡ none → has_kind k rs ≡ false
unfolding first_kind has_kind
first_kind-none k [] h = refl
first_kind-none k (r ∷ rs) h = ground (arith, first_kind-none k rs)

none-first_kind :
    (k : ActionKind) (rs : List ActionRecord) → has_kind k rs ≡ false → first_kind k rs ≡ none
unfolding first_kind has_kind
none-first_kind k [] h = refl
none-first_kind k (r ∷ rs) h = ground (arith, none-first_kind k rs)

leb-true : (a b : ℕ) → a ≤ b → leb a b ≡ true
leb-true a b h = ground arith

smaller-some : (s : String) (o : Option String) → ¬ (smaller s o ≡ none)
smaller-some s none h = cc
smaller-some s (some t) h = elim (Bool-cases (text_leb s t)) [
  | inl below ↦ let e : smaller s (some t) ≡ some s = rw below refl in cc (e, h)
  | inr above ↦ let e : smaller s (some t) ≡ some t = rw above refl in cc (e, h)
]

earliest-none : (ss : List String) → earliest ss ≡ none → ss ≡ []
unfolding earliest
earliest-none [] h = refl
earliest-none (s ∷ ss) h = absurd (smaller-some s (earliest ss) h)

seen_again-none :
    (db day : String) (occurrences : List Occurrence)
    → All (λ o. (o.db == db && text_ltb day o.day) ≡ false) occurrences
    → seen_again db day occurrences ≡ []
unfolding seen_again
seen_again-none db day occurrences h =
    ap (map (λ (o : Occurrence). o.day)) (filter-none _ occurrences h)

none-seen_again :
    (db day : String) (occurrences : List Occurrence)
    → seen_again db day occurrences ≡ []
    → All (λ o. (o.db == db && text_ltb day o.day) ≡ false) occurrences
unfolding seen_again filter
none-seen_again db day [] h = tt
none-seen_again db day (o ∷ occurrences) h = elim (Bool-cases (o.db == db && text_ltb day o.day)) [
  | inl again ↦ let e : o.day ∷ seen_again db day occurrences ≡ [] = rw again at h in cc
  | inr other ↦ (other, none-seen_again db day occurrences (rw other at h))
]

after_silence-held :
    (today wait : ℕ) (day : Option ℕ)
    → after_silence today wait day ≡ some held_judgement
    → (n : ℕ) × (day ≡ some n) × (n + wait ≤ today)
after_silence-held today wait none h = cc
after_silence-held today wait (some n) h = elim (Bool-cases (leb (n + wait) today)) [
  | inl long ↦ (n, refl, ground arith)
  | inr short ↦
      let e : after_silence today wait (some n) ≡ some (record { verdict = too_soon; day = none }) =
        rw short refl in
      cc (e, h)
]

says_held : Option Judged → Bool
says_held none = false
says_held (some j) = elim j.verdict [ held ↦ true | _ ↦ false ]

not-na : ¬ (some (record { verdict = not_applicable; day = none }) ≡ some held_judgement)
unfolding says_held
not-na e = false≢true (ap says_held e)

not-open : ¬ (some (record { verdict = open_yet; day = none }) ≡ some held_judgement)
unfolding says_held
not-open e = false≢true (ap says_held e)

-- A test that leads to another judgement failed.
passed_by :
    (c : Bool) (a j : Judged) (x : Option Judged)
    → ¬ (some a ≡ some j)
    → (if c then some a else x) ≡ some j
    → (c ≡ false) × (x ≡ some j)
passed_by true a j x n h = absurd (n h)
passed_by false a j x n h = (refl, h)

or_of_guards : (a b c : Bool) → (not a && not b && not c) ≡ false → (a || b || c) ≡ true
or_of_guards a b c h = ground arith

guards_of_or : (a b c : Bool) → (a || b || c) ≡ true → (not a && not b && not c) ≡ false
guards_of_or a b c h = ground arith

module _ (occurrences : List Occurrence) (db : String) (today wait : ℕ) (r : ActionRecord)
    (later : List ActionRecord) (closed : Bool) where
  -- The fix lasted: nobody reopened the incident, it is over, and the error was not seen again.
  pub record HasLasted : Type 0 where
    pub is_a_fix : (same_kind r.kind reopen || is_no_fix r.outcome) ≡ false
    pub not_reopened : has_kind reopen later ≡ false
    pub is_over : (same_kind r.kind resolve || closed || has_kind resolve later) ≡ true
    pub not_seen : All (λ o. (o.db == db && text_ltb (day_at r) o.day) ≡ false) occurrences
    pub long_ago : (n : ℕ) × (day_of (day_at r) ≡ some n) × (n + wait ≤ today)

  by_recurrence-held :
      (day : String) (o : Option String)
      → by_recurrence occurrences db today wait day o ≡ some held_judgement
      → (o ≡ none) × ((n : ℕ) × (day_of day ≡ some n) × (n + wait ≤ today))
  by_recurrence-held day none h = (refl, after_silence-held today wait (day_of day) h)
  by_recurrence-held day (some again) h = cc

  by_reopen-held :
      (o : Option ActionRecord)
      → by_reopen occurrences db today wait r later closed o ≡ some held_judgement
      → (o ≡ none) × (by_reopen occurrences db today wait r later closed none ≡ some held_judgement)
  by_reopen-held none h = (refl, h)
  by_reopen-held (some q) h = cc

  HasLasted-held :
      HasLasted → verdict_for occurrences db today wait r later closed ≡ some held_judgement
  unfolding verdict_for earliest
  HasLasted-held h =
      let (n, e, long) = h.long_ago in
      let silent : by_recurrence occurrences db today wait (day_at r)
            (earliest (seen_again db (day_at r) occurrences))
          ≡ some held_judgement =
        rw (seen_again-none db (day_at r) occurrences h.not_seen, e)
          (rw (leb-true (n + wait) today long) refl) in
      rw
        (
          verdict_for,
          h.is_a_fix,
          none-first_kind reopen later h.not_reopened,
          guards_of_or _ _ _ h.is_over,
        )
        silent

  held-HasLasted :
      verdict_for occurrences db today wait r later closed ≡ some held_judgement → HasLasted
  unfolding verdict_for
  held-HasLasted h =
      let (a_fix, rest) = passed_by _ _ held_judgement _ not-na h in
      let (opened, more) = by_reopen-held (first_kind reopen later) rest in
      let (over, last) = passed_by _ _ held_judgement _ not-open more in
      let (quiet, long) =
        by_recurrence-held (day_at r) (earliest (seen_again db (day_at r) occurrences)) last in
      record {
        is_a_fix = a_fix;
        not_reopened = first_kind-none reopen later opened;
        is_over = or_of_guards _ _ _ over;
        not_seen = none-seen_again db (day_at r) occurrences (earliest-none _ quiet);
        long_ago = long;
      }

  -- A fix is judged to have held exactly when its record is no reopen and its outcome neither rejected
  -- nor failed, no later record of the incident reopens it, it resolves the incident itself, or a later
  -- record does, or the incident is over, the error was not seen on its database on a later day, and
  -- the day of the record is so many days ago.
  pub verdict_for-HasLasted :
      (verdict_for occurrences db today wait r later closed
        ≡ some (record { verdict = held; day = none }))
      ↔ HasLasted
  verdict_for-HasLasted = (held-HasLasted, HasLasted-held)
