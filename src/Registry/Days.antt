-- ===== src/Registry/Days.antt =====
-- src/dbwiki/state.py: the day records of a database, and `set_day_counts`.
use logbook.Prelude.{
  ℕ, String, ◌≡◌, refl, sym, ap, subst, ◌∙◌, inl, inr, Bool, true, false, ◌&&◌, Option, none, some,
  ◌==◌, eq_iff, Bool-cases, if◌then◌else◌,
}
use mathlib.Core.Option.{some-injective}
use logbook.Prelude.Dict.{Dict, get, put, get-put}
use logbook.Registry.{Amounts, Counts, seconds_of, counts_of, is_longer, set_day_counts, or_empty}

module _ {F : Type 0} (amounts : Amounts F) where
  abbrev Daily : Type 0
  Daily = Dict (Dict (Counts F))

  or_empty-if :
      (b : Bool) (x : Dict (Counts F)) (o : Option (Dict (Counts F)))
      → or_empty (if b then some x else o) ≡ (if b then x else or_empty o)
  or_empty-if true x o = refl
  or_empty-if false x o = refl

  counts_of-put :
      (daily : Daily) (day source j s : String) (c : Counts F)
      → counts_of amounts (put daily day (put (or_empty (get daily day)) source c)) j s
        ≡ (if day == j && source == s then some c else counts_of amounts daily j s)
  unfolding counts_of
  counts_of-put daily day source j s c =
      ap (λ o. get (or_empty o) s) (get-put daily day j _) ∙ elim (Bool-cases (day == j)) [
        | inl same ↦ rw same (
            get-put (or_empty (get daily day)) source s c
            ∙ ap (λ k. if source == s then some c else get (or_empty (get daily k)) s)
                ((eq_iff day j).0 same))
        | inr other ↦ rw other refl
      ]

  -- The day's coverage of each source after one more record.
  abbrev pub NotShorter : Option (Counts F) → Option (Counts F) → Type 0
  NotShorter none after = Unit
  NotShorter (some c) none = ⊥
  NotShorter (some c) (some d) =
      amounts.exceeds (seconds_of amounts c) (seconds_of amounts d) ≡ false

  NotShorter-self : (o : Option (Counts F)) → NotShorter o o
  NotShorter-self none = tt
  NotShorter-self (some c) = amounts.irreflexive (seconds_of amounts c)

  NotShorter-new :
      (o : Option (Counts F)) (total : ℕ) (counters : Dict ℕ) (seconds : F)
      → is_longer amounts o seconds ≡ false
      → NotShorter o (some (record { total = total; counters = counters; seconds = some seconds }))
  NotShorter-new none total counters seconds h = tt
  NotShorter-new (some c) total counters seconds h = h

  -- Whatever is recorded, no day's record of a source ever comes to cover less time, or goes.
  set_day_counts-NotShorter :
      (daily : Daily) (day source : String) (total : ℕ) (counters : Dict ℕ) (seconds : F)
      (j s : String)
      → NotShorter
          (counts_of amounts daily j s)
          (counts_of amounts (set_day_counts amounts daily day source total counters seconds) j s)
  unfolding set_day_counts
  set_day_counts-NotShorter daily day source total counters seconds j s =
      elim (Bool-cases (is_longer amounts (counts_of amounts daily day source) seconds)) [
        | inl longer ↦ rw longer (NotShorter-self (counts_of amounts daily j s))
        | inr free ↦ rw free (
            subst (NotShorter (counts_of amounts daily j s))
              (sym (counts_of-put daily day source j s _)) (go free))
      ]
    where
      go :
          is_longer amounts (counts_of amounts daily day source) seconds ≡ false
          → NotShorter (counts_of amounts daily j s) (
              if day == j && source == s
              then some (record { total = total; counters = counters; seconds = some seconds })
              else counts_of amounts daily j s)
      go free = elim (Bool-cases (day == j)) [
        | inr other ↦ rw other (NotShorter-self (counts_of amounts daily j s))
        | inl same ↦ elim (Bool-cases (source == s)) [
          | inr other ↦ rw (same, other) (NotShorter-self (counts_of amounts daily j s))
          | inl also ↦
              rw (same, also)
                (NotShorter-new (counts_of amounts daily j s) total counters seconds (
                  subst (λ k. is_longer amounts (counts_of amounts daily k s) seconds ≡ false)
                    ((eq_iff day j).0 same)
                    (subst (λ t. is_longer amounts (counts_of amounts daily day t) seconds ≡ false)
                      ((eq_iff source s).0 also) free)))
        ]
      ]

  -- The record of a day and a source becomes the given one, and no other changes.
  abbrev pub IsReplaced : Daily → String → String → Counts F → Daily → Type 0
  IsReplaced daily day source new after =
      (j s : String)
      → counts_of amounts after j s
        ≡ (if day == j && source == s then some new else counts_of amounts daily j s)

  kept_longer :
      (daily : Daily) (day source : String) (total : ℕ) (counters : Dict ℕ) (seconds : F)
      (o : Option (Counts F))
      → counts_of amounts daily day source ≡ o
      → ((c : Counts F)
          → o ≡ some c
          → amounts.exceeds (seconds_of amounts c) seconds ≡ true
          → set_day_counts amounts daily day source total counters seconds ≡ daily)
        × (((c : Counts F) → o ≡ some c → amounts.exceeds (seconds_of amounts c) seconds ≡ false)
            → IsReplaced daily day source
                (record { total = total; counters = counters; seconds = some seconds })
                (set_day_counts amounts daily day source total counters seconds))
  unfolding set_day_counts
  kept_longer daily day source total counters seconds none at =
      ((λ c e h. cc), λ h. rw (set_day_counts, at) (λ j s. counts_of-put daily day source j s _))
  kept_longer daily day source total counters seconds (some cur) at = (
    (λ c e h.
        let longer : amounts.exceeds (seconds_of amounts cur) seconds ≡ true =
          subst (λ c. amounts.exceeds (seconds_of amounts c) seconds ≡ true)
            (sym (some-injective _ _ e)) h in
        rw (set_day_counts, at, longer) refl),
    λ h. rw (set_day_counts, at, h cur refl) (λ j s. counts_of-put daily day source j s _),
  )

  -- When a day is compacted again, a record that covers more time stays, and so does everything else. A record
  -- that does not, or none, gives way to the new one, and no other record changes. No record of any day and
  -- source goes or comes to cover less time.
  pub set_day_counts-IsKept :
      (daily : Daily) (day source : String) (total : ℕ) (counters : Dict ℕ) (seconds : F)
      → let after = set_day_counts amounts daily day source total counters seconds in
        ((c : Counts F)
          → counts_of amounts daily day source ≡ some c
          → amounts.exceeds (seconds_of amounts c) seconds ≡ true
          → after ≡ daily)
        × (((c : Counts F)
              → counts_of amounts daily day source ≡ some c
              → amounts.exceeds (seconds_of amounts c) seconds ≡ false)
            → IsReplaced daily day source
                (record { total = total; counters = counters; seconds = some seconds })
                after)
        × ((j s : String) → NotShorter (counts_of amounts daily j s) (counts_of amounts after j s))
  set_day_counts-IsKept daily day source total counters seconds =
      let (stays, goes) =
        kept_longer daily day source total counters seconds (counts_of amounts daily day source)
          refl in
      (stays, goes, set_day_counts-NotShorter daily day source total counters seconds)
