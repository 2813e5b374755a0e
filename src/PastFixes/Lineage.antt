-- ===== src/PastFixes/Lineage.antt =====
-- `Incident.superseded_by` of src/dbwiki/incidents.py, and `_closed`.
use logbook.Prelude.{
  among, ℕ, zero, suc, ◌+◌, ◌≤◌, String, ◌≡◌, refl, sym, ap, subst, ◌∙◌, Bool, true, false, not,
  Option, none, some, List, [], ◌∷◌, length, arith, after, strip, nonempty, Bool-cases,
  Option-cases, ◌⊎◌, inl, inr, eq_iff, if◌then◌else◌,
}
use logbook.Prelude.Dict.{Dict, get}
use logbook.Incident.{Incident, ActionRecord, ActionKind, merge, reopen, is_active, incident_path}

-- `summary.removeprefix(MERGE_SUMMARY).strip()`
kept_page : String → String
unfolding after strip
kept_page summary = elim (after "duplicate of " summary) [
  | none ↦ strip summary
  | some rest ↦ strip rest
]

-- The loop over the records; `none` is Python's None.
kept_after : Option String → ActionKind → String → Option String
unfolding kept_page
kept_after kept merge summary = some (kept_page summary)
kept_after kept reopen summary = none
kept_after kept _ summary = kept

kept_by : Option String → List ActionRecord → Option String
unfolding kept_after
kept_by kept [] = kept
kept_by kept (r ∷ records) = kept_by (kept_after kept r.kind r.summary) records

-- `superseded_by`
unfoldable pub superseded_by : Incident → Option String
unfolding kept_by incident_path nonempty
superseded_by inc = elim (kept_by none inc.actions) [
  | none ↦ none
  | some kept ↦ if nonempty kept then some (incident_path kept) else none
]

-- `by_path`; the corpus has a page once.
abbrev pub Corpus : Type 0
Corpus = Dict Incident

-- The page that the loop goes on to.
unfoldable pub next_page : Corpus → Incident → List String → Option (String × Incident)
unfolding superseded_by get
next_page corpus current seen = elim (superseded_by current) [
  | none ↦ none
  | some path ↦ elim (get corpus path) [
    | none ↦ none
    | some page ↦ if among path seen then none else some (path, page)
  ]
]

-- `while nxt in by_path and nxt not in seen`; none when the rounds are used up.
unfoldable pub follow : ℕ → Corpus → Incident → List String → Option Incident
unfolding next_page
follow zero corpus current seen = none
follow (suc n) corpus current seen = elim (next_page corpus current seen) [
  | none ↦ some current
  | some (path, page) ↦ follow n corpus page (path ∷ seen)
]

-- One round for each page, and one to see that there is none to go on to.
unfoldable pub held_by : Corpus → Incident → Option Incident
unfolding follow
held_by corpus inc = follow (suc (length corpus)) corpus inc (inc.path ∷ [])

-- `out[inc.path]` of `_closed`
unfoldable pub is_closed : Corpus → Incident → Bool
unfolding held_by is_active
is_closed corpus inc = elim (held_by corpus inc) [
  | none ↦ false
  | some current ↦ not (is_active current.status)
]

-- From page to page by `superseded_by`, with the paths that were passed: none of them twice.
pub data Trail (corpus : Corpus) (inc : Incident) : List String → Incident → Type 0 where
  itself : Trail corpus inc (inc.path ∷ []) inc
  folded_into :
      {a b : Incident} {path : String} {seen : List String}
      → Trail corpus inc seen a
      → superseded_by a ≡ some path
      → get corpus path ≡ some b
      → among path seen ≡ false
      → Trail corpus inc (path ∷ seen) b

-- The pages that were not seen.
unseen : Corpus → List String → ℕ
unseen [] seen = 0
unseen ((p, inc) ∷ corpus) seen = (if among p seen then 0 else 1) + unseen corpus seen

unseen-add :
    (corpus : Corpus) (seen : List String) (p : String)
    → unseen corpus (p ∷ seen) ≤ unseen corpus seen
unfolding unseen
unseen-add [] seen p = omega arith
unseen-add ((q, inc) ∷ corpus) seen p = ground (arith, unseen-add corpus seen p)

unseen-next :
    (corpus : Corpus) (seen : List String) (p : String) (page : Incident)
    → get corpus p ≡ some page
    → among p seen ≡ false
    → 1 + unseen corpus (p ∷ seen) ≤ unseen corpus seen
unfolding unseen get
unseen-next [] seen p page h k = cc
unseen-next ((q, inc) ∷ corpus) seen p page h k =
    ground (arith, eq_iff p q, eq_iff q p, unseen-add corpus seen p, unseen-next corpus seen p page)

unseen-length : (corpus : Corpus) (seen : List String) → unseen corpus seen ≤ length corpus
unfolding unseen
unseen-length [] seen = omega arith
unseen-length ((p, inc) ∷ corpus) seen = ground (arith, unseen-length corpus seen)

-- What a step of the loop says.
abbrev IsNext : Corpus → Incident → List String → Option (String × Incident) → Type 0
IsNext corpus current seen none =
    (path : String)
    → superseded_by current ≡ some path
    → (get corpus path ≡ none) ⊎ (among path seen ≡ true)
IsNext corpus current seen (some (path, page)) =
    (superseded_by current ≡ some path) × (get corpus path ≡ some page) × (among path seen ≡ false)

next_page-IsNext :
    (corpus : Corpus) (current : Incident) (seen : List String)
    → IsNext corpus current seen (next_page corpus current seen)
unfolding next_page
next_page-IsNext corpus current seen = elim (Option-cases (superseded_by current)) [
  | inl e ↦ rw (next_page, e) (λ path h. cc)
  | inr (path, e) ↦ elim (Option-cases (get corpus path)) [
    | inl k ↦
        rw (next_page, e, k)
          (λ q h. let same : path ≡ q = cc in inl (ap (get corpus) (sym same) ∙ k))
    | inr (page, k) ↦ elim (Bool-cases (among path seen)) [
      | inl was ↦
          rw (next_page, e, k, was)
            (λ q h. let same : path ≡ q = cc in inr (ap (λ x. among x seen) (sym same) ∙ was))
      | inr new ↦ rw (next_page, e, k, new) (e, k, new)
    ]
  ]
]

-- The next page is not in the corpus, or is one of those that were passed.
abbrev pub IsLast : Corpus → List String → Incident → Type 0
IsLast corpus seen page =
    (path : String)
    → superseded_by page ≡ some path
    → (get corpus path ≡ none) ⊎ (among path seen ≡ true)

module _ (corpus : Corpus) (inc : Incident) where
  abbrev IsFollowed : Option Incident → Type 0
  IsFollowed found =
      (page : Incident) × (seen : List String) × (found ≡ some page)
      × Trail corpus inc seen page
      × IsLast corpus seen page

  follow_ends :
      (n : ℕ) (current : Incident) (seen : List String)
      → 1 + unseen corpus seen ≤ n
      → Trail corpus inc seen current
      → IsFollowed (follow n corpus current seen)
  unfolding follow
  follow_ends zero current seen h l = absurd (omega arith)
  follow_ends (suc n) current seen h l =
      let step = next_page-IsNext corpus current seen in
      elim (Option-cases (next_page corpus current seen)) [
        | inl e ↦ rw (follow, e) (current, seen, refl, l, subst (IsNext corpus current seen) e step)
        | inr (found, e) ↦
            let (s, g, new) : IsNext corpus current seen (some found) =
              subst (IsNext corpus current seen) e step in
            rw (follow, e)
              (follow_ends n found.1 (found.0 ∷ seen)
                (omega (arith, unseen-next corpus seen found.0 found.1 g new))
                (Trail.folded_into l s g new))
      ]

  -- For any corpus, however its pages were folded into each other, the loop ends: at the end of a trail of merges
  -- from the incident that passes no path twice, and whose last page was folded into nothing, into a page that
  -- the corpus does not have, or into one that the trail has passed.
  pub held_by-IsFollowed :
      (page : Incident) × (seen : List String) × (held_by corpus inc ≡ some page)
      × Trail corpus inc seen page
      × IsLast corpus seen page
  unfolding held_by
  held_by-IsFollowed =
      follow_ends (suc (length corpus)) inc (inc.path ∷ [])
        (omega (arith, unseen-length corpus (inc.path ∷ []))) Trail.itself
