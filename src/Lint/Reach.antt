-- ===== src/Lint/Reach.antt =====
-- src/dbwiki/lint.py: the walk over the links from index.md.
use logbook.Prelude.{
  among-append, among, ℕ, zero, suc, ◌+◌, ◌≤◌, String, ◌≡◌, refl, ap, subst, ◌↔◌, Bool, true, false,
  false≢true, ◌∙◌, List, [], ◌∷◌, ◌++◌, some, ◌||◌, length, arith, Bool-cases, inl, inr, ◌==◌,
  eq_iff, eq_refl, if◌then◌else◌,
}
use logbook.Prelude.Dict.{get}
use logbook.Lint.Orphans.{Graph, links_of, index_page, explore, links_total, reachable_from_index}

-- A page that links lead to, from index.md on.
pub data Reach (links : Graph) : String → Type 0 where
  index : Reach links index_page
  link : {p q : String} → Reach links p → among q (links_of links p) ≡ true → Reach links q

-- The links of the pages that the walk has not been to.
cost : Graph → List String → ℕ
cost [] seen = 0
cost ((p, ts) ∷ links) seen = (if among p seen then 0 else length ts) + cost links seen

cost-visited :
    (links : Graph) (seen : List String) (cur : String) → cost links (cur ∷ seen) ≤ cost links seen
unfolding cost
cost-visited [] seen cur = omega arith
cost-visited ((p, ts) ∷ links) seen cur = ground (arith, cost-visited links seen cur)

cost-next :
    (links : Graph) (seen : List String) (cur : String)
    → among cur seen ≡ false
    → cost links (cur ∷ seen) + length (links_of links cur) ≤ cost links seen
unfolding cost links_of get
cost-next [] seen cur h = omega arith
cost-next ((p, ts) ∷ links) seen cur h =
    ground
      (arith, eq_iff p cur, eq_iff cur p, cost-next links seen cur h, cost-visited links seen cur)

length-append : (xs ys : List String) → length (xs ++ ys) ≡ length xs + length ys
length-append [] ys = omega arith
length-append (x ∷ xs) ys = omega (arith, length-append xs ys)

-- A round for every entry of the queue and every link that is left is enough.
explore_ends :
    (n : ℕ) (links : Graph) (seen queue : List String)
    → length queue + cost links seen ≤ n
    → (found : List String) × (explore n links seen queue ≡ some found)
unfolding explore
explore_ends n links seen [] h = (seen, refl)
explore_ends zero links seen (cur ∷ queue) h = absurd (omega arith)
explore_ends (suc n) links seen (cur ∷ queue) h = elim (Bool-cases (among cur seen)) [
  | inl old ↦ rw (explore, old) (explore_ends n links seen queue (omega arith))
  | inr new ↦
      rw (explore, new)
        (explore_ends n links (cur ∷ seen) (links_of links cur ++ queue)
          (omega (arith, length-append (links_of links cur) queue, cost-next links seen cur new)))
]

abbrev AllReached : Graph → List String → Type 0
AllReached links ps = (p : String) → among p ps ≡ true → Reach links p

AllReached-cons :
    (links : Graph) (cur : String) (ps : List String)
    → Reach links cur
    → AllReached links ps
    → AllReached links (cur ∷ ps)
AllReached-cons links cur ps r h p m = elim (Bool-cases (cur == p)) [
  | inl same ↦ let e : cur ≡ p = ground (arith, eq_iff cur p) in subst (Reach links) e r
  | inr other ↦ h p (ground arith)
]

AllReached-next :
    (links : Graph) (cur : String) (ps : List String)
    → Reach links cur
    → AllReached links ps
    → AllReached links (links_of links cur ++ ps)
AllReached-next links cur ps r h p m = elim (Bool-cases (among p (links_of links cur))) [
  | inl linked ↦ Reach.link r linked
  | inr other ↦ h p (ground (arith, among-append p (links_of links cur) ps))
]

-- Nothing that links do not lead to is found.
explore-AllReached :
    (n : ℕ) (links : Graph) (seen queue found : List String)
    → explore n links seen queue ≡ some found
    → AllReached links seen
    → AllReached links queue
    → AllReached links found
unfolding explore
explore-AllReached n links seen [] found e hs hq = λ p h. hs p cc
explore-AllReached zero links seen (cur ∷ queue) found e hs hq = cc
explore-AllReached (suc n) links seen (cur ∷ queue) found e hs hq =
    elim (Bool-cases (among cur seen)) [
      | inl old ↦
          explore-AllReached n links seen queue found (rw (explore, old) at e) hs
            (λ p h. hq p (ground arith))
      | inr new ↦
          explore-AllReached n links (cur ∷ seen) (links_of links cur ++ queue) found
            (rw (explore, new) at e)
            (AllReached-cons links cur seen (hq cur (rw (eq_refl cur) refl)) hs)
            (AllReached-next links cur queue (hq cur (rw (eq_refl cur) refl))
              (λ p h. hq p (ground arith)))
    ]

-- The links of the pages that were visited are visited, or wait.
abbrev Follows : Graph → List String → List String → Type 0
Follows links seen queue =
    (p q : String)
    → among p seen ≡ true
    → among q (links_of links p) ≡ true
    → (among q seen || among q queue) ≡ true

explore-Follows :
    (n : ℕ) (links : Graph) (seen queue found : List String)
    → explore n links seen queue ≡ some found
    → Follows links seen queue
    → Follows links found []
unfolding explore
explore-Follows n links seen [] found e h =
    let s : seen ≡ found = cc in subst (λ ps. Follows links ps []) s h
explore-Follows zero links seen (cur ∷ queue) found e h = cc
explore-Follows (suc n) links seen (cur ∷ queue) found e h = elim (Bool-cases (among cur seen)) [
  | inl old ↦
      explore-Follows n links seen queue found (rw (explore, old) at e)
        (λ p q hp hq. ground (arith, h p q hp hq, eq_iff cur q))
  | inr new ↦
      explore-Follows n links (cur ∷ seen) (links_of links cur ++ queue) found
        (rw (explore, new) at e)
        (λ p q hp hq.
          ground
            (arith, h p q, eq_iff cur p, among-append q (links_of links cur) queue, eq_iff cur q))
]

explore-keeps :
    (n : ℕ) (links : Graph) (seen queue found : List String) (p : String)
    → explore n links seen queue ≡ some found
    → (among p seen || among p queue) ≡ true
    → among p found ≡ true
unfolding explore
explore-keeps n links seen [] found p e h = ground arith
explore-keeps zero links seen (cur ∷ queue) found p e h = cc
explore-keeps (suc n) links seen (cur ∷ queue) found p e h = elim (Bool-cases (among cur seen)) [
  | inl old ↦
      explore-keeps n links seen queue found p (rw (explore, old) at e)
        (ground (arith, eq_iff cur p))
  | inr new ↦
      explore-keeps n links (cur ∷ seen) (links_of links cur ++ queue) found p
        (rw (explore, new) at e)
        (ground (arith, eq_iff cur p, among-append p (links_of links cur) queue))
]

cost-total : (links : Graph) → cost links [] ≤ links_total links
unfolding cost links_total
cost-total [] = omega arith
cost-total ((p, ts) ∷ links) = omega (arith, cost-total links)

Follows-Reach :
    (links : Graph) (found : List String)
    → Follows links found []
    → among index_page found ≡ true
    → (p : String) → Reach links p
    → among p found ≡ true
Follows-Reach links found h k p Reach.index = k
Follows-Reach links found h k q (Reach.link {p = p} r m) =
    let reached = Follows-Reach links found h k p r in ground (arith, h p q reached m)

-- The walk from index.md, or from no page.
walk_exact :
    (links : Graph) (b : Bool) (found : List String)
    → explore (suc (links_total links)) links [] (if b then index_page ∷ [] else []) ≡ some found
    → (p : String) → (among p found ≡ true) ↔ ((b ≡ true) × Reach links p)
unfolding explore
walk_exact links true found e p = (
  λ m. (
    refl,
    explore-AllReached (suc (links_total links)) links [] (index_page ∷ []) found e
        (λ q h. absurd (false≢true h))
        (AllReached-cons links index_page [] Reach.index (λ q h. absurd (false≢true h))) p m,
  ),
  λ (_, r).
      Follows-Reach links found
        (explore-Follows (suc (links_total links)) links [] (index_page ∷ []) found e
          (λ p q h k. absurd (false≢true h)))
        (explore-keeps (suc (links_total links)) links [] (index_page ∷ []) found index_page e refl)
        p r,
)
walk_exact links false found e p = (
  λ m. let s : [] ≡ found = cc in absurd (false≢true (ap (among p) s ∙ m)),
  λ (h, _). absurd (false≢true h),
)

walk_ends :
    (links : Graph) (b : Bool)
    → (found : List String) × (explore
          (suc (links_total links))
          links
          []
          (if b then index_page ∷ [] else [])
        ≡ some found)
walk_ends links b =
    explore_ends (suc (links_total links)) links [] (if b then index_page ∷ [] else [])
      (ground (arith, cost-total links))

-- The walk over the links of any wiki ends, and finds exactly the pages that links lead to from
-- index.md, if the wiki has that page.
pub reachable_from_index-IsExact :
    (links : Graph) (pages : List String)
    → (found : List String) × (reachable_from_index links pages ≡ some found)
      × ((p : String) → (among p found ≡ true) ↔ ((among index_page pages ≡ true) × Reach links p))
unfolding reachable_from_index
reachable_from_index-IsExact links pages =
    let b = among index_page pages in
    let (found, e) = walk_ends links b in (found, e, walk_exact links b found e)
