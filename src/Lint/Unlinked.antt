-- ===== src/Lint/Unlinked.antt =====
-- src/dbwiki/lint.py: the orphan rule, `_orphan_findings`.
use logbook.Prelude.{
  Memᴰ, filter, starts_with, among-append, among-filter, among, String, ◌≡◌, refl, ap, subst, ◌↔◌,
  true, false, false≢true, ◌∙◌, List, [], ◌∷◌, map, ◌&&◌, not, some, ◌||◌, arith, Bool-cases, inl,
  inr, ◌==◌,
}
use logbook.Lint.{Finding, finding}
use logbook.Lint.Orphans.{
  Graph, index_page, reachable_from_index, orphan_findings, orphans, orphaned, inbound, is_exempt,
}
use logbook.Lint.Reach.{Reach, reachable_from_index-IsExact}

among-files :
    (p : String) (xs : List String)
    → among p (map (λ (f : Finding). f.file) (map orphaned xs)) ≡ among p xs
unfolding finding
among-files p [] = refl
among-files p (x ∷ xs) = cc (among-files p xs)

among-orphan_findings :
    (links : Graph) (pages found : List String) (p : String)
    → reachable_from_index links pages ≡ some found
    → among p (map (λ f. f.file) (orphan_findings links pages)) ≡ (
        among p (map (λ e. e.0) links)
        && (not (is_exempt p) && not (among p (inbound links)) && not (among p found)))
unfolding orphan_findings orphans
among-orphan_findings links pages found p e =
    rw e (among-files p (orphans links found) ∙ among-filter p _ (map (λ e. e.0) links))

-- A page other than the page itself links to it.
abbrev pub IsLinked : Graph → String → Type 0
IsLinked links p =
    (src : String) × (ts : List String) × Memᴰ (src, ts) links
    × (among p ts ≡ true)
    × ((p == src) ≡ false)

inbound-IsLinked :
    (links : Graph) (p : String) → (among p (inbound links) ≡ true) ↔ IsLinked links p
unfolding inbound
inbound-IsLinked [] p = ((λ h. absurd (false≢true h)), λ (src, ts, m, named, other). elim m [ ])
inbound-IsLinked ((src, ts) ∷ links) p =
    let here = among-append p (filter (λ t. not (t == src)) ts) (inbound links) in
    let own = among-filter p (λ t. not (t == src)) ts in
    let ih = inbound-IsLinked links p in
    (
      (λ h. elim (Bool-cases (among p (inbound links))) [
        | inl later ↦
            let (s, us, m, named, other) = ih.0 later in (s, us, Memᴰ.tail m, named, other)
        | inr fresh ↦ (src, ts, Memᴰ.head refl, ground arith, ground arith)
      ]),
      from here own ih.1,
    )
  where
    from :
        among p (inbound ((src, ts) ∷ links))
          ≡ (among p (filter (λ t. not (t == src)) ts) || among p (inbound links))
        → among p (filter (λ t. not (t == src)) ts) ≡ (among p ts && not (p == src))
        → (IsLinked links p → among p (inbound links) ≡ true)
        → IsLinked ((src, ts) ∷ links) p
        → among p (inbound ((src, ts) ∷ links)) ≡ true
    from here own later (s, us, Memᴰ.tail m, named, other) =
        let k = later (s, us, m, named, other) in ground arith
    from here own later (s, us, Memᴰ.head e, named, other) =
        let n : among p ts ≡ true =
          subst (λ us. among p us ≡ true) (ap (λ (x : String × List String). x.1) e) named in
        let o : (p == src) ≡ false =
          subst (λ s. (p == s) ≡ false) (ap (λ (x : String × List String). x.0) e) other in
        ground arith

-- Not one of the pages and directories that need no link.
abbrev pub NeedsLink : String → Type 0
unfolding starts_with
NeedsLink p =
    ((p == "index.md") ≡ false)
    × ((p == "log.md") ≡ false)
    × (starts_with "digests/" p ≡ false)
    × (starts_with "reports/" p ≡ false)
    × (starts_with "sources/" p ≡ false)

exempt-NeedsLink : (p : String) → (is_exempt p ≡ false) ↔ NeedsLink p
unfolding is_exempt
exempt-NeedsLink p = ground arith

-- Whatever the links of a wiki are, the pages that the orphan rule reports are exactly the pages that were read,
-- are not index.md, log.md or under digests/, reports/ or sources/, have no link from a page but themselves, and
-- have no path of links from index.md where the wiki has that page.
pub orphan_findings-IsExact :
    (links : Graph) (pages : List String) (p : String)
    → (among p (map (λ f. f.file) (orphan_findings links pages)) ≡ true) ↔ (
        (among p (map (λ e. e.0) links) ≡ true)
        × NeedsLink p
        × (¬ IsLinked links p)
        × ¬ ((among index_page pages ≡ true) × Reach links p))
orphan_findings-IsExact links pages p =
    let (found, ends, exact) = reachable_from_index-IsExact links pages in
    let found_so = among-orphan_findings links pages found p ends in
    let linked = inbound-IsLinked links p in
    let exempt = exempt-NeedsLink p in
    (
      λ m. (
        ground arith,
        exempt.0 (ground arith),
        (λ l. let i = linked.1 l in ground arith),
        λ r. let m' = (exact p).1 r in ground arith,
      ),
      λ (read, needs, alone, far).
          let kept = exempt.1 needs in
          let none_in : among p (inbound links) ≡ false =
            elim (Bool-cases (among p (inbound links))) [
              | inl m ↦ absurd (alone (linked.0 m))
              | inr absent ↦ absent
            ] in
          elim (Bool-cases (among p found)) [
            | inl near ↦ absurd (far ((exact p).0 near))
            | inr m ↦ ground arith
          ],
    )
