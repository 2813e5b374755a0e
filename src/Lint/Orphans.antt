-- ===== src/Lint/Orphans.antt =====
-- `_orphan_findings`: the pages that no link leads to, from index.md or from another page.
use logbook.Prelude.{
  among, ℕ, zero, suc, ◌+◌, String, Bool, true, false, not, ◌&&◌, ◌||◌, Option, none, some, List,
  [], ◌∷◌, ◌++◌, filter, map, length, flat_map, ◌==◌, starts_with, if◌then◌else◌,
}
use logbook.Prelude.Dict.{Dict, get}
use logbook.Lint.{Finding, finding, page_orphaned}

-- The resolved links of each page that was read.
abbrev pub Graph : Type 0
Graph = Dict (List String)

abbrev pub or_no_links : Option (List String) → List String
or_no_links none = []
or_no_links (some ts) = ts

-- `links.get(page, ())`
unfoldable pub links_of : Graph → String → List String
unfolding get
links_of links p = or_no_links (get links p)

abbrev pub index_page : String
index_page = "index.md"

-- `while queue: cur = queue.pop(); ...`, the end of the queue first; none when the rounds are used up.
unfoldable pub explore : ℕ → Graph → List String → List String → Option (List String)
unfolding links_of
explore n links reachable [] = some reachable
explore zero links reachable (cur ∷ queue) = none
explore (suc n) links reachable (cur ∷ queue) = elim (among cur reachable) [
  | true ↦ explore n links reachable queue
  | false ↦ explore n links (cur ∷ reachable) (links_of links cur ++ queue)
]

-- One round for index.md and one for every link.
unfoldable pub links_total : Graph → ℕ
links_total [] = 0
links_total ((p, ts) ∷ links) = length ts + links_total links

unfoldable pub reachable_from_index : Graph → List String → Option (List String)
unfolding explore links_total
reachable_from_index links pages =
    explore (suc (links_total links)) links []
      (if among index_page pages then index_page ∷ [] else [])

unfoldable pub inbound : Graph → List String
unfolding filter
inbound = flat_map λ (src, ts). filter (λ t. not (t == src)) ts

unfoldable pub is_exempt : String → Bool
unfolding starts_with
is_exempt p =
    p == "index.md"
    || p == "log.md"
    || starts_with "digests/" p
    || starts_with "reports/" p
    || starts_with "sources/" p

unfoldable pub orphans : Graph → List String → List String
unfolding filter inbound is_exempt
orphans links reachable =
    filter (λ p. not (is_exempt p) && not (among p (inbound links)) && not (among p reachable))
      (map (λ e. e.0) links)

abbrev pub orphaned : String → Finding
orphaned p = finding p page_orphaned "no inbound wikilink and not reachable from index.md"

abbrev found_or_none : Option (List String) → List String
found_or_none none = []
found_or_none (some reachable) = reachable

-- The rounds are never used up.
unfoldable pub orphan_findings : Graph → List String → List Finding
unfolding reachable_from_index orphans
orphan_findings links pages =
    map orphaned (orphans links (found_or_none (reachable_from_index links pages)))
