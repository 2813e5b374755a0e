-- ===== src/Lint/Scenarios.antt =====
-- Tests of src/dbwiki/lint.py, and its theorems at concrete wikis.
use logbook.Prelude.{
  among, String, ◌≡◌, refl, ◌↔◌, true, none, some, List, [], ◌∷◌, map, filter, nonempty,
}
use logbook.Lint.{finding, wikilink_broken, page_orphaned}
use logbook.Lint.Orphans.{Graph, index_page, reachable_from_index, orphan_findings, orphans}
use logbook.Lint.Reach.{Reach, reachable_from_index-IsExact}
use logbook.Lint.Unlinked.{NeedsLink, IsLinked, orphan_findings-IsExact}
use logbook.Lint.Rules.{Files, Rules, lint_wiki, linkers, unique}
use logbook.Lint.Restrict.{AreAbout, lint_wiki-only}

-- The second and the third page link to themselves only.
abbrev islands : Graph
islands = ("index.md", "a.md" ∷ []) ∷ ("a.md", "a.md" ∷ []) ∷ ("b.md", "b.md" ∷ []) ∷ []

abbrev island_pages : List String
island_pages = "a.md" ∷ "b.md" ∷ "index.md" ∷ []

island : orphans islands ("a.md" ∷ "index.md" ∷ []) ≡ "b.md" ∷ []
unfolding orphans
island = refl

walk : reachable_from_index islands ("index.md" ∷ []) ≡ some ("a.md" ∷ "index.md" ∷ [])
unfolding reachable_from_index
walk = refl

reachable_from_index-IsExact_example :
    (found : List String) × (reachable_from_index islands island_pages ≡ some found)
    × ((p : String)
        → (among p found ≡ true) ↔ ((among index_page island_pages ≡ true) × Reach islands p))
reachable_from_index-IsExact_example = reachable_from_index-IsExact islands island_pages

orphan_findings-IsExact_example :
    (among "b.md" (map (λ f. f.file) (orphan_findings islands island_pages)) ≡ true) ↔ (
      (among "b.md" (map (λ e. e.0) islands) ≡ true)
      × NeedsLink "b.md"
      × (¬ IsLinked islands "b.md")
      × ¬ ((among index_page island_pages ≡ true) × Reach islands "b.md"))
orphan_findings-IsExact_example = orphan_findings-IsExact islands island_pages "b.md"

-- No rule but those of the links finds anything.
abbrev silent : Rules
silent = record {
  is_utf8 = λ s. true;
  frontmatter = λ p t. [];
  digest = λ w p t. [];
  evidence = λ p t. [];
  citation = λ w p t. [];
  generated = λ p t. [];
}

abbrev silent-AreAbout : AreAbout silent
silent-AreAbout = record {
  frontmatter = λ p t. tt;
  digest = λ w p t. tt;
  evidence = λ p t. tt;
  citation = λ w p t. tt;
  generated = λ p t. tt;
}

abbrev small_wiki : Files
small_wiki =
    ("index.md", "see [[a]] and [[c]]")
    ∷ ("a.md", "back to [[index]]")
    ∷ ("b.md", "alone")
    ∷ (".lint-exceptions", "b.md  page-orphaned")
    ∷ []

whole_run :
    lint_wiki silent small_wiki none
    ≡ finding "index.md" wikilink_broken "[[c]] matches no page"
      ∷ (record (finding "b.md" page_orphaned
          "no inbound wikilink and not reachable from index.md") { suppressed = true })
      ∷ []
unfolding lint_wiki
whole_run = refl

lint_wiki-only_example :
    lint_wiki silent small_wiki (some ("b.md" ∷ []))
    ≡ filter (λ f. among f.file ("b.md" ∷ [])) (lint_wiki silent small_wiki none)
lint_wiki-only_example = lint_wiki-only silent small_wiki silent-AreAbout ("b.md" ∷ [])

who_links : linkers silent small_wiki ("c.md" ∷ []) ≡ "index.md" ∷ []
unfolding linkers nonempty unique
who_links = refl
