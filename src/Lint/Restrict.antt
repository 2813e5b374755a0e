-- ===== src/Lint/Restrict.antt =====
-- src/dbwiki/lint.py: `lint_wiki` with `only`.
use logbook.Prelude.{
  filter-append, filter-map, filter-all, filter-none, among, String, ◌≡◌, refl, sym, ap, ◌∙◌, Bool,
  true, none, some, List, [], ◌∷◌, ◌++◌, filter, map, flat_map, All, All-append, All-map, All-mem,
  Bool-cases, inl, inr, arith,
}
use logbook.Lint.{Finding, finding, encoding_invalid}
use logbook.Lint.Links.{wikilinks}
use logbook.Lint.Orphans.{orphan_findings}
use logbook.Lint.Rules.{
  Files, Rules, Exceptions, suppress, load_exceptions, wikilink_findings, page_findings,
  undecodable, readable, markdown_files, link_graph, lint_wiki, text_of,
}

-- Every finding of a rule on a page is about that page.
abbrev IsAbout : String → List Finding → Type 0
IsAbout p = All (λ f. f.file ≡ p)

pub record AreAbout (rules : Rules) : Type 0 where
  pub frontmatter : (p t : String) → IsAbout p (rules.frontmatter p t)
  pub digest : (w : Files) (p t : String) → IsAbout p (rules.digest w p t)
  pub evidence : (p t : String) → IsAbout p (rules.evidence p t)
  pub citation : (w : Files) (p t : String) → IsAbout p (rules.citation w p t)
  pub generated : (p t : String) → IsAbout p (rules.generated p t)

abbrev on : List String → Finding → Bool
on only f = among f.file only

suppress-file : (e : Exceptions) (f : Finding) → (suppress e f).file ≡ f.file
unfolding suppress
suppress-file e f = ground arith

map-IsAbout :
    (p : String) (f : String → Finding)
    → ((t : String) → (f t).file ≡ p)
    → (ts : List String) → IsAbout p (map f ts)
map-IsAbout p f h [] = tt
map-IsAbout p f h (t ∷ ts) = (h t, map-IsAbout p f h ts)

wikilink-IsAbout : (p : String) (ts pages : List String) → IsAbout p (wikilink_findings p ts pages)
unfolding wikilink_findings
wikilink-IsAbout p ts pages = map-IsAbout p _ (λ t. refl) _

everything : {A : Type 0} (xs : List A) → filter (λ x. true) xs ≡ xs
everything xs = filter-all (λ x. true) xs (All-map (λ x h. refl) xs (All-mem xs))

module _ (found : String → List Finding) (own : (p : String) → IsAbout p (found p)) where
  flat-filter :
      (a : String → Bool) (ps : List String)
      → filter (λ f. a f.file) (flat_map found ps) ≡ flat_map found (filter a ps)
  unfolding filter
  flat-filter a [] = refl
  flat-filter a (p ∷ ps) = elim (Bool-cases (a p)) [
    | inl asked ↦
        filter-append (λ f. a f.file) (found p) (flat_map found ps)
        ∙ rw asked (
            cc (
              filter-all (λ f. a f.file) (found p)
                  (All-map (λ f e. ap a e ∙ asked) (found p) (own p)),
              flat-filter a ps,
            ))
    | inr other ↦
        filter-append (λ f. a f.file) (found p) (flat_map found ps)
        ∙ rw other (
            cc (
              filter-none (λ f. a f.file) (found p)
                  (All-map (λ f e. ap a e ∙ other) (found p) (own p)),
              flat-filter a ps,
            ))
  ]

  -- The three parts of a run, over any exceptions.
  parts :
      (a : String → Bool) (unread : String → Finding)
      → ((p : String) → (unread p).file ≡ p)
      → (e : Exceptions) (us rs : List String) (os : List Finding)
      → filter (λ f. a f.file) (map (suppress e) (map unread us ++ flat_map found rs ++ os))
        ≡ map
            (suppress e)
            (map unread (filter a us) ++ flat_map found (filter a rs) ++ filter (λ f. a f.file) os)
  parts a unread h e us rs os =
      let keep = λ (f : Finding). a f.file in
      filter-map keep (suppress e) keep (λ f. ap a (suppress-file e f)) _
      ∙ ap (map (suppress e)) (
          filter-append keep (map unread us ++ flat_map found rs) os
          ∙ cc (
            filter-map keep unread a (λ p. ap a (h p)) us,
            filter-append keep (map unread us) (flat_map found rs),
            flat-filter a rs,
          ))

  -- The same, where the whole run leaves nothing out.
  parts_of_all :
      (a : String → Bool) (unread : String → Finding)
      → ((p : String) → (unread p).file ≡ p)
      → (e : Exceptions) (us rs : List String) (os : List Finding)
      → filter
          (λ f. a f.file)
          (map (suppress e) (
            map unread (filter (λ p. true) us)
            ++ flat_map found (filter (λ p. true) rs)
            ++ filter (λ f. true) os))
        ≡ map
            (suppress e)
            (map unread (filter a us) ++ flat_map found (filter a rs) ++ filter (λ f. a f.file) os)
  parts_of_all a unread h e us rs os =
      rw (everything us, everything rs, everything os) (parts a unread h e us rs os)

module _ (rules : Rules) (files : Files) (own : AreAbout rules) where
  page-IsAbout : (p : String) → IsAbout p (page_findings rules files p)
  unfolding page_findings
  page-IsAbout p =
      let append = All-append (λ (f : Finding). f.file ≡ p) in
      append _ _
        (append _ _
          (append _ _
            (append _ _
              (append _ _ (own.frontmatter p _)
                (wikilink-IsAbout p (wikilinks (text_of rules files p)) (markdown_files files)))
              (own.digest files p _))
            (own.evidence p _))
          (own.citation files p _))
        (own.generated p _)

  -- Where every rule reports on the page that it is given, linting only some paths gives the
  -- findings of the whole run that are about those paths, in their order.
  pub lint_wiki-only :
      (only : List String)
      → lint_wiki rules files (some only) ≡ filter (on only) (lint_wiki rules files none)
  unfolding lint_wiki
  lint_wiki-only only =
      let unread : String → Finding = λ p. finding p encoding_invalid "not valid UTF-8" in
      sym (
        parts_of_all (page_findings rules files) page-IsAbout (λ p. among p only) unread (λ p. refl)
          (load_exceptions files) (undecodable rules files) (readable rules files)
          (orphan_findings (link_graph rules files) (markdown_files files)))
