-- ===== src/Lint/Rules.antt =====
-- `lint_wiki` and `linkers`. A wiki is its files; what a page says in YAML, cites or copies from the
-- prompts is judged by rules that are an argument, as is whether its bytes are UTF-8.
use Prim.Native.Char.{code}
use Prim.Native.Char.{code}
use logbook.Prelude.{
  among, String, ◌≡◌, refl, Bool, true, false, not, ◌&&◌, ◌||◌, Option, none, some, List, [], ◌∷◌,
  ◌++◌, any, filter, map, flat_map, ◌==◌, eqb, plus, starts_with, has_end, split_lines, cut, strip,
  nonempty, is_space, sorted, ltb, eqb, ◌≡◌, refl, ℕ, suc, if◌then◌else◌,
}
use logbook.Prelude.Dict.{Dict, get, put}
use logbook.Lint.{Finding, finding, wikilink_broken, encoding_invalid, rule_name}
use logbook.Lint.Links.{wikilinks, resolve_link}
use logbook.Lint.Orphans.{Graph, orphan_findings}

abbrev pub Files : Type 0
Files = Dict String

abbrev is_page : String → Bool
is_page p = has_end ".md" p && not (starts_with ".git/" p)

abbrev path_code : ℕ → ℕ
path_code c = if eqb c 47 then 0 else suc c

-- `Path(s) <= Path(t)`, which compares part by part: a separator is before every character of a part.
unfoldable path_leb : String → String → Bool
path_leb String.[] t = true
path_leb (String.◌∷◌ c s) String.[] = false
path_leb (String.◌∷◌ c s) (String.◌∷◌ d t) =
    let rest = path_leb s t in
    if ltb (path_code (code c)) (path_code (code d))
    then true
    else if ltb (path_code (code d)) (path_code (code c))
    then false
    else rest

parts_first : path_leb "a/b.md" "a-b.md" ≡ true
unfolding path_leb
parts_first = refl

-- The keys of `_markdown_files`.
unfoldable pub markdown_files : Files → List String
unfolding sorted filter has_end starts_with path_leb
markdown_files files = sorted path_leb (filter is_page (map (λ e. e.0) files))

-- `dict.fromkeys(xs)`
unfoldable pub unique : List String → List String
unfolding filter
unique [] = []
unique (x ∷ xs) = x ∷ filter (λ y. not (y == x)) (unique xs)

abbrev broken_link : String → String → Finding
broken_link p t = finding p wikilink_broken (plus "[[" (plus t "]] matches no page"))

abbrev leads_nowhere : List String → String → Bool
leads_nowhere pages t =
    not (starts_with "digests/" (strip t))
    && elim (resolve_link t pages) [ none ↦ true | some q ↦ false ]

unfoldable pub wikilink_findings : String → List String → List String → List Finding
unfolding unique filter starts_with strip resolve_link finding
wikilink_findings p targets pages =
    map (broken_link p) (filter (leads_nowhere pages) (unique targets))

abbrev head_is_space : String → Bool
head_is_space String.[] = false
head_is_space (String.◌∷◌ c s) = is_space (code c)

-- `re.split(r"\t+|\s{2}", line)`, up to what stripping the parts and dropping the empty ones removes: a
-- part ends at a tab and at a space with a space behind it.
unfoldable pub columns : String → List String
unfolding is_space
columns String.[] = String.[] ∷ []
columns (String.◌∷◌ c s) =
    let rest = columns s in
    if eqb (code c) 9 || (is_space (code c) && head_is_space s)
    then String.[] ∷ rest
    else elim rest [ [] ↦ String.◌∷◌ c String.[] ∷ [] | t ∷ parts ↦ String.◌∷◌ c t ∷ parts ]

-- `line.split("#", 1)[0].strip()`
unfoldable pub without_comment : String → String
unfolding cut strip
without_comment line = elim (cut 35 line) [ none ↦ strip line | some c ↦ strip c.before ]

abbrev pub Exceptions : Type 0
Exceptions = Dict (List String)

abbrev rules_named : List String → List String
rules_named [] = "*" ∷ []
rules_named (r ∷ rs) = r ∷ rs

abbrev excepted : Option (List String) → List String
excepted none = []
excepted (some rs) = rs

-- One line of `.lint-exceptions`.
add_exception : Exceptions → List String → Exceptions
unfolding get put
add_exception out [] = out
add_exception out (path ∷ rules) = put out path (excepted (get out path) ++ rules_named rules)

read_exceptions : Exceptions → List String → Exceptions
unfolding add_exception without_comment columns filter strip nonempty
read_exceptions out [] = out
read_exceptions out (line ∷ lines) =
    read_exceptions
      (add_exception out (filter nonempty (map strip (columns (without_comment line))))) lines

unfoldable pub load_exceptions : Files → Exceptions
unfolding read_exceptions get split_lines
load_exceptions files = elim (get files ".lint-exceptions") [
  | none ↦ []
  | some text ↦ read_exceptions [] (split_lines text)
]

-- A key of the exceptions has at least one rule.
unfoldable pub is_suppressed : Exceptions → Finding → Bool
unfolding get rule_name
is_suppressed exceptions f =
    let rules = excepted (get exceptions f.file) in
    among "*" rules || among (rule_name f.rule) rules

unfoldable pub suppress : Exceptions → Finding → Finding
unfolding is_suppressed
suppress exceptions f = if is_suppressed exceptions f then record f { suppressed = true } else f

-- The rules that are judged elsewhere, in the order of the calls around `_wikilink_findings`.
pub record Rules : Type 0 where
  pub is_utf8 : String → Bool
  pub frontmatter : String → String → List Finding
  pub digest : Files → String → String → List Finding
  pub evidence : String → String → List Finding
  pub citation : Files → String → String → List Finding
  pub generated : String → String → List Finding

module _ (rules : Rules) (files : Files) where
  unfoldable pub text_of : String → String
  unfolding get
  text_of p = elim (get files p) [ none ↦ "" | some text ↦ text ]

  abbrev is_curated : String → Bool
  is_curated p = not (starts_with "digests/" p)

  -- The keys of `undecodable` and of `texts`.
  unfoldable pub undecodable : List String
  unfolding text_of filter markdown_files starts_with
  undecodable = filter (λ p. is_curated p && not (rules.is_utf8 (text_of p))) (markdown_files files)

  unfoldable pub readable : List String
  unfolding text_of filter markdown_files starts_with
  readable = filter (λ p. is_curated p && rules.is_utf8 (text_of p)) (markdown_files files)

  abbrev resolved : List String → List String → List String
  resolved pages ts =
      unique (flat_map (λ t. elim (resolve_link t pages) [ none ↦ [] | some q ↦ q ∷ [] ]) ts)

  unfoldable pub link_graph : Graph
  unfolding readable resolve_link unique wikilinks text_of markdown_files
  link_graph = map (λ p. (p, resolved (markdown_files files) (wikilinks (text_of p)))) readable

  -- The findings over the text of one page.
  unfoldable pub page_findings : String → List Finding
  unfolding text_of wikilink_findings wikilinks markdown_files
  page_findings p =
      let text = text_of p in
      rules.frontmatter p text
      ++ wikilink_findings p (wikilinks text) (markdown_files files)
      ++ rules.digest files p text
      ++ rules.evidence p text
      ++ rules.citation files p text
      ++ rules.generated p text

  abbrev not_utf8 : String → Finding
  not_utf8 p = finding p encoding_invalid "not valid UTF-8"

  -- `only is None or path in only`
  unfoldable pub is_asked : Option (List String) → String → Bool
  is_asked none p = true
  is_asked (some only) p = among p only

  unfoldable pub lint_wiki : Option (List String) → List Finding
  unfolding undecodable readable link_graph page_findings is_asked orphan_findings suppress
      load_exceptions filter markdown_files finding
  lint_wiki only = map (suppress (load_exceptions files)) (
      map not_utf8 (filter (is_asked only) undecodable)
      ++ flat_map page_findings (filter (is_asked only) readable)
      ++ filter (λ f. is_asked only f.file) (orphan_findings link_graph (markdown_files files)))

  -- The pages whose links lead to one of the targets, whether that is present or not.
  unfoldable pub linkers : List String → List String
  unfolding readable filter resolve_link wikilinks text_of markdown_files
  linkers targets =
      let inventory = unique (markdown_files files ++ targets) in
      filter
        (λ p.
          not (among p targets)
          && any (λ t. elim (resolve_link t inventory) [ none ↦ false | some q ↦ among q targets ])
              (wikilinks (text_of p)))
        readable

two_columns :
    columns "errors/a.md  page-orphaned\twikilink-broken"
    ≡ "errors/a.md" ∷ " page-orphaned" ∷ "wikilink-broken" ∷ []
unfolding columns
two_columns = refl
