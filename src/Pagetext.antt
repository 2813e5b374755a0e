-- ===== src/Pagetext.antt =====
-- src/dbwiki/pagetext.py: edits of one page of Markdown. Letters of a heading are compared as `(?i)` compares
-- them, for ASCII; no section's name begins with a space.
pub mod Again
pub mod Lines
pub mod Places
pub mod Sections
mod Scenarios
use Prim.Native.Char.{code}
use logbook.Prelude.{
  ℕ, ◌+◌, String, ◌≡◌, refl, Bool, true, false, not, ◌&&◌, ◌||◌, Option, none, some, List, [], ◌∷◌,
  ◌++◌, filter, any, ◌==◌, leb, eqb, size, plus, after, starts_with, contains, lines_of,
  split_lines, strip, lstrip, nonempty, is_space, concat, if◌then◌else◌,
}

-- `text.rstrip("\n")`
unfoldable pub strip_breaks : String → String
strip_breaks String.[] = String.[]
strip_breaks (String.◌∷◌ c s) =
    let rest = strip_breaks s in
    if not (nonempty rest) && eqb (code c) 10 then String.[] else String.◌∷◌ c rest

unfoldable pub nl : String → String
unfolding strip_breaks
nl text = plus (strip_breaks text) "\n"

-- `_lines`
unfoldable pub page_lines : String → List String
unfolding strip_breaks lines_of
page_lines text = lines_of (strip_breaks text)

-- `"\n".join(lines)`
unfoldable pub join_lines : List String → String
join_lines [] = ""
join_lines (s ∷ lines) = elim lines [ [] ↦ s | t ∷ more ↦ plus s (plus "\n" (join_lines lines)) ]

abbrev pub is_section : String → Bool
is_section line = starts_with "## " line

abbrev folded : ℕ → ℕ
folded c = if leb 65 c && leb c 90 then c + 32 else c

-- What is behind a prefix whose letters may be of either case.
unfoldable pub after_folded : String → String → Option String
after_folded String.[] s = some s
after_folded (String.◌∷◌ c p) String.[] = none
after_folded (String.◌∷◌ c p) (String.◌∷◌ d s) =
    let rest = after_folded p s in if eqb (folded (code c)) (folded (code d)) then rest else none

abbrev begins_with_space : String → Bool
begins_with_space String.[] = false
begins_with_space (String.◌∷◌ c s) = is_space (code c)

-- `head.match(line)`
unfoldable pub is_head : String → String → Bool
unfolding after after_folded lstrip is_space
is_head section line = elim (after "##" line) [
  | none ↦ false
  | some rest ↦ elim (after_folded section (lstrip rest)) [
    | none ↦ false
    | some tail ↦ begins_with_space rest && not (nonempty (lstrip tail))
  ]
]

-- The lines before the first heading of the section, the heading, its body and the rest.
pub record Zone : Type 0 where
  pub before : List String
  pub head : String
  pub body : List String
  pub behind : List String

unfoldable pub split_body : List String → List String × List String
unfolding starts_with
split_body [] = ([], [])
split_body (line ∷ lines) =
    let rest = split_body lines in
    if is_section line then ([], line ∷ lines) else (line ∷ rest.0, rest.1)

abbrev pub later : String → Option Zone → Option Zone
later line none = none
later line (some z) = some (record z { before = line ∷ z.before })

unfoldable pub find_section : String → List String → Option Zone
unfolding is_head split_body
find_section section [] = none
find_section section (line ∷ lines) =
    let rest = find_section section lines in
    if is_head section line
    then some (record {
      before = [];
      head = line;
      body = (split_body lines).0;
      behind = (split_body lines).1;
    })
    else later line rest

unfoldable pub ends_with : String → String → Bool
ends_with suffix String.[] = suffix == String.[]
ends_with suffix (String.◌∷◌ c s) = (suffix == String.◌∷◌ c s) || ends_with suffix s

-- `PLACEHOLDER_RE.match(line.strip())`
unfoldable pub is_placeholder : String → Bool
unfolding strip starts_with ends_with size
is_placeholder line = let s = strip line in starts_with "(" s && ends_with ")" s && leb 2 (size s)

-- `while body and not body[-1].strip(): body.pop()`
unfoldable pub drop_blank_end : List String → List String
unfolding strip nonempty
drop_blank_end [] = []
drop_blank_end (line ∷ lines) = elim (drop_blank_end lines) [
  | [] ↦ if nonempty (strip line) then line ∷ [] else []
  | t ∷ more ↦ line ∷ t ∷ more
]

-- `body or [""]`
abbrev pub or_blank : List String → List String
or_blank [] = "" ∷ []
or_blank (line ∷ lines) = line ∷ lines

-- A page with the section that is not there yet.
unfoldable pub new_section : String → String → String → String → String
unfolding page_lines join_lines
new_section text section line header = plus (join_lines (page_lines text)) (
    plus "\n\n## "
      (plus section (plus "\n\n" (plus (if nonempty header then plus header "\n" else "") line))))

unfoldable pub appended : Zone → String → List String
unfolding is_placeholder drop_blank_end filter
appended z line =
    (z.before
      ++ (z.head ∷ or_blank (drop_blank_end (filter (λ ln. not (is_placeholder ln)) z.body))))
    ++ line ∷ "" ∷ z.behind

abbrev pub append_in : Option Zone → String → String → String → String → String
append_in none text section line header = nl (new_section text section line header)
append_in (some z) text section line header = nl (join_lines (appended z line))

unfoldable pub section_append : String → String → String → String → String
unfolding contains find_section page_lines nl new_section appended
section_append text section line header =
    if contains line text
    then text
    else append_in (find_section section (page_lines text)) text section line header

-- The first line with the prefix is replaced, and later ones go.
unfoldable pub replaced : String → String → List String → List String
unfolding starts_with filter
replaced prefix line [] = []
replaced prefix line (ln ∷ lines) =
    let rest = replaced prefix line lines in
    if starts_with prefix ln
    then line ∷ filter (λ l. not (starts_with prefix l)) lines
    else ln ∷ rest

abbrev replace_in : Option Zone → String → String → String → String → String → String
replace_in none text section prefix line header = section_append text section line header
replace_in (some z) text section prefix line header =
    if any (starts_with prefix) z.body
    then nl (join_lines (z.before ++ (z.head ∷ replaced prefix line z.body) ++ z.behind))
    else section_append text section line header

unfoldable pub section_line_replace : String → String → String → String → String → String
unfolding find_section page_lines section_append replaced nl join_lines
section_line_replace text section prefix line header =
    replace_in (find_section section (page_lines text)) text section prefix line header

abbrev first_of : List String → Option String
first_of [] = none
first_of (line ∷ lines) = some line

abbrev remove_in : Option Zone → String → String → String × Option String
remove_in none text prefix = (text, none)
remove_in (some z) text prefix =
    let hits = filter (starts_with prefix) z.body in
    if any (starts_with prefix) z.body
    then (
      nl (
          join_lines (
            z.before
            ++ (z.head ∷ drop_blank_end (filter (λ ln. not (starts_with prefix ln)) z.body))
            ++ "" ∷ z.behind)),
      first_of hits,
    )
    else (text, none)

unfoldable pub section_remove_line : String → String → String → String × Option String
unfolding find_section page_lines drop_blank_end filter nl join_lines starts_with
section_remove_line text section prefix =
    remove_in (find_section section (page_lines text)) text prefix

-- `sections`: each heading with the lines of its body. What stands before the first heading is not returned.
unfoldable pub sections_of : List String → List (String × List String)
unfolding split_body starts_with
sections_of [] = []
sections_of (line ∷ lines) =
    let rest = sections_of lines in
    if is_section line then (line, (split_body lines).0) ∷ rest else rest

unfoldable pub is_listed : String → String → String → Bool
unfolding sections_of is_head split_lines join_lines
is_listed text to prefix =
    any (λ s. is_head to s.0 && any (starts_with prefix) (split_lines (join_lines s.1)))
      (sections_of (split_lines text))

abbrev pub move_on : String × Option String → String → String → String → String → String
move_on (after, some line) to prefix fallback header = section_append after to line header
move_on (after, none) to prefix fallback header =
    if is_listed after to prefix then after else section_append after to fallback header

unfoldable pub section_move_line : String → String → String → String → String → String → String
unfolding section_remove_line is_listed section_append
section_move_line text frm to prefix fallback header =
    move_on (section_remove_line text frm prefix) to prefix fallback header

abbrev drop_in : Option Zone → String → String
drop_in none text = text
drop_in (some z) text =
    if any (λ ln. nonempty (strip ln)) z.body then text else nl (join_lines (z.before ++ z.behind))

unfoldable pub section_drop_if_empty : String → String → String
unfolding find_section page_lines strip nl join_lines
section_drop_if_empty text section = drop_in (find_section section (page_lines text)) text

abbrev pub new_log : String
new_log = "---\ntype: log\n---\n\n# Log\n"

abbrev pub or_new_log : Option String → String
or_new_log none = new_log
or_new_log (some log) = log

-- `tail.rsplit("\n", 1)[-1]`
unfoldable pub last_line : List String → String
last_line [] = ""
last_line (s ∷ lines) = elim lines [ [] ↦ s | t ∷ more ↦ last_line lines ]

unfoldable pub log_append : Option String → String → String
unfolding contains strip_breaks lines_of last_line starts_with
log_append log line =
    let page = or_new_log log in
    let tail = strip_breaks page in
    let sep = if starts_with "#" (last_line (lines_of tail)) then "\n\n" else "\n" in
    if contains line page then page else plus tail (plus sep (plus line "\n"))
