-- ===== src/PastFixes/Splice.antt =====
-- `splice_section`: the section `## Past fixes` of an error page. Headings
-- are compared without case, for ASCII.
use Prim.Native.Char.{code}
use logbook.Prelude.{
  ℕ, ◌+◌, String, ◌≡◌, refl, Bool, true, false, not, ◌&&◌, Option, none, some, List, [], ◌∷◌, ◌++◌,
  leb, eqb, strip, nonempty, if◌then◌else◌,
}
use logbook.Pagetext.{nl, page_lines, join_lines, split_body}

abbrev lower : ℕ → ℕ
lower c = if leb 65 c && leb c 90 then c + 32 else c

-- `s.casefold() == t.casefold()`
unfoldable pub same_folded : String → String → Bool
same_folded String.[] String.[] = true
same_folded String.[] (String.◌∷◌ d t) = false
same_folded (String.◌∷◌ c s) String.[] = false
same_folded (String.◌∷◌ c s) (String.◌∷◌ d t) =
    eqb (lower (code c)) (lower (code d)) && same_folded s t

unfoldable pub is_heading : String → String → Bool
unfolding same_folded strip
is_heading heading line = same_folded (strip line) heading

-- The lines around a section, which starts at its heading.
pub record Extent : Type 0 where
  pub before : List String
  pub inside : List String
  pub behind : List String

abbrev pub later_in : String → Option Extent → Option Extent
later_in line none = none
later_in line (some e) = some (record e { before = line ∷ e.before })

abbrev pub extent_at : String → List String × List String → Extent
extent_at line (body, rest) = record { before = []; inside = line ∷ body; behind = rest }

-- `_span`
unfoldable pub section_extent : String → List String → Option Extent
unfolding is_heading split_body
section_extent heading [] = none
section_extent heading (line ∷ lines) =
    let rest = section_extent heading lines in
    if is_heading heading line then some (extent_at line (split_body lines)) else later_in line rest

abbrev pub past_fixes_head : String
past_fixes_head = "## Past fixes"

abbrev pub resolution_head : String
resolution_head = "## Resolution history"

-- `while head and not head[-1].strip(): head.pop()`
abbrev pub drops : String → List String → Bool
drops line [] = not (nonempty (strip line))
drops line (s ∷ rest) = false

unfoldable pub pop_blank : List String → List String
unfolding strip nonempty
pop_blank [] = []
pop_blank (line ∷ lines) = let rest = pop_blank lines in if drops line rest then [] else line ∷ rest

unfoldable pub block_of : Option String → List String
unfolding page_lines
block_of none = []
block_of (some body) = "" ∷ past_fixes_head ∷ "" ∷ page_lines body

abbrev pub tail_of : List String → List String
tail_of [] = []
tail_of (line ∷ lines) = "" ∷ line ∷ lines

unfoldable pub spliced : List String → List String → Option String → List String
unfolding pop_blank block_of
spliced head tail body = pop_blank head ++ (block_of body ++ tail_of tail)

-- Where a new section goes: behind `## Resolution history`, or at the end.
abbrev pub place_new : List String → Option Extent → List String × List String
place_new lines none = (lines, [])
place_new lines (some e) = (e.before ++ e.inside, e.behind)

abbrev pub spliced_at : Option Extent → List String → String → Option String → String
spliced_at (some e) lines text body = nl (join_lines (spliced e.before e.behind body))
spliced_at none lines text none = nl text
spliced_at none lines text (some body) =
    let (head, tail) = place_new lines (section_extent resolution_head lines) in
    nl (join_lines (spliced head tail (some body)))

unfoldable pub splice_section : String → Option String → String
unfolding nl page_lines join_lines section_extent spliced
splice_section text body =
    let lines = page_lines (nl text) in
    spliced_at (section_extent past_fixes_head lines) lines text body

added :
    splice_section "# ORA-1\n\n## Resolution history\n- a\n\n## Notes\nx\n" (some "1 fix.")
    ≡ "# ORA-1\n\n## Resolution history\n- a\n\n## Past fixes\n\n1 fix.\n\n## Notes\nx\n"
unfolding splice_section
added = refl

taken_off : splice_section "# A\n\n##  past FIXES\nold\n" none ≡ "# A\n\n##  past FIXES\nold\n"
unfolding splice_section
taken_off = refl

taken_off_now : splice_section "# A\n\n## past FIXES\nold\n## B\n" none ≡ "# A\n\n## B\n"
unfolding splice_section
taken_off_now = refl
