-- ===== src/Pagetext/Places.antt =====
-- src/dbwiki/pagetext.py: where `section_append` puts its line.
use logbook.Prelude.{
  has_no, split-has_no, split-full, String, ◌≡◌, ◌≢◌, refl, sym, ap, subst, ◌∙◌, ◌⊎◌, inl, inr,
  true, false, Option, none, some, List, [], ◌∷◌, ◌++◌, All, All-append, All-map, plus, lines_of,
  contains, nonempty, if◌then◌else◌, every,
}
use logbook.Pagetext.{
  strip_breaks, nl, join_lines, Zone, append_in, appended, new_section, is_head, is_section,
  section_append, find_section, page_lines,
}
use logbook.Pagetext.Again.{IsLine, section_append-again, plus_assoc, nonempty-plus_left}
use logbook.Pagetext.Lines.{trim, kept_line, AreLines, trim-append, page_lines-nl, nl_idem}
use logbook.Pagetext.Sections.{
  solid, Opens, IsFound, find_section-IsFound, kept_body, solid-kept_body, AreLines-kept_body,
}

split_all : (xs ys : List String) → AreLines (xs ++ ys) → AreLines xs × AreLines ys
split_all [] ys h = (tt, h)
split_all (x ∷ xs) ys h = let (l, r) = split_all xs ys h.1 in ((h.0, l), r)

-- A line that is not empty stays, with the lines that stay behind it.
trim_line :
    (line : String) (rest : List String)
    → nonempty line ≡ true
    → trim (line ∷ rest) ≡ line ∷ trim rest
unfolding trim
trim_line line rest h = go (trim rest)
  where
    go : (ls : List String) → kept_line line ls ≡ line ∷ ls
    go [] = rw h refl
    go (t ∷ more) = refl

head_full : (xs : List String) (y : String) (ys : List String) → (xs ++ y ∷ ys) ≢ []
head_full [] y ys e = cc
head_full (x ∷ xs) y ys e = cc

-- The lines of the page that `nl` makes of lines, one of which is not empty.
page_lines-joined :
    (xs : List String) (line : String) (rest : List String)
    → AreLines (xs ++ line ∷ rest)
    → nonempty line ≡ true
    → page_lines (nl (join_lines (xs ++ line ∷ rest))) ≡ xs ++ line ∷ trim rest
page_lines-joined xs line rest h full =
    let trimmed = trim-append xs (line ∷ rest) line (trim rest) (trim_line line rest full) in
    ap page_lines (sym (nl_idem (join_lines (xs ++ line ∷ rest))))
    ∙ page_lines-nl (xs ++ line ∷ rest) h (λ e. head_full xs line (trim rest) (sym trimmed ∙ e))
    ∙ trimmed

join_lines-append :
    (x : String) (xs : List String) (y : String) (ys : List String)
    → join_lines ((x ∷ xs) ++ y ∷ ys) ≡ plus (join_lines (x ∷ xs)) (plus "\n" (join_lines (y ∷ ys)))
unfolding join_lines
join_lines-append x [] y ys = refl
join_lines-append x (t ∷ more) y ys =
    ap (λ s. plus x (plus "\n" s)) (join_lines-append t more y ys)
    ∙ sym (plus_assoc x (plus "\n" (join_lines (t ∷ more))) (plus "\n" (join_lines (y ∷ ys))))

-- The line stands at the end of the first section of that name, behind the body.
abbrev pub IsInside : String → String → List String → List String → Type 0
IsInside section line old new =
    (before : List String) × (head : String) × (body : List String) × (kept : List String)
    × (behind : List String) × (old ≡ before ++ (head ∷ body) ++ behind)
    × (new ≡ before ++ (head ∷ kept) ++ line ∷ trim ("" ∷ behind))
    × (is_head section head ≡ true)
    × All (λ s. is_head section s ≡ false) before
    × All (λ s. is_section s ≡ false) body
    × Opens behind
    × (solid kept ≡ solid body)

-- No section has the name, and one that holds the header and the line ends the page.
abbrev pub IsNew : String → String → List String → List String → List String → Type 0
IsNew section line heads old new =
    All (λ s. is_head section s ≡ false) old
    × (new ≡ old ++ "" ∷ plus "## " section ∷ "" ∷ heads ++ line ∷ [])

open_zone :
    (z : Zone) (line : String)
    → appended z line ≡ (z.before ++ (z.head ∷ kept_body z.body)) ++ line ∷ "" ∷ z.behind
unfolding appended
open_zone z line = refl

append_assoc : (xs ys zs : List String) → xs ++ ys ++ zs ≡ xs ++ (ys ++ zs)
append_assoc [] ys zs = refl
append_assoc (x ∷ xs) ys zs = ap (λ ls. x ∷ ls) (append_assoc xs ys zs)

appended-IsInside :
    (text section line : String) (z : Zone)
    → IsLine line
    → IsFound section (some z) (page_lines text)
    → AreLines (page_lines text)
    → IsInside section line (page_lines text) (page_lines (nl (join_lines (appended z line))))
unfolding every
appended-IsInside text section line z h (parts, at, before, body, behind) old =
    let whole = split_all (z.before ++ (z.head ∷ z.body)) z.behind (subst AreLines parts old) in
    let inner = split_all z.before (z.head ∷ z.body) whole.0 in
    let front : AreLines (z.before ++ (z.head ∷ kept_body z.body)) =
      All-append _ z.before (z.head ∷ kept_body z.body) inner.0
        (inner.1.0, AreLines-kept_body z.body inner.1.1) in
    let new : AreLines ((z.before ++ (z.head ∷ kept_body z.body)) ++ line ∷ "" ∷ z.behind) =
      All-append _ (z.before ++ (z.head ∷ kept_body z.body)) (line ∷ "" ∷ z.behind) front
        (h.1, (refl, whole.1)) in
    (
      z.before,
      z.head,
      z.body,
      kept_body z.body,
      z.behind,
      parts,
      ap (λ ls. page_lines (nl (join_lines ls))) (open_zone z line)
          ∙ page_lines-joined (z.before ++ (z.head ∷ kept_body z.body)) line ("" ∷ z.behind) new
              h.0,
      at,
      before,
      body,
      behind,
      solid-kept_body z.body,
    )

-- The header over its last line break, if there is one.
headed :
    (heads : List String) (line : String)
    → All IsLine heads
    → plus (if nonempty (join_lines heads) then plus (join_lines heads) "\n" else "") line
      ≡ join_lines (heads ++ line ∷ [])
unfolding join_lines nonempty
headed [] line h = refl
headed (s ∷ []) line h = rw h.0.0 (plus_assoc s "\n" line)
headed (s ∷ t ∷ more) line h = rw (nonempty-plus_left s (plus "\n" (join_lines (t ∷ more))) h.0.0) (
    plus_assoc (join_lines (s ∷ t ∷ more)) "\n" line ∙ sym (join_lines-append s (t ∷ more) line []))

-- The lines of a new section.
abbrev fresh : String → String → List String → List String
fresh section line heads = "" ∷ plus "## " section ∷ "" ∷ heads ++ line ∷ []

fresh_text :
    (section line : String) (heads : List String)
    → plus "\n" (join_lines (fresh section line heads))
      ≡ plus "\n\n## " (plus section (plus "\n\n" (join_lines (heads ++ line ∷ []))))
unfolding join_lines
fresh_text section line [] = refl
fresh_text section line (s ∷ heads) = refl

new_section-join :
    (text section line : String) (heads : List String)
    → All IsLine heads
    → new_section text section line (join_lines heads)
      ≡ join_lines (page_lines text ++ fresh section line heads)
unfolding new_section page_lines lines_of
new_section-join text section line heads h =
    go (page_lines text) (split-full 10 (strip_breaks text))
  where
    go :
        (old : List String)
        → old ≢ []
        → plus (join_lines old) (
            plus "\n\n## " (
              plus section (
                plus "\n\n" (
                  plus
                    (if nonempty (join_lines heads) then plus (join_lines heads) "\n" else "")
                    line))))
          ≡ join_lines (old ++ fresh section line heads)
    go [] full = absurd (full refl)
    go (x ∷ xs) full =
        ap (λ t. plus (join_lines (x ∷ xs)) (plus "\n\n## " (plus section (plus "\n\n" t))))
          (headed heads line h)
        ∙ ap (plus (join_lines (x ∷ xs))) (sym (fresh_text section line heads))
        ∙ sym (join_lines-append x xs "" (plus "## " section ∷ "" ∷ heads ++ line ∷ []))

page_lines-AreLines : (text : String) → AreLines (page_lines text)
unfolding page_lines lines_of
page_lines-AreLines text = split-has_no 10 (strip_breaks text)

heading_line : (section : String) → has_no 10 section ≡ true → has_no 10 (plus "## " section) ≡ true
unfolding every
heading_line section h = h

new_section-IsNew :
    (text section line : String) (heads : List String)
    → IsLine line
    → has_no 10 section ≡ true
    → All IsLine heads
    → All (λ s. is_head section s ≡ false) (page_lines text)
    → IsNew section line heads
        (page_lines text)
        (page_lines (nl (new_section text section line (join_lines heads))))
unfolding every trim
new_section-IsNew text section line heads h named hs none_there =
    let front : AreLines (page_lines text ++ "" ∷ plus "## " section ∷ "" ∷ heads) =
      All-append _ (page_lines text) ("" ∷ plus "## " section ∷ "" ∷ heads)
        (page_lines-AreLines text)
        (refl, (heading_line section named, (refl, All-map (λ s k. k.1) heads hs))) in
    let shape = append_assoc (page_lines text) ("" ∷ plus "## " section ∷ "" ∷ heads) (line ∷ []) in
    (
      none_there,
      ap (λ t. page_lines (nl t))
            (new_section-join text section line heads hs ∙ ap join_lines (sym shape))
          ∙ page_lines-joined (page_lines text ++ "" ∷ plus "## " section ∷ "" ∷ heads) line []
              (All-append _ (page_lines text ++ "" ∷ plus "## " section ∷ "" ∷ heads) (line ∷ [])
                front (h.1, tt))
              h.0,
    )

append_in-IsPlaced :
    (o : Option Zone) (text section line : String) (heads : List String)
    → IsLine line
    → has_no 10 section ≡ true
    → All IsLine heads
    → IsFound section o (page_lines text)
    → IsInside section line
        (page_lines text)
        (page_lines (append_in o text section line (join_lines heads)))
      ⊎ IsNew section line heads
          (page_lines text)
          (page_lines (append_in o text section line (join_lines heads)))
append_in-IsPlaced none text section line heads h named hs found =
    inr (new_section-IsNew text section line heads h named hs found)
append_in-IsPlaced (some z) text section line heads h named hs found =
    inl (appended-IsInside text section line z h found (page_lines-AreLines text))

-- A line that is a substring of the page changes nothing. Any other line, if it is not empty and has no line
-- break, stands behind the body of the first section of that name: the lines of this body that are neither blank
-- nor placeholders stay in order, and the lines before and behind the body stay, but for an empty line that is
-- put behind the new one and empty lines that go at the end of the page. Where no section has the name, the line
-- stands behind the whole page under a new heading and the lines of the header. Appending it again changes no
-- byte.
pub section_append-IsPlaced :
    (text section line : String) (heads : List String)
    → IsLine line
    → has_no 10 section ≡ true
    → All IsLine heads
    → let page = section_append text section line (join_lines heads) in
      (contains line text ≡ true → page ≡ text)
      × (contains line text ≡ false
          → IsInside section line (page_lines text) (page_lines page)
            ⊎ IsNew section line heads (page_lines text) (page_lines page))
      × (section_append page section line (join_lines heads) ≡ page)
unfolding section_append
section_append-IsPlaced text section line heads h named hs = (
  (λ there. rw there refl),
  (λ missing. rw missing (
      append_in-IsPlaced (find_section section (page_lines text)) text section line heads h named hs
        (find_section-IsFound section (page_lines text)))),
  (section_append-again text section line (join_lines heads) h).1,
)
