-- ===== src/PastFixes/Again.antt =====
-- src/dbwiki/past_fixes.py: `splice_section` on a page that it wrote.
use logbook.Prelude.{
  split-has_no, every, String, ◌≡◌, refl, sym, ap, subst, ◌∙◌, false, Option, none, some, List, [],
  ◌∷◌, ◌++◌, All, All-append, starts_with, nonempty, strip, lines_of,
}
use logbook.Pagetext.{nl, page_lines, join_lines, strip_breaks, split_body, is_section}
use logbook.Pagetext.Lines.{
  trim, kept_line, AreLines, trim_idem, trim-append, AreLines-trim, nl-join, page_lines-nl,
}
use logbook.PastFixes.Extents.{
  IsCut, IsFound, NoHeading, NoSection, StartsSection, section_extent-IsCut, section_extent-IsFound,
  section_extent-append, split_body-append,
}
use logbook.PastFixes.Blank.{
  pop_blank-All, pop_blank-append, pop_blank_idem, section-nonempty, trim-full, trim-All,
  append_empty, append_append,
}
use logbook.PastFixes.Splice.{
  is_heading, Extent, section_extent, past_fixes_head, resolution_head, pop_blank, block_of,
  tail_of, spliced, place_new, spliced_at, splice_section,
}

-- What a page is after one write: its lines around the block.
module _ (h bl : List String) where
  abbrev block : List String
  block = "" ∷ past_fixes_head ∷ "" ∷ bl

  abbrev whole : List String → List String
  whole tl = h ++ (block ++ tail_of tl)

  abbrev rest_of : List String → List String
  rest_of tl = "" ∷ (bl ++ tail_of tl)

  trim-whole : (tl : List String) → trim (whole tl) ≡ h ++ "" ∷ past_fixes_head ∷ trim (rest_of tl)
  unfolding trim nonempty
  trim-whole tl =
      trim-append h (block ++ tail_of tl) "" (past_fixes_head ∷ trim (rest_of tl))
        (ap (kept_line "") (trim-full past_fixes_head (rest_of tl) refl))

  -- What is behind the block once the page is read again.
  behind-trim :
      (tl : List String)
      → NoSection bl
      → StartsSection tl
      → (split_body (trim (rest_of tl))).1 ≡ trim tl
  unfolding trim starts_with
  behind-trim [] n k =
      let free : NoSection (trim (rest_of [])) =
        trim-All (λ line. is_section line ≡ false) (rest_of []) (refl, All-append _ bl [] n tt) in
      ap (λ ls. (split_body ls).1) (sym (append_empty (trim (rest_of []))))
      ∙ ap (λ x. x.1) (split_body-append (trim (rest_of [])) [] free tt)
  behind-trim (s ∷ tl) n k =
      let kept : trim (s ∷ tl) ≡ s ∷ trim tl = trim-full s tl (section-nonempty s k) in
      let front = "" ∷ (bl ++ "" ∷ []) in
      let free : NoSection front = (refl, All-append _ bl ("" ∷ []) n (refl, tt)) in
      ap (λ ls. (split_body (trim ("" ∷ ls))).1) (sym (append_append bl ("" ∷ []) (s ∷ tl)))
      ∙ ap (λ ls. (split_body ls).1) (trim-append front (s ∷ tl) s (trim tl) kept)
      ∙ ap (λ x. x.1) (split_body-append front (s ∷ trim tl) free k)
      ∙ sym kept

  glue : (ys : List String) → h ++ (block ++ "" ∷ ys) ≡ (h ++ (block ++ "" ∷ [])) ++ ys
  glue ys =
      ap (λ zs. h ++ zs) (sym (append_append block ("" ∷ []) ys))
      ∙ sym (append_append h (block ++ "" ∷ []) ys)

  -- Written again, the lines are the same but for empty ones at the end.
  trim-whole_again :
      (tl : List String) → StartsSection tl → trim (whole (trim tl)) ≡ trim (whole tl)
  unfolding trim starts_with
  trim-whole_again [] k = refl
  trim-whole_again (s ∷ tl) k =
      let kept : trim (s ∷ tl) ≡ s ∷ trim tl = trim-full s tl (section-nonempty s k) in
      let again : trim (s ∷ trim tl) ≡ s ∷ trim tl =
        trim-full s (trim tl) (section-nonempty s k) ∙ ap (λ ls. s ∷ ls) (trim_idem tl) in
      ap (λ ls. trim (whole ls)) kept
      ∙ ends (s ∷ trim tl) s (trim tl) again
      ∙ sym (ends (s ∷ tl) s (trim tl) kept)
    where
      ends :
          (ys : List String) (u : String) (us : List String)
          → trim ys ≡ u ∷ us
          → trim (h ++ (block ++ "" ∷ ys)) ≡ h ++ (block ++ "" ∷ u ∷ us)
      ends ys u us e =
          ap trim (glue ys) ∙ trim-append (h ++ (block ++ "" ∷ [])) ys u us e ∙ sym (glue (u ∷ us))

tail_of-AreLines : (tl : List String) → AreLines tl → AreLines (tail_of tl)
unfolding every
tail_of-AreLines [] h = tt
tail_of-AreLines (s ∷ tl) h = (refl, h)

not_nil : (xs : List String) (y : String) (ys : List String) → ¬ (xs ++ y ∷ ys ≡ [])
not_nil [] y ys e = cc
not_nil (x ∷ xs) y ys e = cc

-- The page that is left by writing a body between two lists of lines.
abbrev written_page : List String → List String → String → String
written_page head tail body = nl (join_lines (spliced head tail (some body)))

record AreAround (head tail : List String) : Type 0 where
  head-NoHeading : NoHeading head
  tail-StartsSection : StartsSection tail
  head-AreLines : AreLines head
  tail-AreLines : AreLines tail

module _ (head tail : List String) (body : String) (around : AreAround head tail)
    (free : NoSection (page_lines body)) where
  abbrev kept_head : List String
  kept_head = pop_blank head

  whole-AreLines :
      (tl : List String) → AreLines tl → AreLines (whole kept_head (page_lines body) tl)
  unfolding page_lines lines_of every
  whole-AreLines tl k = All-append _ kept_head _ (pop_blank-All _ head around.head-AreLines) (
    refl,
    (
      refl,
      (
        refl,
        All-append _ (page_lines body) (tail_of tl) (split-has_no 10 (strip_breaks body))
            (tail_of-AreLines tl k),
      ),
    ),
  )

  read_back :
      page_lines (nl (written_page head tail body))
      ≡ (kept_head ++ "" ∷ []) ++ past_fixes_head ∷ trim (rest_of kept_head (page_lines body) tail)
  unfolding spliced block_of
  read_back =
      let bl = page_lines body in
      let trimmed = trim-whole kept_head bl tail in
      page_lines-nl (whole kept_head bl tail) (whole-AreLines tail around.tail-AreLines)
        (λ e. not_nil kept_head "" _ (sym trimmed ∙ e))
      ∙ trimmed
      ∙ sym (append_append kept_head ("" ∷ []) (past_fixes_head ∷ trim (rest_of kept_head bl tail)))

  found :
      section_extent past_fixes_head (page_lines (nl (written_page head tail body)))
      ≡ some (record {
        before = kept_head ++ "" ∷ [];
        inside = past_fixes_head ∷ (split_body (trim (rest_of kept_head (page_lines body) tail))).0;
        behind = (split_body (trim (rest_of kept_head (page_lines body) tail))).1;
      })
  unfolding is_heading strip
  found =
      ap (section_extent past_fixes_head) read_back
      ∙ section_extent-append (kept_head ++ "" ∷ [])
          (trim (rest_of kept_head (page_lines body) tail))
          (All-append _ kept_head ("" ∷ []) (pop_blank-All _ head around.head-NoHeading) (refl, tt))

  -- Reading the page that was written, and writing the same body, gives the same page.
  written-again :
      splice_section (written_page head tail body) (some body) ≡ written_page head tail body
  unfolding splice_section spliced block_of
  written-again =
      let h = kept_head in
      let bl = page_lines body in
      let page = written_page head tail body in
      let rest = trim (rest_of h bl tail) in
      ap (λ o. spliced_at o (page_lines (nl page)) page (some body)) found
      ∙ ap (λ t. nl (join_lines (spliced (h ++ "" ∷ []) t (some body))))
          (behind-trim h bl tail free around.tail-StartsSection)
      ∙ ap (λ g. nl (join_lines (g ++ (block h bl ++ tail_of (trim tail)))))
          (pop_blank-append h ∙ pop_blank_idem head)
      ∙ nl-join (whole h bl (trim tail)) (whole h bl tail)
          (whole-AreLines (trim tail) (AreLines-trim tail around.tail-AreLines))
          (whole-AreLines tail around.tail-AreLines)
          (trim-whole_again h bl tail around.tail-StartsSection)

All-left {ℓ} : (P : String → Type ℓ) (xs ys : List String) → All P (xs ++ ys) → All P xs
All-left P [] ys h = tt
All-left P (x ∷ xs) ys h = (h.0, All-left P xs ys h.1)

All-right {ℓ} : (P : String → Type ℓ) (xs ys : List String) → All P (xs ++ ys) → All P ys
All-right P [] ys h = h
All-right P (x ∷ xs) ys h = All-right P xs ys h.1

new-AreAround :
    (lines : List String) (o : Option Extent)
    → NoHeading lines
    → AreLines lines
    → IsCut lines o
    → AreAround (place_new lines o).0 (place_new lines o).1
new-AreAround lines none n a c = record {
  head-NoHeading = n;
  tail-StartsSection = tt;
  head-AreLines = a;
  tail-AreLines = tt;
}
new-AreAround lines (some e) n a c = record {
  head-NoHeading = All-left _ (e.before ++ e.inside) e.behind (subst NoHeading (sym c.0) n);
  tail-StartsSection = c.1;
  head-AreLines = All-left _ (e.before ++ e.inside) e.behind (subst AreLines (sym c.0) a);
  tail-AreLines = All-right _ (e.before ++ e.inside) e.behind (subst AreLines (sym c.0) a);
}

spliced_at-again :
    (text body : String) (lines : List String) (o : Option Extent)
    → NoSection (page_lines body)
    → AreLines lines
    → IsFound lines o
    → let page = spliced_at o lines text (some body) in splice_section page (some body) ≡ page
spliced_at-again text body lines none free a n =
    let around = place_new lines (section_extent resolution_head lines) in
    written-again around.0 around.1 body
      (new-AreAround lines (section_extent resolution_head lines) n a
        (section_extent-IsCut resolution_head lines))
      free
spliced_at-again text body lines (some e) free a h =
    written-again e.before e.behind body
      (record {
        head-NoHeading = h.before-NoHeading;
        tail-StartsSection = h.behind-StartsSection;
        head-AreLines = h.before-AreLines a;
        tail-AreLines = h.behind-AreLines a;
      })
      free

-- For any page, with or without the section, and any body of which no line starts a section: writing
-- the section a second time changes no byte.
pub splice_section-again :
    (text body : String)
    → NoSection (page_lines body)
    → let page = splice_section text (some body) in splice_section page (some body) ≡ page
unfolding splice_section page_lines lines_of
splice_section-again text body free =
    let lines = page_lines (nl text) in
    spliced_at-again text body lines (section_extent past_fixes_head lines) free
      (split-has_no 10 (strip_breaks (nl text))) (section_extent-IsFound lines)
