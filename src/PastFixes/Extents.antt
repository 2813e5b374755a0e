-- ===== src/PastFixes/Extents.antt =====
-- Where a section stands on a page.
use logbook.Prelude.{
  ◌≡◌, refl, ap, inl, inr, true, false, String, Option, none, some, List, [], ◌∷◌, ◌++◌, All, strip,
  Bool-cases,
}
use logbook.Pagetext.{split_body, is_section}
use logbook.Pagetext.Lines.{AreLines}
use logbook.PastFixes.Splice.{is_heading, Extent, later_in, section_extent, past_fixes_head}

abbrev pub NoHeading : List String → Type 0
NoHeading = All (λ line. is_heading past_fixes_head line ≡ false)

-- A text of lines of which none starts a section.
abbrev pub NoSection : List String → Type 0
NoSection = All (λ line. is_section line ≡ false)

-- Nothing, or from a section on.
abbrev pub StartsSection : List String → Type 0
StartsSection [] = Unit
StartsSection (line ∷ lines) = is_section line ≡ true

pub split_body-StartsSection : (lines : List String) → StartsSection (split_body lines).1
unfolding split_body
split_body-StartsSection [] = tt
split_body-StartsSection (line ∷ lines) = elim (Bool-cases (is_section line)) [
  | inl section ↦ rw section section
  | inr other ↦ rw other (split_body-StartsSection lines)
]

-- The body is everything in front of the next section.
pub split_body-append :
    (xs tail : List String)
    → NoSection xs
    → StartsSection tail
    → split_body (xs ++ tail) ≡ (xs, tail)
unfolding split_body
split_body-append [] [] h k = refl
split_body-append [] (s ∷ tail) h k = rw k refl
split_body-append (x ∷ xs) tail h k = rw (h.0, split_body-append xs tail h.1 k) refl

-- What stands around the section that is found.
pub record IsExtent (lines : List String) (e : Extent) : Type 0 where
  pub before-NoHeading : NoHeading e.before
  pub behind-StartsSection : StartsSection e.behind
  pub before-AreLines : AreLines lines → AreLines e.before
  pub behind-AreLines : AreLines lines → AreLines e.behind

abbrev pub IsFound : List String → Option Extent → Type 0
IsFound lines none = NoHeading lines
IsFound lines (some e) = IsExtent lines e

pub later-IsFound :
    (line : String) (lines : List String) (o : Option Extent)
    → is_heading past_fixes_head line ≡ false
    → IsFound lines o
    → IsFound (line ∷ lines) (later_in line o)
later-IsFound line lines none other h = (other, h)
later-IsFound line lines (some e) other h = record {
  before-NoHeading = (other, h.before-NoHeading);
  behind-StartsSection = h.behind-StartsSection;
  before-AreLines = λ k. (k.0, h.before-AreLines k.1);
  behind-AreLines = λ k. h.behind-AreLines k.1;
}

pub split_body-AreLines : (lines : List String) → AreLines lines → AreLines (split_body lines).1
unfolding split_body
split_body-AreLines [] h = tt
split_body-AreLines (line ∷ lines) h = elim (Bool-cases (is_section line)) [
  | inl section ↦ rw section h
  | inr other ↦ rw other (split_body-AreLines lines h.1)
]

pub section_extent-IsFound :
    (lines : List String) → IsFound lines (section_extent past_fixes_head lines)
unfolding section_extent
section_extent-IsFound [] = tt
section_extent-IsFound (line ∷ lines) = elim (Bool-cases (is_heading past_fixes_head line)) [
  | inl here ↦ rw here (record {
    before-NoHeading = tt;
    behind-StartsSection = split_body-StartsSection lines;
    before-AreLines = λ k. tt;
    behind-AreLines = λ k. split_body-AreLines lines k.1;
  })
  | inr other ↦ rw other (
      later-IsFound line lines (section_extent past_fixes_head lines) other
        (section_extent-IsFound lines))
]

-- The section behind lines that are no heading is found.
pub section_extent-append :
    (xs rest : List String)
    → NoHeading xs
    → section_extent past_fixes_head (xs ++ past_fixes_head ∷ rest)
      ≡ some (record {
        before = xs;
        inside = past_fixes_head ∷ (split_body rest).0;
        behind = (split_body rest).1;
      })
unfolding section_extent is_heading strip
section_extent-append [] rest h = refl
section_extent-append (x ∷ xs) rest h = rw (h.0, section_extent-append xs rest h.1) refl

pub split_body-whole : (lines : List String) → (split_body lines).0 ++ (split_body lines).1 ≡ lines
unfolding split_body
split_body-whole [] = refl
split_body-whole (line ∷ lines) = elim (Bool-cases (is_section line)) [
  | inl section ↦ rw section refl
  | inr other ↦ rw other (ap (λ ls. line ∷ ls) (split_body-whole lines))
]

-- The parts of a page around any section.
abbrev pub IsCut : List String → Option Extent → Type 0
IsCut lines none = Unit
IsCut lines (some e) = ((e.before ++ e.inside) ++ e.behind ≡ lines) × StartsSection e.behind

pub later-IsCut :
    (line : String) (lines : List String) (o : Option Extent)
    → IsCut lines o
    → IsCut (line ∷ lines) (later_in line o)
later-IsCut line lines none h = tt
later-IsCut line lines (some e) h = (ap (λ ls. line ∷ ls) h.0, h.1)

pub section_extent-IsCut :
    (heading : String) (lines : List String) → IsCut lines (section_extent heading lines)
unfolding section_extent
section_extent-IsCut heading [] = tt
section_extent-IsCut heading (line ∷ lines) = elim (Bool-cases (is_heading heading line)) [
  | inl here ↦
      rw here (ap (λ ls. line ∷ ls) (split_body-whole lines), split_body-StartsSection lines)
  | inr other ↦
      rw other
        (later-IsCut line lines (section_extent heading lines) (section_extent-IsCut heading lines))
]
