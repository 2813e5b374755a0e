-- ===== src/Pagetext/Sections.antt =====
-- src/dbwiki/pagetext.py: the section that `section_append` finds, and the body that it keeps.
use logbook.Prelude.{
  has_no, String, ◌≡◌, refl, sym, ap, subst, ◌∙◌, inl, inr, true, false, not, ◌&&◌, Option, none,
  some, List, [], ◌∷◌, ◌++◌, filter, All, All-filter, nonempty, strip, Bool-cases, if◌then◌else◌,
  every,
}
use logbook.Pagetext.{
  Zone, or_blank, drop_blank_end, is_head, is_section, is_placeholder, split_body, find_section,
  later,
}
use logbook.Pagetext.Lines.{AreLines}

-- The lines that are neither blank nor a placeholder.
unfoldable pub solid : List String → List String
unfolding filter strip is_placeholder
solid = filter λ s. nonempty (strip s) && not (is_placeholder s)

-- No line, or a heading first.
abbrev pub Opens : List String → Type 0
Opens [] = Unit
Opens (line ∷ lines) = is_section line ≡ true

-- The first section of the name among lines, or none.
abbrev pub IsFound : String → Option Zone → List String → Type 0
IsFound section none lines = All (λ s. is_head section s ≡ false) lines
IsFound section (some z) lines =
    (lines ≡ z.before ++ (z.head ∷ z.body) ++ z.behind)
    × (is_head section z.head ≡ true)
    × All (λ s. is_head section s ≡ false) z.before
    × All (λ s. is_section s ≡ false) z.body
    × Opens z.behind

split_body_lem :
    (lines : List String)
    → (lines ≡ (split_body lines).0 ++ (split_body lines).1)
      × All (λ s. is_section s ≡ false) (split_body lines).0
      × Opens (split_body lines).1
unfolding split_body
split_body_lem [] = (refl, tt, tt)
split_body_lem (line ∷ lines) = elim (Bool-cases (is_section line)) [
  | inl here ↦ rw here (refl, tt, here)
  | inr other ↦
      let (parts, body, behind) = split_body_lem lines in
      rw other (ap (λ ls. line ∷ ls) parts, (other, body), behind)
]

later-IsFound :
    (section line : String) (o : Option Zone) (lines : List String)
    → is_head section line ≡ false
    → IsFound section o lines
    → IsFound section (later line o) (line ∷ lines)
later-IsFound section line none lines h found = (h, found)
later-IsFound section line (some z) lines h (parts, at, before, body, behind) =
    (ap (λ ls. line ∷ ls) parts, at, (h, before), body, behind)

pub find_section-IsFound :
    (section : String) (lines : List String) → IsFound section (find_section section lines) lines
unfolding find_section
find_section-IsFound section [] = tt
find_section-IsFound section (line ∷ lines) = elim (Bool-cases (is_head section line)) [
  | inl here ↦
      let (parts, body, behind) = split_body_lem lines in
      rw here (ap (λ ls. line ∷ ls) parts, here, tt, body, behind)
  | inr other ↦ rw other (
      later-IsFound section line (find_section section lines) lines other
        (find_section-IsFound section lines))
]

solid-filter :
    (body : List String) → solid (filter (λ ln. not (is_placeholder ln)) body) ≡ solid body
unfolding solid filter
solid-filter [] = refl
solid-filter (line ∷ body) = elim (Bool-cases (is_placeholder line)) [
  | inl gone ↦ elim (Bool-cases (nonempty (strip line))) [
    | inl full ↦ rw (gone, full) (solid-filter body)
    | inr empty ↦ rw (gone, empty) (solid-filter body)
  ]
  | inr kept ↦ elim (Bool-cases (nonempty (strip line))) [
    | inl full ↦ rw (kept, full, kept) (ap (λ ls. line ∷ ls) (solid-filter body))
    | inr empty ↦ rw (kept, empty) (solid-filter body)
  ]
]

abbrev end_cut : String → List String → List String
end_cut line [] = if nonempty (strip line) then line ∷ [] else []
end_cut line (t ∷ more) = line ∷ t ∷ more

drop_blank_end_step :
    (line : String) (lines : List String)
    → drop_blank_end (line ∷ lines) ≡ end_cut line (drop_blank_end lines)
unfolding drop_blank_end
drop_blank_end_step line lines = refl

solid-end_cut :
    (line : String) (rest : List String) → solid (end_cut line rest) ≡ solid (line ∷ rest)
unfolding solid filter
solid-end_cut line [] = elim (Bool-cases (nonempty (strip line))) [
  | inl full ↦ rw (full, full) refl
  | inr empty ↦ rw empty refl
]
solid-end_cut line (t ∷ more) = refl

solid_step :
    (line : String) (xs ys : List String)
    → solid xs ≡ solid ys
    → solid (line ∷ xs) ≡ solid (line ∷ ys)
unfolding solid filter
solid_step line xs ys e = rw e refl

solid-drop_blank_end : (lines : List String) → solid (drop_blank_end lines) ≡ solid lines
unfolding drop_blank_end
solid-drop_blank_end [] = refl
solid-drop_blank_end (line ∷ lines) =
    ap solid (drop_blank_end_step line lines)
    ∙ solid-end_cut line (drop_blank_end lines)
    ∙ solid_step line (drop_blank_end lines) lines (solid-drop_blank_end lines)

solid-or_blank : (lines : List String) → solid (or_blank lines) ≡ solid lines
unfolding solid filter strip nonempty
solid-or_blank [] = refl
solid-or_blank (line ∷ lines) = refl

-- The body of the section as it is kept, without placeholders and the blank lines at its end.
abbrev pub kept_body : List String → List String
kept_body body = or_blank (drop_blank_end (filter (λ ln. not (is_placeholder ln)) body))

pub solid-kept_body : (body : List String) → solid (kept_body body) ≡ solid body
solid-kept_body body =
    solid-or_blank (drop_blank_end (filter (λ ln. not (is_placeholder ln)) body))
    ∙ solid-drop_blank_end (filter (λ ln. not (is_placeholder ln)) body)
    ∙ solid-filter body

AreLines-end_cut :
    (line : String) (rest : List String)
    → has_no 10 line ≡ true
    → AreLines rest
    → AreLines (end_cut line rest)
AreLines-end_cut line [] h k = elim (Bool-cases (nonempty (strip line))) [
  | inl full ↦ rw full (h, tt)
  | inr empty ↦ rw empty tt
]
AreLines-end_cut line (t ∷ more) h k = (h, k)

AreLines-drop_blank_end : (lines : List String) → AreLines lines → AreLines (drop_blank_end lines)
unfolding drop_blank_end
AreLines-drop_blank_end [] h = tt
AreLines-drop_blank_end (line ∷ lines) h =
    subst AreLines (sym (drop_blank_end_step line lines))
      (AreLines-end_cut line (drop_blank_end lines) h.0 (AreLines-drop_blank_end lines h.1))

AreLines-or_blank : (lines : List String) → AreLines lines → AreLines (or_blank lines)
unfolding every
AreLines-or_blank [] h = (refl, tt)
AreLines-or_blank (line ∷ lines) h = h

pub AreLines-kept_body : (body : List String) → AreLines body → AreLines (kept_body body)
AreLines-kept_body body h = AreLines-or_blank _ (AreLines-drop_blank_end _ (All-filter _ _ body h))
