-- ===== src/Pagetext/Lines.antt =====
-- src/dbwiki/pagetext.py: the lines of a page that was joined from lines.
use Prim.Native.Char.{code}
use logbook.Prelude.{
  has_no, split-plus, split-one, String, ◌≡◌, refl, sym, ap, ◌∙◌, true, false, not, ◌&&◌, List, [],
  ◌∷◌, ◌++◌, All, eqb, plus, lines_of, nonempty, Bool-cases, inl, inr, if◌then◌else◌,
}
use logbook.Pagetext.{strip_breaks, nl, join_lines, page_lines}
use logbook.Pagetext.Again.{strip_breaks-line, nonempty-plus_right, plus_nil}

-- Without the empty lines at the end.
abbrev pub kept_line : String → List String → List String
kept_line s [] = if nonempty s then s ∷ [] else []
kept_line s (t ∷ rest) = s ∷ t ∷ rest

unfoldable pub trim : List String → List String
unfolding nonempty
trim [] = []
trim (s ∷ ss) = kept_line s (trim ss)

abbrev pub AreLines : List String → Type 0
AreLines = All (λ s. has_no 10 s ≡ true)

full_line : (s : String) → nonempty (String.◌∷◌ "\n" s) ≡ true
unfolding nonempty
full_line s = refl

-- A trimmed list of lines, if it has any, is joined to a text that is not empty.
IsKept : List String → Type 0
IsKept [] = Unit
IsKept (u ∷ us) = nonempty (join_lines (u ∷ us)) ≡ true

kept_line-IsKept : (s : String) (rest : List String) → IsKept rest → IsKept (kept_line s rest)
unfolding IsKept join_lines
kept_line-IsKept s [] h = elim (Bool-cases (nonempty s)) [
  | inl full ↦ rw full full
  | inr empty ↦ rw empty tt
]
kept_line-IsKept s (t ∷ rest) h =
    nonempty-plus_right s (String.◌∷◌ "\n" (join_lines (t ∷ rest))) is_full
  where
    is_full : nonempty (String.◌∷◌ "\n" (join_lines (t ∷ rest))) ≡ true
    is_full = full_line (join_lines (t ∷ rest))

trim-IsKept : (ss : List String) → IsKept (trim ss)
unfolding trim IsKept
trim-IsKept [] = tt
trim-IsKept (s ∷ ss) = kept_line-IsKept s (trim ss) (trim-IsKept ss)

strip_breaks-one : (s : String) → has_no 10 s ≡ true → strip_breaks s ≡ s
unfolding strip_breaks
strip_breaks-one s h = ap strip_breaks (sym (plus_nil s)) ∙ strip_breaks-line s "" h ∙ plus_nil s

empty_text : (s : String) → nonempty s ≡ false → s ≡ ""
unfolding nonempty
empty_text String.[] h = refl
empty_text (String.◌∷◌ c s) h = cc

join-kept_line : (s : String) → join_lines (kept_line s []) ≡ s
unfolding join_lines
join-kept_line s = elim (Bool-cases (nonempty s)) [
  | inl full ↦ rw full refl
  | inr empty ↦ rw empty (sym (empty_text s empty))
]

-- A line in front of a text whose end is trimmed.
strip_breaks-kept :
    (s j : String) (rest : List String)
    → has_no 10 s ≡ true
    → strip_breaks j ≡ join_lines rest
    → IsKept rest
    → strip_breaks (plus s (String.◌∷◌ "\n" j)) ≡ join_lines (kept_line s rest)
unfolding join_lines strip_breaks IsKept nonempty
strip_breaks-kept s j [] h e k =
    strip_breaks-line s (String.◌∷◌ "\n" j) h ∙ rw e (plus_nil s ∙ sym (join-kept_line s))
strip_breaks-kept s j (u ∷ us) h e k = strip_breaks-line s (String.◌∷◌ "\n" j) h ∙ rw (e, k) refl

strip_breaks-join :
    (ls : List String) → AreLines ls → strip_breaks (join_lines ls) ≡ join_lines (trim ls)
unfolding trim join_lines strip_breaks
strip_breaks-join [] h = refl
strip_breaks-join (s ∷ []) h = strip_breaks-one s h.0 ∙ sym (join-kept_line s)
strip_breaks-join (s ∷ t ∷ more) h =
    strip_breaks-kept s (join_lines (t ∷ more)) (trim (t ∷ more)) h.0
      (strip_breaks-join (t ∷ more) h.1) (trim-IsKept (t ∷ more))

lines_of-join :
    (s : String) (ss : List String) → AreLines (s ∷ ss) → lines_of (join_lines (s ∷ ss)) ≡ s ∷ ss
unfolding lines_of join_lines
lines_of-join s [] h = split-one 10 s h.0
lines_of-join s (t ∷ more) h =
    split-plus 10 "\n" s (join_lines (t ∷ more)) refl h.0
    ∙ ap (λ ls. s ∷ ls) (lines_of-join t more h.1)

strip_breaks_idem : (s : String) → strip_breaks (strip_breaks s) ≡ strip_breaks s
unfolding strip_breaks
strip_breaks_idem String.[] = refl
strip_breaks_idem (String.◌∷◌ c s) =
    elim (Bool-cases (not (nonempty (strip_breaks s)) && eqb (code c) 10)) [
      | inl gone ↦ rw gone refl
      | inr kept ↦ rw (kept, strip_breaks_idem s, kept) refl
    ]

strip_breaks-end : (s : String) → strip_breaks (plus s "\n") ≡ strip_breaks s
unfolding strip_breaks nonempty
strip_breaks-end String.[] = refl
strip_breaks-end (String.◌∷◌ c s) = rw (strip_breaks-end s) refl

pub strip_breaks-nl : (s : String) → strip_breaks (nl s) ≡ strip_breaks s
unfolding nl
strip_breaks-nl s = strip_breaks-end (strip_breaks s) ∙ strip_breaks_idem s

pub nl_idem : (s : String) → nl (nl s) ≡ nl s
unfolding nl
nl_idem s = ap (λ t. plus t "\n") (strip_breaks-nl s)

trim-kept :
    (s : String) (rest : List String)
    → trim rest ≡ rest
    → trim (kept_line s rest) ≡ kept_line s rest
unfolding trim
trim-kept s [] h = elim (Bool-cases (nonempty s)) [
  | inl full ↦ rw full (rw full refl)
  | inr empty ↦ rw empty refl
]
trim-kept s (t ∷ rest) h = ap (kept_line s) h

pub trim_idem : (ls : List String) → trim (trim ls) ≡ trim ls
unfolding trim
trim_idem [] = refl
trim_idem (s ∷ ss) = trim-kept s (trim ss) (trim_idem ss)

pub trim-append :
    (xs ys : List String) (u : String) (us : List String)
    → trim ys ≡ u ∷ us
    → trim (xs ++ ys) ≡ xs ++ u ∷ us
unfolding trim
trim-append [] ys u us h = h
trim-append (x ∷ []) ys u us h = rw (trim, h) refl
trim-append (x ∷ z ∷ xs) ys u us h = rw (trim-append (z ∷ xs) ys u us h) refl

kept_line-AreLines :
    (s : String) (rest : List String)
    → has_no 10 s ≡ true
    → AreLines rest
    → AreLines (kept_line s rest)
kept_line-AreLines s [] h k = elim (Bool-cases (nonempty s)) [
  | inl full ↦ rw full (h, tt)
  | inr empty ↦ rw empty tt
]
kept_line-AreLines s (t ∷ rest) h k = (h, k)

pub AreLines-trim : (ls : List String) → AreLines ls → AreLines (trim ls)
unfolding trim
AreLines-trim [] h = tt
AreLines-trim (s ∷ ss) h = kept_line-AreLines s (trim ss) h.0 (AreLines-trim ss h.1)

-- Two lists of lines that are the same but for empty lines at the end make the same page.
pub nl-join :
    (xs ys : List String)
    → AreLines xs
    → AreLines ys
    → trim xs ≡ trim ys
    → nl (join_lines xs) ≡ nl (join_lines ys)
unfolding nl
nl-join xs ys hx hy e =
    ap (λ t. plus t "\n")
      (strip_breaks-join xs hx ∙ ap join_lines e ∙ sym (strip_breaks-join ys hy))

lines_of-joined : (ls : List String) → AreLines ls → ¬ (ls ≡ []) → lines_of (join_lines ls) ≡ ls
lines_of-joined [] h full = absurd (full refl)
lines_of-joined (s ∷ ss) h full = lines_of-join s ss h

-- The lines of the page that lines were joined to, where they are not all empty.
pub page_lines-nl :
    (ls : List String)
    → AreLines ls
    → ¬ (trim ls ≡ [])
    → page_lines (nl (nl (join_lines ls))) ≡ trim ls
unfolding page_lines
page_lines-nl ls h full =
    ap lines_of (
      strip_breaks-nl (nl (join_lines ls))
      ∙ strip_breaks-nl (join_lines ls)
      ∙ strip_breaks-join ls h)
    ∙ lines_of-joined (trim ls) (AreLines-trim ls h) full
