-- ===== src/PastFixes/Blank.antt =====
-- src/dbwiki/past_fixes.py: popping blank lines, and trimming empty ones.
use logbook.Prelude.{
  ◌≡◌, refl, ap, inl, inr, true, String, List, [], ◌∷◌, ◌++◌, All, starts_with, strip, nonempty,
  Bool-cases, if◌then◌else◌,
}
use logbook.Pagetext.{is_section}
use logbook.Pagetext.Lines.{trim, kept_line}
use logbook.PastFixes.Splice.{drops, pop_blank}

module _ {ℓ} (P : String → Type ℓ) where
  pop_line-All :
      (line : String) (rest : List String)
      → P line
      → All P rest
      → All P (if drops line rest then [] else line ∷ rest)
  pop_line-All line rest p h = elim (Bool-cases (drops line rest)) [
    | inl blank ↦ rw blank tt
    | inr full ↦ rw full (p, h)
  ]

  pub pop_blank-All : (lines : List String) → All P lines → All P (pop_blank lines)
  unfolding pop_blank
  pop_blank-All [] h = tt
  pop_blank-All (line ∷ lines) h = pop_line-All line (pop_blank lines) h.0 (pop_blank-All lines h.1)

pub pop_blank-append : (lines : List String) → pop_blank (lines ++ "" ∷ []) ≡ pop_blank lines
unfolding pop_blank strip nonempty
pop_blank-append [] = refl
pop_blank-append (line ∷ lines) = rw (pop_blank-append lines) refl

pop_line_idem :
    (line : String) (rest : List String)
    → pop_blank rest ≡ rest
    → pop_blank (if drops line rest then [] else line ∷ rest)
      ≡ (if drops line rest then [] else line ∷ rest)
unfolding pop_blank
pop_line_idem line rest h = elim (Bool-cases (drops line rest)) [
  | inl blank ↦ rw blank refl
  | inr full ↦ rw full (rw (h, full) refl)
]

pub pop_blank_idem : (lines : List String) → pop_blank (pop_blank lines) ≡ pop_blank lines
unfolding pop_blank
pop_blank_idem [] = refl
pop_blank_idem (line ∷ lines) = pop_line_idem line (pop_blank lines) (pop_blank_idem lines)

pub section-nonempty : (s : String) → is_section s ≡ true → nonempty s ≡ true
unfolding starts_with nonempty
section-nonempty String.[] h = cc
section-nonempty (String.◌∷◌ c s) h = refl

-- A section line is never trimmed.
pub trim-full : (s : String) (ss : List String) → nonempty s ≡ true → trim (s ∷ ss) ≡ s ∷ trim ss
unfolding trim
trim-full s ss h = full s (trim ss) h
  where
    full : (s : String) (rest : List String) → nonempty s ≡ true → kept_line s rest ≡ s ∷ rest
    full s [] h = rw h refl
    full s (t ∷ rest) h = refl

pub trim-All {ℓ} : (P : String → Type ℓ) (ss : List String) → All P ss → All P (trim ss)
unfolding trim
trim-All P [] h = tt
trim-All P (s ∷ ss) h = kept s (trim ss) h.0 (trim-All P ss h.1)
  where
    kept : (s : String) (rest : List String) → P s → All P rest → All P (kept_line s rest)
    kept s [] p h = elim (Bool-cases (nonempty s)) [
      | inl full ↦ rw full (p, tt)
      | inr empty ↦ rw empty tt
    ]
    kept s (t ∷ rest) p h = (p, h)

pub append_empty : (xs : List String) → xs ++ [] ≡ xs
append_empty [] = refl
append_empty (x ∷ xs) = ap (λ ys. x ∷ ys) (append_empty xs)

pub append_append : (xs ys zs : List String) → (xs ++ ys) ++ zs ≡ xs ++ (ys ++ zs)
append_append [] ys zs = refl
append_append (x ∷ xs) ys zs = ap (λ ws. x ∷ ws) (append_append xs ys zs)
