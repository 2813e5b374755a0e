-- ===== src/Prelude/Split.antt =====
-- What `s.split(mark)` gives of a text, piece by piece.
use Prim.Native.Char.{Char, code}
use Prim.Native.Nat.{ℕ}
use Prim.Native.String.{String}
use mathlib.Core.Path.{◌≡◌, refl, subst}
use mathlib.Core.Bool.{Bool, true, false, not}
use mathlib.Core.List.{List, [], ◌∷◌}
use mathlib.Core.Logic.{◌≢◌, inl, inr}
use native.Mathlib.Omega.{arith}
use logbook.Prelude.Tests.{eqb, Bool-cases}
use logbook.Prelude.Lists.{All}
use logbook.Prelude.Words.{every, plus, split}

-- A text without a mark.
abbrev pub has_no : ℕ → String → Bool
has_no mark = every λ c. not (eqb c mark)

-- A piece, the mark behind it, and the rest.
pub split-plus :
    (mark : ℕ) (m : Char) (s rest : String)
    → eqb (code m) mark ≡ true
    → has_no mark s ≡ true
    → split mark (plus s (String.◌∷◌ m rest)) ≡ s ∷ split mark rest
unfolding split every
split-plus mark m String.[] rest h k = rw h refl
split-plus mark m (String.◌∷◌ c s) rest h k =
    let e : eqb (code c) mark ≡ false = ground arith in
    rw (e, split-plus mark m s rest h (ground arith)) refl

pub split-one : (mark : ℕ) (s : String) → has_no mark s ≡ true → split mark s ≡ s ∷ []
unfolding split every
split-one mark String.[] h = refl
split-one mark (String.◌∷◌ c s) h =
    let e : eqb (code c) mark ≡ false = ground arith in rw (e, split-one mark s (ground arith)) refl

-- The pieces have no mark, and there is one at least.
AreFree : ℕ → List String → Type 0
AreFree mark [] = ⊥
AreFree mark (s ∷ ss) = (has_no mark s ≡ true) × All (λ t. has_no mark t ≡ true) ss

before_mark :
    (mark : ℕ) (c : Char) (ss : List String)
    → eqb (code c) mark ≡ false
    → AreFree mark ss
    → AreFree mark
        (elim ss [ [] ↦ String.◌∷◌ c String.[] ∷ [] | t ∷ parts ↦ String.◌∷◌ c t ∷ parts ])
unfolding AreFree every
before_mark mark c [] e h = absurd h
before_mark mark c (t ∷ ts) e h = (ground (arith, h.0), h.1)

free_all : (mark : ℕ) (ss : List String) → AreFree mark ss → All (λ t. has_no mark t ≡ true) ss
unfolding AreFree
free_all mark [] h = absurd h
free_all mark (s ∷ ss) h = h

split-AreFree : (mark : ℕ) (s : String) → AreFree mark (split mark s)
unfolding split AreFree every
split-AreFree mark String.[] = (refl, tt)
split-AreFree mark (String.◌∷◌ c s) = elim (Bool-cases (eqb (code c) mark)) [
  | inl here ↦ rw here (refl, free_all mark (split mark s) (split-AreFree mark s))
  | inr other ↦ rw other (before_mark mark c (split mark s) other (split-AreFree mark s))
]

pub split-has_no : (mark : ℕ) (s : String) → All (λ t. has_no mark t ≡ true) (split mark s)
split-has_no mark s = free_all mark (split mark s) (split-AreFree mark s)

pub split-full : (mark : ℕ) (s : String) → split mark s ≢ []
unfolding AreFree
split-full mark s e = subst (AreFree mark) e (split-AreFree mark s)
