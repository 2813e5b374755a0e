-- ===== src/Prelude/Among.antt =====
-- `p in ps`, on texts.
use mathlib.Core.Path.{◌≡◌, refl, sym}
use mathlib.Core.Bool.{Bool, true, false, ◌&&◌, ◌||◌, false≢true}
use mathlib.Core.List.{List, [], ◌∷◌, ◌++◌, Memᴰ}
use native.Mathlib.Omega.{arith}
use Prim.Native.String.{String}
use text.Mathlib.Text.{◌==◌}
use text.Mathlib.TextEquality.{eq_iff}
use logbook.Prelude.Tests.{Bool-cases}
use mathlib.Core.Logic.{inl, inr}
use logbook.Prelude.Sort.{sorted, mem-sorted, mem_of_sorted}
use logbook.Prelude.Lists.{any, filter}

abbrev pub among : String → List String → Bool
among p ps = any (λ q. q == p) ps

pub among-append :
    (p : String) (xs ys : List String) → among p (xs ++ ys) ≡ (among p xs || among p ys)
among-append p [] ys = refl
among-append p (x ∷ xs) ys = ground (arith, among-append p xs ys)

pub among-filter :
    (p : String) (q : String → Bool) (xs : List String)
    → among p (filter q xs) ≡ (among p xs && q p)
unfolding filter
among-filter p q [] = refl
among-filter p q (x ∷ xs) = ground (arith, eq_iff x p, among-filter p q xs)

pub among_of_mem : (p : String) (ps : List String) → Memᴰ p ps → among p ps ≡ true
among_of_mem p [] m = elim m [ ]
among_of_mem p (q ∷ ps) (Memᴰ.head e) = ground (arith, eq_iff q p, sym e)
among_of_mem p (q ∷ ps) (Memᴰ.tail m) = ground (arith, among_of_mem p ps m)

pub mem_of_among : (p : String) (ps : List String) → among p ps ≡ true → Memᴰ p ps
mem_of_among p [] h = absurd (false≢true h)
mem_of_among p (q ∷ ps) h = elim (Bool-cases (q == p)) [
  | inl same ↦ Memᴰ.head (ground (arith, eq_iff q p))
  | inr other ↦ Memᴰ.tail (mem_of_among p ps (ground arith))
]

pub Bool_ext : {a b : Bool} → (a ≡ true → b ≡ true) → (b ≡ true → a ≡ true) → a ≡ b
Bool_ext {a = true} f g = sym (f refl)
Bool_ext {a = false} {b = true} f g = g refl
Bool_ext {a = false} {b = false} f g = refl

-- Sorting keeps what is in a list.
pub among-sorted :
    (le : String → String → Bool) (p : String) (ps : List String)
    → among p (sorted le ps) ≡ among p ps
among-sorted le p ps =
    Bool_ext (λ m. among_of_mem p ps (mem_of_sorted le p ps (mem_of_among p (sorted le ps) m)))
      (λ m. among_of_mem p (sorted le ps) (mem-sorted le p ps (mem_of_among p ps m)))
