-- ===== src/Prelude/Lists.antt =====
-- Lists over the native numbers, with Boolean tests, and predicates on them by recursion.
use Prim.Native.Nat.{ℕ, zero, suc}
use mathlib.Core.Path.{◌≡◌, refl, subst, sym, ap, ◌∙◌}
use mathlib.Core.Bool.{Bool, true, false, ◌||◌}
use mathlib.Core.Logic.{inl, inr}
use mathlib.Core.List.{List, [], ◌∷◌, ◌++◌, map, Memᴰ}
use logbook.Prelude.Tests.{if◌then◌else◌, Bool-cases}

module _ {ℓ} {A : Type ℓ} where
  abbrev pub length : List A → ℕ
  length [] = 0
  length (x ∷ xs) = suc (length xs)

  abbrev pub take : ℕ → List A → List A
  take zero xs = []
  take (suc n) [] = []
  take (suc n) (x ∷ xs) = x ∷ take n xs

  abbrev pub drop : ℕ → List A → List A
  drop zero xs = xs
  drop (suc n) [] = []
  drop (suc n) (x ∷ xs) = drop n xs

  abbrev pub any : (A → Bool) → List A → Bool
  any p [] = false
  any p (x ∷ xs) = p x || any p xs

  -- `[y for x in xs for y in f(x)]`
  abbrev pub flat_map {κ} : {B : Type κ} → (B → List A) → List B → List A
  flat_map f [] = []
  flat_map f (x ∷ xs) = f x ++ flat_map f xs

  -- Python's `[x for x in xs if p(x)]`.
  unfoldable pub filter : (A → Bool) → List A → List A
  filter p [] = []
  filter p (x ∷ xs) = let rest = filter p xs in if p x then x ∷ rest else rest

  abbrev pub All {κ} : (A → Type κ) → List A → Type κ
  All P [] = Unit
  All P (x ∷ xs) = P x × All P xs

  pub All-map {κ κ'} :
      {P : A → Type κ} {Q : A → Type κ'} (f : (x : A) → P x → Q x) (xs : List A)
      → All P xs
      → All Q xs
  All-map f [] h = tt
  All-map f (x ∷ xs) h = (f x h.0, All-map f xs h.1)

module _ {ℓ κ} {A : Type ℓ} (P : A → Type κ) where
  pub All-append : (xs ys : List A) → All P xs → All P ys → All P (xs ++ ys)
  All-append [] ys hx hy = hy
  All-append (x ∷ xs) ys hx hy = (hx.0, All-append xs ys hx.1 hy)

  pub All-filter : (p : A → Bool) (xs : List A) → All P xs → All P (filter p xs)
  unfolding filter
  All-filter p [] h = tt
  All-filter p (x ∷ xs) h = elim (Bool-cases (p x)) [
    | inl holds ↦ rw holds (h.0, All-filter p xs h.1)
    | inr fails ↦ rw fails (All-filter p xs h.1)
  ]

  -- What holds of the entries that pass holds of every entry, on the condition that it passes.
  pub All_of_filter :
      (p : A → Bool) (xs : List A) → All P (filter p xs) → All (λ x. p x ≡ true → P x) xs
  unfolding filter
  All_of_filter p [] h = tt
  All_of_filter p (x ∷ xs) h = elim (Bool-cases (p x)) [
    | inl holds ↦
        let k : All P (x ∷ filter p xs) = rw holds at h in ((λ _. k.0), All_of_filter p xs k.1)
    | inr fails ↦ ((λ e. cc), All_of_filter p xs (rw fails at h))
  ]

  pub All-at : {x : A} (xs : List A) → All P xs → Memᴰ x xs → P x
  All-at [] h m = elim m [ ]
  All-at (y ∷ xs) h (Memᴰ.head e) = subst P (sym e) h.0
  All-at (y ∷ xs) h (Memᴰ.tail m) = All-at xs h.1 m

pub All-mem {ℓ} : {A : Type ℓ} (xs : List A) → All (λ x. Memᴰ x xs) xs
All-mem [] = tt
All-mem (x ∷ xs) = (Memᴰ.head refl, All-map (λ y m. Memᴰ.tail m) xs (All-mem xs))

module _ {ℓ} {A : Type ℓ} (p : A → Bool) where
  pub filter-passes : (xs : List A) → All (λ x. p x ≡ true) (filter p xs)
  unfolding filter
  filter-passes [] = tt
  filter-passes (x ∷ xs) = elim (Bool-cases (p x)) [
    | inl holds ↦ rw holds (holds, filter-passes xs)
    | inr fails ↦ rw fails (filter-passes xs)
  ]

  pub mem-filter : (x : A) (xs : List A) → Memᴰ x xs → p x ≡ true → Memᴰ x (filter p xs)
  unfolding filter
  mem-filter x [] m h = elim m [ ]
  mem-filter x (y ∷ ys) (Memᴰ.head e) h = rw (ap p (sym e) ∙ h) (Memᴰ.head e)
  mem-filter x (y ∷ ys) (Memᴰ.tail m) h = elim (Bool-cases (p y)) [
    | inl holds ↦ rw holds (Memᴰ.tail (mem-filter x ys m h))
    | inr fails ↦ rw fails (mem-filter x ys m h)
  ]

  mem_of_cons :
      (x y : A) (ys zs : List A)
      → (Memᴰ x zs → Memᴰ x ys × (p x ≡ true))
      → p y ≡ true
      → Memᴰ x (y ∷ zs)
      → Memᴰ x (y ∷ ys) × (p x ≡ true)
  mem_of_cons x y ys zs more holds (Memᴰ.head e) = (Memᴰ.head e, ap p e ∙ holds)
  mem_of_cons x y ys zs more holds (Memᴰ.tail m) = let r = more m in (Memᴰ.tail r.0, r.1)

  pub mem_of_filter : (x : A) (xs : List A) → Memᴰ x (filter p xs) → Memᴰ x xs × (p x ≡ true)
  unfolding filter
  mem_of_filter x [] m = elim m [ ]
  mem_of_filter x (y ∷ ys) m = elim (Bool-cases (p y)) [
    | inl holds ↦ mem_of_cons x y ys (filter p ys) (mem_of_filter x ys) holds (rw holds at m)
    | inr fails ↦ let r = mem_of_filter x ys (rw fails at m) in (Memᴰ.tail r.0, r.1)
  ]

-- A filter on an append, behind a map, and where every entry passes or fails.
module _ {ℓ} {A : Type ℓ} (p : A → Bool) where
  pub filter-append : (xs ys : List A) → filter p (xs ++ ys) ≡ filter p xs ++ filter p ys
  unfolding filter
  filter-append [] ys = refl
  filter-append (x ∷ xs) ys = elim (Bool-cases (p x)) [
    | inl holds ↦ rw holds (ap (λ zs. x ∷ zs) (filter-append xs ys))
    | inr fails ↦ rw fails (filter-append xs ys)
  ]

  pub filter-map :
      {B : Type ℓ} (f : B → A) (q : B → Bool)
      → ((y : B) → p (f y) ≡ q y)
      → (ys : List B) → filter p (map f ys) ≡ map f (filter q ys)
  unfolding filter
  filter-map f q same [] = refl
  filter-map f q same (y ∷ ys) = elim (Bool-cases (q y)) [
    | inl holds ↦ rw (same y, holds) (ap (λ zs. f y ∷ zs) (filter-map f q same ys))
    | inr fails ↦ rw (same y, fails) (filter-map f q same ys)
  ]

  pub filter-all : (xs : List A) → All (λ x. p x ≡ true) xs → filter p xs ≡ xs
  unfolding filter
  filter-all [] h = refl
  filter-all (x ∷ xs) h = rw h.0 (ap (λ zs. x ∷ zs) (filter-all xs h.1))

  pub filter-none : (xs : List A) → All (λ x. p x ≡ false) xs → filter p xs ≡ []
  unfolding filter
  filter-none [] h = refl
  filter-none (x ∷ xs) h = rw h.0 (filter-none xs h.1)
