-- ===== src/Prelude/Sort.antt =====
-- Python's stable `sorted(xs, key=key)`, generic in the comparison.
use mathlib.Core.Path.{◌≡◌, refl, sym, subst}
use mathlib.Core.Logic.{◌⊎◌, inl, inr}
use mathlib.Core.Bool.{Bool, true, false}
use mathlib.Core.List.{List, [], ◌∷◌, Perm, Memᴰ}
use mathlib.Core.List.Perm
use logbook.Prelude.Tests.{if◌then◌else◌, Bool-cases}
use logbook.Prelude.Lists.{All, All-map, All-at, All-mem}

module _ {ℓ} {A : Type ℓ} (le : A → A → Bool) where
  -- `x` goes before the first entry that it is no greater than, so equal entries keep their order.
  insort : A → List A → List A
  insort x [] = x ∷ []
  insort x (y ∷ ys) = let rest = y ∷ insort x ys in if le x y then x ∷ y ∷ ys else rest

  unfoldable pub sorted : List A → List A
  unfolding insort
  sorted [] = []
  sorted (x ∷ xs) = insort x (sorted xs)

  insort-perm : (x : A) (ys : List A) → Perm (insort x ys) (x ∷ ys)
  unfolding insort
  insort-perm x [] = Perm.refl (x ∷ [])
  insort-perm x (y ∷ ys) = elim (Bool-cases (le x y)) [
    | inl le ↦ rw le (Perm.refl (x ∷ y ∷ ys))
    | inr gt ↦ rw gt (Perm.trans (Perm.cons y (insort-perm x ys)) (Perm.swap x y ys))
  ]

  -- A sorted list holds the same entries, as often.
  pub sorted-perm : (xs : List A) → Perm (sorted xs) xs
  unfolding sorted
  sorted-perm [] = Perm.nil
  sorted-perm (x ∷ xs) = Perm.trans (insort-perm x (sorted xs)) (Perm.cons x (sorted-perm xs))

  abbrev pub IsSorted : List A → Type ℓ
  IsSorted [] = Unit
  IsSorted (x ∷ xs) = All (λ y. le x y ≡ true) xs × IsSorted xs

  mem-insort_self : (x : A) (ys : List A) → Memᴰ x (insort x ys)
  unfolding insort
  mem-insort_self x [] = Memᴰ.head refl
  mem-insort_self x (y ∷ ys) = elim (Bool-cases (le x y)) [
    | inl below ↦ rw below (Memᴰ.head refl)
    | inr above ↦ rw above (Memᴰ.tail (mem-insort_self x ys))
  ]

  mem-insort : (x a : A) (ys : List A) → Memᴰ a ys → Memᴰ a (insort x ys)
  unfolding insort
  mem-insort x a [] m = elim m [ ]
  mem-insort x a (y ∷ ys) (Memᴰ.head e) = elim (Bool-cases (le x y)) [
    | inl below ↦ rw below (Memᴰ.tail (Memᴰ.head e))
    | inr above ↦ rw above (Memᴰ.head e)
  ]
  mem-insort x a (y ∷ ys) (Memᴰ.tail m) = elim (Bool-cases (le x y)) [
    | inl below ↦ rw below (Memᴰ.tail (Memᴰ.tail m))
    | inr above ↦ rw above (Memᴰ.tail (mem-insort x a ys m))
  ]

  -- Sorting loses no entry.
  pub mem-sorted : (a : A) (xs : List A) → Memᴰ a xs → Memᴰ a (sorted xs)
  unfolding sorted
  mem-sorted a [] m = elim m [ ]
  mem-sorted a (x ∷ xs) (Memᴰ.head e) =
      subst (λ y. Memᴰ y (insort x (sorted xs))) (sym e) (mem-insort_self x (sorted xs))
  mem-sorted a (x ∷ xs) (Memᴰ.tail m) = mem-insort x a (sorted xs) (mem-sorted a xs m)

module _ {ℓ κ} {A : Type ℓ} (le : A → A → Bool) (P : A → Type κ) where
  insort-All : (x : A) (ys : List A) → P x → All P ys → All P (insort le x ys)
  unfolding insort
  insort-All x [] h hs = (h, tt)
  insort-All x (y ∷ ys) h hs = elim (Bool-cases (le x y)) [
    | inl le ↦ rw le (h, hs)
    | inr gt ↦ rw gt (hs.0, insort-All x ys h hs.1)
  ]

  pub sorted-All : (xs : List A) → All P xs → All P (sorted le xs)
  unfolding sorted
  sorted-All [] h = tt
  sorted-All (x ∷ xs) h = insort-All x (sorted le xs) h.0 (sorted-All xs h.1)

  All-insort : (x : A) (ys : List A) → All P (insort le x ys) → P x × All P ys
  unfolding insort
  All-insort x [] h = h
  All-insort x (y ∷ ys) h = elim (Bool-cases (le x y)) [
    | inl le ↦ rw le at h
    | inr gt ↦
        let k : All P (y ∷ insort le x ys) = rw gt at h in
        let (hx, hs) = All-insort x ys k.1 in (hx, (k.0, hs))
  ]

  pub All_of_sorted : (xs : List A) → All P (sorted le xs) → All P xs
  unfolding sorted
  All_of_sorted [] h = tt
  All_of_sorted (x ∷ xs) h =
      let (hx, hs) = All-insort x (sorted le xs) h in (hx, All_of_sorted xs hs)

pub mem_of_sorted {ℓ} :
    {A : Type ℓ} (le : A → A → Bool) (a : A) (xs : List A) → Memᴰ a (sorted le xs) → Memᴰ a xs
mem_of_sorted le a xs =
    All-at (λ x. Memᴰ x xs) (sorted le xs) (sorted-All le (λ x. Memᴰ x xs) xs (All-mem xs))

module _ {ℓ} {A : Type ℓ} (le : A → A → Bool)
    (total : (x y : A) → (le x y ≡ true) ⊎ (le y x ≡ true))
    (trans : (x y z : A) → le x y ≡ true → le y z ≡ true → le x z ≡ true) where
  insort-IsSorted : (x : A) (ys : List A) → IsSorted le ys → IsSorted le (insort le x ys)
  unfolding insort
  insort-IsSorted x [] h = (tt, tt)
  insort-IsSorted x (y ∷ ys) h = elim (Bool-cases (le x y)) [
    | inl below ↦ rw below ((below, All-map (λ z. trans x y z below) ys h.0), h)
    | inr above ↦
        rw above
          (insort-All le (λ z. le y z ≡ true) x ys (other above) h.0, insort-IsSorted x ys h.1)
  ]
    where
      other : le x y ≡ false → le y x ≡ true
      other above = elim (total x y) [ inl below ↦ cc | inr h ↦ h ]

  -- Sorting by a total preorder sorts.
  pub sorted-IsSorted : (xs : List A) → IsSorted le (sorted le xs)
  unfolding sorted
  sorted-IsSorted [] = tt
  sorted-IsSorted (x ∷ xs) = insort-IsSorted x (sorted le xs) (sorted-IsSorted xs)
