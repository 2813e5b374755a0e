-- ===== src/Prelude/Dict.antt =====
-- A directory of files, or a dictionary with text keys: an association list with one entry for
-- each key, the newest first. Its order is never read without sorting.
use mathlib.Core.Path.{◌≡◌, refl}
use mathlib.Core.Bool.{false}
use mathlib.Core.Logic.{inl, inr}
use mathlib.Core.Option.{Option, none, some}
use mathlib.Core.List.{List, [], ◌∷◌, Memᴰ}
use native.Mathlib.Omega.{arith}
use Prim.Native.String.{String}
use text.Mathlib.Text.{◌==◌}
use text.Mathlib.TextEquality.{eq_iff}
use logbook.Prelude.Tests.{if◌then◌else◌, Bool-cases}
use logbook.Prelude.Lists.{All, All-at}

abbrev pub Dict {ℓ} : Type ℓ → Type ℓ
Dict V = List (String × V)

module _ {ℓ} {V : Type ℓ} where
  -- `d.get(k)`
  unfoldable pub get : Dict V → String → Option V
  get [] k = none
  get ((j, v) ∷ d) k = if j == k then some v else get d k

  -- `del d[k]`, and `unlink(missing_ok=True)` of a file
  unfoldable pub remove : Dict V → String → Dict V
  remove [] k = []
  remove ((j, v) ∷ d) k = let rest = remove d k in if j == k then rest else (j, v) ∷ rest

  -- `d[k] = v`, and a write of a whole file
  unfoldable pub put : Dict V → String → V → Dict V
  unfolding remove
  put d k v = (k, v) ∷ remove d k

  pub get-remove :
      (d : Dict V) (k j : String) → get (remove d k) j ≡ (if k == j then none else get d j)
  unfolding get remove
  get-remove [] k j = ground arith
  get-remove ((i, v) ∷ d) k j = ground (arith, eq_iff i k, eq_iff i j, eq_iff k j, get-remove d k j)

  pub get-put :
      (d : Dict V) (k j : String) (v : V) → get (put d k v) j ≡ (if k == j then some v else get d j)
  unfolding get put
  get-put d k j v = ground (arith, get-remove d k j)

  pub get-empty : (k : String) → get [] k ≡ none
  unfolding get
  get-empty k = refl

  -- No key twice.
  abbrev pub Absent : String → Dict V → Type 0
  Absent k d = All (λ e. (e.0 == k) ≡ false) d

  abbrev pub Distinct : Dict V → Type 0
  Distinct [] = Unit
  Distinct ((k, v) ∷ d) = Absent k d × Distinct d

  pub Absent-get : (k : String) (d : Dict V) → Absent k d → get d k ≡ none
  unfolding get
  Absent-get k [] h = refl
  Absent-get k ((j, v) ∷ d) h = rw h.0 (Absent-get k d h.1)

  pub remove-Absent : (k : String) (d : Dict V) → Absent k (remove d k)
  unfolding remove
  remove-Absent k [] = tt
  remove-Absent k ((j, v) ∷ d) = elim (Bool-cases (j == k)) [
    | inl same ↦ rw same (remove-Absent k d)
    | inr other ↦ rw other (other, remove-Absent k d)
  ]

  pub mem_of_get :
      (dir : Dict V) (name : String) (f : V) → get dir name ≡ some f → Memᴰ (name, f) dir
  unfolding get
  mem_of_get [] name f e = cc
  mem_of_get ((n, g) ∷ dir) name f e = elim (Bool-cases (n == name)) [
    | inl same ↦ Memᴰ.head (ground (arith, eq_iff n name))
    | inr other ↦ Memᴰ.tail (mem_of_get dir name f (ground arith))
  ]

  pub get_of_mem :
      (dir : Dict V) (name : String) (f : V)
      → Distinct dir
      → Memᴰ (name, f) dir
      → get dir name ≡ some f
  unfolding get
  get_of_mem [] name f h m = elim m [ ]
  get_of_mem ((n, g) ∷ dir) name f h (Memᴰ.head e) = ground (arith, eq_iff n name)
  get_of_mem ((n, g) ∷ dir) name f h (Memᴰ.tail m) = elim (Bool-cases (n == name)) [
    | inl same ↦
        let fresh : (name == n) ≡ false = All-at (λ e. (e.0 == n) ≡ false) dir h.0 m in
        ground (arith, eq_iff n name, eq_iff name n)
    | inr other ↦ rw other (get_of_mem dir name f h.1 m)
  ]

module _ {ℓ κ} {V : Type ℓ} (P : String × V → Type κ) where
  pub remove-All : (d : Dict V) (k : String) → All P d → All P (remove d k)
  unfolding remove
  remove-All [] k h = tt
  remove-All ((j, v) ∷ d) k h = elim (Bool-cases (j == k)) [
    | inl same ↦ rw same (remove-All d k h.1)
    | inr other ↦ rw other (h.0, remove-All d k h.1)
  ]

  pub put-All : (d : Dict V) (k : String) (v : V) → P (k, v) → All P d → All P (put d k v)
  unfolding put
  put-All d k v p h = (p, remove-All d k h)

module _ {ℓ} {V : Type ℓ} where
  pub remove-Distinct : (d : Dict V) (k : String) → Distinct d → Distinct (remove d k)
  unfolding remove
  remove-Distinct [] k h = tt
  remove-Distinct ((j, v) ∷ d) k h = elim (Bool-cases (j == k)) [
    | inl same ↦ rw same (remove-Distinct d k h.1)
    | inr other ↦ rw other (remove-All _ d k h.0, remove-Distinct d k h.1)
  ]

  pub put-Distinct : (d : Dict V) (k : String) (v : V) → Distinct d → Distinct (put d k v)
  unfolding put
  put-Distinct d k v h = (remove-Absent k d, remove-Distinct d k h)

pub ruleset dict_laws = (get-empty, get-remove, get-put)
