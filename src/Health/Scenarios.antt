-- ===== src/Health/Scenarios.antt =====
-- The capped log at a small cap.
use logbook.Prelude.{ℕ, ◌+◌, ◌≤◌, ◌≡◌, refl, ◌⊎◌, none, List, [], ◌∷◌, ◌++◌, length, drop}
use logbook.Health.{slack, append_all}
use logbook.Health.Bounds.{append_all-IsBounded}

abbrev numbers : List ℕ
numbers = 1 ∷ 2 ∷ 3 ∷ []

-- The cap and the slack are passed by the fifth line.
trims :
    (append_all 3 (record { lines = numbers; count = none }) (4 ∷ 5 ∷ [])).lines ≡ 3 ∷ 4 ∷ 5 ∷ []
unfolding append_all
trims = refl

append_all-IsBounded_example :
    let last = append_all 3 (record { lines = numbers; count = none }) (4 ∷ 5 ∷ []) in
    (length last.lines ≤ 3 + slack 3)
    × ((k : ℕ) × (last.lines ≡ drop k (numbers ++ 4 ∷ 5 ∷ []))
        × (k ≤ length (numbers ++ 4 ∷ 5 ∷ []))
        × ((k ≡ 0) ⊎ (3 ≤ length last.lines)))
append_all-IsBounded_example = append_all-IsBounded 3 numbers 4 (5 ∷ [])
