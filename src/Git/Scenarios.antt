-- ===== src/Git/Scenarios.antt =====
-- The reading of git's status at a concrete output.
use logbook.Prelude.{◌≡◌, refl, none, some, List, [], ◌∷◌, nonempty, every}
use logbook.Git.{changed_paths}
use logbook.Git.Status.{StatusEntry, print, all_paths, changed_paths-print}

-- A change, and a rename.
abbrev two_entries : List StatusEntry
two_entries =
    record { x = " "; y = "M"; path = "a.md"; original = none }
    ∷ record { x = "R"; y = " "; path = "new page.md"; original = some "b" }
    ∷ []

printed : print two_entries ≡ " M a.md\0R  new page.md\0b\0"
unfolding print
printed = refl

changed_paths-print_example :
    changed_paths (print two_entries) ≡ some ("a.md" ∷ "new page.md" ∷ "b" ∷ [])
unfolding all_paths nonempty every
changed_paths-print_example =
    changed_paths-print two_entries
      ((refl, refl, refl, refl, refl), ((refl, refl, refl, refl, (refl, refl)), tt))
