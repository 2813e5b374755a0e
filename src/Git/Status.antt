-- ===== src/Git/Status.antt =====
-- What git documents of `status --porcelain=v1 -z`, as a printer, and what `changed_paths` reads of it.
use Prim.Native.Char.{Char, code}
use logbook.Prelude.{
  has_no, split-plus, suc, String, ◌≡◌, refl, ap, ◌∙◌, Bool, true, false, ◌||◌, Option, none, some,
  List, [], ◌∷◌, ◌++◌, All, every, plus, eqb, ltb, size, split, nonempty, arith,
}
use logbook.Git.{is_rename_code, is_rename, also, drop_start, read_fields, changed_paths}

-- Two letters, the path, and the path before a rename or a copy.
pub record StatusEntry : Type 0 where
  pub x : Char
  pub y : Char
  pub path : String
  pub original : Option String

abbrev pub has_no_nul : String → Bool
has_no_nul = has_no 0

abbrev line : StatusEntry → String
line e = String.◌∷◌ e.x (String.◌∷◌ e.y (plus " " e.path))

-- A field of the output with its terminator, in front of the rest.
abbrev field : String → String → String
field s rest = plus s (plus "\0" rest)

abbrev second : Option String → String → String
second none rest = rest
second (some original) rest = field original rest

unfoldable pub print : List StatusEntry → String
print [] = ""
print (e ∷ es) = field (line e) (second e.original (print es))

abbrev behind : Option String → List String → List String
behind none rest = rest
behind (some original) rest = original ∷ rest

abbrev pub paths_of : StatusEntry → List String
paths_of e = e.path ∷ behind e.original []

unfoldable pub all_paths : List StatusEntry → List String
all_paths [] = []
all_paths (e ∷ es) = paths_of e ++ all_paths es

abbrev IsOriginal : Option String → Bool → Type 0
IsOriginal none renamed = renamed ≡ false
IsOriginal (some original) renamed = (renamed ≡ true) × (has_no_nul original ≡ true)

-- No NUL inside a field, a path that is not empty, and a second path exactly with an R or a C.
abbrev pub IsEntry : StatusEntry → Type 0
IsEntry e =
    (eqb (code e.x) 0 ≡ false)
    × (eqb (code e.y) 0 ≡ false)
    × (nonempty e.path ≡ true)
    × (has_no_nul e.path ≡ true)
    × IsOriginal e.original (is_rename_code (code e.x) || is_rename_code (code e.y))

split-field : (s rest : String) → has_no_nul s ≡ true → split 0 (field s rest) ≡ s ∷ split 0 rest
split-field s rest h = split-plus 0 "\0" s rest refl h

split-second :
    (o : Option String) (renamed : Bool) (rest : String)
    → IsOriginal o renamed
    → split 0 (second o rest) ≡ behind o (split 0 rest)
split-second none renamed rest h = refl
split-second (some original) renamed rest h = split-field original rest h.1

line-has_no_nul : (e : StatusEntry) → IsEntry e → has_no_nul (line e) ≡ true
unfolding every
line-has_no_nul e (x, y, _, p, _) = rw (x, y, p) refl

fields : List StatusEntry → List String
fields [] = "" ∷ []
fields (e ∷ es) = line e ∷ behind e.original (fields es)

split-empty : split 0 "" ≡ "" ∷ []
unfolding split
split-empty = refl

split-print : (es : List StatusEntry) → All IsEntry es → split 0 (print es) ≡ fields es
unfolding print fields
split-print [] h = split-empty
split-print (e ∷ es) h =
    split-field (line e) (second e.original (print es)) (line-has_no_nul e h.0)
    ∙ ap (λ fs. line e ∷ fs)
        (split-second e.original _ (print es) h.0.4 ∙ ap (behind e.original) (split-print es h.1))

read-plain :
    (r : String) (fs : List String)
    → ltb (size r) 4 ≡ false
    → is_rename r ≡ false
    → read_fields (r ∷ fs) ≡ also (drop_start 3 r) (read_fields fs)
unfolding read_fields
read-plain r [] h k = rw (h, k) refl
read-plain r (f ∷ fs) h k = rw (h, k) refl

line-size : (p : String) → nonempty p ≡ true → ltb (suc (suc (suc (size p)))) 4 ≡ false
unfolding size nonempty
line-size String.[] h = cc
line-size (String.◌∷◌ c p) h = ground arith

read-entry :
    (e : StatusEntry) (o : Option String) (fs ps : List String)
    → ltb (size (line e)) 4 ≡ false
    → IsOriginal o (is_rename_code (code e.x) || is_rename_code (code e.y))
    → read_fields fs ≡ some ps
    → read_fields (line e ∷ behind o fs) ≡ some (e.path ∷ behind o ps)
unfolding read_fields is_rename drop_start
read-entry e none fs ps l h k = rw (read_fields, read-plain (line e) fs l h, k) refl
read-entry e (some original) fs ps l h k = rw (l, h.0, k) refl

read-end : read_fields ("" ∷ []) ≡ some []
unfolding read_fields
read-end = refl

behind-append : (o : Option String) (ps : List String) → behind o ps ≡ behind o [] ++ ps
behind-append none ps = refl
behind-append (some original) ps = refl

read-fields :
    (es : List StatusEntry) → All IsEntry es → read_fields (fields es) ≡ some (all_paths es)
unfolding fields all_paths size
read-fields [] h = read-end
read-fields (e ∷ es) h =
    read-entry e e.original (fields es) (all_paths es) (line-size e.path h.0.2) h.0.4
      (read-fields es h.1)
    ∙ ap (λ ps. some (e.path ∷ ps)) (behind-append e.original (all_paths es))

-- The paths that are read of what git prints of a list of entries are the entries' paths, in order,
-- a renamed one with its original behind it.
pub changed_paths-print :
    (es : List StatusEntry) → All IsEntry es → changed_paths (print es) ≡ some (all_paths es)
unfolding changed_paths
changed_paths-print es h = ap read_fields (split-print es h) ∙ read-fields es h
