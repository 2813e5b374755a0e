-- ===== src/Git.antt =====
-- src/dbwiki/gitutil.py: what it reads of git's output. A text is the decoded output; a byte that is not UTF-8,
-- which the source carries along as a surrogate, is no character here.
pub mod Status
mod Scenarios
use Prim.Native.Char.{Char, code}
use logbook.Prelude.{
  ℕ, zero, suc, String, ◌≡◌, refl, Bool, true, false, not, ◌&&◌, ◌||◌, Option, none, some, List, [],
  ◌∷◌, filter, eqb, leb, ltb, size, split, nonempty, if◌then◌else◌,
}

-- `record[n:]`
unfoldable pub drop_start : ℕ → String → String
drop_start zero s = s
drop_start (suc n) String.[] = String.[]
drop_start (suc n) (String.◌∷◌ c s) = drop_start n s

-- `c in "RC"`
abbrev pub is_rename_code : ℕ → Bool
is_rename_code c = eqb c 82 || eqb c 67

-- `record[0] in "RC" or record[1] in "RC"`
unfoldable pub is_rename : String → Bool
is_rename String.[] = false
is_rename (String.◌∷◌ x String.[]) = false
is_rename (String.◌∷◌ x (String.◌∷◌ y s)) = is_rename_code (code x) || is_rename_code (code y)

abbrev pub also : String → Option (List String) → Option (List String)
also p none = none
also p (some ps) = some (p ∷ ps)

-- The loop over the fields; `none` is the `IndexError` of a rename without a second field.
unfoldable pub read_fields : List String → Option (List String)
unfolding size is_rename drop_start
read_fields [] = some []
read_fields (record_ ∷ []) =
    if ltb (size record_) 4
    then some []
    else if is_rename record_
    then none
    else some (drop_start 3 record_ ∷ [])
read_fields (record_ ∷ original ∷ fields) =
    let short = read_fields (original ∷ fields) in
    let both = read_fields fields in
    if ltb (size record_) 4
    then short
    else if is_rename record_
    then also (drop_start 3 record_) (also original both)
    else also (drop_start 3 record_) short

-- `changed_paths`, of the output of `git status --porcelain=v1 -z`
unfoldable pub changed_paths : String → Option (List String)
unfolding read_fields split
changed_paths out = read_fields (split 0 out)

-- `ls_tree`
unfoldable pub ls_tree : String → List String
unfolding filter split nonempty
ls_tree out = filter nonempty (split 0 out)

two_lines : changed_paths " M a.md\0?? b c.md\0" ≡ some ("a.md" ∷ "b c.md" ∷ [])
unfolding changed_paths
two_lines = refl

a_rename : changed_paths "R  new.md\0old\0" ≡ some ("new.md" ∷ "old" ∷ [])
unfolding changed_paths
a_rename = refl
