-- ===== src/Queue/Select.antt =====
-- src/dbwiki/queue.py, `_supersede_targets` and `_select_claim_target`.
pub mod Groups
pub mod Picks
pub mod Oldest
use logbook.Prelude.{
  ℕ, String, Bool, true, false, Option, none, some, List, [], ◌∷◌, ◌++◌, map, ◌==◌, ◌&&◌, ◌||◌, not,
  sorted, filter, text_leb, text_ltb, if◌then◌else◌,
}
use logbook.Prelude.Dict.{Dict}
use logbook.Queue.Records.{Request, RequestFile, Named, read_records, created_le}

unfoldable pub supersede_targets : Dict RequestFile → String → String → String → List String
supersede_targets pending kind day keep =
    map (λ e. e.0)
      (filter (λ e. e.1.kind == kind && e.1.day == day && not (e.0 == keep)) (read_records pending))

-- `kind is not None and rec.get("kind") != kind` skips a record.
abbrev pub wanted : Option String → Request → Bool
wanted none rec = true
wanted (some kind) rec = rec.kind == kind

abbrev pub Key : Type 0
Key = String × String

abbrev pub key : Named → Key
key e = (e.1.kind, e.1.day)

abbrev pub same_key : Key → Key → Bool
same_key a b = a.0 == b.0 && a.1 == b.1

-- The groups are a dictionary in insertion order.
abbrev pub Group : Type 0
Group = Key × List Named

-- `groups.setdefault((kind, day), []).append((name, rec))`
unfoldable pub add_to_groups : List Group → Named → List Group
add_to_groups [] e = (key e, e ∷ []) ∷ []
add_to_groups ((k, members) ∷ groups) e =
    let rest = add_to_groups groups e in
    if same_key k (key e) then (k, members ++ e ∷ []) ∷ groups else (k, members) ∷ rest

-- The loop over the records; a record of another kind than the asked one is passed over.
unfoldable pub groups_of : Option String → List Group → List Named → List Group
groups_of kind groups [] = groups
groups_of kind groups (e ∷ es) =
    groups_of kind (if wanted kind e.1 then add_to_groups groups e else groups) es

pub record Pick : Type 0 where
  pub name : String
  pub rec : Request
  pub older : List String

-- `members[:-1]` and `members[-1]`.
unfoldable pub split_last : Named → List Named → List Named × Named
split_last x [] = ([], x)
split_last x (y ∷ ys) = let (before, newest) = split_last y ys in (x ∷ before, newest)

-- The pick of one sorted group. No group is empty, so the first clause is not met.
unfoldable pub pick_sorted : List Named → Option Pick
unfolding split_last
pick_sorted [] = none
pick_sorted (x ∷ xs) =
    let (before, newest) = split_last x xs in
    some (record { name = newest.0; rec = newest.1; older = map (λ e. e.0) before })

unfoldable pub pick_of : Group → Option Pick
unfolding pick_sorted
pick_of (k, members) = pick_sorted (sorted created_le members)

-- `rank < best[0]`, on `(day, created_at)`.
unfoldable pub rank_ltb : Request → Request → Bool
rank_ltb a b = text_ltb a.day b.day || (a.day == b.day && text_ltb a.created_at b.created_at)

-- `if best is None or rank < best[0]`
unfoldable pub better : Option Pick → Option Pick → Option Pick
unfolding rank_ltb
better best none = best
better none (some p) = some p
better (some best) (some p) = some (if rank_ltb p.rec best.rec then p else best)

unfoldable pub best_of : Option Pick → List Group → Option Pick
unfolding better pick_of
best_of best [] = best
best_of best (g ∷ gs) = best_of (better best (pick_of g)) gs

unfoldable pub select_claim_target : Dict RequestFile → Option String → Option Pick
unfolding groups_of best_of
select_claim_target pending kind = best_of none (groups_of kind [] (read_records pending))
