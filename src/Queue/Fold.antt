-- ===== src/Queue/Fold.antt =====
-- src/dbwiki/queue.py, `fold_results`, and the capped agent-run log of src/dbwiki/health.py that it
-- appends to. Whether a log append, a `git rm` and the commit succeed are arguments.
pub mod Once
pub mod Files
use logbook.Prelude.{
  ℕ, zero, suc, ◌+◌, ◌-◌, ◌/◌, max, String, Bool, true, false, Option, none, some, List, [], ◌∷◌,
  ◌++◌, ◌==◌, ◌||◌, any, length, drop, leb, sorted, text_leb, if◌then◌else◌,
}
use logbook.Prelude.Dict.{Dict, get, put, remove}
use logbook.Queue.Records.{Event, ResultFile, unreadable, no_object, event, Wiki}
use logbook.Queue.Repo.{Repo, Error, Result, ok, err, fold_failed}

abbrev pub max_agent_events : ℕ
max_agent_events = 5000

-- `if eid`: a missing id and the empty text are no id.
unfoldable pub truthy_id : Option String → Option String
truthy_id none = none
truthy_id (some id) = if id == "" then none else some id

unfoldable pub id_of : Event → Option String
unfolding truthy_id
id_of e = truthy_id e.event_id

abbrev add_id : Option String → List String → List String
add_id none ids = ids
add_id (some id) ids = id ∷ ids

-- `known_agent_event_ids`
unfoldable pub known_ids : List Event → List String
known_ids [] = []
known_ids (e ∷ log) = add_id (id_of e) (known_ids log)

-- `_append_and_trim`: past the cap and its slack only the newest `cap` lines stay.
unfoldable pub append_and_trim : ℕ → List Event → Event → List Event
append_and_trim cap log e =
    let lines = log ++ e ∷ [] in
    if leb (length lines) (cap + max (cap / 10) 1) then lines else drop (length lines - cap) lines

-- `append_agent_run_event`: a failure to record is swallowed.
unfoldable pub append_agent_run_event : (Event → Bool) → List Event → Event → List Event
unfolding append_and_trim
append_agent_run_event recorded log e =
    if recorded e then append_and_trim max_agent_events log e else log

pub record FoldEnv : Type 0 where
  pub recorded : Event → Bool
  pub removes : String → Bool
  pub commits : Bool

-- The variables of the loop; `staged` says that a tracked file has been removed from the index.
pub record Folding : Type 0 where
  pub results : Dict ResultFile
  pub log : List Event
  pub known : List String
  pub folded : ℕ
  pub staged : Bool

abbrev pub is_known : Option String → List String → Bool
is_known none known = false
is_known (some id) known = any (λ k. k == id) known

-- `if not (event_id and event_id in known)`
unfoldable pub fold_event : FoldEnv → Event → Folding → Folding
unfolding append_agent_run_event
fold_event env e s = if is_known (id_of e) s.known then s else record s {
  log = append_agent_run_event env.recorded s.log e;
  known = add_id (id_of e) s.known;
  folded = s.folded + 1;
}

abbrev pub present {ℓ} : {A : Type ℓ} → Option A → Bool
present none = false
present (some a) = true

-- `git rm --ignore-unmatch` and `unlink`
unfoldable pub drop_file : Dict ResultFile → String → Folding → Folding
drop_file tracked name s = record s {
  results = remove s.results name;
  staged = s.staged || present (get tracked name);
}

-- One file: the state after it, and whether the loop goes on. A file that is no event is left.
unfoldable pub fold_file :
    FoldEnv → Dict ResultFile → String × ResultFile → Folding → Bool × Folding
unfolding fold_event drop_file
fold_file env tracked (name, unreadable) s = (true, s)
fold_file env tracked (name, no_object) s = (true, s)
fold_file env tracked (name, event e) s =
    let s' = fold_event env e s in
    if env.removes name then (true, drop_file tracked name s') else (false, s')

-- The loop, up to the first raise.
unfoldable pub fold_files :
    FoldEnv → Dict ResultFile → List (String × ResultFile) → Folding → Bool × Folding
unfolding fold_file
fold_files env tracked [] s = (true, s)
fold_files env tracked (f ∷ files) s =
    let (goes_on, s') = fold_file env tracked f s in
    let rest = fold_files env tracked files s' in if goes_on then rest else (false, s')

abbrev keep_tracked : String → Option ResultFile → Dict ResultFile → Dict ResultFile
keep_tracked name none rest = rest
keep_tracked name (some f) rest = (name, f) ∷ rest

-- `git commit -- queue/results`: the tracked files, with what the working tree holds of them.
unfoldable pub commit_tracked : Dict ResultFile → Dict ResultFile → Dict ResultFile
commit_tracked tree [] = []
commit_tracked tree ((name, f) ∷ tracked) =
    keep_tracked name (get tree name) (commit_tracked tree tracked)

-- `git reset` and `git checkout -- queue/results`: every tracked file is back as committed.
unfoldable pub restore_tracked : Dict ResultFile → Dict ResultFile → Dict ResultFile
restore_tracked tree [] = tree
restore_tracked tree ((name, f) ∷ tracked) = put (restore_tracked tree tracked) name f

-- What the caller sees: the count or the raise, the repository, and the log.
pub record Folded : Type 0 where
  pub answer : Result ℕ
  pub repo : Repo
  pub log : List Event

abbrev with_results : Wiki → Dict ResultFile → Wiki
with_results w results = record w { results = results }

-- The `except`: restore, and raise again.
unfoldable pub undo_fold : Repo → Folding → Folded
unfolding restore_tracked
undo_fold r s = record {
  answer = err fold_failed;
  repo = record r { tree = with_results r.tree (restore_tracked s.results r.head.results) };
  log = s.log;
}

unfoldable pub end_fold : FoldEnv → Repo → Bool × Folding → Folded
unfolding undo_fold commit_tracked
end_fold env r (false, s) = undo_fold r s
end_fold env r (true, s) =
    if s.staged
    then (if env.commits
        then record {
          answer = ok s.folded;
          repo = record {
            tree = with_results r.tree s.results;
            head = with_results r.head (commit_tracked s.results r.head.results);
          };
          log = s.log;
        }
        else undo_fold r s)
    else record {
      answer = ok s.folded;
      repo = record r { tree = with_results r.tree s.results };
      log = s.log;
    }

abbrev pub file_le : String × ResultFile → String × ResultFile → Bool
file_le a b = text_leb a.0 b.0

unfoldable pub start_fold : Repo → List Event → Folding
start_fold r log = record {
  results = r.tree.results;
  log = log;
  known = known_ids log;
  folded = 0;
  staged = false;
}

-- With no file in `queue/results/` the loop has nothing to do and the answer is 0. The push at the
-- end is best effort and changes nothing here.
unfoldable pub fold_results : FoldEnv → Repo → List Event → Folded
unfolding fold_files end_fold start_fold
fold_results env r log =
    end_fold env r
      (fold_files env r.head.results (sorted file_le r.tree.results) (start_fold r log))
