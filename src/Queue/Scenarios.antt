-- ===== src/Queue/Scenarios.antt =====
-- src/dbwiki/queue.py on a small queue: two requests of one day and one of another, a stale claim and a
-- fresh one, and result files with events.
use logbook.Prelude.{
  ℕ, zero, suc, String, ◌≡◌, ◌≢◌, refl, subst, ap, false≢true, eq_iff, true, none, some, List, [],
  ◌∷◌, ◌==◌, ◌&&◌, sorted, text_leb, text_ltb, arith, if◌then◌else◌,
}
use logbook.Prelude.Dict.{Dict, get, Distinct}
use mathlib.Core.Option.{get_or}
use logbook.Queue.Records.{
  Request, RequestFile, corrupt, request, Event, unreadable, event, Wiki, read_records,
}
use logbook.Queue.Select.{Pick, select_claim_target, add_to_groups}
use logbook.Queue.Repo.{Repo, ok, committed, Push, accepted, rejected, Env}
use logbook.Queue.Actions.{
  Order, Clock, Claimant, claim, reclaim_each, enqueue_tree, file_name, new_request, claim_tree,
}
use logbook.Queue.Fold.{FoldEnv, fold_results, id_of, known_ids}
use logbook.Queue.Select.Oldest.{IsOldestDay, select-IsOldestDay}
use logbook.Queue.Actions.Attempts.{IsQueue}
use logbook.Queue.Actions.History.{IsSound, IsTrusted, Op, run_ops, run_ops-IsSound}
use logbook.Queue.Actions.Races.{IsWon, claim-IsWon}
use logbook.Queue.Actions.Reclaim.{IsOverdue, IsGivenBack, reclaim_exact}
use logbook.Queue.Actions.Supersede.{enqueue-supersedes, claim-moves}
use logbook.Queue.Fold.Once.{IdsOnce, AllOld, fold-IdsOnce, fold_replay}
use logbook.Queue.Fold.Files.{fold_takes_events}

abbrev waiting : String → String → String → Request
waiting run_id day created = record {
  schema_version = 1;
  kind = "daily-ingest";
  run_id = run_id;
  day = day;
  suffix = "";
  window = ("", "");
  notable_dbs = [];
  created_at = created;
  attempts = 0;
  prompt = "ingest";
  claimed_by = none;
  claimed_at = none;
  error_category = none;
}

abbrev first : Request
first = waiting "r1" "2026-08-05" "2026-08-06T01:00:00Z"

abbrev again : Request
again = waiting "r2" "2026-08-05" "2026-08-06T02:00:00Z"

abbrev later : Request
later = waiting "r3" "2026-08-06" "2026-08-07T01:00:00Z"

abbrev old_claim : Request
old_claim = record (waiting "r0" "2026-08-01" "2026-08-02T01:00:00Z") {
  claimed_by = some "node";
  claimed_at = some "long ago";
}

abbrev pending : Dict RequestFile
pending =
    ("a.json", request first)
    ∷ ("b.json", request again)
    ∷ ("c.json", request later)
    ∷ ("d.json", corrupt)
    ∷ []

abbrev found_event : Event
found_event = record {
  event_id = some "e1";
  at = "2026-08-06T03:00:00Z";
  error_category = none;
  body = "{}";
}

abbrev new_event : Event
new_event = record {
  event_id = some "e2";
  at = "2026-08-06T04:00:00Z";
  error_category = none;
  body = "{}";
}

abbrev wiki : Wiki
wiki = record {
  pending = pending;
  claimed = ("z.json", request old_claim) ∷ [];
  failed = [];
  results =
      ("r1-e1.json", event found_event)
      ∷ ("r2-e2.json", event new_event)
      ∷ ("bad.json", unreadable)
      ∷ [];
  pages = [];
}

abbrev repo : Repo
repo = record { tree = wiki; head = wiki }

-- The remote has moved to `wiki` by the first push, and takes the second.
abbrev replies : ℕ → Push
replies (suc (suc zero)) = rejected wiki
replies n = accepted

abbrev env : Env
env = record {
  verdict = λ r. committed "abc";
  pull = λ w. some wiki;
  push = λ n head. replies n;
  rebase = λ u w. some wiki;
}

abbrev clock : Clock
clock = record {
  seconds_of = λ stamp. if stamp == "long ago" then some 0 else none;
  now = 100000;
  stale_after = 21600;
}

abbrev claimant : Claimant
claimant = record { by = "agent"; now = "2026-08-07T05:00:00Z"; kind = none; push = true }

abbrev order : Order
order = record {
  run_id = "r9";
  kind = "daily-ingest";
  day = "2026-08-05";
  suffix = "";
  window = ("", "");
  notable_dbs = "cdb1" ∷ [];
  prompt = "again";
}

abbrev picked : Pick
picked = record { name = "b.json"; rec = again; older = "a.json" ∷ [] }

distinct : Distinct pending
distinct = ((refl, (refl, (refl, tt))), ((refl, (refl, tt)), ((refl, tt), (tt, tt))))

is_queue : IsQueue wiki
is_queue = record {
  waiting = (
    (omega arith, refl, refl),
    ((omega arith, refl, refl), ((omega arith, refl, refl), (tt, tt))),
  );
  taken = ((omega arith, (λ e. cc), (λ e. cc)), tt);
  given_up = tt;
  pending_names = distinct;
  claimed_names = (tt, tt);
  failed_names = tt;
}

picks : select_claim_target pending none ≡ some picked
unfolding select_claim_target read_records sorted text_leb add_to_groups text_ltb
picks = refl

no_review : select_claim_target pending (some "weekly-review") ≡ none
unfolding select_claim_target read_records sorted text_leb add_to_groups text_ltb
no_review = refl

at_first : get pending "a.json" ≡ some (request first)
unfolding get
at_first = refl

select-IsOldestDay_example : IsOldestDay pending none picked
select-IsOldestDay_example = select-IsOldestDay pending none picked distinct picks

at_claim : get wiki.claimed "z.json" ≡ some (request old_claim)
unfolding get
at_claim = refl

at_result : get wiki.results "r1-e1.json" ≡ some (event found_event)
unfolding get
at_result = refl

other_name : "a.json" ≢ file_name order
unfolding file_name
other_name e = false≢true ((eq_iff "a.json" (file_name order)).1 e)

-- A day of the two nodes: an order, a claim that loses its first race, and a failure of what it holds.
abbrev ops : List Op
ops =
    Op.enqueues env "2026-08-07T04:00:00Z" order
    ∷ Op.claims env clock claimant
    ∷ Op.fails env true "2026-08-07T06:00:00Z" "e3" "timeout" (some new_event) ("b.json", again)
    ∷ []

some_queue : (v : Wiki) → some wiki ≡ some v → IsQueue v
some_queue v e = subst IsQueue (ap (λ o. get_or o wiki) e) is_queue

abbrev upstream : Push → Wiki
upstream (rejected v) = v
upstream p = wiki

pushed_queue : (n : ℕ) (v : Wiki) → replies n ≡ rejected v → IsQueue v
pushed_queue zero v e = cc
pushed_queue (suc zero) v e = cc
pushed_queue (suc (suc zero)) v e = subst IsQueue (ap upstream e) is_queue
pushed_queue (suc (suc (suc n))) v e = cc

trusted : IsTrusted env
trusted = record {
  pulled = λ w v. some_queue v;
  pushed = λ n w. pushed_queue n;
  rebased = λ u w v. some_queue v;
}

run_ops-IsSound_example : IsSound (run_ops ops repo)
run_ops-IsSound_example =
    run_ops-IsSound ops repo (trusted, (trusted, (trusted, tt)))
      (record { tree = is_queue; head = is_queue })

claim-IsWon_example : IsWon env claimant (claim env clock claimant repo)
claim-IsWon_example = claim-IsWon env claimant clock repo

reclaim_exact_example :
    let w' = (reclaim_each clock (read_records wiki.claimed) wiki).0 in
    (IsOverdue clock old_claim → IsGivenBack "z.json" old_claim w')
    × ((¬ IsOverdue clock old_claim) → get w'.claimed "z.json" ≡ some (request old_claim))
reclaim_exact_example = reclaim_exact clock wiki "z.json" old_claim (tt, tt) at_claim

enqueue-supersedes_example :
    (get (enqueue_tree "2026-08-06T05:00:00Z" order wiki).pending (file_name order)
      ≡ some (request (new_request "2026-08-06T05:00:00Z" order)))
    × ((name : String) (rec : Request)
        → get wiki.pending name ≡ some (request rec)
        → name ≢ file_name order
        → get (enqueue_tree "2026-08-06T05:00:00Z" order wiki).pending name
          ≡ (if rec.kind == order.kind && rec.day == order.day then none else some (request rec)))
enqueue-supersedes_example = enqueue-supersedes "2026-08-06T05:00:00Z" order wiki distinct

claim-moves_example :
    let w' = claim_tree "agent" "now" picked wiki in
    (get w'.pending "a.json" ≡ none)
    × (get w'.claimed "a.json" ≡ get wiki.claimed "a.json")
    × (w'.failed ≡ [])
    × (w'.results ≡ wiki.results)
    × (w'.pages ≡ [])
claim-moves_example = claim-moves "agent" "now" picked wiki "a.json"

abbrev fold_env : FoldEnv
fold_env = record { recorded = λ e. true; removes = λ name. true; commits = true }

-- `git rm` fails on the second file.
abbrev broken_env : FoldEnv
broken_env = record { recorded = λ e. true; removes = λ name. name == "r1-e1.json"; commits = true }

fold-IdsOnce_example : IdsOnce (fold_results fold_env repo (found_event ∷ [])).log
fold-IdsOnce_example = fold-IdsOnce fold_env repo (found_event ∷ []) (tt, tt)

abbrev both_events : List Event
both_events = found_event ∷ new_event ∷ []

all_old : AllOld both_events wiki.results
unfolding id_of known_ids
all_old = (refl, (refl, (tt, tt)))

fold_replay_example : (fold_results fold_env repo both_events).log ≡ both_events
fold_replay_example = fold_replay fold_env repo both_events all_old

ends : (fold_results fold_env repo (found_event ∷ [])).answer ≡ ok 1
unfolding fold_results sorted text_leb id_of known_ids get
ends = refl

fold_takes_events_example :
    get (fold_results fold_env repo (found_event ∷ [])).repo.tree.results "r1-e1.json" ≡ none
fold_takes_events_example =
    fold_takes_events fold_env repo (found_event ∷ []) 1 "r1-e1.json" found_event ends at_result

-- The first push is rejected, and the picked file still waits in the remote's tree.
