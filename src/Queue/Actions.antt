-- ===== src/Queue/Actions.antt =====
-- src/dbwiki/queue.py: what the two nodes do to the queue. The clock, the event ids, the parser of
-- stamps (`strptime`) and the actor's name are arguments.
pub mod Attempts
pub mod Races
pub mod Supersede
pub mod Reclaim
pub mod History
use logbook.Prelude.{
  ℕ, zero, suc, ◌+◌, String, Bool, true, false, Option, none, some, List, [], ◌∷◌, ◌++◌, ltb, leb,
  sorted, concat, text_leb, if◌then◌else◌, ◌==◌,
}
use logbook.Prelude.Dict.{Dict, get, put, remove}
use logbook.Queue.Records.{
  Request, RequestFile, corrupt, request, Event, ResultFile, event, Wiki, Named, read_records,
  schema_version, max_claim_attempts, max_request_attempts, max_push_attempts,
}
use logbook.Queue.Select.{supersede_targets, Pick, select_claim_target}
use logbook.Queue.Repo.{
  Repo, Error, Result, ok, err, Exec, pure, raise, ◌>>=◌, ◌>>◌, write_tree, Push, accepted,
  rejected, failed_push, Env, publish, move_to, pull_rebase, push_rounds, push_failed,
}

-- `unlink(missing_ok=True)` for each name.
unfoldable pub remove_all {ℓ} : {V : Type ℓ} → Dict V → List String → Dict V
remove_all dir [] = dir
remove_all dir (name ∷ names) = remove_all (remove dir name) names

-- What the on-prem node hands to `enqueue_request`.
pub record Order : Type 0 where
  pub run_id : String
  pub kind : String
  pub day : String
  pub suffix : String
  pub window : String × String
  pub notable_dbs : List String
  pub prompt : String

-- `f"{kind}-{day}{suffix}-{run_id}.json"`
unfoldable pub file_name : Order → String
file_name o = concat (o.kind ∷ "-" ∷ o.day ∷ o.suffix ∷ "-" ∷ o.run_id ∷ ".json" ∷ [])

unfoldable pub new_request : String → Order → Request
new_request now o = record {
  schema_version = schema_version;
  kind = o.kind;
  run_id = o.run_id;
  day = o.day;
  suffix = o.suffix;
  window = o.window;
  notable_dbs = sorted text_leb o.notable_dbs;
  created_at = now;
  attempts = 0;
  prompt = o.prompt;
  claimed_by = none;
  claimed_at = none;
  error_category = none;
}

unfoldable pub enqueue_tree : String → Order → Wiki → Wiki
unfolding file_name new_request
enqueue_tree now o w =
    let name = file_name o in
    let superseded = supersede_targets w.pending o.kind o.day name in
    record w { pending = remove_all (put w.pending name (request (new_request now o))) superseded }

-- The push inside `_publish` is best effort and changes nothing here.
unfoldable pub enqueue_request : Env → String → Order → Exec (Option String)
unfolding enqueue_tree
enqueue_request env now o = do write_tree (enqueue_tree now o); publish env

-- One more attempt; below the limit the claim stamp is cleared, at the limit the category is set.
-- The first component says whether the request goes to `failed/`.
unfoldable pub count_attempt : ℕ → String → Request → Bool × Request
count_attempt limit category rec =
    let attempts = rec.attempts + 1 in
    if leb limit attempts
    then (true, record rec { attempts = attempts; error_category = some category })
    else (false, record rec { attempts = attempts; claimed_by = none; claimed_at = none })

-- The claimed file goes, and the counted record is written where it belongs.
unfoldable pub give_back : String → Bool × Request → Wiki → Wiki
give_back name (true, rec) w = record w {
  claimed = remove w.claimed name;
  failed = put w.failed name (request rec);
}
give_back name (false, rec) w = record w {
  claimed = remove w.claimed name;
  pending = put w.pending name (request rec);
}

-- The times of `reclaim_stale`: seconds, and the stamp parser, `none` for a stamp that does not parse.
pub record Clock : Type 0 where
  pub seconds_of : String → Option ℕ
  pub now : ℕ
  pub stale_after : ℕ

-- Not (`age is None or age <= stale_hours`). An absent stamp does not parse either.
unfoldable pub is_stale : Clock → Request → Bool
is_stale c rec = elim rec.claimed_at [
  | none ↦ false
  | some stamp ↦ elim (c.seconds_of stamp) [
    | none ↦ false
    | some at ↦ ltb (at + c.stale_after) c.now
  ]
]

-- The loop of `reclaim_stale`: the tree after it, and the names moved.
unfoldable pub reclaim_each : Clock → List Named → Wiki → Wiki × List String
unfolding is_stale count_attempt give_back
reclaim_each c [] w = (w, [])
reclaim_each c ((name, rec) ∷ rest) w =
    let moved = give_back name (count_attempt max_request_attempts "stale_claim" rec) w in
    let (w', names) = reclaim_each c rest (if is_stale c rec then moved else w) in
    (w', if is_stale c rec then name ∷ names else names)

abbrev publish_if_moved : Env → List String → Exec (List String)
publish_if_moved env [] = pure []
publish_if_moved env (name ∷ names) = do publish env; pure (name ∷ names)

unfoldable pub reclaim_stale : Env → Clock → Exec (List String)
unfolding reclaim_each
reclaim_stale env c r =
    let (w, moved) = reclaim_each c (read_records r.tree.claimed) r.tree in
    publish_if_moved env moved (record r { tree = w })

unfoldable pub claimed_rec : String → String → Pick → Request
claimed_rec by now p = record p.rec { claimed_by = some by; claimed_at = some now }

-- The chosen file and the older ones leave `pending/`; the stamped record enters `claimed/`.
unfoldable pub claim_tree : String → String → Pick → Wiki → Wiki
unfolding claimed_rec
claim_tree by now p w = record w {
  pending = remove_all (remove w.pending p.name) p.older;
  claimed = put w.claimed p.name (request (claimed_rec by now p));
}

-- Who claims: the name and the stamp, the kind asked for, and whether there is a remote.
pub record Claimant : Type 0 where
  pub by : String
  pub now : String
  pub kind : Option String
  pub push : Bool

-- `{"_file": fname, **record}`
abbrev pub Claimed : Type 0
Claimed = Named

-- `if not (pending_dir / fname).exists()`: by the file in the resynced `pending/`.
unfoldable pub recheck : Exec (Option Claimed) → Option RequestFile → Exec (Option Claimed)
recheck retry none r = (ok none, r)
recheck retry (some file) r = retry r

-- The end of a round, by the reply to the push. On a rejection the local commit is thrown away and
-- the tree becomes the remote's: if the file has left `pending/` there, another claim was first.
unfoldable pub settle : Exec (Option Claimed) → Pick → Option Claimed → Push → Exec (Option Claimed)
unfolding recheck
settle retry p won accepted r = (ok won, r)
settle retry p won failed_push r = (err push_failed, r)
settle retry p won (rejected upstream) r =
    recheck retry (get upstream.pending p.name) (record { tree = upstream; head = upstream })

-- The round after `_publish`; with no sha the picked file has vanished.
unfoldable pub after_publish :
    Exec (Option Claimed) → Claimant → Pick → Push → Result (Option String) → Exec (Option Claimed)
unfolding settle claimed_rec
after_publish retry c p push (err e) r = (err e, r)
after_publish retry c p push (ok none) r = (ok none, r)
after_publish retry c p push (ok (some sha)) r =
    let won : Option Claimed = some (p.name, claimed_rec c.by c.now p) in
    if c.push then settle retry p won push r else (ok won, r)

unfoldable pub claim_round :
    Exec (Option Claimed) → Env → Claimant → (Wiki → Push) → Option Pick → Exec (Option Claimed)
unfolding after_publish claim_tree
claim_round retry env c push none r = (ok none, r)
claim_round retry env c push (some p) r =
    let (sha, r') = publish env (record r { tree = claim_tree c.by c.now p r.tree }) in
    after_publish retry c p (push r'.head) sha r'

-- The loop of `claim`, by the number of rounds left.
unfoldable pub claim_rounds : ℕ → Env → Claimant → Exec (Option Claimed)
unfolding claim_round
claim_rounds zero env c r = (ok none, r)
claim_rounds (suc n) env c r =
    claim_round (claim_rounds n env c) env c (env.push n)
      (select_claim_target r.tree.pending c.kind) r

unfoldable pub claim : Env → Clock → Claimant → Exec (Option Claimed)
claim env clock c = do
  if c.push then pull_rebase env else pure tt
  reclaim_stale env clock
  claim_rounds max_claim_attempts env c

unfoldable pub result_name : String → String → String
result_name run_id event_id = concat (run_id ∷ "-" ∷ event_id ∷ ".json" ∷ [])

unfoldable pub complete_tree : String → String → Event → Claimed → Wiki → Wiki
unfolding result_name
complete_tree now event_id telemetry (name, rec) w = record w {
  claimed = remove w.claimed name;
  results =
      put w.results (result_name rec.run_id event_id)
        (event (record telemetry { event_id = some event_id; at = now }));
}

abbrev push_if : Env → Bool → Exec Unit
push_if env push = if push then push_rounds env max_push_attempts else pure tt

unfoldable pub complete : Env → Bool → String → String → Event → Claimed → Exec (Option String)
unfolding complete_tree
complete env push now event_id telemetry claimed = do
  write_tree (complete_tree now event_id telemetry claimed)
  sha ← publish env
  push_if env push
  pure sha

-- The telemetry of a terminal failure, when the caller brings some.
unfoldable pub fail_results :
    Bool → String → String → String → Option Event → Request → Dict ResultFile → Dict ResultFile
unfolding result_name
fail_results true now event_id category (some telemetry) rec results =
    put results (result_name rec.run_id event_id) (
      event
        (record telemetry { event_id = some event_id; at = now; error_category = some category }))
fail_results terminal now event_id category telemetry rec results = results

unfoldable pub fail_tree : ℕ → String → String → String → Option Event → Claimed → Wiki → Wiki
unfolding count_attempt give_back fail_results
fail_tree limit now event_id category telemetry (name, rec) w =
    let counted = count_attempt limit category rec in
    let w' = give_back name counted w in
    record w' { results = fail_results counted.0 now event_id category telemetry rec w'.results }

unfoldable pub fail_request :
    Env
    → Bool
    → ℕ
    → String
    → String
    → String
    → Option Event
    → Claimed
    → Exec (Bool × Request × Option String)
unfolding fail_tree
fail_request env push limit now event_id category telemetry (name, rec) = do
  write_tree (fail_tree limit now event_id category telemetry (name, rec))
  sha ← publish env
  push_if env push
  let counted = count_attempt limit category rec
  pure (counted.0, counted.1, sha)
