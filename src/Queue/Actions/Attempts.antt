-- ===== src/Queue/Actions/Attempts.antt =====
-- src/dbwiki/queue.py: the attempts and the stamps of the requests in a tree of the queue.
use logbook.Prelude.{
  ◌+◌, ◌≤◌, ◌<◌, String, ◌≡◌, ◌≢◌, refl, Option, none, some, List, [], ◌∷◌, All, leb, Bool-cases,
  inl, inr, arith, sorted-All, All-at, leb→le, leb-false→lt,
}
use logbook.Prelude.Dict.{
  Dict, mem_of_get, remove, put-All, remove-All, Distinct, put-Distinct, remove-Distinct,
}
use logbook.Queue.Records.{
  Request, RequestFile, corrupt, request, Event, Wiki, Named, parsed, name_le, created_le,
  read_records, max_request_attempts,
}
use logbook.Queue.Select.{Pick, select_claim_target}
use logbook.Queue.Select.Oldest.{select-IsOldestDay}
use logbook.Queue.Actions.{
  remove_all, Order, new_request, file_name, enqueue_tree, count_attempt, give_back, Clock,
  is_stale, reclaim_each, claimed_rec, claim_tree, Claimed, complete_tree, fail_tree,
}

-- `P` of the request in a file, if it parses.
abbrev pub OfFile : (Request → Type 0) → String × RequestFile → Type 0
OfFile P (name, corrupt) = Unit
OfFile P (name, request rec) = P rec

abbrev pub Waits : Request → Type 0
Waits rec =
    (rec.attempts < max_request_attempts) × (rec.claimed_by ≡ none) × (rec.claimed_at ≡ none)

abbrev pub IsTaken : Request → Type 0
IsTaken rec =
    (rec.attempts < max_request_attempts) × (rec.claimed_by ≢ none) × (rec.claimed_at ≢ none)

abbrev pub GaveUp : Request → Type 0
GaveUp rec = (max_request_attempts ≤ rec.attempts) × (rec.error_category ≢ none)

-- A pending request has attempts left and no claim stamp, a claimed one has attempts left and a
-- stamp, a failed one has used its attempts up and says why; and no directory holds a name twice.
pub record IsQueue (w : Wiki) : Type 0 where
  pub waiting : All (OfFile Waits) w.pending
  pub taken : All (OfFile IsTaken) w.claimed
  pub given_up : All (OfFile GaveUp) w.failed
  pub pending_names : Distinct w.pending
  pub claimed_names : Distinct w.claimed
  pub failed_names : Distinct w.failed

remove_all-All :
    (P : String × RequestFile → Type 0) (names : List String) (d : Dict RequestFile)
    → All P d
    → All P (remove_all d names)
unfolding remove_all
remove_all-All P [] d h = h
remove_all-All P (name ∷ names) d h = remove_all-All P names (remove d name) (remove-All P d name h)

remove_all-Distinct :
    (names : List String) (d : Dict RequestFile) → Distinct d → Distinct (remove_all d names)
unfolding remove_all
remove_all-Distinct [] d h = h
remove_all-Distinct (name ∷ names) d h =
    remove_all-Distinct names (remove d name) (remove-Distinct d name h)

parsed-All :
    (P : Request → Type 0) (d : Dict RequestFile) → All (OfFile P) d → All (λ e. P e.1) (parsed d)
unfolding parsed
parsed-All P [] h = tt
parsed-All P ((name, corrupt) ∷ d) h = parsed-All P d h.1
parsed-All P ((name, request rec) ∷ d) h = (h.0, parsed-All P d h.1)

pub read_records-All :
    (P : Request → Type 0) (d : Dict RequestFile)
    → All (OfFile P) d
    → All (λ e. P e.1) (read_records d)
unfolding read_records
read_records-All P d h =
    sorted-All created_le _ _ (parsed-All P _ (sorted-All name_le (OfFile P) d h))

pub enqueue-IsQueue :
    (now : String) (o : Order) (w : Wiki) → IsQueue w → IsQueue (enqueue_tree now o w)
unfolding enqueue_tree new_request
enqueue-IsQueue now o w h = record {
  waiting = remove_all-All (OfFile Waits) _ _ (
      put-All (OfFile Waits) w.pending (file_name o) (request (new_request now o))
        (omega arith, refl, refl) h.waiting);
  taken = h.taken;
  given_up = h.given_up;
  pending_names = remove_all-Distinct _ _ (put-Distinct w.pending _ _ h.pending_names);
  claimed_names = h.claimed_names;
  failed_names = h.failed_names;
}

-- A claimed request that is counted waits again, or is given up.
give_back-IsQueue :
    (name category : String) (rec : Request) (w : Wiki)
    → IsQueue w
    → IsQueue (give_back name (count_attempt max_request_attempts category rec) w)
unfolding give_back count_attempt
give_back-IsQueue name category rec w h =
    elim (Bool-cases (leb max_request_attempts (rec.attempts + 1))) [
      | inl over ↦ rw over (record {
        waiting = h.waiting;
        taken = remove-All (OfFile IsTaken) w.claimed name h.taken;
        given_up = put-All (OfFile GaveUp) w.failed name _ (leb→le _ _ over, λ e. cc) h.given_up;
        pending_names = h.pending_names;
        claimed_names = remove-Distinct w.claimed name h.claimed_names;
        failed_names = put-Distinct w.failed name _ h.failed_names;
      })
      | inr more ↦ rw more (record {
        waiting =
            put-All (OfFile Waits) w.pending name _ (leb-false→lt _ _ more, refl, refl) h.waiting;
        taken = remove-All (OfFile IsTaken) w.claimed name h.taken;
        given_up = h.given_up;
        pending_names = put-Distinct w.pending name _ h.pending_names;
        claimed_names = remove-Distinct w.claimed name h.claimed_names;
        failed_names = h.failed_names;
      })
    ]

pub reclaim-IsQueue :
    (c : Clock) (es : List Named) (w : Wiki) → IsQueue w → IsQueue (reclaim_each c es w).0
unfolding reclaim_each
reclaim-IsQueue c [] w h = h
reclaim-IsQueue c ((name, rec) ∷ es) w h = elim (Bool-cases (is_stale c rec)) [
  | inl old ↦ rw old (reclaim-IsQueue c es _ (give_back-IsQueue name "stale_claim" rec w h))
  | inr fresh ↦ rw fresh (reclaim-IsQueue c es w h)
]

pub claim-IsQueue :
    (by now : String) (p : Pick) (w : Wiki)
    → p.rec.attempts < max_request_attempts
    → IsQueue w
    → IsQueue (claim_tree by now p w)
unfolding claim_tree claimed_rec
claim-IsQueue by now p w left h = record {
  waiting =
      remove_all-All (OfFile Waits) p.older _
        (remove-All (OfFile Waits) w.pending p.name h.waiting);
  taken = put-All (OfFile IsTaken) w.claimed p.name _ (left, (λ e. cc), (λ e. cc)) h.taken;
  given_up = h.given_up;
  pending_names = remove_all-Distinct p.older _ (remove-Distinct w.pending p.name h.pending_names);
  claimed_names = put-Distinct w.claimed p.name _ h.claimed_names;
  failed_names = h.failed_names;
}

pub complete-IsQueue :
    (now event_id : String) (telemetry : Event) (c : Claimed) (w : Wiki)
    → IsQueue w
    → IsQueue (complete_tree now event_id telemetry c w)
unfolding complete_tree
complete-IsQueue now event_id telemetry (name, rec) w h = record {
  waiting = h.waiting;
  taken = remove-All (OfFile IsTaken) w.claimed name h.taken;
  given_up = h.given_up;
  pending_names = h.pending_names;
  claimed_names = remove-Distinct w.claimed name h.claimed_names;
  failed_names = h.failed_names;
}

pub fail-IsQueue :
    (now event_id category : String) (telemetry : Option Event) (c : Claimed) (w : Wiki)
    → IsQueue w
    → IsQueue (fail_tree max_request_attempts now event_id category telemetry c w)
unfolding fail_tree
fail-IsQueue now event_id category telemetry (name, rec) w h =
    let k = give_back-IsQueue name category rec w h in
    record {
      waiting = k.waiting;
      taken = k.taken;
      given_up = k.given_up;
      pending_names = k.pending_names;
      claimed_names = k.claimed_names;
      failed_names = k.failed_names;
    }

-- A picked request has attempts left.
pub pick_attempts :
    (w : Wiki) (kind : Option String) (p : Pick)
    → IsQueue w
    → select_claim_target w.pending kind ≡ some p
    → p.rec.attempts < max_request_attempts
pick_attempts w kind p h e =
    let at = (select-IsOldestDay w.pending kind p h.pending_names e).pending in
    (All-at (OfFile Waits) w.pending h.waiting (mem_of_get w.pending p.name (request p.rec) at)).0
