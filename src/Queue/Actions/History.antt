-- ===== src/Queue/Actions/History.antt =====
-- src/dbwiki/queue.py: histories of the operations of the two nodes.
use logbook.Prelude.{
  All, ℕ, zero, suc, String, ◌≡◌, refl, Bool, true, false, Option, none, some, List, [], ◌∷◌, inl,
  inr, subst, sym, if◌then◌else◌,
}
use logbook.Prelude.Dict.{get}
use logbook.Queue.Records.{
  RequestFile, Event, Wiki, read_records, max_request_attempts, max_claim_attempts,
  max_push_attempts,
}
use logbook.Queue.Select.{Pick, select_claim_target}
use logbook.Queue.Repo.{
  Repo, Error, Result, ok, err, Exec, pure, continue, ◌>>=◌, write_tree, Push, accepted, rejected,
  failed_push, Env, publish, publish_tree, publish_head, pull_rebase, push_round, push_rounds,
  move_to, or_raise,
}
use logbook.Queue.Actions.{
  Order, enqueue_request, Clock, reclaim_stale, publish_if_moved, Claimant, Claimed, settle,
  recheck, after_publish, claimed_rec, claim_round, claim_rounds, claim, push_if, complete,
  fail_request,
}
use logbook.Queue.Actions.Attempts.{
  IsQueue, enqueue-IsQueue, reclaim-IsQueue, claim-IsQueue, complete-IsQueue, fail-IsQueue,
  pick_attempts,
}

-- The working tree and HEAD are well formed.
pub record IsSound (r : Repo) : Type 0 where
  pub tree : IsQueue r.tree
  pub head : IsQueue r.head

-- Every tree that comes from the remote is well formed.
pub record IsTrusted (env : Env) : Type 0 where
  pub pulled : (w v : Wiki) → env.pull w ≡ some v → IsQueue v
  pub pushed : (n : ℕ) (w v : Wiki) → env.push n w ≡ rejected v → IsQueue v
  pub rebased : (u w v : Wiki) → env.rebase u w ≡ some v → IsQueue v

-- The action keeps the repository sound, whether it returns or raises.
record Keeps {A : Type 0} (m : Exec A) : Type 0 where
  at : (r : Repo) → IsSound r → IsSound (m r).1

module _ {A B : Type 0} where
  Keeps-continue : (a : Result A) (f : A → Exec B) → ((x : A) → Keeps (f x)) → Keeps (continue a f)
  Keeps-continue (ok x) f k = k x
  Keeps-continue (err e) f k = record { at = λ r h. h }

  Keeps-bind : (m : Exec A) (f : A → Exec B) → Keeps m → ((x : A) → Keeps (f x)) → Keeps (m >>= f)
  Keeps-bind m f km kf = record { at = λ r h. (Keeps-continue (m r).0 f kf).at (m r).1 (km.at r h) }

Keeps-pure : {A : Type 0} (x : A) → Keeps (pure x)
Keeps-pure x = record { at = λ r h. h }

Keeps-write : (f : Wiki → Wiki) → ((w : Wiki) → IsQueue w → IsQueue (f w)) → Keeps (write_tree f)
unfolding write_tree
Keeps-write f k = record { at = λ r h. record { tree = k r.tree h.tree; head = h.head } }

module _ (env : Env) (trusted : IsTrusted env) where
  Keeps-publish : Keeps (publish env)
  Keeps-publish = record {
    at = λ r h. record {
      tree = elim (publish_tree env r) [
        | inl e ↦ subst IsQueue (sym e) h.tree
        | inr e ↦ subst IsQueue (sym e) h.head
      ];
      head = elim (publish_head env r) [
        | inl e ↦ subst IsQueue (sym e) h.head
        | inr e ↦ subst IsQueue (sym e) h.tree
      ];
    };
  }

  Keeps-or_raise :
      (o : Option Wiki) (e : Error)
      → ((v : Wiki) → o ≡ some v → IsQueue v)
      → Keeps (or_raise env o e)
  unfolding or_raise move_to
  Keeps-or_raise none e k = record { at = λ r h. h }
  Keeps-or_raise (some v) e k = record { at = λ r h. record { tree = k v refl; head = k v refl } }

  Keeps-pull : Keeps (pull_rebase env)
  unfolding pull_rebase
  Keeps-pull = record {
    at = λ r h. (Keeps-or_raise (env.pull r.head) _ (trusted.pulled r.head)).at r h;
  }

  Keeps-push_round :
      (retry : Exec Unit) (n : ℕ) (w : Wiki) (p : Push)
      → Keeps retry
      → env.push n w ≡ p
      → Keeps (push_round env retry p)
  unfolding push_round
  Keeps-push_round retry n w accepted k e = record { at = λ r h. h }
  Keeps-push_round retry n w failed_push k e = record { at = λ r h. h }
  Keeps-push_round retry n w (rejected u) k e = record {
    at = λ r h.
        (Keeps-bind _ _ (Keeps-or_raise (env.rebase u r.head) _ (trusted.rebased u r.head))
            (λ _. k)).at
          r h;
  }

  Keeps-push_rounds : (n : ℕ) → Keeps (push_rounds env n)
  unfolding push_rounds
  Keeps-push_rounds zero = record { at = λ r h. h }
  Keeps-push_rounds (suc n) = record {
    at = λ r h.
        (Keeps-push_round (push_rounds env n) n r.head (env.push n r.head) (Keeps-push_rounds n)
            refl).at
          r h;
  }

  Keeps-push_if : (push : Bool) → Keeps (push_if env push)
  Keeps-push_if true = Keeps-push_rounds max_push_attempts
  Keeps-push_if false = Keeps-pure tt

  Keeps-if_moved : (names : List String) → Keeps (publish_if_moved env names)
  Keeps-if_moved [] = Keeps-pure []
  Keeps-if_moved (name ∷ names) = Keeps-bind _ _ Keeps-publish (λ _. Keeps-pure (name ∷ names))

  Keeps-reclaim : (c : Clock) → Keeps (reclaim_stale env c)
  unfolding reclaim_stale
  Keeps-reclaim c = record {
    at = λ r h. (Keeps-if_moved _).at _ (record {
      tree = reclaim-IsQueue c (read_records r.tree.claimed) r.tree h.tree;
      head = h.head;
    });
  }

  Keeps-recheck :
      (retry : Exec (Option Claimed)) (file : Option RequestFile)
      → Keeps retry
      → Keeps (recheck retry file)
  unfolding recheck
  Keeps-recheck retry none k = record { at = λ r h. h }
  Keeps-recheck retry (some f) k = record { at = k.at }

  Keeps-settle :
      (retry : Exec (Option Claimed)) (p : Pick) (won : Option Claimed) (n : ℕ) (w : Wiki)
      (push : Push)
      → Keeps retry
      → env.push n w ≡ push
      → Keeps (settle retry p won push)
  unfolding settle
  Keeps-settle retry p won n w accepted k e = record { at = λ r h. h }
  Keeps-settle retry p won n w failed_push k e = record { at = λ r h. h }
  Keeps-settle retry p won n w (rejected u) k e = record {
    at = λ r h.
        (Keeps-recheck retry (get u.pending p.name) k).at _
          (record { tree = trusted.pushed n w u e; head = trusted.pushed n w u e });
  }

  module _ (c : Claimant) where
    Keeps-after_publish :
        (retry : Exec (Option Claimed)) (p : Pick) (n : ℕ) (w : Wiki) (sha : Result (Option String))
        → Keeps retry
        → Keeps (after_publish retry c p (env.push n w) sha)
    unfolding after_publish
    Keeps-after_publish retry p n w (err e) k = record { at = λ r h. h }
    Keeps-after_publish retry p n w (ok none) k = record { at = λ r h. h }
    Keeps-after_publish retry p n w (ok (some sha)) k = record { at = λ r h. choose c.push r h }
      where
        choose :
            (b : Bool) (r : Repo)
            → IsSound r
            → IsSound
                (if b
                  then settle retry p (some (p.name, claimed_rec c.by c.now p)) (env.push n w) r
                  else (ok (some (p.name, claimed_rec c.by c.now p)), r)).1
        choose true r h = (Keeps-settle retry p _ n w (env.push n w) k refl).at r h
        choose false r h = h

    Keeps-claim_round :
        (retry : Exec (Option Claimed)) (n : ℕ) (o : Option Pick) (r : Repo)
        → Keeps retry
        → select_claim_target r.tree.pending c.kind ≡ o
        → IsSound r
        → IsSound (claim_round retry env c (env.push n) o r).1
    unfolding claim_round
    Keeps-claim_round retry n none r k e h = h
    Keeps-claim_round retry n (some p) r k e h = (Keeps-after_publish retry p n _ _ k).at _ (
        Keeps-publish.at _ (record {
          tree = claim-IsQueue c.by c.now p r.tree (pick_attempts r.tree c.kind p h.tree e) h.tree;
          head = h.head;
        }))

    Keeps-rounds : (n : ℕ) → Keeps (claim_rounds n env c)
    unfolding claim_rounds
    Keeps-rounds zero = record { at = λ r h. h }
    Keeps-rounds (suc n) = record {
      at = λ r h. Keeps-claim_round (claim_rounds n env c) n _ r (Keeps-rounds n) refl h;
    }

    Keeps-claim : (clock : Clock) → Keeps (claim env clock c)
    unfolding claim
    Keeps-claim clock =
        Keeps-bind _ _ (first c.push)
          (λ _. Keeps-bind _ _ (Keeps-reclaim clock) (λ _. Keeps-rounds max_claim_attempts))
      where
        first : (b : Bool) → Keeps (if b then pull_rebase env else pure tt)
        first true = Keeps-pull
        first false = Keeps-pure tt

-- One operation of one node, with what git and the remote answered during it.
pub data Op : Type 0 where
  enqueues : Env → String → Order → Op
  reclaims : Env → Clock → Op
  claims : Env → Clock → Claimant → Op
  completes : Env → Bool → String → String → Event → Claimed → Op
  fails : Env → Bool → String → String → String → Option Event → Claimed → Op

abbrev pub env_of : Op → Env
env_of (enqueues env _ _) = env
env_of (reclaims env _) = env
env_of (claims env _ _) = env
env_of (completes env _ _ _ _ _) = env
env_of (fails env _ _ _ _ _ _) = env

-- The repository after it, whether it returned or raised.
unfoldable pub run_op : Op → Repo → Repo
run_op (enqueues env now o) r = (enqueue_request env now o r).1
run_op (reclaims env c) r = (reclaim_stale env c r).1
run_op (claims env clock c) r = (claim env clock c r).1
run_op (completes env push now id telemetry c) r = (complete env push now id telemetry c r).1
run_op (fails env push now id category telemetry c) r =
    (fail_request env push max_request_attempts now id category telemetry c r).1

unfoldable pub run_ops : List Op → Repo → Repo
unfolding run_op
run_ops [] r = r
run_ops (op ∷ ops) r = run_ops ops (run_op op r)

run_op-IsSound : (op : Op) (r : Repo) → IsTrusted (env_of op) → IsSound r → IsSound (run_op op r)
unfolding run_op enqueue_request complete fail_request
run_op-IsSound (enqueues env now o) r t h =
    (Keeps-bind _ _ (Keeps-write _ (enqueue-IsQueue now o)) (λ _. Keeps-publish env t)).at r h
run_op-IsSound (reclaims env c) r t h = (Keeps-reclaim env t c).at r h
run_op-IsSound (claims env clock c) r t h = (Keeps-claim env t c clock).at r h
run_op-IsSound (completes env push now id telemetry c) r t h =
    (Keeps-bind _ _ (Keeps-write _ (complete-IsQueue now id telemetry c)) (λ _.
        Keeps-bind _ _ (Keeps-publish env t)
          (λ sha. Keeps-bind _ _ (Keeps-push_if env t push) (λ _. Keeps-pure sha)))).at
      r h
run_op-IsSound (fails env push now id category telemetry (name, rec)) r t h =
    (Keeps-bind _ _ (Keeps-write _ (fail-IsQueue now id category telemetry (name, rec))) (λ _.
        Keeps-bind _ _ (Keeps-publish env t)
          (λ sha. Keeps-bind _ _ (Keeps-push_if env t push) (λ _. Keeps-pure _)))).at
      r h

-- After any history of enqueues, reclaims, claims, completions and failures, successful or not, in
-- which whatever comes from the remote is well formed, the tree and HEAD are well formed: a pending
-- request has attempts left and no claim stamp, a claimed one has attempts left and a stamp, a
-- failed one has used its attempts up and has a category, and no directory holds a name twice.
pub run_ops-IsSound :
    (ops : List Op) (r : Repo)
    → All (λ op. IsTrusted (env_of op)) ops
    → IsSound r
    → IsSound (run_ops ops r)
unfolding run_ops
run_ops-IsSound [] r t h = h
run_ops-IsSound (op ∷ ops) r t h = run_ops-IsSound ops (run_op op r) t.1 (run_op-IsSound op r t.0 h)
