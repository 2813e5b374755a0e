-- ===== src/Queue/Actions/Races.antt =====
-- src/dbwiki/queue.py: `claim`, which may race another node for a request.
use logbook.Prelude.{
  ℕ, zero, suc, String, ◌≡◌, refl, ◌⊎◌, inl, inr, false, Option, none, some, eq_refl, Bool-cases,
  if◌then◌else◌,
}
use logbook.Prelude.Dict.{get, get-put}
use logbook.Queue.Records.{RequestFile, request, Wiki, max_claim_attempts}
use logbook.Queue.Select.{Pick, select_claim_target}
use logbook.Queue.Repo.{
  Repo, Result, ok, err, Exec, Push, accepted, rejected, failed_push, Env, publish,
  publish_keeps_tree, publish_committed, pull_rebase, pure, continue, ◌>>=◌,
}
use logbook.Queue.Actions.{
  Claimant, Claimed, Clock, claimed_rec, claim_tree, settle, recheck, after_publish, claim_round,
  claim_rounds, reclaim_stale, claim,
}

claimed_now :
    (by now : String) (p : Pick) (w : Wiki)
    → get (claim_tree by now p w).claimed p.name ≡ some (request (claimed_rec by now p))
unfolding claim_tree
claimed_now by now p w = rw (get-put, eq_refl)

module _ (env : Env) (c : Claimant) where
  -- The request's file in `claimed/` holds it with the claimant's name on it, that is committed, and, where
  -- there is a remote, the remote took a push of just this commit.
  abbrev pub IsWon : Result (Option Claimed) × Repo → Type 0
  IsWon (ok (some (name, rec)), r) =
      (get r.tree.claimed name ≡ some (request rec))
      × (rec.claimed_by ≡ some c.by)
      × (r.head ≡ r.tree)
      × ((c.push ≡ false) ⊎ ((k : ℕ) × (env.push k r.head ≡ accepted)))
  IsWon (ok none, r) = Unit
  IsWon (err e, r) = Unit

  -- The stamped record is in the tree, and the tree is committed.
  abbrev Holds : Pick → Repo → Type 0
  Holds p r =
      (get r.tree.claimed p.name ≡ some (request (claimed_rec c.by c.now p))) × (r.head ≡ r.tree)

  recheck-IsWon :
      (retry : Exec (Option Claimed)) (file : Option RequestFile) (r : Repo)
      → ((s : Repo) → IsWon (retry s))
      → IsWon (recheck retry file r)
  unfolding recheck
  recheck-IsWon retry none r again = tt
  recheck-IsWon retry (some file) r again = again r

  settle-IsWon :
      (retry : Exec (Option Claimed)) (p : Pick) (n : ℕ) (push : Push) (r : Repo)
      → ((s : Repo) → IsWon (retry s))
      → env.push n r.head ≡ push
      → Holds p r
      → IsWon (settle retry p (some (p.name, claimed_rec c.by c.now p)) push r)
  unfolding settle claimed_rec
  settle-IsWon retry p n accepted r again e h = (h.0, refl, h.1, inr (n, e))
  settle-IsWon retry p n failed_push r again e h = tt
  settle-IsWon retry p n (rejected upstream) r again e h =
      recheck-IsWon retry (get upstream.pending p.name) _ again

  after_publish-IsWon :
      (retry : Exec (Option Claimed)) (p : Pick) (n : ℕ) (sha : Result (Option String)) (r : Repo)
      → ((s : Repo) → IsWon (retry s))
      → ((s : String) → sha ≡ ok (some s) → Holds p r)
      → IsWon (after_publish retry c p (env.push n r.head) sha r)
  unfolding after_publish
  after_publish-IsWon retry p n (err e) r again h = tt
  after_publish-IsWon retry p n (ok none) r again h = tt
  after_publish-IsWon retry p n (ok (some sha)) r again h = elim (Bool-cases c.push) [
    | inl remote ↦
        simp remote (settle-IsWon retry p n (env.push n r.head) r again refl (h sha refl))
    | inr alone ↦ simp alone ((h sha refl).0, unfold claimed_rec in refl, (h sha refl).1, inl refl)
  ]

  claim_round-IsWon :
      (retry : Exec (Option Claimed)) (n : ℕ) (o : Option Pick) (r : Repo)
      → ((s : Repo) → IsWon (retry s))
      → IsWon (claim_round retry env c (env.push n) o r)
  unfolding claim_round
  claim_round-IsWon retry n none r again = tt
  claim_round-IsWon retry n (some p) r again =
      after_publish-IsWon retry p n (publish env s).0 (publish env s).1 again λ sha e. (
        rw (publish_keeps_tree env s sha e) (claimed_now c.by c.now p r.tree),
        publish_committed env s sha e,
      )
    where
      s : Repo
      s = record r { tree = claim_tree c.by c.now p r.tree }

  rounds-IsWon : (n : ℕ) (r : Repo) → IsWon (claim_rounds n env c r)
  unfolding claim_rounds
  rounds-IsWon zero r = tt
  rounds-IsWon (suc n) r =
      claim_round-IsWon (claim_rounds n env c) n (select_claim_target r.tree.pending c.kind) r
        (rounds-IsWon n)

  bind-IsWon :
      {A : Type 0} (m : Exec A) (f : A → Exec (Option Claimed)) (r : Repo)
      → ((a : A) (s : Repo) → IsWon (f a s))
      → IsWon ((m >>= f) r)
  bind-IsWon {A = A} m f r h = go (m r).0
    where
      go : (a : Result A) → IsWon (continue a f (m r).1)
      go (ok a) = h a (m r).1
      go (err e) = tt

  -- Whenever `claim` comes back with a request, its file in `claimed/` of the tree holds that record
  -- stamped with the claimant's name, the tree is committed, and unless there is no remote the
  -- remote has accepted a push of this commit.
  pub claim-IsWon : (clock : Clock) (r : Repo) → IsWon (claim env clock c r)
  unfolding claim
  claim-IsWon clock r =
      bind-IsWon (if c.push then pull_rebase env else pure tt) _ r
        λ _ s. bind-IsWon (reclaim_stale env clock) _ s λ _ t. rounds-IsWon max_claim_attempts t
