-- ===== src/Queue/Repo.antt =====
-- The wiki repository as src/dbwiki/queue.py uses it: the working tree, the local HEAD, and what
-- git and the remote answer. git, the remote and the lint behind `transaction.commit` are arguments.
use logbook.Prelude.{ℕ, zero, suc, arith, String, ◌≡◌, ◌⊎◌, Option, none, some}
use logbook.Queue.Records.{Wiki}

pub record Repo : Type 0 where
  pub tree : Wiki
  pub head : Wiki

-- A `RuntimeError`, by where it is raised.
pub data Error : Type 0 where
  refused : Error
  pull_failed : Error
  push_failed : Error
  fold_failed : Error

pub data Result (A : Type 0) : Type 0 where
  ok : A → Result A
  err : Error → Result A

-- What was written before a raise stays written.
abbrev pub Exec : Type 0 → Type 0
Exec A = Repo → Result A × Repo

module _ {A : Type 0} where
  abbrev pub pure : A → Exec A
  pure a r = (ok a, r)

  abbrev pub raise : Error → Exec A
  raise e r = (err e, r)

abbrev pub continue : {A B : Type 0} → Result A → (A → Exec B) → Exec B
continue (ok a) f r = f a r
continue (err e) f r = (err e, r)

infixl 5 ◌>>=◌ ◌>>◌
abbrev pub ◌>>=◌ : {A B : Type 0} → Exec A → (A → Exec B) → Exec B
◌>>=◌ m f r = let (a, r') = m r in continue a f r'

abbrev pub ◌>>◌ : {A B : Type 0} → Exec A → Exec B → Exec B
m >> n = m >>= λ _. n

-- A change of the working tree, with no commit.
unfoldable pub write_tree : (Wiki → Wiki) → Exec Unit
write_tree f r = (ok tt, record r { tree = f r.tree })

-- What `transaction.commit` says to the working tree of a repository. `refuses` raises or is a verdict before
-- its write, and `breaks` raises after it, once the proposal is taken back to HEAD.
pub data Verdict : Type 0 where
  committed : String → Verdict
  nothing_to_do : Verdict
  refuses : Verdict
  breaks : Verdict

-- `git push`: accepted; rejected because the remote has moved to the given tree; or failed for
-- another reason.
pub data Push : Type 0 where
  accepted : Push
  rejected : Wiki → Push
  failed_push : Push

-- What the queue does not decide: the verdict on a commit; the pull before a claim; the replies to
-- the pushes of a HEAD, by the number of rounds left; and the rebase of the local HEAD onto a moved remote.
pub record Env : Type 0 where
  pub verdict : Repo → Verdict
  pub pull : Wiki → Option Wiki
  pub push : ℕ → Wiki → Push
  pub rebase : Wiki → Wiki → Option Wiki

module _ (env : Env) where
  after_verdict : Verdict → Exec (Option String)
  after_verdict (committed sha) r = (ok (some sha), record r { head = r.tree })
  after_verdict nothing_to_do r = (ok none, r)
  after_verdict refuses r = (err refused, r)
  after_verdict breaks r = (err refused, record r { tree = r.head })

  -- `_publish`: the short sha, or none where the tree already held that content.
  unfoldable pub publish : Exec (Option String)
  unfolding after_verdict
  publish r = after_verdict (env.verdict r) r

  -- Both the tree and HEAD become a commit of the remote: `reset --hard`, or a clean pull.
  unfoldable pub move_to : Wiki → Exec Unit
  move_to w r = (ok tt, record { tree = w; head = w })

  unfoldable pub or_raise : Option Wiki → Error → Exec Unit
  unfolding move_to
  or_raise none e r = (err e, r)
  or_raise (some w) e r = move_to w r

  -- `git pull --rebase` at the start of `claim`.
  unfoldable pub pull_rebase : Exec Unit
  unfolding or_raise
  pull_rebase r = or_raise (env.pull r.head) pull_failed r

  -- One reply to a push: on a rejection the local commits are rebased onto the remote.
  unfoldable pub push_round : Exec Unit → Push → Exec Unit
  unfolding or_raise
  push_round retry accepted r = (ok tt, r)
  push_round retry failed_push r = (err push_failed, r)
  push_round retry (rejected upstream) r =
      (or_raise (env.rebase upstream r.head) pull_failed >>= λ _. retry) r

  -- The loop of `_push_rebase_retry`. When the rounds are used up, the last, best-effort push
  -- leaves the local repository as it is, whether it is accepted or not.
  unfoldable pub push_rounds : ℕ → Exec Unit
  unfolding push_round
  push_rounds zero r = (ok tt, r)
  push_rounds (suc n) r = push_round (push_rounds n) (env.push n r.head) r

  -- A commit with a sha has committed the tree.
  pub publish_committed :
      (r : Repo) (sha : String)
      → (publish r).0 ≡ ok (some sha)
      → (publish r).1.head ≡ (publish r).1.tree
  unfolding publish
  publish_committed r sha h = ground arith

  pub publish_keeps_tree :
      (r : Repo) (sha : String) → (publish r).0 ≡ ok (some sha) → (publish r).1.tree ≡ r.tree
  unfolding publish
  publish_keeps_tree r sha h = ground arith

  -- The tree stays, or is taken back to HEAD.
  pub publish_tree : (r : Repo) → ((publish r).1.tree ≡ r.tree) ⊎ ((publish r).1.tree ≡ r.head)
  unfolding publish
  publish_tree r = ground arith

  -- HEAD stays, or becomes the tree.
  pub publish_head : (r : Repo) → ((publish r).1.head ≡ r.head) ⊎ ((publish r).1.head ≡ r.tree)
  unfolding publish
  publish_head r = ground arith
