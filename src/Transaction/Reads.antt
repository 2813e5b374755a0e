-- ===== src/Transaction/Reads.antt =====
-- src/dbwiki/transaction.py: the steps that only ask.
use logbook.Prelude.{◌≡◌, refl, sym, subst, Option, none, some}
use logbook.Transaction.Proposals.{Error, Result, ok, err, Proposal}
use logbook.Transaction.Repo.{Env, Repo, Exec, ask, continue, head, changed, stray_paths, unowned}
use logbook.Transaction.Commit.{candidate}

-- What holds after a step that only asks, whether it answers or raises.
pub bind_reads :
    {G A B : Type 0} (Q : Result B × Repo G → Type 0) (m : Result A × Repo G) (f : A → Exec G B)
    (r : Repo G)
    → m.1 ≡ r
    → ((a : A) → m.0 ≡ ok a → Q (f a r))
    → ((e : Error) → Q (err e, r))
    → Q (continue m.0 f m.1)
bind_reads Q (ok a, s) f r e h k = subst (λ x. Q (f a x)) (sym e) (h a refl)
bind_reads Q (err x, s) f r e h k = subst (λ y. Q (err x, y)) (sym e) (k x)

-- A chain that answers: its first step did.
pub bind_gave :
    {G A B : Type 0} (m : Result A × Repo G) (f : A → Exec G B) (r : Repo G) (b : B)
    → m.1 ≡ r
    → (continue m.0 f m.1).0 ≡ ok b
    → (a : A) × (m.0 ≡ ok a) × ((f a r).0 ≡ ok b)
bind_gave (ok a, s) f r b e h = (a, refl, subst (λ x. (f a x).0 ≡ ok b) e h)
bind_gave (err x, s) f r b e h = cc

pub bind_gives :
    {G A B : Type 0} (m : Result A × Repo G) (f : A → Exec G B) (r : Repo G) (a : A)
    → m.1 ≡ r
    → m.0 ≡ ok a
    → continue m.0 f m.1 ≡ f a r
bind_gives (ok b, s) f r a e h = cc
bind_gives (err x, s) f r a e h = cc

pub ask-reads : {G A : Type 0} (o : Option A) (r : Repo G) → (ask o r).1 ≡ r
ask-reads none r = refl
ask-reads (some a) r = refl

pub ask-ok : {G A : Type 0} (o : Option A) (r : Repo G) (a : A) → (ask o r).0 ≡ ok a → o ≡ some a
ask-ok none r a h = cc
ask-ok (some b) r a h = cc

module _ {G : Type 0} (env : Env G) where
  pub head-reads : (r : Repo G) → (head env r).1 ≡ r
  unfolding head
  head-reads r = ask-reads (env.git.head r.git) r

  pub changed-reads : (r : Repo G) → (changed env r).1 ≡ r
  unfolding changed
  changed-reads r = ask-reads _ r

  pub stray_paths-reads : (r : Repo G) → (stray_paths env r).1 ≡ r
  unfolding stray_paths
  stray_paths-reads r =
      bind_reads (λ x. x.1 ≡ r) (changed env r) _ r (changed-reads r) (λ a e. refl) (λ e. refl)

  pub unowned-reads : (p : Proposal) (r : Repo G) → (unowned env p r).1 ≡ r
  unfolding unowned
  unowned-reads p r =
      bind_reads (λ x. x.1 ≡ r) (stray_paths env r) _ r (stray_paths-reads r) (λ a e. refl)
        (λ e. refl)

  pub candidate-reads : (p : Proposal) (r : Repo G) → (candidate env p r).1 ≡ r
  unfolding candidate
  candidate-reads p r =
      bind_reads (λ x. x.1 ≡ r) (ask (env.git.worktree r.git p.base) r) _ r (ask-reads _ r)
        (λ tree e.
          bind_reads (λ x. x.1 ≡ r) (changed env r) _ r (changed-reads r) (λ a e. refl) (λ e. refl))
        (λ e. refl)
