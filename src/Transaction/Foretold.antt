-- ===== src/Transaction/Foretold.antt =====
-- src/dbwiki/transaction.py: `preview` beside `commit`.
use logbook.Prelude.{
  String, ◌≡◌, refl, ap, ◌∙◌, Bool, true, not, some, List, [], ◌∷◌, if◌then◌else◌, eq_refl,
}
use logbook.Lint.{Finding, blocking}
use logbook.Transaction.Proposals.{ok, err, Proposal, is_empty_list}
use logbook.Transaction.Repo.{Tree, Env, Repo, Exec, pure, ask, ◌>>◌, head, unowned, differing}
use logbook.Transaction.Commit.{
  Preview, Outcome, nothing_to_do, lint_blocked, tree_dirty, candidate, lint, judged, diffed,
  shown_as, preview, write_or_restore, announced, landed, linted, cleaned, based, commit,
}
use logbook.Transaction.Reads.{
  bind_reads, bind_gave, bind_gives, ask-reads, head-reads, unowned-reads, candidate-reads,
}

second_of : (x y : String × List Finding) → ok x ≡ ok y → x.1 ≡ y.1
second_of x y h = ap (λ r. elim r [ ok z ↦ z.1 | err e ↦ x.1 ]) h

shown_of : (x y : Preview) → ok x ≡ ok y → x ≡ y
shown_of x y h = ap (λ r. elim r [ ok z ↦ z | err e ↦ x ]) h

module _ {G : Type 0} (env : Env G) (p : Proposal) where
  -- What a preview says that the commit will do.
  pub foretold : Preview → Bool → Exec G Outcome
  foretold v push =
      if not (is_empty_list v.strays)
      then pure (tree_dirty v.strays)
      else if is_empty_list v.paths
      then pure (nothing_to_do v.base)
      else if not (is_empty_list (blocking v.findings))
      then pure (lint_blocked (blocking v.findings))
      else write_or_restore env p v.paths >> announced env push v.paths

  landed_as :
      (push : Bool) (ps : List String) (r : Repo G) (fs : List Finding)
      → landed env p push ps fs r
        ≡ (if not (is_empty_list fs)
              then pure (lint_blocked fs)
              else write_or_restore env p ps >> announced env push ps)
            r
  unfolding landed
  landed_as push ps r [] = refl
  landed_as push ps r (f ∷ fs) = refl

  diffed-lint :
      (ps : List String) (tree : Tree) (r : Repo G) (d : String) (findings : List Finding)
      → (diffed env p ps tree r).0 ≡ ok (d, findings)
      → lint env tree p ps ≡ findings
  unfolding diffed
  diffed-lint ps tree r d findings h =
      let (d', made, said) =
        bind_gave (ask (env.git.diff r.git p.base tree ps) r) _ r (d, findings) (ask-reads _ r) h in
      second_of (d', lint env tree p ps) (d, findings) said

  linted_as :
      (push : Bool) (ps : List String) (r : Repo G) (d : String) (findings : List Finding)
      → (judged env p ps r).0 ≡ ok (d, findings)
      → linted env p push ps r
        ≡ (if is_empty_list ps
              then pure (nothing_to_do p.base)
              else if not (is_empty_list (blocking findings))
              then pure (lint_blocked (blocking findings))
              else write_or_restore env p ps >> announced env push ps)
            r
  unfolding linted judged
  linted_as push [] r d findings h = refl
  linted_as push (q ∷ ps) r d findings h =
      let (tree, made, said) =
        bind_gave (candidate env p r) (diffed env p (q ∷ ps)) r (d, findings)
          (candidate-reads env p r) h in
      bind_gives (candidate env p r) _ r tree (candidate-reads env p r) made
      ∙ rw (diffed-lint (q ∷ ps) tree r d findings said)
          (landed_as push (q ∷ ps) r (blocking findings))

  judged-reads : (ps : List String) (r : Repo G) → (judged env p ps r).1 ≡ r
  unfolding judged diffed
  judged-reads [] r = refl
  judged-reads (q ∷ ps) r =
      bind_reads (λ x. x.1 ≡ r) (candidate env p r) _ r (candidate-reads env p r)
        (λ tree e.
          bind_reads (λ x. x.1 ≡ r) (ask (env.git.diff r.git p.base tree (q ∷ ps)) r) _ r
            (ask-reads _ r) (λ a e. refl) (λ e. refl))
        (λ e. refl)

  cleaned_as :
      (push : Bool) (strays : List String) (r : Repo G) (d : String) (findings : List Finding)
      → (judged env p (differing env p r) r).0 ≡ ok (d, findings)
      → cleaned env p push strays r
        ≡ foretold (shown_as env p (differing env p r) (d, findings) strays) push r
  unfolding cleaned foretold shown_as
  cleaned_as push [] r d findings h = linted_as push (differing env p r) r d findings h
  cleaned_as push (q ∷ strays) r d findings h = refl

  committed_as :
      (push : Bool) (strays : List String) (r : Repo G) (d : String) (findings : List Finding)
      → env.git.head r.git ≡ some p.base
      → (judged env p (differing env p r) r).0 ≡ ok (d, findings)
      → (unowned env p r).0 ≡ ok strays
      → commit env p true push r
        ≡ foretold (shown_as env p (differing env p r) (d, findings) strays) push r
  unfolding commit based head
  committed_as push strays r d findings at h k =
      bind_gives (head env r) (based env p push) r p.base (head-reads env r) (rw (head, at) refl)
      ∙ rw (based, eq_refl p.base)
          (bind_gives (unowned env p r) (cleaned env p push) r strays (unowned-reads env p r) k
            ∙ cleaned_as push strays r d findings h)

  -- Where HEAD is still at the base and the lock is held, committing a proposal that has been
  -- previewed does what the preview shows, on the same repository: it refuses for the shown strays, or because the
  -- shown paths are none, or for the blocking ones of the shown findings, and else writes exactly the shown paths.
  pub commit-foretold :
      (push : Bool) (r : Repo G) (v : Preview)
      → env.git.head r.git ≡ some p.base
      → (preview env p r).0 ≡ ok v
      → commit env p true push r ≡ foretold v push r
  unfolding preview
  commit-foretold push r v at h =
      let ps = differing env p r in
      let (x, jd, rest) = bind_gave (judged env p ps r) _ r v (judged-reads ps r) h in
      let (strays, us, said) = bind_gave (unowned env p r) _ r v (unowned-reads env p r) rest in
      committed_as push strays r x.0 x.1 at jd us
      ∙ ap (λ w. foretold w push r) (shown_of (shown_as env p ps x strays) v said)
