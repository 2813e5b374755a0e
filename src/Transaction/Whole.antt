-- ===== src/Transaction/Whole.antt =====
-- src/dbwiki/transaction.py: `commit` on every branch.
use logbook.Prelude.{
  among, among-filter, among-sorted, String, ◌≡◌, refl, sym, ap, ◌∙◌, ◌⊎◌, inl, inr, Bool, true,
  false, false≢true, not, ◌&&◌, Option, none, some, List, [], ◌∷◌, Bool-cases, Option-cases,
  if◌then◌else◌, arith, eq_iff, ◌==◌, text_leb,
}
use logbook.Prelude.Dict.{Dict, get}
use logbook.Transaction.Proposals.{
  Error, Result, ok, err, Proposal, paths, desired, file_names, is_empty_list,
}
use logbook.Transaction.Repo.{
  Env, Repo, continue, same_content, head, restore, raise, unowned, differing,
}
use logbook.Transaction.Commit.{
  Outcome, committed, nothing_to_do, base_moved, lint_blocked, tree_dirty, write, or_restore,
  write_or_restore, announced, landed, linted, cleaned, based, commit, candidate,
}
use logbook.Transaction.Reads.{bind_reads, ask-ok, head-reads, unowned-reads, candidate-reads}
use logbook.Transaction.Restored.{is_there, IsSameAt, Documented, IsRestored, restore-IsRestored}
use logbook.Transaction.Published.{over, proposed, IsSameAt-trans, IsWritten, write_lem}

same_content→≡ : (s t : Option String) → same_content s t ≡ true → s ≡ t
same_content→≡ none none h = refl
same_content→≡ none (some t) h = cc
same_content→≡ (some s) none h = cc
same_content→≡ (some s) (some t) h = ap some (ground (arith, eq_iff s t))

pub among-file_names :
    {V : Type 0} (d : Dict V) (j : String) → get d j ≡ none → among j (file_names d) ≡ false
unfolding get
among-file_names [] j h = refl
among-file_names ((k, v) ∷ d) j h = elim (Bool-cases (k == j)) [
  | inl same ↦ ground arith
  | inr other ↦ rw other (among-file_names d j (ground arith))
]

among-file_names-some :
    {V : Type 0} (d : Dict V) (j : String) (v : V)
    → get d j ≡ some v
    → among j (file_names d) ≡ true
unfolding get
among-file_names-some [] j v h = cc
among-file_names-some ((k, w) ∷ d) j v h = elim (Bool-cases (k == j)) [
  | inl same ↦ rw same refl
  | inr other ↦ rw other (among-file_names-some d j v (ground arith))
]

abbrev pub content_of : Option (Option String) → Option String
content_of none = none
content_of (some content) = content

-- One path of a proposal over its content at the base.
overlaid :
    (o : Option (Option String)) (old : Option String) (differs has : Bool)
    → differs ≡ (has && not (same_content (content_of o) old))
    → (o ≡ none → has ≡ false)
    → ((v : Option String) → o ≡ some v → has ≡ true)
    → (if differs then content_of o else old) ≡ over o old
overlaid none old differs has e absent present = rw (e, absent refl) refl
overlaid (some v) old differs has e absent present = elim (Bool-cases (same_content v old)) [
  | inl same ↦ rw (e, present v refl, same) (sym (same_content→≡ v old same))
  | inr other ↦ rw (e, present v refl, other) refl
]

module _ {G : Type 0} (env : Env G) where
  -- The paths that differ are paths of the proposal, and the others hold their content at the base.
  pub among-differing :
      (p : Proposal) (r : Repo G) (j : String)
      → among j (differing env p r) ≡ (
          among j (file_names p.files)
          && not (same_content (desired p j) (env.git.blob r.git p.base j)))
  unfolding differing paths
  among-differing p r j =
      among-filter j _ (paths p)
      ∙ ap (λ b. b && not (same_content (desired p j) (env.git.blob r.git p.base j)))
          (among-sorted text_leb j (file_names p.files))

  proposed_lem :
      (p : Proposal) (r : Repo G) (j : String)
      → (if among j (differing env p r) then desired p j else env.git.blob r.git p.base j)
        ≡ proposed env p r j
  unfolding desired
  proposed_lem p r j =
      overlaid (get p.files j) (env.git.blob r.git p.base j) _ (among j (file_names p.files))
        (among-differing p r j) (among-file_names p.files j) (among-file_names-some p.files j)

  -- HEAD is a new revision that says what the proposal says and else what the base says, and the
  -- working tree has the paths that differed.
  abbrev pub IsPublished : Proposal → Repo G → List String → Repo G → Type 0
  IsPublished p r ps r' =
      (new : String) × (env.git.head r'.git ≡ some new)
      × ((new == p.base) ≡ false)
      × ((j : String) → env.git.blob r'.git new j ≡ proposed env p r j)
      × ((j : String) → get r'.files j ≡ (if among j ps then desired p j else get r.files j))

  -- The write raised, and then the restoration itself did.
  abbrev IsStranded : Proposal → Repo G → Repo G → Type 0
  IsStranded p r r' =
      (s : Repo G) × (w : Error) × (e : Error) × (write env p (differing env p r) r ≡ (err w, s))
      × (restore env (paths p) p.base s ≡ (err e, r'))

  -- HEAD is where it was, every file outside the proposal is as it was, and the proposal's paths are as at
  -- the base, unless the restoration itself raised.
  abbrev IsUndone : Proposal → Repo G → Repo G → Type 0
  IsUndone p r r' =
      IsSameAt env.git p.base r.git r'.git
      × ((j : String) → among j (paths p) ≡ false → get r'.files j ≡ get r.files j)
      × (((j : String) → among j (paths p) ≡ true → get r'.files j ≡ env.git.blob r.git p.base j)
          ⊎ IsStranded p r r')

  -- Published, or refused with nothing touched, or raised with nothing left behind.
  unfoldable pub IsAllOrNothing : Proposal → Repo G → Result Outcome × Repo G → Type 0
  IsAllOrNothing p r (ok (committed sha ps pushed), r') =
      (ps ≡ differing env p r) × IsPublished p r ps r'
  IsAllOrNothing p r (ok (nothing_to_do base), r') = r' ≡ r
  IsAllOrNothing p r (ok (base_moved expected actual), r') = r' ≡ r
  IsAllOrNothing p r (ok (lint_blocked findings), r') = r' ≡ r
  IsAllOrNothing p r (ok (tree_dirty strays), r') = r' ≡ r
  IsAllOrNothing p r (err e, r') = (r' ≡ r) ⊎ IsUndone p r r'

module _ {G : Type 0} (env : Env G) (laws : Documented env.git) (p : Proposal) where
  announced_as :
      (push : Bool) (ps : List String) (s : Repo G) (new sha : String)
      → env.git.short_head s.git ≡ some sha
      → (pushed : Bool) × (r' : Repo G) × (announced env push ps s
          ≡ (ok (committed sha ps pushed), r'))
        × IsSameAt env.git new s.git r'.git
        × (r'.files ≡ s.files)
  unfolding announced
  announced_as true ps s new sha e =
      let reply = env.git.push s.git in
      (
        reply.succeeded,
        record s { git = reply.left },
        rw (announced, e) refl,
        laws.pushes s.git new,
        refl,
      )
  announced_as false ps s new sha e = (false, s, rw (announced, e) refl, (refl, λ j. refl), refl)

  announced_lem :
      (push : Bool) (ps : List String) (s : Repo G) (new : String)
      → env.git.head s.git ≡ some new
      → (sha : String) × (pushed : Bool) × (r' : Repo G) × (announced env push ps s
          ≡ (ok (committed sha ps pushed), r'))
        × IsSameAt env.git new s.git r'.git
        × (r'.files ≡ s.files)
  announced_lem push ps s new at = elim (Option-cases (env.git.short_head s.git)) [
    | inl e ↦ absurd (false≢true (ap is_there (sym e) ∙ laws.abbreviates s.git new at))
    | inr (sha, e) ↦
        let (pushed, r', said, kept, same) = announced_as push ps s new sha e in
        (sha, pushed, r', said, kept, same)
  ]

  -- A path outside the proposal is not among those that differ.
  outside :
      (r : Repo G) (j : String) → among j (paths p) ≡ false → among j (differing env p r) ≡ false
  unfolding paths
  outside r j h =
      ground (arith, among-differing env p r j, among-sorted text_leb j (file_names p.files))

  -- The write raised in the repository `s`; `x` is its restoration.
  raised :
      (push : Bool) (r s : Repo G) (w : Error) (x : Result (Unit {0}) × Repo G)
      → write env p (differing env p r) r ≡ (err w, s)
      → restore env (paths p) p.base s ≡ x
      → IsSameAt env.git p.base r.git s.git
      → ((j : String) → among j (differing env p r) ≡ false → get s.files j ≡ get r.files j)
      → IsRestored env laws p.base (paths p) s x
      → (let b = continue x.0 (λ _. raise {A = Unit {0}} w) x.1 in
          IsAllOrNothing env p r (continue b.0 (λ _. announced env push (differing env p r)) b.1))
  unfolding IsAllOrNothing
  raised push r s w (ok done, r') wrote restored same files (kept, others, back) = inr (
    IsSameAt-trans env.git p.base r.git s.git _ same kept,
    (λ j h. others j h ∙ files j (outside r j h)),
    inl (λ j h. back refl j h ∙ same.1 j),
  )
  raised push r s w (err e, r') wrote restored same files (kept, others, back) = inr (
    IsSameAt-trans env.git p.base r.git s.git _ same kept,
    (λ j h. others j h ∙ files j (outside r j h)),
    inr (s, w, e, wrote, restored),
  )

  written :
      (push : Bool) (r : Repo G) (w : Result (Unit {0}) × Repo G)
      → write env p (differing env p r) r ≡ w
      → IsWritten env laws p (differing env p r) r w
      → (let b = or_restore env p w.0 w.1 in
          IsAllOrNothing env p r (continue b.0 (λ _. announced env push (differing env p r)) b.1))
  unfolding IsAllOrNothing or_restore
  written push r (ok done, s) wrote (new, at, fresh, blobs, files) =
      let (sha, pushed, r', e, kept, same) = announced_lem push (differing env p r) s new at in
      rw e (
        refl,
        (
          new,
          kept.0 ∙ at,
          fresh,
          λ j. kept.1 j ∙ blobs j ∙ proposed_lem env p r j,
          λ j. ap (λ d. get d j) same ∙ files j,
        ),
      )
  written push r (err e, s) wrote (same, files) =
      raised push r s e (restore env (paths p) p.base s) wrote refl same files
        (restore-IsRestored env laws p.base (paths p) s)

  landed_lem :
      (push : Bool) (r : Repo G)
      → env.git.head r.git ≡ some p.base
      → (findings : List _)
      → IsAllOrNothing env p r (landed env p push (differing env p r) findings r)
  unfolding landed IsAllOrNothing write_or_restore
  landed_lem push r at [] =
      written push r (write env p (differing env p r) r) refl
        (write_lem env laws p (differing env p r) r at)
  landed_lem push r at (f ∷ fs) = refl

  linted_lem :
      (push : Bool) (r : Repo G)
      → env.git.head r.git ≡ some p.base
      → IsAllOrNothing env p r (linted env p push (differing env p r) r)
  unfolding linted IsAllOrNothing
  linted_lem push r at = elim (Bool-cases (is_empty_list (differing env p r))) [
    | inl same ↦ rw (linted, same) refl
    | inr differs ↦
        rw (linted, differs)
          (bind_reads (IsAllOrNothing env p r) (candidate env p r) _ r (candidate-reads env p r)
            (λ tree e. landed_lem push r at _) (λ e. inl refl))
  ]

  cleaned_lem :
      (push : Bool) (strays : List String) (r : Repo G)
      → env.git.head r.git ≡ some p.base
      → IsAllOrNothing env p r (cleaned env p push strays r)
  unfolding cleaned IsAllOrNothing
  cleaned_lem push [] r at = linted_lem push r at
  cleaned_lem push (q ∷ strays) r at = refl

  based_lem :
      (push : Bool) (actual : String) (r : Repo G)
      → env.git.head r.git ≡ some actual
      → IsAllOrNothing env p r (based env p push actual r)
  unfolding based IsAllOrNothing
  based_lem push actual r at = elim (Bool-cases (actual == p.base)) [
    | inl same ↦
        let at_base : env.git.head r.git ≡ some p.base =
          at ∙ ap some (ground (arith, eq_iff actual p.base)) in
        rw (based, same)
          (bind_reads (IsAllOrNothing env p r) (unowned env p r) _ r (unowned-reads env p r)
            (λ strays e. cleaned_lem push strays r at_base) (λ e. inl refl))
    | inr other ↦ rw (based, other) refl
  ]

  head_lem :
      (r : Repo G) (actual : String) → (head env r).0 ≡ ok actual → env.git.head r.git ≡ some actual
  unfolding head
  head_lem r actual h = ask-ok (env.git.head r.git) r actual h

  -- A commit of a proposal, over any git that does what it documents, any disk that may fail and any lint: it
  -- returns `Committed` with the paths that differed from the base, HEAD is a new revision that has the proposed
  -- content, or deletion, at every path of the proposal and the base's content at every other one, and the
  -- working tree has changed at the paths that differed only; or it refuses and nothing has changed; or it raises.
  -- Then nothing has changed, or HEAD is where it was, every path outside the proposal is as it was, and the
  -- paths of the proposal are as at the base, unless the write had raised and its restoration raised as well.
  pub commit-IsAllOrNothing :
      (held push : Bool) (r : Repo G) → IsAllOrNothing env p r (commit env p held push r)
  unfolding commit IsAllOrNothing
  commit-IsAllOrNothing false push r = inl refl
  commit-IsAllOrNothing true push r =
      bind_reads (IsAllOrNothing env p r) (head env r) (based env p push) r (head-reads env r)
        (λ actual e. based_lem push actual r (head_lem r actual e)) (λ e. inl refl)
