-- ===== src/Transaction/Owned.antt =====
-- src/dbwiki/transaction.py: `capture`, and the commit of what it captured.
use logbook.Prelude.{
  among, among_of_mem, mem_of_among, String, ◌≡◌, refl, sym, ap, subst, ◌∙◌, Bool, true, false,
  false≢true, ◌&&◌, not, Option, none, some, List, [], ◌∷◌, Bool-cases, inl, inr, Memᴰ, All-map,
  All-mem, filter-none, map, if◌then◌else◌, ◌==◌, eq_refl, eq_iff, arith,
}
use logbook.Prelude.Dict.{get}
use logbook.Lint.{Finding}
use logbook.Transaction.Proposals.{Actor, Result, ok, err, bad_proposal, Proposal, checked, desired}
use logbook.Transaction.Repo.{
  Env, Repo, Exec, ask, continue, head, unowned, differing, stray_paths, capture, captured,
  unowned_of, is_owned, read, same_content,
}
use logbook.Transaction.Commit.{
  Outcome, committed, nothing_to_do, base_moved, lint_blocked, tree_dirty, candidate,
  write_or_restore, announced, push_best_effort, landed, linted, cleaned, based, commit,
}
use logbook.Transaction.Restored.{Documented}
use logbook.Transaction.Published.{over}
use logbook.Transaction.Whole.{
  content_of, IsPublished, IsAllOrNothing, commit-IsAllOrNothing, among-file_names, among-differing,
}
use logbook.Transaction.Reads.{
  bind_reads, bind_gave, bind_gives, head-reads, stray_paths-reads, unowned-reads,
}

get-map :
    (f : String → Option String) (ps : List String) (q : String)
    → among q ps ≡ true
    → get (map (λ p. (p, f p)) ps) q ≡ some (f q)
unfolding get
get-map f [] q h = cc
get-map f (p ∷ ps) q h = elim (Bool-cases (p == q)) [
  | inl same ↦ rw same (ap (λ x. some (f x)) (ground (arith, eq_iff p q)))
  | inr other ↦ rw other (get-map f ps q (ground arith))
]

same_content_refl : (s : Option String) → same_content s s ≡ true
same_content_refl none = refl
same_content_refl (some s) = eq_refl s

accepted : (b : Bool) (x p : Proposal) → (if b then ok x else err bad_proposal) ≡ ok p → x ≡ p
accepted true x p h = ap (λ r. elim r [ ok z ↦ z | err e ↦ x ]) h
accepted false x p h = cc

module _ {G : Type 0} (env : Env G) where
  owned_by :
      (p : Proposal) (r : Repo G) (q : String)
      → get p.files q ≡ some (read env q r)
      → is_owned env p r q ≡ true
  unfolding is_owned
  owned_by p r q h = rw (is_owned, h) (same_content_refl (read env q r))

  held_by :
      (p : Proposal) (strays : List String) (r : Repo G)
      → p.files ≡ map (λ q. (q, read env q r)) strays
      → (q : String) → Memᴰ q strays
      → get p.files q ≡ some (read env q r)
  held_by p strays r e q m =
      ap (λ d. get d q) e ∙ get-map (λ q. read env q r) strays q (among_of_mem q strays m)

  -- A proposal that holds what the stray paths hold owns them.
  unowned_of-strays :
      (p : Proposal) (strays : List String) (r : Repo G)
      → p.files ≡ map (λ q. (q, read env q r)) strays
      → (unowned_of env p strays r).0 ≡ ok []
  unfolding unowned_of is_owned
  unowned_of-strays p strays r e = ap ok (
      filter-none (λ q. not (is_owned env p r q)) strays
        (All-map (λ q m. ap not (owned_by p r q (held_by p strays r e q m))) strays
          (All-mem strays)))

  pub unowned-none :
      (p : Proposal) (strays : List String) (r : Repo G)
      → (stray_paths env r).0 ≡ ok strays
      → p.files ≡ map (λ q. (q, read env q r)) strays
      → (unowned env p r).0 ≡ ok []
  unfolding unowned
  unowned-none p strays r listed e =
      ap (λ x. x.0)
        (bind_gives (stray_paths env r) (unowned_of env p) r strays (stray_paths-reads env r)
          listed)
      ∙ unowned_of-strays p strays r e

  captured_lem :
      (base : String) (actor : Actor) (message : String) (trailers : List (String × String))
      (r : Repo G) (p : Proposal)
      → (capture env base actor message trailers r).0 ≡ ok p
      → (strays : List String) × ((stray_paths env r).0 ≡ ok strays)
        × (p.files ≡ map (λ q. (q, read env q r)) strays)
  unfolding capture captured checked
  captured_lem base actor message trailers r p h =
      let (strays, listed, said) =
        bind_gave (stray_paths env r) _ r p (stray_paths-reads env r) h in
      (strays, listed, ap (λ x. x.files) (sym (accepted _ _ p said)))

get-map-none :
    (f : String → Option String) (ps : List String) (q : String)
    → among q ps ≡ false
    → get (map (λ p. (p, f p)) ps) q ≡ none
unfolding get
get-map-none f [] q h = refl
get-map-none f (p ∷ ps) q h = ground (arith, get-map-none f ps q)

abbrev pub IsDirty : Result Outcome → Type 0
IsDirty (ok (tree_dirty strays)) = Unit
IsDirty (ok (committed sha ps pushed)) = ⊥
IsDirty (ok (nothing_to_do base)) = ⊥
IsDirty (ok (base_moved expected actual)) = ⊥
IsDirty (ok (lint_blocked findings)) = ⊥
IsDirty (err e) = ⊥

not-IsDirty_then :
    {G A : Type 0} (m : Result A × Repo G) (f : A → Exec G Outcome)
    → ((a : A) (s : Repo G) → ¬ IsDirty (f a s).0)
    → ¬ IsDirty (continue m.0 f m.1).0
not-IsDirty_then (ok a, s) f h = h a s
not-IsDirty_then (err e, s) f h = λ x. x

module _ {G : Type 0} (env : Env G) (p : Proposal) (push : Bool) where
  announced-clean : (ps : List String) (s : Repo G) → ¬ IsDirty (announced env push ps s).0
  unfolding announced
  announced-clean ps s =
      not-IsDirty_then (ask (env.git.short_head s.git) s) _
        λ sha s'. not-IsDirty_then (push_best_effort env push s') _ λ pushed s2 x. x

  landed-clean :
      (ps : List String) (fs : List Finding) (s : Repo G) → ¬ IsDirty (landed env p push ps fs s).0
  unfolding landed
  landed-clean ps [] s =
      not-IsDirty_then (write_or_restore env p ps s) _ λ a s'. announced-clean ps s'
  landed-clean ps (f ∷ fs) s = λ x. x

  linted-clean : (ps : List String) (s : Repo G) → ¬ IsDirty (linted env p push ps s).0
  unfolding linted
  linted-clean [] s = λ x. x
  linted-clean (q ∷ ps) s =
      not-IsDirty_then (candidate env p s) _ λ tree s'. landed-clean (q ∷ ps) _ s'

  based-clean :
      (actual : String) (r : Repo G)
      → (unowned env p r).0 ≡ ok []
      → ¬ IsDirty (based env p push actual r).0
  unfolding based cleaned
  based-clean actual r h = elim (Bool-cases (actual == p.base)) [
    | inl same ↦
        rw
          (
            based,
            same,
            bind_gives (unowned env p r) (cleaned env p push) r [] (unowned-reads env p r) h,
          )
          (linted-clean (differing env p r) r)
    | inr other ↦ rw (based, other) (λ x. x)
  ]

  -- Whose strays are its own is not refused for them.
  commit-clean :
      (held : Bool) (r : Repo G)
      → (unowned env p r).0 ≡ ok []
      → ¬ IsDirty (commit env p held push r).0
  unfolding commit
  commit-clean false r h = λ x. x
  commit-clean true r h =
      bind_reads (λ x. ¬ IsDirty x.0) (head env r) (based env p push) r (head-reads env r)
        (λ actual e. based-clean actual r h) (λ e x. x)

-- One path of the tree, over a proposal that holds exactly the stray paths.
taken_path :
    (o : Option (Option String)) (mine old now published : Option String) (stray differs : Bool)
    → (stray ≡ true → o ≡ some mine)
    → (stray ≡ false → o ≡ none)
    → (stray ≡ false → differs ≡ false)
    → published ≡ over o old
    → now ≡ (if differs then content_of o else mine)
    → (published ≡ (if stray then mine else old)) × (now ≡ mine)
taken_path o mine old now published true true h k l e f =
    (e ∙ ap (λ x. over x old) (h refl), f ∙ ap content_of (h refl))
taken_path o mine old now published true false h k l e f = (e ∙ ap (λ x. over x old) (h refl), f)
taken_path o mine old now published false true h k l e f = absurd (false≢true (sym (l refl)))
taken_path o mine old now published false false h k l e f = (e ∙ ap (λ x. over x old) (k refl), f)

module _ {G : Type 0} (env : Env G) (laws : Documented env.git) where
  -- Every stray path's content, and the base's elsewhere.
  abbrev pub IsTaken : String → List String → Repo G → Repo G → Type 0
  IsTaken base strays r r' =
      (new : String) × (env.git.head r'.git ≡ some new)
      × ((j : String)
          → env.git.blob r'.git new j
            ≡ (if among j strays then get r.files j else env.git.blob r.git base j))
      × ((j : String) → get r'.files j ≡ get r.files j)

  taken :
      (p : Proposal) (strays : List String) (r r' : Repo G)
      → p.files ≡ map (λ q. (q, read env q r)) strays
      → IsPublished env p r (differing env p r) r'
      → IsTaken p.base strays r r'
  unfolding read desired
  taken p strays r r' e (new, at, fresh, blobs, files) =
      (new, at, λ j. (path_lem j).0, λ j. (path_lem j).1)
    where
      absent : (j : String) → among j strays ≡ false → get p.files j ≡ none
      absent j h = ap (λ d. get d j) e ∙ get-map-none (λ q. read env q r) strays j h

      same : (j : String) → among j strays ≡ false → among j (differing env p r) ≡ false
      same j h =
          among-differing env p r j
          ∙ ap (λ b. b && not (same_content (desired p j) (env.git.blob r.git p.base j)))
              (among-file_names p.files j (absent j h))

      path_lem :
          (j : String)
          → (env.git.blob r'.git new j
              ≡ (if among j strays then get r.files j else env.git.blob r.git p.base j))
            × (get r'.files j ≡ get r.files j)
      path_lem j =
          taken_path (get p.files j) (get r.files j) (env.git.blob r.git p.base j) _ _
            (among j strays) (among j (differing env p r))
            (λ h. held_by env p strays r e j (mem_of_among j strays h)) (absent j) (same j)
            (blobs j) (files j)

  commit-taken :
      (p : Proposal) (r : Repo G) (x : Result Outcome × Repo G) (sha : String) (ps : List String)
      (pushed : Bool)
      → IsAllOrNothing env p r x
      → x.0 ≡ ok (committed sha ps pushed)
      → IsPublished env p r (differing env p r) x.1
  unfolding IsAllOrNothing
  commit-taken p r (ok (committed sha' ps' pushed'), r') sha ps pushed (e, h) k =
      subst (λ qs. IsPublished env p r qs r') e h
  commit-taken p r (ok (nothing_to_do base), r') sha ps pushed h k = cc
  commit-taken p r (ok (base_moved expected actual), r') sha ps pushed h k = cc
  commit-taken p r (ok (lint_blocked findings), r') sha ps pushed h k = cc
  commit-taken p r (ok (tree_dirty strays), r') sha ps pushed h k = cc
  commit-taken p r (err e, r') sha ps pushed h k = cc

  -- A proposal captured from the working tree, and committed before that changes: the commit never
  -- answers `TreeDirty`; and where it answers `Committed`, the new HEAD has what the tree held at every
  -- stray path and the base's content at every other path, and the tree is as it was.
  pub capture-IsTaken :
      (base : String) (actor : Actor) (message : String) (trailers : List (String × String))
      (held push : Bool) (r : Repo G) (p : Proposal)
      → (capture env base actor message trailers r).0 ≡ ok p
      → (strays : List String) × ((stray_paths env r).0 ≡ ok strays)
        × (¬ IsDirty (commit env p held push r).0)
        × ((sha : String) (ps : List String) (pushed : Bool)
            → (commit env p held push r).0 ≡ ok (committed sha ps pushed)
            → IsTaken p.base strays r (commit env p held push r).1)
  capture-IsTaken base actor message trailers held push r p h =
      let (strays, listed, e) = captured_lem env base actor message trailers r p h in
      (
        strays,
        listed,
        commit-clean env p push held r (unowned-none env p strays r listed e),
        λ sha ps pushed k. taken p strays r (commit env p held push r).1 e (
            commit-taken p r (commit env p held push r) sha ps pushed
              (commit-IsAllOrNothing env laws p held push r) k),
      )
