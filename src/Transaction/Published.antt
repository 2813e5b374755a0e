-- ===== src/Transaction/Published.antt =====
-- src/dbwiki/transaction.py: the write of a commit.
use logbook.Prelude.{
  among, String, ◌≡◌, refl, ap, subst, ◌∙◌, ◌⊎◌, inl, inr, false, Option, none, some, List, [], ◌∷◌,
  Bool-cases, Option-cases, if◌then◌else◌, arith, eq_iff, ◌==◌,
}
use logbook.Prelude.Dict.{get, get-remove, get-put}
use logbook.Transaction.Proposals.{
  Result, ok, err, disk_failed, Proposal, desired, git_author, commit_message,
}
use logbook.Transaction.Repo.{Tree, Git, Env, Repo, continue, set_file, place}
use logbook.Transaction.Commit.{place_all, add_known, stage, git_commit, write}
use logbook.Transaction.Restored.{IsSameAt, Documented}

-- What a proposal says of a path, over what the base says.
abbrev pub over : Option (Option String) → Option String → Option String
over none old = old
over (some content) old = content

-- What the wiki says at a path once the proposal is published.
abbrev pub proposed : {G : Type 0} → Env G → Proposal → Repo G → String → Option String
proposed env p r path = over (get p.files path) (env.git.blob r.git p.base path)

get-set_file :
    (d : Tree) (k : String) (v : Option String) (j : String)
    → get (set_file d k v) j ≡ (if k == j then v else get d j)
unfolding set_file
get-set_file d k none j = get-remove d k j
get-set_file d k (some s) j = get-put d k j s

module _ {G : Type 0} (env : Env G) where
  -- After `place_all`: everything is written, or at most the named paths were touched.
  abbrev IsPlaced : Proposal → List String → Repo G → Result (Unit {0}) × Repo G → Type 0
  IsPlaced p ps r (ok done, r') =
      (r'.git ≡ r.git)
      × ((j : String) → get r'.files j ≡ (if among j ps then desired p j else get r.files j))
  IsPlaced p ps r (err e, r') =
      (r'.git ≡ r.git) × ((j : String) → among j ps ≡ false → get r'.files j ≡ get r.files j)

  place_all-after :
      (p : Proposal) (q : String) (ps : List String) (r : Repo G) (d : Tree)
      (s : Result (Unit {0}) × Repo G)
      → ((j : String) → get d j ≡ (if q == j then desired p q else get r.files j))
      → IsPlaced p ps (record r { files = d }) s
      → IsPlaced p (q ∷ ps) r s
  place_all-after p q ps r d (ok done, r') h (same, files) =
      (same, λ j. ground (arith, files j, h j, eq_iff q j))
  place_all-after p q ps r d (err e, r') h (same, files) =
      (same, λ j m. ground (arith, files j, h j, eq_iff q j))

  place_lem :
      (q : String) (v : Option String) (r : Repo G)
      → (place env q v r ≡ (ok tt, record r { files = set_file r.files q v }))
        ⊎ ((left : Option String) × (place env q v r
              ≡ (err disk_failed, record r { files = set_file r.files q left })))
  unfolding place
  place_lem q v r = elim (Option-cases (env.fails q v)) [
    | inl works ↦ inl (rw works refl)
    | inr (left, e) ↦ inr (left, rw e refl)
  ]

  place_all_lem :
      (p : Proposal) (ps : List String) (r : Repo G) → IsPlaced p ps r (place_all env p ps r)
  unfolding place_all
  place_all_lem p [] r = (refl, λ j. refl)
  place_all_lem p (q ∷ ps) r = elim (place_lem q (desired p q) r) [
    | inl e ↦
        let d = set_file r.files q (desired p q) in
        rw (place_all, e)
          (place_all-after p q ps r d _ (get-set_file r.files q (desired p q))
            (place_all_lem p ps (record r { files = d })))
    | inr (left, e) ↦
        rw (place_all, e) (refl, λ j m. ground (arith, get-set_file r.files q left j, eq_iff q j))
  ]

pub IsSameAt-trans :
    {G : Type 0} (git : Git G) (rev : String) (g g' g'' : G)
    → IsSameAt git rev g g'
    → IsSameAt git rev g' g''
    → IsSameAt git rev g g''
IsSameAt-trans git rev g g' g'' h k = (k.0 ∙ h.0, λ p. k.1 p ∙ h.1 p)

module _ {G : Type 0} (env : Env G) (laws : Documented env.git) where
  -- After the body of the `try`: a new commit with the paths' content, or an untouched HEAD.
  abbrev pub IsWritten : Proposal → List String → Repo G → Result (Unit {0}) × Repo G → Type 0
  IsWritten p ps r (ok done, r') =
      (new : String) × (env.git.head r'.git ≡ some new)
      × ((new == p.base) ≡ false)
      × ((j : String)
          → env.git.blob r'.git new j
            ≡ (if among j ps then desired p j else env.git.blob r.git p.base j))
      × ((j : String) → get r'.files j ≡ (if among j ps then desired p j else get r.files j))
  IsWritten p ps r (err e, r') =
      IsSameAt env.git p.base r.git r'.git
      × ((j : String) → among j ps ≡ false → get r'.files j ≡ get r.files j)

  git_commit_lem :
      (p : Proposal) (ps : List String) (r s : Repo G)
      → env.git.head r.git ≡ some p.base
      → IsSameAt env.git p.base r.git s.git
      → ((j : String) → get s.files j ≡ (if among j ps then desired p j else get r.files j))
      → IsWritten p ps r (git_commit env p ps s)
  unfolding git_commit
  git_commit_lem p ps r s at same files =
      let author = git_author p.actor in
      let message = commit_message p in
      let reply = env.git.commit author message ps s.files s.git in
      elim (Bool-cases reply.succeeded) [
        | inl done ↦
            let (new, hd, fresh, blobs) =
              laws.commits author message ps s.files s.git p.base done (same.0 ∙ at) in
            rw (git_commit, done)
              (new, hd, fresh, λ j. ground (arith, blobs j, files j, same.1 j), files)
        | inr failed ↦
            rw (git_commit, failed)
              (
                IsSameAt-trans env.git p.base r.git s.git reply.left same
                    (laws.refuses author message ps s.files s.git p.base failed),
                λ j m. ground (arith, files j),
              )
      ]

  add_known_lem :
      (base : String) (known : List String) (r : Repo G)
      → ((add_known env known r).1.files ≡ r.files)
        × IsSameAt env.git base r.git (add_known env known r).1.git
  unfolding add_known
  add_known_lem base [] r = (refl, (refl, λ p. refl))
  add_known_lem base (q ∷ ps) r = (refl, laws.adds (q ∷ ps) r.files r.git base)

  stage_lem :
      (base : String) (ps : List String) (r : Repo G)
      → ((stage env ps r).1.files ≡ r.files) × IsSameAt env.git base r.git (stage env ps r).1.git
  unfolding stage
  stage_lem base ps r = elim (Option-cases (env.git.ls_files r.git ps)) [
    | inl failed ↦ rw (stage, failed) (refl, (refl, λ p. refl))
    | inr (indexed, e) ↦ rw (stage, e) (add_known_lem base _ r)
  ]

  staged :
      (p : Proposal) (ps : List String) (r : Repo G) (b : Result (Unit {0}) × Repo G)
      → env.git.head r.git ≡ some p.base
      → IsSameAt env.git p.base r.git b.1.git
      → ((j : String) → get b.1.files j ≡ (if among j ps then desired p j else get r.files j))
      → IsWritten p ps r (continue b.0 (λ _. git_commit env p ps) b.1)
  staged p ps r (ok done, s) at same files = git_commit_lem p ps r s at same files
  staged p ps r (err e, s) at same files = (same, λ j m. ground (arith, files j))

  IsSameAt-at :
      (base : String) (g g' g'' : G)
      → g' ≡ g
      → IsSameAt env.git base g' g''
      → IsSameAt env.git base g g''
  IsSameAt-at base g g' g'' e h = subst (λ x. IsSameAt env.git base x g'') e h

  placed :
      (p : Proposal) (ps : List String) (r : Repo G) (a : Result (Unit {0}) × Repo G)
      → env.git.head r.git ≡ some p.base
      → IsPlaced env p ps r a
      → (let b = continue a.0 (λ _. stage env ps) a.1 in
          IsWritten p ps r (continue b.0 (λ _. git_commit env p ps) b.1))
  placed p ps r (ok done, s) at (same, files) =
      let (kept, staged_same) = stage_lem p.base ps s in
      staged p ps r (stage env ps s) at (IsSameAt-at p.base r.git s.git _ same staged_same)
        (λ j. ap (λ d. get d j) kept ∙ files j)
  placed p ps r (err e, s) at (same, files) =
      ((ap env.git.head same, λ j. ap (λ g. env.git.blob g p.base j) same), files)

  pub write_lem :
      (p : Proposal) (ps : List String) (r : Repo G)
      → env.git.head r.git ≡ some p.base
      → IsWritten p ps r (write env p ps r)
  unfolding write
  write_lem p ps r at = placed p ps r (place_all env p ps r) at (place_all_lem env p ps r)
