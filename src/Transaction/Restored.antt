-- ===== src/Transaction/Restored.antt =====
-- src/dbwiki/transaction.py: `restore`, over a git that does what it documents.
use logbook.Prelude.{
  among, among-filter, String, ◌≡◌, refl, ap, ◌∙◌, Bool, true, false, not, ◌&&◌, Option, none, some,
  List, [], ◌∷◌, filter, if◌then◌else◌, arith, ◌==◌, eq_iff, sym, Bool-cases, Option-cases, inl,
  inr, false≢true,
}
use logbook.Prelude.Dict.{get, remove, get-remove}
use logbook.Transaction.Proposals.{Result, ok, err, git_failed}
use logbook.Transaction.Repo.{
  Tree, Git, Env, Repo, check_out, unstage, delete_all, is_tracked, continue, restore,
}

abbrev pub is_there : Option String → Bool
is_there none = false
is_there (some s) = true

-- HEAD and what the named revision holds are the same.
abbrev pub IsSameAt : {G : Type 0} → Git G → String → G → G → Type 0
IsSameAt git rev g g' =
    (git.head g' ≡ git.head g) × ((p : String) → git.blob g' rev p ≡ git.blob g rev p)

-- What git documents of its commands, which may fail. `add` and `rm --cached` change the index only, and
-- `checkout <rev> -- <paths>` no file but those; where it exits with 0, they are as in the revision. A commit that
-- fails leaves HEAD, and one that succeeds moves it to a new revision, which differs from the old one by the
-- named paths; a push changes nothing here; a commit has an abbreviated name.
pub record Documented {G : Type 0} (git : Git G) : Type 0 where
  pub adds :
      (ps : List String) (d : Tree) (g : G) (rev : String)
      → IsSameAt git rev g (git.add ps d g).left
  pub removes :
      (ps : List String) (g : G) (rev : String) → IsSameAt git rev g (git.rm_cached ps g).left
  pub checks_out :
      (rev : String) (ps : List String) (g : G) (d : Tree)
      → IsSameAt git rev g (git.checkout rev ps (g, d)).left.0
        × ((p : String) → among p ps ≡ false → get (git.checkout rev ps (g, d)).left.1 p ≡ get d p)
        × ((git.checkout rev ps (g, d)).succeeded ≡ true
            → (p : String) → among p ps ≡ true
            → get (git.checkout rev ps (g, d)).left.1 p ≡ git.blob g rev p)
  pub refuses :
      (author message : String) (ps : List String) (d : Tree) (g : G) (rev : String)
      → (git.commit author message ps d g).succeeded ≡ false
      → IsSameAt git rev g (git.commit author message ps d g).left
  pub commits :
      (author message : String) (ps : List String) (d : Tree) (g : G) (old : String)
      → (git.commit author message ps d g).succeeded ≡ true
      → git.head g ≡ some old
      → (new : String) × (git.head (git.commit author message ps d g).left ≡ some new)
        × ((new == old) ≡ false)
        × ((p : String)
            → git.blob (git.commit author message ps d g).left new p
              ≡ (if among p ps then get d p else git.blob g old p))
  pub pushes : (g : G) (rev : String) → IsSameAt git rev g (git.push g).left
  pub abbreviates :
      (g : G) (rev : String) → git.head g ≡ some rev → is_there (git.short_head g) ≡ true

went_well : (b : Bool) → (if b then ok tt else err git_failed) ≡ ok tt → b ≡ true
went_well true e = refl
went_well false e = cc

module _ {G : Type 0} (env : Env G) (laws : Documented env.git) where
  -- A step of a restoration of the paths `ps`: HEAD and the base stay, and so does every other file; where
  -- the step does not raise, a path that it names holds what it is to hold.
  abbrev pub IsStep :
      String → List String → (String → Option String) → Repo G → Result (Unit {0}) × Repo G → Type 0
  IsStep base ps goal r (res, r') =
      IsSameAt env.git base r.git r'.git
      × ((p : String) → among p ps ≡ false → get r'.files p ≡ get r.files p)
      × (res ≡ ok tt → (p : String) → among p ps ≡ true → get r'.files p ≡ goal p)

  check_out-IsStep :
      (base : String) (ps : List String) (r : Repo G)
      → IsStep base ps (env.git.blob r.git base) r (check_out env base ps r)
  unfolding check_out
  check_out-IsStep base [] r = ((refl, λ p. refl), (λ p h. refl), λ e p h. absurd (false≢true h))
  check_out-IsStep base (q ∷ ps) r =
      let (same, others, done) = laws.checks_out base (q ∷ ps) r.git r.files in
      let reply = env.git.checkout base (q ∷ ps) (r.git, r.files) in
      (same, others, λ e. done (went_well reply.succeeded e))

  unstage_lem :
      (base : String) (ps : List String) (r : Repo G)
      → IsSameAt env.git base r.git (unstage env ps r).1.git
        × ((unstage env ps r).1.files ≡ r.files)
  unfolding unstage
  unstage_lem base [] r = ((refl, λ p. refl), refl)
  unstage_lem base (q ∷ ps) r = (laws.removes (q ∷ ps) r.git base, refl)

  delete_all-IsStep :
      (base : String) (ps : List String) (r : Repo G)
      → IsStep base ps (λ p. none) r (delete_all env ps r)
  unfolding delete_all
  delete_all-IsStep base [] r = ((refl, λ p. refl), (λ p h. refl), λ e p h. absurd (false≢true h))
  delete_all-IsStep base (q ∷ ps) r =
      let (same, others, done) =
        delete_all-IsStep base ps (record r { files = remove r.files q }) in
      elim (Bool-cases (env.sticks q)) [
        | inl stuck ↦ rw stuck ((refl, λ p. refl), (λ p h. refl), λ e p h. cc)
        | inr goes ↦ rw goes (
          same,
          (λ p h. ground (arith, others p, get-remove r.files q p)),
          λ e p h.
              ground (arith, others p, done e p, get-remove r.files q p, eq_iff p q, eq_iff q p),
        )
      ]

  -- HEAD and the base stay, and so does every file outside the paths; where nothing raises, the paths are as at
  -- the base.
  abbrev pub IsRestored : String → List String → Repo G → Result (Unit {0}) × Repo G → Type 0
  IsRestored base ps r x = IsStep base ps (env.git.blob r.git base) r x

  module _ (base : String) (ps tracked added : List String) (r : Repo G)
      (t : (p : String) → among p tracked ≡ (among p ps && is_tracked env r base p))
      (a : (p : String) → among p added ≡ (among p ps && not (is_tracked env r base p))) where
    IsSame-trans :
        {g g' g'' : G}
        → IsSameAt env.git base g g'
        → IsSameAt env.git base g' g''
        → IsSameAt env.git base g g''
    IsSame-trans h k = (k.0 ∙ h.0, λ p. k.1 p ∙ h.1 p)

    untracked : (p : String) → is_tracked env r base p ≡ false → none ≡ env.git.blob r.git base p
    untracked p h = elim (Option-cases (env.git.blob r.git base p)) [
      | inl e ↦ sym e
      | inr (content, e) ↦
          absurd (false≢true (sym h ∙ ap (λ o. elim o [ none ↦ false | some s ↦ true ]) e))
    ]

    after_delete :
        (s : Repo G) (x : Result (Unit {0}) × Repo G)
        → IsSameAt env.git base r.git s.git
        → ((p : String) → among p tracked ≡ false → get s.files p ≡ get r.files p)
        → ((p : String) → among p tracked ≡ true → get s.files p ≡ env.git.blob r.git base p)
        → IsStep base added (λ p. none) s x
        → IsRestored base ps r x
    after_delete s x same others back (same', others', gone) = (
      IsSame-trans same same',
      (λ p h. others' p (rw (a p, h) refl) ∙ others p (rw (t p, h) refl)),
      λ e p h. elim (Bool-cases (is_tracked env r base p)) [
        | inl here ↦ others' p (rw (a p, h, here) refl) ∙ back p (rw (t p, h, here) refl)
        | inr absent ↦ gone e p (rw (a p, h, absent) refl) ∙ untracked p absent
      ],
    )

    after_unstage :
        (s : Repo G) (x : Result (Unit {0}) × Repo G)
        → IsSameAt env.git base r.git s.git
        → ((p : String) → among p tracked ≡ false → get s.files p ≡ get r.files p)
        → ((p : String) → among p tracked ≡ true → get s.files p ≡ env.git.blob r.git base p)
        → IsSameAt env.git base s.git x.1.git
        → x.1.files ≡ s.files
        → IsRestored base ps r (continue x.0 (λ _. delete_all env added) x.1)
    after_unstage s (ok done, s') same others back same' files =
        after_delete s' (delete_all env added s') (IsSame-trans same same')
          (λ p h. ap (λ d. get d p) files ∙ others p h) (λ p h. ap (λ d. get d p) files ∙ back p h)
          (delete_all-IsStep base added s')
    after_unstage s (err e, s') same others back same' files = (
      IsSame-trans same same',
      (λ p h. ap (λ d. get d p) files ∙ others p (rw (t p, h) refl)),
      λ e p h. cc,
    )

    after_check_out :
        (x : Result (Unit {0}) × Repo G)
        → IsStep base tracked (env.git.blob r.git base) r x
        → (let y = continue x.0 (λ _. unstage env added) x.1 in
            IsRestored base ps r (continue y.0 (λ _. delete_all env added) y.1))
    after_check_out (ok done, s) (same, others, back) =
        let (same', files) = unstage_lem base added s in
        after_unstage s (unstage env added s) same others (back refl) same' files
    after_check_out (err e, s) (same, others, back) =
        (same, (λ p h. others p (rw (t p, h) refl)), λ e p h. cc)

  pub restore-IsRestored :
      (base : String) (ps : List String) (r : Repo G) → IsRestored base ps r (restore env ps base r)
  unfolding restore
  restore-IsRestored base ps r =
      after_check_out base ps (filter (is_tracked env r base) ps)
        (filter (λ p. not (is_tracked env r base p)) ps) r
        (λ p. among-filter p (is_tracked env r base) ps)
        (λ p. among-filter p (λ p. not (is_tracked env r base p)) ps)
        (check_out env base (filter (is_tracked env r base) ps) r)
        (check_out-IsStep base (filter (is_tracked env r base) ps) r)
