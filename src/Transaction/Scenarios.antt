-- ===== src/Transaction/Scenarios.antt =====
-- A small git that does what git documents, and the theorems of src/dbwiki/transaction.py over it.
use logbook.Prelude.{
  among, suc, String, ◌≡◌, refl, sym, ap, ◌∙◌, Bool, true, false, false≢true, Option, none, some,
  List, [], ◌∷◌, size, arith, eq_iff, eq_refl, ◌==◌, if◌then◌else◌, Bool-cases, inl, inr,
}
use logbook.Prelude.Dict.{get, put, get-put, get-remove}
use logbook.Lint.Rules.{Rules}
use logbook.Transaction.Proposals.{Actor, Proposal, ok, flag}
use logbook.Transaction.Repo.{Tree, Git, Env, Repo, set_file, capture, stray_paths}
use logbook.Transaction.Commit.{committed, Preview, preview, commit}
use logbook.Transaction.Restored.{Documented}
use logbook.Transaction.Whole.{IsAllOrNothing, commit-IsAllOrNothing}
use logbook.Transaction.Foretold.{foretold, commit-foretold}
use logbook.Transaction.Owned.{IsDirty, IsTaken, capture-IsTaken}

-- HEAD, what each revision holds, what `status` prints and what a worktree of HEAD holds.
record Small : Type 0 where
  at : String
  blobs : String → String → Option String
  printed : String
  checkout_of : Tree

write_paths : (String → Option String) → List String → Tree → Tree
unfolding set_file
write_paths f [] d = d
write_paths f (p ∷ ps) d = set_file (write_paths f ps d) p (f p)

get-set_file :
    (d : Tree) (k : String) (v : Option String) (j : String)
    → get (set_file d k v) j ≡ (if k == j then v else get d j)
unfolding set_file
get-set_file d k none j = get-remove d k j
get-set_file d k (some s) j = get-put d k j s

get-write_paths :
    (f : String → Option String) (ps : List String) (d : Tree) (j : String)
    → get (write_paths f ps d) j ≡ (if among j ps then f j else get d j)
unfolding write_paths
get-write_paths f [] d j = refl
get-write_paths f (p ∷ ps) d j =
    ground
      (arith, get-set_file (write_paths f ps d) p (f p) j, get-write_paths f ps d j, eq_iff p j)

abbrev next : String → String
next rev = String.◌∷◌ "x" rev

abbrev after_commit : List String → Tree → Small → Small
after_commit ps d g = record g {
  at = next g.at;
  blobs = λ rev p.
      if rev == next g.at then (if among p ps then get d p else g.blobs g.at p) else g.blobs rev p;
  printed = "";
}

abbrev small_git : Git Small
small_git = record {
  head = λ g. some g.at;
  short_head = λ g. some g.at;
  status = λ g d. some g.printed;
  blob = λ g. g.blobs;
  worktree = λ g rev. some g.checkout_of;
  diff = λ g rev d ps. some "";
  ls_files = λ g ps. some ps;
  add = λ ps d g. record { succeeded = true; left = g };
  commit = λ author message ps d g. record { succeeded = true; left = after_commit ps d g };
  checkout =
      λ rev ps (g, d). record { succeeded = true; left = (g, write_paths (g.blobs rev) ps d) };
  rm_cached = λ ps g. record { succeeded = true; left = g };
  push = λ g. record { succeeded = true; left = g };
}

size-next : (s : String) → (next s == s) ≡ false
unfolding size
size-next s = elim (Bool-cases (next s == s)) [
  | inl same ↦
      let e : next s ≡ s = ground (arith, eq_iff (next s) s) in
      let k : suc (size s) ≡ size s = ap size e in absurd (omega arith)
  | inr other ↦ other
]

small_git-Documented : Documented small_git
small_git-Documented = record {
  adds = λ ps d g rev. (refl, λ p. refl);
  removes = λ ps g rev. (refl, λ p. refl);
  checks_out = λ rev ps g d. (
    (refl, λ p. refl),
    λ p h. get-write_paths (g.blobs rev) ps d p ∙ rw h refl,
    λ done p h. get-write_paths (g.blobs rev) ps d p ∙ rw h refl,
  );
  refuses = λ author message ps d g rev h. absurd (false≢true (sym h));
  commits = λ author message ps d g old done at.
      let e : g.at ≡ old = ap (λ o. elim o [ none ↦ old | some s ↦ s ]) at in
      (
        next g.at,
        refl,
        ap (λ s. next g.at == s) (sym e) ∙ size-next g.at,
        λ p. rw (eq_refl (next g.at)) (ap (λ s. if among p ps then get d p else g.blobs s p) e),
      );
  pushes = λ g rev. (refl, λ p. refl);
  abbreviates = λ g rev h. refl;
}

-- No rule but those of the links finds anything.
abbrev silent : Rules
silent = record {
  is_utf8 = λ s. true;
  frontmatter = λ p t. [];
  digest = λ w p t. [];
  evidence = λ p t. [];
  citation = λ w p t. [];
  generated = λ p t. [];
}

-- A disk that works, and one that fails on a second file.
abbrev sound : Env Small
sound = record { git = small_git; fails = λ p content. none; sticks = λ p. false; rules = silent }

abbrev broken : Env Small
broken = record {
  git = small_git;
  fails = λ p content. if p == "b.md" then some (some "half") else none;
  sticks = λ p. false;
  rules = silent;
}

abbrev operator : Actor
operator = record { email = "ops@x"; name = "Ops"; source = flag }

abbrev two_pages : Proposal
two_pages = record {
  base = "r0";
  actor = operator;
  message = "note a fix";
  files = ("b.md", some "[[a]]") ∷ ("a.md", some "[[b]]") ∷ [];
  trailers = [];
  notes = [];
}

abbrev before : Repo Small
before = record {
  files = ("a.md", "[[b]] old") ∷ ("index.md", "[[a]]") ∷ [];
  git = record {
    at = "r0";
    blobs = λ rev p.
        if p == "a.md" then some "[[b]] old" else if p == "index.md" then some "[[a]]" else none;
    printed = "";
    checkout_of = ("a.md", "[[b]] old") ∷ ("index.md", "[[a]]") ∷ [];
  };
}

it_commits :
    (commit sound two_pages true true before).0 ≡ ok (committed "xr0" ("a.md" ∷ "b.md" ∷ []) true)
unfolding commit
it_commits = refl

-- The first file was written before the disk failed, and is as at the base again.
it_restores : get (commit broken two_pages true true before).1.files "a.md" ≡ some "[[b]] old"
unfolding commit get write_paths
it_restores = refl

commit-IsAllOrNothing_example :
    IsAllOrNothing sound two_pages before (commit sound two_pages true true before)
commit-IsAllOrNothing_example =
    commit-IsAllOrNothing sound small_git-Documented two_pages true true before

abbrev shown : Preview
shown = record {
  base = "r0";
  paths = "a.md" ∷ "b.md" ∷ [];
  diff = "";
  findings = [];
  strays = [];
  notes = [];
}

it_shows : (preview sound two_pages before).0 ≡ ok shown
unfolding preview
it_shows = refl

commit-foretold_example :
    commit sound two_pages true true before ≡ foretold sound two_pages shown true before
commit-foretold_example = commit-foretold sound two_pages true before shown refl it_shows

-- A page that was written by hand, and is not committed.
abbrev edited : Repo Small
edited = record before {
  files = put before.files "c.md" "by hand";
  git = record (before.git) { printed = "?? c.md\0 M digests/d.md\0" };
}

abbrev taken : Proposal
taken = record {
  base = "r0";
  actor = operator;
  message = "keep it";
  files = ("c.md", some "by hand") ∷ [];
  trailers = [];
  notes = [];
}

it_captures : (capture sound "r0" operator "keep it" [] edited).0 ≡ ok taken
unfolding capture put
it_captures = refl

capture-IsTaken_example :
    (strays : List String) × ((stray_paths sound edited).0 ≡ ok strays)
    × (¬ IsDirty (commit sound taken true false edited).0)
    × ((sha : String) (ps : List String) (pushed : Bool)
        → (commit sound taken true false edited).0 ≡ ok (committed sha ps pushed)
        → IsTaken sound small_git-Documented taken.base strays edited
            (commit sound taken true false edited).1)
capture-IsTaken_example =
    capture-IsTaken sound small_git-Documented "r0" operator "keep it" [] true false edited taken
      it_captures
