-- ===== src/Transaction/Repo.antt =====
-- The wiki checkout as `commit` uses it: the regular files of the working tree, which hold text, and what
-- git keeps. git and the disk are arguments; directories, and so `_prune_dirs`, are left out.
use logbook.Prelude.{
  String, Bool, true, false, not, Option, none, some, List, [], ◌∷◌, filter, map, ◌==◌, sorted,
  text_leb, if◌then◌else◌,
}
use logbook.Prelude.Dict.{Dict, get, put, remove}
use logbook.Git.{changed_paths}
use logbook.Transaction.Proposals.{
  Error, Result, ok, err, git_failed, disk_failed, Actor, Proposal, paths, desired, is_machine,
  checked, is_empty_list,
}
use logbook.Lint.Rules.{Rules}

abbrev pub Tree : Type 0
Tree = Dict String

-- The answer of a git command that writes: whether it exited with 0, and what there is afterwards.
pub record Reply (A : Type 0) : Type 0 where
  pub succeeded : Bool
  pub left : A

-- git, over whatever it keeps; `none` is a `RuntimeError` of the wrapper.
pub record Git (G : Type 0) : Type 0 where
  -- rev-parse HEAD, and --short HEAD
  pub head : G → Option String
  pub short_head : G → Option String
  -- status --porcelain=v1 -z -uall
  pub status : G → Tree → Option String
  -- show <rev>:<path>, which cat-file -e asks for as well
  pub blob : G → String → String → Option String
  -- worktree add --detach <rev>
  pub worktree : G → String → Option Tree
  -- diff --cached <rev> -- <paths>, in a worktree with those paths added
  pub diff : G → String → Tree → List String → Option String
  -- ls-files -- <paths>
  pub ls_files : G → List String → Option (List String)
  -- add --all -- <paths>
  pub add : List String → Tree → G → Reply G
  -- commit --author <actor> -m <message> -- <paths>
  pub commit : String → String → List String → Tree → G → Reply G
  -- checkout <rev> -- <paths>
  pub checkout : String → List String → G × Tree → Reply (G × Tree)
  -- rm --cached --ignore-unmatch -- <paths>
  pub rm_cached : List String → G → Reply G
  -- push
  pub push : G → Reply G

-- The disk may fail to write or to delete a path: what the path then holds. `sticks` says which paths a
-- restoration cannot delete.
pub record Env (G : Type 0) : Type 0 where
  pub git : Git G
  pub fails : String → Option String → Option (Option String)
  pub sticks : String → Bool
  pub rules : Rules

pub record Repo (G : Type 0) : Type 0 where
  pub files : Tree
  pub git : G

-- What was written before a raise stays written.
abbrev pub Exec : Type 0 → Type 0 → Type 0
Exec G A = Repo G → Result A × Repo G

module _ {G : Type 0} where
  abbrev pub pure : {A : Type 0} → A → Exec G A
  pure a r = (ok a, r)

  abbrev pub raise : {A : Type 0} → Error → Exec G A
  raise e r = (err e, r)

  abbrev pub ask : {A : Type 0} → Option A → Exec G A
  ask none r = (err git_failed, r)
  ask (some a) r = (ok a, r)

  abbrev pub continue : {A B : Type 0} → Result A → (A → Exec G B) → Exec G B
  continue (ok a) f r = f a r
  continue (err e) f r = (err e, r)

  infixl 5 ◌>>=◌ ◌>>◌
  abbrev pub ◌>>=◌ : {A B : Type 0} → Exec G A → (A → Exec G B) → Exec G B
  ◌>>=◌ m f r = let (a, r') = m r in continue a f r'

  abbrev pub ◌>>◌ : {A B : Type 0} → Exec G A → Exec G B → Exec G B
  m >> n = m >>= λ _. n

abbrev pub same_content : Option String → Option String → Bool
same_content none none = true
same_content none (some t) = false
same_content (some s) none = false
same_content (some s) (some t) = s == t

-- A path is given its content, or deleted.
unfoldable pub set_file : Tree → String → Option String → Tree
unfolding put remove
set_file d p none = remove d p
set_file d p (some s) = put d p s

unfoldable pub set_files : Tree → Dict (Option String) → Tree
unfolding set_file
set_files d [] = d
set_files d ((p, content) ∷ rest) = set_files (set_file d p content) rest

module _ {G : Type 0} (env : Env G) where
  unfoldable pub head : Exec G String
  head r = ask (env.git.head r.git) r

  abbrev changed_of : Option String → Option (List String)
  changed_of none = none
  changed_of (some out) = changed_paths out

  unfoldable pub changed : Exec G (List String)
  unfolding changed_paths
  changed r = ask (changed_of (env.git.status r.git r.files)) r

  unfoldable pub stray_paths : Exec G (List String)
  unfolding changed sorted filter is_machine text_leb
  stray_paths = changed >>= λ ps. pure (sorted text_leb (filter (λ p. not (is_machine p)) ps))

  -- `_read`
  unfoldable pub read : String → Repo G → Option String
  unfolding get
  read p r = get r.files p

  -- `capture`, of a base, an actor, a message and trailers
  unfoldable pub captured :
      String → Actor → String → List (String × String) → List String → Exec G Proposal
  unfolding read checked
  captured base actor message trailers strays r = (
    checked (record {
      base = base;
      actor = actor;
      message = message;
      files = map (λ p. (p, read p r)) strays;
      trailers = trailers;
      notes = [];
    }),
    r,
  )

  unfoldable pub capture : String → Actor → String → List (String × String) → Exec G Proposal
  unfolding stray_paths captured
  capture base actor message trailers = stray_paths >>= captured base actor message trailers

  -- `_unowned` of one stray path, negated
  unfoldable pub is_owned : Proposal → Repo G → String → Bool
  unfolding get read
  is_owned p r path = elim (get p.files path) [
    | none ↦ false
    | some content ↦ same_content (read path r) content
  ]

  unfoldable pub unowned_of : Proposal → List String → Exec G (List String)
  unfolding is_owned filter
  unowned_of p strays r = (ok (filter (λ path. not (is_owned p r path)) strays), r)

  unfoldable pub unowned : Proposal → Exec G (List String)
  unfolding stray_paths unowned_of
  unowned p = stray_paths >>= unowned_of p

  -- `_differing`
  unfoldable pub differing : Proposal → Repo G → List String
  unfolding filter paths desired
  differing p r =
      filter (λ path. not (same_content (desired p path) (env.git.blob r.git p.base path)))
        (paths p)

  -- `_place`
  place_on : String → Option String → Option (Option String) → Exec G (Unit {0})
  unfolding set_file
  place_on p content none r = (ok tt, record r { files = set_file r.files p content })
  place_on p content (some left) r = (err disk_failed, record r { files = set_file r.files p left })

  unfoldable pub place : String → Option String → Exec G (Unit {0})
  unfolding place_on
  place p content = place_on p content (env.fails p content)

  unfoldable pub took : Reply G → Exec G (Unit {0})
  took reply r =
      ((if reply.succeeded then ok tt else err git_failed), record r { git = reply.left })

  took_tree : Reply (G × Tree) → Exec G (Unit {0})
  took_tree reply r = (
    (if reply.succeeded then ok tt else err git_failed),
    record { files = reply.left.1; git = reply.left.0 },
  )

  -- A git command on no paths is not run.
  abbrev pub unless_empty : List String → Exec G (Unit {0}) → Exec G (Unit {0})
  unless_empty ps m = if is_empty_list ps then pure tt else m

  abbrev pub is_tracked : Repo G → String → String → Bool
  is_tracked r base p = elim (env.git.blob r.git base p) [ none ↦ false | some s ↦ true ]

  unfoldable pub check_out : String → List String → Exec G (Unit {0})
  unfolding took_tree
  check_out base tracked =
      unless_empty tracked λ r. took_tree (env.git.checkout base tracked (r.git, r.files)) r

  unfoldable pub unstage : List String → Exec G (Unit {0})
  unfolding took
  unstage added = unless_empty added λ r. took (env.git.rm_cached added r.git) r

  unfoldable pub delete_all : List String → Exec G (Unit {0})
  unfolding remove
  delete_all [] r = (ok tt, r)
  delete_all (p ∷ ps) r =
      let rest = delete_all ps (record r { files = remove r.files p }) in
      if env.sticks p then (err disk_failed, r) else rest

  unfoldable pub restore : List String → String → Exec G (Unit {0})
  unfolding filter check_out unstage delete_all
  restore ps base r =
      let tracked = filter (is_tracked r base) ps in
      let added = filter (λ p. not (is_tracked r base p)) ps in
      (check_out base tracked >> unstage added >> delete_all added) r
