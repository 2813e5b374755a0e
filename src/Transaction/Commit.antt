-- ===== src/Transaction/Commit.antt =====
-- `preview` and `commit`: one verdict over the same candidate tree, then the write.
use logbook.Prelude.{
  among, String, Bool, true, false, not, ◌&&◌, ◌||◌, Option, none, some, List, [], ◌∷◌, ◌++◌,
  filter, map, ◌==◌, eqb, every, after, starts_with, has_end, nonempty, sorted, text_leb,
  if◌then◌else◌,
}
use Prim.Native.Char.{Char}
use logbook.Prelude.Dict.{Dict}
use logbook.Lint.{Finding, blocking}
use logbook.Lint.Links.{resolve_link}
use logbook.Lint.Rules.{lint_wiki, linkers, markdown_files}
use logbook.Transaction.Proposals.{
  Result, ok, err, lock_not_held, Proposal, paths, desired, in_machine_dirs, git_author,
  commit_message, is_empty_list,
}
use logbook.Transaction.Repo.{
  Tree, Env, Repo, Exec, pure, raise, ask, ◌>>=◌, ◌>>◌, set_files, head, changed, read, unowned,
  differing, place, took, unless_empty, restore,
}

pub record Preview : Type 0 where
  pub base : String
  pub paths : List String
  pub diff : String
  pub findings : List Finding
  pub strays : List String
  pub notes : List String

-- What a commit that returns says.
pub data Outcome : Type 0 where
  committed : String → List String → Bool → Outcome
  nothing_to_do : String → Outcome
  base_moved : String → String → Outcome
  lint_blocked : List Finding → Outcome
  tree_dirty : List String → Outcome

-- What is in front of a text's end, if it ends so.
abbrev longer : Char → Option String → Option String
longer c none = none
longer c (some t) = some (String.◌∷◌ c t)

unfoldable pub before_end : String → String → Option String
before_end suffix String.[] = if suffix == "" then some "" else none
before_end suffix (String.◌∷◌ c s) =
    let rest = before_end suffix s in if String.◌∷◌ c s == suffix then some "" else longer c rest

-- `_BROKEN_LINK_RE.match(message)`: the target of the link.
unfoldable pub broken_target : String → Option String
unfolding after before_end nonempty every
broken_target message = elim (after "[[" message) [
  | none ↦ none
  | some rest ↦ elim (before_end "]] matches no page" rest) [
    | none ↦ none
    | some t ↦ if nonempty t && every (λ c. not (eqb c 10)) t then some t else none
  ]
]

module _ {G : Type 0} (env : Env G) where
  -- The uncommitted machine output of the working tree.
  overlay : Repo G → List String → Dict (Option String)
  unfolding filter starts_with read
  overlay r ps = map (λ p. (p, read env p r)) (filter in_machine_dirs ps)

  -- `_candidate`; a worktree that is stranded or left over is no part of the repository here.
  unfoldable pub candidate_of : Proposal → Tree → List String → Exec G Tree
  unfolding overlay set_files
  candidate_of p tree ps r = (ok (set_files (set_files tree (overlay r ps)) p.files), r)

  unfoldable pub candidate : Proposal → Exec G Tree
  unfolding candidate_of changed
  candidate p r =
      (ask (env.git.worktree r.git p.base) >>= λ tree. changed env >>= candidate_of p tree) r

  abbrev is_deletion : Option String → Bool
  is_deletion none = true
  is_deletion (some content) = false

  -- The pages that the proposal deletes.
  unfoldable pub gone_pages : Proposal → List String → List String
  unfolding filter desired has_end
  gone_pages p ps = filter (λ path. is_deletion (desired p path) && has_end ".md" path) ps

  abbrev is_one_of : List String → Option String → Bool
  is_one_of ps none = false
  is_one_of ps (some p) = among p ps

  abbrev target_in : List String → List String → Option String → Bool
  target_in inventory gone none = false
  target_in inventory gone (some t) = is_one_of gone (resolve_link t inventory)

  unfoldable pub linking_pages : Tree → List String → List String → List String
  unfolding sorted filter linkers text_leb
  linking_pages tree gone ps =
      if is_empty_list gone
      then []
      else sorted text_leb (filter (λ q. not (among q ps)) (linkers env.rules tree gone))

  -- `_lint`
  unfoldable pub lint : Tree → Proposal → List String → List Finding
  unfolding gone_pages linking_pages lint_wiki filter broken_target resolve_link markdown_files
  lint tree p ps =
      let gone = gone_pages p ps in
      let extra = linking_pages tree gone ps in
      let findings = lint_wiki env.rules tree (some (ps ++ extra)) in
      if is_empty_list extra
      then findings
      else filter
          (λ f.
            among f.file ps
            || target_in (markdown_files tree ++ gone) gone (broken_target f.message))
          findings

  unfoldable pub diffed : Proposal → List String → Tree → Exec G (String × List Finding)
  unfolding lint
  diffed p ps tree r = (ask (env.git.diff r.git p.base tree ps) >>= λ d. pure (d, lint tree p ps)) r

  -- The diff and the findings of a preview.
  unfoldable pub judged : Proposal → List String → Exec G (String × List Finding)
  unfolding candidate diffed
  judged p ps = if is_empty_list ps then pure ("", []) else candidate p >>= diffed p ps

  unfoldable pub shown_as : Proposal → List String → (String × List Finding) → List String → Preview
  shown_as p ps (d, findings) strays = record {
    base = p.base;
    paths = ps;
    diff = d;
    findings = findings;
    strays = strays;
    notes = p.notes;
  }

  unfoldable pub preview : Proposal → Exec G Preview
  unfolding differing judged unowned shown_as
  preview p r =
      let ps = differing env p r in
      (judged p ps >>= λ v. unowned env p >>= λ strays. pure (shown_as p ps v strays)) r

  unfoldable pub place_all : Proposal → List String → Exec G (Unit {0})
  unfolding place desired
  place_all p [] r = (ok tt, r)
  place_all p (path ∷ ps) r = (place env path (desired p path) >> place_all p ps) r

  is_present : Option String → Bool
  is_present none = false
  is_present (some s) = true

  -- `_stageable`
  stageable_of : List String → List String → Exec G (List String)
  unfolding filter read is_present
  stageable_of ps indexed r =
      (ok (filter (λ p. among p indexed || is_present (read env p r)) ps), r)

  stageable : List String → Exec G (List String)
  unfolding stageable_of
  stageable ps r = (ask (env.git.ls_files r.git ps) >>= stageable_of ps) r

  unfoldable pub add_known : List String → Exec G (Unit {0})
  unfolding took
  add_known known = unless_empty env known λ r. took env (env.git.add known r.files r.git) r

  unfoldable pub stage : List String → Exec G (Unit {0})
  unfolding stageable add_known
  stage ps = stageable ps >>= add_known

  unfoldable pub git_commit : Proposal → List String → Exec G (Unit {0})
  unfolding took git_author commit_message
  git_commit p ps r =
      took env (env.git.commit (git_author p.actor) (commit_message p) ps r.files r.git) r

  -- The body of the `try`.
  unfoldable pub write : Proposal → List String → Exec G (Unit {0})
  unfolding place_all stage git_commit
  write p ps = place_all p ps >> stage ps >> git_commit p ps

  -- `except BaseException: restore(...); raise`
  unfoldable pub or_restore : Proposal → Result (Unit {0}) → Exec G (Unit {0})
  unfolding restore paths
  or_restore p (ok done) = pure done
  or_restore p (err e) = restore env (paths p) p.base >> raise e

  unfoldable pub write_or_restore : Proposal → List String → Exec G (Unit {0})
  unfolding write or_restore
  write_or_restore p ps r = let (a, r') = write p ps r in or_restore p a r'

  -- `push_best_effort(wiki) if push else False`
  unfoldable pub push_best_effort : Bool → Exec G Bool
  push_best_effort asked r =
      let reply = env.git.push r.git in
      if asked then (ok reply.succeeded, record r { git = reply.left }) else (ok false, r)

  -- The `Committed` that is returned: its sha, then the push.
  unfoldable pub announced : Bool → List String → Exec G Outcome
  unfolding push_best_effort
  announced push ps r =
      (ask (env.git.short_head r.git) >>= λ sha.
      push_best_effort push >>= λ pushed. pure (committed sha ps pushed))
        r

  unfoldable pub landed : Proposal → Bool → List String → List Finding → Exec G Outcome
  unfolding write_or_restore announced
  landed p push ps findings =
      if is_empty_list findings
      then write_or_restore p ps >> announced push ps
      else pure (lint_blocked findings)

  unfoldable pub linted : Proposal → Bool → List String → Exec G Outcome
  unfolding candidate lint blocking landed
  linted p push ps =
      if is_empty_list ps
      then pure (nothing_to_do p.base)
      else candidate p >>= λ tree. landed p push ps (blocking (lint tree p ps))

  unfoldable pub cleaned : Proposal → Bool → List String → Exec G Outcome
  unfolding linted differing
  cleaned p push strays r =
      (if is_empty_list strays then linted p push (differing env p r) else pure (tree_dirty strays))
        r

  unfoldable pub based : Proposal → Bool → String → Exec G Outcome
  unfolding cleaned unowned
  based p push actual =
      if actual == p.base then unowned env p >>= cleaned p push else pure (base_moved p.base actual)

  -- `commit`, with or without an active `Held` token.
  unfoldable pub commit : Proposal → Bool → Bool → Exec G Outcome
  unfolding based head
  commit p held push = if held then head env >>= based p push else raise lock_not_held
