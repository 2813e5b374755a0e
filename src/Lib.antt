-- ===== src/Lib.antt =====
-- A model of dbwiki, which turns database logs into a wiki of digests, error pages and incident pages.
--
-- What is modelled, and where:
--
-- Queue: the analyst queue of src/dbwiki/queue.py. One node enqueues requests for analysis in the
--   directory `queue/` of the wiki repository, another claims them, and its telemetry rides back in
--   `queue/results/`. Queue/Records is what is on disk (`_read_records`), Queue/Select the choice of a
--   request (`_supersede_targets`, `_select_claim_target`), Queue/Repo the repository with what git
--   answers (`_publish`, `_push_rebase_retry`), Queue/Actions the operations (`enqueue_request`,
--   `reclaim_stale`, `claim`, `complete`, `fail_request`), Queue/Fold the fold of the telemetry
--   (`fold_results`) into the capped log of src/dbwiki/health.py.
-- Incident: the parsed page of src/dbwiki/incidents.py, with the constructor of `ActionRecord` in
--   Incident/Record.
-- Lifecycle: src/dbwiki/lifecycle.py. Lifecycle itself has the commands, `TRANSITIONS` and
--   `_window_after`; Lifecycle/Build has `build` with `_action_of` and `_merged_into`, and `append_action`
--   and `set_status` of src/dbwiki/incidents.py on what the page says.
-- Registry: `Registry` of src/dbwiki/state.py, what was seen of a database and when; the children prove
--   what is kept when a window is compacted again.
-- Ledger: the watermarks and the ingest ledger of `StateStore` in src/dbwiki/state.py.
-- Pagetext: the editors of src/dbwiki/pagetext.py, on the text of a page: `section_append`,
--   `section_line_replace`, `section_remove_line`, `section_move_line`, `section_drop_if_empty` and
--   `log_append`.
-- Trigger: src/dbwiki/trigger.py, whether an agent wakes for a digest.
-- Transaction: src/dbwiki/transaction.py, by which pages of the wiki become one commit. Transaction/Proposals
--   is what is asked for (`Actor`, `Proposal`, `resolve_actor`, `is_machine`), Transaction/Repo the checkout
--   with what git and the disk answer (`head`, `stray_paths`, `capture`, `restore`), Transaction/Commit the
--   verdict and the write (`_candidate`, `_lint`, `preview`, `commit`).
-- Lint: src/dbwiki/lint.py, which `commit` runs over the tree as it would be. Lint itself has the findings
--   and `blocking`, Lint/Links `WIKILINK_RE` and `resolve_link`, Lint/Orphans `_orphan_findings`, Lint/Rules
--   the exceptions, `lint_wiki` and `linkers`.
-- Git: what src/dbwiki/gitutil.py reads of git's output, `changed_paths` and `ls_tree`.
-- PastFixes: src/dbwiki/past_fixes.py, the fixes of an error and whether they held. PastFixes/Lineage follows
--   an incident from merge to merge (`_closed`), PastFixes/Verdicts judges the records (`verdict_for`,
--   `gather`), PastFixes/Splice and PastFixes/Apply write the section of the error page (`splice_section`,
--   `render`, `apply`), and PastFixes/Days counts days.
-- Monitoring: src/dbwiki/monitoring.py, whether the digests meet the recovery signal of an incident.
--   Monitoring/Window is `window_days`, Monitoring/Evidence what one digest says (`_code_count`,
--   `_events_in_window`), Monitoring/Facts the record of an evaluation, Monitoring/Verdicts `_gaps`, the judge
--   of each signal and `evaluate`, Monitoring/Publish the files of all incidents (`evaluate_all`,
--   `_probe_for`, `_prune`), and Monitoring/Closure the case that a reader is shown (`closure_case`).
-- Health: the capped log of src/dbwiki/health.py with the line count that its process keeps.
-- Validate: src/dbwiki/validate.py, whose checks the constructors above use.
-- Prelude: Boolean tests, lists, Python's order and tests on texts, stable sorting, dictionaries.
--
-- A directory of files is a dictionary from names to contents; its order is not read without sorting. A
-- Python exception is a value of `Result` or `Option`; in the queue and the transaction it comes with the
-- repository as it was left. Texts are lists of characters, and dates are texts compared as Python compares
-- them. The loops over a number of rounds (`claim`, `_push_rebase_retry`) recurse on the rounds left, three at
-- first as in the source. Two loops have fuel: the walk over the links has a round for each link and one more,
-- since each popped page was pushed once by a link or is the first; and the walk from merge to merge has a
-- round for each page and one more, since no page is entered twice. That is enough, as their theorems
-- say. The reading of links and of git's fields, and the printing of numbers, have a round for each character,
-- field or unit, of which each round takes one at least. All other recursion is on lists and texts.
--
-- Arguments of the model are: git and the remote with their replies to each push (`Queue.Repo.Env`), the
-- verdict of `transaction.commit` as the queue sees it, the clock and the parser of stamps (`Clock`), and
-- whether a log append, a `git rm` and the commit of a fold succeed (`FoldEnv`). A `git fetch` that fails in
-- the middle of a claim's recovery is not among the replies. A raise of `transaction.commit` behind the write
-- takes the tree of the queue back to HEAD; that this fails as well is modelled in Transaction alone. The registry takes the order of `instant_key` and
-- the type of seconds and rates with its comparison, and the trigger takes the digest's content hash. The
-- transaction takes git as operations on a state of its own, with what git documents of them where a theorem
-- needs it (`Documented`), and which writes and removals on the disk fail. The lint takes the rules on frontmatter, digests,
-- evidence, citations and generated sections. The past fixes take the occurrences of an error page, which
-- src/dbwiki/readmodel.py reads, and the text of what was done. Monitoring takes the answer of the child
-- process that searches a pattern, the live count, the reader of a digest and which files can be written.
--
-- Not modelled: the text of the pages beside what is parsed from it (the index, the log, the rows of error
-- pages, the carried evidence and updates of a merge); `pull_before_fold`, which is one call of
-- src/dbwiki/gitutil.py, and `cat_blobs` and `pull_rebase` there; directories, the history and the batch of a
-- transaction; a malformed file of monitoring facts; the files of requests that make `_read_records` raise
-- (JSON that is no object, bytes that are not UTF-8); the bytes of a text, since a page or a request is written
-- and read back as its text; two processes on one capped log; and the rest of src/dbwiki: reports, compaction, the portal and the command lines.
pub mod Git
pub mod Health
pub mod Incident
pub mod Ledger
pub mod Lifecycle
pub mod Lint
pub mod Monitoring
pub mod Pagetext
pub mod PastFixes
pub mod Prelude
pub mod Queue
pub mod Registry
pub mod Transaction
pub mod Trigger
pub mod Validate
