-- ===== src/Lifecycle/Build.antt =====
-- src/dbwiki/lifecycle.py: `build`, as far as incident pages go, with `append_action` and `set_status`
-- of src/dbwiki/incidents.py on what the pages say. The index, the log, the error pages' rows and the
-- evidence and update sections that a merge carries over are text beside it.
pub mod Steps
pub mod Effects
pub mod Statuses
pub mod Windows
pub mod Audit
pub mod Merges
use logbook.Prelude.{
  ℕ, String, ◌≡◌, Bool, true, false, not, ◌&&◌, Option, none, some, List, [], ◌∷◌, ◌++◌, filter,
  any, ◌==◌, concat, nonempty, drop_end, if◌then◌else◌,
}
use logbook.Prelude.Dict.{Dict, get, put}
use logbook.Incident.{
  Status, pending, succeeded, failed, ActionKind, record_action, ActionRecord,
  ActionRecord-discrete, Incident, is_active, incident_path,
}
use logbook.Incident.Record.{new_record}
use logbook.Lifecycle.{
  RecordAction, StartMonitoring, ExtendMonitoring, Resolve, Reopen, Merge, Command, records, starts,
  extends, resolves, reopens, merges, kind_of, next_status, Result, ok, err, Refusal, no_page,
  transition_error, merge_refused, action_malformed, action_collision, ◌>>=◌, ◌>>◌, refuse_if,
  or_raise, window_after, notes_with_risk, notes_with_supersede,
}

-- The record before its constructor has looked at it.
unfoldable pub draft_of : Command → String → String → Status → ActionRecord
unfolding kind_of incident_path drop_end notes_with_risk notes_with_supersede
draft_of (records c) actor at status = record {
  at = at;
  kind = kind_of (records c);
  actor = actor;
  intent = c.intent;
  summary = c.summary;
  status_after = status;
  ticket = c.ticket;
  outcome = c.outcome;
  rollback = c.rollback;
  window = none;
  evidence = c.evidence;
  notes = c.notes;
  error_pages = true;
}
draft_of (starts c) actor at status = record {
  at = at;
  kind = kind_of (starts c);
  actor = actor;
  intent = c.intent;
  summary = c.summary;
  status_after = status;
  ticket = c.ticket;
  outcome = pending;
  rollback = "";
  window = none;
  evidence = c.evidence;
  notes = c.notes;
  error_pages = true;
}
draft_of (extends c) actor at status = record {
  at = at;
  kind = kind_of (extends c);
  actor = actor;
  intent = c.intent;
  summary = concat ("extended the monitoring window to " ∷ c.until ∷ []);
  status_after = status;
  ticket = "";
  outcome = pending;
  rollback = "";
  window = none;
  evidence = [];
  notes = c.notes;
  error_pages = true;
}
draft_of (resolves c) actor at status = record {
  at = at;
  kind = kind_of (resolves c);
  actor = actor;
  intent = "close the incident";
  summary = c.summary;
  status_after = status;
  ticket = c.ticket;
  outcome = succeeded;
  rollback = "";
  window = none;
  evidence = c.evidence;
  notes = notes_with_risk c;
  error_pages = c.update_error_pages;
}
draft_of (reopens c) actor at status = record {
  at = at;
  kind = kind_of (reopens c);
  actor = actor;
  intent = "reopen the incident";
  summary = c.reason;
  status_after = status;
  ticket = "";
  outcome = failed;
  rollback = "";
  window = none;
  evidence = c.evidence;
  notes = c.notes;
  error_pages = true;
}
draft_of (merges c) actor at status =
    let kept = drop_end 3 (incident_path c.into) in
    record {
      at = at;
      kind = kind_of (merges c);
      actor = actor;
      intent = "fold a duplicate into the page that keeps it";
      summary = concat ("duplicate of " ∷ kept ∷ []);
      status_after = status;
      ticket = "";
      outcome = succeeded;
      rollback = "";
      window = none;
      evidence = [];
      notes = notes_with_supersede kept c.notes;
      error_pages = true;
    }

-- `_action_of`
unfoldable pub action_of : Incident → Command → String → String → Status → Result ActionRecord
unfolding draft_of window_after new_record
action_of i c actor at status = do
  window ← window_after i c at
  or_raise (new_record (record (draft_of c actor at status) { window = window })) action_malformed

abbrev pub refuted {ℓ} : {A : Type ℓ} → Dec A → Bool
refuted (yes same) = false
refuted (no other) = true

-- `held != record`
unfoldable pub differs : ActionRecord → ActionRecord → Bool
differs held r = refuted (ActionRecord-discrete held r)

-- The record in place of the sections of its instant, or at the end.
unfoldable pub placed : ActionRecord → List ActionRecord → List ActionRecord
placed r [] = r ∷ []
placed r (held ∷ more) =
    let rest = placed r more in
    if held.at == r.at then r ∷ filter (λ h. not (h.at == r.at)) more else held ∷ rest

-- `append_action`
unfoldable pub append_action : ActionRecord → List ActionRecord → Result (List ActionRecord)
unfolding differs placed
append_action r held =
    if any (λ h. h.at == r.at && differs h r) held then err action_collision else ok (placed r held)

-- The page behind `set_status(append_action(text, record), record.status_after, ...)`.
unfoldable pub written : Incident → ActionRecord → String → Result Incident
unfolding append_action
written i r at = do
  actions ← append_action r i.actions
  ok (record i {
    status = r.status_after;
    updated = at;
    monitoring_window = r.window;
    actions = actions;
  })

-- The record of a merge on the page that it keeps.
unfoldable pub kept_record : Incident → Incident → String → String → ActionRecord
unfolding drop_end
kept_record kept dropped actor at =
    let target = drop_end 3 dropped.path in
    record {
      at = at;
      kind = record_action;
      actor = actor;
      intent = "keep one page for this db and day";
      summary = concat ("merged " ∷ target ∷ " into this page" ∷ []);
      status_after = kept.status;
      ticket = "";
      outcome = succeeded;
      rollback = "";
      window = kept.monitoring_window;
      evidence = [];
      notes = concat ("Folded [[" ∷ target ∷ "]] in as a duplicate of the same db and day." ∷ []);
      error_pages = true;
    }

abbrev is_some {ℓ} : {A : Type ℓ} → Option A → Bool
is_some none = false
is_some (some a) = true

abbrev pub read_as : String → Option Incident → Option Incident
read_as path none = none
read_as path (some i) = some (record i { path = path })

-- `read_incident(tree.read(path), path)`
unfoldable pub page_at : Dict Incident → String → Option Incident
unfolding get
page_at tree path = read_as path (get tree path)

-- `_merged_into`: the kept page.
unfoldable pub merged_into : Dict Incident → Incident → Merge → String → String → Result Incident
unfolding incident_path page_at is_active kept_record new_record written
merged_into tree dropped c actor at = do
  let path = incident_path c.into
  refuse_if (path == dropped.path) merge_refused
  kept ← or_raise (page_at tree path) merge_refused
  refuse_if (not (kept.db == dropped.db)) merge_refused
  refuse_if (is_some kept.unknown_status) merge_refused
  refuse_if (not (is_active kept.status)) merge_refused
  r ← or_raise (new_record (kept_record kept dropped actor at)) action_malformed
  written kept r at

-- What `build` puts in `files` for a merge's kept page.
unfoldable pub with_kept :
    Dict Incident → Incident → Command → String → String → Result (Dict Incident)
unfolding merged_into incident_path
with_kept tree i (merges c) actor at = do
  kept ← merged_into tree i c actor at
  ok (put tree (incident_path c.into) kept)
with_kept tree i c actor at = ok tree

-- `build`, with its pages published.
unfoldable pub build : Dict Incident → String → Command → String → String → Result (Dict Incident)
unfolding page_at next_status action_of written with_kept
build tree path c actor at = do
  i ← or_raise (page_at tree path) no_page
  refuse_if (is_some i.unknown_status) transition_error
  status ← or_raise (next_status i.status c) transition_error
  r ← action_of i c actor at status
  page ← written i r at
  with_page ← with_kept tree i c actor at
  ok (put with_page path page)
