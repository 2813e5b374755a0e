-- ===== src/Lifecycle.antt =====
-- src/dbwiki/lifecycle.py: which incident transitions are allowed, and what a command makes of the
-- pages. A page is what `read_incident` reads of it; the text around it is not modelled here.
pub mod Table
pub mod Build
mod Scenarios
use logbook.Prelude.{
  ℕ, String, ◌≡◌, ◌≢◌, Bool, true, false, not, ◌&&◌, ◌||◌, Option, none, some, List, [], ◌∷◌, ◌++◌,
  map, filter, any, ◌==◌, text_leb, text_ltb, concat, strip, nonempty, if◌then◌else◌,
}
use logbook.Prelude.Dict.{Dict, get, put}
use logbook.Validate.{is_instant}
use logbook.Incident.{
  Status, open_status, monitoring, resolved, Outcome, pending, succeeded, failed, RecoverySignal,
  MonitoringWindow, ActionKind, record_action, start_monitoring, extend_monitoring, resolve, reopen,
  merge, ActionRecord, ActionRecord-discrete, Incident, is_active, same_status, same_kind,
}

pub record RecordAction : Type 0 where
  pub intent : String
  pub summary : String
  pub ticket : String
  pub outcome : Outcome
  pub rollback : String
  pub evidence : List String
  pub notes : String

pub record StartMonitoring : Type 0 where
  pub signal : RecoverySignal
  pub until : String
  pub intent : String
  pub summary : String
  pub ticket : String
  pub evidence : List String
  pub notes : String

pub record ExtendMonitoring : Type 0 where
  pub until : String
  pub intent : String
  pub notes : String

pub record Resolve : Type 0 where
  pub summary : String
  pub residual_risk : String
  pub ticket : String
  pub evidence : List String
  pub notes : String
  pub update_error_pages : Bool

pub record Reopen : Type 0 where
  pub reason : String
  pub evidence : List String
  pub notes : String

pub record Merge : Type 0 where
  pub into : String
  pub notes : String

pub data Command : Type 0 where
  records : RecordAction → Command
  starts : StartMonitoring → Command
  extends : ExtendMonitoring → Command
  resolves : Resolve → Command
  reopens : Reopen → Command
  merges : Merge → Command

-- `KINDS[type(command)]`; it stands for the type too.
unfoldable pub kind_of : Command → ActionKind
kind_of (records c) = record_action
kind_of (starts c) = start_monitoring
kind_of (extends c) = extend_monitoring
kind_of (resolves c) = resolve
kind_of (reopens c) = reopen
kind_of (merges c) = merge

-- A row of `TRANSITIONS`.
pub record Row : Type 0 where
  pub from : Status
  pub command : ActionKind
  pub to : Status

abbrev row : Status → ActionKind → Status → Row
row s k t = record { from = s; command = k; to = t }

-- `TRANSITIONS`, in the order of the table.
unfoldable pub transitions : List Row
transitions =
    row open_status record_action open_status
    ∷ row monitoring record_action monitoring
    ∷ row resolved record_action resolved
    ∷ row open_status start_monitoring monitoring
    ∷ row monitoring start_monitoring monitoring
    ∷ row monitoring extend_monitoring monitoring
    ∷ row open_status resolve resolved
    ∷ row monitoring resolve resolved
    ∷ row resolved reopen open_status
    ∷ row open_status merge resolved
    ∷ row monitoring merge resolved
    ∷ []

unfoldable pub look_up : List Row → Status → ActionKind → Option Status
unfolding same_status same_kind
look_up [] s k = none
look_up (r ∷ rows) s k =
    if same_status r.from s && same_kind r.command k then some r.to else look_up rows s k

-- `none` is the `TransitionError`.
unfoldable pub next_status : Status → Command → Option Status
unfolding look_up transitions kind_of
next_status s c = look_up transitions s (kind_of c)

-- The commands legal from a status, in table order.
unfoldable pub allowed : Status → List ActionKind
unfolding transitions same_status filter
allowed s = map (λ r. r.command) (filter (λ r. same_status r.from s) transitions)

-- Why `build` refuses.
pub data Refusal : Type 0 where
  no_page transition_error merge_refused action_malformed action_collision : Refusal

pub data Result (A : Type 0) : Type 0 where
  ok : A → Result A
  err : Refusal → Result A

infixl 5 ◌>>=◌ ◌>>◌
abbrev pub ◌>>=◌ : {A B : Type 0} → Result A → (A → Result B) → Result B
ok a >>= f = f a
err e >>= f = err e

abbrev pub ◌>>◌ : {B : Type 0} → Result Unit → Result B → Result B
m >> n = m >>= λ _. n

-- `if test: raise refusal`
abbrev pub refuse_if : Bool → Refusal → Result Unit
refuse_if true e = err e
refuse_if false e = ok tt

abbrev pub or_raise : {A : Type 0} → Option A → Refusal → Result A
or_raise none e = err e
or_raise (some a) e = ok a

-- The constructor of `MonitoringWindow`.
unfoldable pub new_window : RecoverySignal → String → String → Result MonitoringWindow
unfolding is_instant
new_window signal start until = do
  refuse_if (not (is_instant start)) action_malformed
  refuse_if (not (is_instant until)) action_malformed
  refuse_if (text_leb until start) action_malformed
  ok (record { signal = signal; start = start; until = until })

-- `any(r.at == at and r.kind == "extend-monitoring" for r in records)`
unfoldable pub is_replay : String → List ActionRecord → Bool
unfolding same_kind
is_replay at = any λ r. r.at == at && same_kind r.kind extend_monitoring

unfoldable pub extended :
    Option MonitoringWindow → List ActionRecord → String → String → Result (Option MonitoringWindow)
unfolding new_window is_replay
extended none done until at = err action_malformed
extended (some w) done until at = do
  refuse_if (text_ltb until w.until || (until == w.until && not (is_replay at done)))
      action_malformed
  refuse_if (text_leb until at) action_malformed
  new ← new_window w.signal w.start until
  ok (some new)

-- `_window_after`
unfoldable pub window_after : Incident → Command → String → Result (Option MonitoringWindow)
unfolding extended
window_after i (starts c) at = do new ← new_window c.signal at c.until; ok (some new)
window_after i (extends c) at = extended i.monitoring_window i.actions c.until at
window_after i (resolves c) at = ok none
window_after i (reopens c) at = ok none
window_after i (merges c) at = ok none
window_after i (records c) at = ok i.monitoring_window

-- `_notes_with_risk`
unfoldable pub notes_with_risk : Resolve → String
unfolding strip nonempty
notes_with_risk c =
    let risk = strip c.residual_risk in
    let notes = strip c.notes in
    if not (nonempty risk)
    then notes
    else if nonempty notes
    then concat ("Residual risk: " ∷ risk ∷ "\n\n" ∷ notes ∷ [])
    else concat ("Residual risk: " ∷ risk ∷ [])

-- `_notes_with_supersede`
unfoldable pub notes_with_supersede : String → String → String
unfolding strip nonempty
notes_with_supersede kept notes =
    let extra = strip notes in
    let supersede = concat ("Superseded by [[" ∷ kept ∷ "]]." ∷ []) in
    if nonempty extra then concat (supersede ∷ "\n\n" ∷ extra ∷ []) else supersede
