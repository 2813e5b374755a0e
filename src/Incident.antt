-- ===== src/Incident.antt =====
-- src/dbwiki/incidents.py: what an incident page says, once `read_incident` has parsed it.
pub mod Record
use mathlib.Core.Bool.{Bool-discrete}
use logbook.Prelude.{
  ℕ, String, ◌≡◌, refl, ◌≢◌, inl, inr, Bool, true, false, not, ◌&&◌, Option, none, some, List, [],
  ◌∷◌, ◌++◌, ◌==◌, text_ltb, nonempty, concat, split, remove_suffix, Bool-cases, eq_iff,
  if◌then◌else◌,
}

pub data Status : Type 0 where
  open_status monitoring resolved : Status

pub data Outcome : Type 0 where
  pending succeeded failed rejected : Outcome

pub data RecoverySignal : Type 0 where
  error_absent : String → RecoverySignal
  event_present : String → RecoverySignal
  flow_resumed : String → RecoverySignal
  manual : String → RecoverySignal

-- `[start, until)`
pub record MonitoringWindow : Type 0 where
  pub signal : RecoverySignal
  pub start : String
  pub until : String

-- The values of `ACTION_KINDS`.
pub data ActionKind : Type 0 where
  record_action start_monitoring extend_monitoring resolve reopen merge : ActionKind

pub record ActionRecord : Type 0 where
  pub at : String
  pub kind : ActionKind
  pub actor : String
  pub intent : String
  pub summary : String
  pub status_after : Status
  pub ticket : String
  pub outcome : Outcome
  pub rollback : String
  pub window : Option MonitoringWindow
  pub evidence : List String
  pub notes : String
  pub error_pages : Bool

-- `unknown_status` holds a status that is not in the vocabulary. The title, the day it was opened and the
-- error codes are not here: no command reads or writes them.
pub record Incident : Type 0 where
  pub path : String
  pub db : String
  pub status : Status
  pub updated : String
  pub monitoring_window : Option MonitoringWindow
  pub unknown_status : Option String
  pub actions : List ActionRecord

-- `ACTIVE`
unfoldable pub is_active : Status → Bool
is_active open_status = true
is_active monitoring = true
is_active resolved = false

unfoldable pub same_status : Status → Status → Bool
same_status open_status open_status = true
same_status monitoring monitoring = true
same_status resolved resolved = true
same_status s t = false

unfoldable pub same_kind : ActionKind → ActionKind → Bool
same_kind record_action record_action = true
same_kind start_monitoring start_monitoring = true
same_kind extend_monitoring extend_monitoring = true
same_kind resolve resolve = true
same_kind reopen reopen = true
same_kind merge merge = true
same_kind a b = false

-- `Path(slug).name`: the last part that is neither empty nor a dot.
unfoldable pub last_part : List String → String
unfolding nonempty
last_part [] = ""
last_part (part ∷ parts) =
    let rest = last_part parts in if nonempty rest then rest else if part == "." then "" else part

unfoldable pub incident_path : String → String
unfolding last_part split remove_suffix nonempty
incident_path slug =
    concat ("incidents/" ∷ remove_suffix ".md" (last_part (split 47 slug)) ∷ ".md" ∷ [])

pub string_discrete : Discrete String
string_discrete s t = elim (Bool-cases (s == t)) [
  | inl same ↦ yes ((eq_iff s t).0 same)
  | inr other ↦ no (λ e. cc (other, (eq_iff s t).1 e))
]

pub ActionKind-discrete : Discrete ActionKind
ActionKind-discrete = hlevel

pub ActionRecord-discrete : Discrete ActionRecord
ActionRecord-discrete = hlevel string_discrete

traversal : incident_path "../../etc/passwd" ≡ "incidents/passwd.md"
unfolding incident_path
traversal = refl
