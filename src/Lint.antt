-- ===== src/Lint.antt =====
-- src/dbwiki/lint.py: the findings over the pages of a wiki, and which of them fail a run.
pub mod Links
pub mod Orphans
pub mod Rules
pub mod Reach
pub mod Unlinked
pub mod Restrict
mod Scenarios
use logbook.Prelude.{
  String, Bool, true, false, not, ◌&&◌, ◌||◌, List, any, filter, ◌==◌, if◌then◌else◌,
}

pub data Severity : Type 0 where
  error : Severity
  warning : Severity

-- The keys of `RULES`.
pub data Rule : Type 0 where
  frontmatter_malformed : Rule
  frontmatter_contradictory : Rule
  incident_status_invalid : Rule
  action_malformed : Rule
  evidence_ref_malformed : Rule
  wikilink_broken : Rule
  page_orphaned : Rule
  digest_missing : Rule
  citation_malformed : Rule
  encoding_invalid : Rule
  generated_section_drift : Rule

-- `RULES[rule][0]`
unfoldable pub severity_of : Rule → Severity
severity_of page_orphaned = warning
severity_of generated_section_drift = warning
severity_of _ = error

-- The name that `.lint-exceptions` uses.
unfoldable pub rule_name : Rule → String
rule_name frontmatter_malformed = "frontmatter-malformed"
rule_name frontmatter_contradictory = "frontmatter-contradictory"
rule_name incident_status_invalid = "incident-status-invalid"
rule_name action_malformed = "action-malformed"
rule_name evidence_ref_malformed = "evidence-ref-malformed"
rule_name wikilink_broken = "wikilink-broken"
rule_name page_orphaned = "page-orphaned"
rule_name digest_missing = "digest-missing"
rule_name citation_malformed = "citation-malformed"
rule_name encoding_invalid = "encoding-invalid"
rule_name generated_section_drift = "generated-section-drift"

-- The hint is a text for each rule, and is left out.
pub record Finding : Type 0 where
  pub file : String
  pub rule : Rule
  pub severity : Severity
  pub message : String
  pub suppressed : Bool

-- `_f`
unfoldable pub finding : String → Rule → String → Finding
unfolding severity_of
finding f r text = record {
  file = f;
  rule = r;
  severity = severity_of r;
  message = text;
  suppressed = false;
}

abbrev is_error : Severity → Bool
is_error error = true
is_error warning = false

abbrev pub is_blocking : Finding → Bool
is_blocking f = is_error f.severity && not f.suppressed

unfoldable pub blocking : List Finding → List Finding
unfolding filter
blocking = filter is_blocking
