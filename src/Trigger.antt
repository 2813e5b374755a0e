-- ===== src/Trigger.antt =====
-- src/dbwiki/trigger.py: whether an agent wakes for a digest, and why. The content hash of the digest
-- (`Compactor.content_hash`) is an argument of `decide`.
pub mod Outcomes
mod Scenarios
use logbook.Prelude.{
  ℕ, String, ◌≡◌, refl, Bool, true, false, not, ◌&&◌, ◌||◌, Option, none, some, List, [], ◌∷◌, ◌++◌,
  map, filter, any, ◌==◌, text_leb, sorted, concat, if◌then◌else◌,
}

pub data Outcome : Type 0 where
  wake skip force_consolidation : Outcome

pub data ModelTier : Type 0 where
  cheap strong : ModelTier

-- A delta of the digest; `body` stands for its other fields.
pub record Delta : Type 0 where
  pub type : String
  pub body : String

pub record Group : Type 0 where
  pub rule : String
  pub class : String
  pub count : ℕ

pub record Window : Type 0 where
  pub from : String
  pub to : String
  pub day : String

-- `sources` are the notable groups of each source.
pub record Digest : Type 0 where
  pub db : String
  pub window : Window
  pub notable : Bool
  pub deltas : List Delta
  pub sources : List (String × List Group)

pub record LedgerEntry : Type 0 where
  pub status : Option String
  pub window_to : Option String
  pub content_hash : Option String

pub data Evidence : Type 0 where
  nothing : Evidence
  of_entry : Option String → Option String → Evidence
  of_hash : String → Evidence
  of_delta : Delta → Evidence
  of_group : Group → Evidence

pub record Reason : Type 0 where
  pub code : String
  pub evidence : Evidence

pub record TriggerDecision : Type 0 where
  pub db : String
  pub window : Window
  pub outcome : Outcome
  pub reasons : List Reason
  pub model_tier : ModelTier
  pub content_hash : String
  pub explanation : String

abbrev pub reason : String → Evidence → Reason
reason code evidence = record { code = code; evidence = evidence }

abbrev pub is_among : String → List String → Bool
is_among s texts = any (λ t. s == t) texts

-- `_ESCALATING_DELTA_TYPES`
abbrev pub escalating_delta_types : List String
escalating_delta_types = "first_ever_code" ∷ "silence" ∷ []

-- `_DELTA_REASON_TYPES`
abbrev pub delta_reason_types : List String
delta_reason_types =
    "first_ever_code" ∷ "silence" ∷ "rate_anomaly" ∷ "new_service" ∷ "new_client_program"
    ∷ "after_change" ∷ []

unfoldable pub digest_needs_escalation : Digest → Bool
digest_needs_escalation d =
    any (λ x. is_among x.type escalating_delta_types) d.deltas
    || any (λ s. any (λ g. g.class == "error") s.1) d.sources

-- `sorted({...})`: equal neighbours of the sorted list are one.
unfoldable pub once_each : List String → List String
once_each [] = []
once_each (s ∷ texts) =
    let rest = once_each texts in if any (λ t. t == s) rest then rest else s ∷ rest

unfoldable pub joined : List String → String
joined [] = ""
joined (s ∷ texts) = elim texts [ [] ↦ s | t ∷ more ↦ concat (s ∷ ", " ∷ joined texts ∷ []) ]

abbrev pub tier_name : ModelTier → String
tier_name cheap = "cheap"
tier_name strong = "strong"

-- `", ".join(...) or "none"`
unfoldable pub codes_of : List Reason → String
unfolding once_each joined sorted
codes_of reasons =
    let codes = joined (once_each (sorted text_leb (map (λ r. r.code) reasons))) in
    if codes == "" then "none" else codes

-- `_explain`
unfoldable pub explain : String → Outcome → List Reason → ModelTier → String
unfolding codes_of
explain db skip reasons tier = concat (db ∷ ": skip — " ∷ codes_of reasons ∷ "." ∷ [])
explain db force_consolidation reasons tier =
    concat
      (db ∷ ": force_consolidation (" ∷ tier_name tier ∷ " tier) — " ∷ codes_of reasons ∷ "." ∷ [])
explain db wake reasons tier =
    concat (db ∷ ": wake (" ∷ tier_name tier ∷ " tier) — " ∷ codes_of reasons ∷ "." ∷ [])

unfoldable pub same_text : Option String → String → Bool
same_text none t = false
same_text (some s) t = s == t

abbrev pub no_entry : LedgerEntry
no_entry = record { status = none; window_to = none; content_hash = none }

abbrev pub or_no_entry : Option LedgerEntry → LedgerEntry
or_no_entry none = no_entry
or_no_entry (some e) = e

unfoldable pub already_ingested : LedgerEntry → String → Bool
unfolding same_text
already_ingested prior window_to =
    same_text prior.status "ingested" && same_text prior.window_to window_to

unfoldable pub content_unchanged : LedgerEntry → String → Bool
unfolding same_text
content_unchanged prior hash =
    same_text prior.status "ingested" && same_text prior.content_hash hash

unfoldable pub groups_of : List (String × List Group) → List Group
groups_of [] = []
groups_of (s ∷ sources) = s.1 ++ groups_of sources

-- One reason for each delta of a reason type and for each notable group.
unfoldable pub notable_reasons : Digest → List Reason
unfolding groups_of filter
notable_reasons d =
    map (λ x. reason x.type (of_delta x))
      (filter (λ x. is_among x.type delta_reason_types) d.deltas)
    ++ map (λ g. reason "notable_class" (of_group g)) (groups_of d.sources)

-- The `if` chain over `notable`, `manual` and `consolidation`.
unfoldable pub routine_outcome : Bool → Bool → Bool → Outcome
routine_outcome notable manual consolidation =
    if notable
    then wake
    else if manual
    then wake
    else if consolidation
    then force_consolidation
    else skip

abbrev pub first_reasons : Outcome → List Reason → List Reason
first_reasons skip reasons = reason "routine_only" nothing ∷ []
first_reasons wake reasons = reasons
first_reasons force_consolidation reasons = reasons

abbrev pub consolidation_reason : Outcome → List Reason
consolidation_reason force_consolidation = reason "consolidation" nothing ∷ []
consolidation_reason wake = []
consolidation_reason skip = []

unfoldable pub routine_reasons : Digest → Outcome → Bool → List Reason
unfolding notable_reasons
routine_reasons d outcome manual =
    (first_reasons outcome (if d.notable then notable_reasons d else [])
      ++ (if manual then reason "manual" nothing ∷ [] else []))
    ++ consolidation_reason outcome

unfoldable pub decide :
    Digest → String → Option LedgerEntry → String → Bool → Bool → TriggerDecision
unfolding digest_needs_escalation explain already_ingested content_unchanged routine_outcome
    routine_reasons
decide d hash ledger_entry window_to consolidation manual =
    let tier = if digest_needs_escalation d then strong else cheap in
    let prior = or_no_entry ledger_entry in
    let build : Outcome → List Reason → TriggerDecision = (λ outcome reasons. record {
      db = d.db;
      window = d.window;
      outcome = outcome;
      reasons = reasons;
      model_tier = tier;
      content_hash = hash;
      explanation = explain d.db outcome reasons tier;
    }) in
    let outcome = routine_outcome d.notable manual consolidation in
    if already_ingested prior window_to
    then build skip (reason "already_ingested" (of_entry prior.status prior.window_to) ∷ [])
    else if content_unchanged prior hash
    then build skip (reason "content_unchanged" (of_hash hash) ∷ [])
    else build outcome (routine_reasons d outcome manual)
