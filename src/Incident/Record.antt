-- ===== src/Incident/Record.antt =====
-- src/dbwiki/incidents.py: the constructor of `ActionRecord`, and the digests that a record cites.
-- `none` is the `ActionMalformed`.
use logbook.Prelude.{
  unix_breaks, String, ◌≡◌, refl, Bool, not, ◌&&◌, ◌||◌, Option, some, List, [], ◌∷◌, ◌==◌, after,
  starts_with, contains, cut, lines_of, strip, lstrip, nonempty, any,
}
use logbook.Validate.{◌>>=◌, ◌>>◌, check, passes, is_safe_id, is_instant, one_line, real_day}
use logbook.Incident.{ActionRecord, resolve, same_kind}

-- A text that `\A(.{10})\.(json|md)\Z` reads, its ten characters being a real day.
unfoldable pub cites_day : String → Option {0} Unit
unfolding real_day
cites_day s = do suffix ← real_day s; check (suffix == ".json" || suffix == ".md")

-- `EvidenceRef.parse`, as the text of the reference.
unfoldable pub evidence_ref : String → Option String
unfolding after cut is_safe_id cites_day
evidence_ref raw = do
  let ref = strip raw
  inner ← after "digests/" ref
  parts ← cut 47 inner
  cites_day parts.behind
  check (is_safe_id parts.before)
  some ref

unfoldable pub evidence_refs : List String → Option (List String)
unfolding evidence_ref
evidence_refs [] = some []
evidence_refs (raw ∷ more) = do ref ← evidence_ref raw; refs ← evidence_refs more; some (ref ∷ refs)

-- A line of the notes that the page readers keep whole.
unfoldable pub is_note_line : String → Bool
unfolding one_line starts_with lstrip
is_note_line line =
    passes (one_line line) && not (starts_with "## " line) && not (starts_with "```" (lstrip line))

unfoldable pub are_notes : String → Bool
unfolding is_note_line lines_of contains
are_notes notes =
    not (any (λ line. not (is_note_line line)) (lines_of notes)) && not (contains "\n\n\n" notes)

-- The tests of the constructor, on the record and its stripped notes. The enumerated fields are one line
-- always, and `kind` is one of `ACTION_KINDS` by its type.
unfoldable pub is_record : ActionRecord → String → Bool
unfolding same_kind strip nonempty one_line are_notes is_instant
is_record r notes =
    (r.error_pages || same_kind r.kind resolve)
    && is_instant r.at
    && nonempty (strip r.actor)
    && nonempty (strip r.intent)
    && nonempty (strip r.summary)
    && passes (one_line r.actor)
    && passes (one_line r.intent)
    && passes (one_line r.summary)
    && passes (one_line r.ticket)
    && passes (one_line r.rollback)
    && are_notes notes

-- `ActionRecord(...)`. Every refusal is an `ActionMalformed`, so their order does not show.
unfoldable pub new_record : ActionRecord → Option ActionRecord
unfolding evidence_refs unix_breaks is_record
new_record r = do
  let notes = strip (unix_breaks r.notes)
  refs ← evidence_refs r.evidence
  check (is_record r notes)
  some (record r { notes = notes; evidence = refs })

digest : evidence_ref " digests/cdb1/2026-09-08.md" ≡ some "digests/cdb1/2026-09-08.md"
unfolding evidence_ref strip lstrip
digest = refl
