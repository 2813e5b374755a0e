-- ===== src/Trigger/Scenarios.antt =====
-- src/dbwiki/trigger.py on a digest with a silence, seen first and seen again.
use logbook.Prelude.{true, some, [], ◌∷◌}
use logbook.Trigger.{Digest, LedgerEntry}

abbrev digest : Digest
digest = record {
  db = "cdb1";
  window = record {
    from = "2026-09-01T00:00:00Z";
    to = "2026-09-01T01:00:00Z";
    day = "2026-09-01";
  };
  notable = true;
  deltas = record { type = "silence"; body = "alert" } ∷ [];
  sources = ("alert", record { rule = "ora"; class = "error"; count = 3 } ∷ []) ∷ [];
}

abbrev entry : LedgerEntry
entry = record {
  status = some "ingested";
  window_to = some "2026-09-01T00:45:00Z";
  content_hash = some "77aa";
}
