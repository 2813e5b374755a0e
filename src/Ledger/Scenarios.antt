-- ===== src/Ledger/Scenarios.antt =====
-- src/dbwiki/state.py on a ledger with one ingested digest.
use logbook.Prelude.{◌≡◌, refl, [], ◌∷◌}
use logbook.Prelude.Dict.{Dict, get}
use logbook.Ledger.{Entry, entry_or_empty, merge_ledger_entry}
use logbook.Ledger.Entries.{else_from, merge_ledger_entry-fields}

abbrev ledger : Dict Entry
ledger = ("cdb1/2026-09-01.json", ("status", "ingested") ∷ []) ∷ []

abbrev patch : Entry
patch = ("trigger", "skip") ∷ []

merge_ledger_entry-fields_example :
    (get
        (entry_or_empty
          (get (merge_ledger_entry ledger "cdb1/2026-09-01.json" patch) "cdb1/2026-09-01.json"))
        "status"
      ≡ else_from
          (get patch "status")
          (get (entry_or_empty (get ledger "cdb1/2026-09-01.json")) "status"))
    × (get (merge_ledger_entry ledger "cdb1/2026-09-01.json" patch) "cdb1/2026-09-02.json"
        ≡ get ledger "cdb1/2026-09-02.json")
merge_ledger_entry-fields_example =
    merge_ledger_entry-fields ledger "cdb1/2026-09-01.json" patch "status" "cdb1/2026-09-02.json"
      refl
