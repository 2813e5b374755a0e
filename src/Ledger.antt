-- ===== src/Ledger.antt =====
-- src/dbwiki/state.py, `StateStore`: the watermarks and the ingest ledger, as the files hold them. An entry
-- of the ledger is a dictionary from fields to values; the values are texts here.
pub mod Entries
mod Scenarios
use logbook.Prelude.{ℕ, String, Option, none, some, List, [], ◌∷◌}
use logbook.Prelude.Dict.{Dict, get, put}

abbrev pub Entry : Type 0
Entry = Dict String

-- `led.get(digest_rel, {})`
abbrev pub entry_or_empty : Option Entry → Entry
entry_or_empty none = []
entry_or_empty (some e) = e

unfoldable pub set_watermark : Dict String → String → String → Dict String
set_watermark w db window_end = put w db window_end

unfoldable pub set_ledger_entry : Dict Entry → String → Entry → Dict Entry
set_ledger_entry led digest_rel entry = put led digest_rel entry

-- `entry.update(patch)`
unfoldable pub updated : Entry → Entry → Entry
updated entry [] = entry
updated entry ((field, value) ∷ patch) = put (updated entry patch) field value

unfoldable pub merge_ledger_entry : Dict Entry → String → Entry → Dict Entry
unfolding updated
merge_ledger_entry led digest_rel patch =
    put led digest_rel (updated (entry_or_empty (get led digest_rel)) patch)
