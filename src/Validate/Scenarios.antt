-- ===== src/Validate/Scenarios.antt =====
-- src/dbwiki/validate.py on an id that it accepts.
use logbook.Prelude.{String, ◌≡◌, refl, some}
use logbook.Validate.{safe_id}
use logbook.Validate.Ids.{IsName, safe_id-IsName}

abbrev run_name : String
run_name = "daily-ingest_r1.2"

accepted_id : safe_id run_name ≡ some run_name
unfolding safe_id
accepted_id = refl

safe_id-IsName_example : (run_name ≡ run_name) × IsName run_name
safe_id-IsName_example = safe_id-IsName run_name run_name accepted_id
