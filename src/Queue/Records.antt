-- ===== src/Queue/Records.antt =====
-- src/dbwiki/queue.py, the records of `queue/` and how a directory of them is read.
use logbook.Prelude.{ℕ, String, Bool, Option, List, [], ◌∷◌, sorted, text_leb}
use logbook.Prelude.Dict.{Dict}

-- The request that `enqueue_request` writes. `claimed_by` and `claimed_at` are `none` while they are
-- absent or null.
pub record Request : Type 0 where
  pub schema_version : ℕ
  pub kind : String
  pub run_id : String
  pub day : String
  pub suffix : String
  pub window : String × String
  pub notable_dbs : List String
  pub created_at : String
  pub attempts : ℕ
  pub prompt : String
  pub claimed_by : Option String
  pub claimed_at : Option String
  pub error_category : Option String

-- A request file with its name, which ends in `.json`; `corrupt` is one that cannot be read or is no JSON, which
-- every reader skips. The records have the fields that `enqueue_request` writes. Two files are not here, since
-- they make the source raise: one whose bytes are not UTF-8, and one that holds JSON but no object.
pub data RequestFile : Type 0 where
  corrupt : RequestFile
  request : Request → RequestFile

-- A telemetry event; `body` stands for the fields that the caller's record brings.
pub record Event : Type 0 where
  pub event_id : Option String
  pub at : String
  pub error_category : Option String
  pub body : String

-- A file of `queue/results/`: unreadable, JSON that is no object, or an event.
pub data ResultFile : Type 0 where
  unreadable : ResultFile
  no_object : ResultFile
  event : Event → ResultFile

-- The wiki tree: the four directories of `queue/`, and the pages beside them.
pub record Wiki : Type 0 where
  pub pending : Dict RequestFile
  pub claimed : Dict RequestFile
  pub failed : Dict RequestFile
  pub results : Dict ResultFile
  pub pages : Dict String

abbrev pub schema_version : ℕ
schema_version = 1

abbrev pub max_claim_attempts : ℕ
max_claim_attempts = 3

abbrev pub max_request_attempts : ℕ
max_request_attempts = 2

abbrev pub max_push_attempts : ℕ
max_push_attempts = 3

abbrev pub Named : Type 0
Named = String × Request

unfoldable pub parsed : Dict RequestFile → List Named
parsed [] = []
parsed ((name, corrupt) ∷ files) = parsed files
parsed ((name, request rec) ∷ files) = (name, rec) ∷ parsed files

abbrev pub name_le : String × RequestFile → String × RequestFile → Bool
name_le a b = text_leb a.0 b.0

abbrev pub created_le : Named → Named → Bool
created_le a b = text_leb a.1.created_at b.1.created_at

-- `_read_records`: by file name, then, stably, oldest-created first.
unfoldable pub read_records : Dict RequestFile → List Named
unfolding parsed
read_records dir = sorted created_le (parsed (sorted name_le dir))

-- What `pending_requests`, `claimed_requests` and `failed_requests` list, each with its file name.
unfoldable pub pending_requests : Wiki → List Named
unfolding read_records
pending_requests w = read_records w.pending

unfoldable pub claimed_requests : Wiki → List Named
unfolding read_records
claimed_requests w = read_records w.claimed

unfoldable pub failed_requests : Wiki → List Named
unfolding read_records
failed_requests w = read_records w.failed
