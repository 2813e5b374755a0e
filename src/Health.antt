-- ===== src/Health.antt =====
-- src/dbwiki/health.py: the capped logs of one process. `_line_counts` is the number of lines that the process
-- believes its log to have; the lock and the atomic rename keep other threads out.
pub mod Bounds
mod Scenarios
use logbook.Prelude.{
  ℕ, ◌+◌, ◌-◌, ◌/◌, max, Option, none, some, List, [], ◌∷◌, ◌++◌, length, drop, leb, if◌then◌else◌,
}

-- The lines of a log, oldest first, and the count for its path, if there is one.
pub record Log (E : Type 0) : Type 0 where
  pub lines : List E
  pub count : Option ℕ

abbrev pub slack : ℕ → ℕ
slack max_events = max (max_events / 10) 1

module _ {E : Type 0} (max_events : ℕ) where
  -- The count once a line is appended; the log is counted where there is no count.
  unfoldable pub next_count : Log E → E → ℕ
  next_count log e = elim log.count [ none ↦ length (log.lines ++ e ∷ []) | some n ↦ n + 1 ]

  abbrev trimmed : List E → Log E
  trimmed lines =
      if leb (length lines) max_events
      then record { lines = lines; count = some (length lines) }
      else record { lines = drop (length lines - max_events) lines; count = some max_events }

  -- `_append_and_trim`
  unfoldable pub append_and_trim : Log E → E → Log E
  unfolding next_count
  append_and_trim log e =
      let lines = log.lines ++ e ∷ [] in
      let n = next_count log e in
      if leb n (max_events + slack max_events)
      then record { lines = lines; count = some n }
      else trimmed lines

  -- One append behind the other.
  unfoldable pub append_all : Log E → List E → Log E
  unfolding append_and_trim
  append_all log [] = log
  append_all log (e ∷ es) = append_all (append_and_trim log e) es
