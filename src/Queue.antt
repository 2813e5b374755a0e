-- ===== src/Queue.antt =====
-- src/dbwiki/queue.py: the analyst queue, the directory `queue/` of the wiki repository.
-- `Records` is the data on disk, `Select` the choice of what to claim, `Repo` the repository with
-- its clone of the remote, `Actions` the operations, `Fold` the telemetry that rides back. The
-- modules below these hold the proofs.
pub mod Records
pub mod Select
pub mod Repo
pub mod Actions
pub mod Fold
mod Scenarios
