-- ===== src/Monitoring.antt =====
-- src/dbwiki/monitoring.py: what the digests say about the recovery signal of a monitored incident. Reasons are
-- data here and texts in the source, and a digest is what its compacted JSON says, an absent key as an empty one.
pub mod Window
pub mod Evidence
pub mod Facts
pub mod Verdicts
pub mod Publish
pub mod Closure
mod Scenarios
