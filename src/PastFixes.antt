-- ===== src/PastFixes.antt =====
-- src/dbwiki/past_fixes.py: what was done about an error, and whether it held. The `## Occurrences` table of an
-- error page, which src/dbwiki/readmodel.py reads, is an argument.
pub mod Days
pub mod Lineage
pub mod Verdicts
pub mod Splice
pub mod Extents
pub mod Blank
pub mod Again
pub mod Apply
pub mod Applied
mod Scenarios
