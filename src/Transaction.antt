-- ===== src/Transaction.antt =====
-- src/dbwiki/transaction.py: proposals, their preview and their commit.
pub mod Proposals
pub mod Repo
pub mod Commit
pub mod Reads
pub mod Restored
pub mod Published
pub mod Whole
pub mod Owned
pub mod Foretold
mod Scenarios
