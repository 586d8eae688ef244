-- ===== src/Db.antt =====
-- A database of LiteFS (db.go, type DB): its pages, their checksums, and the transactions on it.
pub mod State
pub mod Checksum
pub mod Pages
pub mod Apply
pub mod Journal
pub mod WellFormed
pub mod Overlay
pub mod Rolling
pub mod Cut
pub mod Replica
pub mod Dirty
pub mod Commit
pub mod Committed
pub mod Primary
pub mod Convergence
pub mod Sums
pub mod WalWrites
pub mod Written
pub mod Transaction
pub mod RunTransaction
pub mod Checkpoint
pub mod CopiedBack
pub mod Checkpointed
pub mod JournalReader
pub mod Rollback
pub mod JournalFrames
pub mod RolledBack
pub mod Writes
pub mod TxFrames
pub mod Scan
pub mod CommitWal
pub mod Frames
pub mod CommittedWal
pub mod PrimaryWal
mod Examples
