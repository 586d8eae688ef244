-- ===== src/Locks.antt =====
-- The SQLite locks of a database: LockType and GuardSet (litefs.go), and the functions of db.go
-- that take them for a file handle's owner (TryLocks, TryRLocks, CanLock, CanRLock, Unlock) and for
-- LiteFS itself (TryAcquireWriteLock). `Locks` holds the twelve mutexes of a `DB` with the map of
-- guard sets. A function of this file is one step: what other owners do meanwhile comes before or
-- after it.
pub mod Types
pub mod Acquire
pub mod Effects
pub mod Attempts
pub mod Grants
pub mod WriteLock
pub mod Owners
pub mod Waiting
mod Examples
unfoldable pub use Types.*
