-- ===== src/Lib.antt =====
-- LiteFS: a file system that replicates SQLite databases from a primary node to replicas.
--
-- The program's core is db.go, a database with its files, locks and checksums; litefs.go has the lock
-- types, guard sets and wire frames it uses, rwmutex.go the mutex behind each SQLite lock, store.go
-- the node's election and replication loop. FUSE nodes (fuse/) turn SQLite's file operations and its
-- file locks into calls of db.go. A write transaction on the primary ends in a transaction file (LTX),
-- which replicas receive as a stream and apply.
--
-- Which file models what:
-- - Prelude.antt and below: shared names; numbers are native, with Go's wrap-around written out.
-- - RwMutex.antt (rwmutex.go): RWMutex with its guards, and TryLock, CanLock, TryRLock, CanRLock,
--   Unlock and State. Each method runs under the mutex `mu`, so it is one step; RwMutex/Trace.antt
--   takes any sequence of steps by any guards. A failed assertion is the result `panics`.
-- - Locks.antt (litefs.go and db.go): the twelve mutexes of a DB, LockType and its byte ranges,
--   GuardSet, TryLocks, CanLock, TryRLocks, CanRLock and Unlock for an owner, and TryAcquireWriteLock
--   for LiteFS itself; Locks/Waiting.antt has the loop AcquireWriteLock, with what the others do
--   during each wait as a list, and the end of its context as the end of the list. A function is run
--   to its end before another one starts: what other owners do meanwhile stands before or after it.
-- - Disk.antt (internal/internal.go, ReadFullAt): files as a size and bytes, with read, write and
--   truncate. A disk that fails or is full is not modelled.
-- - Ltx.antt: the functions of github.com/superfly/ltx, which is not part of the repository. They are
--   the fields of a record that every definition takes as an argument.
-- - Db.antt (db.go): the state of a DB with the files of its directory; checksum, pageChecksum and
--   onDiskChecksum (Db/Checksum.antt); writeDatabasePage and truncateDatabase (Db/Pages.antt);
--   ApplyLTXNoLock, updateSHM and WriteLTXFileAt (Db/Apply.antt); isJournalHeaderValid,
--   invalidateJournal and CommitJournal (Db/Journal.antt). A function is a state monad with errors: an
--   error keeps the changes made before it, as the code does. Db/Primary.antt, Db/Replica.antt and
--   Db/Convergence.antt have the results, on one node and on both.
-- - Halt.antt (db.go): AcquireHaltLock, ReleaseHaltLock and EnforceHaltLockExpiration, on a DB with
--   its locks; Halt/Held.antt and Halt/Acquired.antt have the results.
-- - Store.antt (store.go and db.go): processLTXStreamFrame for a database that exists, with its locks,
--   Recover and UnsetRemoteHaltLock. A wait for the write lock ends with the context;
--   Store/Frames.antt has the results.
-- - Retention.antt (db.go): ReadLTXDir and EnforceRetention on the entries of the directory, with
--   sort.Slice as an argument.
-- - Proxy.antt (http/proxy_server.go): how the proxy in front of an application serves a request, with
--   what it meets meanwhile as an argument.
-- - Reading.antt: io.ReadFull and binary.Read over a list of bytes.
-- - Wal.antt (litefs.go): WALChecksum and WALReader over a list of bytes; Wal/Format.antt has SQLite's
--   format, which the reader is compared with, and Wal/Fibonacci.antt its description of the checksum.
-- - Db/WalWrites.antt, Db/TxFrames.antt and Db/CommitWal.antt (db.go): the writes of SQLite to the WAL
--   file, WriteWALAt, TruncateWAL and RemoveWAL; buildTxFrameOffsets; and CommitWAL, with its result
--   on the primary in Db/PrimaryWal.antt. Db/Checkpoint.antt has readWALPageOffsets and
--   CheckpointNoLock.
-- - Db/Writes.antt (db.go): WriteDatabaseAt, TruncateDatabase and the journal's functions, which
--   commit; Db/RunTransaction.antt follows a transaction from its page writes on.
--   Db/JournalReader.antt and Db/Rollback.antt have JournalReader, JournalChecksum, rollbackJournal
--   and recover.
-- - Stream.antt (litefs.go): ReadStreamFrame, WriteStreamFrame and the frames of the replication
--   stream.
-- - Chunk.antt (internal/chunk/chunk.go): the chunked stream, Writer and Reader, and reading to its
--   end; Chunk/Truncation.antt has streams that are cut off.
--
-- The modelled loops run over lists and page numbers, so they are structural recursion, but for these:
-- the loop of Writer.Write has one round of fuel for each byte to write, which is enough since a round
-- writes one at least; reading to the end of a chunked stream takes its fuel as an argument, with a
-- theorem on how much is enough; the scan of the WAL for a transaction, and the one for all
-- transactions, have one round for each byte of the file and one more, since a round takes a frame
-- header at least; so has the loop over the frames of a journal. The loop over the segments of a
-- journal has two rounds more than the file has bytes: a segment goes on after its sector, and with a
-- sector size of 0 the loop may not end, which the result `diverges` says. The sets and maps that Go
-- ranges over are functions from keys; where the code sorts the keys, the model takes them in order up
-- to the database's size.
--
-- Not modelled: metrics, trace logs and the page cache of FUSE, which change no state of a DB; syncs,
-- which the model of files makes no-ops; the waiting loops Lock and RLock of a guard; acquiring and
-- releasing the remote halt lock; import, export and snapshots; the rest of store.go; the HTTP server
-- and client, Consul, FUSE and the commands, which are bindings of other libraries.
pub mod Prelude
pub mod RwMutex
pub mod Halt
pub mod Locks
pub mod Disk
pub mod Ltx
pub mod Db
pub mod Reading
pub mod Proxy
pub mod Retention
pub mod Wal
pub mod Store
pub mod Stream
pub mod Chunk
