-- ===== src/Store.antt =====
-- What a replica does with a transaction file of the replication stream: processLTXStreamFrame
-- (store.go), for a database that exists, with Recover and UnsetRemoteHaltLock (db.go). The write
-- lock is had at the first attempt, or the wait for it ends with the context. IsSnapshot of
-- github.com/superfly/ltx is an argument.
mod UnderLock
pub mod Frames
mod Examples
use litefs.Prelude.{
  ℕ, ◌+◌, ◌-◌, ◌%◌, ◌^◌, Bool, false, ◌&&◌, ◌||◌, Option, none, some, List, [], ◌∷◌, ◌==◌,
  if◌then◌else◌, Outcome, returns, panics,
}
use litefs.Ltx.{renamed, Ltx, LtxFile}
use litefs.Locks.Types.{GuardSet, Locks, unlock_all}
use litefs.Locks.Waiting.{WaitEnd, acquired, callback_error, context_done, acquire_write_lock}
use litefs.Db.State.{
  Db, Pos, Store, M, Result, ok, err, diverges, Error, ◌>>=◌, ◌>>◌, return, get, put, modify,
  require,
}
use litefs.Db.Apply.{apply_ltx_no_lock}
use litefs.Db.Rollback.{recover}

-- A function of a DB that also takes its locks: the locks and the database that it leaves, and its
-- result.
abbrev pub Locked : Type 0
Locked = Outcome (Locks × (Db × Result (Unit {0})))

abbrev pub unlocked_with : Db × Result (Unit {0}) → Outcome Locks → Locked
unlocked_with r panics = panics
unlocked_with r (returns ls) = returns (ls, r)

-- The deferred unlock.
abbrev pub then_unlock : GuardSet → Locked → Locked
then_unlock gs panics = panics
then_unlock gs (returns (ls, r)) = unlocked_with r (unlock_all gs ls)

-- What is done under the write lock.
abbrev pub under_lock : (Locks → Locked) → Db → Outcome (Locks × WaitEnd) → Locked
under_lock body db panics = panics
under_lock body db (returns (ls, acquired gs)) = then_unlock gs (body ls)
under_lock body db (returns (ls, callback_error)) = returns (ls, (db, err Error.timed_out))
under_lock body db (returns (ls, context_done)) = returns (ls, (db, err Error.timed_out))

-- `guard, err := db.AcquireWriteLock(ctx, nil)` and `defer guard.Unlock()`
unfoldable pub with_write_lock : (Locks → Locked) → Locks → Db → Locked
unfolding acquire_write_lock unlock_all
with_write_lock body ls db =
    under_lock body db (acquire_write_lock [] (λ _. db.mode) (λ _. false) 0 ls)

-- func (db *DB) Recover(ctx context.Context) error
unfoldable pub recover_locked : Ltx → Locks → Db → Locked
unfolding with_write_lock recover
recover_locked ltx ls db = with_write_lock (λ ls. returns (ls, recover ltx db)) ls db

-- The remote halt lock is cleared if the recovery succeeded.
abbrev pub clear_remote : Locked → Locked
clear_remote panics = panics
clear_remote (returns (ls, (db, ok x))) =
    returns (ls, (record db { remote_halt_lock = none }, ok tt))
clear_remote (returns (ls, (db, err e))) = returns (ls, (db, err e))
clear_remote (returns (ls, (db, Result.panics))) = returns (ls, (db, Result.panics))
clear_remote (returns (ls, (db, diverges))) = returns (ls, (db, diverges))

abbrev pub unset_if : ℕ → Ltx → Option ℕ → Locks → Db → Locked
unset_if id ltx none ls db = returns (ls, (db, ok tt))
unset_if id ltx (some l) ls db =
    if l == id then clear_remote (recover_locked ltx ls db) else returns (ls, (db, ok tt))

-- func (db *DB) UnsetRemoteHaltLock(ctx context.Context, lockID int64) (retErr error)
unfoldable pub unset_remote_halt_lock : Ltx → ℕ → Locks → Db → Locked
unfolding recover_locked
unset_remote_halt_lock ltx id ls db = unset_if id ltx db.remote_halt_lock ls db

-- `pos != expectedPos`, with the arithmetic of a uint64
abbrev pub is_next : Pos → LtxFile → Bool
is_next pos f =
    pos.txid == (f.header.min_txid + (2 ^ 64 - 1)) % 2 ^ 64
    && pos.post_apply_checksum == f.header.pre_apply_checksum

-- The files of the directory with the new one; a snapshot removes the others.
abbrev pub kept_files : Bool → LtxFile → List LtxFile → List LtxFile
kept_files snapshot f dir = if snapshot then f ∷ [] else renamed f dir

-- From the check of the position to the end.
unfoldable pub receive_file : Ltx → Bool → LtxFile → M (Unit {0})
unfolding apply_ltx_no_lock
receive_file ltx snapshot f = do
  db ← get
  require (snapshot || is_next db.pos f) Error.position_mismatch
  put (record db { ltx_dir = kept_files snapshot f db.ltx_dir })
  apply_ltx_no_lock ltx f

-- After the remote halt lock is unset, or not.
abbrev pub receive_after : M (Unit {0}) → Locked → Locked
receive_after m panics = panics
receive_after m (returns (ls, (db, ok x))) = returns (ls, m db)
receive_after m (returns (ls, (db, err e))) = returns (ls, (db, err e))
receive_after m (returns (ls, (db, Result.panics))) = returns (ls, (db, Result.panics))
receive_after m (returns (ls, (db, diverges))) = returns (ls, (db, diverges))

-- "If we receive an LTX file while holding the remote HALT lock": the lock with its own id.
abbrev pub unset_held : Ltx → Option ℕ → Locks → Db → Locked
unset_held ltx none ls db = returns (ls, (db, ok tt))
unset_held ltx (some id) ls db = unset_remote_halt_lock ltx id ls db

-- What processLTXStreamFrame does under the write lock: a file of this node is only verified.
unfoldable pub process_file : Store → Ltx → Bool → LtxFile → Db → Locks → Locked
unfolding unset_remote_halt_lock receive_file
process_file store ltx snapshot f db ls =
    if f.header.node_id == store.id
    then returns (ls, require (ltx.accepts f) Error.bad_ltx db)
    else receive_after (receive_file ltx snapshot f) (unset_held ltx db.remote_halt_lock ls db)

-- func (s *Store) processLTXStreamFrame(ctx, frame *LTXStreamFrame, src io.Reader) (err error)
unfoldable pub process_ltx_stream_frame :
    Store → Ltx → (LtxFile → Bool) → LtxFile → Locks → Db → Locked
unfolding with_write_lock process_file
process_ltx_stream_frame store ltx is_snapshot f ls db =
    with_write_lock (process_file store ltx (is_snapshot f) f db) ls db
