-- ===== src/Locks/Acquire.antt =====
-- TryAcquireWriteLock and the backoff of AcquireWriteLock (db.go).
use Prim.Native.Nat.{bit_xor}
use litefs.Prelude.{
  ℕ, ◌*◌, Bool, true, false, Option, none, some, List, [], ◌∷◌, ltb, if◌then◌else◌, Outcome,
  returns, ◌>>=◌,
}
use litefs.Locks.Types.{
  DbLock, pending, shared, reserved, write, ckpt, recover, read0, read1, read2, read3, read4, dms,
  GuardSet, Locks, try_lock, try_rlock, unlock, unlock_all, new_guard_set,
}

-- type DBMode (litefs.go)
pub data DbMode : Type 0 where
  rollback wal : DbMode

-- One statement of TryAcquireWriteLock: `if !gs.x.TryRLock() { return nil }`,
-- `if !gs.x.TryLock() { return nil }` or `gs.x.Unlock()`.
pub data Attempt : Type 0 where
  rlock lock release : DbLock → Attempt

unfoldable pub attempt : GuardSet → Attempt → Locks → Outcome (Locks × Bool)
attempt gs (rlock l) ls = try_rlock gs l ls
attempt gs (lock l) ls = try_lock gs l ls
attempt gs (release l) ls = unlock gs l ls >>= λ ls'. returns (ls', true)

-- The statements in turn, up to the first that fails.
unfoldable pub attempts : GuardSet → List Attempt → Locks → Outcome (Locks × Bool)
attempts gs [] ls = returns (ls, true)
attempts gs (a ∷ ts) ls =
    attempt gs a ls >>= λ r. elim r.1 [ true ↦ attempts gs ts r.0 | false ↦ returns (r.0, false) ]

abbrev pub write_lock_attempts : DbMode → List Attempt
write_lock_attempts rollback =
    rlock pending ∷ rlock shared ∷ release pending ∷ lock reserved ∷ lock pending ∷ lock shared ∷ []
write_lock_attempts wal =
    rlock pending
    ∷ rlock shared
    ∷ release pending
    ∷ rlock dms
    ∷ lock write
    ∷ lock ckpt
    ∷ lock recover
    ∷ lock read0
    ∷ lock read1
    ∷ lock read2
    ∷ lock read3
    ∷ lock read4
    ∷ []

-- The deferred call: a set that is not returned is unlocked.
abbrev give_up_unless : GuardSet → Locks × Bool → Outcome (Locks × Option GuardSet)
give_up_unless gs (ls, true) = returns (ls, some gs)
give_up_unless gs (ls, false) = unlock_all gs ls >>= λ ls'. returns (ls', none)

-- func (db *DB) TryAcquireWriteLock() (ret *GuardSet)
unfoldable pub try_acquire_write_lock : DbMode → Locks → Outcome (Locks × Option GuardSet)
try_acquire_write_lock mode ls =
    let (opened, gs) = new_guard_set 0 ls in
    attempts gs (write_lock_attempts mode) opened >>= give_up_unless gs

-- The wait before attempt i + 1 of AcquireWriteLock, in milliseconds: `(2 ^ time.Duration(i)) *
-- interval`, at most `maxInterval`. In Go `^` is exclusive or.
unfoldable pub retry_delay : ℕ → ℕ
retry_delay i = let d = bit_xor 2 i * 1 in if ltb 500 d then 500 else d
