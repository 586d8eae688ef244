-- ===== src/Halt.antt =====
-- The halt lock that a replica takes on the primary (db.go): AcquireHaltLock, ReleaseHaltLock and
-- EnforceHaltLockExpiration. A function is run to its end before another one starts, so
-- AcquireHaltLock gets the write lock at its first attempt or fails with its context.
pub mod Held
pub mod Acquired
mod Examples
use litefs.Prelude.{
  ℕ, ◌+◌, Bool, false, Option, none, some, [], leb, ◌==◌, if◌then◌else◌, Outcome, returns, panics,
  ◌>>=◌,
}
use litefs.Ltx.{Ltx}
use litefs.Locks.Types.{GuardSet, Locks, unlock_all}
use litefs.Locks.Waiting.{WaitEnd, acquired, callback_error, context_done, acquire_write_lock}
use litefs.Db.State.{Db, Pos, Result, ok, err, diverges}
use litefs.Db.Rollback.{recover}

-- type HaltLock: `expires` is nil or a time.
pub record HaltLock : Type 0 where
  pub id : ℕ
  pub pos : Pos
  pub expires : Option ℕ

-- A DB with its locks, and its field `haltLockAndGuard`.
pub record Node : Type 0 where
  pub db : Db
  pub locks : Locks
  pub halt : Option (HaltLock × GuardSet)

-- What AcquireHaltLock returns: a lock, or an error.
pub data HaltEnd : Type 0 where
  granted : HaltLock → HaltEnd
  failed : HaltEnd

-- What a function does: it returns, panics, or does not end.
pub data Run : Type 0 where
  ends : Node → HaltEnd → Run
  crashes : Run
  hangs : Run

-- The callback of AcquireHaltLock: the lock with this id is held already.
abbrev pub halted_by : ℕ → Option (HaltLock × GuardSet) → Bool
halted_by id none = false
halted_by id (some (l, gs)) = l.id == id

abbrev pub current : Option (HaltLock × GuardSet) → HaltEnd
current none = failed
current (some (l, gs)) = granted l

-- "There shouldn't be an existing halt lock but clear it just in case."
abbrev pub unlock_previous : Option (HaltLock × GuardSet) → Locks → Outcome Locks
unlock_previous none ls = returns ls
unlock_previous (some (l, gs)) ls = unlock_all gs ls

abbrev pub store_halt_lock : HaltLock → GuardSet → Node → Outcome Locks → Run
store_halt_lock l gs n panics = crashes
store_halt_lock l gs n (returns ls) =
    ends (record n { locks = ls; halt = some (l, gs) }) (granted l)

-- The deferred call: on an error the guards are unlocked.
abbrev pub give_up : Node → Outcome Locks → Run
give_up n panics = crashes
give_up n (returns ls) = ends (record n { locks = ls }) failed

-- After the recovery, which leaves a database.
abbrev pub after_recovery : ℕ → ℕ → GuardSet → Node → Db × Result (Unit {0}) → Run
after_recovery id expires gs n (db, ok x) =
    store_halt_lock (record { id = id; pos = db.pos; expires = some expires }) gs
      (record n { db = db }) (unlock_previous n.halt n.locks)
after_recovery id expires gs n (db, err e) = give_up (record n { db = db }) (unlock_all gs n.locks)
after_recovery id expires gs n (db, Result.panics) = crashes
after_recovery id expires gs n (db, diverges) = hangs

abbrev pub after_wait : Ltx → ℕ → ℕ → Node → Outcome (Locks × WaitEnd) → Run
after_wait ltx id expires n panics = crashes
after_wait ltx id expires n (returns (ls, acquired gs)) =
    after_recovery id expires gs (record n { locks = ls }) (recover ltx n.db)
after_wait ltx id expires n (returns (ls, callback_error)) =
    ends (record n { locks = ls }) (current n.halt)
after_wait ltx id expires n (returns (ls, context_done)) = ends (record n { locks = ls }) failed

-- func (db *DB) AcquireHaltLock(ctx context.Context, lockID int64) (_ *HaltLock, retErr error), where
-- `expires` is the time now and HaltLockTTL.
unfoldable pub acquire_halt_lock : Ltx → ℕ → ℕ → Node → Run
unfolding acquire_write_lock recover unlock_all
acquire_halt_lock ltx id expires n =
    if id == 0
    then ends n failed
    else after_wait ltx id expires n
        (acquire_write_lock [] (λ _. n.db.mode) (λ _. halted_by id n.halt) 0 n.locks)

-- The swap of the lock for nil, and the unlock of its guards.
abbrev pub clear_halt_lock : GuardSet → Node → Outcome Node
clear_halt_lock gs n =
    unlock_all gs n.locks >>= λ ls. returns (record n { locks = ls; halt = none })

abbrev pub release_if : ℕ → Option (HaltLock × GuardSet) → Node → Outcome Node
release_if id none n = returns n
release_if id (some (l, gs)) n = if l.id == id then clear_halt_lock gs n else returns n

-- func (db *DB) ReleaseHaltLock(ctx context.Context, id int64)
unfoldable pub release_halt_lock : ℕ → Node → Outcome Node
unfolding unlock_all
release_halt_lock id n = release_if id n.halt n

-- `Expires == nil || Expires.After(time.Now())`, negated
abbrev pub is_due : ℕ → Option ℕ → Bool
is_due now none = false
is_due now (some t) = leb t now

abbrev pub expire_if : ℕ → Option (HaltLock × GuardSet) → Node → Outcome Node
expire_if now none n = returns n
expire_if now (some (l, gs)) n = if is_due now l.expires then clear_halt_lock gs n else returns n

-- func (db *DB) EnforceHaltLockExpiration(ctx context.Context) at the time `now`
unfoldable pub enforce_halt_lock_expiration : ℕ → Node → Outcome Node
unfolding unlock_all
enforce_halt_lock_expiration now n = expire_if now n.halt n
