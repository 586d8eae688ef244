-- ===== src/Locks/Examples.antt =====
-- The locks of a fresh database (db.go): tests, and instances of the theorems.
use litefs.Prelude.{
  ◌≡◌, ◌<◌, ◌+◌, refl, sym, subst, true, false, none, [], ◌∷◌, arith, ℕ_discrete, Outcome, returns,
  panics,
}
use litefs.RwMutex
use litefs.RwMutex.{RwMutexState, unlocked, exclusive, zero_value, state}
use litefs.RwMutex.Consistent.{zero_value-IsConsistent}
use litefs.Locks.Types.{
  DbLock, DbLock-discrete, pending, write, ckpt, recover, on, GuardSet, Locks, new_guard_set,
  try_lock, try_rlock, unlock, parse_shm_lock_range, guard,
}
use litefs.Locks.Waiting.{
  HoldsWrite, AcquiredBy, acquire_write_lock, context_done, acquire_write_lock-blocked,
  acquire_write_lock-granted,
}
use litefs.Locks.Acquire.{
  DbMode, rollback, wal, try_acquire_write_lock, attempts, attempt, retry_delay,
}
use litefs.Locks.Effects.{held, AreConsistent}
use litefs.Locks.Grants.{holds, needs, Grants}
use litefs.Locks.WriteLock.{WriteLockTried, try_acquire_write_lock_correct, write_lock-exclusive}
use litefs.Locks.Owners.{try_locks, can_lock, create_guard_set_if_not_exists, guard_set, lock_each}
use litefs.Locks.Owners.TryLocks.{AreValid, TriedLocks, try_locks_correct, can_lock-ckpt_divergence}

abbrev idle : Locks
idle = record { mutex = λ _. zero_value; guard_sets = [] }

idle-AreConsistent : AreConsistent idle
idle-AreConsistent = record { each = λ l. zero_value-IsConsistent }

idle-AreValid : AreValid idle
unfolding guard_set
idle-AreValid = record { consistent = idle-AreConsistent; sets_open = λ o gs p. cc }

try_acquire_write_lock_correct_example : WriteLockTried wal idle
try_acquire_write_lock_correct_example = try_acquire_write_lock_correct wal idle idle-AreConsistent

abbrev locks_of {κ} : {B : Type κ} → Outcome (Locks × B) → Locks
locks_of (returns (ls, b)) = ls
locks_of panics = idle

-- The locks once LiteFS holds them for a write in WAL mode.
abbrev taken : Locks
taken = locks_of (try_acquire_write_lock wal idle)

abbrev first_set : GuardSet
first_set = record { owner = 0; guards = λ _. 0 }

taken-AreConsistent : AreConsistent taken
taken-AreConsistent =
    let t = try_acquire_write_lock_correct wal idle idle-AreConsistent in
    subst (λ r. AreConsistent (locks_of r)) (sym t.result) t.consistent

taken-held : (l : DbLock) → held taken first_set l ≡ holds wal l
unfolding try_acquire_write_lock attempts attempt new_guard_set try_lock try_rlock unlock
    RwMutex.try_lock RwMutex.try_rlock RwMutex.unlock RwMutex.guard zero_value DbLock-discrete
    ℕ_discrete
taken-held pending = refl
taken-held l = refl

write_lock-exclusive_example :
    (after : Locks) × (try_acquire_write_lock rollback taken ≡ returns (after, none))
write_lock-exclusive_example =
    write_lock-exclusive wal rollback taken taken-AreConsistent first_set taken-held

try_locks_correct_example : TriedLocks 7 (on write ∷ on ckpt ∷ []) idle
try_locks_correct_example = try_locks_correct 7 (on write ∷ on ckpt ∷ []) idle idle-AreValid tt

-- Owner 7 writes to the WAL.
abbrev writing : Locks
writing = locks_of (try_locks 7 (on write ∷ []) idle)

writing-AreValid : AreValid writing
writing-AreValid =
    let t = try_locks_correct 7 (on write ∷ []) idle idle-AreValid tt in
    subst (λ r. AreValid (locks_of r)) (sym t.result) t.valid

can_lock-ckpt_divergence_example :
    (after : Locks) × (can_lock 8 (on ckpt ∷ []) writing ≡ returns (after, true, unlocked))
    × (try_locks 8 (on ckpt ∷ []) writing ≡ returns (after, false))
unfolding try_locks create_guard_set_if_not_exists guard new_guard_set try_lock lock_each
    RwMutex.try_lock RwMutex.guard RwMutex.state zero_value DbLock-discrete ℕ_discrete
can_lock-ckpt_divergence_example =
    can_lock-ckpt_divergence 8 writing writing-AreValid 0 refl (omega arith) refl

shm_range : parse_shm_lock_range 120 122 ≡ on write ∷ on ckpt ∷ on recover ∷ []
unfolding parse_shm_lock_range
shm_range = refl

-- The waits of the first four attempts, in milliseconds.
delays : (retry_delay 0 ≡ 2) × (retry_delay 1 ≡ 3) × (retry_delay 2 ≡ 0) × (retry_delay 3 ≡ 1)
unfolding retry_delay
delays = (refl, refl, refl, refl)

taken-HoldsWrite : HoldsWrite wal first_set taken
unfolding try_acquire_write_lock attempts attempt new_guard_set try_lock try_rlock unlock
    RwMutex.try_lock RwMutex.try_rlock RwMutex.unlock RwMutex.guard zero_value DbLock-discrete
    ℕ_discrete
taken-HoldsWrite = record {
  consistent = taken-AreConsistent;
  open_set = record { handed_out = λ l. handed_out l };
  holding = taken-held;
}
  where
    handed_out : (l : DbLock) → 0 < (taken.mutex l).guard_n
    handed_out pending = omega arith
    handed_out l = omega arith

acquire_write_lock-blocked_example :
    (after : Locks) × (acquire_write_lock ((λ ls. ls) ∷ []) (λ _. rollback) (λ _. false) 0 taken
      ≡ returns (after, context_done))
acquire_write_lock-blocked_example =
    acquire_write_lock-blocked ((λ ls. ls) ∷ []) (λ _. rollback) 0 wal first_set taken
      ((λ ls h. h), tt) taken-HoldsWrite

zero_value-state : state zero_value ≡ unlocked
unfolding RwMutex.state zero_value
zero_value-state = refl

idle-granted : (m : DbMode) (l : DbLock) → Grants (needs m l) (state (idle.mutex l))
idle-granted m l = granted (needs m l)
  where
    granted : (want : RwMutexState) → Grants want (state zero_value)
    granted exclusive = zero_value-state
    granted (RwMutexState.shared) = λ e. cc (zero_value-state, e)
    granted unlocked = tt

-- The set is given back in the second wait.
acquire_write_lock-granted_example :
    AcquiredBy ((λ ls. ls) ∷ (λ _. idle) ∷ []) (λ _. wal) 0 taken (0 + 1 + 1)
acquire_write_lock-granted_example =
    acquire_write_lock-granted ((λ ls. ls) ∷ []) (λ _. idle) [] (λ _. wal) 0 taken
      taken-AreConsistent ((λ ls c. c), tt) (λ ls c. (idle-AreConsistent, idle-granted))
