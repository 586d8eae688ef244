-- ===== src/Locks/Owners.antt =====
-- Locking for the owner of a file handle (db.go): GuardSet, CreateGuardSetIfNotExists, TryLocks,
-- CanLock, TryRLocks, CanRLock and Unlock.
pub mod Checkpoint
pub mod TryLocks
use litefs.Prelude.{
  ℕ, Bool, true, false, ◌&&◌, ◌||◌, not, Option, none, some, List, [], ◌∷◌, ◌==◌, if◌then◌else◌,
  Outcome, returns, panics, ◌>>=◌,
}
use litefs.RwMutex
use litefs.RwMutex.{RwMutexState, unlocked, exclusive, same_state}
use litefs.Locks.Types.{
  DbLock, write, ckpt, LockType, halt, on, contains_lock_type, GuardSet, Locks, guard, try_lock,
  try_rlock, unlock, new_guard_set,
}

pub find_set : ℕ → List (ℕ × GuardSet) → Option GuardSet
find_set owner [] = none
find_set owner ((o, gs) ∷ m) = if o == owner then some gs else find_set owner m

-- func (db *DB) GuardSet(owner uint64) *GuardSet
unfoldable pub guard_set : ℕ → Locks → Option GuardSet
unfolding find_set
guard_set owner ls = find_set owner ls.guard_sets

-- func (db *DB) CreateGuardSetIfNotExists(owner uint64) *GuardSet
abbrev pub created_unless : ℕ → Locks → Option GuardSet → Locks × GuardSet
created_unless owner ls (some gs) = (ls, gs)
created_unless owner ls none =
    let (opened, gs) = new_guard_set owner ls in
    (record opened { guard_sets = (owner, gs) ∷ opened.guard_sets }, gs)

unfoldable pub create_guard_set_if_not_exists : ℕ → Locks → Locks × GuardSet
unfolding guard_set
create_guard_set_if_not_exists owner ls = created_unless owner ls (guard_set owner ls)

abbrev is_ckpt : LockType → Bool
is_ckpt (on ckpt) = true
is_ckpt _ = false

-- Somebody is writing to the WAL, and it is not this owner.
unfoldable pub foreign_writer : GuardSet → Locks → Bool
foreign_writer gs ls =
    not (same_state (RwMutex.state (ls.mutex write)) unlocked)
    && not (same_state (RwMutex.guard_state (ls.mutex write) (gs.guards write)) exclusive)

-- The loop of TryLocks.
unfoldable pub lock_each : GuardSet → List LockType → Locks → Outcome (Locks × Bool)
lock_each gs [] ls = returns (ls, true)
lock_each gs (t ∷ ts) ls = guard t >>= λ l. elim (is_ckpt t && foreign_writer gs ls) [
  | true ↦ returns (ls, false)
  | false ↦ try_lock gs l ls >>= λ r. elim r.1 [
    | true ↦ lock_each gs ts r.0
    | false ↦ returns (r.0, false)
  ]
]

-- func (db *DB) TryLocks(ctx, owner uint64, lockTypes []LockType) (bool, error)
unfoldable pub try_locks : ℕ → List LockType → Locks → Outcome (Locks × Bool)
unfolding lock_each
try_locks owner ts ls =
    let (ls', gs) = create_guard_set_if_not_exists owner ls in lock_each gs ts ls'

can_lock_each : GuardSet → List LockType → Locks → Outcome (Bool × RwMutexState)
can_lock_each gs [] ls = returns (true, unlocked)
can_lock_each gs (t ∷ ts) ls = guard t >>= λ l.
    elim (RwMutex.can_lock (ls.mutex l) (gs.guards l)).0 [
      | true ↦ can_lock_each gs ts ls
      | false ↦ returns (false, (RwMutex.can_lock (ls.mutex l) (gs.guards l)).1)
    ]

-- func (db *DB) CanLock(ctx, owner uint64, lockTypes []LockType) (bool, RWMutexState)
unfoldable pub can_lock : ℕ → List LockType → Locks → Outcome (Locks × Bool × RwMutexState)
unfolding can_lock_each
can_lock owner ts ls =
    let (ls', gs) = create_guard_set_if_not_exists owner ls in
    can_lock_each gs ts ls' >>= λ r. returns (ls', r.0, r.1)

rlock_each : GuardSet → List LockType → Locks → Outcome (Locks × Bool)
rlock_each gs [] ls = returns (ls, true)
rlock_each gs (t ∷ ts) ls = guard t >>= λ l. try_rlock gs l ls >>= λ r. elim r.1 [
  | true ↦ rlock_each gs ts r.0
  | false ↦ returns (r.0, false)
]

-- func (db *DB) TryRLocks(ctx, owner uint64, lockTypes []LockType) bool
unfoldable pub try_rlocks : ℕ → List LockType → Locks → Outcome (Locks × Bool)
unfolding rlock_each
try_rlocks owner ts ls =
    let (ls', gs) = create_guard_set_if_not_exists owner ls in rlock_each gs ts ls'

can_rlock_each : GuardSet → List LockType → Locks → Outcome Bool
can_rlock_each gs [] ls = returns true
can_rlock_each gs (t ∷ ts) ls = guard t >>= λ l.
    elim (RwMutex.can_rlock (ls.mutex l) (gs.guards l)) [
      | true ↦ can_rlock_each gs ts ls
      | false ↦ returns false
    ]

-- func (db *DB) CanRLock(ctx, owner uint64, lockTypes []LockType) bool
unfoldable pub can_rlock : ℕ → List LockType → Locks → Outcome (Locks × Bool)
unfolding can_rlock_each
can_rlock owner ts ls =
    let (ls', gs) = create_guard_set_if_not_exists owner ls in
    can_rlock_each gs ts ls' >>= λ b. returns (ls', b)

unlock_types : GuardSet → List LockType → Locks → Outcome Locks
unlock_types gs [] ls = returns ls
unlock_types gs (t ∷ ts) ls = guard t >>= λ l. unlock gs l ls >>= λ ls'. unlock_types gs ts ls'

-- CommitWAL runs first if the WRITE lock is among those given up and is held exclusively.
unfoldable pub commits_wal : GuardSet → List LockType → Locks → Bool
commits_wal gs ts ls =
    contains_lock_type ts (on write)
    && same_state (RwMutex.guard_state (ls.mutex write) (gs.guards write)) exclusive

-- func (db *DB) Unlock(ctx, owner uint64, lockTypes []LockType) error, over the rest `S` of the
-- database's state, which CommitWAL changes; its error is only logged.
unlock_of :
    {S : Type 0} → (S → S) → List LockType → Option GuardSet → Locks × S → Outcome (Locks × S)
unfolding commits_wal
unlock_of commit_wal ts none (ls, s) = returns (ls, s)
unlock_of commit_wal ts (some gs) (ls, s) =
    let s' = if commits_wal gs ts ls then commit_wal s else s in
    unlock_types gs ts ls >>= λ ls'. returns (ls', s')

unfoldable pub unlock_locks :
    {S : Type 0} → (S → S) → ℕ → List LockType → Locks × S → Outcome (Locks × S)
unfolding unlock_of unlock_types
unlock_locks commit_wal owner ts (ls, s) = unlock_of commit_wal ts (guard_set owner ls) (ls, s)
