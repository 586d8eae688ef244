-- ===== src/Locks/Types.antt =====
-- LockType, GuardSet and the locks of a database (litefs.go, db.go).
use litefs.Prelude.{
  ℕ, Bool, false, ◌&&◌, ◌||◌, List, [], ◌∷◌, ◌++◌, leb, ◌==◌, if◌then◌else◌, Outcome, returns,
  panics, ◌>>=◌,
}
use mathlib.Core.Logic.{ite}
use litefs.RwMutex
use litefs.RwMutex.{RwMutex, RwMutexState, same_state}

-- The mutexes of a `DB`, and the guards of a `GuardSet`.
pub data DbLock : Type 0 where
  pending shared reserved : DbLock
  write ckpt recover read0 read1 read2 read3 read4 dms : DbLock

unfoldable pub DbLock-discrete : Discrete DbLock
DbLock-discrete = hlevel

-- The HALT lock has a type but no mutex.
pub data LockType : Type 0 where
  halt : LockType
  on : DbLock → LockType

abbrev db_lock_byte : DbLock → ℕ
db_lock_byte pending = 0x40000000
db_lock_byte reserved = 0x40000001
db_lock_byte shared = 0x40000002
db_lock_byte write = 120
db_lock_byte ckpt = 121
db_lock_byte recover = 122
db_lock_byte read0 = 123
db_lock_byte read1 = 124
db_lock_byte read2 = 125
db_lock_byte read3 = 126
db_lock_byte read4 = 127
db_lock_byte dms = 128

-- The value of a LockType, which is the offset of its byte in the file.
unfoldable pub lock_byte : LockType → ℕ
lock_byte halt = 72
lock_byte (on l) = db_lock_byte l

-- func ContainsLockType(a []LockType, typ LockType) bool
unfoldable pub contains_lock_type : List LockType → LockType → Bool
unfolding lock_byte
contains_lock_type [] typ = false
contains_lock_type (v ∷ a) typ = lock_byte v == lock_byte typ || contains_lock_type a typ

-- One `if start <= uint64(t) && uint64(t) <= end { a = append(a, t) }`.
unfoldable pub append_if_within : ℕ → ℕ → DbLock → List LockType → List LockType
append_if_within start end l a =
    if leb start (db_lock_byte l) && leb (db_lock_byte l) end then a ++ on l ∷ [] else a

abbrev parse_lock_range : ℕ → ℕ → List DbLock → List LockType → List LockType
parse_lock_range start end [] a = a
parse_lock_range start end (l ∷ ls) a =
    parse_lock_range start end ls (append_if_within start end l a)

abbrev pub database_locks : List DbLock
database_locks = pending ∷ reserved ∷ shared ∷ []

abbrev pub shm_locks : List DbLock
shm_locks = write ∷ ckpt ∷ recover ∷ read0 ∷ read1 ∷ read2 ∷ read3 ∷ read4 ∷ dms ∷ []

unfoldable pub parse_database_lock_range : ℕ → ℕ → List LockType
unfolding append_if_within
parse_database_lock_range start end = parse_lock_range start end database_locks []

unfoldable pub parse_shm_lock_range : ℕ → ℕ → List LockType
unfolding append_if_within
parse_shm_lock_range start end = parse_lock_range start end shm_locks []

-- A set of guards by one owner: the number of its guard in each mutex.
pub record GuardSet : Type 0 where
  pub owner : ℕ
  pub guards : DbLock → ℕ

pub record Locks : Type 0 where
  pub mutex : DbLock → RwMutex
  pub guard_sets : List (ℕ × GuardSet)

-- func (s *GuardSet) Guard(lockType LockType) *RWMutexGuard: the guard is named by its mutex.
unfoldable pub guard : LockType → Outcome DbLock
guard halt = panics
guard (on l) = returns l

abbrev pub set_mutex : Locks → DbLock → RwMutex → Locks
set_mutex ls l m = record ls { mutex = λ k. ite (DbLock-discrete l k) m (ls.mutex k) }

-- The methods of one guard of a set.
unfoldable pub try_lock : GuardSet → DbLock → Locks → Outcome (Locks × Bool)
try_lock gs l ls =
    RwMutex.try_lock (ls.mutex l) (gs.guards l) >>= λ r. returns (set_mutex ls l r.0, r.1)

unfoldable pub try_rlock : GuardSet → DbLock → Locks → Outcome (Locks × Bool)
try_rlock gs l ls =
    RwMutex.try_rlock (ls.mutex l) (gs.guards l) >>= λ r. returns (set_mutex ls l r.0, r.1)

unfoldable pub unlock : GuardSet → DbLock → Locks → Outcome Locks
unlock gs l ls = RwMutex.unlock (ls.mutex l) (gs.guards l) >>= λ m. returns (set_mutex ls l m)

unfoldable pub unlock_each : GuardSet → List DbLock → Locks → Outcome Locks
unlock_each gs [] ls = returns ls
unlock_each gs (k ∷ ks) ls = unlock gs k ls >>= λ ls'. unlock_each gs ks ls'

-- func (s *GuardSet) UnlockDatabase(), UnlockSHM() and Unlock()
unfoldable pub unlock_database : GuardSet → Locks → Outcome Locks
unlock_database gs = unlock_each gs (pending ∷ shared ∷ reserved ∷ [])

unfoldable pub unlock_shm : GuardSet → Locks → Outcome Locks
unlock_shm gs = unlock_each gs shm_locks

unfoldable pub unlock_all : GuardSet → Locks → Outcome Locks
unlock_all gs ls = unlock_database gs ls >>= λ ls'. unlock_shm gs ls'

-- func (db *DB) newGuardSet(owner uint64) *GuardSet
unfoldable pub new_guard_set : ℕ → Locks → Locks × GuardSet
new_guard_set owner ls = (
  record ls { mutex = λ l. (RwMutex.guard (ls.mutex l)).0 },
  record { owner = owner; guards = λ l. (RwMutex.guard (ls.mutex l)).1 },
)
