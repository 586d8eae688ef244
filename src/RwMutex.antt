-- ===== src/RwMutex.antt =====
-- rwmutex.go: the reader/writer mutex behind SQLite's file locks, and its guards.
-- A mutex is modelled with the guards that `Guard` has handed out: a guard is its number, `excl`
-- holds the number of the guard that the pointer `rw.excl` refers to, and `guards` has the field
-- `state` of each guard. Every method below runs under `rw.mu`, so it is one step. A failed assertion
-- is `panics`. `OnLockStateChange` is the list of transitions that a method reports to it.
pub mod Consistent
pub mod Moves
pub mod Others
pub mod TryLock
pub mod TryRlock
pub mod Trace
mod Examples
use litefs.Prelude.{
  ℕ, zero, suc, ◌+◌, ◌-◌, Bool, true, false, ◌&&◌, ◌||◌, not, Option, none, some, List, [], ◌∷◌,
  ltb, ◌==◌, if◌then◌else◌, update, Outcome, returns, panics, ◌>>=◌, ◌>>◌, assert,
}

pub data RwMutexState : Type 0 where
  unlocked shared exclusive : RwMutexState

pub record RwMutex : Type 0 where
  pub shared_n : ℕ
  pub excl : Option ℕ
  pub guard_n : ℕ
  pub guards : ℕ → RwMutexState

-- The zero value of the Go struct.
unfoldable pub zero_value : RwMutex
zero_value = record { shared_n = 0; excl = none; guard_n = 0; guards = λ _. unlocked }

-- The next guard, unlocked.
unfoldable pub guard : RwMutex → RwMutex × ℕ
guard m =
    (record m { guard_n = m.guard_n + 1; guards = update m.guards m.guard_n unlocked }, m.guard_n)

abbrev pub is_none : Option ℕ → Bool
is_none none = true
is_none (some _) = false

abbrev pub is : Option ℕ → ℕ → Bool
is none g = false
is (some h) g = h == g

unfoldable pub state : RwMutex → RwMutexState
state m =
    if not (is_none m.excl) then exclusive else (if ltb 0 m.shared_n then shared else unlocked)

unfoldable pub guard_state : RwMutex → ℕ → RwMutexState
guard_state m g = m.guards g

-- The three switches of `tryLock`, by the state of the guard.
abbrev try_lock_from : RwMutexState → RwMutex → ℕ → Outcome (RwMutex × Bool)
try_lock_from unlocked m g =
    if not (m.shared_n == 0) || not (is_none m.excl)
    then returns (m, false)
    else returns
        (record m { shared_n = 0; excl = some g; guards = update m.guards g exclusive }, true)
try_lock_from shared m g = do
  assert (is_none m.excl)
  if ltb 1 m.shared_n
      then returns (m, false)
      else (assert (m.shared_n == 1)
          >> returns (
            record m { shared_n = 0; excl = some g; guards = update m.guards g exclusive },
            true,
          ))
try_lock_from exclusive m g = returns (m, true)

unfoldable pub try_lock : RwMutex → ℕ → Outcome (RwMutex × Bool)
try_lock m g = try_lock_from (m.guards g) m g

abbrev can_lock_from : RwMutexState → RwMutex → Bool
can_lock_from unlocked m = m.shared_n == 0 && is_none m.excl
can_lock_from shared m = m.shared_n == 1
can_lock_from exclusive m = true

unfoldable pub can_lock : RwMutex → ℕ → Bool × RwMutexState
unfolding state
can_lock m g = (can_lock_from (m.guards g) m, state m)

abbrev try_rlock_from : RwMutexState → RwMutex → ℕ → Outcome (RwMutex × Bool)
try_rlock_from unlocked m g =
    if not (is_none m.excl)
    then returns (m, false)
    else returns (record m { shared_n = m.shared_n + 1; guards = update m.guards g shared }, true)
try_rlock_from shared m g = returns (m, true)
try_rlock_from exclusive m g = do
  assert (is m.excl g)
  returns (record m { shared_n = 1; excl = none; guards = update m.guards g shared }, true)

unfoldable pub try_rlock : RwMutex → ℕ → Outcome (RwMutex × Bool)
try_rlock m g = try_rlock_from (m.guards g) m g

abbrev can_rlock_from : RwMutexState → RwMutex → Bool
can_rlock_from unlocked m = is_none m.excl
can_rlock_from shared m = true
can_rlock_from exclusive m = true

unfoldable pub can_rlock : RwMutex → ℕ → Bool
can_rlock m g = can_rlock_from (m.guards g) m

abbrev unlock_from : RwMutexState → RwMutex → ℕ → Outcome RwMutex
unlock_from unlocked m g = returns m
unlock_from shared m g = do
  assert (ltb 0 m.shared_n)
  returns (record m { shared_n = m.shared_n - 1; guards = update m.guards g unlocked })
unlock_from exclusive m g = do
  assert (is m.excl g)
  returns (record m { shared_n = 0; excl = none; guards = update m.guards g unlocked })

unfoldable pub unlock : RwMutex → ℕ → Outcome RwMutex
unlock m g = unlock_from (m.guards g) m g

pub state-discrete : Discrete RwMutexState
state-discrete = hlevel

abbrev pub same_state : RwMutexState → RwMutexState → Bool
same_state unlocked unlocked = true
same_state shared shared = true
same_state exclusive exclusive = true
same_state _ _ = false

-- What `TryLock`, `TryRLock` and `Unlock` report to `OnLockStateChange`, when it is set.
abbrev pub on_change : RwMutexState → RwMutexState → List (RwMutexState × RwMutexState)
on_change prev new = if same_state prev new then [] else (prev, new) ∷ []

-- The exported methods, with what they report.
unfoldable pub notify_try_lock :
    RwMutex → ℕ → Outcome (RwMutex × Bool × List (RwMutexState × RwMutexState))
unfolding try_lock state
notify_try_lock m g = try_lock m g >>= λ r. returns (r.0, r.1, on_change (state m) (state r.0))

unfoldable pub notify_try_rlock :
    RwMutex → ℕ → Outcome (RwMutex × Bool × List (RwMutexState × RwMutexState))
unfolding try_rlock state
notify_try_rlock m g = try_rlock m g >>= λ r. returns (r.0, r.1, on_change (state m) (state r.0))

unfoldable pub notify_unlock : RwMutex → ℕ → Outcome (RwMutex × List (RwMutexState × RwMutexState))
unfolding unlock state
notify_unlock m g = unlock m g >>= λ m'. returns (m', on_change (state m) (state m'))
