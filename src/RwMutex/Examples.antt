-- ===== src/RwMutex/Examples.antt =====
-- A mutex of two guards (rwmutex.go): tests, and instances of the theorems.
use litefs.Prelude.{
  ℕ, ◌≡◌, refl, ◌↔◌, true, false, arith, returns, some, update, ℕ_discrete, ◌∷◌, [],
}
use litefs.RwMutex.{
  RwMutex, unlocked, exclusive, zero_value, guard, state, try_lock, notify_try_lock,
}
use litefs.RwMutex.TryLock.{TryLock}
use litefs.RwMutex.TryRlock.{TryRlock, Unlock}
use litefs.RwMutex.Trace.{
  Reachable, start, later, hands_out, locks, Reachable-state, mutual_exclusion, TryLock-correct,
  TryRlock-correct, Unlock-correct,
}

abbrev two_guards : RwMutex
two_guards = (guard (guard zero_value).0).0

abbrev first_locked : RwMutex
first_locked = record {
  shared_n = 0;
  excl = some 0;
  guard_n = two_guards.guard_n;
  guards = update two_guards.guards 0 exclusive;
}

two_guards-Reachable : Reachable two_guards
two_guards-Reachable = later (later start hands_out) hands_out

first_locked-Reachable : Reachable first_locked
unfolding zero_value guard try_lock ℕ_discrete
first_locked-Reachable = later two_guards-Reachable (locks 0 (omega arith) refl)

second_refused : try_lock first_locked 1 ≡ returns (first_locked, false)
unfolding zero_value guard try_lock ℕ_discrete
second_refused = refl

Reachable-state_example :
    ((state first_locked ≡ exclusive) ↔ ((g : ℕ) × (first_locked.guards g ≡ exclusive)))
    × ((state first_locked ≡ unlocked) ↔ ((g : ℕ) → first_locked.guards g ≡ unlocked))
Reachable-state_example = Reachable-state first_locked-Reachable

mutual_exclusion_example : first_locked.guards 1 ≡ unlocked
unfolding zero_value guard ℕ_discrete
mutual_exclusion_example = mutual_exclusion first_locked-Reachable 0 1 refl (omega arith)

TryLock-correct_example : TryLock first_locked 1
unfolding zero_value guard
TryLock-correct_example = TryLock-correct first_locked-Reachable 1 (omega arith)

TryRlock-correct_example : TryRlock first_locked 1
unfolding zero_value guard
TryRlock-correct_example = TryRlock-correct first_locked-Reachable 1 (omega arith)

Unlock-correct_example : Unlock first_locked 0
unfolding zero_value guard
Unlock-correct_example = Unlock-correct first_locked-Reachable 0 (omega arith)

-- The transition that the first lock reports.
first_lock_reports :
    notify_try_lock two_guards 0 ≡ returns (first_locked, true, (unlocked, exclusive) ∷ [])
unfolding zero_value guard notify_try_lock ℕ_discrete
first_lock_reports = refl
