-- ===== src/RwMutex/Trace.antt =====
-- A mutex (rwmutex.go) under any sequence of calls by any of its guards.
use litefs.Prelude.{
  ℕ, ◌+◌, ◌<◌, ◌≡◌, refl, sym, ap, subst, ◌≢◌, ◌↔◌, inl, inr, Bool, none, arith, update, total,
  total-suc, total-cong, total-eq-zero, returns, Option-cases, ◌∙◌,
}
use native.Mathlib.Numerals.{add-one}
use litefs.RwMutex.{
  RwMutex, RwMutexState, unlocked, shared, exclusive, zero_value, guard, state, try_lock, try_rlock,
  unlock,
}
use litefs.RwMutex.Consistent.{
  IsConsistent, reads, reader_counted, exclusion, zero_value-IsConsistent,
}
use litefs.RwMutex.TryLock.{TryLock, try_lock_lem}
use litefs.RwMutex.TryRlock.{TryRlock, try_rlock_lem, Unlock, unlock_lem}

pub data Step (m : RwMutex) : RwMutex → Type 0 where
  hands_out : Step m (guard m).0
  locks :
      {m' : RwMutex} {b : Bool} (g : ℕ) → g < m.guard_n → try_lock m g ≡ returns (m', b) → Step m m'
  rlocks :
      {m' : RwMutex} {b : Bool} (g : ℕ)
      → g < m.guard_n
      → try_rlock m g ≡ returns (m', b)
      → Step m m'
  unlocks : {m' : RwMutex} (g : ℕ) → g < m.guard_n → unlock m g ≡ returns m' → Step m m'

-- The mutexes that calls lead to from the zero value.
pub data Reachable : RwMutex → Type 0 where
  start : Reachable zero_value
  later : {m m' : RwMutex} → Reachable m → Step m m' → Reachable m'

-- A new guard is unlocked, and nothing else changes.
pub guard-Moved : (m : RwMutex) → IsConsistent m → record {
  consistent : IsConsistent (guard m).0;
  unlocked_at_first : (guard m).0.guards (guard m).1 ≡ unlocked;
  same : (h : ℕ) → (guard m).0.guards h ≡ m.guards h;
  handed_out : (guard m).1 < (guard m).0.guard_n;
  number : (guard m).1 ≡ m.guard_n;
  one_more : (guard m).0.guard_n ≡ m.guard_n + 1;
}
unfolding guard
guard-Moved m inv = record {
  consistent = record {
    counted = inv.counted ∙ counted;
    held = λ g h. ground (arith, inv.held g h, inv.fresh m.guard_n);
    owned = λ g h. ground (arith, inv.owned g);
    fresh = λ g h. ground (arith, inv.fresh g);
  };
  unlocked_at_first = ground arith;
  same = λ h. ground (arith, inv.fresh h);
  handed_out = omega arith;
  number = refl;
  one_more = refl;
}
  where
    counted :
        total reads m.guard_n m.guards
        ≡ total reads (m.guard_n + 1) (update m.guards m.guard_n unlocked)
    counted = rw (add-one m.guard_n) (
        rw (total-suc reads) (
          ground (
            arith,
            total-cong reads m.guard_n m.guards (update m.guards m.guard_n unlocked)
                (λ i lt. ground arith),
          )))

returns_same : {A : Type 0} {a b : A} → returns a ≡ returns b → a ≡ b
returns_same p = cc

Step-IsConsistent : {m m' : RwMutex} → Step m m' → IsConsistent m → IsConsistent m'
Step-IsConsistent {m} hands_out inv = (guard-Moved m inv).consistent
Step-IsConsistent (locks g lt p) inv =
    let t = try_lock_lem inv g lt in
    subst IsConsistent (ap (λ (r : RwMutex × Bool). r.0) (returns_same (sym t.result ∙ p)))
      t.moved.consistent
Step-IsConsistent (rlocks g lt p) inv =
    let t = try_rlock_lem inv g lt in
    subst IsConsistent (ap (λ (r : RwMutex × Bool). r.0) (returns_same (sym t.result ∙ p)))
      t.moved.consistent
Step-IsConsistent (unlocks g lt p) inv =
    let t = unlock_lem inv g lt in
    subst IsConsistent (returns_same (sym t.result ∙ p)) t.moved.consistent

-- Whatever calls were made, the counters of the mutex agree with the states of its guards.
pub Reachable-IsConsistent : {m : RwMutex} → Reachable m → IsConsistent m
Reachable-IsConsistent start = zero_value-IsConsistent
Reachable-IsConsistent (later r s) = Step-IsConsistent s (Reachable-IsConsistent r)

module _ {m : RwMutex} (inv : IsConsistent m) where
  pub state-exclusive : (state m ≡ exclusive) ↔ ((g : ℕ) × (m.guards g ≡ exclusive))
  unfolding state
  state-exclusive = (held, λ (g, e). ground (arith, inv.owned g e))
    where
      held : state m ≡ exclusive → (g : ℕ) × (m.guards g ≡ exclusive)
      held p = elim (Option-cases m.excl) [
        | inl e ↦ absurd (ground arith)
        | inr (g, e) ↦ (g, (inv.held g e).0)
      ]

  all_unlocked :
      m.excl ≡ none
      → m.shared_n ≡ 0
      → (g : ℕ) (s : RwMutexState) → m.guards g ≡ s
      → m.guards g ≡ unlocked
  all_unlocked e n g unlocked p = p
  all_unlocked e n g shared p = absurd (omega (arith, reader_counted inv g p))
  all_unlocked e n g exclusive p = ground (arith, inv.owned g p)

  pub state-unlocked : (state m ≡ unlocked) ↔ ((g : ℕ) → m.guards g ≡ unlocked)
  unfolding state
  state-unlocked = (free, all)
    where
      free : state m ≡ unlocked → (g : ℕ) → m.guards g ≡ unlocked
      free p g = all_unlocked (ground arith) (ground arith) g (m.guards g) refl

      none_held : ((g : ℕ) → m.guards g ≡ unlocked) → m.excl ≡ none
      none_held a = elim (Option-cases m.excl) [
        | inl e ↦ e
        | inr (g, e) ↦ cc ((inv.held g e).0, a g)
      ]

      all : ((g : ℕ) → m.guards g ≡ unlocked) → state m ≡ unlocked
      all a = ground (
        arith,
        none_held a,
        inv.counted,
        total-eq-zero reads m.guard_n m.guards (λ i lt. ap reads (a i)),
      )

-- In every reachable mutex, the state that it reports is the state of its guards: exclusive exactly
-- when one of them holds the exclusive lock, and unlocked exactly when all of them are.
pub Reachable-state :
    {m : RwMutex}
    → Reachable m
    → ((state m ≡ exclusive) ↔ ((g : ℕ) × (m.guards g ≡ exclusive)))
      × ((state m ≡ unlocked) ↔ ((g : ℕ) → m.guards g ≡ unlocked))
Reachable-state r =
    (state-exclusive (Reachable-IsConsistent r), state-unlocked (Reachable-IsConsistent r))

-- In every reachable mutex, while one guard holds the exclusive lock every other guard is unlocked.
pub mutual_exclusion :
    {m : RwMutex} → Reachable m → (g h : ℕ) → m.guards g ≡ exclusive → g ≢ h → m.guards h ≡ unlocked
mutual_exclusion r g h = exclusion (Reachable-IsConsistent r) g h

-- In every reachable mutex, a call of `TryLock` by a guard returns, never failing an assertion. It
-- is granted exactly when every other guard is unlocked, and `CanLock` predicts that. A grant puts
-- the guard, and no other, in the exclusive state; a refusal changes nothing.
pub TryLock-correct : {m : RwMutex} → Reachable m → (g : ℕ) → g < m.guard_n → TryLock m g
TryLock-correct r g lt = try_lock_lem (Reachable-IsConsistent r) g lt

-- In every reachable mutex, a call of `TryRLock` by a guard returns, never failing an assertion. It
-- is granted exactly when no other guard holds the exclusive lock, and `CanRLock` predicts that. A
-- grant puts the guard, and no other, in the shared state, also down from exclusive; a refusal
-- changes nothing.
pub TryRlock-correct : {m : RwMutex} → Reachable m → (g : ℕ) → g < m.guard_n → TryRlock m g
TryRlock-correct r g lt = try_rlock_lem (Reachable-IsConsistent r) g lt

-- In every reachable mutex, a call of `Unlock` by a guard returns, never failing an assertion, and
-- puts the guard, and no other, in the unlocked state.
pub Unlock-correct : {m : RwMutex} → Reachable m → (g : ℕ) → g < m.guard_n → Unlock m g
Unlock-correct r g lt = unlock_lem (Reachable-IsConsistent r) g lt

-- The state that a mutex reports depends on the states of its guards alone.
pub state-cong :
    {m n : RwMutex}
    → IsConsistent m
    → IsConsistent n
    → ((h : ℕ) → m.guards h ≡ n.guards h)
    → state m ≡ state n
state-cong {m} {n} p q same = compare_states (state m) (state n) refl refl
  where
    excl : state m ≡ exclusive → state n ≡ exclusive
    excl e = let (g, h) = (state-exclusive p).0 e in (state-exclusive q).1 (g, sym (same g) ∙ h)

    excl_back : state n ≡ exclusive → state m ≡ exclusive
    excl_back e = let (g, h) = (state-exclusive q).0 e in (state-exclusive p).1 (g, same g ∙ h)

    free : state m ≡ unlocked → state n ≡ unlocked
    free e = (state-unlocked q).1 (λ g. sym (same g) ∙ (state-unlocked p).0 e g)

    free_back : state n ≡ unlocked → state m ≡ unlocked
    free_back e = (state-unlocked p).1 (λ g. same g ∙ (state-unlocked q).0 e g)

    compare_states : (s t : RwMutexState) → state m ≡ s → state n ≡ t → state m ≡ state n
    compare_states exclusive t a b = a ∙ sym (excl a)
    compare_states unlocked t a b = a ∙ sym (free a)
    compare_states shared shared a b = a ∙ sym b
    compare_states shared exclusive a b = excl_back b ∙ sym b
    compare_states shared unlocked a b = free_back b ∙ sym b
