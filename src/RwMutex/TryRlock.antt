-- ===== src/RwMutex/TryRlock.antt =====
-- `TryRLock`, `CanRLock` and `Unlock` (rwmutex.go).
use litefs.Prelude.{
  ℕ, ◌<◌, ◌≡◌, refl, sym, subst, Option-cases, inl, inr, Bool, true, false, none, arith, returns,
  if◌then◌else◌,
}
use litefs.RwMutex.{
  RwMutex, RwMutexState, unlocked, shared, exclusive, try_rlock, unlock, can_rlock,
}
use litefs.RwMutex.Consistent.{IsConsistent, reader_counted, exclusion}
use litefs.RwMutex.Moves.{
  Moved, stays-Moved, shared-Moved, downgraded-Moved, released-Moved, dropped-Moved,
}
use litefs.RwMutex.Others.{NoWriter, NoWriter-excl, shared_excl}

-- What `TryRLock` does for guard `g`.
pub record TryRlock (m : RwMutex) (g : ℕ) : Type 0 where
  pub after : RwMutex
  pub won : Bool
  pub result : try_rlock m g ≡ returns (after, won)
  pub moved : Moved m g (if won then shared else m.guards g) after
  pub unchanged : won ≡ false → after ≡ m
  pub predicted : can_rlock m g ≡ won
  pub sound : won ≡ true → NoWriter m g
  pub complete : NoWriter m g → won ≡ true

-- What `Unlock` does for guard `g`.
pub record Unlock (m : RwMutex) (g : ℕ) : Type 0 where
  pub after : RwMutex
  pub result : unlock m g ≡ returns after
  pub moved : Moved m g unlocked after

module _ {m : RwMutex} (inv : IsConsistent m) (g : ℕ) (lt : g < m.guard_n) where
  Unlock-case : (s : RwMutexState) → m.guards g ≡ s → Unlock m g
  unfolding unlock
  Unlock-case unlocked e = record {
    after = m;
    result = rw e;
    moved = subst (λ t. Moved m g t m) e (stays-Moved inv g lt);
  }
  Unlock-case shared e = record {
    after = _;
    result = ground (arith, reader_counted inv g e);
    moved = dropped-Moved inv g lt e;
  }
  Unlock-case exclusive e = record {
    after = _;
    result = ground (arith, inv.owned g e);
    moved = released-Moved inv g lt e;
  }

  pub unlock_lem : Unlock m g
  unlock_lem = Unlock-case (m.guards g) refl

  readers-NoWriter : m.excl ≡ none → NoWriter m g
  readers-NoWriter p h d e = cc (p, inv.owned h e)

  TryRlock-fresh : m.guards g ≡ unlocked → TryRlock m g
  unfolding try_rlock can_rlock
  TryRlock-fresh e = elim (Option-cases m.excl) [
    | inl p ↦ record {
      after = _;
      won = true;
      result = ground arith;
      moved = shared-Moved inv g lt p e;
      unchanged = λ q. cc;
      predicted = ground arith;
      sound = λ q. readers-NoWriter p;
      complete = λ a. refl;
    }
    | inr (h, p) ↦ record {
      after = m;
      won = false;
      result = ground arith;
      moved = stays-Moved inv g lt;
      unchanged = λ q. refl;
      predicted = ground arith;
      sound = λ q. cc;
      complete = λ a. absurd (cc (p, NoWriter-excl inv g lt a (λ q. cc)));
    }
  ]

  TryRlock-case : (s : RwMutexState) → m.guards g ≡ s → TryRlock m g
  unfolding try_rlock can_rlock
  TryRlock-case unlocked e = TryRlock-fresh e
  TryRlock-case shared e = record {
    after = m;
    won = true;
    result = rw e;
    moved = subst (λ t. Moved m g t m) e (stays-Moved inv g lt);
    unchanged = λ q. refl;
    predicted = rw e;
    sound = λ q. readers-NoWriter (shared_excl inv g lt e);
    complete = λ a. refl;
  }
  TryRlock-case exclusive e = record {
    after = _;
    won = true;
    result = ground (arith, inv.owned g e);
    moved = downgraded-Moved inv g lt e;
    unchanged = λ q. cc;
    predicted = rw e;
    sound = λ q h d p. cc (exclusion inv g h e (λ r. d (sym r)), p);
    complete = λ a. refl;
  }

  pub try_rlock_lem : TryRlock m g
  try_rlock_lem = TryRlock-case (m.guards g) refl
