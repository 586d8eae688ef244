-- ===== src/RwMutex/TryLock.antt =====
-- `TryLock` and `CanLock` (rwmutex.go).
use litefs.Prelude.{
  ℕ, ◌<◌, ◌≡◌, refl, sym, ◌∙◌, subst, ◌≢◌, Option-cases, inl, inr, ℕ_discrete, ◌⊎◌, Bool, true,
  false, none, some, arith, update, returns, if◌then◌else◌,
}
use litefs.RwMutex.{RwMutex, RwMutexState, unlocked, shared, exclusive, try_lock, can_lock}
use litefs.RwMutex.Consistent.{IsConsistent, reads, reader_counted, exclusion}
use litefs.RwMutex.Moves.{Moved, stays-Moved, exclusive-Moved}
use litefs.RwMutex.Others.{Alone, readers-Alone, Alone-readers, Alone-excl, shared_excl}

-- What `TryLock` does for guard `g`.
pub record TryLock (m : RwMutex) (g : ℕ) : Type 0 where
  pub after : RwMutex
  pub won : Bool
  pub result : try_lock m g ≡ returns (after, won)
  pub moved : Moved m g (if won then exclusive else m.guards g) after
  pub unchanged : won ≡ false → after ≡ m
  pub predicted : (can_lock m g).0 ≡ won
  pub sound : won ≡ true → Alone m g
  pub complete : Alone m g → won ≡ true

module _ {m : RwMutex} (inv : IsConsistent m) (g : ℕ) (lt : g < m.guard_n) where
  TryLock-free :
      (s : RwMutexState)
      → m.guards g ≡ s
      → s ≢ exclusive
      → m.excl ≡ none
      → m.shared_n ≡ reads (m.guards g)
      → TryLock m g
  unfolding try_lock can_lock
  TryLock-free s e d none_held n = record {
    after = _;
    won = true;
    result = free s e d;
    moved = exclusive-Moved inv g lt none_held n;
    unchanged = λ q. cc;
    predicted = can s e d;
    sound = λ q. readers-Alone inv g lt none_held n;
    complete = λ a. refl;
  }
    where
      free :
          (s : RwMutexState)
          → m.guards g ≡ s
          → s ≢ exclusive
          → try_lock m g
            ≡ returns (
              record m { shared_n = 0; excl = some g; guards = update m.guards g exclusive },
              true,
            )
      free unlocked e d = ground arith
      free shared e d = ground arith
      free exclusive e d = absurd (d refl)

      can : (s : RwMutexState) → m.guards g ≡ s → s ≢ exclusive → (can_lock m g).0 ≡ true
      can unlocked e d = ground arith
      can shared e d = ground arith
      can exclusive e d = absurd (d refl)

  -- Somebody else is in the way: another reader, or a writer.
  TryLock-busy :
      (s : RwMutexState)
      → m.guards g ≡ s
      → s ≢ exclusive
      → (m.excl ≢ none) ⊎ (reads (m.guards g) < m.shared_n)
      → TryLock m g
  unfolding try_lock can_lock
  TryLock-busy s e d b = record {
    after = m;
    won = false;
    result = busy s e d b;
    moved = stays-Moved inv g lt;
    unchanged = λ q. refl;
    predicted = cannot s e d b;
    sound = λ q. cc;
    complete = λ a. absurd (refute b a);
  }
    where
      refute : (m.excl ≢ none) ⊎ (reads (m.guards g) < m.shared_n) → Alone m g → ⊥
      refute (inl n) a = n (Alone-excl inv g lt a (λ q. d (sym e ∙ q)))
      refute (inr n) a = omega (arith, Alone-readers inv g lt a)

      busy :
          (s : RwMutexState)
          → m.guards g ≡ s
          → s ≢ exclusive
          → (m.excl ≢ none) ⊎ (reads (m.guards g) < m.shared_n)
          → try_lock m g ≡ returns (m, false)
      busy unlocked e d b = ground arith
      busy shared e d (inl n) = absurd (n (shared_excl inv g lt e))
      busy shared e d (inr n) = ground (arith, shared_excl inv g lt e)
      busy exclusive e d b = absurd (d refl)

      cannot :
          (s : RwMutexState)
          → m.guards g ≡ s
          → s ≢ exclusive
          → (m.excl ≢ none) ⊎ (reads (m.guards g) < m.shared_n)
          → (can_lock m g).0 ≡ false
      cannot unlocked e d b = ground arith
      cannot shared e d (inl n) = absurd (n (shared_excl inv g lt e))
      cannot shared e d (inr n) = ground arith
      cannot exclusive e d b = absurd (d refl)

  TryLock-held : m.guards g ≡ exclusive → TryLock m g
  unfolding try_lock can_lock
  TryLock-held e = record {
    after = m;
    won = true;
    result = rw e;
    moved = subst (λ t. Moved m g t m) e (stays-Moved inv g lt);
    unchanged = λ q. refl;
    predicted = rw e;
    sound = λ q h d. exclusion inv g h e (λ p. d (sym p));
    complete = λ a. refl;
  }

  TryLock-case : (s : RwMutexState) → m.guards g ≡ s → TryLock m g
  TryLock-case exclusive e = TryLock-held e
  TryLock-case s e = elim (Option-cases m.excl) [
    | inr (h, p) ↦ TryLock-busy s e (λ q. cc) (inl (λ q. cc))
    | inl p ↦ elim (ℕ_discrete m.shared_n (reads (m.guards g))) [
      | yes n ↦ TryLock-free s e (λ q. cc) p n
      | no n ↦ TryLock-busy s e (λ q. cc) (inr (more s e n))
    ]
  ]
    where
      more :
          (s : RwMutexState)
          → m.guards g ≡ s
          → m.shared_n ≢ reads (m.guards g)
          → reads (m.guards g) < m.shared_n
      more unlocked e n = ground arith
      more shared e n = ground (arith, reader_counted inv g e)
      more exclusive e n = ground arith

  pub try_lock_lem : TryLock m g
  try_lock_lem = TryLock-case (m.guards g) refl
