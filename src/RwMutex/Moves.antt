-- ===== src/RwMutex/Moves.antt =====
-- How a change of one guard's state keeps a mutex consistent (rwmutex.go).
use litefs.Prelude.{ℕ, ◌+◌, ◌-◌, ◌<◌, ◌≡◌, refl, ◌≢◌, none, some, arith, update, total-update}
use litefs.RwMutex.{RwMutex, RwMutexState, unlocked, shared, exclusive}
use litefs.RwMutex.Consistent.{IsConsistent, reads, reader_counted}

-- Guard `g` of `m` is in state `s` in `m'`, and nothing else differs to an observer.
pub record Moved (m : RwMutex) (g : ℕ) (s : RwMutexState) (m' : RwMutex) : Type 0 where
  pub consistent : IsConsistent m'
  pub same_guards : m'.guard_n ≡ m.guard_n
  pub mine : m'.guards g ≡ s
  pub others : (h : ℕ) → h ≢ g → m'.guards h ≡ m.guards h

module _ {m : RwMutex} (inv : IsConsistent m) (g : ℕ) (lt : g < m.guard_n) where
  abbrev moved_to : ℕ → RwMutexState → RwMutex
  moved_to n s = record m { shared_n = n; guards = update m.guards g s }

  pub stays-Moved : Moved m g (m.guards g) m
  stays-Moved = record { consistent = inv; same_guards = refl; mine = refl; others = λ h d. refl }

  pub exclusive-Moved :
      m.excl ≡ none
      → m.shared_n ≡ reads (m.guards g)
      → Moved m g exclusive
          (record m { shared_n = 0; excl = some g; guards = update m.guards g exclusive })
  exclusive-Moved e n = record {
    consistent = record {
      counted = ground (arith, inv.counted, total-update reads m.guard_n m.guards g exclusive lt);
      held = λ h p. ground arith;
      owned = λ h p. ground (arith, inv.owned h);
      fresh = λ h p. ground (arith, inv.fresh h);
    };
    same_guards = refl;
    mine = ground arith;
    others = λ h d. ground arith;
  }

  pub shared-Moved :
      m.excl ≡ none
      → m.guards g ≡ unlocked
      → Moved m g shared (record m { shared_n = m.shared_n + 1; guards = update m.guards g shared })
  shared-Moved e n = record {
    consistent = record {
      counted = ground (arith, inv.counted, total-update reads m.guard_n m.guards g shared lt);
      held = λ h p. cc;
      owned = λ h p. ground (arith, inv.owned h);
      fresh = λ h p. ground (arith, inv.fresh h);
    };
    same_guards = refl;
    mine = ground arith;
    others = λ h d. ground arith;
  }

  pub downgraded-Moved :
      m.guards g ≡ exclusive
      → Moved m g shared (record m { shared_n = 1; excl = none; guards = update m.guards g shared })
  downgraded-Moved n = record {
    consistent = record {
      counted = ground (
        arith,
        inv.counted,
        inv.owned g n,
        inv.held g,
        total-update reads m.guard_n m.guards g shared lt,
      );
      held = λ h p. cc;
      owned = λ h p. ground (arith, inv.owned h, inv.owned g n);
      fresh = λ h p. ground (arith, inv.fresh h);
    };
    same_guards = refl;
    mine = ground arith;
    others = λ h d. ground arith;
  }

  pub released-Moved :
      m.guards g ≡ exclusive
      → Moved m g unlocked
          (record m { shared_n = 0; excl = none; guards = update m.guards g unlocked })
  released-Moved n = record {
    consistent = record {
      counted = ground (
        arith,
        inv.counted,
        inv.owned g n,
        inv.held g,
        total-update reads m.guard_n m.guards g unlocked lt,
      );
      held = λ h p. cc;
      owned = λ h p. ground (arith, inv.owned h, inv.owned g n);
      fresh = λ h p. ground (arith, inv.fresh h);
    };
    same_guards = refl;
    mine = ground arith;
    others = λ h d. ground arith;
  }

  pub dropped-Moved :
      m.guards g ≡ shared
      → Moved m g unlocked
          (record m { shared_n = m.shared_n - 1; guards = update m.guards g unlocked })
  dropped-Moved n = record {
    consistent = record {
      counted = ground (
        arith,
        inv.counted,
        reader_counted inv g n,
        total-update reads m.guard_n m.guards g unlocked lt,
      );
      held = λ h p. ground (arith, inv.held h p, reader_counted inv g n);
      owned = λ h p. ground (arith, inv.owned h);
      fresh = λ h p. ground (arith, inv.fresh h);
    };
    same_guards = refl;
    mine = ground arith;
    others = λ h d. ground arith;
  }
