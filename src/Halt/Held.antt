-- ===== src/Halt/Held.antt =====
-- While the halt lock is held its guards hold the locks of a write (db.go), and giving it back
-- frees them.
use litefs.Prelude.{
  ℕ, ◌≡◌, refl, sym, ap, ◌∙◌, subst, ◌≢◌, Bool, true, false, Option, none, some, ◌==◌,
  if◌then◌else◌, Outcome, returns,
}
use litefs.RwMutex.{unlocked}
use litefs.Locks.Types.{DbLock, GuardSet}
use litefs.Locks.Acquire.{DbMode}
use litefs.Locks.Effects.{held, AreConsistent}
use litefs.Locks.WriteLock.{unlock_all-Released}
use litefs.Locks.Waiting.{HoldsWrite}
use litefs.Halt.{HaltLock, Node, clear_halt_lock, release_if, release_halt_lock}

-- The mutexes are consistent, and a halt lock's guards hold what a write takes.
pub record IsHaltable (n : Node) : Type 0 where
  pub consistent : AreConsistent n.locks
  pub holding :
      (l : HaltLock) (gs : GuardSet)
      → n.halt ≡ some (l, gs)
      → (m : DbMode) × HoldsWrite m gs n.locks

-- The lock is gone, and its guards are unlocked.
pub record Freed (gs : GuardSet) (n : Node) (r : Outcome Node) : Type 0 where
  pub after : Node
  pub result : r ≡ returns after
  pub valid : IsHaltable after
  pub no_lock : after.halt ≡ none
  pub free : (k : DbLock) → held after.locks gs k ≡ unlocked
  pub same_db : after.db ≡ n.db

some-none : {A : Type 0} {a : A} → none ≢ some a
some-none e = cc e

clear_halt_lock-Freed :
    (m : DbMode) (gs : GuardSet) (n : Node)
    → HoldsWrite m gs n.locks
    → Freed gs n (clear_halt_lock gs n)
clear_halt_lock-Freed m gs n h =
    let u = unlock_all-Released h.consistent h.open_set in
    record {
      after = record n { locks = u.after; halt = none };
      result = rw u.result refl;
      valid = record { consistent = u.effect.consistent; holding = λ l gs e. absurd (some-none e) };
      no_lock = refl;
      free = u.mine;
      same_db = refl;
    }

-- A halt lock that is due is freed, and in any other case nothing changes.
pub data Given (due : HaltLock → Bool) (n : Node) (r : Outcome Node) : Type 0 where
  freed :
      (l : HaltLock) (gs : GuardSet)
      → n.halt ≡ some (l, gs)
      → due l ≡ true
      → Freed gs n r
      → Given due n r
  kept :
      ((l : HaltLock) (gs : GuardSet) → n.halt ≡ some (l, gs) → due l ≡ false)
      → r ≡ returns n
      → Given due n r

give_back :
    (due : HaltLock → Bool) (give : Option (HaltLock × GuardSet) → Outcome Node) (n : Node)
    → (give none ≡ returns n)
    → ((l : HaltLock) (gs : GuardSet)
        → give (some (l, gs)) ≡ (if due l then clear_halt_lock gs n else returns n))
    → IsHaltable n
    → Given due n (give n.halt)
give_back due give n at_none at_some v = go n.halt refl
  where
    go : (h : Option (HaltLock × GuardSet)) → n.halt ≡ h → Given due n (give h)
    go none e = kept (λ l gs e'. absurd (some-none (sym e ∙ e'))) at_none
    go (some (l, gs)) e = by (due l) refl
      where
        by : (b : Bool) → due l ≡ b → Given due n (give (some (l, gs)))
        by true d = freed l gs e d (
            subst (Freed gs n)
              (sym (at_some l gs ∙ ap (λ b. if b then clear_halt_lock gs n else returns n) d))
              (clear_halt_lock-Freed (v.holding l gs e).0 gs n (v.holding l gs e).1))
        by false d =
            kept (λ l' gs' e'. ap due (lock_of (sym e' ∙ e)) ∙ d)
              (at_some l gs ∙ ap (λ b. if b then clear_halt_lock gs n else returns n) d)
          where
            lock_of :
                {a b : HaltLock} {c d : GuardSet}
                → ◌≡◌ {A = Option (HaltLock × GuardSet)} (some (a, c)) (some (b, d))
                → a ≡ b
            lock_of e = cc e

-- ReleaseHaltLock frees the halt lock with its id, so that all its guards are unlocked, and changes
-- nothing if another lock, or none, is held.
pub release_halt_lock_correct :
    (id : ℕ) (n : Node) → IsHaltable n → Given (λ l. l.id == id) n (release_halt_lock id n)
unfolding release_halt_lock
release_halt_lock_correct id n v =
    give_back (λ l. l.id == id) (λ h. release_if id h n) n refl (λ l gs. refl) v
