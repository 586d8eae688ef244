-- ===== src/Locks/Owners/TryLocks.antt =====
-- TryLocks by owner (db.go), and how CanLock answers about the CKPT lock.
use litefs.Prelude.{
  ℕ, ◌≡◌, refl, sym, ap, ◌∙◌, subst, ◌≢◌, inl, inr, Bool, true, false, none, some, Option,
  Bool-cases, List, [], ◌∷◌, arith, returns, ◌==◌, ==_self,
}
use litefs.RwMutex
use litefs.RwMutex.{RwMutexState, unlocked, exclusive}
use litefs.RwMutex.Consistent.{exclusion}
use litefs.RwMutex.Others.{NoWriter}
use litefs.RwMutex.TryLock.{try_lock_lem}
use litefs.RwMutex.Trace.{state-cong, state-exclusive, state-unlocked}
use litefs.Locks.Types.{DbLock, write, ckpt, LockType, on, GuardSet, Locks, new_guard_set, guard}
use litefs.Locks.Effects.{held, AreConsistent, IsOpen, Effect, new_guard_set-lem}
use litefs.Locks.Owners.{
  find_set, guard_set, created_unless, create_guard_set_if_not_exists, try_locks, can_lock,
  foreign_writer,
}
use litefs.Locks.Owners.Checkpoint.{HaveMutexes, Among, lock_each-LockedEach}

-- The mutexes are consistent, and every guard set that an owner has is one of theirs.
pub record AreValid (ls : Locks) : Type 0 where
  pub consistent : AreConsistent ls
  pub sets_open : (owner : ℕ) (gs : GuardSet) → guard_set owner ls ≡ some gs → IsOpen ls gs

pub record Created (owner : ℕ) (ls : Locks) (r : Locks × GuardSet) : Type 0 where
  pub valid : AreValid r.0
  pub found : guard_set owner r.0 ≡ some r.1
  pub same : (l : DbLock) (h : ℕ) → (r.0.mutex l).guards h ≡ (ls.mutex l).guards h

module _ (owner : ℕ) (ls : Locks) (v : AreValid ls) where
  abbrev opened : Locks
  opened = (new_guard_set owner ls).0

  abbrev own : GuardSet
  own = (new_guard_set owner ls).1

  some_injective : {a b : GuardSet} → some a ≡ some b → a ≡ b
  some_injective p = cc

  sets-IsOpen_after :
      (o : ℕ) (gs : GuardSet)
      → guard_set o (record opened { guard_sets = (owner, own) ∷ opened.guard_sets }) ≡ some gs
      → IsOpen opened gs
  unfolding guard_set find_set
  sets-IsOpen_after o gs p = elim (Bool-cases (owner == o)) [
    | inl e ↦
        subst (IsOpen opened) (some_injective (sym (rw e refl) ∙ p))
          (new_guard_set-lem owner ls v.consistent).open_set
    | inr e ↦ older (v.sets_open o gs (old e))
  ]
    where
      old : (owner == o) ≡ false → find_set o ls.guard_sets ≡ some gs
      old e =
          ap (find_set o) (sym (new_guard_set-lem owner ls v.consistent).same_sets)
          ∙ sym (rw e refl)
          ∙ p

      older : IsOpen ls gs → IsOpen opened gs
      older q = record {
        handed_out = λ l.
            omega (arith, q.handed_out l, (new_guard_set-lem owner ls v.consistent).one_more l);
      }

  Created-case :
      (o : Option GuardSet) → guard_set owner ls ≡ o → Created owner ls (created_unless owner ls o)
  unfolding guard_set
  Created-case (some gs) e = record { valid = v; found = e; same = λ l h. refl }
  Created-case none e = record {
    valid = record {
      consistent = record { each = (new_guard_set-lem owner ls v.consistent).consistent.each };
      sets_open = λ o gs p. record { handed_out = (sets-IsOpen_after o gs p).handed_out };
    };
    found = ground (arith, ==_self owner);
    same = (new_guard_set-lem owner ls v.consistent).same;
  }

  pub create-Created : Created owner ls (create_guard_set_if_not_exists owner ls)
  unfolding create_guard_set_if_not_exists
  create-Created = Created-case (guard_set owner ls) refl

-- What TryLocks does for an owner.
pub record TriedLocks (owner : ℕ) (ts : List LockType) (ls : Locks) : Type 0 where
  pub after : Locks
  pub won : Bool
  pub own : GuardSet
  pub result : try_locks owner ts ls ≡ returns (after, won)
  pub valid : AreValid after
  pub found : guard_set owner after ≡ some own
  pub holds_all : won ≡ true → (k : DbLock) → Among k ts → held after own k ≡ exclusive
  pub no_writer : won ≡ true → Among ckpt ts → NoWriter (after.mutex write) (own.guards write)
  pub others :
      (l : DbLock) (h : ℕ) → h ≢ own.guards l → (after.mutex l).guards h ≡ (ls.mutex l).guards h

Effect-AreValid : {ls ls' : Locks} (gs : GuardSet) → Effect ls gs ls' → AreValid ls → AreValid ls'
unfolding guard_set
Effect-AreValid {ls} {ls'} gs e v = record {
  consistent = e.consistent;
  sets_open = λ o s p. record {
    handed_out = λ l. omega (
      arith,
      e.same_guards l,
      (v.sets_open o s (ap (find_set o) (sym e.same_sets) ∙ p)).handed_out l,
    );
  };
}

-- On valid locks, TryLocks of an owner for lock types other than HALT returns, never failing an
-- assertion. It moves no guard but those of the owner's set, which it creates if there is none.
-- When it reports success the owner holds each of the locks exclusively; and if CKPT is among them,
-- nobody else holds WRITE exclusively, so no checkpoint begins beside a WAL writer.
pub try_locks_correct :
    (owner : ℕ) (ts : List LockType) (ls : Locks)
    → AreValid ls
    → HaveMutexes ts
    → TriedLocks owner ts ls
unfolding try_locks
try_locks_correct owner ts ls v m =
    let c = create-Created owner ls v in
    let (opened, gs) = create_guard_set_if_not_exists owner ls in
    let t =
      lock_each-LockedEach {gs = gs} {ls = opened} ts c.valid.consistent
        (c.valid.sets_open owner gs c.found) m in
    record {
      after = t.after;
      won = t.won;
      own = gs;
      result = t.result;
      valid = Effect-AreValid gs t.effect c.valid;
      found = unfold guard_set in (ap (find_set owner) t.effect.same_sets ∙ c.found);
      holds_all = t.holds_all;
      no_writer = t.no_writer;
      others = λ l h d. t.effect.others l h d ∙ c.same l h;
    }

-- While another owner writes to the WAL and nobody holds CKPT, CanLock answers an owner that it can
-- lock CKPT, and TryLocks for CKPT fails in the same state.
pub can_lock-ckpt_divergence :
    (owner : ℕ) (ls : Locks)
    → AreValid ls
    → (h : ℕ) → (ls.mutex write).guards h ≡ exclusive
    → (create_guard_set_if_not_exists owner ls).1.guards write ≢ h
    → RwMutex.state (ls.mutex ckpt) ≡ unlocked
    → (after : Locks) × (can_lock owner (on ckpt ∷ []) ls ≡ returns (after, true, unlocked))
      × (try_locks owner (on ckpt ∷ []) ls ≡ returns (after, false))
unfolding can_lock try_locks guard foreign_writer RwMutex.guard_state
can_lock-ckpt_divergence owner ls v h writes foreign free =
    let c = create-Created owner ls v in
    let (opened, gs) = create_guard_set_if_not_exists owner ls in
    let ckpt_state =
      state-cong (c.valid.consistent.each ckpt) (v.consistent.each ckpt) (c.same ckpt) ∙ free in
    let t =
      try_lock_lem (c.valid.consistent.each ckpt) (gs.guards ckpt)
        ((c.valid.sets_open owner gs c.found).handed_out ckpt) in
    let writing = c.same write h ∙ writes in
    (
      opened,
      ground (
        arith,
        t.predicted
            ∙ t.complete (λ k d. (state-unlocked (c.valid.consistent.each ckpt)).0 ckpt_state k),
      ),
      rw (
        (state-exclusive (c.valid.consistent.each write)).1 (h, writing),
        exclusion (c.valid.consistent.each write) h (gs.guards write) writing
            (λ e. foreign (sym e)),
      ),
    )
