-- ===== src/Locks/WriteLock.antt =====
-- TryAcquireWriteLock (db.go): what it takes, when it is granted, and what a refusal leaves.
use litefs.Prelude.{
  ℕ, ◌≤◌, ◌<◌, ◌≡◌, refl, sym, ap, ◌∙◌, subst, ◌≢◌, inl, inr, true, false, none, some, Option,
  Bool-cases, [], ◌∷◌, arith, returns, ℕ_discrete,
}
use litefs.RwMutex.{RwMutexState, unlocked, state}
use litefs.RwMutex.Trace.{state-exclusive, state-unlocked, state-cong}
use litefs.Locks.Types.{
  DbLock, pending, shared, reserved, write, GuardSet, Locks, unlock_all, unlock_database,
  unlock_shm, DbLock-discrete, shm_locks,
}
use litefs.Locks.Acquire.{
  DbMode, rollback, wal, attempts, write_lock_attempts, try_acquire_write_lock,
}
use litefs.Locks.Effects.{
  held, AreConsistent, IsOpen, Effect, Effect-trans, Effect-IsOpen, new_guard_set-lem,
}
use litefs.Locks.Attempts.{
  AllFree, asks_all, Ran, attempts-Ran, Released, released, unlock_each-Released,
}
use litefs.Locks.Grants.{
  holds, needs, Grants, asks-holds, opened, fresh, GrantsAll, free_grants, grants_free,
}

pub record WriteLockTried (mode : DbMode) (ls : Locks) : Type 0 where
  pub after : Locks
  pub got : Option GuardSet
  pub result : try_acquire_write_lock mode ls ≡ returns (after, got)
  pub consistent : AreConsistent after
  pub others :
      (l : DbLock) (h : ℕ)
      → h < (ls.mutex l).guard_n
      → (after.mutex l).guards h ≡ (ls.mutex l).guards h
  pub same_sets : after.guard_sets ≡ ls.guard_sets
  pub more_guards : (l : DbLock) → (ls.mutex l).guard_n ≤ (after.mutex l).guard_n
  pub granted :
      (gs : GuardSet)
      → got ≡ some gs
      → IsOpen after gs
        × ((l : DbLock) → held after gs l ≡ holds mode l)
        × ((l : DbLock) → (ls.mutex l).guard_n ≤ gs.guards l)
        × ((l : DbLock) (h : ℕ)
            → h ≢ gs.guards l
            → (after.mutex l).guards h ≡ (ls.mutex l).guards h)
  pub refused : got ≡ none → (l : DbLock) → state (after.mutex l) ≡ state (ls.mutex l)
  pub sound :
      (gs : GuardSet) → got ≡ some gs → (l : DbLock) → Grants (needs mode l) (state (ls.mutex l))
  pub complete : ((l : DbLock) → Grants (needs mode l) (state (ls.mutex l))) → got ≢ none

all_released :
    (f : DbLock → RwMutexState) (l : DbLock)
    → released shm_locks (released (pending ∷ shared ∷ reserved ∷ []) f) l ≡ unlocked
unfolding DbLock-discrete
all_released f pending = refl
all_released f l = refl

-- GuardSet.Unlock unlocks every guard of the set.
pub unlock_all-Released :
    {ls : Locks} {gs : GuardSet}
    → AreConsistent ls
    → IsOpen ls gs
    → Released ls gs (λ _. unlocked) (unlock_all gs ls)
unfolding unlock_all unlock_database unlock_shm
unlock_all-Released {ls} {gs} c o =
    let d =
      unlock_each-Released {ls = ls} (pending ∷ shared ∷ reserved ∷ []) (held ls gs) c o
        (λ k. refl) in
    let s =
      unlock_each-Released {ls = d.after} shm_locks _ d.effect.consistent (Effect-IsOpen d.effect o)
        d.mine in
    record {
      after = s.after;
      result = rw d.result s.result;
      effect = Effect-trans d.effect s.effect;
      mine = λ k. s.mine k ∙ all_released (held ls gs) k;
    }

module _ (mode : DbMode) (ls : Locks) (c : AreConsistent ls) where
  abbrev Attempted : Type 0
  Attempted =
      Ran (opened ls c) (fresh ls c) (AllFree (opened ls c) (fresh ls c) (write_lock_attempts mode))
        (asks_all (write_lock_attempts mode) (λ _. unlocked))
        (attempts (fresh ls c) (write_lock_attempts mode) (opened ls c))

  older : (l : DbLock) (h : ℕ) → h < (ls.mutex l).guard_n → h ≢ (fresh ls c).guards l
  older l h lt p = absurd (omega (arith, (new_guard_set-lem 0 ls c).number l))

  -- Guards of `ls` are where they were if only the new set has moved since it was opened.
  pub kept :
      {after : Locks}
      → Effect (opened ls c) (fresh ls c) after
      → (l : DbLock) (h : ℕ) → h < (ls.mutex l).guard_n
      → (after.mutex l).guards h ≡ (ls.mutex l).guards h
  kept e l h lt = e.others l h (older l h lt) ∙ (new_guard_set-lem 0 ls c).same l h

  tried_granted : (r : Attempted) → r.won ≡ true → WriteLockTried mode ls
  unfolding try_acquire_write_lock
  tried_granted r w =
      let n = new_guard_set-lem 0 ls c in
      record {
        after = r.after;
        got = some (fresh ls c);
        result = rw (r.result, w);
        consistent = r.effect.consistent;
        others = kept r.effect;
        same_sets = r.effect.same_sets ∙ n.same_sets;
        more_guards =
            λ l. omega (arith, n.number l, n.open_set.handed_out l, r.effect.same_guards l);
        granted = λ gs p.
            subst
              (λ t.
                IsOpen r.after t
                × ((l : DbLock) → held r.after t l ≡ holds mode l)
                × ((l : DbLock) → (ls.mutex l).guard_n ≤ t.guards l)
                × ((l : DbLock) (h : ℕ)
                    → h ≢ t.guards l
                    → (r.after.mutex l).guards h ≡ (ls.mutex l).guards h))
              (some_injective p)
              (
                Effect-IsOpen r.effect n.open_set,
                λ l. r.granted w l ∙ asks-holds mode l,
                λ l. omega (arith, n.number l),
                λ l h d. r.effect.others l h d ∙ n.same l h,
              );
        refused = λ p. cc;
        sound = λ gs p. free_grants ls c mode (r.sound w);
        complete = λ g p. cc;
      }
    where
      some_injective : {a b : GuardSet} → some a ≡ some b → a ≡ b
      some_injective p = cc

  tried_refused : (r : Attempted) → r.won ≡ false → WriteLockTried mode ls
  unfolding try_acquire_write_lock
  tried_refused r w =
      let n = new_guard_set-lem 0 ls c in
      let u = unlock_all-Released r.effect.consistent (Effect-IsOpen r.effect n.open_set) in
      let e = Effect-trans r.effect u.effect in
      record {
        after = u.after;
        got = none;
        result = rw (r.result, w, u.result);
        consistent = u.effect.consistent;
        others = kept e;
        same_sets = e.same_sets ∙ n.same_sets;
        more_guards = λ l. omega (arith, n.number l, n.open_set.handed_out l, e.same_guards l);
        granted = λ gs p. cc;
        refused = λ p l. state-cong (u.effect.consistent.each l) (c.each l) (as_before e u.mine l);
        sound = λ gs p. cc;
        complete = λ g p. cc (w, r.complete (grants_free ls c mode g));
      }
    where
      as_before :
          {after : Locks}
          → Effect (opened ls c) (fresh ls c) after
          → ((l : DbLock) → held after (fresh ls c) l ≡ unlocked)
          → (l : DbLock) (h : ℕ) → (after.mutex l).guards h ≡ (ls.mutex l).guards h
      as_before {after} e u l h = elim (ℕ_discrete h ((fresh ls c).guards l)) [
        | yes p ↦
            ap (after.mutex l).guards p
            ∙ u l
            ∙ sym ((new_guard_set-lem 0 ls c).mine l)
            ∙ sym (ap ((opened ls c).mutex l).guards p)
            ∙ (new_guard_set-lem 0 ls c).same l h
        | no d ↦ e.others l h d ∙ (new_guard_set-lem 0 ls c).same l h
      ]

-- On consistent locks TryAcquireWriteLock returns, never failing an assertion. It is granted
-- exactly when each mutex grants what the journal mode needs: nothing is held on PENDING, RESERVED
-- and SHARED in rollback mode; in WAL mode no writer on PENDING, SHARED and DMS, and nothing on the
-- other SHM locks. A grant returns a new set that holds just the locks of the mode. A refusal
-- leaves every mutex in the state it was in. In both cases no guard handed out before has moved.
pub try_acquire_write_lock_correct :
    (mode : DbMode) (ls : Locks) → AreConsistent ls → WriteLockTried mode ls
try_acquire_write_lock_correct mode ls c =
    let n = new_guard_set-lem 0 ls c in
    let r =
      attempts-Ran (write_lock_attempts mode) (λ _. unlocked) n.consistent n.open_set n.mine in
    elim (Bool-cases r.won) [
      | inl w ↦ tried_granted mode ls c r w
      | inr w ↦ tried_refused mode ls c r w
    ]

Holding-blocks :
    (mode mode' : DbMode) (ls : Locks) (c : AreConsistent ls) (gs : GuardSet)
    → ((l : DbLock) → held ls gs l ≡ holds mode l)
    → ¬ GrantsAll ls c mode'
Holding-blocks rollback rollback ls c gs h g =
    cc (g pending, (state-exclusive (c.each pending)).1 (gs.guards pending, h pending))
Holding-blocks rollback wal ls c gs h g =
    g pending ((state-exclusive (c.each pending)).1 (gs.guards pending, h pending))
Holding-blocks wal rollback ls c gs h g =
    cc (h shared, (state-unlocked (c.each shared)).0 (g shared) (gs.guards shared))
Holding-blocks wal wal ls c gs h g =
    cc (g write, (state-exclusive (c.each write)).1 (gs.guards write, h write))

-- While some set holds the locks that TryAcquireWriteLock takes in one mode, a further
-- TryAcquireWriteLock is refused, in either mode.
pub write_lock-exclusive :
    (mode mode' : DbMode) (ls : Locks)
    → AreConsistent ls
    → (gs : GuardSet) → ((l : DbLock) → held ls gs l ≡ holds mode l)
    → (after : Locks) × (try_acquire_write_lock mode' ls ≡ returns (after, none))
write_lock-exclusive mode mode' ls c gs h =
    let t = try_acquire_write_lock_correct mode' ls c in refuse t (t.got) refl
  where
    refuse :
        (t : WriteLockTried mode' ls) (o : Option GuardSet)
        → t.got ≡ o
        → (after : Locks) × (try_acquire_write_lock mode' ls ≡ returns (after, none))
    refuse t none e = (t.after, rw (← e) t.result)
    refuse t (some gs') e = absurd (Holding-blocks mode mode' ls c gs h (t.sound gs' e))
