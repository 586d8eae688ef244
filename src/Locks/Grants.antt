-- ===== src/Locks/Grants.antt =====
-- When the mutexes of a database grant what TryAcquireWriteLock (db.go) asks of them.
use litefs.Prelude.{ℕ, ◌≡◌, refl, sym, ap, ◌∙◌, ◌≢◌, ◌↔◌, ℕ_discrete}
use litefs.RwMutex.{RwMutexState, unlocked, exclusive, state}
use litefs.RwMutex.Others.{Alone, NoWriter}
use litefs.RwMutex.Trace.{state-exclusive, state-unlocked}
use litefs.Locks.Types.{
  DbLock, pending, shared, reserved, write, ckpt, recover, read0, read1, read2, read3, read4, dms,
  GuardSet, Locks, new_guard_set, DbLock-discrete,
}
use litefs.Locks.Acquire.{DbMode, rollback, wal, write_lock_attempts}
use litefs.Locks.Effects.{AreConsistent, new_guard_set-lem}
use litefs.Locks.Attempts.{AllFree, asks_all}

-- What the returned set holds.
abbrev pub holds : DbMode → DbLock → RwMutexState
holds rollback pending = exclusive
holds rollback shared = exclusive
holds rollback reserved = exclusive
holds rollback _ = unlocked
holds wal pending = unlocked
holds wal reserved = unlocked
holds wal shared = RwMutexState.shared
holds wal dms = RwMutexState.shared
holds wal _ = exclusive

-- What it needs on the way: PENDING is read-locked for a moment.
abbrev pub needs : DbMode → DbLock → RwMutexState
needs wal pending = RwMutexState.shared
needs mode l = holds mode l

-- A mutex in state `s` grants a lock of the wanted kind to a new guard.
abbrev pub Grants : RwMutexState → RwMutexState → Type 0
Grants exclusive s = s ≡ unlocked
Grants (RwMutexState.shared) s = s ≢ exclusive
Grants unlocked s = Unit

pub asks-holds :
    (mode : DbMode) (l : DbLock)
    → asks_all (write_lock_attempts mode) (λ _. unlocked) l ≡ holds mode l
unfolding DbLock-discrete
asks-holds rollback pending = refl
asks-holds rollback shared = refl
asks-holds rollback reserved = refl
asks-holds rollback l = refl
asks-holds wal pending = refl
asks-holds wal l = refl

module _ (ls : Locks) (c : AreConsistent ls) where
  abbrev pub opened : Locks
  opened = (new_guard_set 0 ls).0

  abbrev pub fresh : GuardSet
  fresh = (new_guard_set 0 ls).1

  all_guards :
      (l : DbLock)
      → Alone (opened.mutex l) (fresh.guards l)
      → (h : ℕ) → (ls.mutex l).guards h ≡ unlocked
  all_guards l a h = elim (ℕ_discrete h (fresh.guards l)) [
    | yes p ↦
        sym ((new_guard_set-lem 0 ls c).same l h)
        ∙ ap (opened.mutex l).guards p
        ∙ (new_guard_set-lem 0 ls c).mine l
    | no d ↦ sym ((new_guard_set-lem 0 ls c).same l h) ∙ a h d
  ]

  Alone-state :
      (l : DbLock) → Alone (opened.mutex l) (fresh.guards l) ↔ (state (ls.mutex l) ≡ unlocked)
  Alone-state l = (
    λ a. (state-unlocked (c.each l)).1 (all_guards l a),
    λ e h d. (new_guard_set-lem 0 ls c).same l h ∙ (state-unlocked (c.each l)).0 e h,
  )

  NoWriter-state :
      (l : DbLock) → NoWriter (opened.mutex l) (fresh.guards l) ↔ (state (ls.mutex l) ≢ exclusive)
  NoWriter-state l = (
    λ f e. let (h, q) = (state-exclusive (c.each l)).0 e in writer f h q,
    λ e h d q.
        e ((state-exclusive (c.each l)).1 (h, sym ((new_guard_set-lem 0 ls c).same l h) ∙ q)),
  )
    where
      writer :
          NoWriter (opened.mutex l) (fresh.guards l)
          → (h : ℕ) → (ls.mutex l).guards h ≡ exclusive
          → ⊥
      writer f h q = elim (ℕ_discrete h (fresh.guards l)) [
        | yes p ↦ cc (
          (new_guard_set-lem 0 ls c).mine l,
          ap (opened.mutex l).guards p,
          (new_guard_set-lem 0 ls c).same l h,
          q,
        )
        | no d ↦ f h d ((new_guard_set-lem 0 ls c).same l h ∙ q)
      ]

  abbrev pub GrantsAll : DbMode → Type 0
  GrantsAll mode = (l : DbLock) → Grants (needs mode l) (state (ls.mutex l))

  pub free_grants :
      (mode : DbMode) → AllFree opened fresh (write_lock_attempts mode) → GrantsAll mode
  free_grants rollback f pending = (Alone-state pending).0 f.1.1.1.1.0
  free_grants rollback f shared = (Alone-state shared).0 f.1.1.1.1.1.0
  free_grants rollback f reserved = (Alone-state reserved).0 f.1.1.1.0
  free_grants rollback f _ = tt
  free_grants wal f pending = (NoWriter-state pending).0 f.0
  free_grants wal f shared = (NoWriter-state shared).0 f.1.0
  free_grants wal f reserved = tt
  free_grants wal f dms = (NoWriter-state dms).0 f.1.1.1.0
  free_grants wal f write = (Alone-state write).0 f.1.1.1.1.0
  free_grants wal f ckpt = (Alone-state ckpt).0 f.1.1.1.1.1.0
  free_grants wal f recover = (Alone-state recover).0 f.1.1.1.1.1.1.0
  free_grants wal f read0 = (Alone-state read0).0 f.1.1.1.1.1.1.1.0
  free_grants wal f read1 = (Alone-state read1).0 f.1.1.1.1.1.1.1.1.0
  free_grants wal f read2 = (Alone-state read2).0 f.1.1.1.1.1.1.1.1.1.0
  free_grants wal f read3 = (Alone-state read3).0 f.1.1.1.1.1.1.1.1.1.1.0
  free_grants wal f read4 = (Alone-state read4).0 f.1.1.1.1.1.1.1.1.1.1.1.0

  -- An unlocked mutex grants a read lock too.
  reads_too :
      (l : DbLock) → state (ls.mutex l) ≡ unlocked → NoWriter (opened.mutex l) (fresh.guards l)
  reads_too l e = (NoWriter-state l).1 (λ q. cc (e, q))

  pub grants_free :
      (mode : DbMode) → GrantsAll mode → AllFree opened fresh (write_lock_attempts mode)
  grants_free rollback g = (
    reads_too pending (g pending),
    (
      reads_too shared (g shared),
      (
        tt,
        (
          (Alone-state reserved).1 (g reserved),
          ((Alone-state pending).1 (g pending), ((Alone-state shared).1 (g shared), tt)),
        ),
      ),
    ),
  )
  grants_free wal g = (
    (NoWriter-state pending).1 (g pending),
    (
      (NoWriter-state shared).1 (g shared),
      (
        tt,
        (
          (NoWriter-state dms).1 (g dms),
          (
            (Alone-state write).1 (g write),
            (
              (Alone-state ckpt).1 (g ckpt),
              (
                (Alone-state recover).1 (g recover),
                (
                  (Alone-state read0).1 (g read0),
                  (
                    (Alone-state read1).1 (g read1),
                    (
                      (Alone-state read2).1 (g read2),
                      ((Alone-state read3).1 (g read3), ((Alone-state read4).1 (g read4), tt)),
                    ),
                  ),
                ),
              ),
            ),
          ),
        ),
      ),
    ),
  )
