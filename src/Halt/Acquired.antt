-- ===== src/Halt/Acquired.antt =====
-- What AcquireHaltLock (db.go) does, where no halt lock is held and where one is.
use litefs.Prelude.{
  ℕ, ◌≡◌, refl, sym, ap, ◌∙◌, subst, ◌≢◌, Option, none, some, Option-cases, inl, inr, [], ==_iff,
  ==_ne, ℕ_discrete, if◌then◌else◌, returns,
}
use litefs.RwMutex.{state}
use litefs.Ltx.{Ltx}
use litefs.Locks.Types.{DbLock, GuardSet, Locks}
use litefs.Locks.Effects.{held, AreConsistent, IsOpen}
use litefs.Locks.Grants.{holds, needs, Grants}
use litefs.Locks.WriteLock.{try_acquire_write_lock_correct}
use litefs.Locks.Waiting.{
  HoldsWrite, HoldsWrite-refuses, acquire_write_lock, round_granted, round_refused, WaitEnd,
}
use litefs.Db.State.{Db, ok}
use litefs.Db.Rollback.{recover}
use litefs.Halt.{
  HaltLock, Node, granted, failed, ends, halted_by, after_wait, after_recovery, store_halt_lock,
  unlock_previous, acquire_halt_lock, current,
}
use litefs.Halt.Held.{IsHaltable}

-- The halt lock is acquired: it is stored with guards that hold the locks of a write.
pub record Halted (ltx : Ltx) (id expires : ℕ) (n : Node) (db : Db) : Type 0 where
  pub after : Node
  pub result :
      acquire_halt_lock ltx id expires n
      ≡ ends after (granted (record { id = id; pos = db.pos; expires = some expires }))
  pub gs : GuardSet
  pub stored : after.halt ≡ some (record { id = id; pos = db.pos; expires = some expires }, gs)
  pub holding : HoldsWrite n.db.mode gs after.locks
  pub valid : IsHaltable after
  pub recovered : after.db ≡ db

-- With no halt lock, where each mutex is free for a write and the recovery succeeds,
-- AcquireHaltLock returns a lock with the id, the position after the recovery and the time of its
-- expiration, and stores it with guards that hold the locks of a write.
pub acquire_halt_lock-granted :
    (ltx : Ltx) (id expires : ℕ) (n : Node) (db : Db)
    → IsHaltable n
    → id ≢ 0
    → n.halt ≡ none
    → ((l : DbLock) → Grants (needs n.db.mode l) (state (n.locks.mutex l)))
    → recover ltx n.db ≡ (db, ok tt)
    → Halted ltx id expires n db
unfolding acquire_halt_lock acquire_write_lock
acquire_halt_lock-granted ltx id expires n db v nonzero e free rec =
    let t = try_acquire_write_lock_correct n.db.mode n.locks v.consistent in
    elim (Option-cases t.got) [
      | inl z ↦ absurd (t.complete free z)
      | inr (gs, g) ↦
          let l = t.granted gs g in
          let holding = hold t.after gs t.consistent l.0 l.1 in
          record {
            after = record n { db = db; locks = t.after; halt = some (lock, gs) };
            result =
                ap
                  (λ b.
                    if b
                    then ends n failed
                    else after_wait ltx id expires n (
                        acquire_write_lock [] (λ _. n.db.mode) (λ _. halted_by id n.halt) 0
                          n.locks))
                  (==_ne id 0 nonzero)
                ∙ ap
                    (λ h.
                      after_wait ltx id expires n
                        (acquire_write_lock [] (λ _. n.db.mode) (λ _. halted_by id h) 0 n.locks))
                    e
                ∙ ap (after_wait ltx id expires n) (
                    round_granted n.db.mode (λ ls. returns (ls, WaitEnd.context_done)) n.locks
                      t.after gs (t.result ∙ ap (λ o. returns (t.after, o)) g))
                ∙ ap (after_recovery id expires gs (record n { locks = t.after })) rec
                ∙ ap
                    (λ h.
                      store_halt_lock lock gs (record n { db = db; locks = t.after })
                        (unlock_previous h t.after))
                    e;
            gs = gs;
            stored = refl;
            holding = holding;
            valid = record {
              consistent = t.consistent;
              holding = λ l' gs' e'.
                  (n.db.mode, subst (λ x. HoldsWrite n.db.mode x t.after) (set_of e') holding);
            };
            recovered = refl;
          }
    ]
  where
    lock : HaltLock
    lock = record { id = id; pos = db.pos; expires = some expires }

    set_of :
        {a b : HaltLock} {c d : GuardSet}
        → ◌≡◌ {A = Option (HaltLock × GuardSet)} (some (a, c)) (some (b, d))
        → c ≡ d
    set_of e = cc e

    hold :
        (ls : Locks) (gs : GuardSet)
        → AreConsistent ls
        → IsOpen ls gs
        → ((l : DbLock) → held ls gs l ≡ holds n.db.mode l)
        → HoldsWrite n.db.mode gs ls
    hold ls gs c o h = record { consistent = c; open_set = o; holding = h }

-- How AcquireHaltLock ends while a lock is held.
pub data Busy (ltx : Ltx) (id expires : ℕ) (n : Node) (l : HaltLock) : Type 0 where
  again :
      (l.id ≡ id)
      → acquire_halt_lock ltx id expires n ≡ ends n (granted l)
      → Busy ltx id expires n l
  refused :
      (ls : Locks)
      → (l.id ≢ id)
      → acquire_halt_lock ltx id expires n ≡ ends (record n { locks = ls }) failed
      → IsHaltable (record n { locks = ls })
      → Busy ltx id expires n l

-- While a halt lock is held, AcquireHaltLock with its id returns it and changes nothing; with
-- another id, not 0, it fails, and the lock stays, its guards holding the locks of a write.
pub acquire_halt_lock-held :
    (ltx : Ltx) (id expires : ℕ) (n : Node) (l : HaltLock) (gs : GuardSet)
    → IsHaltable n
    → id ≢ 0
    → n.halt ≡ some (l, gs)
    → Busy ltx id expires n l
unfolding acquire_halt_lock acquire_write_lock
acquire_halt_lock-held ltx id expires n l gs v nonzero e = elim (ℕ_discrete l.id id) [
  | yes same ↦ again same (
      entered
      ∙ ap
          (λ b.
            after_wait ltx id expires n (acquire_write_lock [] (λ _. n.db.mode) (λ _. b) 0 n.locks))
          ((==_iff l.id id).1 same)
      ∙ ap (λ h. ends n (current h)) e)
  | no other ↦
      let (m, h) = v.holding l gs e in
      let r = HoldsWrite-refuses m n.db.mode gs n.locks h in
      refused r.after other
        (entered
          ∙ ap
              (λ b.
                after_wait ltx id expires n
                  (acquire_write_lock [] (λ _. n.db.mode) (λ _. b) 0 n.locks))
              (==_ne l.id id other)
          ∙ ap (after_wait ltx id expires n) (
              round_refused n.db.mode (λ ls. returns (ls, WaitEnd.context_done)) n.locks r.after
                r.result))
        (record {
          consistent = r.still.consistent;
          holding =
              λ l' gs' e'. (m, subst (λ x. HoldsWrite m x r.after) (set_of (sym e ∙ e')) r.still);
        })
]
  where
    set_of :
        {a b : HaltLock} {c d : GuardSet}
        → ◌≡◌ {A = Option (HaltLock × GuardSet)} (some (a, c)) (some (b, d))
        → c ≡ d
    set_of e = cc e

    entered :
        acquire_halt_lock ltx id expires n
        ≡ after_wait ltx id expires n
            (acquire_write_lock [] (λ _. n.db.mode) (λ _. halted_by id (some (l, gs))) 0 n.locks)
    entered =
        ap
          (λ b.
            if b
            then ends n failed
            else after_wait ltx id expires n
                (acquire_write_lock [] (λ _. n.db.mode) (λ _. halted_by id n.halt) 0 n.locks))
          (==_ne id 0 nonzero)
        ∙ ap
            (λ h.
              after_wait ltx id expires n
                (acquire_write_lock [] (λ _. n.db.mode) (λ _. halted_by id h) 0 n.locks))
            e
