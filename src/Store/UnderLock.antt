-- ===== src/Store/UnderLock.antt =====
-- What is done under the write lock that processLTXStreamFrame (store.go) takes, where the locks
-- are free.
use litefs.Prelude.{
  ℕ, ◌≤◌, ◌≡◌, sym, ap, ◌∙◌, ◌≢◌, inl, inr, some, Option-cases, ℕ_discrete, returns,
}
use litefs.RwMutex.{unlocked, state}
use litefs.Locks.Types.{DbLock, GuardSet, Locks}
use litefs.Locks.Acquire.{try_acquire_write_lock}
use litefs.Locks.Effects.{held, AreConsistent}
use litefs.Locks.Grants.{needs, Grants}
use litefs.Locks.WriteLock.{try_acquire_write_lock_correct, unlock_all-Released}
use litefs.Locks.Waiting.{HoldsWrite, acquire_write_lock, round_granted, WaitEnd}
use litefs.Db.State.{Db, Result}
use litefs.Store.{Locked, unlocked_with, then_unlock, under_lock, with_write_lock}
use litefs.RwMutex.{RwMutex}
use litefs.RwMutex.Consistent.{IsConsistent}
use litefs.RwMutex.Trace.{state-cong}

-- Where the locks are free, the body runs while the set that the attempt is given holds the locks
-- of a write, and the set is unlocked after it. If the body leaves the locks as they are, each
-- mutex is again in its first state.
pub record UnderLock (body : Locks → Locked) (ls : Locks) (db : Db) (r : Db × Result (Unit {0}))
    : Type 0 where
  pub acquired : Locks
  pub left : Locks
  pub after : Locks
  pub gs : GuardSet
  pub got : try_acquire_write_lock db.mode ls ≡ returns (acquired, some gs)
  pub ran : body acquired ≡ returns (left, r)
  pub result : with_write_lock body ls db ≡ returns (after, r)
  pub freed : (k : DbLock) → held after gs k ≡ unlocked
  pub restored : left ≡ acquired → (k : DbLock) → state (after.mutex k) ≡ state (ls.mutex k)
  pub consistent : AreConsistent after

-- A mutex whose new guard is unlocked again has the guards' states that it had.
as_before :
    (gs : GuardSet) (after : Locks) (k : DbLock) {m : RwMutex}
    → IsConsistent m
    → held after gs k ≡ unlocked
    → m.guard_n ≤ gs.guards k
    → ((h : ℕ) → h ≢ gs.guards k → (after.mutex k).guards h ≡ m.guards h)
    → (h : ℕ) → (after.mutex k).guards h ≡ m.guards h
as_before gs after k {m} c mine new others h = elim (ℕ_discrete h (gs.guards k)) [
  | yes p ↦
      ap (after.mutex k).guards p ∙ mine ∙ sym (c.fresh (gs.guards k) new) ∙ sym (ap m.guards p)
  | no d ↦ others h d
]

pub with_write_lock-UnderLock :
    (body : Locks → Locked) (ls : Locks) (db : Db) (r : Db × Result (Unit {0}))
    → AreConsistent ls
    → ((l : DbLock) → Grants (needs db.mode l) (state (ls.mutex l)))
    → ((gs : GuardSet) (ls' : Locks)
        → HoldsWrite db.mode gs ls'
        → (left : Locks) × (body ls' ≡ returns (left, r)) × HoldsWrite db.mode gs left)
    → UnderLock body ls db r
unfolding with_write_lock acquire_write_lock
with_write_lock-UnderLock body ls db r c free runs =
    let t = try_acquire_write_lock_correct db.mode ls c in
    elim (Option-cases t.got) [
      | inl z ↦ absurd (t.complete free z)
      | inr (gs, g) ↦
          let l = t.granted gs g in
          let (left, e, h) =
            runs gs t.after (record { consistent = t.consistent; open_set = l.0; holding = l.1 }) in
          let u = unlock_all-Released h.consistent h.open_set in
          let got = t.result ∙ ap (λ o. returns (t.after, o)) g in
          record {
            acquired = t.after;
            left = left;
            after = u.after;
            gs = gs;
            got = got;
            ran = e;
            result =
                ap (under_lock body db) (
                  round_granted db.mode (λ ls. returns (ls, WaitEnd.context_done)) ls t.after gs
                    got)
                ∙ ap (then_unlock gs) e
                ∙ ap (unlocked_with r) u.result;
            freed = u.mine;
            restored = λ q k. state-cong (u.effect.consistent.each k) (c.each k) (
                as_before gs u.after k (c.each k) (u.mine k) (l.2 k)
                  (λ h d. u.effect.others k h d ∙ ap (λ ls. (ls.mutex k).guards h) q ∙ l.3 k h d));
            consistent = u.effect.consistent;
          }
    ]
