-- ===== src/Locks/Owners/Checkpoint.antt =====
-- TryLocks (db.go): what a grant holds, and that no checkpoint lock is granted beside a WAL writer.
use litefs.Prelude.{
  ◌≡◌, refl, sym, ◌∙◌, subst, ◌⊎◌, inl, inr, Bool, true, false, ◌&&◌, not, Bool-cases, List, [],
  ◌∷◌, if◌then◌else◌, Outcome, returns,
}
use mathlib.Core.Logic.{ite}
use litefs.RwMutex
use litefs.RwMutex.{RwMutexState, unlocked, exclusive, same_state}
use litefs.RwMutex.Consistent.{exclusion}
use litefs.RwMutex.Others.{NoWriter}
use litefs.RwMutex.Trace.{state-unlocked}
use litefs.Locks.Types.{
  DbLock, DbLock-discrete, write, ckpt, LockType, halt, on, guard, GuardSet, Locks,
}
use litefs.Locks.Effects.{
  held, set_held, AreConsistent, IsOpen, Effect, Effect-refl, Effect-trans, Effect-IsOpen, Tried,
  try_lock-Tried,
}
use litefs.Locks.Owners.{foreign_writer, is_ckpt, lock_each}

-- The lock types have mutexes: HALT is not among them.
abbrev pub HaveMutexes : List LockType → Type 0
HaveMutexes [] = Unit
HaveMutexes (halt ∷ ts) = ⊥
HaveMutexes (on l ∷ ts) = HaveMutexes ts

abbrev pub Among : DbLock → List LockType → Type 0
Among l [] = ⊥
Among l (t ∷ ts) = (t ≡ on l) ⊎ Among l ts

pub record LockedEach (ls : Locks) (gs : GuardSet) (ts : List LockType) : Type 0 where
  pub after : Locks
  pub won : Bool
  pub result : lock_each gs ts ls ≡ returns (after, won)
  pub effect : Effect ls gs after
  pub stays : (k : DbLock) → held ls gs k ≡ exclusive → held after gs k ≡ exclusive
  pub holds_all : won ≡ true → (k : DbLock) → Among k ts → held after gs k ≡ exclusive
  pub no_writer : won ≡ true → Among ckpt ts → NoWriter (after.mutex write) (gs.guards write)

same_unlocked : (s : RwMutexState) → same_state s unlocked ≡ true → s ≡ unlocked
same_unlocked unlocked p = refl
same_unlocked RwMutexState.shared p = cc
same_unlocked exclusive p = cc

same_exclusive : (s : RwMutexState) → same_state s exclusive ≡ true → s ≡ exclusive
same_exclusive exclusive p = refl
same_exclusive RwMutexState.shared p = cc
same_exclusive unlocked p = cc

not_and_false : (a b : Bool) → (not a && not b) ≡ false → (a ≡ true) ⊎ (b ≡ true)
not_and_false true b p = inl refl
not_and_false false true p = inr refl
not_and_false false false p = cc

-- The test for another writer says that there is none.
foreign_writer_lem :
    {ls : Locks} (gs : GuardSet)
    → AreConsistent ls
    → foreign_writer gs ls ≡ false
    → NoWriter (ls.mutex write) (gs.guards write)
unfolding foreign_writer RwMutex.guard_state
foreign_writer_lem {ls} gs c p h d q = elim (not_and_false _ _ p) [
  | inl u ↦
      let free =
        (state-unlocked (c.each write)).0 (same_unlocked (RwMutex.state (ls.mutex write)) u) h in
      cc (q, free)
  | inr e ↦
      let alone =
        exclusion (c.each write) (gs.guards write) h (same_exclusive _ e) (λ r. d (sym r)) in
      cc (q, alone)
]

and_is_ckpt : (l : DbLock) (b : Bool) → (is_ckpt (on l) && b) ≡ false → on l ≡ on ckpt → b ≡ false
and_is_ckpt ckpt b p e = p
and_is_ckpt l b p e = cc

module _ {gs : GuardSet} where
  Tried-exclusive :
      {ls : Locks} {l : DbLock} {F : Type 0} {r : Outcome (Locks × Bool)}
      → (t : Tried ls gs l exclusive F r) → (k : DbLock) → held ls gs k ≡ exclusive
      → held t.after gs k ≡ exclusive
  Tried-exclusive {ls} {l} t k e = at t.won (t.mine k) (DbLock-discrete l k)
    where
      at :
          (b : Bool)
          → held t.after gs k ≡ (if b then set_held (held ls gs) l exclusive k else held ls gs k)
          → Dec (l ≡ k)
          → held t.after gs k ≡ exclusive
      at false m d = m ∙ e
      at true m d = m ∙ chosen (DbLock-discrete l k)
        where
          chosen : (d : Dec (l ≡ k)) → ite d exclusive (held ls gs k) ≡ exclusive
          chosen (yes p) = refl
          chosen (no n) = e

  Tried-granted :
      {ls : Locks} {l : DbLock} {F : Type 0} {r : Outcome (Locks × Bool)}
      → (t : Tried ls gs l exclusive F r) → t.won ≡ true
      → held t.after gs l ≡ exclusive
  Tried-granted {ls} {l} t w = t.mine l ∙ rw w (chosen (DbLock-discrete l l))
    where
      chosen : (d : Dec (l ≡ l)) → ite d exclusive (held ls gs l) ≡ exclusive
      chosen (yes p) = refl
      chosen (no n) = absurd (n refl)

  pub lock_each-LockedEach :
      {ls : Locks} (ts : List LockType)
      → AreConsistent ls
      → IsOpen ls gs
      → HaveMutexes ts
      → LockedEach ls gs ts
  unfolding lock_each guard
  lock_each-LockedEach {ls} [] c o m = record {
    after = ls;
    won = true;
    result = refl;
    effect = Effect-refl ls gs c;
    stays = λ k e. e;
    holds_all = λ w k a. absurd a;
    no_writer = λ w a. absurd a;
  }
  lock_each-LockedEach {ls} (halt ∷ ts) c o m = absurd m
  lock_each-LockedEach {ls} (on l ∷ ts) c o m =
      let t = try_lock-Tried c o l in
      elim (Bool-cases (is_ckpt (on l) && foreign_writer gs ls)) [
        | inl busy ↦ record {
          after = ls;
          won = false;
          result = rw busy;
          effect = Effect-refl ls gs c;
          stays = λ k e. e;
          holds_all = λ w. cc;
          no_writer = λ w. cc;
        }
        | inr clear ↦ elim (Bool-cases t.won) [
          | inr lost ↦ record {
            after = t.after;
            won = false;
            result = rw (clear, t.result, lost);
            effect = t.effect;
            stays = Tried-exclusive t;
            holds_all = λ w. cc;
            no_writer = λ w. cc;
          }
          | inl w ↦
              let r =
                lock_each-LockedEach {ls = t.after} ts t.effect.consistent
                  (Effect-IsOpen t.effect o) m in
              record {
                after = r.after;
                won = r.won;
                result = rw (clear, t.result, w) r.result;
                effect = Effect-trans t.effect r.effect;
                stays = λ k e. r.stays k (Tried-exclusive t k e);
                holds_all = λ v k. elim [
                  | inl e ↦
                      subst (λ x. held r.after gs x ≡ exclusive) (on_injective e)
                        (r.stays l (Tried-granted t w))
                  | inr a ↦ r.holds_all v k a
                ];
                no_writer = λ v. elim [
                  | inl e ↦ λ h d q.
                      foreign_writer_lem gs c (and_is_ckpt l _ clear e) h d
                        (sym ((Effect-trans t.effect r.effect).others write h d) ∙ q)
                  | inr a ↦ r.no_writer v a
                ];
              }
        ]
      ]
    where
      on_injective : {a b : DbLock} → on a ≡ on b → a ≡ b
      on_injective p = cc
