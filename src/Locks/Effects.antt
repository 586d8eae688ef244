-- ===== src/Locks/Effects.antt =====
-- The effect of a guard set's calls on the locks (litefs.go): only its own guards move.
use litefs.Prelude.{
  ℕ, ◌+◌, ◌<◌, ◌≡◌, refl, sym, ap, ◌∙◌, subst, ◌≢◌, Bool, true, false, if◌then◌else◌, Outcome,
  returns,
}
use mathlib.Core.Logic.{ite}
use litefs.RwMutex.{RwMutex, RwMutexState, unlocked, exclusive}
use litefs.RwMutex.Consistent.{IsConsistent}
use litefs.RwMutex.Moves.{Moved}
use litefs.RwMutex.Others.{Alone, NoWriter}
use litefs.RwMutex.TryLock.{try_lock_lem}
use litefs.RwMutex.TryRlock.{try_rlock_lem, unlock_lem}
use litefs.RwMutex.Trace.{guard-Moved}
use litefs.Locks.Types.{
  DbLock, DbLock-discrete, GuardSet, Locks, set_mutex, try_lock, try_rlock, unlock, new_guard_set,
}

-- The state of a set's guard in each mutex.
abbrev pub held : Locks → GuardSet → DbLock → RwMutexState
held ls gs l = (ls.mutex l).guards (gs.guards l)

abbrev pub set_held : (DbLock → RwMutexState) → DbLock → RwMutexState → DbLock → RwMutexState
set_held f l s k = ite (DbLock-discrete l k) s (f k)

pub record AreConsistent (ls : Locks) : Type 0 where
  pub each : (l : DbLock) → IsConsistent (ls.mutex l)

-- The guards of the set have been handed out.
pub record IsOpen (ls : Locks) (gs : GuardSet) : Type 0 where
  pub handed_out : (l : DbLock) → gs.guards l < (ls.mutex l).guard_n

-- From `ls` to `ls'` only guards of `gs` have moved.
pub record Effect (ls : Locks) (gs : GuardSet) (ls' : Locks) : Type 0 where
  pub consistent : AreConsistent ls'
  pub same_guards : (l : DbLock) → (ls'.mutex l).guard_n ≡ (ls.mutex l).guard_n
  pub others :
      (l : DbLock) (h : ℕ) → h ≢ gs.guards l → (ls'.mutex l).guards h ≡ (ls.mutex l).guards h
  pub same_sets : ls'.guard_sets ≡ ls.guard_sets

pub Effect-refl : (ls : Locks) (gs : GuardSet) → AreConsistent ls → Effect ls gs ls
Effect-refl ls gs c = record {
  consistent = c;
  same_guards = λ l. refl;
  others = λ l h d. refl;
  same_sets = refl;
}

pub Effect-trans :
    {ls ls' ls'' : Locks} {gs : GuardSet}
    → Effect ls gs ls'
    → Effect ls' gs ls''
    → Effect ls gs ls''
Effect-trans e f = record {
  consistent = f.consistent;
  same_guards = λ l. f.same_guards l ∙ e.same_guards l;
  others = λ l h d. f.others l h d ∙ e.others l h d;
  same_sets = f.same_sets ∙ e.same_sets;
}

pub Effect-IsOpen :
    {ls ls' : Locks} {gs : GuardSet} → Effect ls gs ls' → IsOpen ls gs → IsOpen ls' gs
Effect-IsOpen {gs} e o = record {
  handed_out = λ l. subst (λ n. gs.guards l < n) (sym (e.same_guards l)) (o.handed_out l);
}

module _ (ls : Locks) (gs : GuardSet) (l : DbLock) (c : AreConsistent ls) where
  set_mutex-Effect :
      {m : RwMutex} {s : RwMutexState}
      → Moved (ls.mutex l) (gs.guards l) s m
      → Effect ls gs (set_mutex ls l m)
  set_mutex-Effect {m} {s} v = record {
    consistent = record { each = λ k. each k (DbLock-discrete l k) };
    same_guards = λ k. same k (DbLock-discrete l k);
    others = λ k h. others k (DbLock-discrete l k) h;
    same_sets = refl;
  }
    where
      each : (k : DbLock) (d : Dec (l ≡ k)) → IsConsistent (ite d m (ls.mutex k))
      each k (yes p) = v.consistent
      each k (no n) = c.each k

      same : (k : DbLock) (d : Dec (l ≡ k)) → (ite d m (ls.mutex k)).guard_n ≡ (ls.mutex k).guard_n
      same k (yes p) = v.same_guards ∙ ap (λ t. (ls.mutex t).guard_n) p
      same k (no n) = refl

      others :
          (k : DbLock) (d : Dec (l ≡ k)) (h : ℕ)
          → h ≢ gs.guards k
          → (ite d m (ls.mutex k)).guards h ≡ (ls.mutex k).guards h
      others k (yes p) h n =
          v.others h (λ q. n (q ∙ ap gs.guards p)) ∙ ap (λ t. (ls.mutex t).guards h) p
      others k (no _) h n = refl

  set_mutex-held :
      {m : RwMutex} {s : RwMutexState}
      → Moved (ls.mutex l) (gs.guards l) s m
      → (k : DbLock) → held (set_mutex ls l m) gs k ≡ set_held (held ls gs) l s k
  set_mutex-held {m} {s} v k = at (DbLock-discrete l k)
    where
      at : (d : Dec (l ≡ k)) → (ite d m (ls.mutex k)).guards (gs.guards k) ≡ ite d s (held ls gs k)
      at (yes p) = ap (λ t. m.guards (gs.guards t)) (sym p) ∙ v.mine
      at (no n) = refl

set_held_self : (f : DbLock → RwMutexState) (l k : DbLock) → set_held f l (f l) k ≡ f k
set_held_self f l k = at (DbLock-discrete l k)
  where
    at : (d : Dec (l ≡ k)) → ite d (f l) (f k) ≡ f k
    at (yes p) = ap f p
    at (no n) = refl

-- The attempt `r` on mutex `l`, which asks for state `s`, and is granted exactly if `Free`.
pub record Tried (ls : Locks) (gs : GuardSet) (l : DbLock) (s : RwMutexState) (Free : Type 0)
    (r : Outcome (Locks × Bool)) : Type 0 where
  pub after : Locks
  pub won : Bool
  pub result : r ≡ returns (after, won)
  pub effect : Effect ls gs after
  pub mine :
      (k : DbLock) → held after gs k ≡ (if won then set_held (held ls gs) l s k else held ls gs k)
  pub sound : won ≡ true → Free
  pub complete : Free → won ≡ true

module _ {ls : Locks} {gs : GuardSet} (c : AreConsistent ls) (o : IsOpen ls gs) (l : DbLock) where
  after_held :
      (s : RwMutexState) (won : Bool) (m : RwMutex)
      → Moved (ls.mutex l) (gs.guards l) (if won then s else held ls gs l) m
      → (k : DbLock)
      → held (set_mutex ls l m) gs k ≡ (if won then set_held (held ls gs) l s k else held ls gs k)
  after_held s true m v k = set_mutex-held ls gs l c v k
  after_held s false m v k = set_mutex-held ls gs l c v k ∙ set_held_self (held ls gs) l k

  pub try_lock-Tried : Tried ls gs l exclusive (Alone (ls.mutex l) (gs.guards l)) (try_lock gs l ls)
  unfolding try_lock
  try_lock-Tried =
      let t = try_lock_lem (c.each l) (gs.guards l) (o.handed_out l) in
      record {
        after = set_mutex ls l t.after;
        won = t.won;
        result = rw t.result;
        effect = set_mutex-Effect ls gs l c t.moved;
        mine = after_held exclusive t.won t.after t.moved;
        sound = t.sound;
        complete = t.complete;
      }

  pub try_rlock-Tried :
      Tried ls gs l RwMutexState.shared (NoWriter (ls.mutex l) (gs.guards l)) (try_rlock gs l ls)
  unfolding try_rlock
  try_rlock-Tried =
      let t = try_rlock_lem (c.each l) (gs.guards l) (o.handed_out l) in
      record {
        after = set_mutex ls l t.after;
        won = t.won;
        result = rw t.result;
        effect = set_mutex-Effect ls gs l c t.moved;
        mine = after_held RwMutexState.shared t.won t.after t.moved;
        sound = t.sound;
        complete = t.complete;
      }

pub unlock-Unlocked :
    {ls : Locks} {gs : GuardSet} → AreConsistent ls → IsOpen ls gs → (l : DbLock) → record {
      after : Locks;
      result : unlock gs l ls ≡ returns after;
      effect : Effect ls gs after;
      mine : (k : DbLock) → held after gs k ≡ set_held (held ls gs) l unlocked k;
    }
unfolding unlock
unlock-Unlocked {ls} {gs} c o l =
    let t = unlock_lem (c.each l) (gs.guards l) (o.handed_out l) in
    record {
      after = set_mutex ls l t.after;
      result = rw t.result;
      effect = set_mutex-Effect ls gs l c t.moved;
      mine = set_mutex-held ls gs l c t.moved;
    }

pub new_guard_set-lem : (owner : ℕ) (ls : Locks) → AreConsistent ls → record {
  consistent : AreConsistent (new_guard_set owner ls).0;
  open_set : IsOpen (new_guard_set owner ls).0 (new_guard_set owner ls).1;
  mine : (l : DbLock) → held (new_guard_set owner ls).0 (new_guard_set owner ls).1 l ≡ unlocked;
  same :
      (l : DbLock) (h : ℕ) → ((new_guard_set owner ls).0.mutex l).guards h ≡ (ls.mutex l).guards h;
  number : (l : DbLock) → (new_guard_set owner ls).1.guards l ≡ (ls.mutex l).guard_n;
  one_more : (l : DbLock) → ((new_guard_set owner ls).0.mutex l).guard_n ≡ (ls.mutex l).guard_n + 1;
  same_sets : (new_guard_set owner ls).0.guard_sets ≡ ls.guard_sets;
}
unfolding new_guard_set
new_guard_set-lem owner ls c = record {
  consistent = record { each = λ l. (guard-Moved (ls.mutex l) (c.each l)).consistent };
  open_set = record { handed_out = λ l. (guard-Moved (ls.mutex l) (c.each l)).handed_out };
  mine = λ l. (guard-Moved (ls.mutex l) (c.each l)).unlocked_at_first;
  same = λ l h. (guard-Moved (ls.mutex l) (c.each l)).same h;
  one_more = λ l. (guard-Moved (ls.mutex l) (c.each l)).one_more;
  number = λ l. (guard-Moved (ls.mutex l) (c.each l)).number;
  same_sets = refl;
}
