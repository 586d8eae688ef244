-- ===== src/Locks/Attempts.antt =====
-- A run of lock attempts by one guard set (db.go): what it asks for, and when it is granted.
use litefs.Prelude.{
  ◌≡◌, refl, sym, ◌∙◌, inl, inr, Bool, true, false, Bool-cases, List, [], ◌∷◌, Outcome, returns,
}
use mathlib.Core.Logic.{ite}
use litefs.RwMutex.{RwMutexState, unlocked, exclusive}
use litefs.RwMutex.Others.{Alone, NoWriter}
use litefs.Locks.Types.{DbLock, DbLock-discrete, GuardSet, Locks, unlock_each}
use litefs.Locks.Acquire.{Attempt, rlock, lock, release, attempt, attempts}
use litefs.Locks.Effects.{
  held, set_held, AreConsistent, IsOpen, Effect, Effect-refl, Effect-trans, Effect-IsOpen, Tried,
  try_lock-Tried, try_rlock-Tried, unlock-Unlocked,
}

-- What an attempt leaves the set's guards at, when granted.
abbrev pub asks : Attempt → (DbLock → RwMutexState) → DbLock → RwMutexState
asks (rlock l) f = set_held f l RwMutexState.shared
asks (lock l) f = set_held f l exclusive
asks (release l) f = set_held f l unlocked

abbrev pub asks_all : List Attempt → (DbLock → RwMutexState) → DbLock → RwMutexState
asks_all [] f = f
asks_all (a ∷ ts) f = asks_all ts (asks a f)

-- Nobody else is in the way of an attempt.
abbrev pub Free : Locks → GuardSet → Attempt → Type 0
Free ls gs (rlock l) = NoWriter (ls.mutex l) (gs.guards l)
Free ls gs (lock l) = Alone (ls.mutex l) (gs.guards l)
Free ls gs (release l) = Unit

abbrev pub AllFree : Locks → GuardSet → List Attempt → Type 0
AllFree ls gs [] = Unit
AllFree ls gs (a ∷ ts) = Free ls gs a × AllFree ls gs ts

pub Free-Effect :
    {ls ls' : Locks} {gs : GuardSet} (a : Attempt) → Effect ls gs ls' → Free ls' gs a → Free ls gs a
Free-Effect (rlock l) e f = λ h d p. f h d (e.others l h d ∙ p)
Free-Effect (lock l) e f = λ h d. sym (e.others l h d) ∙ f h d
Free-Effect (release l) e f = tt

Free-Effect_back :
    {ls ls' : Locks} {gs : GuardSet} (a : Attempt) → Effect ls gs ls' → Free ls gs a → Free ls' gs a
Free-Effect_back (rlock l) e f = λ h d p. f h d (sym (e.others l h d) ∙ p)
Free-Effect_back (lock l) e f = λ h d. e.others l h d ∙ f h d
Free-Effect_back (release l) e f = tt

AllFree-Effect :
    {ls ls' : Locks} {gs : GuardSet} (ts : List Attempt)
    → Effect ls gs ls'
    → AllFree ls' gs ts
    → AllFree ls gs ts
AllFree-Effect [] e f = tt
AllFree-Effect (a ∷ ts) e (f, fs) = (Free-Effect a e f, AllFree-Effect ts e fs)

AllFree-Effect_back :
    {ls ls' : Locks} {gs : GuardSet} (ts : List Attempt)
    → Effect ls gs ls'
    → AllFree ls gs ts
    → AllFree ls' gs ts
AllFree-Effect_back [] e f = tt
AllFree-Effect_back (a ∷ ts) e (f, fs) = (Free-Effect_back a e f, AllFree-Effect_back ts e fs)

-- A run of attempts: it returns, moves only the set's guards, and is granted exactly if nobody is in
-- the way of any of them.
pub record Ran (ls : Locks) (gs : GuardSet) (AllGranted : Type 0) (f : DbLock → RwMutexState)
    (r : Outcome (Locks × Bool)) : Type 0 where
  pub after : Locks
  pub won : Bool
  pub result : r ≡ returns (after, won)
  pub effect : Effect ls gs after
  pub granted : won ≡ true → (k : DbLock) → held after gs k ≡ f k
  pub sound : won ≡ true → AllGranted
  pub complete : AllGranted → won ≡ true

set_held-cong :
    (f g : DbLock → RwMutexState) (l : DbLock) (s : RwMutexState)
    → ((k : DbLock) → f k ≡ g k)
    → (k : DbLock) → set_held f l s k ≡ set_held g l s k
set_held-cong f g l s e k = at (DbLock-discrete l k)
  where
    at : (d : Dec (l ≡ k)) → ite d s (f k) ≡ ite d s (g k)
    at (yes p) = refl
    at (no n) = e k

-- Unlocking several guards of the set.
pub record Released (ls : Locks) (gs : GuardSet) (f : DbLock → RwMutexState) (r : Outcome Locks)
    : Type 0 where
  pub after : Locks
  pub result : r ≡ returns after
  pub effect : Effect ls gs after
  pub mine : (k : DbLock) → held after gs k ≡ f k

abbrev pub released : List DbLock → (DbLock → RwMutexState) → DbLock → RwMutexState
released [] f = f
released (k ∷ ks) f = released ks (set_held f k unlocked)

module _ {gs : GuardSet} where
  Tried-Ran :
      {ls : Locks} {l : DbLock} {s : RwMutexState} {F : Type 0} {r : Outcome (Locks × Bool)}
      (f : DbLock → RwMutexState)
      → ((k : DbLock) → held ls gs k ≡ f k)
      → Tried ls gs l s F r
      → Ran ls gs F (set_held f l s) r
  Tried-Ran {ls} {l} {s} f e t = record {
    after = t.after;
    won = t.won;
    result = t.result;
    effect = t.effect;
    granted = λ w k. t.mine k ∙ (rw w (set_held-cong (held ls gs) f l s e k));
    sound = t.sound;
    complete = t.complete;
  }

  attempt-Ran :
      {ls : Locks} (f : DbLock → RwMutexState)
      → AreConsistent ls
      → IsOpen ls gs
      → ((k : DbLock) → held ls gs k ≡ f k)
      → (a : Attempt) → Ran ls gs (Free ls gs a) (asks a f) (attempt gs a ls)
  unfolding attempt
  attempt-Ran f c o e (rlock l) = Tried-Ran f e (try_rlock-Tried c o l)
  attempt-Ran f c o e (lock l) = Tried-Ran f e (try_lock-Tried c o l)
  attempt-Ran {ls} f c o e (release l) =
      let t = unlock-Unlocked c o l in
      record {
        after = t.after;
        won = true;
        result = rw t.result;
        effect = t.effect;
        granted = λ w k. t.mine k ∙ set_held-cong (held ls gs) f l unlocked e k;
        sound = λ w. tt;
        complete = λ u. refl;
      }

  pub attempts-Ran :
      {ls : Locks} (ts : List Attempt) (f : DbLock → RwMutexState)
      → AreConsistent ls
      → IsOpen ls gs
      → ((k : DbLock) → held ls gs k ≡ f k)
      → Ran ls gs (AllFree ls gs ts) (asks_all ts f) (attempts gs ts ls)
  unfolding attempts
  attempts-Ran {ls} [] f c o e = record {
    after = ls;
    won = true;
    result = refl;
    effect = Effect-refl ls gs c;
    granted = λ w. e;
    sound = λ w. tt;
    complete = λ u. refl;
  }
  attempts-Ran {ls} (a ∷ ts) f c o e =
      let t = attempt-Ran f c o e a in
      elim (Bool-cases t.won) [
        | inr lost ↦ record {
          after = t.after;
          won = false;
          result = rw (t.result, lost);
          effect = t.effect;
          granted = λ w. cc;
          sound = λ w. cc;
          complete = λ u. sym lost ∙ t.complete u.0;
        }
        | inl w ↦
            let r =
              attempts-Ran {ls = t.after} ts (asks a f) t.effect.consistent
                (Effect-IsOpen t.effect o) (t.granted w) in
            record {
              after = r.after;
              won = r.won;
              result = rw (t.result, w) r.result;
              effect = Effect-trans t.effect r.effect;
              granted = r.granted;
              sound = λ v. (t.sound w, AllFree-Effect ts t.effect (r.sound v));
              complete = λ u. r.complete (AllFree-Effect_back ts t.effect u.1);
            }
      ]

  pub unlock_each-Released :
      {ls : Locks} (ks : List DbLock) (f : DbLock → RwMutexState)
      → AreConsistent ls
      → IsOpen ls gs
      → ((k : DbLock) → held ls gs k ≡ f k)
      → Released ls gs (released ks f) (unlock_each gs ks ls)
  unfolding unlock_each
  unlock_each-Released {ls} [] f c o e = record {
    after = ls;
    result = refl;
    effect = Effect-refl ls gs c;
    mine = e;
  }
  unlock_each-Released {ls} (l ∷ ks) f c o e =
      let t = unlock-Unlocked c o l in
      let r =
        unlock_each-Released {ls = t.after} ks (set_held f l unlocked) t.effect.consistent
          (Effect-IsOpen t.effect o)
          (λ k. t.mine k ∙ set_held-cong (held ls gs) f l unlocked e k) in
      record {
        after = r.after;
        result = rw t.result r.result;
        effect = Effect-trans t.effect r.effect;
        mine = r.mine;
      }
