-- ===== src/Locks/Waiting.antt =====
-- The waiting loop AcquireWriteLock (db.go).
use litefs.Prelude.{
  ℕ, suc, ◌+◌, ◌≤◌, ◌≡◌, refl, sym, ap, ◌∙◌, Bool, false, Option, none, some, Option-cases, inl,
  inr, List, [], ◌∷◌, ◌++◌, length, arith, if◌then◌else◌, Outcome, returns, panics, ◌>>=◌,
}
use litefs.RwMutex.{state}
use litefs.Locks.Types.{DbLock, GuardSet, Locks}
use litefs.Locks.Acquire.{DbMode, try_acquire_write_lock}
use litefs.Locks.Effects.{held, AreConsistent, IsOpen}
use litefs.Locks.Grants.{holds, needs, Grants}
use litefs.Locks.WriteLock.{WriteLockTried, try_acquire_write_lock_correct, write_lock-exclusive}

-- How the loop ends: with the guards, with the callback's error, or since the context is done.
pub data WaitEnd : Type 0 where
  acquired : GuardSet → WaitEnd
  callback_error : WaitEnd
  context_done : WaitEnd

-- What others do to the locks while the loop waits, one entry for each wait; the context is done in
-- the wait after the last.
abbrev pub Waits : Type 0
Waits = List (Locks → Locks)

abbrev pub acquired_or :
    Outcome (Locks × WaitEnd) → Locks → Option GuardSet → Outcome (Locks × WaitEnd)
acquired_or rest ls (some gs) = returns (ls, acquired gs)
acquired_or rest ls none = rest

-- A round: the callback, an attempt, and `rest` after a refusal.
abbrev pub wait_round :
    Bool → DbMode → (Locks → Outcome (Locks × WaitEnd)) → Locks → Outcome (Locks × WaitEnd)
wait_round exits mode rest ls =
    let r = try_acquire_write_lock mode ls >>= (λ r. acquired_or (rest r.0) r.0 r.1) in
    if exits then returns (ls, callback_error) else r

-- func (db *DB) AcquireWriteLock(ctx context.Context, fn func() error) (_ *GuardSet, err error):
-- `mode i` is the journal mode at attempt i, and `exits i` says whether the callback returns an
-- error before it.
unfoldable pub acquire_write_lock :
    Waits → (ℕ → DbMode) → (ℕ → Bool) → ℕ → Locks → Outcome (Locks × WaitEnd)
unfolding try_acquire_write_lock
acquire_write_lock [] mode exits i ls =
    wait_round (exits i) (mode i) (λ ls'. returns (ls', context_done)) ls
acquire_write_lock (w ∷ ws) mode exits i ls =
    wait_round (exits i) (mode i) (λ ls'. acquire_write_lock ws mode exits (suc i) (w ls')) ls

-- Others keep the locks consistent.
abbrev pub KeepConsistent : Waits → Type 0
KeepConsistent [] = Unit
KeepConsistent (w ∷ ws) =
    ((ls : Locks) → AreConsistent ls → AreConsistent (w ls)) × KeepConsistent ws

-- The set holds what a write in this mode takes.
pub record HoldsWrite (mode : DbMode) (gs : GuardSet) (ls : Locks) : Type 0 where
  pub consistent : AreConsistent ls
  pub open_set : IsOpen ls gs
  pub holding : (l : DbLock) → held ls gs l ≡ holds mode l

abbrev pub KeepHolding : DbMode → GuardSet → Waits → Type 0
KeepHolding mode gs [] = Unit
KeepHolding mode gs (w ∷ ws) =
    ((ls : Locks) → HoldsWrite mode gs ls → HoldsWrite mode gs (w ls)) × KeepHolding mode gs ws

-- A round that is refused goes on with the rest, and one that is granted ends the loop.
pub round_refused :
    (mode : DbMode) (rest : Locks → Outcome (Locks × WaitEnd)) (ls after : Locks)
    → try_acquire_write_lock mode ls ≡ returns (after, none)
    → wait_round false mode rest ls ≡ rest after
round_refused mode rest ls after e = ap (λ o. o >>= λ r. acquired_or (rest r.0) r.0 r.1) e

pub round_granted :
    (mode : DbMode) (rest : Locks → Outcome (Locks × WaitEnd)) (ls after : Locks) (gs : GuardSet)
    → try_acquire_write_lock mode ls ≡ returns (after, some gs)
    → wait_round false mode rest ls ≡ returns (after, acquired gs)
round_granted mode rest ls after gs e = ap (λ o. o >>= λ r. acquired_or (rest r.0) r.0 r.1) e

-- While a set holds the locks of a write, an attempt is refused, and the set holds them still.
pub record Refused (mode mode' : DbMode) (gs : GuardSet) (ls : Locks) : Type 0 where
  pub after : Locks
  pub result : try_acquire_write_lock mode' ls ≡ returns (after, none)
  pub still : HoldsWrite mode gs after

pub HoldsWrite-refuses :
    (mode mode' : DbMode) (gs : GuardSet) (ls : Locks)
    → HoldsWrite mode gs ls
    → Refused mode mode' gs ls
HoldsWrite-refuses mode mode' gs ls h =
    let t = try_acquire_write_lock_correct mode' ls h.consistent in
    let r = write_lock-exclusive mode mode' ls h.consistent gs h.holding in
    record {
      after = t.after;
      result = t.result ∙ ap (λ o. returns (t.after, o)) (ap got_of (sym t.result ∙ r.1));
      still = record {
        consistent = t.consistent;
        open_set = record {
          handed_out = λ l. omega (arith, h.open_set.handed_out l, t.more_guards l);
        };
        holding = λ l. t.others l (gs.guards l) (h.open_set.handed_out l) ∙ h.holding l;
      };
    }
  where
    got_of : Outcome (Locks × Option GuardSet) → Option GuardSet
    got_of (returns r) = r.1
    got_of panics = none

-- While a set holds the locks of a write in either mode, through all that others do, AcquireWriteLock
-- without a callback ends only with its context, whatever the mode is at each attempt.
pub acquire_write_lock-blocked :
    (ws : Waits) (mode : ℕ → DbMode) (i : ℕ) (held_mode : DbMode) (gs : GuardSet) (ls : Locks)
    → KeepHolding held_mode gs ws
    → HoldsWrite held_mode gs ls
    → (after : Locks) × (acquire_write_lock ws mode (λ _. false) i ls
        ≡ returns (after, context_done))
unfolding acquire_write_lock
acquire_write_lock-blocked [] mode i m gs ls k h =
    let r = HoldsWrite-refuses m (mode i) gs ls h in
    (r.after, round_refused (mode i) _ ls r.after r.result)
acquire_write_lock-blocked (w ∷ ws) mode i m gs ls k h =
    let r = HoldsWrite-refuses m (mode i) gs ls h in
    let (last, e) =
      acquire_write_lock-blocked ws mode (suc i) m gs (w r.after) k.1 (k.0 r.after r.still) in
    (last, round_refused (mode i) _ ls r.after r.result ∙ e)

-- The loop ends at attempt `at` with a set that holds what a write in the mode at that attempt takes.
pub record AcquiredBy (ws : Waits) (mode : ℕ → DbMode) (i : ℕ) (ls : Locks) (latest : ℕ)
    : Type 0 where
  pub after : Locks
  pub gs : GuardSet
  pub at : ℕ
  pub result : acquire_write_lock ws mode (λ _. false) i ls ≡ returns (after, acquired gs)
  pub in_time : at ≤ latest
  pub holding : HoldsWrite (mode at) gs after

-- What the loop does after a refused attempt.
abbrev next_attempt : Waits → (ℕ → DbMode) → ℕ → Locks → Outcome (Locks × WaitEnd)
next_attempt [] mode i ls = returns (ls, context_done)
next_attempt (w ∷ ws) mode i ls = acquire_write_lock ws mode (λ _. false) (suc i) (w ls)

acquire_round :
    (ws : Waits) (mode : ℕ → DbMode) (i : ℕ) (ls : Locks)
    → acquire_write_lock ws mode (λ _. false) i ls
      ≡ wait_round false (mode i) (next_attempt ws mode i) ls
unfolding acquire_write_lock
acquire_round [] mode i ls = refl
acquire_round (w ∷ ws) mode i ls = refl

-- An attempt that is granted ends the loop.
granted_now :
    (ws : Waits) (mode : ℕ → DbMode) (i latest : ℕ) (ls : Locks) (t : WriteLockTried (mode i) ls)
    (gs : GuardSet)
    → t.got ≡ some gs
    → i ≤ latest
    → AcquiredBy ws mode i ls latest
granted_now ws mode i latest ls t gs e le =
    let g = t.granted gs e in
    record {
      after = t.after;
      gs = gs;
      at = i;
      result =
          acquire_round ws mode i ls
          ∙ round_granted (mode i) _ ls t.after gs (t.result ∙ ap (λ o. returns (t.after, o)) e);
      in_time = le;
      holding = record { consistent = t.consistent; open_set = g.0; holding = g.1 };
    }

-- Others leave the locks as AcquireWriteLock needs them, in either mode.
abbrev pub Frees : (Locks → Locks) → Type 0
Frees w =
    (ls : Locks)
    → AreConsistent ls
    → AreConsistent (w ls)
      × ((m : DbMode) (l : DbLock) → Grants (needs m l) (state ((w ls).mutex l)))

-- After a refused attempt the loop goes on.
refused_first :
    (ws : Waits) (mode : ℕ → DbMode) (i latest : ℕ) (ls : Locks) (t : WriteLockTried (mode i) ls)
    (w : Locks → Locks) {later : Waits} {latest' : ℕ}
    → t.got ≡ none
    → ws ≡ w ∷ later
    → latest' ≡ latest
    → AcquiredBy later mode (suc i) (w t.after) latest'
    → AcquiredBy ws mode i ls latest
refused_first ws mode i latest ls t w e same bound a = record {
  after = a.after;
  gs = a.gs;
  at = a.at;
  result =
      acquire_round ws mode i ls
      ∙ round_refused (mode i) _ ls t.after (t.result ∙ ap (λ o. returns (t.after, o)) e)
      ∙ ap (λ ws. next_attempt ws mode i t.after) same
      ∙ a.result;
  in_time = omega (arith, a.in_time, bound);
  holding = a.holding;
}

-- If at some time before the context is done the others leave each mutex free for a write, and
-- until then keep the mutexes consistent, AcquireWriteLock without a callback returns a set that
-- holds the locks of a write, at the next attempt at the latest.
pub acquire_write_lock-granted :
    (before : Waits) (w : Locks → Locks) (later : Waits) (mode : ℕ → DbMode) (i : ℕ) (ls : Locks)
    → AreConsistent ls
    → KeepConsistent before
    → Frees w
    → AcquiredBy (before ++ w ∷ later) mode i ls (i + length before + 1)
acquire_write_lock-granted [] w later mode i ls c k f =
    first (try_acquire_write_lock_correct (mode i) ls c)
  where
    second :
        (after : Locks) (t : WriteLockTried (mode (suc i)) (w after)) (o : Option GuardSet)
        → AreConsistent after
        → t.got ≡ o
        → AcquiredBy later mode (suc i) (w after) (i + 0 + 1)
    second after t (some gs) c e =
        granted_now later mode (suc i) (i + 0 + 1) (w after) t gs e (omega arith)
    second after t none c e = absurd (t.complete ((f after c).1 (mode (suc i))) e)

    first : WriteLockTried (mode i) ls → AcquiredBy (w ∷ later) mode i ls (i + 0 + 1)
    first t = go t.got refl
      where
        go : (o : Option GuardSet) → t.got ≡ o → AcquiredBy (w ∷ later) mode i ls (i + 0 + 1)
        go (some gs) e = granted_now (w ∷ later) mode i (i + 0 + 1) ls t gs e (omega arith)
        go none e =
            let u =
              try_acquire_write_lock_correct (mode (suc i)) (w t.after)
                (f t.after t.consistent).0 in
            refused_first (w ∷ later) mode i (i + 0 + 1) ls t w e refl refl
              (second t.after u u.got t.consistent refl)
acquire_write_lock-granted (v ∷ before) w later mode i ls c k f =
    let t = try_acquire_write_lock_correct (mode i) ls c in
    elim (Option-cases t.got) [
      | inr (gs, e) ↦
          granted_now (v ∷ before ++ w ∷ later) mode i (i + suc (length before) + 1) ls t gs e
            (omega arith)
      | inl e ↦
          refused_first (v ∷ before ++ w ∷ later) mode i (i + suc (length before) + 1) ls t v e refl
            (omega arith)
            (acquire_write_lock-granted before w later mode (suc i) (v t.after)
              (k.0 t.after t.consistent) k.1 f)
    ]
