-- ===== src/RwMutex/Consistent.antt =====
-- The invariant of a mutex (rwmutex.go): the reader count and the exclusive holder agree with the
-- states of the guards.
use litefs.Prelude.{
  ℕ, ◌≤◌, ◌<◌, ◌≡◌, refl, sym, ◌≢◌, some, arith, total, total-zero, le-total, dec_lt,
}
use litefs.RwMutex.{RwMutex, RwMutexState, unlocked, shared, exclusive, zero_value}

abbrev pub reads : RwMutexState → ℕ
reads shared = 1
reads _ = 0

pub record IsConsistent (m : RwMutex) : Type 0 where
  pub counted : m.shared_n ≡ total reads m.guard_n m.guards
  pub held : (g : ℕ) → m.excl ≡ some g → (m.guards g ≡ exclusive) × (m.shared_n ≡ 0)
  pub owned : (g : ℕ) → m.guards g ≡ exclusive → m.excl ≡ some g
  pub fresh : (g : ℕ) → m.guard_n ≤ g → m.guards g ≡ unlocked

pub zero_value-IsConsistent : IsConsistent zero_value
unfolding zero_value
zero_value-IsConsistent = record {
  counted = sym (total-zero reads _);
  held = λ g h. cc;
  owned = λ g h. cc;
  fresh = λ g h. refl;
}

module _ {m : RwMutex} (inv : IsConsistent m) where
  -- Any guard that is not unlocked has been handed out.
  pub created : (g : ℕ) → m.guards g ≢ unlocked → g < m.guard_n
  created g h = elim (dec_lt g m.guard_n) [
    | yes lt ↦ lt
    | no ge ↦ absurd (h (inv.fresh g (omega arith)))
  ]

  pub reader_counted : (g : ℕ) → m.guards g ≡ shared → 1 ≤ m.shared_n
  reader_counted g h =
      ground (arith, inv.counted, le-total reads m.guard_n m.guards g (created g (λ e. cc)))

  -- A guard that has the exclusive lock has it alone.
  pub exclusion : (g h : ℕ) → m.guards g ≡ exclusive → g ≢ h → m.guards h ≡ unlocked
  exclusion g h e d = ground (arith, inv.owned g e, inv.owned h, inv.held g, reader_counted h)
