-- ===== src/RwMutex/Others.antt =====
-- What the counters of a mutex say of the other guards (rwmutex.go).
use litefs.Prelude.{
  ℕ, ◌≤◌, ◌<◌, ◌≡◌, refl, sym, ap, subst, ◌≢◌, Option-cases, inl, inr, ℕ_discrete, total-le_alone,
  none, some, arith, add-le-total,
}
use litefs.RwMutex.{RwMutex, RwMutexState, unlocked, shared, exclusive}
use litefs.RwMutex.Consistent.{IsConsistent, reads, created, reader_counted}

-- No other guard holds the lock.
abbrev pub Alone : RwMutex → ℕ → Type 0
Alone m g = (h : ℕ) → h ≢ g → m.guards h ≡ unlocked

-- No other guard holds the exclusive lock.
abbrev pub NoWriter : RwMutex → ℕ → Type 0
NoWriter m g = (h : ℕ) → h ≢ g → m.guards h ≢ exclusive

module _ {m : RwMutex} (inv : IsConsistent m) (g : ℕ) (lt : g < m.guard_n) where
  pub shared_excl : m.guards g ≡ shared → m.excl ≡ none
  shared_excl e = elim (Option-cases m.excl) [
    | inl p ↦ p
    | inr (h, p) ↦ absurd (omega (arith, (inv.held h p).1, reader_counted inv g e))
  ]

  pub readers-Alone : m.excl ≡ none → m.shared_n ≡ reads (m.guards g) → Alone m g
  readers-Alone e n h d = others (m.guards h) refl
    where
      others : (s : RwMutexState) → m.guards h ≡ s → m.guards h ≡ unlocked
      others unlocked p = p
      others shared p = absurd (
          ground (
            arith,
            inv.counted,
            add-le-total reads m.guard_n m.guards g h lt (created inv h (λ q. cc)) (λ q. d (sym q)),
          ))
      others exclusive p = ground (arith, inv.owned h p)

  pub Alone-readers : Alone m g → m.shared_n ≤ reads (m.guards g)
  Alone-readers a =
      omega
        (arith, inv.counted, total-le_alone reads m.guard_n m.guards g (λ h d. ap reads (a h d)))

  pub Alone-excl : Alone m g → m.guards g ≢ exclusive → m.excl ≡ none
  Alone-excl a n = elim (Option-cases m.excl) [ inl e ↦ e | inr (h, e) ↦ absurd (clash h e) ]
    where
      clash : (h : ℕ) → m.excl ≡ some h → ⊥
      clash h e = elim (ℕ_discrete h g) [
        | yes p ↦ n (subst (λ t. m.guards t ≡ exclusive) p (inv.held h e).0)
        | no d ↦ cc ((inv.held h e).0, a h d)
      ]

  pub NoWriter-excl : NoWriter m g → m.guards g ≢ exclusive → m.excl ≡ none
  NoWriter-excl a n = elim (Option-cases m.excl) [ inl e ↦ e | inr (h, e) ↦ absurd (clash h e) ]
    where
      clash : (h : ℕ) → m.excl ≡ some h → ⊥
      clash h e = elim (ℕ_discrete h g) [
        | yes p ↦ n (subst (λ t. m.guards t ≡ exclusive) p (inv.held h e).0)
        | no d ↦ a h d (inv.held h e).0
      ]
