-- ===== src/Db/Dirty.antt =====
-- The sorted list of dirty pages that CommitJournal (db.go) goes through.
use litefs.Prelude.{
  ℕ, zero, suc, ◌≤◌, ◌≡◌, refl, sym, ap, ◌∙◌, ◌⊎◌, inl, inr, Bool, true, false, List, [], ◌∷◌, ◌++◌,
  arith, if◌then◌else◌, ℕ_discrete,
}
use litefs.Db.Journal.{sorted_upto}

abbrev pub Listed : ℕ → List ℕ → Type 0
Listed p [] = ⊥
Listed p (q ∷ qs) = (p ≡ q) ⊎ Listed p qs

abbrev pub AreWithin : ℕ → List ℕ → Type 0
AreWithin n [] = Unit
AreWithin n (p ∷ ps) = ((1 ≤ p) × (p ≤ n)) × AreWithin n ps

pub Listed-append : (p : ℕ) (ps qs : List ℕ) → Listed p ps ⊎ Listed p qs → Listed p (ps ++ qs)
Listed-append p [] qs (inr b) = b
Listed-append p [] qs (inl b) = absurd b
Listed-append p (x ∷ ps) qs (inl (inl e)) = inl e
Listed-append p (x ∷ ps) qs (inl (inr a)) = inr (Listed-append p ps qs (inl a))
Listed-append p (x ∷ ps) qs (inr b) = inr (Listed-append p ps qs (inr b))

AreWithin-append :
    (n : ℕ) (ps qs : List ℕ) → AreWithin n ps → AreWithin n qs → AreWithin n (ps ++ qs)
AreWithin-append n [] qs a b = b
AreWithin-append n (p ∷ ps) qs a b = (a.0, AreWithin-append n ps qs a.1 b)

pub sorted_upto-AreWithin : (s : ℕ → Bool) (m n : ℕ) → m ≤ n → AreWithin n (sorted_upto s m)
unfolding sorted_upto
sorted_upto-AreWithin s zero n le = tt
sorted_upto-AreWithin s (suc m) n le =
    AreWithin-append n (sorted_upto s m) _ (sorted_upto-AreWithin s m n (omega arith))
      (at (s (suc m)))
  where
    at : (b : Bool) → AreWithin n (if b then suc m ∷ [] else [])
    at true = ((omega arith, le), tt)
    at false = tt

pub Listed-sorted_upto :
    (s : ℕ → Bool) (p n : ℕ) → s p ≡ true → 1 ≤ p → p ≤ n → Listed p (sorted_upto s n)
unfolding sorted_upto
Listed-sorted_upto s p zero d one le = absurd (omega arith)
Listed-sorted_upto s p (suc n) d one le = elim (ℕ_discrete p (suc n)) [
  | yes e ↦ Listed-append p (sorted_upto s n) _ (inr (rw (ap s (sym e) ∙ d) (inl e)))
  | no m ↦ Listed-append p (sorted_upto s n) _ (inl (Listed-sorted_upto s p n d one (omega arith)))
]

-- Only pages of the set are listed.
pub sorted_upto-Listed : (s : ℕ → Bool) (p n : ℕ) → Listed p (sorted_upto s n) → s p ≡ true
unfolding sorted_upto
sorted_upto-Listed s p zero l = absurd l
sorted_upto-Listed s p (suc n) l =
    at (sorted_upto-Listed s p n) (s (suc n)) refl
      (append-Listed p (sorted_upto s n) (if s (suc n) then suc n ∷ [] else []) l)
  where
    append-Listed : (p : ℕ) (ps qs : List ℕ) → Listed p (ps ++ qs) → Listed p ps ⊎ Listed p qs
    append-Listed p [] qs l = inr l
    append-Listed p (x ∷ ps) qs (inl e) = inl (inl e)
    append-Listed p (x ∷ ps) qs (inr l) = elim (append-Listed p ps qs l) [
      | inl a ↦ inl (inr a)
      | inr b ↦ inr b
    ]

    at :
        (Listed p (sorted_upto s n) → s p ≡ true)
        → (b : Bool) → s (suc n) ≡ b
        → Listed p (sorted_upto s n) ⊎ Listed p (if b then suc n ∷ [] else [])
        → s p ≡ true
    at before b e (inl l) = before l
    at before true e (inr (inl h)) = ap s h ∙ e
    at before true e (inr (inr l)) = absurd l
    at before false e (inr l) = absurd l
