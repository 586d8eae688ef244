-- ===== src/Prelude/Families.antt =====
-- Families `ℕ → A`: update at one index, and weighted sums over the first `n` members.
use Prim.Native.Nat.{ℕ, zero, suc, ◌+◌, ◌≤◌, ◌<◌}
use mathlib.Core.Path.{◌≡◌, refl, ap}
use mathlib.Core.Logic.{ite, ◌≢◌}
use native.Mathlib.Decide.{ℕ_discrete}
use native.Mathlib.Omega.{arith}

abbrev pub update {ℓ} : {A : Type ℓ} → (ℕ → A) → ℕ → A → ℕ → A
update members changed to i = ite (ℕ_discrete changed i) to (members i)

pub update_self {ℓ} : {A : Type ℓ} (f : ℕ → A) (i : ℕ) (a : A) → update f i a i ≡ a
update_self f i a = ground arith

pub update_ne {ℓ} : {A : Type ℓ} (f : ℕ → A) (i j : ℕ) (a : A) → i ≢ j → update f i a j ≡ f j
update_ne f i j a h = ground arith

module _ {ℓ} {A : Type ℓ} (w : A → ℕ) where
  pub total : ℕ → (ℕ → A) → ℕ
  total zero members = 0
  total (suc n) members = total n members + w (members n)

  pub total-zero : (f : ℕ → A) → total 0 f ≡ 0
  unfolding total
  total-zero f = refl

  pub total-suc : (n : ℕ) (f : ℕ → A) → total (suc n) f ≡ total n f + w (f n)
  unfolding total
  total-suc n f = refl

  -- A change at one index changes the sum if the index is below `n`, and not otherwise.
  total-changed :
      (n : ℕ) (members : ℕ → A) (i : ℕ) (to : A)
      → (i < n → total n (update members i to) + w (members i) ≡ total n members + w to)
        × (n ≤ i → total n (update members i to) ≡ total n members)
  unfolding total
  total-changed zero f i a = (λ lt. absurd (omega arith), λ _. refl)
  total-changed (suc n) f i a =
      let (within, beyond) = total-changed n f i a in
      (
        λ lt. elim (ℕ_discrete n i) [
          | yes e ↦ ground (arith, beyond)
          | no d ↦ ground (arith, within (omega arith))
        ],
        λ le. ground (arith, beyond (omega arith)),
      )

  pub total-update :
      (n : ℕ) (members : ℕ → A) (i : ℕ) (to : A)
      → i < n
      → total n (update members i to) + w (members i) ≡ total n members + w to
  total-update n members i to = (total-changed n members i to).0

  -- One member's weight is part of the sum.
  pub le-total : (n : ℕ) (f : ℕ → A) (i : ℕ) → i < n → w (f i) ≤ total n f
  unfolding total
  le-total zero f i h = absurd (omega arith)
  le-total (suc n) f i h = ground (arith, le-total n f i)

  -- Two members' weights are part of the sum.
  pub add-le-total :
      (n : ℕ) (f : ℕ → A) (i j : ℕ) → i < n → j < n → i ≢ j → w (f i) + w (f j) ≤ total n f
  unfolding total
  add-le-total zero f i j h k d = absurd (omega arith)
  add-le-total (suc n) f i j h k d =
      ground (arith, add-le-total n f i j, le-total n f i, le-total n f j)

  pub total-eq-zero : (n : ℕ) (f : ℕ → A) → ((i : ℕ) → i < n → w (f i) ≡ 0) → total n f ≡ 0
  unfolding total
  total-eq-zero zero f h = refl
  total-eq-zero (suc n) f h =
      omega (arith, total-eq-zero n f (λ i lt. h i (omega arith)), h n (omega arith))

  -- Where only member `g` has weight, the sum is at most its weight.
  pub total-le_alone :
      (n : ℕ) (f : ℕ → A) (g : ℕ) → ((i : ℕ) → i ≢ g → w (f i) ≡ 0) → total n f ≤ w (f g)
  unfolding total
  total-le_alone zero f g h = omega arith
  total-le_alone (suc n) f g h = elim (ℕ_discrete n g) [
    | yes e ↦ last e
    | no d ↦ omega (arith, total-le_alone n f g h, h n d)
  ]
    where
      last : n ≡ g → total n f + w (f n) ≤ w (f g)
      last e = rw (← e) (omega (arith, total-eq-zero n f (λ i lt. h i (omega arith))))

  -- Over the same members, two families that agree have the same sum.
  pub total-cong : (n : ℕ) (f g : ℕ → A) → ((i : ℕ) → i < n → f i ≡ g i) → total n f ≡ total n g
  unfolding total
  total-cong zero f g h = refl
  total-cong (suc n) f g h =
      omega (arith, total-cong n f g (λ i lt. h i (omega arith)), ap w (h n (omega arith)))
