-- ===== src/Prelude/Bits.antt =====
-- Laws of `bit_or` and `bit_xor` at variables, from their recursion on binary digits: what the
-- checksum of db.go needs of Go's `|` and `^`.
use Prim.Native.Nat.{
  ℕ, zero, suc, ◌+◌, ◌*◌, ◌/◌, ◌%◌, ◌≤◌, max, bit_or, bit_xor, digits, differ, bit_or-bitwise,
  bit_xor-bitwise,
}
use mathlib.Core.Path.{◌≡◌, refl, sym, ap, ◌∙◌}
use native.Mathlib.Omega.{arith}

module _ (f : ℕ → ℕ → ℕ) where
  no_digits : (b n : ℕ) → digits (λ b. b) f n 0 b ≡ b
  no_digits b zero = refl
  no_digits b (suc n) = refl

  -- Rounds beyond the digits of the first number change nothing.
  spare_rounds :
      (a b n n' : ℕ) → a ≤ n → n ≤ n' → digits (λ b. b) f n' a b ≡ digits (λ b. b) f n a b
  spare_rounds zero b n n' le le' = no_digits b n' ∙ sym (no_digits b n)
  spare_rounds (suc a) b zero n' le le' = absurd (omega arith)
  spare_rounds (suc a) b (suc n) zero le le' = absurd (omega arith)
  spare_rounds (suc a) b (suc n) (suc n') le le' =
      ap (λ q. q * 2 + f (suc a % 2) (b % 2))
        (spare_rounds (suc a / 2) (b / 2) n n' (omega arith) (omega arith))

  -- Half of a number has no more digits than the number.
  half_rounds :
      (a b : ℕ) → digits (λ b. b) f (suc a / 2) (suc a / 2) b ≡ digits (λ b. b) f a (suc a / 2) b
  half_rounds a b = sym (spare_rounds (suc a / 2) b (suc a / 2) a (omega arith) (omega arith))

differ_zero : (b : ℕ) → b ≡ b / 2 * 2 + differ 0 (b % 2)
differ_zero b = omega arith

zero-bit_or : (b : ℕ) → bit_or 0 b ≡ b
zero-bit_or b = bit_or-bitwise 0 b

zero-bit_xor : (b : ℕ) → bit_xor 0 b ≡ b
zero-bit_xor b = bit_xor-bitwise 0 b

bit_or_step : (a b : ℕ) → bit_or a b ≡ bit_or (a / 2) (b / 2) * 2 + max (a % 2) (b % 2)
bit_or_step zero b = omega (arith, zero-bit_or b, zero-bit_or (b / 2))
bit_or_step (suc a) b =
    omega (
      arith,
      bit_or-bitwise (suc a) b,
      bit_or-bitwise (suc a / 2) (b / 2),
      half_rounds max a (b / 2),
    )

bit_xor_step : (a b : ℕ) → bit_xor a b ≡ bit_xor (a / 2) (b / 2) * 2 + differ (a % 2) (b % 2)
bit_xor_step zero b = omega (arith, zero-bit_xor b, zero-bit_xor (b / 2), differ_zero b)
bit_xor_step (suc a) b = omega (
  arith,
  bit_xor-bitwise (suc a) b,
  bit_xor-bitwise (suc a / 2) (b / 2),
  half_rounds differ a (b / 2),
)

differ-zero : (x : ℕ) → differ x 0 ≡ x
differ-zero zero = refl
differ-zero (suc x) = refl

bit_xor-zero_fuel : (n a : ℕ) → a ≤ n → bit_xor a 0 ≡ a
bit_xor-zero_fuel n zero h = refl
bit_xor-zero_fuel zero (suc a) h = absurd (omega arith)
bit_xor-zero_fuel (suc n) (suc a) h = omega (
  arith,
  bit_xor_step (suc a) 0,
  differ-zero (suc a % 2),
  bit_xor-zero_fuel n (suc a / 2) (omega arith),
)

pub bit_xor-zero : (a : ℕ) → bit_xor a 0 ≡ a
bit_xor-zero a = bit_xor-zero_fuel a a (omega arith)

bit_or_absorb_fuel : (n a b : ℕ) → a ≤ n → bit_or a (bit_or a b) ≡ bit_or a b
bit_or_absorb_fuel n zero b h = omega (arith, zero-bit_or b, zero-bit_or (bit_or 0 b))
bit_or_absorb_fuel zero (suc a) b h = absurd (omega arith)
bit_or_absorb_fuel (suc n) (suc a) b h = omega (
  arith,
  bit_or_step (suc a) b,
  bit_or_step (suc a) (bit_or (suc a) b),
  ap (bit_or (suc a / 2)) halved,
  bit_or_absorb_fuel n (suc a / 2) (b / 2) (omega arith),
)
  where
    halved : bit_or (suc a) b / 2 ≡ bit_or (suc a / 2) (b / 2)
    halved = omega (arith, bit_or_step (suc a) b)

-- A flag that is set stays as it is when it is set again.
pub bit_or_absorb : (a b : ℕ) → bit_or a (bit_or a b) ≡ bit_or a b
bit_or_absorb a b = bit_or_absorb_fuel a a b (omega arith)
