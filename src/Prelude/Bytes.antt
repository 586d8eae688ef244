-- ===== src/Prelude/Bytes.antt =====
-- Byte strings as lists of numbers, and binary.BigEndian and binary.LittleEndian of Go's standard
-- library at 2, 4 and 8 bytes.
use Prim.Native.Nat.{ℕ, suc, ◌+◌, ◌*◌, ◌/◌, ◌%◌, ◌^◌, ◌<◌}
use mathlib.Core.Path.{◌≡◌, ap₂, ◌∙◌}
use native.Mathlib.Omega.{arith}
use mathlib.Core.Bool.{Bool, true, false, ◌&&◌}
use mathlib.Core.List.{List, [], ◌∷◌, ◌++◌}
use litefs.Prelude.Tests.{◌==◌}
use litefs.Prelude.Lists.{get_or}

-- Bytes of a number, the most significant first.
abbrev pub be16 : ℕ → List ℕ
be16 n = n / 256 % 256 ∷ n % 256 ∷ []

abbrev pub be32 : ℕ → List ℕ
be32 n = n / 2 ^ 24 % 256 ∷ n / 2 ^ 16 % 256 ∷ n / 256 % 256 ∷ n % 256 ∷ []

abbrev pub be64 : ℕ → List ℕ
be64 n = be32 (n / 2 ^ 32) ++ be32 (n % 2 ^ 32)

-- The number at an offset of a byte string. A missing byte reads as 0; the callers check the length.
abbrev pub to_be16 : List ℕ → ℕ → ℕ
to_be16 b i = get_or b i 0 * 256 + get_or b (suc i) 0

abbrev pub to_be32 : List ℕ → ℕ → ℕ
to_be32 b i =
    get_or b i 0 * 2 ^ 24
    + get_or b (suc i) 0 * 2 ^ 16
    + get_or b (suc (suc i)) 0 * 256
    + get_or b (suc (suc (suc i))) 0

abbrev pub to_be64 : List ℕ → ℕ → ℕ
to_be64 b i = to_be32 b i * 2 ^ 32 + to_be32 b (4 + i)

abbrev pub to_le32 : List ℕ → ℕ → ℕ
to_le32 b i =
    get_or b i 0
    + get_or b (suc i) 0 * 256
    + get_or b (suc (suc i)) 0 * 2 ^ 16
    + get_or b (suc (suc (suc i))) 0 * 2 ^ 24

-- bytes.Equal
unfoldable pub equal_bytes : List ℕ → List ℕ → Bool
equal_bytes [] [] = true
equal_bytes (x ∷ xs) (y ∷ ys) = x == y && equal_bytes xs ys
equal_bytes _ _ = false

-- Reading back what was written.
pub to_be16-be16 : (n : ℕ) → n < 2 ^ 16 → to_be16 (be16 n) 0 ≡ n
to_be16-be16 n lt = omega arith

pub to_be32-be32 : (n : ℕ) → n < 2 ^ 32 → to_be32 (be32 n) 0 ≡ n
to_be32-be32 n lt = omega arith

pub to_be64-be64 : (n : ℕ) → n < 2 ^ 64 → to_be64 (be64 n) 0 ≡ n
to_be64-be64 n lt =
    ap₂ (λ a b. a * 2 ^ 32 + b) (to_be32-be32 (n / 2 ^ 32) (omega arith))
      (to_be32-be32 (n % 2 ^ 32) (omega arith))
    ∙ omega arith
