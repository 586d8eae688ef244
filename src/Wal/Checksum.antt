-- ===== src/Wal/Checksum.antt =====
-- The sums of WALChecksum (litefs.go) fit 32 bits.
use litefs.Prelude.{ℕ, ◌^◌, ◌<◌, List, [], ◌∷◌, arith}
use litefs.Wal.{ByteOrder, wal_sum}

abbrev pub FitsSum : ℕ × ℕ → Type 0
FitsSum (a, b) = (a < 2 ^ 32) × (b < 2 ^ 32)

-- A checksum that starts with two 32-bit numbers is two 32-bit numbers.
pub wal_sum-FitsSum :
    (bo : ByteOrder) (b : List ℕ) (s : ℕ × ℕ) → FitsSum s → FitsSum (wal_sum bo s b)
unfolding wal_sum
wal_sum-FitsSum bo [] s h = h
wal_sum-FitsSum bo (b0 ∷ []) s h = h
wal_sum-FitsSum bo (b0 ∷ b1 ∷ []) s h = h
wal_sum-FitsSum bo (b0 ∷ b1 ∷ b2 ∷ []) s h = h
wal_sum-FitsSum bo (b0 ∷ b1 ∷ b2 ∷ b3 ∷ []) s h = h
wal_sum-FitsSum bo (b0 ∷ b1 ∷ b2 ∷ b3 ∷ b4 ∷ []) s h = h
wal_sum-FitsSum bo (b0 ∷ b1 ∷ b2 ∷ b3 ∷ b4 ∷ b5 ∷ []) s h = h
wal_sum-FitsSum bo (b0 ∷ b1 ∷ b2 ∷ b3 ∷ b4 ∷ b5 ∷ b6 ∷ []) s h = h
wal_sum-FitsSum bo (b0 ∷ b1 ∷ b2 ∷ b3 ∷ b4 ∷ b5 ∷ b6 ∷ b7 ∷ rest) s h =
    wal_sum-FitsSum bo rest (_, _) (omega arith, omega arith)
