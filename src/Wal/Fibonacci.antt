-- ===== src/Wal/Fibonacci.antt =====
-- WALChecksum (litefs.go) against the description in SQLite's file format: both sums are weighted
-- with the Fibonacci numbers in reverse order, and the first one omits the last word.
use litefs.Prelude.{
  ℕ, zero, suc, ◌+◌, ◌*◌, ◌%◌, ◌^◌, ◌<◌, ◌≡◌, refl, sym, ap, ap₂, ◌∙◌, List, [], ◌∷◌, length, arith,
  ◌==◌, ==_iff, ==_ne, ℕ_discrete, if◌then◌else◌, returns, panics,
}
use litefs.Wal.{ByteOrder, uint32, wal_sum, wal_checksum}

abbrev pub fib : ℕ → ℕ
fib zero = 0
fib (suc zero) = 1
fib (suc (suc n)) = fib n + fib (suc n)

-- The 32-bit words of the bytes.
abbrev pub words : ByteOrder → List ℕ → List ℕ
words bo (b0 ∷ b1 ∷ b2 ∷ b3 ∷ rest) = uint32 bo (b0 ∷ b1 ∷ b2 ∷ b3 ∷ []) 0 ∷ words bo rest
words bo _ = []

-- The last word has the weight fib 1.
abbrev pub weighted : List ℕ → ℕ
weighted [] = 0
weighted (x ∷ xs) = fib (suc (length xs)) * x + weighted xs

-- The seeds stand before the words.
abbrev pub spanned : ℕ → ℕ → List ℕ → ℕ
spanned s0 s1 xs = fib (length xs) * s0 + fib (suc (length xs)) * s1 + weighted xs

abbrev pub drop_last : List ℕ → List ℕ
drop_last [] = []
drop_last (x ∷ []) = []
drop_last (x ∷ y ∷ xs) = x ∷ drop_last (y ∷ xs)

-- The loop of WALChecksum without the wrap-around.
abbrev exact : ByteOrder → ℕ → ℕ → List ℕ → ℕ × ℕ
exact bo s0 s1 (b0 ∷ b1 ∷ b2 ∷ b3 ∷ b4 ∷ b5 ∷ b6 ∷ b7 ∷ rest) =
    let t0 = s0 + (uint32 bo (b0 ∷ b1 ∷ b2 ∷ b3 ∷ []) 0 + s1) in
    exact bo t0 (s1 + (uint32 bo (b4 ∷ b5 ∷ b6 ∷ b7 ∷ []) 0 + t0)) rest
exact bo s0 s1 _ = (s0, s1)

first_wrap : (s0 s1 x : ℕ) → (s0 % 2 ^ 32 + (x + s1 % 2 ^ 32)) % 2 ^ 32 ≡ (s0 + (x + s1)) % 2 ^ 32
first_wrap s0 s1 x = omega arith

second_wrap :
    (s0 s1 x y : ℕ)
    → (s1 % 2 ^ 32 + (y + (s0 % 2 ^ 32 + (x + s1 % 2 ^ 32)) % 2 ^ 32)) % 2 ^ 32
      ≡ (s1 + (y + (s0 + (x + s1)))) % 2 ^ 32
second_wrap s0 s1 x y = omega arith

wal_sum-exact :
    (bo : ByteOrder) (b : List ℕ) (s0 s1 : ℕ)
    → wal_sum bo (s0 % 2 ^ 32, s1 % 2 ^ 32) b
      ≡ ((exact bo s0 s1 b).0 % 2 ^ 32, (exact bo s0 s1 b).1 % 2 ^ 32)
unfolding wal_sum
wal_sum-exact bo [] s0 s1 = refl
wal_sum-exact bo (b0 ∷ []) s0 s1 = refl
wal_sum-exact bo (b0 ∷ b1 ∷ []) s0 s1 = refl
wal_sum-exact bo (b0 ∷ b1 ∷ b2 ∷ []) s0 s1 = refl
wal_sum-exact bo (b0 ∷ b1 ∷ b2 ∷ b3 ∷ []) s0 s1 = refl
wal_sum-exact bo (b0 ∷ b1 ∷ b2 ∷ b3 ∷ b4 ∷ []) s0 s1 = refl
wal_sum-exact bo (b0 ∷ b1 ∷ b2 ∷ b3 ∷ b4 ∷ b5 ∷ []) s0 s1 = refl
wal_sum-exact bo (b0 ∷ b1 ∷ b2 ∷ b3 ∷ b4 ∷ b5 ∷ b6 ∷ []) s0 s1 = refl
wal_sum-exact bo (b0 ∷ b1 ∷ b2 ∷ b3 ∷ b4 ∷ b5 ∷ b6 ∷ b7 ∷ rest) s0 s1 =
    let x = uint32 bo (b0 ∷ b1 ∷ b2 ∷ b3 ∷ []) 0 in
    let y = uint32 bo (b4 ∷ b5 ∷ b6 ∷ b7 ∷ []) 0 in
    ap₂ (λ t u. wal_sum bo (t, u) rest) (first_wrap s0 s1 x) (second_wrap s0 s1 x y)
    ∙ wal_sum-exact bo rest (s0 + (x + s1)) (s1 + (y + (s0 + (x + s1))))

-- A round on the seeds, for the words `x` and `y`.
spanned-step :
    (s0 s1 x y : ℕ) (ws : List ℕ)
    → spanned (s0 + (x + s1)) (s1 + (y + (s0 + (x + s1)))) ws ≡ spanned s0 s1 (x ∷ y ∷ ws)
spanned-step s0 s1 x y ws = of (fib (length ws)) (fib (suc (length ws))) (weighted ws)
  where
    of :
        (f g w : ℕ)
        → f * (s0 + (x + s1)) + g * (s1 + (y + (s0 + (x + s1)))) + w
          ≡ (f + g) * s0 + (g + (f + g)) * s1 + ((f + g) * x + (g * y + w))
    of f g w = omega arith

last_sum :
    (bo : ByteOrder) (b : List ℕ) (s0 s1 : ℕ)
    → length b % 8 ≡ 0
    → (exact bo s0 s1 b).1 ≡ spanned s0 s1 (words bo b)
last_sum bo [] s0 s1 h = omega arith
last_sum bo (b0 ∷ []) s0 s1 h = absurd (omega arith)
last_sum bo (b0 ∷ b1 ∷ []) s0 s1 h = absurd (omega arith)
last_sum bo (b0 ∷ b1 ∷ b2 ∷ []) s0 s1 h = absurd (omega arith)
last_sum bo (b0 ∷ b1 ∷ b2 ∷ b3 ∷ []) s0 s1 h = absurd (omega arith)
last_sum bo (b0 ∷ b1 ∷ b2 ∷ b3 ∷ b4 ∷ []) s0 s1 h = absurd (omega arith)
last_sum bo (b0 ∷ b1 ∷ b2 ∷ b3 ∷ b4 ∷ b5 ∷ []) s0 s1 h = absurd (omega arith)
last_sum bo (b0 ∷ b1 ∷ b2 ∷ b3 ∷ b4 ∷ b5 ∷ b6 ∷ []) s0 s1 h = absurd (omega arith)
last_sum bo (b0 ∷ b1 ∷ b2 ∷ b3 ∷ b4 ∷ b5 ∷ b6 ∷ b7 ∷ rest) s0 s1 h =
    let x = uint32 bo (b0 ∷ b1 ∷ b2 ∷ b3 ∷ []) 0 in
    let y = uint32 bo (b4 ∷ b5 ∷ b6 ∷ b7 ∷ []) 0 in
    last_sum bo rest (s0 + (x + s1)) (s1 + (y + (s0 + (x + s1)))) (omega (arith, h))
    ∙ spanned-step s0 s1 x y (words bo rest)

-- The first sum after the words `x` and `y` and further bytes.
first_sum :
    (bo : ByteOrder) (b : List ℕ) (s0 s1 x y : ℕ)
    → length b % 8 ≡ 0
    → (exact bo (s0 + (x + s1)) (s1 + (y + (s0 + (x + s1)))) b).0
      ≡ spanned s0 s1 (drop_last (x ∷ y ∷ words bo b))
first_sum bo [] s0 s1 x y h = omega arith
first_sum bo (b0 ∷ []) s0 s1 x y h = absurd (omega arith)
first_sum bo (b0 ∷ b1 ∷ []) s0 s1 x y h = absurd (omega arith)
first_sum bo (b0 ∷ b1 ∷ b2 ∷ []) s0 s1 x y h = absurd (omega arith)
first_sum bo (b0 ∷ b1 ∷ b2 ∷ b3 ∷ []) s0 s1 x y h = absurd (omega arith)
first_sum bo (b0 ∷ b1 ∷ b2 ∷ b3 ∷ b4 ∷ []) s0 s1 x y h = absurd (omega arith)
first_sum bo (b0 ∷ b1 ∷ b2 ∷ b3 ∷ b4 ∷ b5 ∷ []) s0 s1 x y h = absurd (omega arith)
first_sum bo (b0 ∷ b1 ∷ b2 ∷ b3 ∷ b4 ∷ b5 ∷ b6 ∷ []) s0 s1 x y h = absurd (omega arith)
first_sum bo (b0 ∷ b1 ∷ b2 ∷ b3 ∷ b4 ∷ b5 ∷ b6 ∷ b7 ∷ rest) s0 s1 x y h =
    let u = uint32 bo (b0 ∷ b1 ∷ b2 ∷ b3 ∷ []) 0 in
    let v = uint32 bo (b4 ∷ b5 ∷ b6 ∷ b7 ∷ []) 0 in
    first_sum bo rest (s0 + (x + s1)) (s1 + (y + (s0 + (x + s1)))) u v (omega (arith, h))
    ∙ spanned-step s0 s1 x y (drop_last (u ∷ v ∷ words bo rest))

aligned_sums :
    (bo : ByteOrder) (s0 s1 : ℕ) (b : List ℕ)
    → 0 < length b
    → length b % 8 ≡ 0
    → wal_sum bo (s0, s1) b
      ≡ (spanned s0 s1 (drop_last (words bo b)) % 2 ^ 32, spanned s0 s1 (words bo b) % 2 ^ 32)
unfolding wal_sum
aligned_sums bo s0 s1 [] pos h = absurd (omega arith)
aligned_sums bo s0 s1 (b0 ∷ []) pos h = absurd (omega arith)
aligned_sums bo s0 s1 (b0 ∷ b1 ∷ []) pos h = absurd (omega arith)
aligned_sums bo s0 s1 (b0 ∷ b1 ∷ b2 ∷ []) pos h = absurd (omega arith)
aligned_sums bo s0 s1 (b0 ∷ b1 ∷ b2 ∷ b3 ∷ []) pos h = absurd (omega arith)
aligned_sums bo s0 s1 (b0 ∷ b1 ∷ b2 ∷ b3 ∷ b4 ∷ []) pos h = absurd (omega arith)
aligned_sums bo s0 s1 (b0 ∷ b1 ∷ b2 ∷ b3 ∷ b4 ∷ b5 ∷ []) pos h = absurd (omega arith)
aligned_sums bo s0 s1 (b0 ∷ b1 ∷ b2 ∷ b3 ∷ b4 ∷ b5 ∷ b6 ∷ []) pos h = absurd (omega arith)
aligned_sums bo s0 s1 (b0 ∷ b1 ∷ b2 ∷ b3 ∷ b4 ∷ b5 ∷ b6 ∷ b7 ∷ rest) pos h =
    let x = uint32 bo (b0 ∷ b1 ∷ b2 ∷ b3 ∷ []) 0 in
    let y = uint32 bo (b4 ∷ b5 ∷ b6 ∷ b7 ∷ []) 0 in
    let t0 = s0 + (x + s1) in
    let t1 = s1 + (y + t0) in
    ap (λ t. wal_sum bo (t0 % 2 ^ 32, t) rest) (later_wrap s0 s1 x y)
    ∙ wal_sum-exact bo rest t0 t1
    ∙ ap₂ (λ t u. (t % 2 ^ 32, u % 2 ^ 32)) (first_sum bo rest s0 s1 x y (omega (arith, h)))
        (last_sum bo rest t0 t1 (omega (arith, h)) ∙ spanned-step s0 s1 x y (words bo rest))
  where
    later_wrap :
        (s0 s1 x y : ℕ)
        → (s1 + (y + (s0 + (x + s1)) % 2 ^ 32)) % 2 ^ 32 ≡ (s1 + (y + (s0 + (x + s1)))) % 2 ^ 32
    later_wrap s0 s1 x y = omega arith

-- WALChecksum of a byte slice that is not empty, from any seeds: if its length is a multiple of 8,
-- the first sum is, modulo 2^32, that of the seeds and all 32-bit words but the last, each times
-- the Fibonacci number that counts the words from it on, and the second one is the same with all
-- words; the words are in the byte order, the seeds stand before them. At any other length the
-- assertion fails.
pub wal_checksum-weighted :
    (bo : ByteOrder) (s0 s1 : ℕ) (b : List ℕ)
    → 0 < length b
    → wal_checksum bo (s0, s1) b ≡ (
        if length b % 8 == 0
        then returns
            (spanned s0 s1 (drop_last (words bo b)) % 2 ^ 32, spanned s0 s1 (words bo b) % 2 ^ 32)
        else panics)
unfolding wal_checksum
wal_checksum-weighted bo s0 s1 b pos = elim (ℕ_discrete (length b % 8) 0) [
  | yes e ↦
      ap (λ t. if t then returns (wal_sum bo (s0, s1) b) else panics) ((==_iff _ _).1 e)
      ∙ ap returns (aligned_sums bo s0 s1 b pos e)
      ∙ sym (ap (λ t. if t then returns (sums) else panics) ((==_iff _ _).1 e))
  | no n ↦
      ap (λ t. if t then returns (wal_sum bo (s0, s1) b) else panics) (==_ne (length b % 8) 0 n)
      ∙ sym (ap (λ t. if t then returns (sums) else panics) (==_ne (length b % 8) 0 n))
]
  where
    sums : ℕ × ℕ
    sums = (spanned s0 s1 (drop_last (words bo b)) % 2 ^ 32, spanned s0 s1 (words bo b) % 2 ^ 32)
