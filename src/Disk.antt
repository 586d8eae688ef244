-- ===== src/Disk.antt =====
-- Files as the operating system keeps them: what db.go relies on of os.File's ReadAt, WriteAt and
-- Truncate, and `ReadFullAt` (internal/internal.go) over it. A file has a size and its bytes; a
-- byte at or after the end is 0. Reads and writes that the system refuses (a full or failing disk)
-- are not modelled.
use litefs.Prelude.{
  ℕ, zero, suc, ◌+◌, ◌-◌, ◌≤◌, ◌<◌, max, ◌≡◌, refl, sym, ap, ap₂, ◌∙◌, ◌⊎◌, inl, inr, ◌&&◌, Option,
  none, some, List, [], ◌∷◌, arith, if◌then◌else◌, ◌==◌, ltb, leb, length, get_or, take, drop,
}

pub record File : Type 0 where
  pub size : ℕ
  pub byte : ℕ → ℕ

unfoldable pub empty : File
empty = record { size = 0; byte = λ _. 0 }

unfoldable pub bytes_from : (ℕ → ℕ) → ℕ → ℕ → List ℕ
bytes_from byte off zero = []
bytes_from byte off (suc n) = byte off ∷ bytes_from byte (suc off) n

-- func ReadFullAt(r io.ReaderAt, buf []byte, off int64): `len` bytes at `off`; `none` is io.EOF or
-- io.ErrUnexpectedEOF, which every caller treats alike.
unfoldable pub read_full_at : File → ℕ → ℕ → Option (List ℕ)
unfolding bytes_from
read_full_at f len off =
    if leb (off + len) f.size
    then some (bytes_from f.byte off len)
    else (if len == 0 then some [] else none)

unfoldable pub write_at : File → List ℕ → ℕ → File
write_at f bytes off = record {
  size = max f.size (off + length bytes);
  byte =
      λ i. if leb off i && ltb i (off + length bytes) then get_or bytes (i - off) 0 else f.byte i;
}

unfoldable pub truncate : File → ℕ → File
truncate f size = record {
  size = size;
  byte = λ i. if ltb i size && ltb i f.size then f.byte i else 0;
}

pub bytes_from-cong :
    (b c : ℕ → ℕ) (off n : ℕ)
    → ((i : ℕ) → off ≤ i → i < off + n → b i ≡ c i)
    → bytes_from b off n ≡ bytes_from c off n
unfolding bytes_from
bytes_from-cong b c off zero h = refl
bytes_from-cong b c off (suc n) h =
    ap₂ (λ x y. x ∷ y) (h off (omega arith) (omega arith))
      (bytes_from-cong b c (suc off) n (λ i p q. h i (omega arith) (omega arith)))

pub bytes_from_list :
    (bytes : List ℕ) (b : ℕ → ℕ) (off : ℕ)
    → ((i : ℕ) → i < length bytes → b (off + i) ≡ get_or bytes i 0)
    → bytes_from b off (length bytes) ≡ bytes
unfolding bytes_from
bytes_from_list [] b off h = refl
bytes_from_list (x ∷ bytes) b off h =
    ap₂ (λ y ys. y ∷ ys) (ap b (omega arith) ∙ h 0 (omega arith))
      (bytes_from_list bytes b (suc off) (λ i p. ap b (omega arith) ∙ h (suc i) (omega arith)))

pub length-bytes_from : (b : ℕ → ℕ) (off n : ℕ) → length (bytes_from b off n) ≡ n
unfolding bytes_from
length-bytes_from b off zero = refl
length-bytes_from b off (suc n) = ap suc (length-bytes_from b (suc off) n)

-- A read within the size gives the bytes.
pub read-fits :
    (f : File) (len off : ℕ)
    → off + len ≤ f.size
    → read_full_at f len off ≡ some (bytes_from f.byte off len)
unfolding read_full_at
read-fits f len off h = ground arith

-- What was written is read back.
pub read-write_self :
    (f : File) (bytes : List ℕ) (off : ℕ)
    → read_full_at (write_at f bytes off) (length bytes) off ≡ some bytes
unfolding write_at
read-write_self f bytes off =
    read-fits (write_at f bytes off) (length bytes) off (omega arith)
    ∙ ap some (bytes_from_list bytes (write_at f bytes off).byte off (λ i lt. inside i lt))
  where
    inside : (i : ℕ) → i < length bytes → (write_at f bytes off).byte (off + i) ≡ get_or bytes i 0
    inside i lt = ground (arith, ap (λ k. get_or bytes k 0) (shift i))
      where
        shift : (i : ℕ) → off + i - off ≡ i
        shift i = omega arith

-- A write leaves the bytes before and after it.
pub read-write_other :
    (f : File) (bytes : List ℕ) (off len at : ℕ)
    → (at + len ≤ off) ⊎ (off + length bytes ≤ at)
    → at + len ≤ f.size
    → read_full_at (write_at f bytes off) len at ≡ read_full_at f len at
unfolding write_at
read-write_other f bytes off len at d fits =
    read-fits (write_at f bytes off) len at (omega arith)
    ∙ ap some (bytes_from-cong (write_at f bytes off).byte f.byte at len (λ i p q. outside d i p q))
    ∙ sym (read-fits f len at fits)
  where
    outside :
        (at + len ≤ off) ⊎ (off + length bytes ≤ at)
        → (i : ℕ) → at ≤ i
        → i < at + len
        → (write_at f bytes off).byte i ≡ f.byte i
    outside (inl b) i p q = ground arith
    outside (inr a) i p q = ground arith

-- Truncation keeps what lies within the new size.
pub read-truncate :
    (f : File) (size len at : ℕ)
    → at + len ≤ size
    → at + len ≤ f.size
    → read_full_at (truncate f size) len at ≡ read_full_at f len at
unfolding truncate
read-truncate f size len at p q =
    read-fits (truncate f size) len at p
    ∙ ap some (bytes_from-cong (truncate f size).byte f.byte at len (λ i a b. ground arith))
    ∙ sym (read-fits f len at q)

-- A read gives as many bytes as it asks for.
pub length-read :
    (f : File) (len off : ℕ) (d : List ℕ)
    → 0 < len
    → read_full_at f len off ≡ some d
    → length d ≡ len
unfolding read_full_at
length-read f len off d h e = ground (arith, length-bytes_from f.byte off len)

-- The end of a read is the read from further on.
drop-bytes_from :
    (b : ℕ → ℕ) (n total off len at : ℕ)
    → off + n ≡ at
    → n + len ≡ total
    → drop n (bytes_from b off total) ≡ bytes_from b at len
unfolding bytes_from
drop-bytes_from b zero total off len at e t = ap₂ (bytes_from b) (omega arith) (omega arith)
drop-bytes_from b (suc n) zero off len at e t = absurd (omega arith)
drop-bytes_from b (suc n) (suc total) off len at e t =
    drop-bytes_from b n total (suc off) len at (omega arith) (omega arith)

pub drop-read :
    (f : File) (n len off : ℕ) (frame : List ℕ)
    → 0 < len
    → read_full_at f (n + len) off ≡ some frame
    → read_full_at f len (off + n) ≡ some (drop n frame)
unfolding read_full_at
drop-read f n len off frame h e =
    ground (arith, drop-bytes_from f.byte n (n + len) off len (off + n) refl refl)

-- The front of a read is the shorter read.
take-bytes_from :
    (b : ℕ → ℕ) (n total off len : ℕ)
    → n + len ≡ total
    → take n (bytes_from b off total) ≡ bytes_from b off n
unfolding bytes_from
take-bytes_from b zero total off len t = refl
take-bytes_from b (suc n) zero off len t = absurd (omega arith)
take-bytes_from b (suc n) (suc total) off len t =
    ap (λ xs. b off ∷ xs) (take-bytes_from b n total (suc off) len (omega arith))

pub take-read :
    (f : File) (n len off : ℕ) (bytes : List ℕ)
    → 0 < n
    → read_full_at f (n + len) off ≡ some bytes
    → read_full_at f n off ≡ some (take n bytes)
unfolding read_full_at
take-read f n len off bytes h e = ground (arith, take-bytes_from f.byte n (n + len) off len refl)
