-- ===== src/Reading.antt =====
-- Reading from a stream of bytes: io.ReadFull and binary.Read of Go's standard library, as
-- litefs.go and internal/chunk/chunk.go use them. The list holds all that the stream will give;
-- other errors of the connection are not modelled.
use litefs.Prelude.{◌<◌, arith, ℕ, zero, suc, ◌≡◌, refl, ap, List, [], ◌∷◌, ◌++◌, length}

-- What a read gives, with the rest of the stream: a value, io.EOF, io.ErrUnexpectedEOF, or the
-- error for an unknown frame type.
pub data Read {ℓ} (A : Type ℓ) : Type ℓ where
  got : A → List ℕ → Read A
  eof : Read A
  unexpected_eof : Read A
  invalid_type : Read A

infixl 5 ◌>>=◌
abbrev pub ◌>>=◌ {ℓ κ} : {A : Type ℓ} {B : Type κ} → Read A → (A → List ℕ → Read B) → Read B
got a rest >>= f = f a rest
eof >>= f = eof
unexpected_eof >>= f = unexpected_eof
invalid_type >>= f = invalid_type

-- One byte more: an end after it is unexpected.
abbrev pub after_byte : ℕ → Read (List ℕ) → Read (List ℕ)
after_byte b (got bytes rest) = got (b ∷ bytes) rest
after_byte b eof = unexpected_eof
after_byte b unexpected_eof = unexpected_eof
after_byte b invalid_type = invalid_type

-- io.ReadFull into a buffer of `n` bytes
unfoldable pub read_full : ℕ → List ℕ → Read (List ℕ)
read_full zero stream = got [] stream
read_full (suc n) [] = eof
read_full (suc n) (b ∷ stream) = after_byte b (read_full n stream)

-- `if err == io.EOF { return io.ErrUnexpectedEOF }`
abbrev pub no_eof {ℓ} : {A : Type ℓ} → Read A → Read A
no_eof (got a rest) = got a rest
no_eof eof = unexpected_eof
no_eof unexpected_eof = unexpected_eof
no_eof invalid_type = invalid_type

-- Bytes at the front of the stream are read in full.
pub read_full-append :
    (bytes rest : List ℕ) → read_full (length bytes) (bytes ++ rest) ≡ got bytes rest
unfolding read_full
read_full-append [] rest = refl
read_full-append (b ∷ bytes) rest = ap (after_byte b) (read_full-append bytes rest)

-- A read in full takes its bytes off the stream, or fails at the end of a stream that is too short.
pub data FullRead (n : ℕ) (stream : List ℕ) : Read (List ℕ) → Type 0 where
  full :
      (bytes rest : List ℕ)
      → length bytes ≡ n
      → stream ≡ bytes ++ rest
      → FullRead n stream (got bytes rest)
  none_left : length stream < n → FullRead n stream eof
  too_short : length stream < n → FullRead n stream unexpected_eof

after_byte-FullRead :
    (n b : ℕ) (stream : List ℕ) {r : Read (List ℕ)}
    → FullRead n stream r
    → FullRead (suc n) (b ∷ stream) (after_byte b r)
after_byte-FullRead n b stream (full bytes rest l e) =
    full (b ∷ bytes) rest (ap suc l) (ap (λ t. b ∷ t) e)
after_byte-FullRead n b stream (none_left lt) = too_short (omega arith)
after_byte-FullRead n b stream (too_short lt) = too_short (omega arith)

pub read_full-FullRead : (n : ℕ) (stream : List ℕ) → FullRead n stream (read_full n stream)
unfolding read_full
read_full-FullRead zero stream = full [] stream refl refl
read_full-FullRead (suc n) [] = none_left (omega arith)
read_full-FullRead (suc n) (b ∷ stream) =
    after_byte-FullRead n b stream (read_full-FullRead n stream)
