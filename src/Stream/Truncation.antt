-- ===== src/Stream/Truncation.antt =====
-- Reading from a stream that ends within a frame (litefs.go, ReadStreamFrame).
use litefs.Prelude.{
  ℕ, zero, suc, ◌+◌, ◌-◌, ◌^◌, ◌<◌, ◌≡◌, refl, sym, ap, ◌∙◌, List, [], ◌∷◌, ◌++◌, length, take,
  length-take, length-append, be32, be64, to_be32, to_be64, to_be32-be32, arith, dec_lt, ◌==◌,
  ==_ne, if◌then◌else◌, ◌/◌, ◌%◌,
}
use litefs.Reading.{
  Read, got, eof, unexpected_eof, invalid_type, ◌>>=◌, after_byte, read_full, no_eof,
  read_full-append,
}
use litefs.Stream.{
  StreamFrame, ltx_frame, ready_frame, end_frame, drop_db_frame, frame_type, write_name, write_to,
  write_stream_frame, read_name, read_ltx_frame, read_drop_db_frame, read_frame, read_stream_frame,
}
use litefs.Stream.RoundTrip.{FitsFrame, frame_type_fits}

-- Fewer bytes than the read wants.
read_full-short :
    (n : ℕ) (stream : List ℕ) → length stream < n → no_eof (read_full n stream) ≡ unexpected_eof
unfolding read_full
read_full-short zero stream lt = absurd (omega arith)
read_full-short (suc n) [] lt = refl
read_full-short (suc n) (b ∷ stream) lt =
    after b (read_full n stream) (read_full-short n stream (omega arith))
  where
    after :
        (b : ℕ) (r : Read (List ℕ))
        → no_eof r ≡ unexpected_eof
        → no_eof (after_byte b r) ≡ unexpected_eof
    after b (got bytes rest) e = cc
    after b eof e = refl
    after b unexpected_eof e = refl
    after b invalid_type e = cc

take-append_within : (n : ℕ) (xs ys : List ℕ) → n < length xs → take n (xs ++ ys) ≡ take n xs
take-append_within zero xs ys lt = refl
take-append_within (suc n) [] ys lt = absurd (omega arith)
take-append_within (suc n) (x ∷ xs) ys lt =
    ap (λ t. x ∷ t) (take-append_within n xs ys (omega arith))

take-append_beyond :
    (m : ℕ) (xs ys : List ℕ) (n : ℕ) → n ≡ length xs + m → take n (xs ++ ys) ≡ xs ++ take m ys
take-append_beyond m [] ys n e = ap (λ k. take k ys) (omega arith)
take-append_beyond m (x ∷ xs) ys zero e = absurd (omega arith)
take-append_beyond m (x ∷ xs) ys (suc n) e =
    ap (λ t. x ∷ t) (take-append_beyond m xs ys n (omega arith))

-- A reader that fails on every beginning of these bytes.
abbrev Fails : {A : Type 0} → (List ℕ → Read A) → List ℕ → Type 0
Fails p bytes = (n : ℕ) → n < length bytes → no_eof (p (take n bytes)) ≡ unexpected_eof

-- A read of the first bytes, and a reader of the others.
then-Fails :
    {A : Type 0} (xs ys : List ℕ) (k : List ℕ → List ℕ → Read A)
    → Fails (k xs) ys
    → Fails (λ stream. no_eof (read_full (length xs) stream) >>= k) (xs ++ ys)
then-Fails xs ys k f n lt = elim (dec_lt n (length xs)) [
  | yes early ↦
      ap (λ r. no_eof (r >>= k))
        (ap (λ s. no_eof (read_full (length xs) s)) (take-append_within n xs ys early)
          ∙ read_full-short (length xs) (take n xs) (omega (arith, length-take n xs)))
  | no late ↦
      ap (λ r. no_eof (no_eof r >>= k))
        (ap (read_full (length xs)) (take-append_beyond (n - length xs) xs ys n (omega arith))
          ∙ read_full-append xs (take (n - length xs) ys))
      ∙ f (n - length xs) (omega (arith, length-append xs ys))
]

name-Fails : (name : List ℕ) → length name < 2 ^ 32 → Fails read_name (write_name name)
unfolding read_name write_name
name-Fails name fits =
    then-Fails (be32 (length name)) name (λ n rest. no_eof (read_full (to_be32 n 0) rest))
      (λ n lt.
        ap (λ k. no_eof (no_eof (read_full k (take n name)))) (to_be32-be32 (length name) fits)
        ∙ ap no_eof
            (read_full-short (length name) (take n name) (omega (arith, length-take n name))))

-- What follows a failed read does not matter.
mapped-Fails :
    {A B : Type 0} (p : List ℕ → Read A) (k : A → List ℕ → Read B) (bytes : List ℕ)
    → Fails p bytes
    → Fails (λ stream. p stream >>= k) bytes
mapped-Fails {A = A} {B = B} p k bytes f n lt = go (p (take n bytes)) (f n lt)
  where
    go : (r : Read A) → no_eof r ≡ unexpected_eof → no_eof (r >>= k) ≡ unexpected_eof
    go (got a rest) e = cc
    go eof e = refl
    go unexpected_eof e = refl
    go invalid_type e = cc

frame-Fails : (f : StreamFrame) → FitsFrame f → Fails (read_frame (frame_type f)) (write_to f)
unfolding read_frame frame_type write_to read_ltx_frame read_drop_db_frame
frame-Fails (ltx_frame size name) fits =
    then-Fails (be64 size) (write_name name)
      (λ size rest. read_name rest >>= λ name end. got (ltx_frame (to_be64 size 0) name) end)
      (mapped-Fails read_name (λ name end. got (ltx_frame (to_be64 (be64 size) 0) name) end)
        (write_name name) (name-Fails name fits.1))
frame-Fails ready_frame fits = λ n lt. absurd (omega arith)
frame-Fails end_frame fits = λ n lt. absurd (omega arith)
frame-Fails (drop_db_frame name) fits =
    mapped-Fails read_name (λ name end. got (drop_db_frame name) end) (write_name name)
      (name-Fails name fits)

-- After a first byte, io.EOF is not returned.
started :
    (n b : ℕ) (stream : List ℕ)
    → read_full (suc n) (b ∷ stream) ≡ no_eof (read_full (suc n) (b ∷ stream))
unfolding read_full
started n b stream = after b (read_full n stream)
  where
    after : (b : ℕ) (r : Read (List ℕ)) → after_byte b r ≡ no_eof (after_byte b r)
    after b (got bytes rest) = refl
    after b eof = refl
    after b unexpected_eof = refl
    after b invalid_type = refl

never_eof :
    {A B : Type 0} (r : Read A) (k : A → List ℕ → Read B)
    → no_eof (no_eof r >>= λ a rest. no_eof (k a rest)) ≡ (no_eof r >>= λ a rest. no_eof (k a rest))
never_eof {B = B} (got a rest) k = twice (k a rest)
  where
    twice : (r : Read B) → no_eof (no_eof r) ≡ no_eof r
    twice (got a rest) = refl
    twice eof = refl
    twice unexpected_eof = refl
    twice invalid_type = refl
never_eof eof k = refl
never_eof unexpected_eof k = refl
never_eof invalid_type k = refl

-- If a stream ends after `n` bytes of a frame whose size is below 2 ^ 64 and whose name is shorter
-- than 2 ^ 32 bytes, before the end of the frame, then ReadStreamFrame fails: with io.EOF if n is
-- 0, with io.ErrUnexpectedEOF otherwise.
pub read_stream_frame-truncated :
    (f : StreamFrame)
    → FitsFrame f
    → (n : ℕ) → n < length (write_stream_frame f)
    → read_stream_frame (take n (write_stream_frame f)) ≡ (if n == 0 then eof else unexpected_eof)
unfolding read_stream_frame write_stream_frame read_full
read_stream_frame-truncated f fits zero lt = refl
read_stream_frame-truncated f fits (suc n) lt =
    ap (λ r. r >>= body) (started 3 first others)
    ∙ sym (never_eof (read_full 4 (first ∷ others)) (λ typ rest. read_frame (to_be32 typ 0) rest))
    ∙ then-Fails (be32 (frame_type f)) (write_to f) body fails (suc n) lt
    ∙ ap (λ b. if b then eof else unexpected_eof) (sym (==_ne (suc n) 0 (λ e. omega arith)))
  where
    first : ℕ
    first = frame_type f / 2 ^ 24 % 256

    others : List ℕ
    others =
        take n
          (frame_type f / 2 ^ 16 % 256 ∷ frame_type f / 256 % 256 ∷ frame_type f % 256 ∷ write_to f)

    body : List ℕ → List ℕ → Read StreamFrame
    body typ rest = no_eof (read_frame (to_be32 typ 0) rest)

    fails : Fails (body (be32 (frame_type f))) (write_to f)
    fails n lt =
        ap (λ t. no_eof (no_eof (read_frame t (take n (write_to f)))))
          (to_be32-be32 (frame_type f) (frame_type_fits f))
        ∙ ap no_eof (frame-Fails f fits n lt)
