-- ===== src/Stream/RoundTrip.antt =====
-- Reading a frame that was written (litefs.go, ReadStreamFrame and WriteStreamFrame).
use mathlib.Core.List.{append_assoc}
use litefs.Prelude.{
  arith, ℕ, ◌≡◌, refl, ap, ◌∙◌, ◌<◌, ◌^◌, List, ◌++◌, length, be32, be64, to_be32, to_be64,
  to_be32-be32, to_be64-be64,
}
use litefs.Reading.{Read, got, ◌>>=◌, read_full, no_eof, read_full-append}
use litefs.Stream.{
  StreamFrame, ltx_frame, ready_frame, end_frame, drop_db_frame, frame_type, write_name, write_to,
  write_stream_frame, read_name, read_ltx_frame, read_drop_db_frame, read_frame, read_stream_frame,
}

-- The fields fit their encodings.
abbrev pub FitsFrame : StreamFrame → Type 0
FitsFrame (ltx_frame size name) = (size < 2 ^ 64) × (length name < 2 ^ 32)
FitsFrame ready_frame = Unit
FitsFrame end_frame = Unit
FitsFrame (drop_db_frame name) = length name < 2 ^ 32

-- The frame that the other side reads.
abbrev pub arrives_as : StreamFrame → StreamFrame
arrives_as (ltx_frame size name) = ltx_frame size name
arrives_as ready_frame = ready_frame
arrives_as end_frame = ready_frame
arrives_as (drop_db_frame name) = drop_db_frame name

read_name-write_name :
    (name rest : List ℕ)
    → length name < 2 ^ 32
    → read_name (write_name name ++ rest) ≡ got name rest
unfolding read_name write_name
read_name-write_name name rest fits =
    ap (λ stream. no_eof (read_full 4 stream) >>= body)
      (append_assoc (be32 (length name)) name rest)
    ∙ ap (λ r. no_eof r >>= body) (read_full-append (be32 (length name)) (name ++ rest))
    ∙ ap (λ n. no_eof (read_full n (name ++ rest))) (to_be32-be32 (length name) fits)
    ∙ ap no_eof (read_full-append name rest)
  where
    body : List ℕ → List ℕ → Read (List ℕ)
    body n rest = no_eof (read_full (to_be32 n 0) rest)

read_ltx_frame_lem :
    (size : ℕ) (name rest : List ℕ)
    → size < 2 ^ 64
    → length name < 2 ^ 32
    → read_ltx_frame (write_to (ltx_frame size name) ++ rest) ≡ got (ltx_frame size name) rest
unfolding read_ltx_frame write_to
read_ltx_frame_lem size name rest small fits =
    ap (λ stream. no_eof (read_full 8 stream) >>= body)
      (append_assoc (be64 size) (write_name name) rest)
    ∙ ap (λ r. no_eof r >>= body) (read_full-append (be64 size) (write_name name ++ rest))
    ∙ ap (named (to_be64 (be64 size) 0)) (read_name-write_name name rest fits)
    ∙ ap (λ s. got (ltx_frame s name) rest) (to_be64-be64 size small)
  where
    named : ℕ → Read (List ℕ) → Read StreamFrame
    named size r = r >>= λ name end. got (ltx_frame size name) end

    body : List ℕ → List ℕ → Read StreamFrame
    body size rest = named (to_be64 size 0) (read_name rest)

read_drop_db_frame_lem :
    (name rest : List ℕ)
    → length name < 2 ^ 32
    → read_drop_db_frame (write_to (drop_db_frame name) ++ rest) ≡ got (drop_db_frame name) rest
unfolding read_drop_db_frame write_to
read_drop_db_frame_lem name rest fits =
    ap (λ r. r >>= λ name end. got (drop_db_frame name) end) (read_name-write_name name rest fits)

read_frame_lem :
    (f : StreamFrame) (rest : List ℕ)
    → FitsFrame f
    → read_frame (frame_type f) (write_to f ++ rest) ≡ got (arrives_as f) rest
unfolding read_frame frame_type write_to
read_frame_lem (ltx_frame size name) rest fits = read_ltx_frame_lem size name rest fits.0 fits.1
read_frame_lem ready_frame rest fits = refl
read_frame_lem end_frame rest fits = refl
read_frame_lem (drop_db_frame name) rest fits = read_drop_db_frame_lem name rest fits

pub frame_type_fits : (f : StreamFrame) → frame_type f < 2 ^ 32
unfolding frame_type
frame_type_fits (ltx_frame size name) = omega arith
frame_type_fits ready_frame = omega arith
frame_type_fits end_frame = omega arith
frame_type_fits (drop_db_frame name) = omega arith

-- A frame whose size is below 2 ^ 64 and whose name is shorter than 2 ^ 32 bytes, written at the
-- front of a stream, is read back, and the reader stops at the first byte after it. An end frame is
-- the exception: it arrives as a ready frame.
pub read_stream_frame-write_stream_frame :
    (f : StreamFrame) (rest : List ℕ)
    → FitsFrame f
    → read_stream_frame (write_stream_frame f ++ rest) ≡ got (arrives_as f) rest
unfolding read_stream_frame write_stream_frame
read_stream_frame-write_stream_frame f rest fits =
    ap (λ stream. read_full 4 stream >>= body)
      (append_assoc (be32 (frame_type f)) (write_to f) rest)
    ∙ ap (λ r. r >>= body) (read_full-append (be32 (frame_type f)) (write_to f ++ rest))
    ∙ ap (λ t. no_eof (read_frame t (write_to f ++ rest)))
        (to_be32-be32 (frame_type f) (frame_type_fits f))
    ∙ ap no_eof (read_frame_lem f rest fits)
  where
    body : List ℕ → List ℕ → Read StreamFrame
    body typ rest = no_eof (read_frame (to_be32 typ 0) rest)
