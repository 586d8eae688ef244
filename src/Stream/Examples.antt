-- ===== src/Stream/Examples.antt =====
-- A frame for the database "db" of 260 bytes, followed by the first bytes of its file (litefs.go).
use litefs.Prelude.{take, length, ap, ◌<◌, ◌==◌, if◌then◌else◌, ◌≡◌, refl, [], ◌∷◌, ◌++◌, arith}
use litefs.Reading.{got, eof, unexpected_eof, read_full}
use litefs.Stream.{
  StreamFrame, ltx_frame, write_stream_frame, read_stream_frame, write_to, write_name, frame_type,
  read_frame, read_ltx_frame,
}
use litefs.Stream.Truncation.{read_stream_frame-truncated}
use litefs.Stream.RoundTrip.{read_stream_frame-write_stream_frame}

abbrev frame : StreamFrame
frame = ltx_frame 260 (100 ∷ 98 ∷ [])

written_bytes :
    write_stream_frame frame
    ≡ 0 ∷ 0 ∷ 0 ∷ 1 ∷ 0 ∷ 0 ∷ 0 ∷ 0 ∷ 0 ∷ 0 ∷ 1 ∷ 4 ∷ 0 ∷ 0 ∷ 0 ∷ 2 ∷ 100 ∷ 98 ∷ []
unfolding write_stream_frame write_to write_name frame_type
written_bytes = refl

no_frame : read_stream_frame [] ≡ eof
unfolding read_stream_frame read_full
no_frame = refl

cut_off : read_stream_frame (0 ∷ 0 ∷ 0 ∷ 1 ∷ 0 ∷ []) ≡ unexpected_eof
unfolding read_stream_frame read_full read_frame read_ltx_frame
cut_off = refl

read_stream_frame-write_stream_frame_example :
    read_stream_frame (write_stream_frame frame ++ 76 ∷ 84 ∷ []) ≡ got frame (76 ∷ 84 ∷ [])
read_stream_frame-write_stream_frame_example =
    read_stream_frame-write_stream_frame frame (76 ∷ 84 ∷ []) (omega arith, omega arith)

read_stream_frame-truncated_example :
    read_stream_frame (take 5 (write_stream_frame frame)) ≡ (if 5 == 0 then eof else unexpected_eof)
read_stream_frame-truncated_example =
    read_stream_frame-truncated frame (omega arith, omega arith) 5 five
  where
    five : 5 < length (write_stream_frame frame)
    five = omega (arith, ap length written_bytes)
