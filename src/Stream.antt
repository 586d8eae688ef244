-- ===== src/Stream.antt =====
-- The frames of the replication stream (litefs.go): ReadStreamFrame, WriteStreamFrame and the frame
-- types. A frame's size, an int64, stands as its 64 bits, a number below 2 ^ 64: Go's conversions
-- to and from uint64 keep them.
mod Examples
pub mod RoundTrip
pub mod Truncation
use litefs.Prelude.{
  ℕ, ◌≡◌, List, [], ◌∷◌, ◌++◌, length, Bool, true, false, ◌==◌, if◌then◌else◌, be32, be64, to_be32,
  to_be64,
}
use litefs.Reading.{Read, got, eof, unexpected_eof, invalid_type, ◌>>=◌, read_full, no_eof}

-- The structs LTXStreamFrame, ReadyStreamFrame, EndStreamFrame and DropDBStreamFrame.
pub data StreamFrame : Type 0 where
  ltx_frame : ℕ → List ℕ → StreamFrame
  ready_frame : StreamFrame
  end_frame : StreamFrame
  drop_db_frame : List ℕ → StreamFrame

-- type StreamFrameType
abbrev pub stream_frame_type_ltx : ℕ
stream_frame_type_ltx = 1

abbrev pub stream_frame_type_ready : ℕ
stream_frame_type_ready = 2

abbrev pub stream_frame_type_end : ℕ
stream_frame_type_end = 3

abbrev pub stream_frame_type_drop_db : ℕ
stream_frame_type_drop_db = 4

-- The methods Type() of the four structs.
unfoldable pub frame_type : StreamFrame → ℕ
frame_type (ltx_frame size name) = stream_frame_type_ltx
frame_type ready_frame = stream_frame_type_ready
frame_type end_frame = stream_frame_type_ready
frame_type (drop_db_frame name) = stream_frame_type_drop_db

-- uint32(len(f.Name)) and the name
unfoldable pub write_name : List ℕ → List ℕ
write_name name = be32 (length name) ++ name

-- The methods WriteTo of the four structs.
unfoldable pub write_to : StreamFrame → List ℕ
unfolding write_name
write_to (ltx_frame size name) = be64 size ++ write_name name
write_to ready_frame = []
write_to end_frame = []
write_to (drop_db_frame name) = write_name name

-- func WriteStreamFrame(w io.Writer, f StreamFrame) error: the bytes that it writes.
unfoldable pub write_stream_frame : StreamFrame → List ℕ
unfolding frame_type write_to
write_stream_frame f = be32 (frame_type f) ++ write_to f

-- The length and the bytes of a name, as ReadFrom reads them.
unfoldable pub read_name : List ℕ → Read (List ℕ)
read_name stream = no_eof (read_full 4 stream) >>= λ n rest. no_eof (read_full (to_be32 n 0) rest)

-- The method ReadFrom of LTXStreamFrame.
unfoldable pub read_ltx_frame : List ℕ → Read StreamFrame
unfolding read_name
read_ltx_frame stream = no_eof (read_full 8 stream) >>= λ size rest.
    read_name rest >>= λ name end. got (ltx_frame (to_be64 size 0) name) end

-- The method ReadFrom of DropDBStreamFrame.
unfoldable pub read_drop_db_frame : List ℕ → Read StreamFrame
unfolding read_name
read_drop_db_frame stream = read_name stream >>= λ name end. got (drop_db_frame name) end

-- The switch over the type.
unfoldable pub read_frame : ℕ → List ℕ → Read StreamFrame
unfolding read_ltx_frame read_drop_db_frame
read_frame typ stream =
    if typ == stream_frame_type_ltx
    then read_ltx_frame stream
    else (if typ == stream_frame_type_ready
        then got ready_frame stream
        else (if typ == stream_frame_type_end
            then got end_frame stream
            else (if typ == stream_frame_type_drop_db
                then read_drop_db_frame stream
                else invalid_type)))

-- func ReadStreamFrame(r io.Reader) (StreamFrame, error): at the end of the stream before a frame,
-- and only there, the error is io.EOF.
unfoldable pub read_stream_frame : List ℕ → Read StreamFrame
unfolding read_frame
read_stream_frame stream =
    read_full 4 stream >>= λ typ rest. no_eof (read_frame (to_be32 typ 0) rest)
