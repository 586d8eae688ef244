-- ===== src/Chunk.antt =====
-- A stream of chunks (internal/chunk/chunk.go): Writer and Reader. The stream below is a list of
-- bytes; errors of its connection, other than its end, are not modelled.
pub mod Frames
pub mod RoundTrip
mod Truncation
mod Examples
use litefs.Prelude.{
  ℕ, zero, suc, ◌+◌, min, List, [], ◌∷◌, ◌++◌, length, take, drop, get_or, ltb, Bool, true, false,
  ◌==◌, if◌then◌else◌, be16, to_be16,
}
use litefs.Disk.{bytes_from}
use litefs.Reading.{Read, got, eof, unexpected_eof, invalid_type, ◌>>=◌, read_full, no_eof}

-- const EOF
abbrev pub eof_size : ℕ
eof_size = 0

-- const MaxChunkSize
abbrev pub max_chunk_size : ℕ
max_chunk_size = 65535

-- type Writer: `out` is what it has written to the stream.
pub record Writer : Type 0 where
  pub out : List ℕ
  pub closed : Bool

-- func NewWriter(w io.Writer) *Writer
abbrev pub new_writer : Writer
new_writer = record { out = []; closed = false }

-- The loop of Write, one round for each unit of fuel.
unfoldable pub write_chunks : ℕ → List ℕ → List ℕ
write_chunks zero p = []
write_chunks (suc n) [] = []
write_chunks (suc n) (b ∷ p) =
    let chunk = take max_chunk_size (b ∷ p) in
    be16 (length chunk) ++ (chunk ++ write_chunks n (drop max_chunk_size (b ∷ p)))

-- func (w *Writer) Write(p []byte) (n int, err error): each round writes a byte at least.
unfoldable pub write : List ℕ → Writer → Writer
unfolding write_chunks
write p w = record w { out = w.out ++ write_chunks (length p) p }

-- func (w *Writer) Close() error
unfoldable pub close : Writer → Writer
close w = if w.closed then w else record { out = w.out ++ be16 eof_size; closed = true }

-- type Reader: `stream` is what the reader below has left, and `b` the underlying buffer by index, of
-- which `buf` is a slice.
pub record Reader : Type 0 where
  pub stream : List ℕ
  pub b : ℕ → ℕ
  pub buf : List ℕ
  pub at_eof : Bool

-- func NewReader(r io.Reader) *Reader
abbrev pub new_reader : List ℕ → Reader
new_reader stream = record { stream = stream; b = λ _. 0; buf = []; at_eof = false }

-- The state after a call of Read with the bytes copied, or with io.EOF, or another error.
pub data ReadResult : Type 0 where
  copied : Reader → List ℕ → ReadResult
  ended : Reader → ReadResult
  failed : ReadResult

-- `n = copy(p, r.buf); r.buf = r.buf[n:]` for a `p` of `n` bytes
abbrev pub copy_out : ℕ → Reader → ReadResult
copy_out n r = copied (record r { buf = drop n r.buf }) (take n r.buf)

-- The buffer with a chunk at its front.
abbrev pub filled : List ℕ → (ℕ → ℕ) → ℕ → ℕ
filled chunk b i = if ltb i (length chunk) then get_or chunk i 0 else b i

-- The chunk after its size: `r.buf = r.b[:size]`, then io.ReadFull into it, whose error is returned
-- as it is. io.EOF is its error if the stream ends before the first byte, and `buf` has the old
-- bytes then.
abbrev pub refill : ℕ → ℕ → Reader → Read (List ℕ) → ReadResult
refill n size r (got chunk rest) =
    copy_out n (record r { stream = rest; b = filled chunk r.b; buf = chunk })
refill n size r eof = ended (record r { stream = []; buf = bytes_from r.b 0 size })
refill n size r unexpected_eof = failed
refill n size r invalid_type = failed

abbrev pub next_chunk : ℕ → Reader → Read (List ℕ) → ReadResult
next_chunk n r (got size rest) =
    if to_be16 size 0 == eof_size
    then ended (record r { stream = rest; at_eof = true })
    else refill n (to_be16 size 0) r (read_full (to_be16 size 0) rest)
next_chunk n r eof = failed
next_chunk n r unexpected_eof = failed
next_chunk n r invalid_type = failed

abbrev pub read_buffered : ℕ → Reader → List ℕ → ReadResult
read_buffered n r (b ∷ buf) = copy_out n r
read_buffered n r [] = if r.at_eof then ended r else next_chunk n r (read_full 2 r.stream)

-- func (r *Reader) Read(p []byte) (n int, err error) for a `p` of `n` bytes
unfoldable pub read : ℕ → Reader → ReadResult
read n r = read_buffered n r r.buf

-- Reading with buffers of `n` bytes until io.EOF, as io.ReadAll and io.Copy do: all bytes, and what
-- the stream has left. One call of Read for each unit of fuel.
unfoldable pub read_all : ℕ → ℕ → Reader → Read (List ℕ)
unfolding read
read_all n zero r = unexpected_eof
read_all n (suc fuel) r = elim (read n r) [
  | copied r' bytes ↦ read_all n fuel r' >>= λ more rest. got (bytes ++ more) rest
  | ended r' ↦ got [] r'.stream
  | failed ↦ unexpected_eof
]
