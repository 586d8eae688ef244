-- ===== src/Wal.antt =====
-- The write-ahead log of SQLite (litefs.go): WALChecksum and WALReader. The reader takes its bytes
-- from the front of a list, which holds all that the file will give.
pub mod Checksum
pub mod Fibonacci
pub mod Format
pub mod RoundTrip
mod Examples
use litefs.Prelude.{
  ℕ, ◌+◌, ◌-◌, ◌*◌, ◌%◌, ◌^◌, Option, none, some, List, [], ◌∷◌, length, take, drop, Bool, ◌&&◌,
  not, ◌==◌, if◌then◌else◌, to_be32, to_le32, Outcome, returns, ◌>>=◌,
}
use litefs.Reading.{Read, got, eof, unexpected_eof, invalid_type, read_full}

-- binary.ByteOrder, as the checksums use it.
pub data ByteOrder : Type 0 where
  little_endian big_endian : ByteOrder

abbrev pub uint32 : ByteOrder → List ℕ → ℕ → ℕ
uint32 little_endian b i = to_le32 b i
uint32 big_endian b i = to_be32 b i

-- The loop of WALChecksum: 8 bytes a round. Go's loop would read past a rest of fewer than 8 bytes,
-- which the assertion before it excludes.
unfoldable pub wal_sum : ByteOrder → ℕ × ℕ → List ℕ → ℕ × ℕ
wal_sum bo (s0, s1) (b0 ∷ b1 ∷ b2 ∷ b3 ∷ b4 ∷ b5 ∷ b6 ∷ b7 ∷ rest) =
    let t0 = (s0 + (uint32 bo (b0 ∷ b1 ∷ b2 ∷ b3 ∷ []) 0 + s1)) % 2 ^ 32 in
    wal_sum bo (t0, (s1 + (uint32 bo (b4 ∷ b5 ∷ b6 ∷ b7 ∷ []) 0 + t0)) % 2 ^ 32) rest
wal_sum bo s _ = s

-- `len(b)%8 == 0`
abbrev pub is_aligned : List ℕ → Bool
is_aligned b = length b % 8 == 0

abbrev pub wal_header_size : ℕ
wal_header_size = 32

abbrev pub wal_frame_header_size : ℕ
wal_frame_header_size = 24

-- func WALChecksum(bo binary.ByteOrder, s0, s1 uint32, b []byte) (uint32, uint32)
unfoldable pub wal_checksum : ByteOrder → ℕ × ℕ → List ℕ → Outcome (ℕ × ℕ)
unfolding wal_sum
wal_checksum bo s b = if is_aligned b then returns (wal_sum bo s b) else Outcome.panics

-- type WALReader
pub record WalReader : Type 0 where
  pub stream : List ℕ
  pub frame_n : ℕ
  pub bo : Option ByteOrder
  pub page_size : ℕ
  pub seq : ℕ
  pub salt1 : ℕ
  pub salt2 : ℕ
  pub chksum : ℕ × ℕ

-- func NewWALReader(r io.Reader) *WALReader; `bo` is nil until the magic number is read.
abbrev pub new_wal_reader : List ℕ → WalReader
new_wal_reader stream = record {
  stream = stream;
  frame_n = 0;
  bo = none;
  page_size = 0;
  seq = 0;
  salt1 = 0;
  salt2 = 0;
  chksum = (0, 0);
}

-- func (r *WALReader) Offset() int64
unfoldable pub offset : WalReader → ℕ
offset r =
    if r.frame_n == 0
    then 0
    else wal_header_size + (r.frame_n - 1) * (wal_frame_header_size + r.page_size)

-- What a method returns: a value, io.EOF, another error, or a failed assertion.
pub data WalRead {ℓ} (A : Type ℓ) : Type ℓ where
  ok : A → WalRead A
  at_end : WalRead A
  err : WalRead A
  panics : WalRead A

-- The switch over the magic number.
abbrev pub byte_order : ℕ → WalRead ByteOrder
byte_order magic =
    if magic == 0x377f0682
    then ok little_endian
    else (if magic == 0x377f0683 then ok big_endian else err)

abbrev pub same_sum : ℕ × ℕ → ℕ × ℕ → Bool
same_sum (a, b) (c, d) = a == c && b == d

-- The header with its checksum: the comparison, then the version.
abbrev pub summed_header :
    WalReader → List ℕ → ByteOrder → Outcome (ℕ × ℕ) → WalReader × WalRead (Unit {0})
summed_header r hdr bo (Outcome.panics) = (record r { bo = some bo }, panics)
summed_header r hdr bo (returns sum) =
    if not (same_sum sum (to_be32 hdr 24, to_be32 hdr 28))
    then (record r { bo = some bo }, at_end)
    else (if not (to_be32 hdr 4 == 3007000) then (record r { bo = some bo }, err) else (
      record r {
        bo = some bo;
        page_size = to_be32 hdr 8;
        seq = to_be32 hdr 12;
        salt1 = to_be32 hdr 16;
        salt2 = to_be32 hdr 20;
        chksum = (to_be32 hdr 24, to_be32 hdr 28);
      },
      ok tt,
    ))

-- The header after its magic number.
abbrev pub checked_header : WalReader → List ℕ → WalRead ByteOrder → WalReader × WalRead (Unit {0})
checked_header r hdr (ok bo) = summed_header r hdr bo (wal_checksum bo (0, 0) (take 24 hdr))
checked_header r hdr at_end = (r, at_end)
checked_header r hdr err = (r, err)
checked_header r hdr panics = (r, panics)

abbrev pub header_from : WalReader → Read (List ℕ) → WalReader × WalRead (Unit {0})
header_from r (got hdr rest) =
    checked_header (record r { stream = rest }) hdr (byte_order (to_be32 hdr 0))
header_from r eof = (r, at_end)
header_from r unexpected_eof = (record r { stream = [] }, at_end)
header_from r invalid_type = (r, err)

-- func (r *WALReader) ReadHeader() error
unfoldable pub read_header : WalReader → WalReader × WalRead (Unit {0})
unfolding wal_checksum
read_header r = header_from r (read_full wal_header_size r.stream)

-- A frame as ReadFrame returns it: pgno, commit and the page data.
pub record Frame : Type 0 where
  pub pgno : ℕ
  pub commit : ℕ
  pub bytes : List ℕ

-- The checksum after a frame: over the first 8 bytes of its header, and its data.
unfoldable pub frame_checksum : ByteOrder → ℕ × ℕ → List ℕ → List ℕ → Outcome (ℕ × ℕ)
unfolding wal_checksum
frame_checksum bo s hdr bytes = wal_checksum bo s (take 8 hdr) >>= λ s. wal_checksum bo s bytes

-- The frame with its checksum.
abbrev pub compared_frame :
    WalReader → List ℕ → List ℕ → Outcome (ℕ × ℕ) → WalReader × WalRead Frame
compared_frame r hdr bytes (Outcome.panics) = (r, panics)
compared_frame r hdr bytes (returns sum) =
    if not (same_sum sum (to_be32 hdr 16, to_be32 hdr 20))
    then (record r { chksum = sum }, at_end)
    else (
      record r { chksum = sum; frame_n = r.frame_n + 1 },
      ok (record { pgno = to_be32 hdr 0; commit = to_be32 hdr 4; bytes = bytes }),
    )

-- Without a byte order the checksum panics.
abbrev pub summed_frame : WalReader → List ℕ → List ℕ → Option ByteOrder → WalReader × WalRead Frame
summed_frame r hdr bytes none = (r, panics)
summed_frame r hdr bytes (some bo) =
    compared_frame r hdr bytes (frame_checksum bo r.chksum hdr bytes)

-- The salt, then the checksum.
abbrev pub checked_frame : WalReader → List ℕ → List ℕ → WalReader × WalRead Frame
checked_frame r hdr bytes =
    if not (same_sum (r.salt1, r.salt2) (to_be32 hdr 8, to_be32 hdr 12))
    then (r, at_end)
    else summed_frame r hdr bytes r.bo

abbrev pub data_from : WalReader → List ℕ → Read (List ℕ) → WalReader × WalRead Frame
data_from r hdr (got bytes rest) = checked_frame (record r { stream = rest }) hdr bytes
data_from r hdr eof = (record r { stream = [] }, at_end)
data_from r hdr unexpected_eof = (record r { stream = [] }, at_end)
data_from r hdr invalid_type = (r, err)

abbrev pub frame_from : WalReader → Read (List ℕ) → WalReader × WalRead Frame
frame_from r (got hdr rest) = data_from r hdr (read_full r.page_size rest)
frame_from r eof = (r, at_end)
frame_from r unexpected_eof = (record r { stream = [] }, at_end)
frame_from r invalid_type = (r, err)

-- func (r *WALReader) ReadFrame(data []byte) (pgno, commit uint32, err error) for a buffer of `n`
-- bytes
unfoldable pub read_frame : ℕ → WalReader → WalReader × WalRead Frame
unfolding frame_checksum
read_frame n r =
    if not (n == r.page_size)
    then (r, err)
    else frame_from r (read_full wal_frame_header_size r.stream)
