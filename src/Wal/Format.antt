-- ===== src/Wal/Format.antt =====
-- The bytes of a WAL as SQLite writes them, in the format that WALReader (litefs.go) reads.
use litefs.Prelude.{ℕ, ◌%◌, ◌^◌, ◌<◌, ◌≡◌, List, [], ◌∷◌, ◌++◌, length, take, be32}
use litefs.Wal.{ByteOrder, little_endian, big_endian, Frame, wal_sum}

-- What the frames of a WAL share.
pub record Log : Type 0 where
  pub bo : ByteOrder
  pub page_size : ℕ
  pub seq : ℕ
  pub salt1 : ℕ
  pub salt2 : ℕ

abbrev pub magic : ByteOrder → ℕ
magic little_endian = 0x377f0682
magic big_endian = 0x377f0683

abbrev pub sum_bytes : ℕ × ℕ → List ℕ
sum_bytes (a, b) = be32 a ++ be32 b

abbrev pub header_fields : Log → List ℕ
header_fields l =
    be32 (magic l.bo)
    ++ be32 3007000
    ++ be32 l.page_size
    ++ be32 l.seq
    ++ be32 l.salt1
    ++ be32 l.salt2

abbrev pub header_sum : Log → ℕ × ℕ
header_sum l = wal_sum l.bo (0, 0) (header_fields l)

abbrev pub header_bytes : Log → List ℕ
header_bytes l = header_fields l ++ sum_bytes (header_sum l)

abbrev pub frame_fields : Log → Frame → List ℕ
frame_fields l f = be32 f.pgno ++ be32 f.commit ++ be32 l.salt1 ++ be32 l.salt2

-- The checksum of the first 8 bytes of a frame's header and its page, from the one before it.
unfoldable pub frame_sum : ByteOrder → ℕ × ℕ → List ℕ → List ℕ → ℕ × ℕ
frame_sum bo s hdr bytes = wal_sum bo (wal_sum bo s (take 8 hdr)) bytes

-- The checksum after a frame, from the one before it.
abbrev pub sum_after : Log → ℕ × ℕ → Frame → ℕ × ℕ
sum_after l s f = frame_sum l.bo s (frame_fields l f) f.bytes

abbrev pub frame_header : Log → ℕ × ℕ → Frame → List ℕ
frame_header l s f = frame_fields l f ++ sum_bytes (sum_after l s f)

abbrev pub frame_bytes : Log → ℕ × ℕ → Frame → List ℕ
frame_bytes l s f = frame_header l s f ++ f.bytes

abbrev pub frames_bytes : Log → ℕ × ℕ → List Frame → List ℕ
frames_bytes l s [] = []
frames_bytes l s (f ∷ fs) = frame_bytes l s f ++ frames_bytes l (sum_after l s f) fs

abbrev pub wal_bytes : Log → List Frame → List ℕ
wal_bytes l fs = header_bytes l ++ frames_bytes l (header_sum l) fs

-- The fields fit 32 bits, and pages are a multiple of 8 bytes.
abbrev pub FitsLog : Log → Type 0
FitsLog l =
    (l.page_size < 2 ^ 32)
    × (l.seq < 2 ^ 32)
    × (l.salt1 < 2 ^ 32)
    × (l.salt2 < 2 ^ 32)
    × (l.page_size % 8 ≡ 0)

abbrev pub FitsFrame : Log → Frame → Type 0
FitsFrame l f = (f.pgno < 2 ^ 32) × (f.commit < 2 ^ 32) × (length f.bytes ≡ l.page_size)
