-- ===== src/Wal/Examples.antt =====
-- A log of two frames with pages of 8 bytes, and a frame that was cut off (litefs.go).
use litefs.Prelude.{◌≡◌, refl, List, [], ◌∷◌, ◌++◌, arith, ◌%◌, ◌^◌, returns}
use litefs.Wal.{
  big_endian, little_endian, Frame, WalReader, ok, at_end, new_wal_reader, read_header, read_frame,
  wal_sum, wal_checksum,
}
use litefs.Wal.Fibonacci.{spanned, wal_checksum-weighted}
use litefs.Wal.Format.{Log, wal_bytes}
use litefs.Wal.RoundTrip.{read_frames, wal_reader-wal_bytes}

abbrev log : Log
log = record { bo = big_endian; page_size = 8; seq = 1; salt1 = 17; salt2 = 18 }

abbrev frames : List Frame
frames =
    record { pgno = 1; commit = 0; bytes = 1 ∷ 2 ∷ 3 ∷ 4 ∷ 5 ∷ 6 ∷ 7 ∷ 8 ∷ [] }
    ∷ record { pgno = 2; commit = 2; bytes = 8 ∷ 7 ∷ 6 ∷ 5 ∷ 4 ∷ 3 ∷ 2 ∷ 1 ∷ [] }
    ∷ []

little_end_sum : wal_sum little_endian (0, 0) (1 ∷ 0 ∷ 0 ∷ 0 ∷ 2 ∷ 0 ∷ 0 ∷ 0 ∷ []) ≡ (1, 3)
unfolding wal_sum
little_end_sum = refl

wal_reader-wal_bytes_example :
    (r : WalReader) × (r' : WalReader) × (read_header
        (new_wal_reader (wal_bytes log frames ++ 0 ∷ 0 ∷ []))
      ≡ (r, ok tt))
    × (read_frames 2 8 r ≡ (r', ok frames))
    × ((read_frame 8 r').1 ≡ at_end)
wal_reader-wal_bytes_example =
    wal_reader-wal_bytes log frames (0 ∷ 0 ∷ [])
      (omega arith, omega arith, omega arith, omega arith, refl)
      ((omega arith, omega arith, refl), ((omega arith, omega arith, refl), tt)) (omega arith)

-- Four words from the seeds 1 and 2: the weights are 3, 2, 1 and 1.
wal_checksum-weighted_example :
    wal_checksum big_endian
      (1, 2)
      (255 ∷ 255 ∷ 255 ∷ 255 ∷ 0 ∷ 0 ∷ 0 ∷ 2 ∷ 0 ∷ 0 ∷ 1 ∷ 0 ∷ 0 ∷ 0 ∷ 0 ∷ 4 ∷ [])
    ≡ returns (
      spanned 1 2 (0xffffffff ∷ 2 ∷ 256 ∷ []) % 2 ^ 32,
      spanned 1 2 (0xffffffff ∷ 2 ∷ 256 ∷ 4 ∷ []) % 2 ^ 32,
    )
wal_checksum-weighted_example =
    wal_checksum-weighted big_endian 1 2
      (255 ∷ 255 ∷ 255 ∷ 255 ∷ 0 ∷ 0 ∷ 0 ∷ 2 ∷ 0 ∷ 0 ∷ 1 ∷ 0 ∷ 0 ∷ 0 ∷ 0 ∷ 4 ∷ []) (omega arith)
