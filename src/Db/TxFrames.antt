-- ===== src/Db/TxFrames.antt =====
-- The frames of a transaction in the WAL file (db.go, buildTxFrameOffsets). A Go map of offsets is
-- a list of its entries in the order of their keys, which is also the order in which CommitWAL
-- sorts them.
use litefs.Prelude.{
  ℕ, zero, suc, ◌+◌, not, Option, none, some, List, [], ◌∷◌, take, drop, length, ltb, ◌==◌,
  if◌then◌else◌, to_be32,
}
use litefs.Disk.{File, read_full_at}
use litefs.Prelude.{Outcome, returns, ◌>>=◌}
use litefs.Wal.{wal_checksum, same_sum, wal_frame_header_size}
use litefs.Db.State.{Db}

abbrev pub Offsets : Type 0
Offsets = List (ℕ × ℕ)

-- `m[pgno] = offset`
abbrev pub put_offset : ℕ → ℕ → Offsets → Offsets
put_offset pgno off [] = (pgno, off) ∷ []
put_offset pgno off ((q, o) ∷ m) =
    let rest = put_offset pgno off m in
    if pgno == q
    then (pgno, off) ∷ m
    else (if ltb pgno q then (pgno, off) ∷ (q, o) ∷ m else (q, o) ∷ rest)

-- What buildTxFrameOffsets returns for a transaction.
pub record TxFrames : Type 0 where
  pub offsets : Offsets
  pub commit : ℕ
  pub chksum : ℕ × ℕ
  pub end_offset : ℕ

pub data TxScan : Type 0 where
  found : TxFrames → TxScan
  no_transaction : TxScan
  panics : TxScan

-- The checksum after a frame.
unfoldable pub next_sum : Db → ℕ × ℕ → List ℕ → Outcome (ℕ × ℕ)
unfolding wal_checksum
next_sum db s frame = wal_checksum db.wal.byte_order s (take 8 frame) >>= λ s.
    wal_checksum db.wal.byte_order s (drop 24 frame)

-- A frame whose checksum is right: the end of the transaction, or the next round.
abbrev pub accept_frame : (Offsets → ℕ → ℕ × ℕ → TxScan) → Offsets → ℕ → ℕ × ℕ → List ℕ → TxScan
accept_frame next m off sum frame =
    if to_be32 frame 4 == 0
    then next (put_offset (to_be32 frame 0) off m) (off + length frame) sum
    else found (record {
      offsets = put_offset (to_be32 frame 0) off m;
      commit = to_be32 frame 4;
      chksum = sum;
      end_offset = off + length frame;
    })

-- The comparison of the checksum.
abbrev pub compare_sum :
    (Offsets → ℕ → ℕ × ℕ → TxScan) → Offsets → ℕ → List ℕ → Outcome (ℕ × ℕ) → TxScan
compare_sum next m off frame (Outcome.panics) = panics
compare_sum next m off frame (returns sum) =
    if not (same_sum sum (to_be32 frame 16, to_be32 frame 20))
    then no_transaction
    else accept_frame next m off sum frame

-- A round of the loop.
abbrev pub scan_frame :
    (Offsets → ℕ → ℕ × ℕ → TxScan) → Db → Offsets → ℕ → ℕ × ℕ → Option (List ℕ) → TxScan
scan_frame next db m off s none = no_transaction
scan_frame next db m off s (some frame) =
    if not (same_sum (db.wal.salt1, db.wal.salt2) (to_be32 frame 8, to_be32 frame 12))
    then no_transaction
    else compare_sum next m off frame (next_sum db s frame)

-- The loop, one round for each unit of fuel.
unfoldable pub scan_frames : ℕ → Db → File → Offsets → ℕ → ℕ × ℕ → TxScan
unfolding next_sum
scan_frames zero db f m off s = no_transaction
scan_frames (suc n) db f m off s =
    scan_frame (scan_frames n db f) db m off s
      (read_full_at f (wal_frame_header_size + db.page_size) off)

-- func (db *DB) buildTxFrameOffsets(walFile *os.File): a round reads a frame within the file and
-- goes on after it, so there are fewer rounds than the file has bytes.
unfoldable pub build_tx_frame_offsets : Db → File → TxScan
unfolding scan_frames
build_tx_frame_offsets db f =
    scan_frames (suc f.size) db f [] db.wal.offset (db.wal.chksum1, db.wal.chksum2)
