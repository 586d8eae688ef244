-- ===== src/Db/WalWrites.antt =====
-- Writes of SQLite to the WAL file (db.go): WriteWALAt with writeWALHeader, writeWALFrameHeader and
-- writeWALFrameData, TruncateWAL and RemoveWAL.
use litefs.Prelude.{ℕ, not, Option, none, some, List, [], length, ltb, ◌==◌, if◌then◌else◌, to_be32}
use litefs.Disk.{write_at, truncate}
use litefs.Wal.{ByteOrder, little_endian, big_endian, wal_header_size}
use litefs.Db.State.{
  Wal, Store, M, Error, ◌>>=◌, ◌>>◌, return, get, put, modify, require, assert, from_option,
  writeable,
}

-- `f.WriteAt(data, offset)` on a handle of the WAL file.
unfoldable pub write_wal : List ℕ → ℕ → M (Unit {0})
write_wal bytes offset = do
  db ← get
  f ← from_option Error.os db.wal_file
  put (record db { wal_file = some (write_at f bytes offset) })

-- The fields of `db.wal` after a header is written.
abbrev pub restarted : ByteOrder → List ℕ → Wal
restarted bo bytes = record {
  offset = wal_header_size;
  byte_order = bo;
  salt1 = to_be32 bytes 16;
  salt2 = to_be32 bytes 20;
  chksum1 = to_be32 bytes 24;
  chksum2 = to_be32 bytes 28;
  frame_offsets = λ _. none;
  chksums = λ _. [];
}

abbrev pub header_order : ℕ → Option ByteOrder
header_order magic =
    if magic == 0x377f0682
    then some little_endian
    else (if magic == 0x377f0683 then some big_endian else none)

-- func (db *DB) writeWALHeader(ctx, f *os.File, data []byte, offset int64, owner uint64) (err error)
unfoldable pub write_wal_header : List ℕ → ℕ → M (Unit {0})
unfolding write_wal
write_wal_header bytes offset = do
  require (length bytes == wal_header_size) Error.bad_wal_write
  bo ← from_option Error.bad_wal_write (header_order (to_be32 bytes 0))
  modify (λ db. record db { wal = restarted bo bytes })
  write_wal bytes offset

-- func (db *DB) writeWALFrameHeader(...) and func (db *DB) writeWALFrameData(...), which do the same.
unfoldable pub write_wal_frame : List ℕ → ℕ → M (Unit {0})
unfolding write_wal
write_wal_frame bytes offset = do
  db ← get
  require (not (ltb offset db.wal.offset)) Error.bad_wal_write
  write_wal bytes offset

-- func (db *DB) WriteWALAt(ctx, f *os.File, data []byte, offset int64, owner uint64) (err error)
unfoldable pub write_wal_at : Store → List ℕ → ℕ → M (Unit {0})
unfolding writeable write_wal_header write_wal_frame
write_wal_at store bytes offset = do
  db ← get
  require (writeable store db) Error.read_only_replica
  if length bytes == 0
      then return tt
      else (assert (not (db.page_size == 0))
          >> (if offset == 0 then write_wal_header bytes offset else write_wal_frame bytes offset))

-- func (db *DB) TruncateWAL(ctx context.Context, size int64) (err error)
unfoldable pub truncate_wal : ℕ → M (Unit {0})
truncate_wal size = do
  require (size == 0) Error.bad_wal_write
  db ← get
  f ← from_option Error.os db.wal_file
  put (record db {
    wal_file = some (truncate f size);
    wal = record (db.wal) { frame_offsets = λ _. none; chksums = λ _. [] };
  })

-- func (db *DB) RemoveWAL(ctx context.Context) (err error)
unfoldable pub remove_wal : M (Unit {0})
remove_wal = do
  db ← get
  f ← from_option Error.os db.wal_file
  put (record db {
    wal_file = none;
    wal = record (db.wal) { frame_offsets = λ _. none; chksums = λ _. [] };
  })
