-- ===== src/Db/Apply.antt =====
-- Applying a transaction file (db.go): ApplyLTXNoLock, updateSHM and WriteLTXFileAt.
use litefs.Prelude.{
  ℕ, ◌+◌, ◌%◌, ◌^◌, Bool, ◌&&◌, Option, none, some, List, [], ◌∷◌, ◌==◌, if◌then◌else◌, get_or,
}
use litefs.Locks.Acquire.{DbMode, wal}
use litefs.Ltx.{renamed, Ltx, LtxFile}
use litefs.Db.State.{
  Pos, Shm, M, Error, ◌>>=◌, ◌>>◌, return, get, put, modify, require, from_option,
}
use litefs.Db.Checksum.{checksum}
use litefs.Db.Pages.{write_database_page, truncate_database}

-- func encodePageSize(sz uint32) uint16 (litefs.go)
unfoldable pub encode_page_size : ℕ → ℕ
encode_page_size sz = if sz == 65536 then 1 else sz % 2 ^ 16

abbrev pub zero_shm : Option Shm → Shm
zero_shm none = record { change = 0; big_end_cksum = 0; page_size = 0; page_n = 0 }
zero_shm (some shm) = shm

-- func (db *DB) updateSHM(ctx context.Context) error
unfoldable pub update_shm : M (Unit {0})
unfolding encode_page_size
update_shm = modify λ db. record db {
  shm = some (record {
    change = ((zero_shm db.shm).change + 1) % 2 ^ 32;
    big_end_cksum = (zero_shm db.shm).big_end_cksum;
    page_size = encode_page_size db.page_size;
    page_n = db.page_n;
  });
}

-- Page 1 says that the database is in WAL mode: its write and read versions are 2.
unfoldable pub says_wal : ℕ → List ℕ → Bool
says_wal pgno bytes = pgno == 1 && get_or bytes 18 0 == 2 && get_or bytes 19 0 == 2

abbrev pub mode_after : DbMode → List (ℕ × List ℕ) → DbMode
mode_after mode [] = mode
mode_after mode ((pgno, bytes) ∷ ps) = mode_after (if says_wal pgno bytes then wal else mode) ps

-- The loop over the pages of the file.
unfoldable pub apply_pages : Ltx → List (ℕ × List ℕ) → M (Unit {0})
apply_pages ltx [] = return tt
apply_pages ltx ((pgno, bytes) ∷ ps) = write_database_page ltx pgno bytes >> apply_pages ltx ps

unfoldable pub set_pos : Pos → M (Unit {0})
set_pos pos = modify λ db. record db { pos = pos }

unfoldable pub mark_dirty : M (Unit {0})
mark_dirty = modify λ db. record db { marked = db.marked + 1 }

-- After the loop: the decoder is closed, the file cut to its new size and the checksum compared.
unfoldable pub finish_apply : Ltx → LtxFile → DbMode → M (Unit {0})
unfolding set_pos mark_dirty update_shm truncate_database
finish_apply ltx f mode = do
  require (ltx.accepts f) Error.bad_ltx
  truncate_database f.header.commit
  modify (λ db. record db { mode = mode })
  db ← get
  chksum ← from_option Error.missing_checksum (checksum ltx db f.header.commit (λ _. none))
  require (chksum == f.post_apply_checksum) Error.apply_mismatch
  set_pos (record { txid = f.header.max_txid; post_apply_checksum = f.post_apply_checksum })
  update_shm
  mark_dirty

-- func (db *DB) ApplyLTXNoLock(ctx context.Context, path string) error. A file that the decoder
-- refuses is refused where the decoder is closed.
unfoldable pub apply_ltx_no_lock : Ltx → LtxFile → M (Unit {0})
unfolding apply_pages finish_apply
apply_ltx_no_lock ltx f = do
  db ← get
  file ← from_option Error.os db.database
  put (record db { page_size = if db.page_size == 0 then f.header.page_size else db.page_size })
  apply_pages ltx f.pages
  finish_apply ltx f (mode_after db.mode f.pages)

-- func (db *DB) WriteLTXFileAt(ctx context.Context, r io.Reader) (string, error)
unfoldable pub write_ltx_file_at : Ltx → LtxFile → M LtxFile
write_ltx_file_at ltx f = do
  db ← get
  require (f.header.min_txid == (db.pos.txid + 1) % 2 ^ 64) Error.non_sequential
  require (f.header.pre_apply_checksum == db.pos.post_apply_checksum) Error.pre_apply_mismatch
  require (ltx.accepts f) Error.bad_ltx
  put (record db { ltx_dir = renamed f db.ltx_dir })
  return f
