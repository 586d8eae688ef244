-- ===== src/Db/Checkpoint.antt =====
-- Copying the WAL back to the database file (db.go): readWALPageOffsets and CheckpointNoLock.
use litefs.Prelude.{ℕ, zero, suc, ◌+◌, Option, none, some, [], ◌∷◌, length, ◌==◌, if◌then◌else◌}
use litefs.Disk.{File, read_full_at, bytes_from}
use litefs.Wal.{
  WalReader, new_wal_reader, WalRead, ok, at_end, err, panics, Frame, read_header, read_frame,
  offset, wal_frame_header_size,
}
use litefs.Ltx.{Ltx}
use litefs.Db.State.{Db, M, Result, Error, ◌>>=◌, ◌>>◌, return, fail, get, modify, from_option}
use litefs.Db.Pages.{write_database_page, truncate_database}
use litefs.Db.Apply.{update_shm}
use litefs.Db.TxFrames.{Offsets, put_offset}
use litefs.Db.WalWrites.{truncate_wal}

-- `for k, v := range txOffsets { offsets[k] = v }`
abbrev pub put_all : Offsets → Offsets → Offsets
put_all [] m = m
put_all ((k, v) ∷ tx) m = put_all tx (put_offset k v m)

-- A round of the loop, and the rounds that follow a frame.
abbrev pub next_offsets :
    (WalReader → Offsets → Offsets → ℕ → WalRead (Offsets × ℕ))
    → Offsets
    → Offsets
    → ℕ
    → WalReader × WalRead Frame
    → WalRead (Offsets × ℕ)
next_offsets next tx m last (r, ok f) =
    if f.commit == 0
    then next r (put_offset f.pgno (offset r) tx) m last
    else next r [] (put_all (put_offset f.pgno (offset r) tx) m) f.commit
next_offsets next tx m last (r, at_end) = ok (m, last)
next_offsets next tx m last (r, err) = err
next_offsets next tx m last (r, panics) = panics

-- The loop, one round for each unit of fuel.
unfoldable pub wal_offsets : ℕ → WalReader → Offsets → Offsets → ℕ → WalRead (Offsets × ℕ)
unfolding read_frame offset
wal_offsets zero r tx m last = ok (m, last)
wal_offsets (suc n) r tx m last = next_offsets (wal_offsets n) tx m last (read_frame r.page_size r)

-- After the header: only io.EOF ends the function here, any other error is not looked at.
abbrev pub offsets_after_header : WalReader × WalRead (Unit {0}) → WalRead (Offsets × ℕ)
offsets_after_header (r, at_end) = ok ([], 0)
offsets_after_header (r, ok x) = wal_offsets (suc (length r.stream)) r [] [] 0
offsets_after_header (r, err) = wal_offsets (suc (length r.stream)) r [] [] 0
offsets_after_header (r, panics) = panics

-- func (db *DB) readWALPageOffsets(f *os.File) (_ map[uint32]int64, lastCommit uint32, _ error): a
-- round takes a frame header at least from the file, so there are fewer rounds than bytes.
unfoldable pub read_wal_page_offsets : File → WalRead (Offsets × ℕ)
unfolding read_header wal_offsets bytes_from
read_wal_page_offsets f =
    offsets_after_header (read_header (new_wal_reader (bytes_from f.byte 0 f.size)))

-- The loop that copies pages to the database file. The numbers are different, so their order, which
-- Go leaves open, does not matter.
unfoldable pub copy_back : Ltx → File → Offsets → M (Unit {0})
unfolding write_database_page
copy_back ltx f [] = return tt
copy_back ltx f ((pgno, off) ∷ m) = do
  db ← get
  bytes ← from_option Error.read_page (read_full_at f db.page_size (off + wal_frame_header_size))
  write_database_page ltx pgno bytes
  copy_back ltx f m

-- `if len(offsets) > 0`
unfoldable pub copy_and_truncate : Ltx → File → Offsets → ℕ → M (Unit {0})
unfolding copy_back truncate_database
copy_and_truncate ltx f [] commit = return tt
copy_and_truncate ltx f (x ∷ m) commit = copy_back ltx f (x ∷ m) >> truncate_database commit

-- "Clear per-page checksums within WAL."
abbrev pub clear_wal_sums : Db → Db
clear_wal_sums db = record db { wal = record (db.wal) { chksums = λ _. [] } }

-- From the offsets to the end.
unfoldable pub checkpoint_offsets : Ltx → File → WalRead (Offsets × ℕ) → M (Unit {0})
unfolding copy_and_truncate truncate_wal update_shm
checkpoint_offsets ltx f (ok (m, commit)) =
    copy_and_truncate ltx f m commit >> (truncate_wal 0 >> (modify clear_wal_sums >> update_shm))
checkpoint_offsets ltx f at_end = fail Error.bad_wal
checkpoint_offsets ltx f err = fail Error.bad_wal
checkpoint_offsets ltx f panics = λ db. (db, Result.panics)

-- The database file and the WAL file; the function does nothing if one does not exist.
unfoldable pub checkpoint_files : Ltx → Option File → Option File → M (Unit {0})
unfolding read_wal_page_offsets checkpoint_offsets
checkpoint_files ltx none w = return tt
checkpoint_files ltx (some d) none = return tt
checkpoint_files ltx (some d) (some f) = checkpoint_offsets ltx f (read_wal_page_offsets f)

-- func (db *DB) CheckpointNoLock(ctx context.Context) (err error)
unfoldable pub checkpoint_no_lock : Ltx → M (Unit {0})
unfolding checkpoint_files
checkpoint_no_lock ltx = get >>= λ db. checkpoint_files ltx db.database db.wal_file
