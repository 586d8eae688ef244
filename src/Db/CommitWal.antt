-- ===== src/Db/CommitWal.antt =====
-- Committing a transaction of the WAL (db.go): CommitWAL, and UnlockSHM's call of it.
use litefs.Prelude.{
  ℕ, zero, suc, ◌+◌, ◌-◌, ◌%◌, ◌^◌, Option, none, some, List, [], ◌∷◌, ◌++◌, drop, ◌==◌,
  if◌then◌else◌, to_be32, update,
}
use litefs.Disk.{File, read_full_at}
use litefs.Wal.{wal_frame_header_size}
use litefs.Ltx.{renamed, Ltx, LtxFile}
use litefs.Db.State.{
  Db, Wal, Store, M, Result, Error, ◌>>=◌, ◌>>◌, return, get, modify, require, from_option,
}
use litefs.Db.Checksum.{checksum, page_checksum, read_page, on_disk_checksum}
use litefs.Db.Apply.{set_pos, mark_dirty}
use litefs.Db.Journal.{send_to_primary}
use litefs.Db.TxFrames.{Offsets, TxFrames, TxScan, found, no_transaction, build_tx_frame_offsets}

-- The loop that copies the pages of the transaction, each from its last frame; the lock page is
-- skipped.
unfoldable pub copy_frames : Ltx → File → Offsets → M (List (ℕ × List ℕ))
copy_frames ltx f [] = return []
copy_frames ltx f ((pgno, off) ∷ m) = do
  db ← get
  if pgno == ltx.lock_pgno db.page_size then copy_frames ltx f m else (do
    frame ← from_option Error.read_page (read_full_at f (wal_frame_header_size + db.page_size) off)
    rest ← copy_frames ltx f m
    return ((to_be32 frame 0, drop 24 frame) ∷ rest))

-- `newWALChksums[pgno] = ltx.ChecksumPage(pgno, data)` for each of these pages.
unfoldable pub page_sums : Ltx → List (ℕ × List ℕ) → (ℕ → Option ℕ) → ℕ → Option ℕ
page_sums ltx [] new = new
page_sums ltx ((pgno, bytes) ∷ rest) new =
    page_sums ltx rest (update new pgno (some (ltx.checksum_page pgno bytes)))

-- `prevPageChksum, _ := db.pageChecksum(pgno, db.pageN, nil)`
abbrev pub value : Option ℕ → ℕ
value none = 0
value (some c) = c

-- The loop over the pages that the transaction cuts off, `n` of them from `pgno`: the checksum of
-- each must be the one in memory.
unfoldable pub truncated_sums : Ltx → ℕ → ℕ → (ℕ → Option ℕ) → M (ℕ → Option ℕ)
truncated_sums ltx zero pgno new = return new
truncated_sums ltx (suc n) pgno new = do
  db ← get
  if pgno == ltx.lock_pgno db.page_size then truncated_sums ltx n (suc pgno) new else (do
    page ← from_option Error.read_page (read_page db pgno)
    require (ltx.checksum_page pgno page == value (page_checksum ltx db pgno db.page_n (λ _. none)))
        Error.page_mismatch
    truncated_sums ltx n (suc pgno) (update new pgno (some 0)))

-- The transaction file, with the part of the WAL that it stands for.
unfoldable pub next_wal_file : Store → Db → TxFrames → List (ℕ × List ℕ) → ℕ → LtxFile
next_wal_file store db tx pages post = record {
  header = record {
    page_size = db.page_size;
    commit = tx.commit;
    min_txid = (db.pos.txid + 1) % 2 ^ 64;
    max_txid = (db.pos.txid + 1) % 2 ^ 64;
    pre_apply_checksum = db.pos.post_apply_checksum;
    wal_salt1 = db.wal.salt1;
    wal_salt2 = db.wal.salt2;
    wal_offset = db.wal.offset;
    wal_size = tx.end_offset - db.wal.offset;
    node_id = store.id;
  };
  pages = pages;
  post_apply_checksum = post;
}

-- `db.wal.frameOffsets[pgno] = off` for each entry.
unfoldable pub with_offsets : Offsets → (ℕ → Option ℕ) → ℕ → Option ℕ
with_offsets [] g = g
with_offsets ((pgno, off) ∷ m) g = with_offsets m (update g pgno (some off))

-- `append(db.wal.chksums[pgno], chksum)`
abbrev pub appended : Option ℕ → List ℕ → List ℕ
appended none cs = cs
appended (some c) cs = cs ++ (c ∷ [])

-- `db.wal` after the transaction.
unfoldable pub advanced : Wal → TxFrames → (ℕ → Option ℕ) → Wal
unfolding with_offsets
advanced w tx new = record w {
  frame_offsets = with_offsets tx.offsets w.frame_offsets;
  chksums = λ p. appended (new p) (w.chksums p);
  offset = tx.end_offset;
  chksum1 = tx.chksum.0;
  chksum2 = tx.chksum.1;
}

-- With StrictVerify the checksum of the database on disk is compared.
unfoldable pub strictly_verify_wal : Store → Ltx → ℕ → M (Unit {0})
strictly_verify_wal store ltx post = do
  db ← get
  if store.strict_verify
      then (do
        chksum ← from_option Error.read_page (on_disk_checksum ltx db)
        require (chksum == post) Error.verification_failed)
      else return tt

-- From the rename of the transaction file to the end.
unfoldable pub publish_wal : Store → Ltx → TxFrames → (ℕ → Option ℕ) → LtxFile → M (Unit {0})
unfolding set_pos mark_dirty strictly_verify_wal advanced
publish_wal store ltx tx new f = do
  modify (λ db. record db {
    ltx_dir = renamed f db.ltx_dir;
    wal = advanced db.wal tx new;
    page_n = tx.commit;
  })
  set_pos (record { txid = f.header.max_txid; post_apply_checksum = f.post_apply_checksum })
  mark_dirty
  strictly_verify_wal store ltx f.post_apply_checksum

-- The number of pages from commit + 1, a uint32, to the last page before.
abbrev pub cut_pages : ℕ → ℕ → ℕ
cut_pages first page_n = page_n + 1 - first

-- From the opening of the database file to the end.
unfoldable pub commit_frames : Store → Ltx → File → TxFrames → M (Unit {0})
unfolding copy_frames page_sums truncated_sums next_wal_file publish_wal send_to_primary
commit_frames store ltx f tx = do
  db ← get
  file ← from_option Error.os db.database
  pages ← copy_frames ltx f tx.offsets
  new ←
      truncated_sums ltx (cut_pages ((tx.commit + 1) % 2 ^ 32) db.page_n) ((tx.commit + 1) % 2 ^ 32)
        (page_sums ltx pages (λ _. none))
  post ← from_option Error.missing_checksum (checksum ltx db tx.commit new)
  require (ltx.accepts (next_wal_file store db tx pages post)) Error.bad_ltx
  send_to_primary store (next_wal_file store db tx pages post)
  publish_wal store ltx tx new (next_wal_file store db tx pages post)

abbrev pub commit_scanned : Store → Ltx → File → TxScan → M (Unit {0})
commit_scanned store ltx f (found tx) = commit_frames store ltx f tx
commit_scanned store ltx f no_transaction = return tt
commit_scanned store ltx f TxScan.panics = λ db. (db, Result.panics)

-- func (db *DB) CommitWAL(ctx context.Context) (err error)
unfoldable pub commit_wal : Store → Ltx → M (Unit {0})
unfolding build_tx_frame_offsets commit_frames
commit_wal store ltx = do
  db ← get
  f ← from_option Error.os db.wal_file
  commit_scanned store ltx f (build_tx_frame_offsets db f)
