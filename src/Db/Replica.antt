-- ===== src/Db/Replica.antt =====
-- What applying a transaction file does to a database (db.go, ApplyLTXNoLock): the new contents,
-- the new position, and the invariant between transactions.
use litefs.Prelude.{none, ℕ, ◌*◌, ◌≤◌, ◌≡◌, refl, sym, ◌∙◌, ◌≢◌, true, some, List}
use litefs.Disk.{File, truncate}
use litefs.Ltx.{Ltx, LtxFile}
use litefs.Db.State.{Db, ok, err, Error}
use litefs.Db.Checksum.{read_database_page, on_disk_upto}
use litefs.Db.Apply.{apply_ltx_no_lock}
use litefs.Db.Overlay.{ArePages, overlay}
use litefs.Db.Cut.{
  IsWellFormed, Covers, loop, cut, finished, loop-result, finish-ok, finish-mismatch,
  finished_checksum, same_value, finished-IsWellFormed, finished-contents,
}

-- What ApplyLTXNoLock makes of a file that the decoder accepts.
pub record AppliedLtx (ltx : Ltx) (db : Db) (f : LtxFile) : Type 0 where
  pub after : Db
  pub chksum : ℕ
  pub on_disk : on_disk_upto ltx after f.header.commit ≡ some chksum
  pub size : after.page_n ≡ f.header.commit
  pub file : File
  pub exists : after.database ≡ some file
  pub file_size : file.size ≡ f.header.commit * db.page_size
  pub same_page_size : after.page_size ≡ db.page_size
  pub no_frames : (p : ℕ) → after.wal.frame_offsets p ≡ none
  pub contents :
      (p : ℕ) (d : List ℕ)
      → 1 ≤ p
      → p ≤ f.header.commit
      → overlay f.pages (read_database_page db) p ≡ some d
      → read_database_page after p ≡ some d
  pub agrees :
      chksum ≡ f.post_apply_checksum
      → (apply_ltx_no_lock ltx f db ≡ (after, ok tt))
        × (after.pos
            ≡ record { txid = f.header.max_txid; post_apply_checksum = f.post_apply_checksum })
        × IsWellFormed ltx after
  pub disagrees :
      chksum ≢ f.post_apply_checksum
      → (rejected : Db) × (apply_ltx_no_lock ltx f db ≡ (rejected, err Error.apply_mismatch))
        × (rejected.database ≡ some file)
        × (rejected.chksums ≡ after.chksums)
        × (rejected.page_n ≡ f.header.commit)
        × (rejected.wal ≡ db.wal)
        × (rejected.pos ≡ db.pos)
        × (rejected.ltx_dir ≡ db.ltx_dir)
        × (rejected.shm ≡ db.shm)
        × (rejected.marked ≡ db.marked)

-- Take a well-formed database and a transaction file that the decoder accepts, with pages numbered
-- from 1 to its commit size and of the database's page size, among them all by which the database
-- grows but the lock page (which is not page 1). Then the database file has the commit size times
-- the page size bytes, and each of its pages that the transaction file has, or that the old
-- database had, is the transaction file's last one, or the old one. If the checksum of these pages
-- is the file's post-apply checksum, the call succeeds, the position is the file's last transaction
-- with that checksum, and the database is well formed. If it differs, the call fails: the same
-- database file and page checksums, and the new size, are left, and the position, the transaction
-- files, the WAL's state and the SHM file stay.
pub apply_ltx_no_lock_correct :
    (ltx : Ltx) (db : Db) (f : LtxFile)
    → IsWellFormed ltx db
    → ltx.lock_pgno db.page_size ≢ 1
    → ArePages db.page_size f.header.commit f.pages
    → Covers ltx db f
    → ltx.accepts f ≡ true
    → AppliedLtx ltx db f
unfolding truncate
apply_ltx_no_lock_correct ltx db f v n pages covers a = record {
  after = finished ltx db f v n pages covers;
  chksum = (finished_checksum ltx db f v n pages covers).0;
  on_disk = (finished_checksum ltx db f v n pages covers).1.1;
  size = refl;
  file = truncate (loop ltx db f v n pages covers).file (f.header.commit * db.page_size);
  exists = refl;
  file_size = refl;
  same_page_size = refl;
  no_frames = v.no_wal.no_frames;
  contents = finished-contents ltx db f v n pages covers;
  agrees = λ c. (
    loop-result ltx db f v n pages covers
        ∙ finish-ok ltx db f v n pages covers a (sym (same_value ltx db f v n pages covers) ∙ c),
    refl,
    finished-IsWellFormed ltx db f v n pages covers,
  );
  disagrees = λ c. (
    cut ltx db f v n pages covers,
    loop-result ltx db f v n pages covers
        ∙ finish-mismatch ltx db f v n pages covers a
            (λ e. c (same_value ltx db f v n pages covers ∙ e)),
    refl,
    refl,
    refl,
    refl,
    refl,
    refl,
    refl,
    refl,
  );
}
