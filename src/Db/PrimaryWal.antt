-- ===== src/Db/PrimaryWal.antt =====
-- CommitWAL (db.go) as a whole, on the primary.
use litefs.Prelude.{◌%◌, ◌^◌, ℕ, ◌+◌, ◌≡◌, refl, ◌∙◌, ◌≢◌, true, false, none, some, List}
use litefs.Ltx.{renamed, Ltx}
use litefs.Db.State.{Db, Store, ok, err, Error}
use litefs.Db.Checksum.{on_disk_upto, read_page}
use litefs.Db.Overlay.{overlay}
use litefs.Db.Sums.{Agrees}
use litefs.Db.TxFrames.{TxFrames}
use litefs.Db.CommitWal.{commit_wal, next_wal_file, advanced}
use litefs.Db.Frames.{untouched, framed}
use litefs.Db.CommittedWal.{
  InWalTransaction, copied, post, after, page_moved, page_kept, page_after, commit_wal-accepted,
  commit_wal-refused, after-Agrees, after-on_disk,
}

-- What CommitWAL makes of a transaction that leaves `tx.commit` pages.
pub record CommittedWalTx (store : Store) (ltx : Ltx) (db : Db) (tx : TxFrames) : Type 0 where
  pub pages : List (ℕ × List ℕ)
  pub chksum : ℕ
  pub committed : Db
  pub contents :
      (p : ℕ) (d : List ℕ)
      → p ≢ ltx.lock_pgno db.page_size
      → overlay pages (λ _. none) p ≡ some d
      → read_page committed p ≡ some d
  pub others :
      (p : ℕ)
      → p ≢ ltx.lock_pgno db.page_size
      → overlay pages (λ _. none) p ≡ none
      → read_page committed p ≡ read_page db p
  pub on_disk : on_disk_upto ltx committed tx.commit ≡ some chksum
  pub in_memory : Agrees ltx committed (λ _. none) tx.commit committed
  pub succeeds :
      ltx.accepts (next_wal_file store db tx pages chksum) ≡ true
      → commit_wal store ltx db ≡ (committed, ok tt)
  pub position :
      committed.pos ≡ record { txid = (db.pos.txid + 1) % 2 ^ 64; post_apply_checksum = chksum }
  pub appended : committed.ltx_dir ≡ renamed (next_wal_file store db tx pages chksum) db.ltx_dir
  pub same_files : (committed.database ≡ db.database) × (committed.wal_file ≡ db.wal_file)
  pub size : committed.page_n ≡ tx.commit
  pub read_on : committed.wal.offset ≡ tx.end_offset
  pub fails :
      ltx.accepts (next_wal_file store db tx pages chksum) ≡ false
      → commit_wal store ltx db ≡ (db, err Error.bad_ltx)

-- Take the primary with a transaction in the WAL: the scan of the WAL file from the last offset
-- finds frames that end with a commit, the checksums in memory are those of the pages of the
-- database, the pages that the transaction adds have frames, and the lock page is not page 1. The
-- new transaction file has the number after the position (modulo 2 ^ 64), the position's checksum
-- before it, and the part of the WAL from the last offset. If the encoder accepts the file,
-- CommitWAL succeeds: the file is added, the position is the file's transaction and checksum, the
-- scan goes on after the transaction. A page is then read as the file has it, and a page that it
-- does not have as before (the lock page aside); the checksums in memory are those of the pages
-- again, and the file's checksum is the one of all the pages. Neither the database file nor the WAL
-- file changes. If the encoder fails, so does CommitWAL, and nothing changes.
pub commit_wal_correct :
    (store : Store) (ltx : Ltx) (db : Db) (tx : TxFrames)
    → InWalTransaction ltx db tx
    → ltx.lock_pgno db.page_size ≢ 1
    → CommittedWalTx store ltx db tx
unfolding advanced
commit_wal_correct store ltx db tx t n =
    let c = copied store ltx db tx t n in
    record {
      pages = c.pages;
      chksum = (post store ltx db tx t n).0;
      committed = after store ltx db tx t n;
      contents = λ p d m o. elim (c.copies (λ _. none) db.wal.frame_offsets (λ _. none) p m) [
        | untouched page off sum ↦ cc (page, o)
        | framed d' off page at_off sum read ↦
            page_after store ltx db tx t n p
            ∙ page_moved store ltx db tx t n p off d' at_off read
            ∙ cc (page, o)
      ];
      others = λ p m o. elim (c.copies (λ _. none) db.wal.frame_offsets (λ _. none) p m) [
        | untouched page off sum ↦
            page_after store ltx db tx t n p ∙ page_kept store ltx db tx t n p off
        | framed d off page at_off sum read ↦ cc (page, o)
      ];
      on_disk = after-on_disk store ltx db tx t n;
      in_memory = after-Agrees store ltx db tx t n;
      succeeds = commit_wal-accepted store ltx db tx t n;
      position = refl;
      appended = refl;
      same_files = (refl, refl);
      size = refl;
      read_on = refl;
      fails = commit_wal-refused store ltx db tx t n;
    }
