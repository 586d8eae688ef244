-- ===== src/Db/Primary.antt =====
-- CommitJournal (db.go) as a whole, on the primary.
use litefs.Prelude.{◌%◌, ◌^◌, ℕ, ◌+◌, ◌≤◌, ◌≡◌, refl, ◌≢◌, true, false, none, some, List, to_be32}
use litefs.Ltx.{renamed, Ltx}
use litefs.Db.State.{Db, Store, ok, err, Error}
use litefs.Db.Checksum.{on_disk_upto, read_database_page, read_page}
use litefs.Db.Journal.{JournalMode, commit_journal, next_file, drop_sums}
use litefs.Db.Overlay.{ArePages, overlay}
use litefs.Db.Cut.{IsWellFormed}
use litefs.Db.Dirty.{Listed-sorted_upto, sorted_upto-Listed}
use litefs.Db.Committed.{
  InTransaction, copied, ready, ready_checksum, after, commit_journal-accepted,
  commit_journal-refused, after-IsWellFormed, same_page, after-on_disk,
}

-- What CommitJournal makes of a transaction that leaves `commit` pages.
pub record CommittedTx (store : Store) (ltx : Ltx) (mode : JournalMode) (db : Db) (commit : ℕ)
    : Type 0 where
  pub pages : List (ℕ × List ℕ)
  pub chksum : ℕ
  pub committed : Db
  pub are_pages : ArePages db.page_size commit pages
  pub contents :
      (p : ℕ) (d : List ℕ) → overlay pages (λ _. none) p ≡ some d → read_database_page db p ≡ some d
  pub only_dirty :
      (p : ℕ) (d : List ℕ)
      → overlay pages (λ _. none) p ≡ some d
      → (db.dirty_page_set p ≡ true) × (p ≢ ltx.lock_pgno db.page_size)
  pub all_dirty :
      (p : ℕ)
      → db.dirty_page_set p ≡ true
      → 1 ≤ p
      → p ≤ commit
      → p ≢ ltx.lock_pgno db.page_size
      → overlay pages (λ _. none) p ≢ none
  pub on_disk : on_disk_upto ltx committed commit ≡ some chksum
  pub succeeds :
      ltx.accepts (next_file store db commit pages chksum) ≡ true
      → (commit_journal store ltx mode db ≡ (committed, ok tt)) × IsWellFormed ltx committed
  pub position :
      committed.pos ≡ record { txid = (db.pos.txid + 1) % 2 ^ 64; post_apply_checksum = chksum }
  pub appended : committed.ltx_dir ≡ renamed (next_file store db commit pages chksum) db.ltx_dir
  pub same_file : committed.database ≡ db.database
  pub same_page_size : committed.page_size ≡ db.page_size
  pub no_frames : (p : ℕ) → committed.wal.frame_offsets p ≡ none
  pub reads : (p : ℕ) → read_page committed p ≡ read_database_page db p
  pub size : committed.page_n ≡ commit
  pub clean : (p : ℕ) → committed.dirty_page_set p ≡ false
  pub fails :
      ltx.accepts (next_file store db commit pages chksum) ≡ false
      → (left : Db) × (commit_journal store ltx mode db ≡ (left, err Error.bad_ltx))
        × (left.pos ≡ db.pos)
        × (left.ltx_dir ≡ db.ltx_dir)
        × (left.journal ≡ db.journal)

-- Take the primary, in a transaction of the rollback journal that SQLite has written: the checksums
-- in memory are those of the pages in the file, and there is one for each page up to the size that
-- page 1 names, but the lock page (which is not page 1); the WAL is empty. The new transaction file
-- has the number after the position (modulo 2 ^ 64) and the position's checksum before it, the
-- dirty pages up to that size, less the lock page, as they are on disk, and the checksum of all
-- pages on disk. If the encoder accepts the file, CommitJournal succeeds: the file is added, the
-- position is the file's transaction and checksum, nothing is dirty, the database file is as it
-- was, and the database is well formed. If the encoder fails, so does CommitJournal, and position,
-- transaction files and journal stay.
pub commit_journal_correct :
    (store : Store) (ltx : Ltx) (mode : JournalMode) (db : Db)
    → (t : InTransaction store ltx mode db) → ltx.lock_pgno db.page_size ≢ 1
    → CommittedTx store ltx mode db (to_be32 t.size_bytes 0)
unfolding read_database_page drop_sums
commit_journal_correct store ltx mode db t n =
    let c = copied store ltx mode db t n in
    let commit = to_be32 t.size_bytes 0 in
    record {
      pages = c.pages;
      chksum = (ready_checksum store ltx mode db t n).0;
      committed = after store ltx mode db t n;
      are_pages = c.are_pages;
      contents = c.contents;
      only_dirty = λ p d o.
          let (l, m) = c.listed p d o in (sorted_upto-Listed db.dirty_page_set p commit l, m);
      all_dirty =
          λ p s one le m. c.covers p (Listed-sorted_upto db.dirty_page_set p commit s one le) m;
      on_disk = after-on_disk store ltx mode db t n;
      succeeds = λ a. (
        commit_journal-accepted store ltx mode db t n a,
        after-IsWellFormed store ltx mode db t n,
      );
      position = refl;
      appended = refl;
      same_file = refl;
      same_page_size = refl;
      no_frames = t.no_frames;
      reads = λ p. same_page (after store ltx mode db t n) p (t.no_frames p);
      size = refl;
      clean = λ p. refl;
      fails = λ a. (
        ready store ltx mode db t n,
        commit_journal-refused store ltx mode db t n a,
        refl,
        refl,
        refl,
      );
    }
