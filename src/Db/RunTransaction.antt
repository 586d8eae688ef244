-- ===== src/Db/RunTransaction.antt =====
-- What a transaction of the rollback journal comes to on the primary (db.go), from the page writes of
-- SQLite through WriteDatabaseAt to CommitJournal.
use litefs.Prelude.{
  ℕ, ◌-◌, ◌*◌, ◌^◌, ◌≤◌, ◌<◌, ◌≡◌, refl, sym, ap, ◌∙◌, subst, ◌≢◌, ◌↔◌, inl, inr, true, false,
  Option, none, some, Option-cases, List, take, drop, arith, to_be32, equal_bytes, dec_le,
}
use litefs.Disk.{File, read_full_at, drop-read, take-read}
use litefs.Locks.Acquire.{rollback}
use litefs.Ltx.{Ltx}
use litefs.Db.State.{Db, Store, ok, writeable}
use litefs.Db.Checksum.{read_file, read_database_page}
use litefs.Db.Journal.{JournalMode, invalidated, journal_header_string, is_journal_header_valid}
use litefs.Db.WellFormed.{page_of}
use litefs.Db.Overlay.{ArePages, overlay, overlay_mono, Applied, apply_pages-Applied}
use litefs.Db.Cut.{IsWellFormed}
use litefs.Db.Committed.{InTransaction}
use litefs.Db.Primary.{CommittedTx, commit_journal_correct}
use litefs.Db.Transaction.{
  write_pages, write_pages-apply_pages, dirtied, overlay-dirtied, dirtied-overlay,
}

-- The size in page 1: 4 bytes at offset 28.
abbrev pub size_in : List ℕ → ℕ
size_in first = to_be32 (take 4 (drop 28 first)) 0

-- A transaction as SQLite runs it: whole pages with numbers from 1 to `n`, not the lock page; page
-- 1 has the size after the transaction, and the pages that the database grows by are written. The
-- journal has a header.
pub record IsTransaction (store : Store) (ltx : Ltx) (mode : JournalMode) (db : Db) (f : File)
    (ws : List (ℕ × List ℕ)) (first : List ℕ) : Type 0 where
  pub n : ℕ
  pub small : n < 2 ^ 32
  pub pages : ArePages db.page_size n ws
  pub no_lock_page : overlay ws (λ _. none) (ltx.lock_pgno db.page_size) ≡ none
  pub first_page : overlay ws (page_of db.page_size f) 1 ≡ some first
  pub has_header : 32 ≤ db.page_size
  pub not_empty : 1 ≤ size_in first
  pub grown :
      (p : ℕ)
      → db.page_n < p
      → p ≤ size_in first
      → p ≢ ltx.lock_pgno db.page_size
      → overlay ws (λ _. none) p ≢ none
  pub may_write : writeable store db ≡ true
  pub on_primary : db.remote_halt_lock ≡ none
  pub in_rollback_mode : db.mode ≡ rollback
  pub clean : (p : ℕ) → db.dirty_page_set p ≡ false
  pub no_lock_sum : db.chksums (ltx.lock_pgno db.page_size) ≡ none
  pub journal_file : File
  pub journal_exists : db.journal ≡ some journal_file
  pub journal_bytes : List ℕ
  pub journal_read : read_full_at journal_file 8 0 ≡ some journal_bytes
  pub journal_header : equal_bytes journal_bytes journal_header_string ≡ true
  pub journal : Option File
  pub invalidates : invalidated mode db.journal ≡ ok journal

-- What the writes and the commit come to.
pub record RunTransaction (store : Store) (ltx : Ltx) (mode : JournalMode) (db : Db)
    (ws : List (ℕ × List ℕ)) (commit : ℕ) : Type 0 where
  pub written : Db
  pub writes : write_pages store ltx db.page_size ws db ≡ (written, ok tt)
  pub same_pos : written.pos ≡ db.pos
  pub tx : CommittedTx store ltx mode written commit
  pub exactly :
      (p : ℕ)
      → 1 ≤ p
      → p ≤ commit
      → p ≢ ltx.lock_pgno db.page_size
      → overlay tx.pages (λ _. none) p ≡ overlay ws (λ _. none) p
  pub others :
      (p : ℕ) (d : List ℕ)
      → 1 ≤ p
      → overlay ws (read_database_page db) p ≡ some d
      → read_database_page tx.committed p ≡ some d

module _ (store : Store) (ltx : Ltx) (mode : JournalMode) (db : Db) (v : IsWellFormed ltx db)
    (ws : List (ℕ × List ℕ)) (first : List ℕ)
    (t : IsTransaction store ltx mode db v.file ws first) where
  pub loop : Applied ltx db v.file t.n ws
  loop = apply_pages-Applied ltx db v.file t.n ws v.exists v.sized t.pages v.matching

  abbrev pub written : Db
  written = record db {
    database = some loop.file;
    chksums = loop.sums;
    dirty_page_set = dirtied ws db.dirty_page_set;
  }

  writes : write_pages store ltx db.page_size ws db ≡ (written, ok tt)
  writes =
      write_pages-apply_pages store ltx t.n ws db
        (record db { database = some loop.file; chksums = loop.sums }) v.file db.dirty_page_set
        t.may_write t.in_rollback_mode v.exists v.sized t.small t.pages loop.result

  size_read : read_full_at loop.file 4 28 ≡ some (take 4 (drop 28 first))
  size_read = take-read loop.file 4 (db.page_size - 32) 28 (drop 28 first) (omega arith) (
      subst (λ k. read_full_at loop.file k 28 ≡ some (drop 28 first)) (omega (arith, t.has_header))
        (drop-read loop.file 28 (db.page_size - 28) 0 first (omega (arith, t.has_header)) (
          subst (λ k. read_full_at loop.file k 0 ≡ some first) (omega (arith, t.has_header))
            from_start)))
    where
      from_start : read_full_at loop.file db.page_size 0 ≡ some first
      from_start =
          ap (read_full_at loop.file db.page_size) (omega arith)
          ∙ loop.contents 1 first (omega arith) t.first_page

  header : is_journal_header_valid written ≡ (written, ok true)
  unfolding is_journal_header_valid
  header = rw (t.journal_exists, t.journal_read, t.journal_header) refl

  present :
      (p : ℕ) → 1 ≤ p → p ≤ size_in first → p ≢ ltx.lock_pgno db.page_size → loop.sums p ≢ none
  present p one le n = elim (dec_le p db.page_n) [
    | yes in_db ↦ loop.preserved p (v.present p one in_db n)
    | no out ↦ elim (Option-cases (overlay ws (λ _. none) p)) [
      | inl z ↦ absurd (t.grown p (omega arith) le n z)
      | inr (d, s) ↦ loop.present p d s
    ]
  ]

  still_writeable : writeable store written ≡ true
  unfolding writeable
  still_writeable = t.may_write

  abbrev in_transaction : InTransaction store ltx mode written
  in_transaction = record {
    file = loop.file;
    exists = refl;
    sized = v.sized;
    matching = loop.matching;
    size_bytes = take 4 (drop 28 first);
    size_read = size_read;
    not_empty = t.not_empty;
    present = present;
    no_frames = v.no_wal.no_frames;
    no_lock_sum = loop.kept (ltx.lock_pgno db.page_size) t.no_lock_page ∙ t.no_lock_sum;
    may_write = still_writeable;
    on_primary = t.on_primary;
    header = header;
    journal = t.journal;
    invalidates = t.invalidates;
  }

module _ (store : Store) (ltx : Ltx) (mode : JournalMode) (db : Db) (v : IsWellFormed ltx db)
    (ws : List (ℕ × List ℕ)) (first : List ℕ) (t : IsTransaction store ltx mode db v.file ws first)
    (not_first : ltx.lock_pgno db.page_size ≢ 1) where
  tx : CommittedTx store ltx mode (written store ltx mode db v ws first t) (size_in first)
  tx =
      commit_journal_correct store ltx mode (written store ltx mode db v ws first t)
        (in_transaction store ltx mode db v ws first t) not_first

  dirty_iff : (p : ℕ) → (dirtied ws db.dirty_page_set p ≡ true) ↔ (overlay ws (λ _. none) p ≢ none)
  dirty_iff p = (
    dirtied-overlay ws (λ _. none) db.dirty_page_set p (λ e. cc (e, t.clean p)),
    overlay-dirtied ws (λ _. none) db.dirty_page_set p (λ n. absurd (n refl)),
  )

  exactly :
      (p : ℕ)
      → 1 ≤ p
      → p ≤ size_in first
      → p ≢ ltx.lock_pgno db.page_size
      → overlay tx.pages (λ _. none) p ≡ overlay ws (λ _. none) p
  unfolding read_database_page
  exactly p one le n = elim (Option-cases (overlay ws (λ _. none) p)) [
    | inl z ↦ elim (Option-cases (overlay tx.pages (λ _. none) p)) [
      | inl z' ↦ z' ∙ sym z
      | inr (d, s) ↦ absurd ((dirty_iff p).0 (tx.only_dirty p d s).0 z)
    ]
    | inr (d, s) ↦ elim (Option-cases (overlay tx.pages (λ _. none) p)) [
      | inl z' ↦ absurd (tx.all_dirty p ((dirty_iff p).1 (λ z. cc (z, s))) one le n z')
      | inr (d', s') ↦
          s'
          ∙ sym (tx.contents p d' s')
          ∙ (loop store ltx mode db v ws first t).contents p d one
              (overlay_mono ws (λ _. none) (page_of db.page_size v.file) p (λ d e. cc) d s)
          ∙ sym s
    ]
  ]

  others :
      (p : ℕ) (d : List ℕ)
      → 1 ≤ p
      → overlay ws (read_database_page db) p ≡ some d
      → read_database_page tx.committed p ≡ some d
  unfolding read_database_page
  others p d one o =
      (λ i. read_file (tx.same_file i) (tx.same_page_size i) ((p - 1) * tx.same_page_size i))
      ∙ (loop store ltx mode db v ws first t).contents p d one (
          overlay_mono ws (read_database_page db) (page_of db.page_size v.file) p
            (λ d e. (λ i. read_file (sym v.exists i) db.page_size ((p - 1) * db.page_size)) ∙ e) d
            o)

-- Take the primary with a well-formed database and no dirty page, and a transaction of SQLite in
-- rollback mode: a journal with a valid header, writes of whole pages (not of the lock page, which
-- is not page 1) that leave the new size in page 1 and write each page that the database grows by.
-- Every write succeeds, the position stays, and CommitJournal does with the result what it does
-- with a transaction on the primary. The transaction file has, up to the new size and but for the
-- lock page, exactly the pages that were written, each as its last write left it; and in the
-- database file every page is as its last write left it, or as it was before.
pub write_pages-commit_journal :
    (store : Store) (ltx : Ltx) (mode : JournalMode) (db : Db) (v : IsWellFormed ltx db)
    (ws : List (ℕ × List ℕ)) (first : List ℕ)
    → IsTransaction store ltx mode db v.file ws first
    → ltx.lock_pgno db.page_size ≢ 1
    → RunTransaction store ltx mode db ws (size_in first)
write_pages-commit_journal store ltx mode db v ws first t n = record {
  written = written store ltx mode db v ws first t;
  writes = writes store ltx mode db v ws first t;
  same_pos = refl;
  tx = tx store ltx mode db v ws first t n;
  exactly = exactly store ltx mode db v ws first t n;
  others = others store ltx mode db v ws first t n;
}
