-- ===== src/Db/Journal.antt =====
-- Committing a transaction of the rollback journal (db.go): isJournalHeaderValid, invalidateJournal
-- and CommitJournal.
use litefs.Prelude.{
  ◌%◌, ◌^◌, ℕ, zero, suc, ◌+◌, Bool, false, not, Option, none, some, List, [], ◌∷◌, ◌++◌, leb, ◌==◌,
  if◌then◌else◌, replicate, to_be32, equal_bytes,
}
use litefs.Disk.{File, read_full_at, write_at, truncate}
use litefs.Locks.Acquire.{rollback}
use litefs.Ltx.{renamed, Ltx, LtxFile}
use litefs.Db.State.{
  Db, Store, M, Result, ok, err, Error, ◌>>=◌, ◌>>◌, return, get, put, modify, require, from_option,
  writeable,
}
use litefs.Db.Checksum.{checksum, page_checksum, read_database_page, on_disk_checksum}
use litefs.Db.Apply.{mode_after, set_pos, mark_dirty}

-- type JournalMode (litefs.go); `other` is any other text.
pub data JournalMode : Type 0 where
  delete truncated persist other : JournalMode

-- SQLITE_JOURNAL_HEADER_STRING
abbrev pub journal_header_string : List ℕ
journal_header_string = 0xd9 ∷ 0xd5 ∷ 0x05 ∷ 0xf9 ∷ 0x20 ∷ 0xa1 ∷ 0x63 ∷ 0xd7 ∷ []

-- SQLITE_JOURNAL_HEADER_SIZE
abbrev pub journal_header_size : ℕ
journal_header_size = 28

-- SQLITE_DATABASE_SIZE_OFFSET
abbrev pub database_size_offset : ℕ
database_size_offset = 28

-- func (db *DB) isJournalHeaderValid() (bool, error)
unfoldable pub is_journal_header_valid : M Bool
is_journal_header_valid = do
  db ← get
  f ← from_option Error.os db.journal
  buf ← from_option Error.os (read_full_at f 8 0)
  return (equal_bytes buf journal_header_string)

-- The switch of invalidateJournal: the journal file that it leaves, or an error.
abbrev pub invalidated : JournalMode → Option File → Result (Option File)
invalidated delete none = err Error.os
invalidated delete (some f) = ok none
invalidated truncated none = err Error.os
invalidated truncated (some f) = ok (some (truncate f 0))
invalidated persist none = ok none
invalidated persist (some f) = ok (some (write_at f (replicate journal_header_size 0) 0))
invalidated other _ = err Error.bad_journal_mode

-- func (db *DB) invalidateJournal(mode JournalMode) error
unfoldable pub invalidate_journal : JournalMode → M (Unit {0})
invalidate_journal mode = do
  db ← get
  journal ← (λ s. (s, invalidated mode db.journal))
  put (record db { journal = journal; dirty_page_set = λ _. false })

-- The page numbers of a set, from 1 to `n`, in order.
unfoldable pub sorted_upto : (ℕ → Bool) → ℕ → List ℕ
sorted_upto s zero = []
sorted_upto s (suc n) = sorted_upto s n ++ (if s (suc n) then suc n ∷ [] else [])

-- The loop that copies the pages of the transaction: the lock page is skipped, and the checksum of
-- each page must be the one in memory.
unfoldable pub copy_pages : Ltx → ℕ → List ℕ → M (List (ℕ × List ℕ))
copy_pages ltx commit [] = return []
copy_pages ltx commit (pgno ∷ pgnos) = do
  db ← get
  if pgno == ltx.lock_pgno db.page_size then copy_pages ltx commit pgnos else (do
    buf ← from_option Error.read_page (read_database_page db pgno)
    chksum ← from_option Error.missing_checksum (page_checksum ltx db pgno commit (λ _. none))
    require (ltx.checksum_page pgno buf == chksum) Error.page_mismatch
    rest ← copy_pages ltx commit pgnos
    return ((pgno, buf) ∷ rest))

-- The checksums after the last page are removed, but for the lock page's.
unfoldable pub drop_sums : Ltx → ℕ → Db → Db
drop_sums ltx commit db = record db {
  chksums = λ p.
      if leb p commit
      then db.chksums p
      else (if p == ltx.lock_pgno db.page_size then db.chksums p else none);
}

abbrev pub without_wal_sums : Db → Db
without_wal_sums db = record db { wal = record (db.wal) { chksums = λ _. [] } }

-- With the remote halt lock the file is first committed on the primary.
abbrev pub send_with : Store → LtxFile → Option ℕ → M (Unit {0})
send_with store f none = return tt
send_with store f (some id) = do
  require store.has_primary_info Error.no_primary
  require (store.client_commit id f) Error.remote_commit

unfoldable pub send_to_primary : Store → LtxFile → M (Unit {0})
send_to_primary store f = get >>= λ db. send_with store f db.remote_halt_lock

-- The file of the next transaction.
unfoldable pub next_file : Store → Db → ℕ → List (ℕ × List ℕ) → ℕ → LtxFile
next_file store db commit pages post = record {
  header = record {
    page_size = db.page_size;
    commit = commit;
    min_txid = (db.pos.txid + 1) % 2 ^ 64;
    max_txid = (db.pos.txid + 1) % 2 ^ 64;
    pre_apply_checksum = db.pos.post_apply_checksum;
    wal_salt1 = 0;
    wal_salt2 = 0;
    wal_offset = 0;
    wal_size = 0;
    node_id = store.id;
  };
  pages = pages;
  post_apply_checksum = post;
}

-- With StrictVerify the checksum of the database on disk is compared, with no WAL file at hand.
unfoldable pub strictly_verify : Store → Ltx → ℕ → M (Unit {0})
strictly_verify store ltx post = do
  db ← get
  if store.strict_verify
      then (do
        chksum ← from_option Error.read_page (on_disk_checksum ltx (record db { wal_file = none }))
        require (chksum == post) Error.verification_failed)
      else return tt

-- From the rename of the transaction file to the end.
unfoldable pub publish : Store → Ltx → JournalMode → LtxFile → M (Unit {0})
unfolding invalidate_journal set_pos mark_dirty strictly_verify
publish store ltx mode f = do
  modify (λ db. record db { ltx_dir = renamed f db.ltx_dir })
  invalidate_journal mode
  modify (λ db. record db { page_n = f.header.commit; mode = mode_after rollback f.pages })
  set_pos (record { txid = f.header.max_txid; post_apply_checksum = f.post_apply_checksum })
  mark_dirty
  strictly_verify store ltx f.post_apply_checksum

-- From the checks of the journal to the end.
unfoldable pub commit_transaction : Store → Ltx → JournalMode → M (Unit {0})
unfolding publish copy_pages drop_sums next_file send_to_primary
commit_transaction store ltx mode = do
  db ← get
  file ← from_option Error.os db.database
  size ← from_option Error.read_size (read_full_at file 4 database_size_offset)
  let commit = to_be32 size 0
  put (without_wal_sums db)
  pages ← copy_pages ltx commit (sorted_upto db.dirty_page_set commit)
  modify (drop_sums ltx commit)
  now ← get
  post ← from_option Error.missing_checksum (checksum ltx now commit (λ _. none))
  require (ltx.accepts (next_file store db commit pages post)) Error.bad_ltx
  send_to_primary store (next_file store db commit pages post)
  publish store ltx mode (next_file store db commit pages post)

-- func (db *DB) CommitJournal(ctx context.Context, mode JournalMode) (err error)
unfoldable pub commit_journal : Store → Ltx → JournalMode → M (Unit {0})
unfolding is_journal_header_valid commit_transaction writeable
commit_journal store ltx mode = do
  db ← get
  require (writeable store db) Error.read_only_replica
  valid ← is_journal_header_valid
  if not valid
      then invalidate_journal mode
      else (if db.page_size == 0
          then invalidate_journal mode
          else commit_transaction store ltx mode)
