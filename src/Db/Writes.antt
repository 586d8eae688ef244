-- ===== src/Db/Writes.antt =====
-- The writes of SQLite to the database file and to the journal (db.go): WriteDatabaseAt,
-- TruncateDatabase, CreateJournal, WriteJournalAt, TruncateJournal and RemoveJournal;
-- readSQLiteDatabaseHeader (litefs.go).
use litefs.Prelude.{
  ℕ, ◌+◌, ◌/◌, ◌%◌, ◌^◌, Bool, true, false, not, ◌&&◌, Option, none, some, List, [], ◌∷◌, length,
  take, get_or, leb, ◌==◌, if◌then◌else◌, to_be16, to_be32, equal_bytes, update,
}
use litefs.Disk.{File, empty, write_at}
use litefs.Reading.{Read, got, eof, unexpected_eof, invalid_type, read_full}
use litefs.Locks.Acquire.{DbMode, rollback, wal}
use litefs.Ltx.{Ltx}
use litefs.Db.State.{
  Store, M, Result, ok, err, Error, ◌>>=◌, ◌>>◌, return, fail, get, put, modify, require, assert,
  from_option, writeable,
}
use litefs.Db.Pages.{write_database_page, truncate_database}
use litefs.Db.Journal.{delete, truncated, persist, journal_header_size, commit_journal}

-- type sqliteDatabaseHeader
pub record SqliteDatabaseHeader : Type 0 where
  pub write_version : ℕ
  pub read_version : ℕ
  pub page_size : ℕ
  pub page_n : ℕ

-- What readSQLiteDatabaseHeader returns: a header, errInvalidDatabaseHeader, or io.EOF.
pub data HeaderRead : Type 0 where
  header : SqliteDatabaseHeader → HeaderRead
  invalid_header : HeaderRead
  no_header : HeaderRead

-- SQLITE_DATABASE_HEADER_STRING, "SQLite format 3" and a zero byte
abbrev pub database_header_string : List ℕ
database_header_string =
    83 ∷ 81 ∷ 76 ∷ 105 ∷ 116 ∷ 101 ∷ 32 ∷ 102 ∷ 111 ∷ 114 ∷ 109 ∷ 97 ∷ 116 ∷ 32 ∷ 51 ∷ 0 ∷ []

abbrev pub database_header_size : ℕ
database_header_size = 100

-- SQLite writes 1 for a page size of 64K.
abbrev pub decoded_page_size : ℕ → ℕ
decoded_page_size sz = if sz == 1 then 65536 else sz

abbrev pub header_of : Read (List ℕ) → HeaderRead
header_of (got b rest) =
    if not (equal_bytes (take 16 b) database_header_string)
    then invalid_header
    else header (record {
      write_version = get_or b 18 0;
      read_version = get_or b 19 0;
      page_size = decoded_page_size (to_be16 b 16);
      page_n = to_be32 b 28;
    })
header_of eof = no_header
header_of unexpected_eof = invalid_header
header_of invalid_type = no_header

-- func readSQLiteDatabaseHeader(r io.Reader) (hdr sqliteDatabaseHeader, data []byte, err error)
unfoldable pub read_sqlite_database_header : List ℕ → HeaderRead
unfolding read_full equal_bytes
read_sqlite_database_header stream = header_of (read_full database_header_size stream)

-- The page size of a header; any error of the header is one.
abbrev pub page_size_from : HeaderRead → M ℕ
page_size_from (header hdr) = return hdr.page_size
page_size_from invalid_header = fail Error.bad_header
page_size_from no_header = fail Error.bad_header

-- "Use page size from the write."
unfoldable pub determine_page_size : List ℕ → ℕ → M (Unit {0})
unfolding read_sqlite_database_header
determine_page_size bytes offset = do
  db ← get
  if not (db.page_size == 0) then return tt else (do
    require (offset == 0) Error.unknown_page_size
    size ← page_size_from (read_sqlite_database_header bytes)
    put (record db { page_size = size }))

-- `if db.Mode() == DBModeRollback { db.dirtyPageSet[pgno] = struct{}{} }`
abbrev pub marked_dirty : DbMode → ℕ → (ℕ → Bool) → ℕ → Bool
marked_dirty rollback pgno s = update s pgno true
marked_dirty wal pgno s = s

-- The page number of an offset, a uint32.
abbrev pub page_at : ℕ → ℕ → ℕ
page_at offset page_size = (offset / page_size + 1) % 2 ^ 32

-- After the page size is known; a page size of 0 makes the remainder panic.
unfoldable pub write_one_page : Ltx → List ℕ → ℕ → M (Unit {0})
unfolding write_database_page
write_one_page ltx bytes offset = do
  db ← get
  assert (not (db.page_size == 0))
  require (offset % db.page_size == 0) Error.not_page_aligned
  require (length bytes == db.page_size) Error.bad_page_write
  put (record db {
    dirty_page_set = marked_dirty db.mode (page_at offset db.page_size) db.dirty_page_set;
  })
  write_database_page ltx (page_at offset db.page_size) bytes

-- func (db *DB) WriteDatabaseAt(ctx, f *os.File, data []byte, offset int64, owner uint64) error
unfoldable pub write_database_at : Store → Ltx → List ℕ → ℕ → M (Unit {0})
unfolding writeable determine_page_size write_one_page
write_database_at store ltx bytes offset = do
  db ← get
  require (writeable store db) Error.read_only_replica
  if length bytes == 0
      then return tt
      else (determine_page_size bytes offset >> write_one_page ltx bytes offset)

-- func (db *DB) TruncateDatabase(ctx context.Context, size int64) (err error)
unfoldable pub truncate_database_to : ℕ → M (Unit {0})
unfolding truncate_database
truncate_database_to size = do
  db ← get
  require (not (db.page_size == 0)) Error.page_size_required
  require (size % db.page_size == 0) Error.not_page_aligned
  require ((size / db.page_size) % 2 ^ 32 == db.page_n) Error.size_mismatch
  file ← from_option Error.os db.database
  truncate_database ((size / db.page_size) % 2 ^ 32)

abbrev pub created : Option File → Result (Option File)
created none = ok (some empty)
created (some f) = err Error.os

-- func (db *DB) CreateJournal() (*os.File, error): the file must not exist.
unfoldable pub create_journal : Store → M (Unit {0})
unfolding writeable empty
create_journal store = do
  db ← get
  require (writeable store db) Error.read_only_replica
  journal ← (λ s. (s, created db.journal))
  put (record db { journal = journal })

-- func (db *DB) TruncateJournal(ctx context.Context) error
unfoldable pub truncate_journal : Store → Ltx → M (Unit {0})
unfolding commit_journal
truncate_journal store ltx = commit_journal store ltx truncated

-- func (db *DB) RemoveJournal(ctx context.Context) error
unfoldable pub remove_journal : Store → Ltx → M (Unit {0})
unfolding commit_journal
remove_journal store ltx = commit_journal store ltx delete

-- func isByteSliceZero(b []byte) bool
unfoldable pub is_byte_slice_zero : List ℕ → Bool
is_byte_slice_zero [] = true
is_byte_slice_zero (v ∷ b) = let rest = is_byte_slice_zero b in if not (v == 0) then false else rest

-- A header of the journal sets a page size that is not known.
abbrev pub page_size_of_journal : List ℕ → ℕ → ℕ → ℕ
page_size_of_journal bytes offset page_size =
    if offset == 0 && leb journal_header_size (length bytes) && page_size == 0
    then to_be32 bytes 24
    else page_size

-- func (db *DB) WriteJournalAt(ctx, f *os.File, data []byte, offset int64, owner uint64) (err
-- error): a header of zeros commits the transaction (PERSIST).
unfoldable pub write_journal_at : Store → Ltx → List ℕ → ℕ → M (Unit {0})
unfolding writeable is_byte_slice_zero commit_journal
write_journal_at store ltx bytes offset = do
  db ← get
  require (writeable store db) Error.read_only_replica
  modify (λ db. record db { page_size = page_size_of_journal bytes offset db.page_size })
  (if offset == 0 && length bytes == journal_header_size && is_byte_slice_zero bytes
      then commit_journal store ltx persist
      else return tt)
  db ← get
  f ← from_option Error.os db.journal
  put (record db { journal = some (write_at f bytes offset) })
