-- ===== src/Db/Pages.antt =====
-- Changes of the database file (db.go): writeDatabasePage and truncateDatabase.
use litefs.Prelude.{
  ℕ, ◌-◌, ◌*◌, ◌&&◌, not, Option, none, some, List, ltb, leb, ◌==◌, if◌then◌else◌, update, length,
}
use mathlib.Core.Option
use litefs.Disk.{File, write_at, truncate}
use litefs.Ltx.{Ltx}
use litefs.Db.State.{Db, M, Error, ◌>>=◌, ◌>>◌, get, put, require, assert}

-- The database file with a write, if the file exists.
abbrev pub written : Db → ℕ → List ℕ → Option File
written db pgno bytes = Option.map (λ f. write_at f bytes ((pgno - 1) * db.page_size)) db.database

-- func (db *DB) writeDatabasePage(f *os.File, pgno uint32, data []byte, invalidate bool) (err error):
-- the caller has opened the database file. The offset of page 0 is negative, which WriteAt refuses.
unfoldable pub write_database_page : Ltx → ℕ → List ℕ → M (Unit {0})
write_database_page ltx pgno bytes = do
  db ← get
  assert (not (db.page_size == 0))
  require (length bytes == db.page_size) Error.bad_page_write
  require (not (pgno == 0)) Error.os
  put (record db {
    database = written db pgno bytes;
    chksums = update db.chksums pgno (some (ltx.checksum_page pgno bytes));
  })

-- func (db *DB) truncateDatabase(f *os.File, pageN uint32) (err error): the checksums of the pages
-- from page_n + 1 to the previous page count are deleted.
unfoldable pub truncate_database : ℕ → M (Unit {0})
truncate_database page_n = do
  db ← get
  put (record db {
    database = Option.map (λ f. truncate f (page_n * db.page_size)) db.database;
    chksums = λ p. if ltb page_n p && leb p db.page_n then none else db.chksums p;
    page_n = page_n;
  })
