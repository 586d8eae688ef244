-- ===== src/Db/Checksum.antt =====
-- The checksum of a database (db.go): checksum, pageChecksum and onDiskChecksum.
use Prim.Native.Nat.{bit_or, bit_xor}
use litefs.Prelude.{
  ℕ, zero, suc, ◌+◌, ◌-◌, ◌*◌, Option, none, some, List, [], ◌∷◌, ltb, ◌==◌, if◌then◌else◌,
}
use litefs.Disk.{File, read_full_at}
use litefs.Wal.{wal_frame_header_size}
use litefs.Ltx.{Ltx}
use litefs.Db.State.{Db}

-- `ltx.ChecksumFlag | (chksum ^ pageChksum)`
unfoldable pub add_page : Ltx → ℕ → ℕ → ℕ
add_page ltx chksum page_chksum = bit_or ltx.checksum_flag (bit_xor chksum page_chksum)

unfoldable pub last : List ℕ → Option ℕ
last [] = none
last (c ∷ []) = some c
last (_ ∷ c ∷ cs) = last (c ∷ cs)

abbrev pub or_else : Option ℕ → Option ℕ → Option ℕ
or_else (some c) d = some c
or_else none d = d

-- func (db *DB) pageChecksum(pgno, pageN uint32, newWALChecksums map[uint32]uint64)
unfoldable pub page_checksum : Ltx → Db → ℕ → ℕ → (ℕ → Option ℕ) → Option ℕ
unfolding last
page_checksum ltx db pgno page_n new =
    if pgno == ltx.lock_pgno db.page_size
    then some 0
    else (if ltb page_n pgno
        then none
        else or_else (new pgno) (or_else (last (db.wal.chksums pgno)) (db.chksums pgno)))

abbrev pub add_page? : Ltx → Option ℕ → Option ℕ → Option ℕ
add_page? ltx (some c) (some p) = some (add_page ltx c p)
add_page? ltx _ _ = none

-- The loop of `checksum` over the pages 1 to `n`.
unfoldable pub checksum_upto : Ltx → Db → ℕ → (ℕ → Option ℕ) → ℕ → Option ℕ
checksum_upto ltx db page_n new zero = some 0
checksum_upto ltx db page_n new (suc n) =
    add_page? ltx (checksum_upto ltx db page_n new n) (page_checksum ltx db (suc n) page_n new)

-- func (db *DB) checksum(pageN uint32, newWALChecksums map[uint32]uint64) (uint64, error)
unfoldable pub checksum : Ltx → Db → ℕ → (ℕ → Option ℕ) → Option ℕ
unfolding checksum_upto
checksum ltx db page_n new = checksum_upto ltx db page_n new page_n

abbrev pub read_file : Option File → ℕ → ℕ → Option (List ℕ)
read_file none len off = none
read_file (some f) len off = read_full_at f len off

-- A page of the database file.
unfoldable pub read_database_page : Db → ℕ → Option (List ℕ)
read_database_page db pgno = read_file db.database db.page_size ((pgno - 1) * db.page_size)

abbrev pub wal_or_database : Db → ℕ → Option ℕ → Option (List ℕ)
wal_or_database db pgno (some off) =
    read_file db.wal_file db.page_size (off + wal_frame_header_size)
wal_or_database db pgno none = read_database_page db pgno

-- The page as the committed transactions left it: from the WAL if it is there, else from the file.
-- This is also func (db *DB) readPage.
unfoldable pub read_page : Db → ℕ → Option (List ℕ)
unfolding read_database_page
read_page db pgno = wal_or_database db pgno (db.wal.frame_offsets pgno)

abbrev pub add_data? : Ltx → ℕ → Option ℕ → Option (List ℕ) → Option ℕ
add_data? ltx pgno (some c) (some bytes) = some (add_page ltx c (ltx.checksum_page pgno bytes))
add_data? ltx pgno _ _ = none

-- The loop of `onDiskChecksum` over the pages 1 to `n`, less the lock page.
unfoldable pub on_disk_upto : Ltx → Db → ℕ → Option ℕ
unfolding read_page
on_disk_upto ltx db zero = some 0
on_disk_upto ltx db (suc n) =
    let before = on_disk_upto ltx db n in
    if suc n == ltx.lock_pgno db.page_size
    then before
    else add_data? ltx (suc n) before (read_page db (suc n))

-- func (db *DB) onDiskChecksum(dbFile, walFile *os.File) (chksum uint64, err error)
unfoldable pub on_disk_checksum : Ltx → Db → Option ℕ
unfolding on_disk_upto
on_disk_checksum ltx db =
    if db.page_size == 0
    then none
    else (if db.page_n == 0 then none else on_disk_upto ltx db db.page_n)
