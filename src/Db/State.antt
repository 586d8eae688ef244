-- ===== src/Db/State.antt =====
-- The state of a DB (db.go), with the files of its directory, and the results of its functions.
-- Left out: metrics, trace logging, and the FUSE page cache that the Invalidator clears.
use litefs.Prelude.{ℕ, Bool, true, false, ◌||◌, Option, none, some, List}
use litefs.Disk.{File}
use litefs.Wal.{ByteOrder}
use litefs.Locks.Acquire.{DbMode}
use litefs.Ltx.{LtxFile}

-- type Pos (litefs.go)
pub record Pos : Type 0 where
  pub txid : ℕ
  pub post_apply_checksum : ℕ

-- The errors that the functions return; `os` is an error of the file system, such as a missing file.
pub data Error : Type 0 where
  os read_only_replica page_size_required not_page_aligned size_mismatch : Error
  bad_page_write unknown_page_size bad_header read_page read_size missing_checksum : Error
  page_mismatch bad_ltx no_primary remote_commit bad_journal_mode apply_mismatch : Error
  bad_wal_write bad_wal bad_journal timed_out : Error
  verification_failed non_sequential pre_apply_mismatch position_mismatch : Error

-- What a function returns: a value, an error, a panic, or nothing since a loop does not end.
pub data Result {ℓ} (A : Type ℓ) : Type ℓ where
  ok : A → Result A
  err : Error → Result A
  panics : Result A
  diverges : Result A

-- type walIndexHdr (litefs.go), less the fields that are constant or derived.
pub record Shm : Type 0 where
  pub change : ℕ
  pub big_end_cksum : ℕ
  pub page_size : ℕ
  pub page_n : ℕ

-- The field `wal` of a DB.
pub record Wal : Type 0 where
  pub offset : ℕ
  pub byte_order : ByteOrder
  pub salt1 : ℕ
  pub salt2 : ℕ
  pub chksum1 : ℕ
  pub chksum2 : ℕ
  pub frame_offsets : ℕ → Option ℕ
  pub chksums : ℕ → List ℕ

-- `database`, `journal` and `wal_file` are the files of the directory, `none` if they do not exist,
-- and `ltx_dir` the transaction files in it, the last one that was put there first. `marked` counts
-- the calls of `store.MarkDirty`. A map is a function, with `none` or `[]` for a missing key.
pub record Db : Type 0 where
  pub page_size : ℕ
  pub page_n : ℕ
  pub pos : Pos
  pub mode : DbMode
  pub remote_halt_lock : Option ℕ
  pub chksums : ℕ → Option ℕ
  pub dirty_page_set : ℕ → Bool
  pub wal : Wal
  pub database : Option File
  pub journal : Option File
  pub wal_file : Option File
  pub shm : Option Shm
  pub ltx_dir : List LtxFile
  pub marked : ℕ

-- What a DB takes from its store: whether the node is the primary, whether a primary is known, the
-- node's id, StrictVerify, and the answer of `Client.Commit`.
pub record Store : Type 0 where
  pub is_primary : Bool
  pub has_primary_info : Bool
  pub id : ℕ
  pub strict_verify : Bool
  pub client_commit : ℕ → LtxFile → Bool

-- A function on the database: the state it leaves, and what it returns.
abbrev pub M : Type 0 → Type 0
M A = Db → Db × Result A

abbrev pub continue : {A B : Type 0} → (A → M B) → Db × Result A → Db × Result B
continue f (db, ok a) = f a db
continue f (db, err e) = (db, err e)
continue f (db, panics) = (db, panics)
continue f (db, diverges) = (db, diverges)

infixl 5 ◌>>=◌ ◌>>◌
abbrev pub ◌>>=◌ : {A B : Type 0} → M A → (A → M B) → M B
◌>>=◌ m f db = continue f (m db)

abbrev pub ◌>>◌ : {B : Type 0} → M (Unit {0}) → M B → M B
m >> k = m >>= λ _. k

abbrev pub return : {A : Type 0} → A → M A
return a db = (db, ok a)

abbrev pub fail : {A : Type 0} → Error → M A
fail e db = (db, err e)

abbrev pub get : M Db
get db = (db, ok db)

abbrev pub put : Db → M (Unit {0})
put db' db = (db', ok tt)

abbrev pub modify : (Db → Db) → M (Unit {0})
modify f db = (f db, ok tt)

-- `if !b { return e }`
abbrev pub require : Bool → Error → M (Unit {0})
require true e db = (db, ok tt)
require false e db = (db, err e)

-- func assert(condition bool, msg string)
abbrev pub assert : Bool → M (Unit {0})
assert true db = (db, ok tt)
assert false db = (db, panics)

-- The value, or the error.
abbrev pub from_option : {A : Type 0} → Error → Option A → M A
from_option e none db = (db, err e)
from_option e (some a) db = (db, ok a)

abbrev pub is_some : {A : Type 0} → Option A → Bool
is_some none = false
is_some (some _) = true

-- func (db *DB) Writeable() bool
unfoldable pub writeable : Store → Db → Bool
writeable store db = is_some db.remote_halt_lock || store.is_primary
