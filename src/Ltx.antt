-- ===== src/Ltx.antt =====
-- What the code relies on of github.com/superfly/ltx, whose source is not part of the repository:
-- the fields of a transaction file that db.go and store.go write and read, and a record of the
-- library's functions. A file on disk or on the wire is represented by what the library's decoder
-- reads from it. Version, flags and timestamp of the header decide nothing in the modelled code and
-- are left out.
use litefs.Prelude.{ℕ, Bool, ◌&&◌, ◌==◌, if◌then◌else◌, List, [], ◌∷◌}

pub record Header : Type 0 where
  pub page_size : ℕ
  pub commit : ℕ
  pub min_txid : ℕ
  pub max_txid : ℕ
  pub pre_apply_checksum : ℕ
  pub wal_salt1 : ℕ
  pub wal_salt2 : ℕ
  pub wal_offset : ℕ
  pub wal_size : ℕ
  pub node_id : ℕ

pub record LtxFile : Type 0 where
  pub header : Header
  pub pages : List (ℕ × List ℕ)
  pub post_apply_checksum : ℕ

-- LTXPath (db.go) of both files is the same: it has their first and last transactions.
abbrev pub same_path : LtxFile → LtxFile → Bool
same_path f g = f.header.min_txid == g.header.min_txid && f.header.max_txid == g.header.max_txid

abbrev pub without_path : LtxFile → List LtxFile → List LtxFile
without_path f [] = []
without_path f (g ∷ dir) = let rest = without_path f dir in if same_path f g then rest else g ∷ rest

-- os.Rename of a temporary file to the path of `f`, in place of a file that is there.
abbrev pub renamed : LtxFile → List LtxFile → List LtxFile
renamed f dir = f ∷ without_path f dir

-- ChecksumFlag, ChecksumPage and LockPgno; `accepts` says that the encoder writes the file, and that
-- the decoder reads it back, without an error.
pub record Ltx : Type 0 where
  pub checksum_flag : ℕ
  pub checksum_page : ℕ → List ℕ → ℕ
  pub lock_pgno : ℕ → ℕ
  pub accepts : LtxFile → Bool
