-- ===== src/Retention.antt =====
-- Retention of transaction files: ReadLTXDir and EnforceRetention (db.go). Of a file's name its
-- place in the order of names is kept, and whether ParseFilename of github.com/superfly/ltx accepts
-- it. Go's sort.Slice is an argument. A disk that fails is not modelled, nor are the metrics.
mod Enforced
mod Examples
use litefs.Prelude.{ℕ, Bool, not, List, [], ◌∷◌, ◌==◌, ltb, if◌then◌else◌}

-- fs.DirEntry with its fs.FileInfo
pub record Entry : Type 0 where
  pub name : ℕ
  pub is_ltx : Bool
  pub mod_time : ℕ

abbrev pub filter : (Entry → Bool) → List Entry → List Entry
filter p [] = []
filter p (e ∷ es) = if p e then e ∷ filter p es else filter p es

-- func (db *DB) ReadLTXDir() ([]fs.DirEntry, error), of what os.ReadDir returns
unfoldable pub read_ltx_dir : (List Entry → List Entry) → List Entry → List Entry
read_ltx_dir sort dir = sort (filter (λ e. e.is_ltx) dir)

-- `ents[:len(ents)-1]`, for an empty list the return before it
abbrev pub but_last : List Entry → List Entry
but_last [] = []
but_last (e ∷ []) = []
but_last (e ∷ x ∷ es) = e ∷ but_last (x ∷ es)

-- os.Remove
abbrev pub remove : Entry → List Entry → List Entry
remove e dir = filter (λ x. not (x.name == e.name)) dir

-- "Delete all files that are before the minimum time."
abbrev pub delete_before : ℕ → List Entry → List Entry → List Entry
delete_before min_time [] dir = dir
delete_before min_time (e ∷ es) dir =
    delete_before min_time es (if ltb min_time e.mod_time then dir else remove e dir)

-- func (db *DB) EnforceRetention(ctx context.Context, minTime time.Time) error
unfoldable pub enforce_retention : (List Entry → List Entry) → ℕ → List Entry → List Entry
unfolding read_ltx_dir
enforce_retention sort min_time dir = delete_before min_time (but_last (read_ltx_dir sort dir)) dir
