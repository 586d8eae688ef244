-- ===== src/Db/Written.antt =====
-- A transaction of the rollback journal from its page writes (WriteDatabaseAt, db.go) on.
use litefs.Prelude.{
  ℕ, ◌+◌, ◌-◌, ◌*◌, ◌/◌, ◌%◌, ◌^◌, ◌≤◌, ◌<◌, ◌≡◌, refl, sym, ap, ◌∙◌, true, not, some, List, arith,
  length, if◌then◌else◌, ◌==◌, ==_iff, ==_ne, update,
}
use native.Mathlib.Nat.{add-mul-div_right, zero-div, mod_def}
use litefs.Disk.{File, write_at}
use litefs.Locks.Acquire.{DbMode, rollback}
use litefs.Ltx.{Ltx}
use litefs.Db.State.{
  Db, Store, M, Result, ok, Error, ◌>>=◌, ◌>>◌, return, put, require, assert, continue, writeable,
}
use litefs.Db.Pages.{write_database_page}
use litefs.Db.Writes.{marked_dirty, page_at, determine_page_size, write_one_page, write_database_at}
use litefs.Db.Overlay.{write_database_page_lem}

div-offset : (q ps : ℕ) → 0 < ps → (q - 1) * ps / ps ≡ q - 1
div-offset q ps h =
    ap (λ x. x / ps) (zero_plus ((q - 1) * ps))
    ∙ add-mul-div_right 0 (q - 1) h
    ∙ ap (λ z. z + (q - 1)) (zero-div ps)
    ∙ sym (zero_plus (q - 1))
  where
    zero_plus : (x : ℕ) → x ≡ 0 + x
    zero_plus x = omega arith

mod-offset : (q ps : ℕ) → 0 < ps → (q - 1) * ps % ps ≡ 0
mod-offset q ps h =
    mod_def ((q - 1) * ps) ps ∙ ap (λ k. (q - 1) * ps - ps * k) (div-offset q ps h) ∙ grind arith

page_at-offset : (q ps : ℕ) → 0 < ps → 1 ≤ q → q < 2 ^ 32 → page_at ((q - 1) * ps) ps ≡ q
page_at-offset q ps h one lt =
    ap (λ k. (k + 1) % 2 ^ 32) (div-offset q ps h) ∙ omega (arith, one, lt)

determine_page_size-known :
    (db : Db) (bytes : List ℕ) (offset : ℕ)
    → 0 < db.page_size
    → determine_page_size bytes offset db ≡ (db, ok tt)
unfolding determine_page_size
determine_page_size-known db bytes offset h =
    rw (==_ne db.page_size 0 (λ z. omega (arith, z, h))) refl

-- The guards of a write of one whole page, with the rollback journal.
write_one_page-aligned :
    (ltx : Ltx) (db : Db) (q : ℕ) (bytes : List ℕ)
    → db.mode ≡ rollback
    → 0 < db.page_size
    → length bytes ≡ db.page_size
    → 1 ≤ q
    → q < 2 ^ 32
    → write_one_page ltx bytes ((q - 1) * db.page_size) db
      ≡ write_database_page ltx q bytes
          (record db { dirty_page_set = update db.dirty_page_set q true })
unfolding write_one_page
write_one_page-aligned ltx db q bytes mode h l one lt =
    ap (λ b. continue aligned (assert (not b) db)) (==_ne db.page_size 0 (λ z. omega (arith, z, h)))
    ∙ ap (λ r. continue sized (require (r == 0) Error.not_page_aligned db))
        (mod-offset q db.page_size h)
    ∙ ap (λ b. continue written (require b Error.bad_page_write db))
        ((==_iff (length bytes) db.page_size).1 l)
    ∙ ap (λ p. at p db.mode) (page_at-offset q db.page_size h one lt)
    ∙ ap (at q) mode
  where
    at : ℕ → DbMode → Db × Result (Unit {0})
    at p m =
        write_database_page ltx p bytes
          (record db { dirty_page_set = marked_dirty m p db.dirty_page_set })

    written : Unit {0} → M (Unit {0})
    written _ =
        put (record db {
          dirty_page_set =
              marked_dirty db.mode (page_at ((q - 1) * db.page_size) db.page_size)
                db.dirty_page_set;
        })
        >> write_database_page ltx (page_at ((q - 1) * db.page_size) db.page_size) bytes

    sized : Unit {0} → M (Unit {0})
    sized _ = require (length bytes == db.page_size) Error.bad_page_write >>= written

    aligned : Unit {0} → M (Unit {0})
    aligned _ =
        require ((q - 1) * db.page_size % db.page_size == 0) Error.not_page_aligned >>= sized

-- A write of one whole page by SQLite.
pub write_database_at_lem :
    (store : Store) (ltx : Ltx) (db : Db) (f : File) (q : ℕ) (bytes : List ℕ)
    → writeable store db ≡ true
    → db.mode ≡ rollback
    → db.database ≡ some f
    → 0 < db.page_size
    → length bytes ≡ db.page_size
    → 1 ≤ q
    → q < 2 ^ 32
    → write_database_at store ltx bytes ((q - 1) * db.page_size) db ≡ (
      record db {
        dirty_page_set = update db.dirty_page_set q true;
        database = some (write_at f bytes ((q - 1) * db.page_size));
        chksums = update db.chksums q (some (ltx.checksum_page q bytes));
      },
      ok tt,
    )
unfolding write_database_at
write_database_at_lem store ltx db f q bytes w mode e h l one lt =
    ap (λ b. continue (λ _. written) (require b Error.read_only_replica db)) w
    ∙ ap (λ b. if◌then◌else◌ {A = M (Unit {0})} b (return tt) steps db)
        (==_ne (length bytes) 0 (λ z. omega (arith, z, l, h)))
    ∙ ap (continue (λ _. write_one_page ltx bytes ((q - 1) * db.page_size)))
        (determine_page_size-known db bytes ((q - 1) * db.page_size) h)
    ∙ write_one_page-aligned ltx db q bytes mode h l one lt
    ∙ write_database_page_lem ltx (record db { dirty_page_set = update db.dirty_page_set q true }) f
        q bytes e h l one
  where
    steps : M (Unit {0})
    steps =
        determine_page_size bytes ((q - 1) * db.page_size)
        >> write_one_page ltx bytes ((q - 1) * db.page_size)

    written : M (Unit {0})
    written = if length bytes == 0 then return tt else steps
