-- ===== src/Db/Rolling.antt =====
-- The checksum kept in memory and the one of the pages on disk (db.go, checksum and onDiskChecksum).
use litefs.Prelude.{ℕ, ◌≤◌, ◌≡◌, refl, ap, ◌∙◌, ◌≢◌, inl, inr, none, some, Option-cases, [], arith}
use litefs.Disk.{File}
use litefs.Ltx.{Ltx}
use litefs.Db.State.{Db}
use litefs.Db.Checksum.{page_checksum, checksum, read_page, on_disk_upto}
use litefs.Db.Sums.{Agrees, checksum-Agrees}
use litefs.Db.WellFormed.{page_of, AllMatch}

-- No page of the database lies in the WAL.
pub record HasNoWal (db : Db) : Type 0 where
  pub no_frames : (p : ℕ) → db.wal.frame_offsets p ≡ none
  pub no_sums : (p : ℕ) → db.wal.chksums p ≡ []

-- Every page from 1 to `n`, but the lock page, has a checksum in memory.
abbrev pub AllPresent : Ltx → Db → ℕ → Type 0
AllPresent ltx db n = (p : ℕ) → 1 ≤ p → p ≤ n → p ≢ ltx.lock_pgno db.page_size → db.chksums p ≢ none

module _ (ltx : Ltx) (db : Db) (f : File) (e : db.database ≡ some f) (w : HasNoWal db)
    (m : AllMatch ltx db.page_size f db.chksums) (not_first : ltx.lock_pgno db.page_size ≢ 1)
    (page_n : ℕ) (present : AllPresent ltx db page_n) where
  page_checksum-other :
      (p : ℕ)
      → p ≢ ltx.lock_pgno db.page_size
      → p ≤ page_n
      → page_checksum ltx db p page_n (λ _. none) ≡ db.chksums p
  unfolding page_checksum
  page_checksum-other p n le = ground (arith, w.no_sums p)

  read_page-file : (p : ℕ) → read_page db p ≡ page_of db.page_size f p
  unfolding read_page
  read_page-file p = ground (arith, w.no_frames p)

  agrees : Agrees ltx db (λ _. none) page_n db
  agrees p one le n = elim (Option-cases (db.chksums p)) [
    | inl z ↦ absurd (present p one le n z)
    | inr (s, q) ↦
        let (_, (d, on_file, same)) = m p s q in
        (d, read_page-file p ∙ on_file, page_checksum-other p n le ∙ q ∙ ap some same)
  ]

  -- The checksum is defined, and is the one of the pages on disk.
  pub checksum-on_disk :
      (c : ℕ) × ((checksum ltx db page_n (λ _. none) ≡ some c)
        × (on_disk_upto ltx db page_n ≡ some c))
  checksum-on_disk = checksum-Agrees ltx db db (λ _. none) page_n refl not_first agrees
