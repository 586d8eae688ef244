-- ===== src/Db/Cut.antt =====
-- The steps of ApplyLTXNoLock (db.go) on a well-formed database: the loop over the pages, the
-- truncation to the commit size, and the comparison of the checksum.
use litefs.Prelude.{
  ℕ, zero, suc, ◌+◌, ◌-◌, ◌*◌, ◌≤◌, ◌<◌, ◌≡◌, refl, sym, ap, ◌∙◌, ◌≢◌, inl, inr, true, ◌&&◌, Option,
  none, some, Option-cases, List, arith, if◌then◌else◌, ltb, leb, ◌==◌, ==_iff, ==_ne, dec_le,
}
use litefs.Disk.{File, truncate}
use litefs.Ltx.{Ltx, LtxFile}
use litefs.Db.State.{Db, ok, err, Error, M, ◌>>◌, put, from_option, continue}
use litefs.Db.Checksum.{
  checksum, checksum_upto, page_checksum, add_page?, read_file, read_database_page, on_disk_upto,
}
use litefs.Db.Apply.{apply_pages, finish_apply, apply_ltx_no_lock, mode_after, update_shm}
use litefs.Db.WellFormed.{AllMatch, truncate-AllMatch, page_of-truncate}
use litefs.Db.Overlay.{ArePages, overlay, overlay_mono, Applied, apply_pages-Applied}
use litefs.Db.Rolling.{HasNoWal, AllPresent, checksum-on_disk}

-- Between transactions, with the WAL checkpointed: the checksums in memory are those of the pages of
-- the file, one for each page of the database but the lock page, and none beyond.
pub record IsWellFormed (ltx : Ltx) (db : Db) : Type 0 where
  pub file : File
  pub exists : db.database ≡ some file
  pub sized : 0 < db.page_size
  pub matching : AllMatch ltx db.page_size file db.chksums
  pub within : (p : ℕ) → db.page_n < p → db.chksums p ≡ none
  pub present : AllPresent ltx db db.page_n
  pub no_wal : HasNoWal db

-- A transaction file has each page that the database grows by, but the lock page.
abbrev pub Covers : Ltx → Db → LtxFile → Type 0
Covers ltx db f =
    (p : ℕ)
    → db.page_n < p
    → p ≤ f.header.commit
    → p ≢ ltx.lock_pgno db.page_size
    → overlay f.pages (λ _. none) p ≢ none

module _ (ltx : Ltx) (db : Db) (f : LtxFile) (v : IsWellFormed ltx db)
    (not_first : ltx.lock_pgno db.page_size ≢ 1)
    (pages : ArePages db.page_size f.header.commit f.pages) (covers : Covers ltx db f) where
  abbrev pub commit : ℕ
  commit = f.header.commit

  abbrev pub loop : Applied ltx db v.file commit f.pages
  loop = apply_pages-Applied ltx db v.file commit f.pages v.exists v.sized pages v.matching

  -- After the loop and the truncation.
  abbrev pub cut_sums : (ℕ → Option ℕ) → ℕ → Option ℕ
  cut_sums sums p = if ltb commit p && leb p db.page_n then none else sums p

  abbrev pub cut : Db
  cut = record db {
    database = some (truncate loop.file (commit * db.page_size));
    chksums = cut_sums loop.sums;
    page_n = commit;
    mode = mode_after db.mode f.pages;
  }

  cut_within : (p : ℕ) → commit < p → cut_sums loop.sums p ≡ none
  cut_within p lt = ground (arith, loop.bounded p lt, v.within p)

  cut_matching : AllMatch ltx db.page_size (truncate loop.file (commit * db.page_size)) cut.chksums
  cut_matching =
      truncate-AllMatch ltx db.page_size loop.file cut.chksums commit v.sized cut_within
        (λ p c s. loop.matching p c (ground arith))

  cut_present : AllPresent ltx cut commit
  cut_present p one le n z = elim (dec_le p db.page_n) [
    | yes old ↦ loop.preserved p (v.present p one old n) (ground arith)
    | no new ↦ elim (Option-cases (overlay f.pages (λ _. none) p)) [
      | inl z' ↦ covers p (omega arith) le n z'
      | inr (d, o) ↦ loop.present p d o (ground arith)
    ]
  ]

  pub cut_checksum :
      (c : ℕ) × ((checksum ltx cut commit (λ _. none) ≡ some c)
        × (on_disk_upto ltx cut commit ≡ some c))
  cut_checksum =
      checksum-on_disk ltx cut (truncate loop.file (commit * db.page_size)) refl
        (record { no_frames = v.no_wal.no_frames; no_sums = v.no_wal.no_sums }) cut_matching
        not_first commit cut_present

  abbrev pub looped : Db
  looped = record db { database = some loop.file; chksums = loop.sums }

  abbrev pub positioned : Db
  positioned = record cut {
    pos = record { txid = f.header.max_txid; post_apply_checksum = f.post_apply_checksum };
  }

  abbrev pub finished : Db
  finished = record positioned { shm = (update_shm positioned).0.shm; marked = db.marked + 1 }

  pub loop-result :
      apply_ltx_no_lock ltx f db ≡ finish_apply ltx f (mode_after db.mode f.pages) looped
  unfolding apply_ltx_no_lock
  loop-result =
      (λ i. continue start (from_option Error.os (v.exists i) db))
      ∙ (λ i.
          continue (λ _. rest) (apply_pages ltx f.pages (record db { page_size = same_size i })))
      ∙ (λ i. continue (λ _. rest) (loop.result i))
    where
      rest : M (Unit {0})
      rest = finish_apply ltx f (mode_after db.mode f.pages)

      start : File → M (Unit {0})
      start file =
          put (record db {
            page_size = if db.page_size == 0 then f.header.page_size else db.page_size;
          })
          >> apply_pages ltx f.pages
          >> rest

      same_size : (if db.page_size == 0 then f.header.page_size else db.page_size) ≡ db.page_size
      same_size = ground (arith, v.sized)

  pub finish-ok :
      ltx.accepts f ≡ true
      → cut_checksum.0 ≡ f.post_apply_checksum
      → finish_apply ltx f (mode_after db.mode f.pages) looped ≡ (finished, ok tt)
  unfolding finish_apply
  finish-ok a c = rw (a, cut_checksum.1.0, (==_iff _ _).1 c) refl

  pub finish-mismatch :
      ltx.accepts f ≡ true
      → cut_checksum.0 ≢ f.post_apply_checksum
      → finish_apply ltx f (mode_after db.mode f.pages) looped ≡ (cut, err Error.apply_mismatch)
  unfolding finish_apply
  finish-mismatch a c = rw (a, cut_checksum.1.0, ==_ne _ _ c) refl

  pub finished_checksum :
      (c : ℕ) × ((checksum ltx finished commit (λ _. none) ≡ some c)
        × (on_disk_upto ltx finished commit ≡ some c))
  finished_checksum =
      checksum-on_disk ltx finished (truncate loop.file (commit * db.page_size)) refl
        (record { no_frames = v.no_wal.no_frames; no_sums = v.no_wal.no_sums }) cut_matching
        not_first commit cut_present

  -- The position does not enter the checksum.
  same_checksum :
      (n : ℕ)
      → checksum_upto ltx finished commit (λ _. none) n ≡ checksum_upto ltx cut commit (λ _. none) n
  unfolding checksum_upto page_checksum
  same_checksum zero = refl
  same_checksum (suc n) =
      ap (λ t. add_page? ltx t (page_checksum ltx cut (suc n) commit (λ _. none))) (same_checksum n)

  pub same_value : finished_checksum.0 ≡ cut_checksum.0
  unfolding checksum
  same_value = cc (finished_checksum.1.0, cut_checksum.1.0, same_checksum commit)

  pub finished-IsWellFormed : IsWellFormed ltx finished
  finished-IsWellFormed = record {
    file = truncate loop.file (commit * db.page_size);
    exists = refl;
    sized = v.sized;
    matching = cut_matching;
    within = cut_within;
    present = cut_present;
    no_wal = record { no_frames = v.no_wal.no_frames; no_sums = v.no_wal.no_sums };
  }

  pub finished-contents :
      (p : ℕ) (d : List ℕ)
      → 1 ≤ p
      → p ≤ commit
      → overlay f.pages (read_database_page db) p ≡ some d
      → read_database_page finished p ≡ some d
  unfolding read_database_page
  finished-contents p d one le o =
      page_of-truncate db.page_size loop.file p commit d v.sized one le (
        loop.contents p d one (
          overlay_mono f.pages _ _ p
            (λ d' r. (λ i. read_file (sym v.exists i) db.page_size ((p - 1) * db.page_size)) ∙ r) d
            o))
