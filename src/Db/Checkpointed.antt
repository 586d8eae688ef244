-- ===== src/Db/Checkpointed.antt =====
-- What CheckpointNoLock (db.go) makes of a database and its WAL.
use litefs.Prelude.{
  ℕ, ◌+◌, ◌-◌, ◌*◌, ◌%◌, ◌^◌, ◌≤◌, ◌<◌, ◌≡◌, refl, sym, ap, ap₂, ◌∙◌, ◌≢◌, inl, inr, Option, none,
  some, Option-cases, List, [], ◌∷◌, arith, ltb, leb, ◌&&◌, if◌then◌else◌,
}
use litefs.Disk.{File, truncate}
use litefs.Wal.{WalRead}
use litefs.Ltx.{Ltx}
use litefs.Db.State.{Db, Result, ok, ◌>>◌, continue, modify, put, from_option, Error}
use litefs.Db.Checksum.{read_page, read_file, wal_or_database, read_database_page, last, or_else}
use litefs.Db.Pages.{truncate_database}
use litefs.Db.Apply.{update_shm, zero_shm, encode_page_size}
use litefs.Db.WellFormed.{AllMatch, page_of, page_of-truncate, truncate-AllMatch}
use litefs.Db.Overlay.{overlay, Applied, apply_pages-Applied}
use litefs.Db.Sums.{Agrees}
use litefs.Db.Cut.{IsWellFormed}
use litefs.Db.CommitWal.{with_offsets}
use litefs.Db.CommittedWal.{page_checksum_within}
use litefs.Db.TxFrames.{Offsets}
use litefs.Db.WalWrites.{truncate_wal}
use litefs.Db.Checkpoint.{
  read_wal_page_offsets, copy_back, copy_and_truncate, checkpoint_offsets, clear_wal_sums,
  checkpoint_files, checkpoint_no_lock,
}
use litefs.Db.CopiedBack.{
  AllReadable, pages_of, pages_of-ArePages, neither, framed, pages_of-SamePage,
  copy_back-apply_pages,
}

-- A database with a WAL: the offsets in memory are those that are read from the WAL file, whose last
-- commit has the size in memory; the checksums of the database file are those of its pages, and the
-- checksums of the pages, with the WAL, are those in memory.
pub record HasWal (ltx : Ltx) (db : Db) : Type 0 where
  pub file : File
  pub exists : db.database ≡ some file
  pub wal_file : File
  pub wal_exists : db.wal_file ≡ some wal_file
  pub sized : 0 < db.page_size
  pub matching : AllMatch ltx db.page_size file db.chksums
  pub agrees : Agrees ltx db (λ _. none) db.page_n db
  pub offsets : Offsets
  pub not_empty : offsets ≢ []
  pub reads : read_wal_page_offsets wal_file ≡ WalRead.ok (offsets, db.page_n)
  pub n : ℕ
  pub readable : AllReadable db wal_file n offsets
  pub same_offsets : (p : ℕ) → with_offsets offsets (λ _. none) p ≡ db.wal.frame_offsets p
  pub framed_sums : (p : ℕ) → db.wal.frame_offsets p ≡ none → p ≤ db.page_n → db.wal.chksums p ≡ []

copy_and_truncate_some :
    (ltx : Ltx) (f : File) (m : Offsets) (commit : ℕ)
    → m ≢ []
    → copy_and_truncate ltx f m commit ≡ (copy_back ltx f m >> truncate_database commit)
unfolding copy_and_truncate
copy_and_truncate_some ltx f [] commit n = absurd (n refl)
copy_and_truncate_some ltx f (x ∷ m) commit n = refl

module _ (ltx : Ltx) (db : Db) (t : HasWal ltx db) where
  abbrev pages : List (ℕ × List ℕ)
  pages = pages_of db t.wal_file t.n t.offsets t.readable

  pub loop : Applied ltx db t.file t.n pages
  loop =
      apply_pages-Applied ltx db t.file t.n pages t.exists t.sized
        (pages_of-ArePages db t.wal_file t.n t.offsets t.readable t.sized) t.matching

  abbrev pub after : Db
  after = record db {
    database = some (truncate loop.file (db.page_n * db.page_size));
    chksums = λ p. if ltb db.page_n p && leb p db.page_n then none else loop.sums p;
    wal_file = some (truncate t.wal_file 0);
    wal = record (db.wal) { frame_offsets = λ _. none; chksums = λ _. [] };
    shm = some (record {
      change = ((zero_shm db.shm).change + 1) % 2 ^ 32;
      big_end_cksum = (zero_shm db.shm).big_end_cksum;
      page_size = encode_page_size db.page_size;
      page_n = db.page_n;
    });
  }

  abbrev cut : Db
  cut = record db {
    database = some (truncate loop.file (db.page_n * db.page_size));
    chksums = λ p. if ltb db.page_n p && leb p db.page_n then none else loop.sums p;
  }

  copied : copy_and_truncate ltx t.wal_file t.offsets db.page_n db ≡ (cut, ok tt)
  unfolding truncate_database
  copied =
      ap (λ m. m db) (copy_and_truncate_some ltx t.wal_file t.offsets db.page_n t.not_empty)
      ∙ ap (continue (λ _. truncate_database db.page_n)) (
          copy_back-apply_pages ltx t.wal_file t.n t.offsets db t.file t.readable t.exists t.sized
          ∙ loop.result)

  pub succeeds : checkpoint_no_lock ltx db ≡ (after, ok tt)
  unfolding checkpoint_no_lock truncate_wal update_shm
  succeeds =
      (λ i. checkpoint_files ltx (t.exists i) (t.wal_exists i) db)
      ∙ ap (λ r. checkpoint_offsets ltx t.wal_file r db) t.reads
      ∙ ap (continue (λ _. truncate_wal 0 >> (modify clear_wal_sums >> update_shm))) copied
      ∙ (λ i. continue (λ _. modify clear_wal_sums >> update_shm) (emptied (t.wal_exists i)))
    where
      emptied : Option File → Db × Result (Unit {0})
      emptied w =
          continue
            (λ f. put (record cut {
              wal_file = some (truncate f 0);
              wal = record (db.wal) { frame_offsets = λ _. none; chksums = λ _. [] };
            }))
            (from_option Error.os w cut)

  same_sums : (p : ℕ) → after.chksums p ≡ loop.sums p
  same_sums p = ground arith

  -- The pages up to the size in memory, in the file after the loop.
  page_copied :
      (p : ℕ) (d : List ℕ)
      → read_page db p ≡ some d
      → overlay pages (page_of db.page_size t.file) p ≡ some d
  unfolding read_page read_database_page
  page_copied p d r =
      elim (pages_of-SamePage db t.wal_file t.n t.offsets t.readable (page_of db.page_size t.file)
        (λ _. none) p) [
          | neither page off ↦
              page
              ∙ (λ i. read_file (sym t.exists i) db.page_size ((p - 1) * db.page_size))
              ∙ sym (ap (wal_or_database db p) (sym (t.same_offsets p) ∙ off))
              ∙ r
          | framed o d' page off read ↦
              page
              ∙ sym read
              ∙ (λ i. read_file (sym t.wal_exists i) db.page_size (o + 24))
              ∙ sym (ap (wal_or_database db p) (sym (t.same_offsets p) ∙ off))
              ∙ r
        ]

  pub page_after :
      (p : ℕ) (d : List ℕ)
      → 1 ≤ p
      → p ≤ db.page_n
      → read_page db p ≡ some d
      → read_database_page after p ≡ some d
  unfolding read_database_page
  page_after p d one le r =
      page_of-truncate db.page_size loop.file p db.page_n d t.sized one le
        (loop.contents p d one (page_copied p d r))

  some-none : {c : ℕ} → some c ≢ none
  some-none e = cc e

  present : (p : ℕ) → 1 ≤ p → p ≤ db.page_n → p ≢ ltx.lock_pgno db.page_size → loop.sums p ≢ none
  unfolding last
  present p one le n =
      elim (pages_of-SamePage db t.wal_file t.n t.offsets t.readable (λ _. none) (λ _. none) p) [
        | framed o d page off read ↦ loop.present p d page
        | neither page off ↦
            let (d, read, sum) = t.agrees p one le n in
            loop.preserved p (λ z. some-none (
              sym sum
              ∙ page_checksum_within ltx db p db.page_n (λ _. none) n le
              ∙ ap₂ (λ cs o. or_else (last cs) o)
                  (t.framed_sums p (sym (t.same_offsets p) ∙ off) le) z))
      ]

  sum_copied :
      (p : ℕ) (d : List ℕ)
      → 1 ≤ p
      → p ≤ db.page_n
      → p ≢ ltx.lock_pgno db.page_size
      → read_page db p ≡ some d
      → loop.sums p ≡ some (ltx.checksum_page p d)
  sum_copied p d one le n r = elim (Option-cases (loop.sums p)) [
    | inl z ↦ absurd (present p one le n z)
    | inr (c, e) ↦
        let (_, (d', page, same)) = loop.matching p c e in
        cc (e, same, page, loop.contents p d one (page_copied p d r))
  ]

  pub after-Agrees : Agrees ltx after (λ _. none) db.page_n after
  unfolding read_page last
  after-Agrees p one le n =
      let (d, read, sum) = t.agrees p one le n in
      (
        d,
        page_after p d one le read,
        page_checksum_within ltx after p db.page_n (λ _. none) n le
            ∙ same_sums p
            ∙ sum_copied p d one le n read,
      )

  -- Beyond the size in memory, a page without a frame keeps its checksum.
  pub sum_kept :
      (p : ℕ) → db.page_n < p → db.wal.frame_offsets p ≡ none → after.chksums p ≡ db.chksums p
  sum_kept p lt e =
      same_sums p
      ∙ elim (pages_of-SamePage db t.wal_file t.n t.offsets t.readable (λ _. none) (λ _. none) p) [
        | framed o d page off read ↦ cc (t.same_offsets p, off, e)
        | neither page off ↦ loop.kept p page
      ]

  pub after-IsWellFormed :
      ((p : ℕ) → db.page_n < p → (db.wal.frame_offsets p ≡ none) × (db.chksums p ≡ none))
      → IsWellFormed ltx after
  after-IsWellFormed none_beyond = record {
    file = truncate loop.file (db.page_n * db.page_size);
    exists = refl;
    sized = t.sized;
    matching =
        truncate-AllMatch ltx db.page_size loop.file after.chksums db.page_n t.sized within
          (λ p c e. loop.matching p c (sym (same_sums p) ∙ e));
    within = within;
    present = λ p one le n z. present p one le n (sym (same_sums p) ∙ z);
    no_wal = record { no_frames = λ p. refl; no_sums = λ p. refl };
  }
    where
      within : (p : ℕ) → db.page_n < p → after.chksums p ≡ none
      within p lt = sum_kept p lt (none_beyond p lt).0 ∙ (none_beyond p lt).1

-- What CheckpointNoLock comes to.
pub record Checkpointed (ltx : Ltx) (db : Db) : Type 0 where
  pub after : Db
  pub succeeds : checkpoint_no_lock ltx db ≡ (after, ok tt)
  pub pages :
      (p : ℕ) (d : List ℕ)
      → 1 ≤ p
      → p ≤ db.page_n
      → read_page db p ≡ some d
      → read_database_page after p ≡ some d
  pub cut_file : (f : File) → after.database ≡ some f → f.size ≡ db.page_n * db.page_size
  pub in_memory : Agrees ltx after (λ _. none) db.page_n after
  pub emptied : (p : ℕ) → (after.wal.frame_offsets p ≡ none) × (after.wal.chksums p ≡ [])
  pub wal_size : (f : File) → after.wal_file ≡ some f → f.size ≡ 0
  pub same : (after.pos ≡ db.pos) × (after.page_n ≡ db.page_n) × (after.ltx_dir ≡ db.ltx_dir)
  pub stays :
      (p : ℕ) → db.page_n < p → db.wal.frame_offsets p ≡ none → after.chksums p ≡ db.chksums p
  pub well_formed :
      ((p : ℕ) → db.page_n < p → (db.wal.frame_offsets p ≡ none) × (db.chksums p ≡ none))
      → IsWellFormed ltx after

-- Take a database with a WAL whose offsets and size in memory are those that readWALPageOffsets
-- reads from the WAL file, where the checksums in memory are those of the pages. CheckpointNoLock
-- succeeds: each page of the database is then in the database file as it was read with the WAL
-- before, the file is cut to the pages of the database, the checksums in memory are those of the
-- pages, and the WAL is empty; position, size and transaction files stay. A page beyond the size,
-- without a frame, keeps its checksum in memory; if there was no checksum and no frame beyond the
-- size, the database is well formed.
pub checkpoint_no_lock_correct : (ltx : Ltx) (db : Db) → HasWal ltx db → Checkpointed ltx db
unfolding truncate
checkpoint_no_lock_correct ltx db t = record {
  after = after ltx db t;
  succeeds = succeeds ltx db t;
  pages = page_after ltx db t;
  in_memory = after-Agrees ltx db t;
  emptied = λ p. (refl, refl);
  cut_file = λ f e. sym (ap size_of e);
  wal_size = λ f e. sym (ap size_of e);
  same = (refl, refl, refl);
  stays = sum_kept ltx db t;
  well_formed = after-IsWellFormed ltx db t;
}
  where
    size_of : Option File → ℕ
    size_of none = 0
    size_of (some f) = f.size
