-- ===== src/Db/Committed.antt =====
-- What CommitJournal (db.go) does with a transaction of the rollback journal on the primary: the
-- transaction file that it adds, the new position, and the invariant between transactions.
use litefs.Prelude.{
  ◌%◌, ◌^◌, ℕ, zero, suc, ◌+◌, ◌≤◌, ◌<◌, ◌≡◌, refl, sym, ap, ap₂, ◌∙◌, ◌≢◌, inl, inr, Bool, true,
  false, not, Option, none, some, Bool-cases, List, arith, if◌then◌else◌, ◌==◌, ==_ne, ==_self,
  ℕ_discrete, dec_le, to_be32,
}
use litefs.Disk.{File, read_full_at}
use litefs.Locks.Acquire.{rollback}
use litefs.Ltx.{renamed, Ltx, LtxFile}
use litefs.Db.State.{
  Db, Store, ok, err, Error, M, ◌>>=◌, ◌>>◌, return, get, put, modify, require, from_option,
  continue, writeable,
}
use litefs.Db.Checksum.{
  checksum, on_disk_upto, on_disk_checksum, read_database_page, read_page, wal_or_database,
  add_data?,
}
use litefs.Db.Apply.{mode_after, set_pos, mark_dirty}
use litefs.Db.Journal.{
  JournalMode, invalidated, invalidate_journal, is_journal_header_valid, sorted_upto, copy_pages,
  drop_sums, without_wal_sums, send_to_primary, send_with, next_file, strictly_verify, publish,
  commit_transaction, commit_journal,
}
use litefs.Db.WellFormed.{AllMatch}
use litefs.Db.Rolling.{AllPresent, checksum-on_disk}
use litefs.Db.Cut.{IsWellFormed}
use litefs.Db.Dirty.{sorted_upto-AreWithin}
use litefs.Db.Commit.{Copied, copy_pages-Copied}

-- A transaction that SQLite has written on the primary: the page writes are in the database file
-- and in the checksums, the journal's header is valid, and page 1 has the number of pages.
pub record InTransaction (store : Store) (ltx : Ltx) (mode : JournalMode) (db : Db) : Type 0 where
  pub file : File
  pub exists : db.database ≡ some file
  pub sized : 0 < db.page_size
  pub matching : AllMatch ltx db.page_size file db.chksums
  pub size_bytes : List ℕ
  pub size_read : read_full_at file 4 28 ≡ some size_bytes
  pub not_empty : 1 ≤ to_be32 size_bytes 0
  pub present : AllPresent ltx db (to_be32 size_bytes 0)
  pub no_frames : (p : ℕ) → db.wal.frame_offsets p ≡ none
  pub no_lock_sum : db.chksums (ltx.lock_pgno db.page_size) ≡ none
  pub may_write : writeable store db ≡ true
  pub on_primary : db.remote_halt_lock ≡ none
  pub header : is_journal_header_valid db ≡ (db, ok true)
  pub journal : Option File
  pub invalidates : invalidated mode db.journal ≡ ok journal

-- With no frame of the page in the WAL, it is read from the database file.
pub same_page :
    (d : Db) (p : ℕ) → d.wal.frame_offsets p ≡ none → read_page d p ≡ read_database_page d p
unfolding read_page
same_page d p e = ap (wal_or_database d p) e

module _ (store : Store) (ltx : Ltx) (mode : JournalMode) (db : Db)
    (t : InTransaction store ltx mode db) (not_first : ltx.lock_pgno db.page_size ≢ 1) where
  abbrev pub commit : ℕ
  commit = to_be32 t.size_bytes 0

  abbrev pub pgnos : List ℕ
  pgnos = sorted_upto db.dirty_page_set commit

  pub copied : Copied ltx (without_wal_sums db) commit pgnos
  copied =
      copy_pages-Copied ltx (without_wal_sums db) t.file commit t.exists t.sized t.matching
        (λ _. refl) t.present pgnos
        (sorted_upto-AreWithin db.dirty_page_set commit commit (omega arith))

  abbrev pub ready : Db
  ready = drop_sums ltx commit (without_wal_sums db)

  ready_within : (p : ℕ) → commit < p → ready.chksums p ≡ none
  unfolding drop_sums
  ready_within p lt = elim (ℕ_discrete p (ltx.lock_pgno db.page_size)) [
    | yes e ↦ ground (arith, ap db.chksums e ∙ t.no_lock_sum)
    | no n ↦ ground arith
  ]

  ready_matching : AllMatch ltx db.page_size t.file ready.chksums
  unfolding drop_sums
  ready_matching p c s = t.matching p c (elim (dec_le p commit) [
    | yes le ↦ ground arith
    | no gt ↦ absurd (cc (s, ready_within p (omega arith)))
  ])

  ready_present : AllPresent ltx ready commit
  unfolding drop_sums
  ready_present p one le n z = t.present p one le n (ground arith)

  pub ready_checksum :
      (c : ℕ) × ((checksum ltx ready commit (λ _. none) ≡ some c)
        × (on_disk_upto ltx ready commit ≡ some c))
  unfolding drop_sums
  ready_checksum =
      checksum-on_disk ltx ready t.file t.exists
        (record { no_frames = t.no_frames; no_sums = λ _. refl }) ready_matching not_first commit
        ready_present

  abbrev pub file : LtxFile
  file = next_file store db commit copied.pages ready_checksum.0

  -- After the journal is invalidated and the position set.
  abbrev pub after : Db
  after = record ready {
    ltx_dir = renamed file db.ltx_dir;
    journal = t.journal;
    dirty_page_set = λ _. false;
    page_n = commit;
    mode = mode_after rollback copied.pages;
    pos = record { txid = (db.pos.txid + 1) % 2 ^ 64; post_apply_checksum = ready_checksum.0 };
    marked = db.marked + 1;
  }

  begins : commit_journal store ltx mode db ≡ commit_transaction store ltx mode db
  unfolding commit_journal
  begins =
      (λ i.
        continue (λ _. is_journal_header_valid >>= checked)
          (require (t.may_write i) Error.read_only_replica db))
      ∙ ap (continue checked) t.header
      ∙ ap (λ b. (if b then invalidate_journal mode else commit_transaction store ltx mode) db)
          (==_ne db.page_size 0 (λ z. omega (arith, z, t.sized)))
    where
      checked : Bool → M (Unit {0})
      checked valid =
          if not valid
          then invalidate_journal mode
          else (if db.page_size == 0
              then invalidate_journal mode
              else commit_transaction store ltx mode)

  abbrev pub finish : ℕ → List (ℕ × List ℕ) → M (Unit {0})
  finish commit pages = do
    modify (drop_sums ltx commit)
    now ← get
    post ← from_option Error.missing_checksum (checksum ltx now commit (λ _. none))
    require (ltx.accepts (next_file store db commit pages post)) Error.bad_ltx
    send_to_primary store (next_file store db commit pages post)
    publish store ltx mode (next_file store db commit pages post)

  copies : commit_transaction store ltx mode db ≡ finish commit copied.pages (without_wal_sums db)
  unfolding commit_transaction
  copies =
      (λ i. continue opened (from_option Error.os (t.exists i) db))
      ∙ (λ i. continue sized (from_option Error.read_size (t.size_read i) db))
      ∙ ap (continue (finish commit)) copied.result
    where
      sized : List ℕ → M (Unit {0})
      sized size =
          put (without_wal_sums db)
          >> (copy_pages ltx (to_be32 size 0) (sorted_upto db.dirty_page_set (to_be32 size 0))
              >>= finish (to_be32 size 0))

      opened : File → M (Unit {0})
      opened file = from_option Error.read_size (read_full_at file 4 28) >>= sized

  send : send_to_primary store file ready ≡ (ready, ok tt)
  unfolding send_to_primary drop_sums
  send = ap (λ h. send_with store file h ready) t.on_primary

  on_disk_after :
      (w : Option File) (n : ℕ)
      → on_disk_upto ltx (record after { wal_file = w }) n ≡ on_disk_upto ltx ready n
  unfolding on_disk_upto read_database_page drop_sums
  on_disk_after w zero = refl
  on_disk_after w (suc n) =
      ap₂
        (λ before page.
          if suc n == ltx.lock_pgno db.page_size then before else add_data? ltx (suc n) before page)
        (on_disk_after w n)
        (same_page (record after { wal_file = w }) (suc n) (t.no_frames (suc n))
          ∙ sym (same_page ready (suc n) (t.no_frames (suc n))))

  disk_checksum : on_disk_checksum ltx (record after { wal_file = none }) ≡ some ready_checksum.0
  unfolding on_disk_checksum drop_sums
  disk_checksum =
      ap
        (λ b.
          if b
          then none
          else (if commit == 0
              then none
              else on_disk_upto ltx (record after { wal_file = none }) commit))
        (==_ne db.page_size 0 (λ z. omega (arith, z, t.sized)))
      ∙ ap (λ b. if b then none else on_disk_upto ltx (record after { wal_file = none }) commit)
          (==_ne commit 0 (λ z. omega (arith, z, t.not_empty)))
      ∙ on_disk_after none commit
      ∙ ready_checksum.1.1

  verified : strictly_verify store ltx ready_checksum.0 after ≡ (after, ok tt)
  unfolding strictly_verify on_disk_checksum drop_sums
  verified = elim (Bool-cases store.strict_verify) [
    | inl y ↦ ap (λ b. if◌then◌else◌ {A = M (Unit {0})} b compared (return tt) after) y ∙ same
    | inr n ↦ ap (λ b. if◌then◌else◌ {A = M (Unit {0})} b compared (return tt) after) n
  ]
    where
      compared : M (Unit {0})
      compared =
          from_option Error.read_page (on_disk_checksum ltx (record after { wal_file = none }))
          >>= λ chksum. require (chksum == ready_checksum.0) Error.verification_failed

      same : compared after ≡ (after, ok tt)
      same =
          ap
            (λ r.
              (from_option Error.read_page r >>= λ chksum.
              require (chksum == ready_checksum.0) Error.verification_failed)
                after)
            disk_checksum
          ∙ ap (λ b. require b Error.verification_failed after) (==_self ready_checksum.0)

  published : publish store ltx mode file ready ≡ (after, ok tt)
  unfolding publish invalidate_journal set_pos mark_dirty drop_sums next_file
  published =
      (λ i.
        continue (λ _. rest)
          (continue
            (λ journal. put (record with_file { journal = journal; dirty_page_set = λ _. false }))
            (with_file, t.invalidates i)))
      ∙ verified
    where
      with_file : Db
      with_file = record ready { ltx_dir = renamed file db.ltx_dir }

      rest : M (Unit {0})
      rest =
          modify (λ d. record d { page_n = commit; mode = mode_after rollback copied.pages })
          >> (set_pos (record {
            txid = (db.pos.txid + 1) % 2 ^ 64;
            post_apply_checksum = ready_checksum.0;
          })
              >> (mark_dirty >> strictly_verify store ltx ready_checksum.0))

  finishes :
      finish commit copied.pages (without_wal_sums db)
      ≡ continue
          (λ _. send_to_primary store file >> publish store ltx mode file)
          (require (ltx.accepts file) Error.bad_ltx ready)
  finishes =
      ap (λ r. continue encoded (from_option Error.missing_checksum r ready)) ready_checksum.1.0
    where
      encoded : ℕ → M (Unit {0})
      encoded post =
          require (ltx.accepts (next_file store db commit copied.pages post)) Error.bad_ltx
          >> (send_to_primary store (next_file store db commit copied.pages post)
              >> publish store ltx mode (next_file store db commit copied.pages post))

  pub commit_journal-accepted :
      ltx.accepts file ≡ true → commit_journal store ltx mode db ≡ (after, ok tt)
  commit_journal-accepted a =
      begins
      ∙ copies
      ∙ finishes
      ∙ ap
          (λ b.
            continue (λ _. send_to_primary store file >> publish store ltx mode file)
              (require b Error.bad_ltx ready))
          a
      ∙ ap (continue (λ _. publish store ltx mode file)) send
      ∙ published

  pub commit_journal-refused :
      ltx.accepts file ≡ false → commit_journal store ltx mode db ≡ (ready, err Error.bad_ltx)
  commit_journal-refused a =
      begins
      ∙ copies
      ∙ finishes
      ∙ ap
          (λ b.
            continue (λ _. send_to_primary store file >> publish store ltx mode file)
              (require b Error.bad_ltx ready))
          a

  pub after-IsWellFormed : IsWellFormed ltx after
  unfolding drop_sums
  after-IsWellFormed = record {
    file = t.file;
    exists = t.exists;
    sized = t.sized;
    matching = ready_matching;
    within = ready_within;
    present = ready_present;
    no_wal = record { no_frames = t.no_frames; no_sums = λ _. refl };
  }

  pub after-on_disk : on_disk_upto ltx after commit ≡ some ready_checksum.0
  unfolding drop_sums
  after-on_disk = on_disk_after db.wal_file commit ∙ ready_checksum.1.1
