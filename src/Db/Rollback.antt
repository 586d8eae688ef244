-- ===== src/Db/Rollback.antt =====
-- Rolling back a journal and recovery (db.go): rollbackJournal, rollbackJournalSegment and recover.
use litefs.Prelude.{ℕ, zero, suc, Option, none, some, List, if◌then◌else◌}
use litefs.Disk.{File}
use litefs.Ltx.{Ltx}
use litefs.Db.State.{M, Result, Error, ◌>>=◌, ◌>>◌, return, fail, get, modify, from_option}
use litefs.Db.Pages.{write_database_page, truncate_database}
use litefs.Db.JournalReader.{
  JournalReader, new_journal_reader, JournalRead, ok, at_end, err, panics, next, read_frame,
}
use litefs.Db.Checkpoint.{checkpoint_no_lock}

-- A round of the loop over the frames of a segment.
abbrev pub segment_frame :
    Ltx
    → (JournalReader → M JournalReader)
    → JournalReader × JournalRead (ℕ × List ℕ)
    → M JournalReader
segment_frame ltx rest (r, ok (pgno, bytes)) = write_database_page ltx pgno bytes >> rest r
segment_frame ltx rest (r, at_end) = return r
segment_frame ltx rest (r, err) = fail Error.bad_journal
segment_frame ltx rest (r, panics) = λ db. (db, Result.panics)

-- func (db *DB) rollbackJournalSegment(ctx, r *JournalReader, dbFile *os.File) error, one frame for
-- each unit of fuel.
unfoldable pub rollback_journal_segment : ℕ → Ltx → JournalReader → M JournalReader
unfolding write_database_page read_frame
rollback_journal_segment zero ltx r = λ db. (db, Result.diverges)
rollback_journal_segment (suc n) ltx r =
    segment_frame ltx (rollback_journal_segment n ltx) (read_frame r)

-- A round of the loop over the segments.
abbrev pub journal_segment :
    Ltx
    → (JournalReader → M JournalReader)
    → JournalReader × JournalRead (Unit {0})
    → M JournalReader
journal_segment ltx rest (r, ok x) = rollback_journal_segment (suc r.file.size) ltx r >>= rest
journal_segment ltx rest (r, at_end) = return r
journal_segment ltx rest (r, err) = fail Error.bad_journal
journal_segment ltx rest (r, panics) = λ db. (db, Result.panics)

-- The loop over the segments. A segment goes on after its sector, but with a sector size of 0 a
-- reader that finds no frame stays at offset 0: the loop does not end.
unfoldable pub journal_segments : ℕ → Ltx → JournalReader → M JournalReader
unfolding rollback_journal_segment next
journal_segments zero ltx r = λ db. (db, Result.diverges)
journal_segments (suc n) ltx r = journal_segment ltx (journal_segments n ltx) (next r)

-- With a journal file `f`, from the reader to the end; the fuel is more than the segments that fit
-- the file.
unfoldable pub rollback_file : Ltx → File → M (Unit {0})
unfolding journal_segments truncate_database
rollback_file ltx f = do
  db ← get
  _ ← from_option Error.os db.database
  r ← journal_segments (suc (suc f.size)) ltx (new_journal_reader f db.page_size)
  (if r.is_valid then truncate_database r.commit else return tt)
  modify (λ db. record db { journal = none })

abbrev pub rollback_if_exists : Ltx → Option File → M (Unit {0})
rollback_if_exists ltx none = return tt
rollback_if_exists ltx (some f) = rollback_file ltx f

-- func (db *DB) rollbackJournal(ctx context.Context) error
unfoldable pub rollback_journal : Ltx → M (Unit {0})
unfolding rollback_file
rollback_journal ltx = get >>= λ db. rollback_if_exists ltx db.journal

-- func (db *DB) recover(ctx context.Context) (err error)
unfoldable pub recover : Ltx → M (Unit {0})
unfolding rollback_journal checkpoint_no_lock
recover ltx = rollback_journal ltx >> checkpoint_no_lock ltx
