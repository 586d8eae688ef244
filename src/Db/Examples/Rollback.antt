-- ===== src/Db/Examples/Rollback.antt =====
-- A journal of one frame of 8 bytes, with sectors of 32 bytes, and one whose sector size is 0.
use litefs.Prelude.{◌≡◌, refl, List, ℕ, some, [], ◌∷◌, ◌++◌, arith, be32, to_be32}
use litefs.Disk.{File, read_full_at}
use litefs.Db.State.{Db, Result}
use litefs.Db.Journal.{journal_header_string}
use litefs.Db.Writes.{is_byte_slice_zero}
use litefs.Db.JournalReader.{journal_checksum}
use litefs.Db.Rollback.{rollback_journal}
use litefs.Db.RolledBack.{HasJournal, RolledBack, rollback_journal_correct}
use litefs.Db.Examples.{ltx}
use litefs.Db.Examples.WalCommit.{in_wal, one_page, file_of}
use litefs.Db.Examples.Checkpoint.{matching}

abbrev header : ℕ → ℕ → List ℕ
header sector page_size =
    journal_header_string ++ be32 1 ++ be32 5 ++ be32 1 ++ be32 sector ++ be32 page_size

abbrev old_page : List ℕ
old_page = 1 ∷ 2 ∷ 3 ∷ 4 ∷ 5 ∷ 6 ∷ 7 ∷ 8 ∷ []

abbrev journal : File
journal = file_of (header 32 8 ++ be32 0 ++ be32 1 ++ old_page ++ be32 5)

abbrev writing : Db
writing = record in_wal { journal = some journal }

writing-HasJournal : HasJournal ltx writing
unfolding read_full_at is_byte_slice_zero journal_checksum
writing-HasJournal = record {
  journal = journal;
  journal_exists = refl;
  file = one_page;
  exists = refl;
  sized = omega arith;
  matching = matching;
  hdr = header 32 8;
  header_read = refl;
  in_use = refl;
  pages = (1, old_page) ∷ [];
  counted = refl;
  some_pages = omega arith;
  small = omega arith;
  has_sector = omega arith;
  fits = omega arith;
  same_page_size = refl;
  frames = ((be32 1 ++ old_page ++ be32 5, refl, refl, refl, refl), tt);
  ends = refl;
  n = 1;
  are_pages = ((omega arith, omega arith, refl), tt);
}

rollback_journal_correct_example :
    RolledBack ltx writing writing-HasJournal (to_be32 writing-HasJournal.hdr 16)
rollback_journal_correct_example = rollback_journal_correct ltx writing writing-HasJournal

-- With a sector size of 0 the reader finds no frame and stays at the start of the file.
stuck :
    (rollback_journal ltx
      (record in_wal { page_size = 512; journal = some (file_of (header 0 512)) })).1
    ≡ Result.diverges
unfolding rollback_journal
stuck = refl
