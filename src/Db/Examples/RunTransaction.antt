-- ===== src/Db/Examples/RunTransaction.antt =====
-- A transaction that writes page 1 of a database of one page of 32 bytes, and adds page 2.
use litefs.Prelude.{ap, ◌≡◌, ◌∙◌, refl, ℕ, List, true, false, none, some, [], ◌∷◌, arith}
use litefs.Disk.{read_full_at}
use litefs.Db.State.{Db, writeable}
use litefs.Db.Journal.{delete, journal_header_string}
use litefs.Db.RunTransaction.{IsTransaction, RunTransaction, size_in, write_pages-commit_journal}
use litefs.Db.Examples.{ltx}
use litefs.Db.Overlay.{overlay}
use litefs.Db.Cut.{IsWellFormed}
use litefs.Db.Examples.Commit.{replica, replica-AllMatch, old_file, journal_file, primary}
use litefs.Prelude.{equal_bytes}

abbrev idle : Db
idle = record replica { journal = some journal_file }

-- The new page 1, with the size 2 at offset 28.
abbrev first : List ℕ
first =
    9 ∷ 0 ∷ 0 ∷ 0 ∷ 0 ∷ 0 ∷ 0 ∷ 0 ∷ 0 ∷ 0 ∷ 0 ∷ 0 ∷ 0 ∷ 0 ∷ 0 ∷ 0 ∷ 0 ∷ 0 ∷ 0 ∷ 0 ∷ 0 ∷ 0 ∷ 0 ∷ 0
    ∷ 0 ∷ 0 ∷ 0 ∷ 0 ∷ 0 ∷ 0 ∷ 0 ∷ 2 ∷ []

abbrev second : List ℕ
second =
    5 ∷ 5 ∷ 5 ∷ 5 ∷ 5 ∷ 5 ∷ 5 ∷ 5 ∷ 5 ∷ 5 ∷ 5 ∷ 5 ∷ 5 ∷ 5 ∷ 5 ∷ 5 ∷ 5 ∷ 5 ∷ 5 ∷ 5 ∷ 5 ∷ 5 ∷ 5 ∷ 5
    ∷ 5 ∷ 5 ∷ 5 ∷ 5 ∷ 5 ∷ 5 ∷ 5 ∷ 5 ∷ []

abbrev page_writes : List (ℕ × List ℕ)
page_writes = (1, second) ∷ (2, second) ∷ (1, first) ∷ []

abbrev idle-IsWellFormed : IsWellFormed ltx idle
idle-IsWellFormed = record {
  file = old_file;
  exists = refl;
  sized = omega arith;
  matching = replica-AllMatch;
  within = λ p lt. ground arith;
  present = λ p one le n z. ground arith;
  no_wal = record { no_frames = λ _. refl; no_sums = λ _. refl };
}

second_written : (p : ℕ) → p ≡ 2 → overlay page_writes (λ _. none) p ≡ some second
unfolding litefs.Prelude.ℕ_discrete
second_written p e = ap (overlay page_writes (λ _. none)) e

page_writes-IsTransaction : IsTransaction primary ltx delete idle old_file page_writes first
unfolding writeable read_full_at equal_bytes litefs.Prelude.ℕ_discrete
page_writes-IsTransaction = record {
  n = 2;
  small = omega arith;
  pages = (
    (omega arith, omega arith, refl),
    ((omega arith, omega arith, refl), ((omega arith, omega arith, refl), tt)),
  );
  no_lock_page = refl;
  first_page = refl;
  has_header = omega arith;
  not_empty = omega arith;
  grown = λ p lt le n z. absurd (cc (z, second_written p (omega arith)));
  may_write = refl;
  on_primary = refl;
  in_rollback_mode = refl;
  clean = λ p. refl;
  no_lock_sum = refl;
  journal_file = journal_file;
  journal_exists = refl;
  journal_bytes = journal_header_string;
  journal_read = refl;
  journal_header = refl;
  journal = none;
  invalidates = refl;
}

write_pages-commit_journal_example :
    RunTransaction primary ltx delete idle page_writes (size_in first)
write_pages-commit_journal_example =
    write_pages-commit_journal primary ltx delete idle idle-IsWellFormed page_writes first
      page_writes-IsTransaction (λ e. omega arith)
