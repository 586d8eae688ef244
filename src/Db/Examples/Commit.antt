-- ===== src/Db/Examples/Commit.antt =====
-- A transaction that SQLite has written to a database of one page of 32 bytes, with its journal.
use litefs.Prelude.{
  ◌≡◌, refl, sym, ap, ◌∙◌, true, false, ◌==◌, if◌then◌else◌, ltb, none, some, [], ◌∷◌, arith,
  get_or, ℕ_discrete, subst, equal_bytes, to_be32,
}
use litefs.Wal.{little_endian}
use litefs.Disk.{File, read_full_at, bytes_from, read-fits}
use litefs.Locks.Acquire.{rollback}
use litefs.Db.State.{Db, Store, ok, writeable}
use litefs.Db.Journal.{
  delete, journal_header_string, is_journal_header_valid, commit_journal, next_file,
}
use litefs.Db.WellFormed.{page_of, AllMatch}
use litefs.Db.Cut.{IsWellFormed}
use litefs.Db.Convergence.{InSync, Replicated, replay-commit_journal}
use litefs.Db.Committed.{InTransaction}
use litefs.Db.Primary.{CommittedTx, commit_journal_correct}
use litefs.Db.Examples.{ltx}

abbrev page_file : File
page_file = record { size = 32; byte = λ i. if i == 31 then 1 else (if ltb i 28 then 7 else 0) }

abbrev pub journal_file : File
journal_file = record { size = 512; byte = λ i. get_or journal_header_string i 0 }

abbrev pub primary : Store
primary = record {
  is_primary = true;
  has_primary_info = false;
  id = 9;
  strict_verify = true;
  client_commit = λ _ _. false;
}

abbrev in_transaction : Db
in_transaction = record {
  page_size = 32;
  page_n = 1;
  pos = record { txid = 3; post_apply_checksum = 0x8000000000000005 };
  mode = rollback;
  remote_halt_lock = none;
  chksums = λ p. if p == 1 then some 67335 else none;
  dirty_page_set = λ p. p == 1;
  wal = record {
    offset = 0;
    byte_order = little_endian;
    salt1 = 0;
    salt2 = 0;
    chksum1 = 0;
    chksum2 = 0;
    frame_offsets = λ _. none;
    chksums = λ _. [];
  };
  database = some page_file;
  journal = some journal_file;
  wal_file = none;
  shm = none;
  ltx_dir = [];
  marked = 0;
}

page_1 : page_of 32 page_file 1 ≡ some (bytes_from page_file.byte 0 32)
page_1 = read-fits page_file 32 0 (omega arith)

in_transaction-AllMatch : AllMatch ltx 32 page_file in_transaction.chksums
unfolding bytes_from
in_transaction-AllMatch p c s = elim (ℕ_discrete p 1) [
  | yes e ↦ (
    omega arith,
    (
      bytes_from page_file.byte 0 32,
      subst (λ q. page_of 32 page_file q ≡ some (bytes_from page_file.byte 0 32)) (sym e) page_1,
      ground (arith, s),
    ),
  )
  | no n ↦ ground arith
]

in_transaction-InTransaction : InTransaction primary ltx delete in_transaction
unfolding read_full_at writeable is_journal_header_valid equal_bytes
in_transaction-InTransaction = record {
  file = page_file;
  exists = refl;
  sized = omega arith;
  matching = in_transaction-AllMatch;
  size_bytes = 0 ∷ 0 ∷ 0 ∷ 1 ∷ [];
  size_read = refl;
  not_empty = omega arith;
  present = λ p one le n z. ground arith;
  no_frames = λ _. refl;
  no_lock_sum = refl;
  may_write = refl;
  on_primary = refl;
  header = refl;
  journal = none;
  invalidates = refl;
}

commit_journal_correct_example :
    CommittedTx primary ltx delete in_transaction
      (to_be32 in_transaction-InTransaction.size_bytes 0)
commit_journal_correct_example =
    commit_journal_correct primary ltx delete in_transaction in_transaction-InTransaction
      (λ e. omega arith)

in_transaction-CommittedTx :
    CommittedTx primary ltx delete in_transaction
      (to_be32 in_transaction-InTransaction.size_bytes 0)
in_transaction-CommittedTx =
    commit_journal_correct primary ltx delete in_transaction in_transaction-InTransaction
      (λ e. omega arith)

-- The replica still has the page as it was.
abbrev pub old_file : File
old_file = record { size = 32; byte = λ _. 0 }

abbrev pub replica : Db
replica = record in_transaction {
  chksums = λ p. if p == 1 then some 65536 else none;
  dirty_page_set = λ _. false;
  database = some old_file;
  journal = none;
}

old_page : page_of 32 old_file 1 ≡ some (bytes_from old_file.byte 0 32)
old_page = read-fits old_file 32 0 (omega arith)

pub replica-AllMatch : AllMatch ltx 32 old_file replica.chksums
unfolding bytes_from
replica-AllMatch p c s = elim (ℕ_discrete p 1) [
  | yes e ↦ (
    omega arith,
    (
      bytes_from old_file.byte 0 32,
      subst (λ q. page_of 32 old_file q ≡ some (bytes_from old_file.byte 0 32)) (sym e) old_page,
      ground (arith, s),
    ),
  )
  | no n ↦ ground arith
]

replica-IsWellFormed : IsWellFormed ltx replica
replica-IsWellFormed = record {
  file = old_file;
  exists = refl;
  sized = omega arith;
  matching = replica-AllMatch;
  within = λ p lt. ground arith;
  present = λ p one le n z. ground arith;
  no_wal = record { no_frames = λ _. refl; no_sums = λ _. refl };
}

new_size : (t : InTransaction primary ltx delete in_transaction) → to_be32 t.size_bytes 0 ≡ 1
unfolding read_full_at
new_size t = ap (λ b. to_be32 b 0) bytes
  where
    some_injective : {A : Type 0} {a b : A} → some a ≡ some b → a ≡ b
    some_injective p = cc

    read : read_full_at page_file 4 28 ≡ some (0 ∷ 0 ∷ 0 ∷ 1 ∷ [])
    read = refl

    bytes : t.size_bytes ≡ 0 ∷ 0 ∷ 0 ∷ 1 ∷ []
    bytes =
        some_injective
          (sym t.size_read ∙ ap (λ f. read_full_at f 4 28) (some_injective (sym t.exists)) ∙ read)

replica-InSync :
    (t : InTransaction primary ltx delete in_transaction)
    → InSync ltx in_transaction (to_be32 t.size_bytes 0) replica
replica-InSync t = record {
  well_formed = replica-IsWellFormed;
  same_page_size = refl;
  same_pos = refl;
  same_pages = λ p one le n clean. absurd (ground (arith, new_size t));
  grown = λ p new le n. absurd (omega (arith, new_size t));
}

replay-commit_journal_example :
    (commit_journal primary ltx delete in_transaction
      ≡ (in_transaction-CommittedTx.committed, ok tt))
    × Replicated ltx in_transaction in_transaction-CommittedTx.committed
        (next_file primary in_transaction
          (to_be32 in_transaction-InTransaction.size_bytes 0)
          in_transaction-CommittedTx.pages
          in_transaction-CommittedTx.chksum)
        replica
replay-commit_journal_example =
    replay-commit_journal primary ltx delete in_transaction in_transaction-InTransaction
      (λ e. omega arith) in_transaction-CommittedTx refl replica
      (replica-InSync in_transaction-InTransaction)
