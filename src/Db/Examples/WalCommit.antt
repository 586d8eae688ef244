-- ===== src/Db/Examples/WalCommit.antt =====
-- A transaction of two frames in the WAL of a database of one page of 8 bytes.
use litefs.Prelude.{
  ◌≡◌, ◌≢◌, ◌<◌, ◌≤◌, refl, sym, subst, true, false, ◌==◌, if◌then◌else◌, none, some, List, [], ◌∷◌,
  arith, length, get_or, ℕ,
}
use litefs.Wal.{big_endian, Frame, wal_sum, wal_checksum, frame_checksum}
use litefs.Wal.Format.{frame_sum, Log, header_sum, wal_bytes}
use litefs.Disk.{File, read_full_at}
use litefs.Locks.Acquire.{wal}
use litefs.Db.State.{Db, Store}
use litefs.Db.TxFrames.{TxFrames, found, build_tx_frame_offsets}
use litefs.Db.Checksum.{read_page, page_checksum}
use litefs.Db.Sums.{PageAgrees}
use litefs.Db.CommitWal.{with_offsets}
use litefs.Db.CommittedWal.{InWalTransaction}
use litefs.Db.PrimaryWal.{CommittedWalTx, commit_wal_correct}
use litefs.Db.Examples.{ltx}

abbrev pub log : Log
log = record { bo = big_endian; page_size = 8; seq = 1; salt1 = 17; salt2 = 18 }

abbrev pub frames : List Frame
frames =
    record { pgno = 1; commit = 0; bytes = 1 ∷ 2 ∷ 3 ∷ 4 ∷ 5 ∷ 6 ∷ 7 ∷ 8 ∷ [] }
    ∷ record { pgno = 2; commit = 2; bytes = 8 ∷ 7 ∷ 6 ∷ 5 ∷ 4 ∷ 3 ∷ 2 ∷ 1 ∷ [] }
    ∷ []

abbrev pub file_of : List ℕ → File
file_of bytes = record { size = length bytes; byte = λ i. get_or bytes i 0 }

abbrev pub one_page : File
one_page = record { size = 8; byte = λ i. 0 }

abbrev primary : Store
primary = record {
  is_primary = true;
  has_primary_info = false;
  id = 9;
  strict_verify = true;
  client_commit = λ _ _. false;
}

abbrev pub in_wal : Db
in_wal = record {
  page_size = 8;
  page_n = 1;
  pos = record { txid = 3; post_apply_checksum = 0x8000000000010000 };
  mode = wal;
  remote_halt_lock = none;
  chksums = λ p. if p == 1 then some 65536 else none;
  dirty_page_set = λ _. false;
  wal = record {
    offset = 32;
    byte_order = big_endian;
    salt1 = 17;
    salt2 = 18;
    chksum1 = (header_sum log).0;
    chksum2 = (header_sum log).1;
    frame_offsets = λ _. none;
    chksums = λ _. [];
  };
  database = some one_page;
  journal = none;
  wal_file = some (file_of (wal_bytes log frames));
  shm = none;
  ltx_dir = [];
  marked = 0;
}

abbrev tx : TxFrames
tx = record {
  offsets = (1, 32) ∷ (2, 64) ∷ [];
  commit = 2;
  chksum = (3096398778, 285977876);
  end_offset = 96;
}

scans : build_tx_frame_offsets in_wal (file_of (wal_bytes log frames)) ≡ found tx
unfolding build_tx_frame_offsets wal_sum wal_checksum frame_checksum frame_sum read_full_at
scans = refl

first_page : PageAgrees ltx in_wal (λ _. none) 1 in_wal 1
unfolding read_page page_checksum read_full_at
first_page = (0 ∷ 0 ∷ 0 ∷ 0 ∷ 0 ∷ 0 ∷ 0 ∷ 0 ∷ [], refl, refl)

second_frame : with_offsets tx.offsets (λ _. none) 2 ≢ none
unfolding with_offsets
second_frame = λ e. ground arith

in_wal-InWalTransaction : InWalTransaction ltx in_wal tx
in_wal-InWalTransaction = record {
  wal_file = file_of (wal_bytes log frames);
  wal_exists = refl;
  file = one_page;
  exists = refl;
  sized = omega arith;
  agrees = λ p one le n.
      subst (PageAgrees ltx in_wal (λ _. none) 1 in_wal) (sym (is_one p one le)) first_page;
  scanned = scans;
  small = omega arith;
  grown = λ p lt le n.
      subst (λ q. with_offsets tx.offsets (λ _. none) q ≢ none) (is_two p lt le) second_frame;
  on_primary = refl;
}
  where
    is_one : (p : ℕ) → 1 ≤ p → p ≤ 1 → p ≡ 1
    is_one p one le = omega arith

    is_two : (p : ℕ) → 1 < p → p ≤ 2 → 2 ≡ p
    is_two p lt le = omega arith

commit_wal_correct_example : CommittedWalTx primary ltx in_wal tx
commit_wal_correct_example =
    commit_wal_correct primary ltx in_wal tx in_wal-InWalTransaction (λ e. omega arith)
