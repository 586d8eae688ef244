-- ===== src/Db/Examples.antt =====
-- A small database of one page of two bytes, and a transaction that changes the page and adds
-- another.
mod Commit
mod WalCommit
mod Rollback
mod Checkpoint
mod RunTransaction
use litefs.Prelude.{
  ◌+◌, ◌*◌, ◌≡◌, refl, true, false, ◌==◌, if◌then◌else◌, none, some, [], ◌∷◌, arith, get_or,
  ℕ_discrete, subst, sym,
}
use litefs.Wal.{little_endian}
use litefs.Disk.{File, read_full_at}
use litefs.Locks.Acquire.{rollback}
use litefs.Ltx.{Ltx, LtxFile}
use litefs.Db.State.{Db}
use litefs.Db.WellFormed.{page_of, AllMatch}
use litefs.Db.Cut.{IsWellFormed, Covers}
use litefs.Db.Replica.{AppliedLtx, apply_ltx_no_lock_correct}

abbrev pub ltx : Ltx
ltx = record {
  checksum_flag = 0x8000000000000000;
  checksum_page = λ pgno bytes. 65536 * pgno + 256 * get_or bytes 0 0 + get_or bytes 1 0;
  lock_pgno = λ size. 5;
  accepts = λ f. true;
}

abbrev one_page : File
one_page = record { size = 2; byte = λ i. if i == 0 then 7 else 8 }

abbrev small : Db
small = record {
  page_size = 2;
  page_n = 1;
  pos = record { txid = 3; post_apply_checksum = 67336 };
  mode = rollback;
  remote_halt_lock = none;
  chksums = λ p. if p == 1 then some 67336 else none;
  dirty_page_set = λ _. false;
  wal = record {
    offset = 0;
    byte_order = little_endian;
    salt1 = 0;
    salt2 = 0;
    chksum1 = 0;
    chksum2 = 0;
    frame_offsets = λ _. none;
    chksums = λ _. [];
  };
  database = some one_page;
  journal = none;
  wal_file = none;
  shm = none;
  ltx_dir = [];
  marked = 0;
}

abbrev transaction : LtxFile
transaction = record {
  header = record {
    page_size = 2;
    commit = 2;
    min_txid = 4;
    max_txid = 4;
    pre_apply_checksum = 67336;
    wal_salt1 = 0;
    wal_salt2 = 0;
    wal_offset = 0;
    wal_size = 0;
    node_id = 9;
  };
  pages = (1, 1 ∷ 2 ∷ []) ∷ (2, 3 ∷ 4 ∷ []) ∷ [];
  post_apply_checksum = 0;
}

small-matching : AllMatch ltx 2 one_page small.chksums
unfolding read_full_at
small-matching p c s = elim (ℕ_discrete p 1) [
  | yes e ↦ (
    omega arith,
    (
      7 ∷ 8 ∷ [],
      subst (λ q. page_of 2 one_page q ≡ some (7 ∷ 8 ∷ [])) (sym e) page,
      ground (arith, s),
    ),
  )
  | no n ↦ ground arith
]
  where
    page : page_of 2 one_page 1 ≡ some (7 ∷ 8 ∷ [])
    page = refl

small-IsWellFormed : IsWellFormed ltx small
small-IsWellFormed = record {
  file = one_page;
  exists = refl;
  sized = omega arith;
  matching = small-matching;
  within = λ p lt. ground arith;
  present = λ p one le n z. ground arith;
  no_wal = record { no_frames = λ _. refl; no_sums = λ _. refl };
}

transaction-Covers : Covers ltx small transaction
transaction-Covers p lt le n z = ground arith

apply_ltx_no_lock_correct_example : AppliedLtx ltx small transaction
apply_ltx_no_lock_correct_example =
    apply_ltx_no_lock_correct ltx small transaction small-IsWellFormed (λ e. omega arith)
      ((omega arith, omega arith, refl), ((omega arith, omega arith, refl), tt)) transaction-Covers
      refl
