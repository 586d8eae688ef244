-- ===== src/Db/Examples/Checkpoint.antt =====
-- The checkpoint of a WAL of two frames into a database of one page of 8 bytes.
use litefs.Prelude.{
  Option, ◌≡◌, ◌≤◌, refl, sym, subst, ℕ, ◌==◌, if◌then◌else◌, none, some, [], ◌∷◌, arith, update,
  ℕ_discrete,
}
use litefs.Wal.{WalRead, wal_sum, wal_checksum, frame_checksum}
use litefs.Wal.Format.{frame_sum, wal_bytes}
use litefs.Disk.{read_full_at}
use litefs.Db.State.{Db}
use litefs.Db.Checksum.{read_page, page_checksum}
use litefs.Db.CommitWal.{with_offsets}
use litefs.Db.WellFormed.{AllMatch, page_of}
use litefs.Db.Sums.{PageAgrees}
use litefs.Db.Checkpoint.{read_wal_page_offsets}
use litefs.Db.Checkpointed.{HasWal, Checkpointed, checkpoint_no_lock_correct}
use litefs.Db.Examples.{ltx}
use litefs.Db.Examples.WalCommit.{in_wal, one_page, file_of, log, frames}

abbrev committed : Db
committed = record in_wal {
  page_n = 2;
  wal = record (in_wal.wal) {
    offset = 96;
    frame_offsets = λ p. if p == 1 then some 32 else (if p == 2 then some 64 else none);
    chksums = λ p. if p == 1 then 65794 ∷ [] else (if p == 2 then 133127 ∷ [] else []);
  };
}

reads :
    read_wal_page_offsets (file_of (wal_bytes log frames)) ≡ WalRead.ok ((1, 32) ∷ (2, 64) ∷ [], 2)
unfolding read_wal_page_offsets wal_sum wal_checksum frame_checksum frame_sum
    litefs.Reading.read_full
reads = refl

zero_page : page_of 8 one_page 1 ≡ some (0 ∷ 0 ∷ 0 ∷ 0 ∷ 0 ∷ 0 ∷ 0 ∷ 0 ∷ [])
unfolding read_full_at
zero_page = refl

pub matching : AllMatch ltx 8 one_page committed.chksums
matching p c s = elim (ℕ_discrete p 1) [
  | yes e ↦ (
    omega arith,
    (
      0 ∷ 0 ∷ 0 ∷ 0 ∷ 0 ∷ 0 ∷ 0 ∷ 0 ∷ [],
      subst (λ q. page_of 8 one_page q ≡ some (0 ∷ 0 ∷ 0 ∷ 0 ∷ 0 ∷ 0 ∷ 0 ∷ 0 ∷ [])) (sym e)
          zero_page,
      ground (arith, s),
    ),
  )
  | no n ↦ ground arith
]

page_1 : PageAgrees ltx committed (λ _. none) 2 committed 1
unfolding read_page page_checksum read_full_at
page_1 = (1 ∷ 2 ∷ 3 ∷ 4 ∷ 5 ∷ 6 ∷ 7 ∷ 8 ∷ [], refl, refl)

page_2 : PageAgrees ltx committed (λ _. none) 2 committed 2
unfolding read_page page_checksum read_full_at
page_2 = (8 ∷ 7 ∷ 6 ∷ 5 ∷ 4 ∷ 3 ∷ 2 ∷ 1 ∷ [], refl, refl)

page_agrees : (p : ℕ) → 1 ≤ p → p ≤ 2 → PageAgrees ltx committed (λ _. none) 2 committed p
page_agrees p one le = elim (ℕ_discrete p 1) [
  | yes e ↦ subst (PageAgrees ltx committed (λ _. none) 2 committed) (sym e) page_1
  | no n ↦ subst (PageAgrees ltx committed (λ _. none) 2 committed) (omega arith) page_2
]

committed-HasWal : HasWal ltx committed
unfolding with_offsets read_full_at
committed-HasWal = record {
  file = one_page;
  exists = refl;
  wal_file = file_of (wal_bytes log frames);
  wal_exists = refl;
  sized = omega arith;
  matching = matching;
  agrees = λ p one le n. page_agrees p one le;
  offsets = (1, 32) ∷ (2, 64) ∷ [];
  not_empty = λ e. ground arith;
  reads = reads;
  n = 2;
  readable = (
    (omega arith, omega arith, 1 ∷ 2 ∷ 3 ∷ 4 ∷ 5 ∷ 6 ∷ 7 ∷ 8 ∷ [], refl),
    ((omega arith, omega arith, 8 ∷ 7 ∷ 6 ∷ 5 ∷ 4 ∷ 3 ∷ 2 ∷ 1 ∷ [], refl), tt),
  );
  same_offsets = λ p. same p;
  framed_sums = λ p e le. ground arith;
}
  where
    same :
        (p : ℕ)
        → update {A = Option ℕ} (update (λ _. none) 1 (some 32)) 2 (some 64) p
          ≡ (if p == 1 then some 32 else (if p == 2 then some 64 else none))
    same p = ground arith

checkpoint_no_lock_correct_example : Checkpointed ltx committed
checkpoint_no_lock_correct_example = checkpoint_no_lock_correct ltx committed committed-HasWal
