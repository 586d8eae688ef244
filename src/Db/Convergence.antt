-- ===== src/Db/Convergence.antt =====
-- A transaction that the primary commits (db.go, CommitJournal), on a replica that receives its file
-- (WriteLTXFileAt) and applies it (ApplyLTXNoLock).
use litefs.Prelude.{
  ◌%◌, ◌^◌, ◌-◌, ◌*◌, ℕ, zero, suc, ◌+◌, ◌≤◌, ◌<◌, ◌≡◌, refl, sym, ap, ap₂, ◌∙◌, subst, ◌≢◌, inl,
  inr, true, false, Option, none, some, Option-cases, Bool-cases, List, [], ◌∷◌, arith, ◌==◌,
  ==_iff, ==_ne, ℕ_discrete, to_be32, update,
}
use litefs.Ltx.{renamed, Ltx, LtxFile}
use litefs.Db.State.{Db, Store, ok, Error, M, ◌>>=◌, ◌>>◌, continue, require, put, return}
use litefs.Db.Checksum.{on_disk_upto, read_database_page, read_page, read_file, add_data?}
use litefs.Db.Apply.{apply_ltx_no_lock, write_ltx_file_at}
use litefs.Db.Journal.{JournalMode, next_file, commit_journal}
use litefs.Db.Overlay.{ArePages, overlay, overlay_mono, overlay-none}
use litefs.Db.Cut.{IsWellFormed, Covers}
use litefs.Db.Replica.{AppliedLtx, apply_ltx_no_lock_correct}
use litefs.Db.Committed.{InTransaction, same_page}
use litefs.Db.Primary.{CommittedTx}

-- The checksum of the pages on disk depends on the pages alone.
on_disk-cong :
    (ltx : Ltx) (a b : Db) (n : ℕ)
    → a.page_size ≡ b.page_size
    → ((p : ℕ) → 1 ≤ p → p ≤ n → p ≢ ltx.lock_pgno a.page_size → read_page a p ≡ read_page b p)
    → on_disk_upto ltx a n ≡ on_disk_upto ltx b n
unfolding on_disk_upto
on_disk-cong ltx a b zero q h = refl
on_disk-cong ltx a b (suc n) q h =
    let rest = on_disk-cong ltx a b n q (λ p one le. h p one (omega arith)) in
    elim (ℕ_discrete (suc n) (ltx.lock_pgno a.page_size)) [
      | yes e ↦ rw ((==_iff _ _).1 e, (==_iff _ _).1 (e ∙ ap ltx.lock_pgno q)) rest
      | no d ↦
          rw (==_ne _ _ d, ==_ne _ _ (λ e. d (e ∙ sym (ap ltx.lock_pgno q))))
            (ap₂ (add_data? ltx (suc n)) rest (h (suc n) (omega arith) (omega arith) d))
    ]

-- A page that the file does not have stays.
overlay-absent :
    (pages : List (ℕ × List ℕ)) (g h : ℕ → Option (List ℕ)) (p : ℕ)
    → overlay pages g p ≡ none
    → overlay pages h p ≡ h p
overlay-absent [] g h p z = refl
overlay-absent ((q, b) ∷ pages) g h p z =
    let new = overlay-none pages (update g q (some b)) p z in
    overlay-absent pages (update g q (some b)) (update h q (some b)) p z ∙ ground arith

-- A replica at the position before the transaction: it has the pages that the transaction did not
-- write, and the transaction wrote all pages that are new to it.
pub record InSync (ltx : Ltx) (db : Db) (commit : ℕ) (replica : Db) : Type 0 where
  pub well_formed : IsWellFormed ltx replica
  pub same_page_size : replica.page_size ≡ db.page_size
  pub same_pos : replica.pos ≡ db.pos
  pub same_pages :
      (p : ℕ)
      → 1 ≤ p
      → p ≤ commit
      → p ≢ ltx.lock_pgno db.page_size
      → db.dirty_page_set p ≡ false
      → read_database_page replica p ≡ read_database_page db p
  pub grown :
      (p : ℕ)
      → replica.page_n < p
      → p ≤ commit
      → p ≢ ltx.lock_pgno db.page_size
      → db.dirty_page_set p ≡ true

-- What the replica does with a file that it receives.
abbrev pub replay : Ltx → LtxFile → M (Unit {0})
replay ltx f = write_ltx_file_at ltx f >>= apply_ltx_no_lock ltx

pub record Replicated (ltx : Ltx) (db committed : Db) (f : LtxFile) (replica : Db) : Type 0 where
  pub after : Db
  pub result : replay ltx f replica ≡ (after, ok tt)
  pub same_pos : after.pos ≡ committed.pos
  pub same_size : after.page_n ≡ committed.page_n
  pub same_pages :
      (p : ℕ)
      → 1 ≤ p
      → p ≤ committed.page_n
      → p ≢ ltx.lock_pgno db.page_size
      → read_database_page after p ≡ read_database_page committed p
  pub well_formed : IsWellFormed ltx after

module _ (store : Store) (ltx : Ltx) (mode : JournalMode) (db : Db)
    (t : InTransaction store ltx mode db) (not_first : ltx.lock_pgno db.page_size ≢ 1)
    (c : CommittedTx store ltx mode db (to_be32 t.size_bytes 0))
    (accepted : ltx.accepts (next_file store db (to_be32 t.size_bytes 0) c.pages c.chksum) ≡ true)
    (replica : Db) (v : InSync ltx db (to_be32 t.size_bytes 0) replica) where
  abbrev commit : ℕ
  commit = to_be32 t.size_bytes 0

  abbrev file : LtxFile
  file = next_file store db commit c.pages c.chksum

  abbrev received : Db
  received = record replica { ltx_dir = renamed file replica.ltx_dir }

  received-IsWellFormed : IsWellFormed ltx received
  received-IsWellFormed = record {
    file = v.well_formed.file;
    exists = v.well_formed.exists;
    sized = v.well_formed.sized;
    matching = v.well_formed.matching;
    within = v.well_formed.within;
    present = v.well_formed.present;
    no_wal = record {
      no_frames = v.well_formed.no_wal.no_frames;
      no_sums = v.well_formed.no_wal.no_sums;
    };
  }

  not_lock : (p : ℕ) → p ≢ ltx.lock_pgno replica.page_size → p ≢ ltx.lock_pgno db.page_size
  not_lock p n e = n (e ∙ sym (ap ltx.lock_pgno v.same_page_size))

  covers : Covers ltx received file
  unfolding next_file
  covers p new le n =
      c.all_dirty p (v.grown p new le (not_lock p n)) (omega arith) le (not_lock p n)

  applied : AppliedLtx ltx received file
  unfolding next_file
  applied =
      apply_ltx_no_lock_correct ltx received file received-IsWellFormed
        (λ e. not_first (sym (ap ltx.lock_pgno v.same_page_size) ∙ e))
        (subst (λ ps. ArePages ps commit c.pages) (sym v.same_page_size) c.are_pages) covers
        accepted

  receives : write_ltx_file_at ltx file replica ≡ (received, ok file)
  unfolding write_ltx_file_at next_file
  receives =
      ap (λ b. (require b Error.non_sequential >> checksum_checked) replica)
        ((==_iff _ _).1 (ap (λ s. (s.txid + 1) % 2 ^ 64) (sym v.same_pos)))
      ∙ ap (λ b. (require b Error.pre_apply_mismatch >> file_checked) replica)
          ((==_iff _ _).1 (ap (λ s. s.post_apply_checksum) (sym v.same_pos)))
      ∙ ap (λ b. (require b Error.bad_ltx >>= λ _. keeps) replica) accepted
    where
      keeps : M LtxFile
      keeps = put received >>= λ _. return file

      file_checked : M LtxFile
      file_checked = require (ltx.accepts file) Error.bad_ltx >> keeps

      checksum_checked : M LtxFile
      checksum_checked =
          require (file.header.pre_apply_checksum == replica.pos.post_apply_checksum)
            Error.pre_apply_mismatch
          >> file_checked

  -- Every page of the database but the lock page is in the primary's file.
  on_primary :
      (p : ℕ)
      → 1 ≤ p
      → p ≤ commit
      → p ≢ ltx.lock_pgno db.page_size
      → (d : List ℕ) × (read_database_page db p ≡ some d)
  unfolding read_database_page
  on_primary p one le n = elim (Option-cases (db.chksums p)) [
    | inl z ↦ absurd (t.present p one le n z)
    | inr (s, q) ↦
        let (_, (d, on_file, _)) = t.matching p s q in
        (d, ap (λ f. read_file f db.page_size ((p - 1) * db.page_size)) t.exists ∙ on_file)
  ]

  contents :
      (p : ℕ)
      → 1 ≤ p
      → p ≤ commit
      → p ≢ ltx.lock_pgno db.page_size
      → (d : List ℕ) → read_database_page db p ≡ some d
      → overlay c.pages (read_database_page received) p ≡ some d
  unfolding read_database_page
  contents p one le n d r = elim (Option-cases (overlay c.pages (λ _. none) p)) [
    | inr (b, o) ↦
        overlay_mono c.pages (λ _. none) (read_database_page received) p (λ d e. cc) b o
        ∙ sym (c.contents p b o)
        ∙ r
    | inl z ↦
        overlay-absent c.pages (λ _. none) (read_database_page received) p z
        ∙ v.same_pages p one le n (clean p one le n z)
        ∙ r
  ]
    where
      clean :
          (p : ℕ)
          → 1 ≤ p
          → p ≤ commit
          → p ≢ ltx.lock_pgno db.page_size
          → overlay c.pages (λ _. none) p ≡ none
          → db.dirty_page_set p ≡ false
      clean p one le n z = elim (Bool-cases (db.dirty_page_set p)) [
        | inl y ↦ absurd (c.all_dirty p y one le n z)
        | inr m ↦ m
      ]

  same_pages :
      (p : ℕ)
      → 1 ≤ p
      → p ≤ commit
      → p ≢ ltx.lock_pgno db.page_size
      → read_database_page applied.after p ≡ read_database_page db p
  unfolding next_file
  same_pages p one le n =
      let (d, r) = on_primary p one le n in
      applied.contents p d one le (contents p one le n d r) ∙ sym r

  same_checksum : applied.chksum ≡ c.chksum
  unfolding next_file
  same_checksum = some_injective (
      sym applied.on_disk
      ∙ on_disk-cong ltx applied.after c.committed commit
          (applied.same_page_size ∙ v.same_page_size ∙ sym c.same_page_size)
          (λ p one le n.
            same_page applied.after p (applied.no_frames p)
            ∙ same_pages p one le
                (λ e. n (e ∙ sym (ap ltx.lock_pgno (applied.same_page_size ∙ v.same_page_size))))
            ∙ sym (c.reads p))
      ∙ c.on_disk)
    where
      some_injective : {a b : ℕ} → some a ≡ some b → a ≡ b
      some_injective p = cc

  replicated : Replicated ltx db c.committed file replica
  unfolding next_file
  replicated =
      let (result, pos, well_formed) = applied.agrees same_checksum in
      record {
        after = applied.after;
        result = ap (continue (apply_ltx_no_lock ltx)) receives ∙ result;
        same_pos = pos ∙ sym c.position;
        same_size = applied.size ∙ sym c.size;
        same_pages = λ p one le n.
            same_pages p one (subst (λ k. p ≤ k) c.size le) n
            ∙ sym (c.reads p)
            ∙ same_page c.committed p (c.no_frames p);
        well_formed = well_formed;
      }

-- Take a transaction that SQLite has written on the primary, what CommitJournal makes of it, with a
-- file that the encoder and the decoder accept, and a replica at the primary's old position and
-- page size that is well formed, has the pages that the transaction did not write, and lacks no
-- other page of the new size. CommitJournal succeeds on the primary, and receiving and applying its
-- file succeeds on the replica. Then the replica is at the primary's new position and size, each
-- page but the lock page is the primary's, and the replica is well formed.
pub replay-commit_journal :
    (store : Store) (ltx : Ltx) (mode : JournalMode) (db : Db)
    → (t : InTransaction store ltx mode db) → ltx.lock_pgno db.page_size ≢ 1
    → (c : CommittedTx store ltx mode db (to_be32 t.size_bytes 0))
    → ltx.accepts (next_file store db (to_be32 t.size_bytes 0) c.pages c.chksum) ≡ true
    → (replica : Db) → InSync ltx db (to_be32 t.size_bytes 0) replica
    → (commit_journal store ltx mode db ≡ (c.committed, ok tt))
      × Replicated ltx db c.committed
          (next_file store db (to_be32 t.size_bytes 0) c.pages c.chksum)
          replica
replay-commit_journal store ltx mode db t n c a replica v =
    ((c.succeeds a).0, replicated store ltx mode db t n c a replica v)
