-- ===== src/Db/CommittedWal.antt =====
-- What CommitWAL (db.go) does with a transaction in the WAL, on the primary.
use litefs.Prelude.{
  ℕ, zero, suc, ◌+◌, ◌-◌, ◌*◌, ◌%◌, ◌^◌, ◌≤◌, ◌<◌, ◌≡◌, refl, sym, ap, ap₂, ◌∙◌, subst, ◌≢◌, inl,
  inr, true, false, Bool-cases, Option, none, some, List, [], ◌∷◌, ◌++◌, arith, if◌then◌else◌, ◌==◌,
  ==_ne, ==_self, dec_le,
}
use litefs.Disk.{File}
use litefs.Ltx.{renamed, Ltx, LtxFile}
use litefs.Db.State.{
  Db, Wal, Store, ok, err, Error, M, ◌>>=◌, ◌>>◌, return, require, from_option, continue,
}
use litefs.Db.Checksum.{
  checksum, page_checksum, on_disk_upto, on_disk_checksum, read_page, read_database_page, read_file,
  wal_or_database, last, or_else, add_data?,
}
use litefs.Db.Apply.{set_pos, mark_dirty}
use litefs.Db.Journal.{send_to_primary, send_with}
use litefs.Db.Sums.{Agrees, checksum-Agrees}
use litefs.Db.TxFrames.{TxFrames, found, build_tx_frame_offsets}
use litefs.Db.Scan.{Finds, build-Finds}
use litefs.Db.CommitWal.{
  copy_frames, page_sums, truncated_sums, next_wal_file, with_offsets, appended, advanced,
  strictly_verify_wal, publish_wal, cut_pages, commit_frames, commit_scanned, commit_wal,
}
use litefs.Db.Frames.{untouched, framed, Copied, copy_frames-Copied, truncated_sums-ok}

-- A transaction that SQLite has written to the WAL: the checksums in memory are those of the pages of
-- the committed transactions, and the scan of the file finds the transaction, with the new pages.
pub record InWalTransaction (ltx : Ltx) (db : Db) (tx : TxFrames) : Type 0 where
  pub wal_file : File
  pub wal_exists : db.wal_file ≡ some wal_file
  pub file : File
  pub exists : db.database ≡ some file
  pub sized : 0 < db.page_size
  pub agrees : Agrees ltx db (λ _. none) db.page_n db
  pub scanned : build_tx_frame_offsets db wal_file ≡ found tx
  pub small : tx.commit + 1 < 2 ^ 32
  pub grown :
      (p : ℕ)
      → db.page_n < p
      → p ≤ tx.commit
      → p ≢ ltx.lock_pgno db.page_size
      → with_offsets tx.offsets (λ _. none) p ≢ none
  pub on_primary : db.remote_halt_lock ≡ none

last-append : (cs : List ℕ) (c : ℕ) → last (cs ++ (c ∷ [])) ≡ some c
unfolding last
last-append [] c = refl
last-append (a ∷ []) c = refl
last-append (a ∷ b ∷ cs) c = last-append (b ∷ cs) c

-- After the new checksum of a page is appended, it is the page's checksum.
appended-or_else :
    (new old : Option ℕ) (cs : List ℕ)
    → or_else (last (appended new cs)) old ≡ or_else new (or_else (last cs) old)
appended-or_else none old cs = refl
appended-or_else (some c) old cs = ap (λ t. or_else t old) (last-append cs c)

-- The checksum of a page within the database, that is not the lock page.
pub page_checksum_within :
    (ltx : Ltx) (db : Db) (p page_n : ℕ) (new : ℕ → Option ℕ)
    → p ≢ ltx.lock_pgno db.page_size
    → p ≤ page_n
    → page_checksum ltx db p page_n new
      ≡ or_else (new p) (or_else (last (db.wal.chksums p)) (db.chksums p))
unfolding page_checksum
page_checksum_within ltx db p page_n new n le = ground arith

pub read_page_same :
    (a b : Db) (p : ℕ)
    → a.database ≡ b.database
    → a.wal_file ≡ b.wal_file
    → a.page_size ≡ b.page_size
    → a.wal.frame_offsets p ≡ b.wal.frame_offsets p
    → read_page a p ≡ read_page b p
unfolding read_page read_database_page
read_page_same a b p d w s o = ap (wal_or_database a p) o ∙ same (b.wal.frame_offsets p)
  where
    same : (o : Option ℕ) → wal_or_database a p o ≡ wal_or_database b p o
    same none = λ i. read_file (d i) (s i) ((p - 1) * s i)
    same (some o) = λ i. read_file (w i) (s i) (o + 24)

module _ (store : Store) (ltx : Ltx) (db : Db) (tx : TxFrames) (t : InWalTransaction ltx db tx)
    (not_first : ltx.lock_pgno db.page_size ≢ 1) where
  finds : Finds db t.wal_file db.wal.offset (found tx)
  finds = subst (Finds db t.wal_file db.wal.offset) t.scanned (build-Finds db t.wal_file)

  pub copied : Copied ltx db t.wal_file t.sized tx.offsets
  copied = copy_frames-Copied ltx db t.wal_file t.sized tx.offsets finds.0

  abbrev pub first_cut : ℕ
  first_cut = (tx.commit + 1) % 2 ^ 32

  pub cut :
      (new : ℕ → Option ℕ) × (truncated_sums ltx
          (cut_pages first_cut db.page_n)
          first_cut
          (page_sums ltx copied.pages (λ _. none))
          db
        ≡ (db, ok new))
      × ((p : ℕ) → p ≤ tx.commit → new p ≡ page_sums ltx copied.pages (λ _. none) p)
  cut =
      truncated_sums-ok ltx db tx.commit t.agrees (cut_pages first_cut db.page_n) first_cut
        (page_sums ltx copied.pages (λ _. none)) (omega (arith, t.small)) (omega arith)

  abbrev pub new : ℕ → Option ℕ
  new = cut.0

  abbrev pub wal_after : Wal
  wal_after = advanced db.wal tx new

  -- The files and the offsets once the transaction is committed.
  abbrev pub moved : Db
  moved = record db { wal = wal_after; page_n = tx.commit }

  -- A page that the transaction has, and one that it does not have.
  pub page_moved :
      (p : ℕ) (o : ℕ) (d : List ℕ)
      → with_offsets tx.offsets db.wal.frame_offsets p ≡ some o
      → read_file (some t.wal_file) db.page_size (o + 24) ≡ some d
      → read_page moved p ≡ some d
  unfolding read_page advanced
  page_moved p o d a b =
      ap (wal_or_database moved p) a ∙ ap (λ f. read_file f db.page_size (o + 24)) t.wal_exists ∙ b

  pub page_kept :
      (p : ℕ)
      → with_offsets tx.offsets db.wal.frame_offsets p ≡ db.wal.frame_offsets p
      → read_page moved p ≡ read_page db p
  unfolding advanced
  page_kept p a = read_page_same moved db p refl refl refl a

  -- The checksum of a page that the transaction has, and of one that it does not have.
  sum_new :
      (p c : ℕ)
      → p ≤ tx.commit
      → p ≢ ltx.lock_pgno db.page_size
      → new p ≡ some c
      → page_checksum ltx db p tx.commit new ≡ some c
  sum_new p c le n e = page_checksum_within ltx db p tx.commit new n le ∙ ap (λ o. or_else o old) e
    where
      old : Option ℕ
      old = or_else (last (db.wal.chksums p)) (db.chksums p)

  sum_old :
      (p c : ℕ)
      → p ≤ tx.commit
      → p ≤ db.page_n
      → p ≢ ltx.lock_pgno db.page_size
      → new p ≡ none
      → page_checksum ltx db p db.page_n (λ _. none) ≡ some c
      → page_checksum ltx db p tx.commit new ≡ some c
  sum_old p c le le' n e h =
      page_checksum_within ltx db p tx.commit new n le
      ∙ ap (λ o. or_else o (or_else (last (db.wal.chksums p)) (db.chksums p))) e
      ∙ sym (page_checksum_within ltx db p db.page_n (λ _. none) n le')
      ∙ h

  new_same : (p : ℕ) → p ≤ tx.commit → new p ≡ page_sums ltx copied.pages (λ _. none) p
  new_same = cut.2

  new-Agrees : Agrees ltx db new tx.commit moved
  new-Agrees p one le n = elim (copied.copies (λ _. none) db.wal.frame_offsets (λ _. none) p n) [
    | framed d o page off sum read ↦
        (d, page_moved p o d off read, sum_new p _ le n (new_same p le ∙ sum))
    | untouched page off sum ↦ elim (dec_le p db.page_n) [
      | yes in_db ↦
          let (d, read, before) = t.agrees p one in_db n in
          (d, page_kept p off ∙ read, sum_old p _ le in_db n (new_same p le ∙ sum) before)
      | no out ↦ absurd (elim (copied.copies (λ _. none) (λ _. none) (λ _. none) p n) [
        | untouched page' off' sum' ↦ t.grown p (omega arith) le n off'
        | framed d o page' off' sum' read ↦ cc (sum, sum')
      ])
    ]
  ]

  pub post :
      (c : ℕ) × ((checksum ltx db tx.commit new ≡ some c)
        × (on_disk_upto ltx moved tx.commit ≡ some c))
  post = checksum-Agrees ltx db moved new tx.commit refl not_first new-Agrees

  abbrev pub file : LtxFile
  file = next_wal_file store db tx copied.pages post.0

  -- The database after CommitWAL.
  abbrev pub after : Db
  after = record moved {
    ltx_dir = renamed file db.ltx_dir;
    pos = record { txid = (db.pos.txid + 1) % 2 ^ 64; post_apply_checksum = post.0 };
    marked = db.marked + 1;
  }

  pub page_after : (p : ℕ) → read_page after p ≡ read_page moved p
  page_after p = read_page_same after moved p refl refl refl refl

  pub after-Agrees : Agrees ltx after (λ _. none) tx.commit after
  unfolding advanced
  after-Agrees p one le n =
      let (d, read, sum) = new-Agrees p one le n in
      (
        d,
        page_after p ∙ read,
        page_checksum_within ltx after p tx.commit (λ _. none) n le
            ∙ appended-or_else (new p) (db.chksums p) (db.wal.chksums p)
            ∙ sym (page_checksum_within ltx db p tx.commit new n le)
            ∙ sum,
      )

  on_disk_after : (n : ℕ) → on_disk_upto ltx after n ≡ on_disk_upto ltx moved n
  unfolding on_disk_upto
  on_disk_after zero = refl
  on_disk_after (suc n) =
      ap₂
        (λ before page.
          if suc n == ltx.lock_pgno db.page_size then before else add_data? ltx (suc n) before page)
        (on_disk_after n) (page_after (suc n))

  pub after-on_disk : on_disk_upto ltx after tx.commit ≡ some post.0
  after-on_disk = on_disk_after tx.commit ∙ post.1.1

  disk_checksum : on_disk_checksum ltx after ≡ some post.0
  unfolding on_disk_checksum
  disk_checksum =
      ap
        (λ b.
          if b then none else (if tx.commit == 0 then none else on_disk_upto ltx after tx.commit))
        (==_ne db.page_size 0 (λ z. omega (arith, z, t.sized)))
      ∙ ap (λ b. if b then none else on_disk_upto ltx after tx.commit) (==_ne tx.commit 0 finds.1)
      ∙ after-on_disk

  -- From the transaction file to the end.
  abbrev pub publish_file : LtxFile → M (Unit {0})
  publish_file f =
      require (ltx.accepts f) Error.bad_ltx
      >> (send_to_primary store f >> publish_wal store ltx tx new f)

  commits : commit_frames store ltx t.wal_file tx db ≡ publish_file file db
  unfolding commit_frames
  commits =
      (λ i. continue opened (from_option Error.os (t.exists i) db))
      ∙ ap (continue copied_pages) copied.result
      ∙ ap (continue (summed copied.pages)) cut.1
      ∙ ap (λ r. continue (posted copied.pages new) (from_option Error.missing_checksum r db))
          post.1.0
    where
      posted : List (ℕ × List ℕ) → (ℕ → Option ℕ) → ℕ → M (Unit {0})
      posted pages new post =
          require (ltx.accepts (next_wal_file store db tx pages post)) Error.bad_ltx
          >> (send_to_primary store (next_wal_file store db tx pages post)
              >> publish_wal store ltx tx new (next_wal_file store db tx pages post))

      summed : List (ℕ × List ℕ) → (ℕ → Option ℕ) → M (Unit {0})
      summed pages new =
          from_option Error.missing_checksum (checksum ltx db tx.commit new) >>= posted pages new

      copied_pages : List (ℕ × List ℕ) → M (Unit {0})
      copied_pages pages =
          truncated_sums ltx (cut_pages first_cut db.page_n) first_cut
            (page_sums ltx pages (λ _. none))
          >>= summed pages

      opened : File → M (Unit {0})
      opened _ = copy_frames ltx t.wal_file tx.offsets >>= copied_pages

  begins : commit_wal store ltx db ≡ publish_file file db
  unfolding commit_wal
  begins =
      (λ i.
        continue (λ f. commit_scanned store ltx f (build_tx_frame_offsets db f))
          (from_option Error.os (t.wal_exists i) db))
      ∙ ap (λ s. commit_scanned store ltx t.wal_file s db) t.scanned
      ∙ commits

  verified : strictly_verify_wal store ltx post.0 after ≡ (after, ok tt)
  unfolding strictly_verify_wal
  verified = elim (Bool-cases store.strict_verify) [
    | inl y ↦ ap (λ b. if◌then◌else◌ {A = M (Unit {0})} b compared (return tt) after) y ∙ same
    | inr n ↦ ap (λ b. if◌then◌else◌ {A = M (Unit {0})} b compared (return tt) after) n
  ]
    where
      checked : Option ℕ → M (Unit {0})
      checked r = from_option Error.read_page r >>= λ chksum.
          require (chksum == post.0) Error.verification_failed

      compared : M (Unit {0})
      compared = checked (on_disk_checksum ltx after)

      same : compared after ≡ (after, ok tt)
      same =
          ap (λ r. checked r after) disk_checksum
          ∙ ap (λ b. require b Error.verification_failed after) (==_self post.0)

  published : publish_wal store ltx tx new file db ≡ (after, ok tt)
  unfolding publish_wal set_pos mark_dirty next_wal_file
  published = verified

  send : send_to_primary store file db ≡ (db, ok tt)
  unfolding send_to_primary
  send = ap (λ h. send_with store file h db) t.on_primary

  pub commit_wal-accepted : ltx.accepts file ≡ true → commit_wal store ltx db ≡ (after, ok tt)
  commit_wal-accepted a =
      begins
      ∙ ap
          (λ b.
            continue (λ _. send_to_primary store file >> publish_wal store ltx tx new file)
              (require b Error.bad_ltx db))
          a
      ∙ ap (continue (λ _. publish_wal store ltx tx new file)) send
      ∙ published

  pub commit_wal-refused :
      ltx.accepts file ≡ false → commit_wal store ltx db ≡ (db, err Error.bad_ltx)
  commit_wal-refused a =
      begins
      ∙ ap
          (λ b.
            continue (λ _. send_to_primary store file >> publish_wal store ltx tx new file)
              (require b Error.bad_ltx db))
          a
