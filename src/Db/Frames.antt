-- ===== src/Db/Frames.antt =====
-- The pages that CommitWAL (db.go) copies from the frames of a transaction, and those it cuts off.
use litefs.Prelude.{
  update_self, update_ne, ℕ, zero, suc, ◌+◌, ◌-◌, ◌≤◌, ◌<◌, ◌≡◌, refl, sym, ◌∙◌, subst, ◌≢◌, Option,
  none, some, List, [], ◌∷◌, drop, arith, ==_iff, ==_ne, ==_self, to_be32, update, ℕ_discrete,
}
use litefs.Disk.{File, read_full_at, drop-read}
use litefs.Ltx.{Ltx}
use litefs.Db.State.{Db, ok}
use litefs.Db.Overlay.{overlay}
use litefs.Db.Sums.{Agrees}
use litefs.Db.TxFrames.{Offsets}
use litefs.Db.Scan.{AllFramesAt}
use litefs.Db.CommitWal.{copy_frames, page_sums, truncated_sums, with_offsets}

-- What the copied pages, the new offsets and the new checksums say of a page: the three are as they
-- were, or all three have the page of one frame.
pub data Copies (ltx : Ltx) (db : Db) (f : File) (p : ℕ) (old_page : Option (List ℕ))
    (old_off old_sum : Option ℕ) (page : Option (List ℕ)) (off sum : Option ℕ) : Type 0 where
  untouched :
      page ≡ old_page
      → off ≡ old_off
      → sum ≡ old_sum
      → Copies ltx db f p old_page old_off old_sum page off sum
  framed :
      (d : List ℕ) (o : ℕ)
      → page ≡ some d
      → off ≡ some o
      → sum ≡ some (ltx.checksum_page p d)
      → read_full_at f db.page_size (o + 24) ≡ some d
      → Copies ltx db f p old_page old_off old_sum page off sum

module _ (ltx : Ltx) (db : Db) (f : File) (sized : 0 < db.page_size) where
  pub record Copied (m : Offsets) : Type 0 where
    pub pages : List (ℕ × List ℕ)
    pub result : copy_frames ltx f m db ≡ (db, ok pages)
    pub copies :
        (g : ℕ → Option (List ℕ)) (h s : ℕ → Option ℕ) (p : ℕ)
        → p ≢ ltx.lock_pgno db.page_size
        → Copies ltx db f p
            (g p)
            (h p)
            (s p)
            (overlay pages g p)
            (with_offsets m h p)
            (page_sums ltx pages s p)

  framed_here :
      (q q' off p : ℕ) (d : List ℕ) (g : ℕ → Option (List ℕ)) (h s : ℕ → Option ℕ)
      {page : Option (List ℕ)} {off' sum : Option ℕ}
      → q' ≡ q
      → read_full_at f db.page_size (off + 24) ≡ some d
      → Copies ltx db f p
          (update g q' (some d) p)
          (update h q (some off) p)
          (update s q' (some (ltx.checksum_page q' d)) p)
          page
          off'
          sum
      → Copies ltx db f p (g p) (h p) (s p) page off' sum
  framed_here q q' off p d g h s same r (framed d' o a b c e) = framed d' o a b c e
  framed_here q q' off p d g h s same r (untouched a b c) = elim (ℕ_discrete q p) [
    | yes e ↦ framed d off (a ∙ ground (arith, same)) (b ∙ ground arith) (c ∙ here (same ∙ e)) r
    | no n ↦
        untouched (a ∙ update_ne g q' p (some d) (λ e. n (sym same ∙ e)))
          (b ∙ update_ne h q p (some off) n)
          (c ∙ update_ne s q' p (some (ltx.checksum_page q' d)) (λ e. n (sym same ∙ e)))
  ]
    where
      here : q' ≡ p → update s q' (some (ltx.checksum_page q' d)) p ≡ some (ltx.checksum_page p d)
      here e =
          subst (λ t. update s q' (some (ltx.checksum_page q' d)) t ≡ some (ltx.checksum_page t d))
            e (update_self s q' (some (ltx.checksum_page q' d)))

  copy_lock :
      (q off : ℕ) (m : Offsets)
      → q ≡ ltx.lock_pgno db.page_size
      → copy_frames ltx f ((q, off) ∷ m) db ≡ copy_frames ltx f m db
  unfolding copy_frames
  copy_lock q off m h = rw ((==_iff _ _).1 h) refl

  copy_frame :
      (q off : ℕ) (m : Offsets) (frame : List ℕ) (pages : List (ℕ × List ℕ))
      → q ≢ ltx.lock_pgno db.page_size
      → read_full_at f (24 + db.page_size) off ≡ some frame
      → copy_frames ltx f m db ≡ (db, ok pages)
      → copy_frames ltx f ((q, off) ∷ m) db ≡ (db, ok ((to_be32 frame 0, drop 24 frame) ∷ pages))
  unfolding copy_frames
  copy_frame q off m frame pages h r rest = rw (==_ne _ _ h, r, rest) refl

  pub copy_frames-Copied : (m : Offsets) → AllFramesAt db f m → Copied m
  unfolding copy_frames with_offsets page_sums
  copy_frames-Copied [] a = record {
    pages = [];
    result = refl;
    copies = λ g h s p n. untouched refl refl refl;
  }
  copy_frames-Copied ((q, off) ∷ m) a =
      let c = copy_frames-Copied m a.1 in
      elim (ℕ_discrete q (ltx.lock_pgno db.page_size)) [
        | yes l ↦ record {
          pages = c.pages;
          result = copy_lock q off m l ∙ c.result;
          copies = λ g h s p n.
              subst
                (λ t.
                  Copies ltx db f p (g p) t (s p) (overlay c.pages g p)
                    (with_offsets m (update h q (some off)) p) (page_sums ltx c.pages s p))
                (update_ne h q p (some off) (λ e. n (sym e ∙ l)))
                (c.copies g (update h q (some off)) s p n);
        }
        | no l ↦
            let (frame, r, same) = a.0 in
            record {
              pages = (to_be32 frame 0, drop 24 frame) ∷ c.pages;
              result = copy_frame q off m frame c.pages l r c.result;
              copies = λ g h s p n.
                  framed_here q (to_be32 frame 0) off p (drop 24 frame) g h s same
                    (drop-read f 24 db.page_size off frame sized r)
                    (c.copies (update g (to_be32 frame 0) (some (drop 24 frame)))
                      (update h q (some off))
                      (update s (to_be32 frame 0)
                        (some (ltx.checksum_page (to_be32 frame 0) (drop 24 frame))))
                      p n);
            }
      ]

-- The loop over the pages that are cut off succeeds where memory and disk agree, and leaves the new
-- checksums of the other pages as they are.
pub truncated_sums-ok :
    (ltx : Ltx) (db : Db) (commit : ℕ)
    → Agrees ltx db (λ _. none) db.page_n db
    → (n pgno : ℕ) (new : ℕ → Option ℕ) → commit < pgno
    → n ≤ db.page_n + 1 - pgno
    → (new' : ℕ → Option ℕ) × (truncated_sums ltx n pgno new db ≡ (db, ok new'))
      × ((p : ℕ) → p ≤ commit → new' p ≡ new p)
unfolding truncated_sums
truncated_sums-ok ltx db commit a zero pgno new lt le = (new, refl, λ p q. refl)
truncated_sums-ok ltx db commit a (suc n) pgno new lt le =
    elim (ℕ_discrete pgno (ltx.lock_pgno db.page_size)) [
      | yes h ↦
          let (new', r, same) =
            truncated_sums-ok ltx db commit a n (suc pgno) new (omega arith) (omega arith) in
          (new', rw ((==_iff _ _).1 h) r, same)
      | no h ↦
          let (d, read, sum) = a pgno (omega arith) (omega arith) h in
          let (new', r, same) =
            truncated_sums-ok ltx db commit a n (suc pgno) (update new pgno (some 0)) (omega arith)
              (omega arith) in
          (
            new',
            rw (==_ne _ _ h, read, sum, ==_self) r,
            λ p q. same p q ∙ update_ne new pgno p (some 0) (λ e. omega arith),
          )
    ]
