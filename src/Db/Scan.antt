-- ===== src/Db/Scan.antt =====
-- What buildTxFrameOffsets (db.go) finds, and how many rounds it needs.
use litefs.Prelude.{
  ℕ, zero, suc, ◌+◌, ◌≤◌, ◌<◌, ◌≡◌, refl, ◌≢◌, inl, inr, Bool, true, false, not, Bool-cases, Option,
  none, some, List, [], ◌∷◌, length, arith, ltb, ◌==◌, ==_iff, if◌then◌else◌, to_be32,
}
use litefs.Disk.{File, read_full_at, length-read}
use litefs.Prelude.{Outcome, returns}
use litefs.Wal.{same_sum}
use litefs.Db.State.{Db}
use litefs.Db.TxFrames.{
  Offsets, put_offset, TxScan, found, no_transaction, panics, next_sum, accept_frame, compare_sum,
  scan_frame, scan_frames, build_tx_frame_offsets,
}

-- A whole frame of page `p` lies at this offset of the file.
abbrev pub FrameAt : Db → File → ℕ → ℕ → Type 0
FrameAt db f p off =
    (frame : List ℕ) × (read_full_at f (24 + db.page_size) off ≡ some frame) × (to_be32 frame 0 ≡ p)

abbrev pub AllFramesAt : Db → File → Offsets → Type 0
AllFramesAt db f [] = Unit
AllFramesAt db f ((p, off) ∷ m) = FrameAt db f p off × AllFramesAt db f m

put_offset-AllFramesAt :
    (db : Db) (f : File) (p off : ℕ) (m : Offsets)
    → FrameAt db f p off
    → AllFramesAt db f m
    → AllFramesAt db f (put_offset p off m)
put_offset-AllFramesAt db f p off [] h a = (h, tt)
put_offset-AllFramesAt db f p off ((q, o) ∷ m) h a = elim (Bool-cases (p == q)) [
  | inl e ↦ rw e (h, a.1)
  | inr e ↦ elim (Bool-cases (ltb p q)) [
    | inl l ↦ rw (e, l) (h, a)
    | inr l ↦ rw (e, l) (a.0, put_offset-AllFramesAt db f p off m h a.1)
  ]
]

-- What a scan from `off` finds.
abbrev pub Finds : Db → File → ℕ → TxScan → Type 0
Finds db f off (found tx) =
    AllFramesAt db f tx.offsets × (tx.commit ≢ 0) × (off < tx.end_offset) × (tx.end_offset ≤ f.size)
Finds db f off no_transaction = Unit
Finds db f off panics = Unit

pub read-size :
    (f : File) (len off : ℕ) (d : List ℕ)
    → 0 < len
    → read_full_at f len off ≡ some d
    → off + len ≤ f.size
unfolding read_full_at
read-size f len off d h e = ground arith

Finds-later :
    (db : Db) (f : File) (off off' : ℕ) (t : TxScan)
    → off ≤ off'
    → Finds db f off' t
    → Finds db f off t
Finds-later db f off off' (found tx) le (a, c, lt, end) = (a, c, omega arith, end)
Finds-later db f off off' no_transaction le h = tt
Finds-later db f off off' panics le h = tt

module _ (db : Db) (f : File) where
  accept_frame-Finds :
      (next : Offsets → ℕ → ℕ × ℕ → TxScan) (m : Offsets) (off : ℕ) (sum : ℕ × ℕ) (frame : List ℕ)
      → ((m : Offsets) (s : ℕ × ℕ)
          → AllFramesAt db f m
          → Finds db f (off + length frame) (next m (off + length frame) s))
      → read_full_at f (24 + db.page_size) off ≡ some frame
      → AllFramesAt db f m
      → Finds db f off (accept_frame next m off sum frame)
  accept_frame-Finds next m off sum frame ih r a =
      let len = length-read f (24 + db.page_size) off frame (omega arith) r in
      let fits = read-size f (24 + db.page_size) off frame (omega arith) r in
      let all = put_offset-AllFramesAt db f (to_be32 frame 0) off m (frame, r, refl) a in
      elim (Bool-cases (to_be32 frame 4 == 0)) [
        | inl e ↦ rw e (Finds-later db f off (off + length frame) _ (omega arith) (ih _ sum all))
        | inr e ↦
            rw e (all, λ z. cc ((==_iff _ _).1 z, e), omega (arith, len), omega (arith, len, fits))
      ]

  scan_frame-Finds :
      (next : Offsets → ℕ → ℕ × ℕ → TxScan) (m : Offsets) (off : ℕ) (s : ℕ × ℕ)
      (r : Option (List ℕ))
      → ((m : Offsets) (off : ℕ) (s : ℕ × ℕ) → AllFramesAt db f m → Finds db f off (next m off s))
      → read_full_at f (24 + db.page_size) off ≡ r
      → AllFramesAt db f m
      → Finds db f off (scan_frame next db m off s r)
  scan_frame-Finds next m off s none ih e a = tt
  scan_frame-Finds next m off s (some frame) ih e a =
      go (same_sum (db.wal.salt1, db.wal.salt2) (to_be32 frame 8, to_be32 frame 12))
        (next_sum db s frame)
    where
      go :
          (salts : Bool) (sum : Outcome (ℕ × ℕ))
          → Finds db f off (if not salts then no_transaction else compare_sum next m off frame sum)
      go false sum = tt
      go true (Outcome.panics) = tt
      go true (returns sum) =
          compared sum (same_sum sum (to_be32 frame 16, to_be32 frame 20))
            (accept_frame-Finds next m off sum frame (λ m s. ih m _ s) e a)
        where
          compared :
              (sum : ℕ × ℕ) (same : Bool)
              → Finds db f off (accept_frame next m off sum frame)
              → Finds db f off
                  (if not same then no_transaction else accept_frame next m off sum frame)
          compared sum false h = tt
          compared sum true h = h

  scan_frames-Finds :
      (n : ℕ) (m : Offsets) (off : ℕ) (s : ℕ × ℕ)
      → AllFramesAt db f m
      → Finds db f off (scan_frames n db f m off s)
  unfolding scan_frames
  scan_frames-Finds zero m off s a = tt
  scan_frames-Finds (suc n) m off s a =
      scan_frame-Finds (scan_frames n db f) m off s _ (scan_frames-Finds n) refl a

  pub build-Finds : Finds db f db.wal.offset (build_tx_frame_offsets db f)
  unfolding build_tx_frame_offsets
  build-Finds = scan_frames-Finds (suc f.size) [] db.wal.offset (db.wal.chksum1, db.wal.chksum2) tt
