-- ===== src/Db/JournalFrames.antt =====
-- What the loop over the frames of a journal's segment, rollbackJournalSegment (db.go), makes of
-- them.
use litefs.Prelude.{
  ℕ, zero, suc, ◌+◌, ◌-◌, ◌%◌, ◌^◌, ◌≤◌, ◌<◌, ◌≡◌, refl, sym, ap, ◌∙◌, not, some, List, [], ◌∷◌,
  arith, length, take, drop, ==_iff, ==_ne, if◌then◌else◌, to_be32,
}
use litefs.Disk.{File, read_full_at, length-read}
use litefs.Ltx.{Ltx}
use litefs.Db.State.{Db, M, Result, ok, ◌>>=◌, return, continue}
use litefs.Db.Pages.{write_database_page}
use litefs.Db.Apply.{apply_pages}
use litefs.Db.Scan.{read-size}
use litefs.Db.JournalReader.{JournalReader, JournalRead, read_frame, frame_from, journal_checksum}
use litefs.Db.Rollback.{rollback_journal_segment, segment_frame}

-- The frames of these pages lie in the file from `off`, each with the right checksum.
abbrev pub FramesAt : File → ℕ → ℕ → ℕ → List (ℕ × List ℕ) → Type 0
FramesAt f ps nonce off [] = Unit
FramesAt f ps nonce off ((p, bytes) ∷ rest) =
    ((frame : List ℕ) × (read_full_at f (ps + 4 + 4) off ≡ some frame)
      × (to_be32 frame 0 ≡ p)
      × (take ps (drop 4 frame) ≡ bytes)
      × (to_be32 frame (length frame - 4) ≡ journal_checksum bytes nonce))
    × FramesAt f ps nonce (off + (ps + 4 + 4)) rest

-- The reader before and after the frames.
abbrev pub moved : JournalReader → ℕ → ℕ → JournalReader
moved r n off = record r { frame_n = n; offset = off }

abbrev pub end_of : ℕ → ℕ → ℕ → ℕ
end_of zero ps off = off
end_of (suc n) ps off = end_of n ps (off + (ps + 4 + 4))

read_frame-FramesAt :
    (r : JournalReader) (p : ℕ) (bytes : List ℕ) (rest : List (ℕ × List ℕ)) (off : ℕ)
    → length rest + 1 < 2 ^ 32
    → FramesAt r.file r.page_size r.nonce off ((p, bytes) ∷ rest)
    → read_frame (moved r (suc (length rest)) off)
      ≡ (moved r (length rest) (off + (r.page_size + 4 + 4)), JournalRead.ok (p, bytes))
unfolding read_frame
read_frame-FramesAt r p bytes rest off small a =
    let (frame, read, pgno, page, sum) = a.0 in
    let len = length-read r.file (r.page_size + 4 + 4) off frame (omega arith) read in
    let at = moved r (suc (length rest)) off in
    ap
      (λ b.
        if b
        then (at, JournalRead.at_end)
        else frame_from at (read_full_at r.file (r.page_size + 4 + 4) off))
      (==_ne (suc (length rest)) 0 (λ z. omega (arith, z)))
    ∙ ap (frame_from at) read
    ∙ ap (λ b. if not b then (at, JournalRead.at_end) else result frame)
        ((==_iff _ _).1 (sum ∙ ap (λ d. journal_checksum d r.nonce) (sym page)))
    ∙ (λ i.
        (moved r (one_less (length rest) small i) (off + len i), JournalRead.ok (pgno i, page i)))
  where
    result : List ℕ → JournalReader × JournalRead (ℕ × List ℕ)
    result frame = (
      moved r ((suc (length rest) + (2 ^ 32 - 1)) % 2 ^ 32) (off + length frame),
      JournalRead.ok (to_be32 frame 0, take r.page_size (drop 4 frame)),
    )

    one_less : (n : ℕ) → n + 1 < 2 ^ 32 → (suc n + (2 ^ 32 - 1)) % 2 ^ 32 ≡ n
    one_less n lt = omega (arith, lt)

no_frame :
    (r : JournalReader) (off : ℕ) → read_frame (moved r 0 off) ≡ (moved r 0 off, JournalRead.at_end)
unfolding read_frame
no_frame r off = refl

-- What follows a step may be replaced by what does the same.
continue-same :
    {A : Type 0} (k : M A) (k' : M (Unit {0})) (a : A)
    → ((db : Db) → k db ≡ continue (λ _. return a) (k' db))
    → (x : Db × Result (Unit {0}))
    → continue (λ _. k) x ≡ continue (λ _. return a) (continue (λ _. k') x)
continue-same k k' a same (db, ok u) = same db
continue-same k k' a same (db, Result.err e) = refl
continue-same k k' a same (db, Result.panics) = refl
continue-same k k' a same (db, Result.diverges) = refl

-- The loop over the frames of a segment writes their pages.
pub segment-FramesAt :
    (ltx : Ltx) (n : ℕ) (r : JournalReader) (pages : List (ℕ × List ℕ)) (off : ℕ)
    → length pages + 1 < 2 ^ 32
    → r.file.size < n + off
    → off ≤ r.file.size
    → FramesAt r.file r.page_size r.nonce off pages
    → (db : Db)
    → rollback_journal_segment n ltx (moved r (length pages) off) db
      ≡ (apply_pages ltx pages >>= λ _. return (moved r 0 (end_of (length pages) r.page_size off)))
          db
unfolding rollback_journal_segment apply_pages
segment-FramesAt ltx zero r pages off small fuel le a db = absurd (omega (arith, fuel, le))
segment-FramesAt ltx (suc n) r [] off small fuel le a db =
    ap (λ x. segment_frame ltx (rollback_journal_segment n ltx) x db) (no_frame r off)
segment-FramesAt ltx (suc n) r ((p, bytes) ∷ rest) off small fuel le a db =
    let fits = read-size r.file (r.page_size + 4 + 4) off a.0.0 (omega arith) a.0.1 in
    ap (λ x. segment_frame ltx (rollback_journal_segment n ltx) x db)
      (read_frame-FramesAt r p bytes rest off (omega (arith, small)) a)
    ∙ continue-same
        (rollback_journal_segment n ltx (moved r (length rest) (off + (r.page_size + 4 + 4))))
        (apply_pages ltx rest)
        (moved r 0 (end_of (length rest) r.page_size (off + (r.page_size + 4 + 4))))
        (segment-FramesAt ltx n r rest (off + (r.page_size + 4 + 4)) (omega (arith, small))
          (omega (arith, fuel)) fits a.1)
        (write_database_page ltx p bytes db)

pub le-end_of : (n ps off : ℕ) → off ≤ end_of n ps off
le-end_of zero ps off = omega arith
le-end_of (suc n) ps off = omega (arith, le-end_of n ps (off + (ps + 4 + 4)))
