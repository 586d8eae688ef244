-- ===== src/Wal/RoundTrip.antt =====
-- WALReader (litefs.go) on a WAL that SQLite has written.
use mathlib.Core.List.{append_assoc}
use litefs.Prelude.{
  some, ℕ, zero, suc, ◌+◌, ◌%◌, ◌^◌, ◌<◌, ◌≡◌, refl, sym, ap, ap₂, ◌∙◌, List, [], ◌∷◌, ◌++◌, length,
  take, to_be32, to_be32-be32, length-append, true, not, ◌&&◌, ==_self, ==_iff, if◌then◌else◌,
  arith,
}
use litefs.Reading.{
  Read, read_full, read_full-append, FullRead, full, none_left, too_short, read_full-FullRead,
}
use litefs.Wal.{
  ByteOrder, little_endian, big_endian, wal_sum, WalReader, WalRead, ok, at_end, err, Frame,
  wal_checksum, frame_checksum, same_sum, read_header, read_frame, header_from, checked_header,
  frame_from, data_from, checked_frame, byte_order, new_wal_reader, is_aligned,
}
use litefs.Wal.Checksum.{FitsSum, wal_sum-FitsSum}
use litefs.Wal.Format.{
  frame_sum, Log, magic, header_fields, header_sum, header_bytes, frame_fields, sum_after,
  frame_header, frame_bytes, FitsLog, FitsFrame, frames_bytes, wal_bytes,
}

same_sum_self : (s : ℕ × ℕ) → same_sum s s ≡ true
same_sum_self (a, b) = ap₂ ◌&&◌ (==_self a) (==_self b)

frame_sum-FitsSum :
    (bo : ByteOrder) (s : ℕ × ℕ) (hdr bytes : List ℕ)
    → FitsSum s
    → FitsSum (frame_sum bo s hdr bytes)
unfolding frame_sum
frame_sum-FitsSum bo s hdr bytes h =
    wal_sum-FitsSum bo bytes (wal_sum bo s (take 8 hdr)) (wal_sum-FitsSum bo (take 8 hdr) s h)

-- A reader in a log: it has the header's fields, and the checksum so far.
abbrev pub reading : Log → ℕ → ℕ × ℕ → List ℕ → WalReader
reading l n s stream = record {
  stream = stream;
  frame_n = n;
  bo = some l.bo;
  page_size = l.page_size;
  seq = l.seq;
  salt1 = l.salt1;
  salt2 = l.salt2;
  chksum = s;
}

module _ (l : Log) (n : ℕ) (s : ℕ × ℕ) (f : Frame) (rest : List ℕ) (v : FitsLog l)
    (w : FitsFrame l f) (h : FitsSum s) where
  abbrev sum : ℕ × ℕ
  sum = sum_after l s f

  sum_fits : FitsSum sum
  sum_fits = frame_sum-FitsSum l.bo s (frame_fields l f) f.bytes h

  abbrev hdr : List ℕ
  hdr = frame_header l s f

  salts_match : same_sum (l.salt1, l.salt2) (to_be32 hdr 8, to_be32 hdr 12) ≡ true
  salts_match =
      ap₂ ◌&&◌ ((==_iff _ _).1 (sym (to_be32-be32 l.salt1 v.2)))
        ((==_iff _ _).1 (sym (to_be32-be32 l.salt2 v.3)))

  sum_matches : same_sum sum (to_be32 hdr 16, to_be32 hdr 20) ≡ true
  sum_matches =
      ap₂ ◌&&◌ ((==_iff _ _).1 (sym (to_be32-be32 sum.0 sum_fits.0)))
        ((==_iff _ _).1 (sym (to_be32-be32 sum.1 sum_fits.1)))

  aligned : is_aligned f.bytes ≡ true
  aligned = (==_iff _ _).1 (ap (λ k. k % 8) w.2 ∙ v.4)

  checked : checked_frame (reading l n s rest) hdr f.bytes ≡ (reading l (n + 1) sum rest, ok f)
  unfolding frame_sum frame_checksum wal_checksum
  checked =
      rw (salts_match, aligned, sum_matches)
        (ap₂
          (λ p c.
            (reading l (n + 1) sum rest, ok (record { pgno = p; commit = c; bytes = f.bytes })))
          (to_be32-be32 f.pgno w.0) (to_be32-be32 f.commit w.1))

  -- The reader takes one frame from the front of the stream.
  pub read_frame-frame_bytes :
      read_frame l.page_size (reading l n s (frame_bytes l s f ++ rest))
      ≡ (reading l (n + 1) sum rest, ok f)
  unfolding read_frame
  read_frame-frame_bytes =
      ap
        (λ b.
          if not b
          then (whole, err)
          else frame_from whole (read_full 24 (frame_bytes l s f ++ rest)))
        (==_self l.page_size)
      ∙ ap (λ t. frame_from whole (read_full 24 t)) (append_assoc hdr f.bytes rest)
      ∙ ap (frame_from whole) (read_full-append hdr (f.bytes ++ rest))
      ∙ ap (λ k. data_from whole hdr (read_full k (f.bytes ++ rest))) (sym w.2)
      ∙ ap (data_from whole hdr) (read_full-append f.bytes rest)
      ∙ checked
    where
      whole : WalReader
      whole = reading l n s (frame_bytes l s f ++ rest)

magic_fits : (bo : ByteOrder) → magic bo < 2 ^ 32
magic_fits little_endian = omega arith
magic_fits big_endian = omega arith

byte_order-magic : (bo : ByteOrder) → byte_order (magic bo) ≡ ok bo
byte_order-magic little_endian = refl
byte_order-magic big_endian = refl

module _ (l : Log) (rest : List ℕ) (v : FitsLog l) where
  abbrev hdr_bytes : List ℕ
  hdr_bytes = header_bytes l

  header_sum_fits : FitsSum (header_sum l)
  header_sum_fits = wal_sum-FitsSum l.bo (header_fields l) (0, 0) (omega arith, omega arith)

  header_sum_matches :
      same_sum
        (wal_sum l.bo (0, 0) (take 24 hdr_bytes))
        (to_be32 hdr_bytes 24, to_be32 hdr_bytes 28)
      ≡ true
  header_sum_matches =
      ap₂ ◌&&◌ ((==_iff _ _).1 (sym (to_be32-be32 (header_sum l).0 header_sum_fits.0)))
        ((==_iff _ _).1 (sym (to_be32-be32 (header_sum l).1 header_sum_fits.1)))

  pub read_header-header_bytes :
      read_header (new_wal_reader (header_bytes l ++ rest))
      ≡ (reading l 0 (header_sum l) rest, ok tt)
  unfolding read_header
  read_header-header_bytes =
      ap (header_from whole) (read_full-append hdr_bytes rest)
      ∙ ap (λ m. checked_header unread hdr_bytes (byte_order m))
          (to_be32-be32 (magic l.bo) (magic_fits l.bo))
      ∙ ap (checked_header unread hdr_bytes) (byte_order-magic l.bo)
      ∙ rw (header_sum_matches) fields
    where
      whole : WalReader
      whole = new_wal_reader (header_bytes l ++ rest)

      unread : WalReader
      unread = new_wal_reader rest

      fields :
          ◌≡◌ {A = WalReader × WalRead (Unit {0})}
            (
              record unread {
                bo = some l.bo;
                page_size = to_be32 hdr_bytes 8;
                seq = to_be32 hdr_bytes 12;
                salt1 = to_be32 hdr_bytes 16;
                salt2 = to_be32 hdr_bytes 20;
                chksum = (to_be32 hdr_bytes 24, to_be32 hdr_bytes 28);
              },
              ok tt,
            )
            (reading l 0 (header_sum l) rest, ok tt)
      fields = λ i. (
        record {
          stream = rest;
          frame_n = 0;
          bo = some l.bo;
          page_size = to_be32-be32 l.page_size v.0 i;
          seq = to_be32-be32 l.seq v.1 i;
          salt1 = to_be32-be32 l.salt1 v.2 i;
          salt2 = to_be32-be32 l.salt2 v.3 i;
          chksum = (
            to_be32-be32 (header_sum l).0 header_sum_fits.0 i,
            to_be32-be32 (header_sum l).1 header_sum_fits.1 i,
          );
        },
        ok tt,
      )

abbrev pub keep_frame : Frame → WalReader × WalRead (List Frame) → WalReader × WalRead (List Frame)
keep_frame f (r, ok fs) = (r, ok (f ∷ fs))
keep_frame f (r, at_end) = (r, at_end)
keep_frame f (r, err) = (r, err)
keep_frame f (r, WalRead.panics) = (r, WalRead.panics)

abbrev pub next_frames :
    (WalReader → WalReader × WalRead (List Frame))
    → WalReader × WalRead Frame
    → WalReader × WalRead (List Frame)
next_frames more (r, ok f) = keep_frame f (more r)
next_frames more (r, at_end) = (r, at_end)
next_frames more (r, err) = (r, err)
next_frames more (r, WalRead.panics) = (r, WalRead.panics)

-- As many calls of ReadFrame, one after the other.
abbrev pub read_frames : ℕ → ℕ → WalReader → WalReader × WalRead (List Frame)
read_frames zero n r = (r, ok [])
read_frames (suc k) n r = next_frames (read_frames k n) (read_frame n r)

abbrev pub AllFit : Log → List Frame → Type 0
AllFit l [] = Unit
AllFit l (f ∷ fs) = FitsFrame l f × AllFit l fs

abbrev pub last_sum : Log → ℕ × ℕ → List Frame → ℕ × ℕ
last_sum l s [] = s
last_sum l s (f ∷ fs) = last_sum l (sum_after l s f) fs

pub read_frames-frames_bytes :
    (l : Log) (fs : List Frame) (n : ℕ) (s : ℕ × ℕ) (rest : List ℕ)
    → FitsLog l
    → AllFit l fs
    → FitsSum s
    → read_frames (length fs) l.page_size (reading l n s (frames_bytes l s fs ++ rest))
      ≡ (reading l (n + length fs) (last_sum l s fs) rest, ok fs)
read_frames-frames_bytes l [] n s rest v w h = λ i. (reading l (at i) s rest, ok [])
  where
    at : n ≡ n + 0
    at = omega arith
read_frames-frames_bytes l (f ∷ fs) n s rest v w h =
    ap (λ t. next_frames more (read_frame l.page_size (reading l n s t)))
      (append_assoc (frame_bytes l s f) (frames_bytes l (sum_after l s f) fs) rest)
    ∙ ap (next_frames more)
        (read_frame-frame_bytes l n s f (frames_bytes l (sum_after l s f) fs ++ rest) v w.0 h)
    ∙ ap (keep_frame f) (
        read_frames-frames_bytes l fs (n + 1) (sum_after l s f) rest v w.1
          (frame_sum-FitsSum l.bo s (frame_fields l f) f.bytes h))
    ∙ (λ i. (reading l (at (length fs) i) (last_sum l s (f ∷ fs)) rest, ok (f ∷ fs)))
  where
    at : (k : ℕ) → n + 1 + k ≡ n + suc k
    at k = omega arith

    more : WalReader → WalReader × WalRead (List Frame)
    more = read_frames (length fs) l.page_size

-- The bytes that are left are no whole frame.
data_from-torn :
    (r : WalReader) (hdr rest : List ℕ) {x : Read (List ℕ)}
    → FullRead r.page_size rest x
    → length rest < r.page_size
    → (data_from r hdr x).1 ≡ at_end
data_from-torn r hdr rest (full bytes end l e) lt =
    absurd (omega (arith, ap length e, length-append bytes end))
data_from-torn r hdr rest (none_left p) lt = refl
data_from-torn r hdr rest (too_short p) lt = refl

frame_from-torn :
    (r : WalReader) (stream : List ℕ) {x : Read (List ℕ)}
    → FullRead 24 stream x
    → length stream < 24 + r.page_size
    → (frame_from r x).1 ≡ at_end
frame_from-torn r stream (full hdr rest l e) lt =
    data_from-torn r hdr rest (read_full-FullRead r.page_size rest)
      (omega (arith, ap length e, length-append hdr rest))
frame_from-torn r stream (none_left p) lt = refl
frame_from-torn r stream (too_short p) lt = refl

read_frame-torn :
    (r : WalReader) → length r.stream < 24 + r.page_size → (read_frame r.page_size r).1 ≡ at_end
unfolding read_frame
read_frame-torn r lt =
    ap (λ b. (if not b then (r, err) else frame_from r (read_full 24 r.stream)).1)
      (==_self r.page_size)
    ∙ frame_from-torn r r.stream (read_full-FullRead 24 r.stream) lt

-- A log whose fields fit 32 bits, with frames whose pages have its page size, a multiple of 8, as
-- SQLite writes it, and after it fewer bytes than a frame has: WALReader reads the header, then
-- each frame in order with its page number, commit size and page, then io.EOF.
pub wal_reader-wal_bytes :
    (l : Log) (fs : List Frame) (rest : List ℕ)
    → FitsLog l
    → AllFit l fs
    → length rest < 24 + l.page_size
    → (r : WalReader) × (r' : WalReader) × (read_header (new_wal_reader (wal_bytes l fs ++ rest))
        ≡ (r, ok tt))
      × (read_frames (length fs) l.page_size r ≡ (r', ok fs))
      × ((read_frame l.page_size r').1 ≡ at_end)
wal_reader-wal_bytes l fs rest v w lt = (
  reading l 0 (header_sum l) (frames_bytes l (header_sum l) fs ++ rest),
  reading l (0 + length fs) (last_sum l (header_sum l) fs) rest,
  ap (λ t. read_header (new_wal_reader t))
        (append_assoc (header_bytes l) (frames_bytes l (header_sum l) fs) rest)
      ∙ read_header-header_bytes l (frames_bytes l (header_sum l) fs ++ rest) v,
  read_frames-frames_bytes l fs 0 (header_sum l) rest v w (header_sum_fits l rest v),
  read_frame-torn (reading l (0 + length fs) (last_sum l (header_sum l) fs) rest) lt,
)
