-- ===== src/Db/JournalReader.antt =====
-- Reading a rollback journal (db.go): JournalReader; JournalChecksum (litefs.go).
use litefs.Prelude.{
  ℕ, zero, suc, ◌+◌, ◌-◌, ◌*◌, ◌/◌, ◌%◌, ◌^◌, Bool, true, false, not, ◌&&◌, Option, none, some,
  List, length, take, drop, get_or, ltb, ◌==◌, if◌then◌else◌, to_be32, equal_bytes,
}
use litefs.Disk.{File, read_full_at}
use litefs.Db.Journal.{journal_header_string, journal_header_size}
use litefs.Db.Writes.{is_byte_slice_zero}

-- type JournalReader, less the frame buffer; `frame_n` is the int32 as its 32 bits.
pub record JournalReader : Type 0 where
  pub file : File
  pub offset : ℕ
  pub is_valid : Bool
  pub frame_n : ℕ
  pub nonce : ℕ
  pub commit : ℕ
  pub sector_size : ℕ
  pub page_size : ℕ

-- func NewJournalReader(f *os.File, pageSize uint32) *JournalReader
abbrev pub new_journal_reader : File → ℕ → JournalReader
new_journal_reader f page_size = record {
  file = f;
  offset = 0;
  is_valid = false;
  frame_n = 0;
  nonce = 0;
  commit = 0;
  sector_size = 0;
  page_size = page_size;
}

-- What Next and ReadFrame return: a value, io.EOF, another error, or a panic (a division by zero).
pub data JournalRead {ℓ} (A : Type ℓ) : Type ℓ where
  ok : A → JournalRead A
  at_end : JournalRead A
  err : JournalRead A
  panics : JournalRead A

-- The loop of JournalChecksum: every 200th byte from the end, but the first.
abbrev pub journal_sum : ℕ → ℕ → ℕ → List ℕ → ℕ
journal_sum zero i chksum bytes = chksum
journal_sum (suc n) i chksum bytes =
    let rest = journal_sum n (i - 200) ((chksum + get_or bytes i 0) % 2 ^ 32) bytes in
    if i == 0 then chksum else rest

-- func JournalChecksum(data []byte, initial uint32) uint32
unfoldable pub journal_checksum : List ℕ → ℕ → ℕ
journal_checksum bytes initial = journal_sum (length bytes) (length bytes - 200) initial bytes

-- func journalHeaderOffset(offset, sectorSize int64) int64; `none` is a division by zero.
unfoldable pub journal_header_offset : ℕ → ℕ → Option ℕ
journal_header_offset offset sector_size =
    if offset == 0
    then some 0
    else (if sector_size == 0 then none else some (((offset - 1) / sector_size + 1) * sector_size))

-- The number of frames in a segment; `none` is a division by zero.
abbrev pub frames_in : ℕ → ℕ → ℕ → ℕ → ℕ → Option ℕ
frames_in raw size offset sector_size page_size =
    if raw == 2 ^ 32 - 1
    then (if page_size == 0 then none else some ((size - sector_size) / page_size % 2 ^ 32))
    else (if raw == 0
        then (if page_size == 0 then none else some ((size - offset) / page_size % 2 ^ 32))
        else some raw)

-- The page size that a header states, or that of the database.
abbrev pub stated_page_size : ℕ → ℕ → ℕ
stated_page_size stated page_size = if stated == 0 then page_size else stated

-- The end of Next: the segment must have more than the sector of its header.
abbrev pub enter_segment : JournalReader → JournalReader × JournalRead (Unit {0})
enter_segment r =
    if ltb r.file.size (r.offset + r.sector_size)
    then (r, at_end)
    else (record r { offset = r.offset + r.sector_size; is_valid = true }, ok tt)

-- The fields of a header, once the number of frames is known.
abbrev pub header_fields :
    JournalReader → List ℕ → Option ℕ → JournalReader × JournalRead (Unit {0})
header_fields r hdr none = (r, panics)
header_fields r hdr (some n) =
    if not (r.offset == 0)
    then enter_segment (record r { frame_n = n; nonce = to_be32 hdr 12; commit = to_be32 hdr 16 })
    else (if not (stated_page_size (to_be32 hdr 24) r.page_size == r.page_size)
        then (
          record r {
            frame_n = n;
            nonce = to_be32 hdr 12;
            commit = to_be32 hdr 16;
            sector_size = to_be32 hdr 20;
          },
          err,
        )
        else enter_segment (record r {
          frame_n = n;
          nonce = to_be32 hdr 12;
          commit = to_be32 hdr 16;
          sector_size = to_be32 hdr 20;
        }))

-- The header of a segment, at the reader's offset.
abbrev pub read_segment : JournalReader → Option (List ℕ) → JournalReader × JournalRead (Unit {0})
read_segment r none = (r, at_end)
read_segment r (some hdr) =
    if is_byte_slice_zero hdr
    then (r, at_end)
    else (if not (r.offset == 0) && not (equal_bytes (take 8 hdr) journal_header_string)
        then (r, at_end)
        else header_fields r hdr
            (frames_in (to_be32 hdr 8) r.file.size r.offset r.sector_size r.page_size))

abbrev pub next_from : JournalReader → Option ℕ → JournalReader × JournalRead (Unit {0})
next_from r none = (r, panics)
next_from r (some offset) =
    read_segment (record r { offset = offset }) (read_full_at r.file journal_header_size offset)

-- func (r *JournalReader) Next() (err error)
unfoldable pub next : JournalReader → JournalReader × JournalRead (Unit {0})
unfolding journal_header_offset read_full_at is_byte_slice_zero equal_bytes
next r = next_from r (journal_header_offset r.offset r.sector_size)

-- A frame that was read: its checksum, then the page number and the page.
abbrev pub frame_from : JournalReader → Option (List ℕ) → JournalReader × JournalRead (ℕ × List ℕ)
frame_from r none = (r, at_end)
frame_from r (some frame) =
    if not (
      to_be32 frame (length frame - 4)
      == journal_checksum (take r.page_size (drop 4 frame)) r.nonce)
    then (r, at_end)
    else (
      record r { frame_n = (r.frame_n + (2 ^ 32 - 1)) % 2 ^ 32; offset = r.offset + length frame },
      ok (to_be32 frame 0, take r.page_size (drop 4 frame)),
    )

-- func (r *JournalReader) ReadFrame() (pgno uint32, data []byte, err error)
unfoldable pub read_frame : JournalReader → JournalReader × JournalRead (ℕ × List ℕ)
unfolding journal_checksum read_full_at
read_frame r =
    if r.frame_n == 0
    then (r, at_end)
    else frame_from r (read_full_at r.file (r.page_size + 4 + 4) r.offset)
