-- ===== src/Db/RolledBack.antt =====
-- What rollbackJournal (db.go) makes of a journal of one segment.
use litefs.Prelude.{
  ℕ, suc, ◌+◌, ◌-◌, ◌*◌, ◌/◌, ◌^◌, ◌≤◌, ◌<◌, ◌≡◌, refl, ap, ◌∙◌, true, false, not, ◌&&◌, none, some,
  List, arith, length, ltb, leb, ◌==◌, ==_ne, if◌then◌else◌, to_be32, dec_le,
}
use litefs.Disk.{File, truncate, read_full_at}
use litefs.Ltx.{Ltx}
use litefs.Db.State.{Db, M, ok, Error, ◌>>=◌, ◌>>◌, return, continue, modify, from_option}
use litefs.Db.Checksum.{read_database_page}
use litefs.Db.Pages.{truncate_database}
use litefs.Db.WellFormed.{AllMatch, page_of, page_of-truncate, truncate-AllMatch}
use litefs.Db.Overlay.{ArePages, overlay, Applied, apply_pages-Applied}
use litefs.Db.Writes.{is_byte_slice_zero}
use litefs.Db.JournalReader.{
  JournalReader, new_journal_reader, JournalRead, next, stated_page_size, frames_in, read_segment,
  next_from, journal_header_offset, header_fields, enter_segment,
}
use litefs.Db.Rollback.{
  journal_segments, journal_segment, rollback_file, rollback_if_exists, rollback_journal,
}
use litefs.Db.JournalFrames.{FramesAt, moved, end_of, le-end_of, segment-FramesAt}

-- A journal of one segment, as SQLite leaves it: a header, its sector, and the frames; no further
-- header fits the file. The checksums of the database file are those of its pages.
pub record HasJournal (ltx : Ltx) (db : Db) : Type 0 where
  pub journal : File
  pub journal_exists : db.journal ≡ some journal
  pub file : File
  pub exists : db.database ≡ some file
  pub sized : 0 < db.page_size
  pub matching : AllMatch ltx db.page_size file db.chksums
  pub hdr : List ℕ
  pub header_read : read_full_at journal 28 0 ≡ some hdr
  pub in_use : is_byte_slice_zero hdr ≡ false
  pub pages : List (ℕ × List ℕ)
  pub counted : to_be32 hdr 8 ≡ length pages
  pub some_pages : 0 < length pages
  pub small : length pages + 1 < 2 ^ 32
  pub has_sector : 0 < to_be32 hdr 20
  pub fits : to_be32 hdr 20 ≤ journal.size
  pub same_page_size : to_be32 hdr 24 ≡ db.page_size
  pub frames : FramesAt journal db.page_size (to_be32 hdr 12) (to_be32 hdr 20) pages
  pub ends :
      read_full_at journal 28 (
        ((end_of (length pages) db.page_size (to_be32 hdr 20) - 1) / to_be32 hdr 20 + 1)
        * to_be32 hdr 20)
      ≡ none
  pub n : ℕ
  pub are_pages : ArePages db.page_size n pages

frames_in-counted :
    (raw size off sector ps : ℕ)
    → 0 < raw
    → raw + 1 < 2 ^ 32
    → frames_in raw size off sector ps ≡ some raw
frames_in-counted raw size off sector ps h lt =
    rw (==_ne raw (2 ^ 32 - 1) (λ z. omega (arith, z, lt)), ==_ne raw 0 (λ z. omega (arith, z, h)))
      refl

stated_page_size-same : (stated ps : ℕ) → stated ≡ ps → (stated_page_size stated ps == ps) ≡ true
stated_page_size-same stated ps e = ground (arith, e)

not_ltb : (a b : ℕ) → b ≤ a → ltb a (0 + b) ≡ false
not_ltb a b h = ground (arith, h)

module _ (ltx : Ltx) (db : Db) (t : HasJournal ltx db) where
  abbrev sector : ℕ
  sector = to_be32 t.hdr 20

  abbrev pub commit : ℕ
  commit = to_be32 t.hdr 16

  abbrev start : JournalReader
  start = new_journal_reader t.journal db.page_size

  abbrev described : JournalReader
  described = record start {
    frame_n = length t.pages;
    nonce = to_be32 t.hdr 12;
    commit = commit;
    sector_size = sector;
  }

  abbrev entered_at : ℕ → JournalReader
  entered_at offset = record described { offset = offset; is_valid = true }

  abbrev entered : JournalReader
  entered = entered_at sector

  abbrev last : JournalReader
  last = moved entered 0 (end_of (length t.pages) db.page_size sector)

  frames_counted :
      frames_in (to_be32 t.hdr 8) t.journal.size 0 0 db.page_size ≡ some (length t.pages)
  frames_counted =
      ap (λ raw. frames_in raw t.journal.size 0 0 db.page_size) t.counted
      ∙ frames_in-counted (length t.pages) t.journal.size 0 0 db.page_size t.some_pages t.small

  next_first : next start ≡ (entered, JournalRead.ok tt)
  unfolding next journal_header_offset
  next_first =
      ap (read_segment start) t.header_read
      ∙ ap
          (λ b.
            if b
            then (start, JournalRead.at_end)
            else header_fields start t.hdr
                (frames_in (to_be32 t.hdr 8) t.journal.size 0 0 db.page_size))
          t.in_use
      ∙ ap (header_fields start t.hdr) frames_counted
      ∙ ap (λ b. if not b then (described, JournalRead.err) else enter_segment described)
          (stated_page_size-same (to_be32 t.hdr 24) db.page_size t.same_page_size)
      ∙ ap
          (λ b.
            if b
            then (described, JournalRead.at_end)
            else (entered_at (0 + sector), JournalRead.ok tt))
          (not_ltb t.journal.size sector t.fits)
      ∙ ap (λ o. (entered_at o, JournalRead.ok tt)) (zero_plus sector)
    where
      zero_plus : (x : ℕ) → 0 + x ≡ x
      zero_plus x = omega arith

  abbrev aligned : ℕ
  aligned = ((end_of (length t.pages) db.page_size sector - 1) / sector + 1) * sector

  header_offset :
      journal_header_offset (end_of (length t.pages) db.page_size sector) sector ≡ some aligned
  unfolding journal_header_offset
  header_offset =
      rw
        (
          ==_ne (end_of (length t.pages) db.page_size sector) 0
              (λ z. omega (arith, z, le-end_of (length t.pages) db.page_size sector, t.has_sector)),
          ==_ne sector 0 (λ z. omega (arith, z, t.has_sector)),
        )
        refl

  next-last : next last ≡ (record last { offset = aligned }, JournalRead.at_end)
  unfolding next
  next-last =
      ap (next_from last) header_offset
      ∙ ap (read_segment (record last { offset = aligned })) t.ends

  pub loop : Applied ltx db t.file t.n t.pages
  loop = apply_pages-Applied ltx db t.file t.n t.pages t.exists t.sized t.are_pages t.matching

  abbrev applied : Db
  applied = record db { database = some loop.file; chksums = loop.sums }

  abbrev pub after : Db
  after = record db {
    database = some (truncate loop.file (commit * db.page_size));
    chksums = λ p. if ltb commit p && leb p db.page_n then none else loop.sums p;
    page_n = commit;
    journal = none;
  }

  segments :
      journal_segments (suc (suc t.journal.size)) ltx start db
      ≡ (applied, ok (record last { offset = aligned }))
  unfolding journal_segments
  segments =
      ap (λ x. journal_segment ltx (journal_segments (suc t.journal.size) ltx) x db) next_first
      ∙ ap (continue (journal_segments (suc t.journal.size) ltx)) (
          segment-FramesAt ltx (suc t.journal.size) entered t.pages sector t.small (omega arith)
            t.fits t.frames db
          ∙ ap (continue (λ _. return last)) loop.result)
      ∙ ap (λ x. journal_segment ltx (journal_segments t.journal.size ltx) x applied) next-last

  pub succeeds : rollback_journal ltx db ≡ (after, ok tt)
  unfolding rollback_journal rollback_file truncate_database
  succeeds =
      ap (λ j. rollback_if_exists ltx j db) t.journal_exists
      ∙ (λ i. continue opened (from_option Error.os (t.exists i) db))
      ∙ ap (continue segmented) segments
    where
      segmented : JournalReader → M (Unit {0})
      segmented r =
          (if r.is_valid then truncate_database r.commit else return tt)
          >> modify (λ db. record db { journal = none })

      opened : File → M (Unit {0})
      opened _ = journal_segments (suc (suc t.journal.size)) ltx start >>= segmented

  pub page_after :
      (p : ℕ) (d : List ℕ)
      → 1 ≤ p
      → p ≤ commit
      → overlay t.pages (page_of db.page_size t.file) p ≡ some d
      → read_database_page after p ≡ some d
  unfolding read_database_page
  page_after p d one le o =
      page_of-truncate db.page_size loop.file p commit d t.sized one le (loop.contents p d one o)

  pub within :
      ((p : ℕ)
        → db.page_n < p
        → commit < p
        → (overlay t.pages (λ _. none) p ≡ none) × (db.chksums p ≡ none))
      → (p : ℕ) → commit < p
      → after.chksums p ≡ none
  within h p lt = elim (dec_le p db.page_n) [
    | yes le ↦ ground arith
    | no gt ↦ let (z, c) = h p (omega arith) lt in ground (arith, loop.kept p z ∙ c)
  ]

  pub matching :
      ((p : ℕ)
        → db.page_n < p
        → commit < p
        → (overlay t.pages (λ _. none) p ≡ none) × (db.chksums p ≡ none))
      → AllMatch ltx db.page_size (truncate loop.file (commit * db.page_size)) after.chksums
  matching h =
      truncate-AllMatch ltx db.page_size loop.file after.chksums commit t.sized (within h)
        (λ p c e. loop.matching p c (ground (arith, e)))

-- What rollbackJournal comes to.
pub record RolledBack (ltx : Ltx) (db : Db) (t : HasJournal ltx db) (commit : ℕ) : Type 0 where
  pub after : Db
  pub succeeds : rollback_journal ltx db ≡ (after, ok tt)
  pub pages :
      (p : ℕ) (d : List ℕ)
      → 1 ≤ p
      → p ≤ commit
      → overlay t.pages (page_of db.page_size t.file) p ≡ some d
      → read_database_page after p ≡ some d
  pub file : File
  pub exists : after.database ≡ some file
  pub file_size : file.size ≡ commit * db.page_size
  pub size : after.page_n ≡ commit
  pub removed : after.journal ≡ none
  pub same :
      (after.pos ≡ db.pos)
      × (after.ltx_dir ≡ db.ltx_dir)
      × (after.dirty_page_set ≡ db.dirty_page_set)
  pub within :
      ((p : ℕ)
        → db.page_n < p
        → commit < p
        → (overlay t.pages (λ _. none) p ≡ none) × (db.chksums p ≡ none))
      → (p : ℕ) → commit < p
      → after.chksums p ≡ none
  pub matching :
      ((p : ℕ)
        → db.page_n < p
        → commit < p
        → (overlay t.pages (λ _. none) p ≡ none) × (db.chksums p ≡ none))
      → AllMatch ltx db.page_size file after.chksums

-- Take a database with a journal of one segment: a header with a sector size and the number of the
-- frames, which is at least 1, and the frames, each with the checksum of its page; the journal ends
-- before a further header. rollbackJournal ends and succeeds: the database has the size in the
-- header, and so has its file in bytes, each page up to it is as its last frame has it, or as it
-- was, and the journal is removed; position, transaction files and the set of dirty pages stay. If
-- beyond both sizes there was no checksum and no frame, there is no checksum beyond the size, and
-- the checksums in memory are those of the pages in the file.
pub rollback_journal_correct :
    (ltx : Ltx) (db : Db) (t : HasJournal ltx db) → RolledBack ltx db t (to_be32 t.hdr 16)
unfolding truncate
rollback_journal_correct ltx db t = record {
  after = after ltx db t;
  succeeds = succeeds ltx db t;
  pages = page_after ltx db t;
  file = truncate (loop ltx db t).file (to_be32 t.hdr 16 * db.page_size);
  exists = refl;
  file_size = refl;
  size = refl;
  removed = refl;
  same = (refl, refl, refl);
  within = within ltx db t;
  matching = matching ltx db t;
}
