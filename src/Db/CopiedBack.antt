-- ===== src/Db/CopiedBack.antt =====
-- The loop of CheckpointNoLock (db.go) that copies the pages of the WAL to the database file.
use litefs.Prelude.{
  ℕ, ◌+◌, ◌-◌, ◌*◌, ◌≤◌, ◌<◌, ◌≡◌, refl, sym, ap, ◌∙◌, Option, some, List, [], ◌∷◌, arith, update,
  update_ne, ℕ_discrete,
}
use litefs.Disk.{File, read_full_at, write_at, length-read}
use litefs.Ltx.{Ltx}
use litefs.Db.State.{Db, Error, ok, ◌>>◌, continue, from_option}
use litefs.Db.Pages.{write_database_page}
use litefs.Db.Apply.{apply_pages}
use litefs.Db.Overlay.{ArePages, overlay, write_database_page_lem}
use litefs.Db.CommitWal.{with_offsets}
use litefs.Db.TxFrames.{Offsets}
use litefs.Db.Checkpoint.{copy_back}

-- Each entry is of a page up to `n`, and its frame can be read.
abbrev pub AllReadable : Db → File → ℕ → Offsets → Type 0
AllReadable db f n [] = Unit
AllReadable db f n ((p, off) ∷ m) =
    ((1 ≤ p) × (p ≤ n) × (d : List ℕ) × (read_full_at f db.page_size (off + 24) ≡ some d))
    × AllReadable db f n m

-- The pages of the entries.
abbrev pub pages_of :
    (db : Db) (f : File) (n : ℕ) (m : Offsets) → AllReadable db f n m → List (ℕ × List ℕ)
pages_of db f n [] a = []
pages_of db f n ((p, off) ∷ m) a = (p, a.0.2) ∷ pages_of db f n m a.1

pub pages_of-ArePages :
    (db : Db) (f : File) (n : ℕ) (m : Offsets) (a : AllReadable db f n m)
    → 0 < db.page_size
    → ArePages db.page_size n (pages_of db f n m a)
pages_of-ArePages db f n [] a h = tt
pages_of-ArePages db f n ((p, off) ∷ m) a h = (
  (a.0.0, a.0.1, length-read f db.page_size (off + 24) a.0.2 h a.0.3),
  pages_of-ArePages db f n m a.1 h,
)

-- What the pages and the offsets say of a page: neither has it, or both have the page of one frame.
pub data SamePage (ps : ℕ) (f : File) (g : Option (List ℕ)) (h : Option ℕ) (page : Option (List ℕ))
    (off : Option ℕ) : Type 0 where
  neither : page ≡ g → off ≡ h → SamePage ps f g h page off
  framed :
      (o : ℕ) (d : List ℕ)
      → page ≡ some d
      → off ≡ some o
      → read_full_at f ps (o + 24) ≡ some d
      → SamePage ps f g h page off

pub pages_of-SamePage :
    (db : Db) (f : File) (n : ℕ) (m : Offsets) (a : AllReadable db f n m) (g : ℕ → Option (List ℕ))
    (h : ℕ → Option ℕ) (p : ℕ)
    → SamePage db.page_size f (g p) (h p) (overlay (pages_of db f n m a) g p) (with_offsets m h p)
unfolding with_offsets
pages_of-SamePage db f n [] a g h p = neither refl refl
pages_of-SamePage db f n ((q, off) ∷ m) a g h p =
    here (pages_of-SamePage db f n m a.1 (update g q (some a.0.2)) (update h q (some off)) p)
  where
    here :
        {page : Option (List ℕ)} {o : Option ℕ}
        → SamePage db.page_size f (update g q (some a.0.2) p) (update h q (some off) p) page o
        → SamePage db.page_size f (g p) (h p) page o
    here (framed o d x y z) = framed o d x y z
    here (neither x y) = elim (ℕ_discrete q p) [
      | yes e ↦ framed off a.0.2 (x ∙ ground arith) (y ∙ ground arith) a.0.3
      | no e ↦ neither (x ∙ update_ne g q p (some a.0.2) e) (y ∙ update_ne h q p (some off) e)
    ]

-- The loop does what ApplyLTXNoLock's loop does with these pages.
pub copy_back-apply_pages :
    (ltx : Ltx) (f : File) (n : ℕ) (m : Offsets) (db : Db) (file : File) (a : AllReadable db f n m)
    → db.database ≡ some file
    → 0 < db.page_size
    → copy_back ltx f m db ≡ apply_pages ltx (pages_of db f n m a) db
unfolding copy_back apply_pages
copy_back-apply_pages ltx f n [] db file a e h = refl
copy_back-apply_pages ltx f n ((q, off) ∷ m) db file a e h =
    ap
      (λ r.
        continue (λ d. write_database_page ltx q d >> copy_back ltx f m)
          (from_option Error.read_page r db))
      a.0.3
    ∙ ap (continue (λ _. copy_back ltx f m)) written
    ∙ copy_back-apply_pages ltx f n m
        (record db {
          database = some (write_at file a.0.2 ((q - 1) * db.page_size));
          chksums = update db.chksums q (some (ltx.checksum_page q a.0.2));
        })
        (write_at file a.0.2 ((q - 1) * db.page_size)) a.1 refl h
    ∙ sym (ap (continue (λ _. apply_pages ltx (pages_of db f n m a.1))) written)
  where
    written : write_database_page ltx q a.0.2 db ≡ (
      record db {
        database = some (write_at file a.0.2 ((q - 1) * db.page_size));
        chksums = update db.chksums q (some (ltx.checksum_page q a.0.2));
      },
      ok tt,
    )
    written =
        write_database_page_lem ltx db file q a.0.2 e h
          (length-read f db.page_size (off + 24) a.0.2 h a.0.3) a.0.0
