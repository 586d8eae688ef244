-- ===== src/Db/Overlay.antt =====
-- Writing the pages of a transaction file to the database (db.go, the loop of ApplyLTXNoLock).
use litefs.Prelude.{
  ℕ, ◌-◌, ◌*◌, ◌≤◌, ◌<◌, ◌≡◌, refl, sym, ◌∙◌, subst, ◌≢◌, ◌⊎◌, inl, inr, Option, none, some,
  Option-cases, List, [], ◌∷◌, arith, length, update, ℕ_discrete,
}
use litefs.Disk.{File, write_at}
use litefs.Ltx.{Ltx}
use litefs.Db.State.{Db, ok}
use litefs.Db.Pages.{write_database_page}
use litefs.Db.Apply.{apply_pages}
use litefs.Db.WellFormed.{
  page_of, AllMatch, page_of-write_self, page_of-write_other, write-AllMatch,
}

-- The pages of a file of a transaction up to `commit`: numbered from 1, and of one size.
abbrev pub ArePages : ℕ → ℕ → List (ℕ × List ℕ) → Type 0
ArePages ps commit [] = Unit
ArePages ps commit ((p, bytes) ∷ rest) =
    ((1 ≤ p) × (p ≤ commit) × (length bytes ≡ ps)) × ArePages ps commit rest

-- The contents `g`, with the pages of the file in place of its own.
abbrev pub overlay : List (ℕ × List ℕ) → (ℕ → Option (List ℕ)) → ℕ → Option (List ℕ)
overlay [] g = g
overlay ((q, bytes) ∷ rest) g = overlay rest (update g q (some bytes))

pub overlay_mono :
    (pages : List (ℕ × List ℕ)) (g h : ℕ → Option (List ℕ)) (p : ℕ)
    → ((d : List ℕ) → g p ≡ some d → h p ≡ some d)
    → (d : List ℕ) → overlay pages g p ≡ some d
    → overlay pages h p ≡ some d
overlay_mono [] g h p m = m
overlay_mono ((q, bytes) ∷ rest) g h p m =
    overlay_mono rest (update g q (some bytes)) (update h q (some bytes)) p
      (λ d e. ground (arith, m d))

-- A page that the overlay does not have, neither has.
pub overlay-none :
    (pages : List (ℕ × List ℕ)) (g : ℕ → Option (List ℕ)) (p : ℕ)
    → overlay pages g p ≡ none
    → g p ≡ none
overlay-none [] g p e = e
overlay-none ((q, bytes) ∷ rest) g p e =
    ground (arith, overlay-none rest (update g q (some bytes)) p e)

overlay-none_mono :
    (pages : List (ℕ × List ℕ)) (g : ℕ → Option (List ℕ)) (p : ℕ)
    → overlay pages g p ≡ none
    → overlay pages (λ _. none) p ≡ none
overlay-none_mono pages g p e = elim (Option-cases (overlay pages (λ _. none) p)) [
  | inl n ↦ n
  | inr (d, s) ↦ cc (e, overlay_mono pages (λ _. none) g p (λ d e. cc) d s)
]

pub write_database_page_lem :
    (ltx : Ltx) (db : Db) (f : File) (q : ℕ) (bytes : List ℕ)
    → db.database ≡ some f
    → 0 < db.page_size
    → length bytes ≡ db.page_size
    → 1 ≤ q
    → write_database_page ltx q bytes db ≡ (
      record db {
        database = some (write_at f bytes ((q - 1) * db.page_size));
        chksums = update db.chksums q (some (ltx.checksum_page q bytes));
      },
      ok tt,
    )
unfolding write_database_page
write_database_page_lem ltx db f q bytes e h l one = ground arith

-- What the loop does to the database file and to the checksums in memory.
pub record Applied (ltx : Ltx) (db : Db) (f : File) (commit : ℕ) (pages : List (ℕ × List ℕ))
    : Type 0 where
  pub file : File
  pub sums : ℕ → Option ℕ
  pub result :
      apply_pages ltx pages db ≡ (record db { database = some file; chksums = sums }, ok tt)
  pub matching : AllMatch ltx db.page_size file sums
  pub bounded : (p : ℕ) → commit < p → sums p ≡ db.chksums p
  pub present : (p : ℕ) (d : List ℕ) → overlay pages (λ q. none) p ≡ some d → sums p ≢ none
  pub kept : (p : ℕ) → overlay pages (λ q. none) p ≡ none → sums p ≡ db.chksums p
  pub preserved : (p : ℕ) → db.chksums p ≢ none → sums p ≢ none
  pub contents :
      (p : ℕ) (d : List ℕ)
      → 1 ≤ p
      → overlay pages (page_of db.page_size f) p ≡ some d
      → page_of db.page_size file p ≡ some d

update_present : (sums : ℕ → Option ℕ) (q p c : ℕ) → sums p ≢ none → update sums q (some c) p ≢ none
update_present sums q p c h = ground arith

pub overlay-cases :
    (pages : List (ℕ × List ℕ)) (g : ℕ → Option (List ℕ)) (p : ℕ) (d : List ℕ)
    → overlay pages g p ≡ some d
    → (overlay pages (λ q. none) p ≡ some d) ⊎ (g p ≡ some d)
overlay-cases [] g p d e = inr e
overlay-cases ((q, bytes) ∷ rest) g p d e =
    elim (overlay-cases rest (update g q (some bytes)) p d e) [
      | inl new ↦
          inl
            (overlay_mono rest (λ _. none) (update (λ _. none) q (some bytes)) p (λ d e. cc) d new)
      | inr old ↦ elim (ℕ_discrete q p) [
        | yes same ↦ inl (
            overlay_mono rest (update g q (some bytes)) (update (λ _. none) q (some bytes)) p
              (λ d e. ground arith) d e)
        | no other ↦ inr (ground arith)
      ]
    ]

pub apply_pages-Applied :
    (ltx : Ltx) (db : Db) (f : File) (commit : ℕ) (pages : List (ℕ × List ℕ))
    → db.database ≡ some f
    → 0 < db.page_size
    → ArePages db.page_size commit pages
    → AllMatch ltx db.page_size f db.chksums
    → Applied ltx db f commit pages
unfolding apply_pages
apply_pages-Applied ltx db f commit [] e h a m = record {
  file = f;
  sums = db.chksums;
  result = λ i. (record db { database = e i }, ok tt);
  matching = m;
  bounded = λ p lt. refl;
  present = λ p d q. cc;
  kept = λ p o. refl;
  preserved = λ p n. n;
  contents = λ p d one q. q;
}
apply_pages-Applied ltx db f commit ((q, bytes) ∷ rest) e h a m =
    let f' = write_at f bytes ((q - 1) * db.page_size) in
    let sums' = update db.chksums q (some (ltx.checksum_page q bytes)) in
    let r =
      apply_pages-Applied ltx (record db { database = some f'; chksums = sums' }) f' commit rest
        refl h a.1 (write-AllMatch ltx db.page_size f db.chksums q bytes a.0.2 h a.0.0 m) in
    record {
      file = r.file;
      sums = r.sums;
      result = rw (write_database_page_lem ltx db f q bytes e h a.0.2 a.0.0) r.result;
      matching = r.matching;
      bounded = λ p lt. r.bounded p lt ∙ ground arith;
      present = λ p d o. elim (overlay-cases rest (update (λ _. none) q (some bytes)) p d o) [
        | inl new ↦ r.present p d new
        | inr old ↦ r.preserved p (first p d old)
      ];
      kept = λ p o.
          r.kept p (overlay-none_mono rest (update (λ _. none) q (some bytes)) p o)
          ∙ other p (overlay-none rest (update (λ _. none) q (some bytes)) p o);
      preserved = λ p n. r.preserved p (update_present db.chksums q p _ n);
      contents = λ p d one o. r.contents p d one (overlay_mono rest _ _ p (written p one) d o);
    }
  where
    other :
        (p : ℕ)
        → update (λ _. none) q (some bytes) p ≡ none
        → update db.chksums q (some (ltx.checksum_page q bytes)) p ≡ db.chksums p
    other p o = ground arith

    first :
        (p : ℕ) (d : List ℕ)
        → update (λ _. none) q (some bytes) p ≡ some d
        → update db.chksums q (some (ltx.checksum_page q bytes)) p ≢ none
    first p d o = ground arith

    written :
        (p : ℕ)
        → 1 ≤ p
        → (d : List ℕ) → update (page_of db.page_size f) q (some bytes) p ≡ some d
        → page_of db.page_size (write_at f bytes ((q - 1) * db.page_size)) p ≡ some d
    written p one d o = elim (ℕ_discrete q p) [
      | yes same ↦
          subst (λ t. page_of db.page_size (write_at f bytes ((q - 1) * db.page_size)) t ≡ some d)
            same (page_of-write_self db.page_size f q bytes a.0.2 ∙ ground arith)
      | no other ↦
          page_of-write_other db.page_size f p q bytes d a.0.2 h one a.0.0 (λ r. other (sym r))
            (ground arith)
    ]
