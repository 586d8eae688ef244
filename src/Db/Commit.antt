-- ===== src/Db/Commit.antt =====
-- What CommitJournal does with a transaction (db.go).
use litefs.Prelude.{
  ℕ, ◌-◌, ◌*◌, ◌≤◌, ◌<◌, ◌≡◌, refl, sym, ap, ◌∙◌, subst, ◌≢◌, ◌⊎◌, inl, inr, Option, none, some,
  Option-cases, List, [], ◌∷◌, arith, ==_iff, ==_ne, ==_self, ℕ_discrete, update,
}
use litefs.Disk.{File, length-read}
use litefs.Ltx.{Ltx}
use litefs.Db.State.{Db, Result, ok, M, continue}
use litefs.Db.Checksum.{page_checksum, read_database_page}
use litefs.Db.Journal.{copy_pages}
use litefs.Db.WellFormed.{page_of, AllMatch}
use litefs.Db.Overlay.{ArePages, overlay, overlay_mono, overlay-cases}
use litefs.Db.Rolling.{AllPresent}
use litefs.Db.Dirty.{Listed, AreWithin}

-- A step that succeeds, and what follows it.
pub then_ok :
    {A B : Type 0} (f : A → M B) {x : Db × Result A} (db : Db) (a : A) {r : Db × Result B}
    → x ≡ (db, ok a)
    → f a db ≡ r
    → continue f x ≡ r
then_ok f db a p q = ap (continue f) p ∙ q

page_checksum-memory :
    (ltx : Ltx) (db : Db) (p n : ℕ)
    → db.wal.chksums p ≡ []
    → p ≢ ltx.lock_pgno db.page_size
    → p ≤ n
    → page_checksum ltx db p n (λ _. none) ≡ db.chksums p
unfolding page_checksum
page_checksum-memory ltx db p n w l le = ground arith

-- The pages that the loop copies.
pub record Copied (ltx : Ltx) (db : Db) (commit : ℕ) (pgnos : List ℕ) : Type 0 where
  pub pages : List (ℕ × List ℕ)
  pub result : copy_pages ltx commit pgnos db ≡ (db, ok pages)
  pub are_pages : ArePages db.page_size commit pages
  pub contents :
      (p : ℕ) (d : List ℕ) → overlay pages (λ _. none) p ≡ some d → read_database_page db p ≡ some d
  pub listed :
      (p : ℕ) (d : List ℕ)
      → overlay pages (λ _. none) p ≡ some d
      → Listed p pgnos × (p ≢ ltx.lock_pgno db.page_size)
  pub covers :
      (p : ℕ) → Listed p pgnos → p ≢ ltx.lock_pgno db.page_size → overlay pages (λ _. none) p ≢ none

module _ (ltx : Ltx) (db : Db) (f : File) (commit : ℕ) (e : db.database ≡ some f)
    (sized : 0 < db.page_size) (m : AllMatch ltx db.page_size f db.chksums)
    (no_sums : (p : ℕ) → db.wal.chksums p ≡ []) (present : AllPresent ltx db commit) where
  read_is :
      (p : ℕ) (d : List ℕ) → page_of db.page_size f p ≡ some d → read_database_page db p ≡ some d
  unfolding read_database_page
  read_is p d r = ground arith

  overlay-present :
      (q : ℕ) (b : List ℕ) (pages : List (ℕ × List ℕ)) (p : ℕ)
      → (p ≡ q) ⊎ (overlay pages (λ _. none) p ≢ none)
      → overlay ((q, b) ∷ pages) (λ _. none) p ≢ none
  overlay-present q b [] p (inl s) z = ground arith
  overlay-present q b [] p (inr n) z = n refl
  overlay-present q b pages p (inr n) z = elim (Option-cases (overlay pages (λ _. none) p)) [
    | inl z' ↦ n z'
    | inr (d, o) ↦
        cc (z, overlay_mono pages (λ _. none) (update (λ _. none) q (some b)) p (λ d e. cc) d o)
  ]
  overlay-present q b ((q', b') ∷ pages) p (inl s) z =
      overlay_keeps ((q', b') ∷ pages) (update (λ _. none) q (some b)) p (λ z. ground arith) z
    where
      overlay_keeps :
          (pages : List (ℕ × List ℕ)) (g : ℕ → Option (List ℕ)) (p : ℕ)
          → g p ≢ none
          → overlay pages g p ≢ none
      overlay_keeps [] g p n = n
      overlay_keeps ((q, b) ∷ pages) g p n =
          overlay_keeps pages (update g q (some b)) p (λ z. ground arith)

  -- The checksum of a page that is within the database, and not the lock page.
  known :
      (q : ℕ)
      → 1 ≤ q
      → q ≤ commit
      → q ≢ ltx.lock_pgno db.page_size
      → (c : ℕ) × ((d : List ℕ) × (db.chksums q ≡ some c)
          × (page_of db.page_size f q ≡ some d)
          × (c ≡ ltx.checksum_page q d))
  known q one le n = elim (Option-cases (db.chksums q)) [
    | inl z ↦ absurd (present q one le n z)
    | inr (c, s) ↦ let (_, (d, on_file, same)) = m q c s in (c, (d, s, on_file, same))
  ]

  one_update :
      (q p : ℕ) (d b : List ℕ) → update (λ _. none) q (some d) p ≡ some b → (q ≡ p) × (d ≡ b)
  one_update q p d b o = elim (ℕ_discrete q p) [
    | yes e ↦ (e, ground arith)
    | no n ↦ absurd (ground arith)
  ]

  copy_lock :
      (q : ℕ) (qs : List ℕ)
      → q ≡ ltx.lock_pgno db.page_size
      → copy_pages ltx commit (q ∷ qs) db ≡ copy_pages ltx commit qs db
  unfolding copy_pages
  copy_lock q qs h = rw ((==_iff _ _).1 h) refl

  copy_page :
      (q : ℕ) (qs : List ℕ) (d : List ℕ) (pages : List (ℕ × List ℕ))
      → q ≢ ltx.lock_pgno db.page_size
      → read_database_page db q ≡ some d
      → page_checksum ltx db q commit (λ _. none) ≡ some (ltx.checksum_page q d)
      → copy_pages ltx commit qs db ≡ (db, ok pages)
      → copy_pages ltx commit (q ∷ qs) db ≡ (db, ok ((q, d) ∷ pages))
  unfolding copy_pages
  copy_page q qs d pages h r s rest = rw (==_ne _ _ h, r, s, ==_self, rest) refl

  pub copy_pages-Copied : (pgnos : List ℕ) → AreWithin commit pgnos → Copied ltx db commit pgnos
  unfolding copy_pages
  copy_pages-Copied [] w = record {
    pages = [];
    result = refl;
    are_pages = tt;
    contents = λ p d o. cc;
    listed = λ p d o. cc;
    covers = λ p l. absurd l;
  }
  copy_pages-Copied (q ∷ qs) w =
      let c = copy_pages-Copied qs w.1 in
      elim (ℕ_discrete q (ltx.lock_pgno db.page_size)) [
        | yes h ↦ record {
          pages = c.pages;
          result = copy_lock q qs h ∙ c.result;
          are_pages = c.are_pages;
          contents = c.contents;
          listed = λ p d o. let (l, n) = c.listed p d o in (inr l, n);
          covers = λ p l n. elim l [ inl e ↦ absurd (n (e ∙ h)) | inr l ↦ c.covers p l n ];
        }
        | no h ↦
            let (s, (d, known_sum, on_file, same)) = known q w.0.0 w.0.1 h in
            record {
              pages = (q, d) ∷ c.pages;
              result =
                  copy_page q qs d c.pages h (read_is q d on_file)
                    (page_checksum-memory ltx db q commit (no_sums q) h w.0.1
                      ∙ known_sum
                      ∙ ap some same)
                    c.result;
              are_pages = (
                (w.0.0, w.0.1, length-read f db.page_size ((q - 1) * db.page_size) d sized on_file),
                c.are_pages,
              );
              contents = λ p b o.
                  elim (overlay-cases c.pages (update (λ _. none) q (some d)) p b o) [
                    | inl new ↦ c.contents p b new
                    | inr at ↦
                        let (here, same) = one_update q p d b at in
                        subst (λ t. read_database_page db t ≡ some b) here
                          (read_is q d on_file ∙ ap some same)
                  ];
              listed = λ p b o. elim (overlay-cases c.pages (update (λ _. none) q (some d)) p b o) [
                | inl new ↦ let (l, n) = c.listed p b new in (inr l, n)
                | inr at ↦
                    let (here, same) = one_update q p d b at in (inl (sym here), λ z. h (here ∙ z))
              ];
              covers = λ p l n.
                  overlay-present q d c.pages p
                    (elim l [ inl e ↦ inl e | inr l ↦ inr (c.covers p l n) ]);
            }
      ]
