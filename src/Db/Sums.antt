-- ===== src/Db/Sums.antt =====
-- The checksum of a database (db.go, checksum and onDiskChecksum) where the checksum of each page in
-- memory is that of the page on disk.
use Prim.Native.Nat.{bit_or, bit_xor}
use litefs.Prelude.{
  ℕ, zero, suc, ◌≤◌, ◌≡◌, refl, sym, ap, ap₂, ◌∙◌, ◌≢◌, ◌⊎◌, inl, inr, Option, some, List, arith,
  ==_iff, ==_ne, ℕ_discrete, bit_xor-zero, bit_or_absorb,
}
use litefs.Ltx.{Ltx}
use litefs.Db.State.{Db}
use litefs.Db.Checksum.{
  add_page, add_page?, add_data?, page_checksum, checksum_upto, checksum, read_page, on_disk_upto,
}

-- A checksum to which a page was added has the flag set, and adding the lock page's 0 changes
-- nothing.
add_page-zero : (ltx : Ltx) (c p : ℕ) → add_page ltx (add_page ltx c p) 0 ≡ add_page ltx c p
unfolding add_page
add_page-zero ltx c p =
    ap (bit_or ltx.checksum_flag) (bit_xor-zero _) ∙ bit_or_absorb ltx.checksum_flag (bit_xor c p)

-- Page `p` on the disk of `disk` has the checksum that is in the memory of `db`.
abbrev pub PageAgrees : Ltx → Db → (ℕ → Option ℕ) → ℕ → Db → ℕ → Type 0
PageAgrees ltx db new page_n disk p =
    (d : List ℕ) × (read_page disk p ≡ some d)
    × (page_checksum ltx db p page_n new ≡ some (ltx.checksum_page p d))

-- So does each page from 1 to `page_n`, but the lock page.
abbrev pub Agrees : Ltx → Db → (ℕ → Option ℕ) → ℕ → Db → Type 0
Agrees ltx db new page_n disk =
    (p : ℕ)
    → 1 ≤ p
    → p ≤ page_n
    → p ≢ ltx.lock_pgno db.page_size
    → PageAgrees ltx db new page_n disk p

module _ (ltx : Ltx) (db disk : Db) (new : ℕ → Option ℕ) (page_n : ℕ)
    (same_size : db.page_size ≡ disk.page_size) (not_first : ltx.lock_pgno db.page_size ≢ 1)
    (agrees : Agrees ltx db new page_n disk) where
  page_checksum-lock :
      (p : ℕ) → p ≡ ltx.lock_pgno db.page_size → page_checksum ltx db p page_n new ≡ some 0
  unfolding page_checksum
  page_checksum-lock p h = ground arith

  record Upto (n : ℕ) : Type 0 where
    chksum : ℕ
    in_memory : checksum_upto ltx db page_n new n ≡ some chksum
    on_disk : on_disk_upto ltx disk n ≡ some chksum
    flagged : (n ≡ 0) ⊎ ((c : ℕ) × ((p : ℕ) × (chksum ≡ add_page ltx c p)))

  Upto-lock : (n : ℕ) → Upto n → suc n ≡ ltx.lock_pgno db.page_size → Upto (suc n)
  unfolding checksum_upto on_disk_upto
  Upto-lock n u h = elim u.flagged [
    | inl z ↦ absurd (not_first (sym h ∙ ap suc z))
    | inr (c, (p, g)) ↦ record {
      chksum = u.chksum;
      in_memory =
          ap₂ (add_page? ltx) u.in_memory (page_checksum-lock (suc n) h)
          ∙ ap some (ap (λ t. add_page ltx t 0) g ∙ add_page-zero ltx c p ∙ sym g);
      on_disk = rw ((==_iff _ _).1 (h ∙ ap ltx.lock_pgno same_size)) u.on_disk;
      flagged = inr (c, (p, g));
    }
  ]

  Upto-page : (n : ℕ) → Upto n → suc n ≤ page_n → suc n ≢ ltx.lock_pgno db.page_size → Upto (suc n)
  unfolding checksum_upto on_disk_upto
  Upto-page n u le h =
      let (d, read, sum) = agrees (suc n) (omega arith) le h in
      record {
        chksum = add_page ltx u.chksum (ltx.checksum_page (suc n) d);
        in_memory = ap₂ (add_page? ltx) u.in_memory sum;
        on_disk =
            rw (==_ne _ _ (λ e. h (e ∙ sym (ap ltx.lock_pgno same_size))))
              (ap₂ (add_data? ltx (suc n)) u.on_disk read);
        flagged = inr (u.chksum, (ltx.checksum_page (suc n) d, refl));
      }

  upto : (n : ℕ) → n ≤ page_n → Upto n
  unfolding checksum_upto on_disk_upto
  upto zero le = record { chksum = 0; in_memory = refl; on_disk = refl; flagged = inl refl }
  upto (suc n) le = elim (ℕ_discrete (suc n) (ltx.lock_pgno db.page_size)) [
    | yes h ↦ Upto-lock n (upto n (omega arith)) h
    | no h ↦ Upto-page n (upto n (omega arith)) le h
  ]

  -- The checksum is defined, and is the one of the pages on disk.
  pub checksum-Agrees :
      (c : ℕ) × ((checksum ltx db page_n new ≡ some c) × (on_disk_upto ltx disk page_n ≡ some c))
  unfolding checksum
  checksum-Agrees = let u = upto page_n (omega arith) in (u.chksum, (u.in_memory, u.on_disk))
