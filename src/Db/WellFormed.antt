-- ===== src/Db/WellFormed.antt =====
-- The invariant of a database between transactions (db.go), and how pages change under a write of one
-- page and under truncation.
use litefs.Prelude.{
  ℕ, ◌+◌, ◌-◌, ◌*◌, ◌≤◌, ◌<◌, ◌≡◌, sym, ◌∙◌, subst, ◌≢◌, ◌⊎◌, inl, inr, Option, none, some, List,
  arith, length, update, ℕ_discrete, dec_lt,
}
use litefs.Disk.{
  File, read_full_at, write_at, truncate, read-write_self, read-write_other, read-truncate,
}
use litefs.Ltx.{Ltx}

-- Page `p` of a database file.
abbrev pub page_of : ℕ → File → ℕ → Option (List ℕ)
page_of ps f p = read_full_at f ps ((p - 1) * ps)

-- Every checksum in memory is that of the page on disk.
abbrev pub AllMatch : Ltx → ℕ → File → (ℕ → Option ℕ) → Type 0
AllMatch ltx ps f sums =
    (p c : ℕ)
    → sums p ≡ some c
    → (1 ≤ p) × ((d : List ℕ) × (page_of ps f p ≡ some d) × (c ≡ ltx.checksum_page p d))

read_size :
    (f : File) (len off : ℕ) (d : List ℕ)
    → 0 < len
    → read_full_at f len off ≡ some d
    → off + len ≤ f.size
unfolding read_full_at
read_size f len off d h e = ground arith

before_page : (p q ps : ℕ) → 1 ≤ p → p < q → (p - 1) * ps + ps ≤ (q - 1) * ps
before_page p q ps h lt = grind arith

-- A write of page `q` changes that page and no other.
pub page_of-write_self :
    (ps : ℕ) (f : File) (q : ℕ) (bytes : List ℕ)
    → length bytes ≡ ps
    → page_of ps (write_at f bytes ((q - 1) * ps)) q ≡ some bytes
page_of-write_self ps f q bytes e =
    subst (λ n. read_full_at (write_at f bytes ((q - 1) * ps)) n ((q - 1) * ps) ≡ some bytes) e
      (read-write_self f bytes ((q - 1) * ps))

pub page_of-write_other :
    (ps : ℕ) (f : File) (p q : ℕ) (bytes d : List ℕ)
    → length bytes ≡ ps
    → 0 < ps
    → 1 ≤ p
    → 1 ≤ q
    → p ≢ q
    → page_of ps f p ≡ some d
    → page_of ps (write_at f bytes ((q - 1) * ps)) p ≡ some d
page_of-write_other ps f p q bytes d e h hp hq n r =
    read-write_other f bytes ((q - 1) * ps) ps ((p - 1) * ps) apart
      (read_size f ps ((p - 1) * ps) d h r)
    ∙ r
  where
    apart : ((p - 1) * ps + ps ≤ (q - 1) * ps) ⊎ ((q - 1) * ps + length bytes ≤ (p - 1) * ps)
    apart = elim (dec_lt p q) [
      | yes lt ↦ inl (before_page p q ps hp lt)
      | no ge ↦ inr (
          subst (λ t. (q - 1) * ps + t ≤ (p - 1) * ps) (sym e)
            (before_page q p ps hq (omega arith)))
    ]

pub page_of-truncate :
    (ps : ℕ) (f : File) (p n : ℕ) (d : List ℕ)
    → 0 < ps
    → 1 ≤ p
    → p ≤ n
    → page_of ps f p ≡ some d
    → page_of ps (truncate f (n * ps)) p ≡ some d
page_of-truncate ps f p n d h hp le r =
    read-truncate f (n * ps) ps ((p - 1) * ps)
      (subst (λ t. (p - 1) * ps + ps ≤ t * ps) (one_less n)
        (before_page p (n + 1) ps hp (omega arith)))
      (read_size f ps ((p - 1) * ps) d h r)
    ∙ r
  where
    one_less : (n : ℕ) → n + 1 - 1 ≡ n
    one_less n = omega arith

pub write-AllMatch :
    (ltx : Ltx) (ps : ℕ) (f : File) (sums : ℕ → Option ℕ) (q : ℕ) (bytes : List ℕ)
    → length bytes ≡ ps
    → 0 < ps
    → 1 ≤ q
    → AllMatch ltx ps f sums
    → AllMatch ltx ps
        (write_at f bytes ((q - 1) * ps))
        (update sums q (some (ltx.checksum_page q bytes)))
write-AllMatch ltx ps f sums q bytes e h hq all p c s = elim (ℕ_discrete p q) [
  | yes same ↦ (
    omega arith,
    (
      bytes,
      subst (λ t. page_of ps (write_at f bytes ((q - 1) * ps)) t ≡ some bytes) (sym same)
          (page_of-write_self ps f q bytes e),
      ground arith,
    ),
  )
  | no other ↦
      let old = all p c (ground arith) in
      (
        old.0,
        (old.1.0, page_of-write_other ps f p q bytes old.1.0 e h old.0 hq other old.1.1, old.1.2),
      )
]

pub truncate-AllMatch :
    (ltx : Ltx) (ps : ℕ) (f : File) (sums : ℕ → Option ℕ) (n : ℕ)
    → 0 < ps
    → ((p : ℕ) → n < p → sums p ≡ none)
    → AllMatch ltx ps f sums
    → AllMatch ltx ps (truncate f (n * ps)) sums
truncate-AllMatch ltx ps f sums n h cut all p c s = elim (dec_lt n p) [
  | yes gone ↦ absurd (cc (s, cut p gone))
  | no stays ↦
      let old = all p c s in
      (old.0, (old.1.0, page_of-truncate ps f p n old.1.0 h old.0 (omega arith) old.1.1, old.1.2))
]
